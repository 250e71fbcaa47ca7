-- ===== src/Chat/Signals.antt =====
-- The signals of simple_chat_agent/worker/workflow.py and the approvals of tools, with the keys and the
-- summaries that approvals carry. `now` is workflow.now(), and `expires_at` the time that
-- _approval_expires_at writes. A call of another workflow that fails gives the text of its failure.
use Prim.Native.String.{◌++◌ as join}
use temporal_agent_harness_e.Prelude.{
  ℕ, String, Bool, true, false, ◌&&◌, Option, none, some, List, [], ◌∷◌, ◌++◌, str_eq,
  if◌then◌else◌,
}
use temporal_agent_harness_e.Prelude.Int.{ℤ, pos, pos_part}
use temporal_agent_harness_e.Prelude.Text.{contains}
use temporal_agent_harness_e.Json.{Dict, get_str}
use temporal_agent_harness_e.Attachments.{AttachmentRef, concat}
use temporal_agent_harness_e.Tools.{find, assign}
use temporal_agent_harness_e.Chat.{
  QueuedChatMessage, PendingApproval, Status, responding, ApprovalDecision, allow, always_allow,
  deny, SteeringMode, immediate, after_next_tool_result, Call, ChatState, record_state_change,
  record_transcript_change, record_system_message, chat_message_for_queue, next_transcript_index,
}

unfoldable pub touch : ℕ → ChatState → ChatState
touch now s = record s { last_touched_at = now; touched_this_run = true }

-- The message that _enqueue_chat adds.
unfoldable pub queued :
    ChatState
    → String
    → List AttachmentRef
    → ℤ
    → Option (List String)
    → Option String
    → Option (List Dict)
    → QueuedChatMessage
queued s content attachments settle_after_revision names connection servers = record {
  content = content;
  transcript_index = next_transcript_index s;
  attachments = attachments;
  settle_after_revision = pos_part settle_after_revision;
  available_tool_names = names;
  github_connection_id = connection;
  mcp_servers = servers;
}

unfoldable pub enqueue_chat : QueuedChatMessage → ChatState → ChatState
enqueue_chat q s = record s { pending_messages = s.pending_messages ++ q ∷ [] }

-- What `chat`, `steer` and `interrupt` share: the message waits, and both revisions grow.
unfoldable pub enqueue_and_record : QueuedChatMessage → ChatState → ChatState
enqueue_and_record q s = record_state_change (
    record_transcript_change (some q.transcript_index) (some (chat_message_for_queue q))
      (enqueue_chat q s))

pub record ChatSignalRequest : Type 0 where
  pub message : String
  pub attachments : List AttachmentRef
  pub after_revision : ℤ
  pub available_tool_names : List String
  pub github_connection_id : Option String
  pub mcp_servers : List Dict

unfoldable pub chat : ChatSignalRequest → ℕ → ChatState → ChatState
chat r now s =
    let t = touch now s in
    enqueue_and_record
      (queued t r.message r.attachments r.after_revision (some r.available_tool_names)
        r.github_connection_id (some r.mcp_servers))
      t

unfoldable pub delete : ChatState → ChatState
delete s = record_state_change (record s { delete_requested = true })

unfoldable pub call : Call → ChatState → ChatState
call c s = record s { calls = s.calls ++ c ∷ [] }

unfoldable pub steering_mode : String → Option SteeringMode
steering_mode mode =
    if str_eq mode "immediate"
    then some immediate
    else if str_eq mode "after_next_tool_result"
    then some after_next_tool_result
    else none

steering_label : SteeringMode → String
steering_label immediate = "before the next provider call"
steering_label after_next_tool_result = "after the next tool result"

unfoldable pub steer_agent : String → String → Option SteeringMode → ChatState → ChatState
unfolding steering_label
steer_agent content mode none s = record_system_message (join "Unknown steering mode: " mode) s
steer_agent content mode (some m) s =
    if s.agent_ready
    then record_system_message
        (concat ("Steering queued " ∷ steering_label m ∷ ": " ∷ content ∷ []))
        (call (Call.steer_agent content m) s)
    else record_system_message "Agent is not ready yet; steering was ignored." s

-- Steering with attachments is a message for the queue.
unfoldable pub steer : String → String → List AttachmentRef → ℕ → ChatState → ChatState
unfolding steering_mode steer_agent
steer content mode [] now s = steer_agent content mode (steering_mode mode) (touch now s)
steer content mode (a ∷ rest) now s =
    let t = touch now s in enqueue_and_record (queued t content (a ∷ rest) (pos 0) none none none) t

unfoldable pub is_responding : Status → Bool
is_responding responding = true
is_responding _ = false

unfoldable pub interrupt : String → ℕ → ChatState → ChatState
unfolding is_responding
interrupt content now s =
    let t = touch now s in
    if t.agent_ready && is_responding t.status
    then record_system_message (join "Interrupt sent; provider will continue with: " content)
        (call (Call.interrupt_agent content) t)
    else enqueue_and_record (queued t content [] (pos 0) none none none) t

-- d.pop(key, None)
unfoldable pub remove {ℓ} : {V : Type ℓ} → String → List (String × V) → List (String × V)
remove k [] = []
remove k ((j, v) ∷ d) = if str_eq j k then d else (j, v) ∷ remove k d

unfoldable pub pop_approval : String → ChatState → ChatState
pop_approval approval_id s = record s { pending_approvals = remove approval_id s.pending_approvals }

-- set.add
unfoldable pub add_memory : String → ChatState → ChatState
add_memory key s =
    if contains s.approval_memory key
    then s
    else record s { approval_memory = s.approval_memory ++ key ∷ [] }

unfoldable pub signal_child_approval :
    String → String → ApprovalDecision → Option String → ChatState → ChatState
signal_child_approval workflow_id approval_id decision none s =
    call (Call.resolve_delegated_approval workflow_id approval_id decision) s
signal_child_approval workflow_id approval_id decision (some failure) s =
    record_system_message
      (concat
        ("Could not deliver approval decision to subagent " ∷ workflow_id ∷ ": " ∷ failure ∷ []))
      (call (Call.resolve_delegated_approval workflow_id approval_id decision) s)

unfoldable pub is_always : ApprovalDecision → Bool
is_always always_allow = true
is_always _ = false

-- The decisions that resolve_approval accepts.
unfoldable pub parse_decision : String → Option ApprovalDecision
parse_decision d =
    if str_eq d "allow"
    then some allow
    else if str_eq d "always_allow"
    then some always_allow
    else if str_eq d "deny"
    then some deny
    else none

unfoldable pub resolve_delegated :
    PendingApproval
    → String
    → ApprovalDecision
    → Option String
    → String
    → String
    → ChatState
    → ChatState
unfolding is_always
resolve_delegated a approval_id decision failure workflow child s =
    let popped = pop_approval approval_id s in
    signal_child_approval workflow child decision failure
      (record_state_change (if is_always decision then add_memory a.memory_key popped else popped))

unfoldable pub store_decision : String → ApprovalDecision → ChatState → ChatState
store_decision approval_id decision s = record s {
  approval_decisions = assign approval_id decision s.approval_decisions;
}

-- An approval that another workflow requested is passed on; one of this workflow wakes its waiter.
unfoldable pub resolve_for :
    PendingApproval
    → String
    → ApprovalDecision
    → Option String
    → Option String
    → Option String
    → ChatState
    → ChatState
unfolding resolve_delegated store_decision
resolve_for a approval_id decision failure (some workflow) (some child) s =
    resolve_delegated a approval_id decision failure workflow child s
resolve_for a approval_id decision failure _ _ s = store_decision approval_id decision s

unfoldable pub resolve_found :
    Option PendingApproval → String → ApprovalDecision → Option String → ChatState → ChatState
unfolding resolve_for
resolve_found none approval_id decision failure s =
    record_system_message (join "Approval is no longer pending: " approval_id) s
resolve_found (some a) approval_id decision failure s =
    resolve_for a approval_id decision failure a.requesting_workflow_id a.requesting_approval_id s

unfoldable pub resolve_parsed :
    Option ApprovalDecision → String → String → Option String → ChatState → ChatState
unfolding resolve_found
resolve_parsed none approval_id text failure s =
    record_system_message (join "Unknown approval decision: " text) s
resolve_parsed (some decision) approval_id text failure s =
    resolve_found (find approval_id s.pending_approvals) approval_id decision failure s

unfoldable pub resolve_approval : String → String → Option String → ℕ → ChatState → ChatState
unfolding resolve_parsed
resolve_approval approval_id decision failure now s =
    resolve_parsed (parse_decision decision) approval_id decision failure (touch now s)

is_text : Option String → String → Bool
is_text none s = false
is_text (some t) s = str_eq t s

unfoldable pub is_requested_by : String → String → PendingApproval → Bool
unfolding is_text
is_requested_by workflow child a =
    is_text a.requesting_workflow_id workflow && is_text a.requesting_approval_id child

-- The first approval of a child workflow under an id of the child's.
unfoldable pub find_delegated : String → String → List (String × PendingApproval) → Option String
find_delegated workflow child [] = none
find_delegated workflow child ((approval_id, a) ∷ rest) =
    if is_requested_by workflow child a
    then some approval_id
    else find_delegated workflow child rest

unfoldable pub expire_found : Option String → ChatState → ChatState
expire_found none s = s
expire_found (some approval_id) s = record_state_change (pop_approval approval_id s)

unfoldable pub expire_child_approval : String → String → ChatState → ChatState
unfolding expire_found
expire_child_approval workflow child s =
    expire_found (find_delegated workflow child s.pending_approvals) s

key_for : String → Option String → Option String → String
key_for tool_name (some owner) (some repo) = concat (tool_name ∷ ":" ∷ owner ∷ "/" ∷ repo ∷ [])
key_for tool_name _ _ = tool_name

unfoldable pub approval_memory_key : String → Dict → String
unfolding key_for
approval_memory_key tool_name args = key_for tool_name (get_str "owner" args) (get_str "repo" args)
