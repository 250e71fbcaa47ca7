-- ===== src/Chat/Approvals.antt =====
-- Requests for the approval of a tool in simple_chat_agent/worker/workflow.py. The wait of
-- _request_tool_approval splits it in two: the request, and what follows when the wait ends.
use Prim.Native.Char.{code}
use Prim.Native.String.{String, ◌++◌ as join}
use temporal_agent_harness_e.Prelude.{
  suc, Bool, true, false, Option, none, some, [], ◌∷◌, str_eq, ltb, if◌then◌else◌,
}
use temporal_agent_harness_e.Prelude.Text.{
  is_blank, contains, decimal, strip, text_length, text_take, is_space,
}
use temporal_agent_harness_e.Json.{Dict, get_str}
use temporal_agent_harness_e.Attachments.{concat}
use temporal_agent_harness_e.Tools.{find, assign}
use temporal_agent_harness_e.Chat.{
  PendingApproval, ApprovalDecision, allow, expired, cancelled, ChatState, record_state_change,
}
use temporal_agent_harness_e.Chat.Signals.{
  remove, pop_approval, add_memory, is_always, find_delegated, signal_child_approval,
  approval_memory_key,
}

-- Runs of white space become one blank: " ".join(s.split()) for a stripped text.
unfoldable pub squeeze : Bool → String → String
squeeze gap String.[] = ""
squeeze gap (String.◌∷◌ c s) =
    let in_gap = squeeze true s in
    let after = squeeze false s in
    if is_space (code c)
    then in_gap
    else if gap
    then join " " (String.◌∷◌ c after)
    else String.◌∷◌ c after

issue_summary : Option String → Option String → Option String → Option String
issue_summary (some owner) (some repo) (some title) =
    if is_blank title
    then some (concat ("Open GitHub issue in " ∷ owner ∷ "/" ∷ repo ∷ []))
    else some (concat ("Open GitHub issue in " ∷ owner ∷ "/" ∷ repo ∷ ": " ∷ title ∷ []))
issue_summary (some owner) (some repo) none =
    some (concat ("Open GitHub issue in " ∷ owner ∷ "/" ∷ repo ∷ []))
issue_summary _ _ _ = none

shortened : String → String
shortened preview =
    if ltb 96 (text_length preview) then join (text_take 93 preview) "..." else preview

code_summary : Option String → String
unfolding squeeze shortened
code_summary none = "Execute Python sandbox code"
code_summary (some source) =
    if is_blank (strip source)
    then "Execute Python sandbox code"
    else join "Execute Python sandbox code: " (shortened (squeeze false (strip source)))

artifact_summary : Option String → String
artifact_summary none = "Create artifact"
artifact_summary (some name) =
    if is_blank (strip name) then "Create artifact" else join "Create artifact: " (strip name)

other_summary : String → Dict → String
unfolding code_summary artifact_summary
other_summary tool_name args =
    if str_eq tool_name "python_sandbox"
    then code_summary (get_str "code" args)
    else if str_eq tool_name "create_artifact"
    then artifact_summary (get_str "name" args)
    else join "Run mutating tool: " tool_name

or_other : Option String → String → String
or_other none other = other
or_other (some s) other = s

unfoldable pub approval_summary : String → Dict → String
unfolding issue_summary other_summary or_other
approval_summary tool_name args =
    if str_eq tool_name "github_open_issue"
    then or_other
        (issue_summary (get_str "owner" args) (get_str "repo" args) (get_str "title" args))
        (other_summary tool_name args)
    else other_summary tool_name args

-- The identifier of the next approval.
unfoldable pub next_approval_id : ChatState → String
next_approval_id s = join "approval-" (decimal (suc s.approval_counter))

unfoldable pub add_approval : PendingApproval → ChatState → ChatState
add_approval a s = record_state_change (record s {
  approval_counter = suc s.approval_counter;
  pending_approvals = assign a.approval_id a s.pending_approvals;
})

unfoldable pub new_approval :
    ChatState → String → Dict → String → String → Option String → Option String → PendingApproval
unfolding next_approval_id
new_approval s tool_name args summary expires_at workflow child = record {
  approval_id = next_approval_id s;
  tool_name = tool_name;
  tool_args = args;
  summary = summary;
  memory_key = approval_memory_key tool_name args;
  expires_at = some expires_at;
  requesting_workflow_id = workflow;
  requesting_approval_id = child;
}

pub record ChildToolApprovalRequest : Type 0 where
  pub child_workflow_id : String
  pub child_approval_id : String
  pub tool_name : String
  pub tool_args : Dict

-- A request that waits already is not added again.
unfoldable pub request_new :
    Option String → ChildToolApprovalRequest → String → ChatState → ChatState
unfolding new_approval approval_summary
request_new (some approval_id) r expires_at s = s
request_new none r expires_at s =
    add_approval
      (new_approval s r.tool_name r.tool_args
        (join "Subagent requested: " (approval_summary r.tool_name r.tool_args)) expires_at
        (some r.child_workflow_id) (some r.child_approval_id))
      s

unfoldable pub request_child_approval :
    ChildToolApprovalRequest → String → Option String → ChatState → ChatState
unfolding request_new
request_child_approval r expires_at failure s =
    if contains s.approval_memory (approval_memory_key r.tool_name r.tool_args)
    then signal_child_approval r.child_workflow_id r.child_approval_id allow failure s
    else request_new (find_delegated r.child_workflow_id r.child_approval_id s.pending_approvals) r
        expires_at s

-- _request_tool_approval up to its wait: an answer at once, or the approval to wait for.
unfoldable pub ask_approval :
    String → Dict → String → ChatState → Option ApprovalDecision × ChatState
unfolding new_approval
ask_approval tool_name args expires_at s =
    if contains s.approval_memory (approval_memory_key tool_name args) then (some allow, s) else (
      none,
      add_approval
          (new_approval s tool_name args (approval_summary tool_name args) expires_at none none) s,
    )

-- What the wait ended with: after a timeout, or else a decision if there is one.
unfoldable pub waited_for : Bool → Option ApprovalDecision → ApprovalDecision
waited_for true _ = expired
waited_for false none = cancelled
waited_for false (some d) = d

unfoldable pub take_decision : Bool → String → ChatState → ChatState
take_decision true approval_id s = s
take_decision false approval_id s = record s {
  approval_decisions = remove approval_id s.approval_decisions;
}

-- _request_tool_approval after its wait.
unfoldable pub end_approval : Bool → String → String → ChatState → ApprovalDecision × ChatState
unfolding take_decision
end_approval timed_out approval_id memory_key s =
    let decision = waited_for timed_out (find approval_id s.approval_decisions) in
    let closed =
      record_state_change (pop_approval approval_id (take_decision timed_out approval_id s)) in
    (decision, if is_always decision then add_memory memory_key closed else closed)
