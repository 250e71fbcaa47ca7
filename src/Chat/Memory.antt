-- ===== src/Chat/Memory.antt =====
-- Which approvals simple_chat_agent/worker/workflow.py remembers for later calls of a tool.
pub mod Always
use temporal_agent_harness_e.Prelude.{
  ℕ, suc, ◌≡◌, refl, inl, inr, ◌≢◌, String, Bool, true, false, Bool-cases, ◌&&◌, Option, none, some,
  List, [], ◌∷◌, ◌++◌, append-nil, append_assoc, if◌then◌else◌,
}
use temporal_agent_harness_e.Prelude.Int.{ℤ, pos, pos_part}
use temporal_agent_harness_e.Prelude.Text.{contains}
use temporal_agent_harness_e.Json.{Dict}
use temporal_agent_harness_e.Attachments.{AttachmentRef}
use temporal_agent_harness_e.Tools.{find, assign}
use temporal_agent_harness_e.Chat.{
  ChatMessage, QueuedChatMessage, PendingApproval, Status, ApprovalDecision, SteeringMode, Call,
  ChatState, record_state_change, record_transcript_change, record_system_message,
  chat_message_for_queue, rendered_transcript,
}
use temporal_agent_harness_e.Chat.Signals.{
  touch, queued, enqueue_chat, enqueue_and_record, ChatSignalRequest, chat, delete, call,
  steering_mode, steer_agent, steer, is_responding, interrupt, pop_approval, add_memory,
  signal_child_approval, is_always, parse_decision, resolve_delegated, store_decision, resolve_for,
  resolve_found, resolve_parsed, resolve_approval, find_delegated, expire_found,
  expire_child_approval, approval_memory_key,
}
use temporal_agent_harness_e.Chat.Approvals.{
  add_approval, new_approval, ChildToolApprovalRequest, request_new, request_child_approval,
  ask_approval, waited_for, take_decision, end_approval,
}
use temporal_agent_harness_e.Chat.Turns.{
  ActiveTurn, apply_tool_config, apply_queued_tool_config, activate, activate_next_queued_message,
  begin_turn, clear_active_turn, record_latest, record_latest_rendered_message_change, effective_at,
  record_effective_user_prompt_if_needed, TurnEnd, finished, failed_with, end_turn, continued,
}
use temporal_agent_harness_e.Chat.Deltas.{
  Log, Logged, TranscriptDeltaResult, Answers, transcript_deltas_since,
  transcript_deltas_since-Answers,
}
use temporal_agent_harness_e.Chat.Deltas.Growth.{
  Grows, Grows-same, Grows-trans, Grows-record, Grows-system, Grows-state,
}
use temporal_agent_harness_e.Chat.Steps.{
  Step, chat_sent, delete_sent, steer_sent, interrupt_sent, approval_resolved,
  child_approval_expired, child_approval_requested, approval_asked, approval_ended,
  message_activated, turn_begun, agent_worked, turn_ended, run_continued, activated, run_step,
  run_steps,
}
use temporal_agent_harness_e.Prelude.{◌⊎◌, ◌∙◌, arith, str_eq, eq_iff}
use temporal_agent_harness_e.Chat.{always_allow}

-- The steps by which a user allows a key for good: the decision on a pending approval that a subagent
-- asked for, and the decision that a waiting tool call of this chat takes.
pub data AlwaysAllows (s : ChatState) (key : String) : Step → Type 0 where
  delegated :
      {approval_id decision : String} {failure : Option String} {now : ℕ} {a : PendingApproval}
      {workflow child : String}
      → parse_decision decision ≡ some always_allow
      → find approval_id s.pending_approvals ≡ some a
      → a.requesting_workflow_id ≡ some workflow
      → a.requesting_approval_id ≡ some child
      → a.memory_key ≡ key
      → AlwaysAllows s key (approval_resolved approval_id decision failure now)
  waited :
      {approval_id : String}
      → find approval_id s.approval_decisions ≡ some always_allow
      → AlwaysAllows s key (approval_ended false approval_id key)

contains-append :
    (xs : List String) (x key : String)
    → contains (xs ++ x ∷ []) key ≡ true
    → (contains xs key ≡ true) ⊎ (x ≡ key)
unfolding contains
contains-append [] x key h = inr (ground (arith, h, eq_iff x key))
contains-append (y ∷ xs) x key h = elim (Bool-cases (str_eq y key)) [
  | inl e ↦ inl (rw e refl)
  | inr e ↦ rw e (contains-append xs x key (rw e at h))
]

add_memory-cases :
    (key : String) (s : ChatState)
    → ((add_memory key s).approval_memory ≡ s.approval_memory)
      ⊎ ((add_memory key s).approval_memory ≡ s.approval_memory ++ key ∷ [])
unfolding add_memory
add_memory-cases key s = elim (Bool-cases (contains s.approval_memory key)) [
  | inl e ↦ inl (rw e refl)
  | inr e ↦ inr (rw e refl)
]

pub add_memory-new :
    (key k : String) (s : ChatState)
    → contains (add_memory key s).approval_memory k ≡ true
    → (contains s.approval_memory k ≡ true) ⊎ (key ≡ k)
add_memory-new key k s h = elim (add_memory-cases key s) [
  | inl e ↦ inl (rw e at h)
  | inr e ↦ contains-append s.approval_memory key k (rw e at h)
]

abbrev pub Kept : ChatState → ChatState → Type 0
Kept s t = t.approval_memory ≡ s.approval_memory

pub Kept-if : (b : Bool) (s t u : ChatState) → Kept s t → Kept s u → Kept s (if b then t else u)
Kept-if true s t u a c = a
Kept-if false s t u a c = c

pub Kept-system : (content : String) (s : ChatState) → Kept s (record_system_message content s)
unfolding record_system_message record_transcript_change
Kept-system content s = refl

pub Kept-enqueue : (q : QueuedChatMessage) (s : ChatState) → Kept s (enqueue_and_record q s)
unfolding enqueue_and_record enqueue_chat record_state_change record_transcript_change
Kept-enqueue q s = refl

pub Kept-steer_agent :
    (content mode : String) (m : Option SteeringMode) (s : ChatState)
    → Kept s (steer_agent content mode m s)
unfolding steer_agent call
Kept-steer_agent content mode none s = Kept-system _ s
Kept-steer_agent content mode (some m) s =
    Kept-if s.agent_ready s _ _ (Kept-system _ (call (Call.steer_agent content m) s))
      (Kept-system _ s)

pub Kept-steer :
    (content mode : String) (attachments : List AttachmentRef) (now : ℕ) (s : ChatState)
    → Kept s (steer content mode attachments now s)
unfolding steer touch
Kept-steer content mode [] now s = Kept-steer_agent content mode _ (touch now s)
Kept-steer content mode (a ∷ rest) now s = Kept-enqueue _ (touch now s)

pub Kept-interrupt : (content : String) (now : ℕ) (s : ChatState) → Kept s (interrupt content now s)
unfolding interrupt touch call
Kept-interrupt content now s =
    Kept-if (s.agent_ready && is_responding s.status) s _ _
      (Kept-system _ (call (Call.interrupt_agent content) (touch now s)))
      (Kept-enqueue _ (touch now s))

pub Kept-signal :
    (workflow child : String) (d : ApprovalDecision) (failure : Option String) (s : ChatState)
    → Kept s (signal_child_approval workflow child d failure s)
unfolding signal_child_approval call
Kept-signal workflow child d none s = refl
Kept-signal workflow child d (some failure) s =
    Kept-system _ (call (Call.resolve_delegated_approval workflow child d) s)

pub Kept-expire_found : (o : Option String) (s : ChatState) → Kept s (expire_found o s)
unfolding expire_found record_state_change pop_approval
Kept-expire_found none s = refl
Kept-expire_found (some approval_id) s = refl

pub Kept-add_approval : (a : PendingApproval) (s : ChatState) → Kept s (add_approval a s)
unfolding add_approval record_state_change
Kept-add_approval a s = refl

pub Kept-request_new :
    (o : Option String) (r : ChildToolApprovalRequest) (expires_at : String) (s : ChatState)
    → Kept s (request_new o r expires_at s)
unfolding request_new
Kept-request_new (some approval_id) r expires_at s = refl
Kept-request_new none r expires_at s = Kept-add_approval _ s

pub Kept-request :
    (r : ChildToolApprovalRequest) (expires_at : String) (failure : Option String) (s : ChatState)
    → Kept s (request_child_approval r expires_at failure s)
unfolding request_child_approval
Kept-request r expires_at failure s =
    Kept-if (contains s.approval_memory (approval_memory_key r.tool_name r.tool_args)) s _ _
      (Kept-signal _ _ _ failure s) (Kept-request_new _ r expires_at s)

pub Kept-ask :
    (tool_name : String) (args : Dict) (expires_at : String) (s : ChatState)
    → Kept s (ask_approval tool_name args expires_at s).1
unfolding ask_approval
Kept-ask tool_name args expires_at s =
    elim (Bool-cases (contains s.approval_memory (approval_memory_key tool_name args))) [
      | inl e ↦ rw e refl
      | inr e ↦ rw e (Kept-add_approval _ s)
    ]

pub Kept-config :
    (names : Option (List String)) (q : QueuedChatMessage) (s : ChatState)
    → Kept s (apply_tool_config names q s)
unfolding apply_tool_config
Kept-config none q s = refl
Kept-config (some names) q s = refl

pub Kept-activate :
    (qs : List QueuedChatMessage) (s : ChatState) → Kept s (activated (activate qs s) s)
unfolding activated activate apply_queued_tool_config
Kept-activate [] s = refl
Kept-activate (q ∷ qs) s = Kept-config q.available_tool_names q _

pub Kept-effective_at :
    (i : Option ℕ) (effective : Option String) (s : ChatState) → Kept s (effective_at i effective s)
unfolding effective_at record_transcript_change
Kept-effective_at none effective s = refl
Kept-effective_at (some i) none s = refl
Kept-effective_at (some i) (some effective) s = refl

pub Kept-effective :
    (censor : Bool) (effective : Option String) (s : ChatState)
    → Kept s (record_effective_user_prompt_if_needed censor effective s)
unfolding record_effective_user_prompt_if_needed
Kept-effective false effective s = refl
Kept-effective true effective s = Kept-if s.agent_ready s _ _ (Kept-effective_at _ effective s) refl

pub Kept-record :
    (i : Option ℕ) (m : Option ChatMessage) (s : ChatState)
    → Kept s (record_transcript_change i m s)
unfolding record_transcript_change
Kept-record none m s = refl
Kept-record (some i) none s = refl
Kept-record (some i) (some m) s = refl

pub Kept-latest :
    (transcript : List ChatMessage) (s : ChatState) → Kept s (record_latest transcript s)
unfolding record_latest
Kept-latest [] s = Kept-record _ _ s
Kept-latest (m ∷ rest) s = Kept-record _ _ s

pub Kept-end_turn : (censor : Bool) (end : TurnEnd) (s : ChatState) → Kept s (end_turn censor end s)
unfolding end_turn record_latest_rendered_message_change clear_active_turn record_state_change
Kept-end_turn censor (finished effective) s =
    Kept-latest _ (record_effective_user_prompt_if_needed censor effective s)
    ∙ Kept-effective censor effective s
Kept-end_turn censor (failed_with message) s = Kept-system message s
