-- ===== src/Chat/Steps/Asks.antt =====
-- What the approvals of simple_chat_agent/worker/workflow.py tell to clients.
use temporal_agent_harness_e.Prelude.{
  ℕ, refl, inl, inr, String, Bool, true, false, Bool-cases, Option, none, some, if◌then◌else◌,
}
use temporal_agent_harness_e.Prelude.Text.{contains}
use temporal_agent_harness_e.Json.{Dict}
use temporal_agent_harness_e.Tools.{find}
use temporal_agent_harness_e.Chat.{
  PendingApproval, ApprovalDecision, Call, ChatState, record_state_change,
}
use temporal_agent_harness_e.Chat.Signals.{
  touch, call, pop_approval, add_memory, signal_child_approval, is_always, resolve_delegated,
  store_decision, resolve_for, resolve_found, resolve_parsed, resolve_approval, expire_found,
  approval_memory_key,
}
use temporal_agent_harness_e.Chat.Approvals.{
  add_approval, ChildToolApprovalRequest, request_new, request_child_approval, ask_approval,
  waited_for, take_decision, end_approval,
}
use temporal_agent_harness_e.Chat.Deltas.Growth.{Quiet, Grows, Grows-same, Grows-after, Grows-state}
use temporal_agent_harness_e.Chat.Steps.Growth.{
  AtMostNotice, Grows-if, weaken-Quiet, Grows-notice, Grows-touch, Grows-call,
}

pub Grows-pop : (approval_id : String) (s : ChatState) → Grows Quiet s (pop_approval approval_id s)
unfolding pop_approval
Grows-pop approval_id s = Grows-same s _ refl refl

pub Grows-add_memory : (key : String) (s : ChatState) → Grows Quiet s (add_memory key s)
unfolding add_memory
Grows-add_memory key s = elim (Bool-cases (contains s.approval_memory key)) [
  | inl e ↦ rw e (Grows-same s s refl refl)
  | inr e ↦ rw e (Grows-same s _ refl refl)
]

pub Grows-signal :
    (workflow child : String) (d : ApprovalDecision) (failure : Option String) (s : ChatState)
    → Grows AtMostNotice s (signal_child_approval workflow child d failure s)
unfolding signal_child_approval
Grows-signal workflow child d none s = weaken-Quiet s _ (Grows-call _ s)
Grows-signal workflow child d (some failure) s =
    Grows-after s (call (Call.resolve_delegated_approval workflow child d) s) _ (Grows-call _ s)
      (Grows-notice _ _)

pub Grows-delegated :
    (a : PendingApproval) (approval_id : String) (d : ApprovalDecision) (failure : Option String)
    (workflow child : String) (s : ChatState)
    → Grows AtMostNotice s (resolve_delegated a approval_id d failure workflow child s)
unfolding resolve_delegated
Grows-delegated a approval_id d failure workflow child s =
    let popped = pop_approval approval_id s in
    let kept = if is_always d then add_memory a.memory_key popped else popped in
    Grows-after s kept _
      (Grows-if (is_always d) s _ _
        (Grows-after s popped _ (Grows-pop approval_id s) (Grows-add_memory _ _))
        (Grows-pop approval_id s))
      (Grows-after kept (record_state_change kept) _ (Grows-state kept) (Grows-signal _ _ _ _ _))

pub Grows-resolve_for :
    (a : PendingApproval) (approval_id : String) (d : ApprovalDecision)
    (failure workflow child : Option String) (s : ChatState)
    → Grows AtMostNotice s (resolve_for a approval_id d failure workflow child s)
unfolding resolve_for store_decision
Grows-resolve_for a approval_id d failure (some workflow) (some child) s =
    Grows-delegated a approval_id d failure workflow child s
Grows-resolve_for a approval_id d failure (some workflow) none s =
    weaken-Quiet s _ (Grows-same s _ refl refl)
Grows-resolve_for a approval_id d failure none child s = weaken-Quiet s _ (Grows-same s _ refl refl)

pub Grows-resolve_found :
    (o : Option PendingApproval) (approval_id : String) (d : ApprovalDecision)
    (failure : Option String) (s : ChatState)
    → Grows AtMostNotice s (resolve_found o approval_id d failure s)
unfolding resolve_found
Grows-resolve_found none approval_id d failure s = Grows-notice _ s
Grows-resolve_found (some a) approval_id d failure s =
    Grows-resolve_for a approval_id d failure _ _ s

pub Grows-resolve_parsed :
    (d : Option ApprovalDecision) (approval_id decision : String) (failure : Option String)
    (s : ChatState)
    → Grows AtMostNotice s (resolve_parsed d approval_id decision failure s)
unfolding resolve_parsed
Grows-resolve_parsed none approval_id decision failure s = Grows-notice _ s
Grows-resolve_parsed (some d) approval_id decision failure s =
    Grows-resolve_found _ approval_id d failure s

pub Grows-resolve :
    (approval_id decision : String) (failure : Option String) (now : ℕ) (s : ChatState)
    → Grows AtMostNotice s (resolve_approval approval_id decision failure now s)
unfolding resolve_approval
Grows-resolve approval_id decision failure now s =
    Grows-after s (touch now s) _ (Grows-touch now s)
      (Grows-resolve_parsed _ approval_id decision failure _)

pub Grows-expire_found : (o : Option String) (s : ChatState) → Grows Quiet s (expire_found o s)
unfolding expire_found
Grows-expire_found none s = Grows-same s s refl refl
Grows-expire_found (some approval_id) s =
    Grows-after s (pop_approval approval_id s) _ (Grows-pop approval_id s) (Grows-state _)

pub Grows-add_approval : (a : PendingApproval) (s : ChatState) → Grows Quiet s (add_approval a s)
unfolding add_approval record_state_change
Grows-add_approval a s = Grows-same s _ refl refl

pub Grows-request_new :
    (o : Option String) (r : ChildToolApprovalRequest) (expires_at : String) (s : ChatState)
    → Grows Quiet s (request_new o r expires_at s)
unfolding request_new
Grows-request_new (some approval_id) r expires_at s = Grows-same s s refl refl
Grows-request_new none r expires_at s = Grows-add_approval _ s

pub Grows-request :
    (r : ChildToolApprovalRequest) (expires_at : String) (failure : Option String) (s : ChatState)
    → Grows AtMostNotice s (request_child_approval r expires_at failure s)
unfolding request_child_approval
Grows-request r expires_at failure s =
    Grows-if (contains s.approval_memory (approval_memory_key r.tool_name r.tool_args)) s _ _
      (Grows-signal _ _ _ failure s) (weaken-Quiet s _ (Grows-request_new _ r expires_at s))

pub Grows-ask :
    (tool_name : String) (args : Dict) (expires_at : String) (s : ChatState)
    → Grows Quiet s (ask_approval tool_name args expires_at s).1
unfolding ask_approval
Grows-ask tool_name args expires_at s =
    elim (Bool-cases (contains s.approval_memory (approval_memory_key tool_name args))) [
      | inl e ↦ rw e (Grows-same s s refl refl)
      | inr e ↦ rw e (Grows-add_approval _ s)
    ]

pub Grows-take :
    (timed_out : Bool) (approval_id : String) (s : ChatState)
    → Grows Quiet s (take_decision timed_out approval_id s)
unfolding take_decision
Grows-take true approval_id s = Grows-same s s refl refl
Grows-take false approval_id s = Grows-same s _ refl refl

pub Grows-end :
    (timed_out : Bool) (approval_id key : String) (s : ChatState)
    → Grows Quiet s (end_approval timed_out approval_id key s).1
unfolding end_approval
Grows-end timed_out approval_id key s =
    let taken = take_decision timed_out approval_id s in
    let popped = pop_approval approval_id taken in
    let closed = record_state_change popped in
    let to_closed =
      Grows-after s taken closed (Grows-take timed_out approval_id s)
        (Grows-after taken popped closed (Grows-pop approval_id taken) (Grows-state popped)) in
    Grows-if (is_always (waited_for timed_out (find approval_id s.approval_decisions))) s _ _
      (Grows-after s closed _ to_closed (Grows-add_memory key closed)) to_closed
