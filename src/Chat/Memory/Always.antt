-- ===== src/Chat/Memory/Always.antt =====
-- A tool that needs approval is allowed without a question only after a user allowed it for good.
use temporal_agent_harness_e.Prelude.{
  ℕ, ◌≡◌, refl, inl, inr, String, Bool, true, false, Option, none, some, if◌then◌else◌,
}
use temporal_agent_harness_e.Prelude.Text.{contains}
use temporal_agent_harness_e.Tools.{find}
use temporal_agent_harness_e.Chat.{
  PendingApproval, ApprovalDecision, ChatState, record_state_change,
}
use temporal_agent_harness_e.Chat.Signals.{
  touch, chat, delete, pop_approval, add_memory, is_always, parse_decision, resolve_delegated,
  store_decision, resolve_for, resolve_found, resolve_parsed, resolve_approval,
  expire_child_approval,
}
use temporal_agent_harness_e.Chat.Approvals.{waited_for, take_decision, end_approval}
use temporal_agent_harness_e.Chat.Turns.{activate_next_queued_message, begin_turn, continued}
use temporal_agent_harness_e.Chat.Steps.{
  Step, chat_sent, delete_sent, steer_sent, interrupt_sent, approval_resolved,
  child_approval_expired, child_approval_requested, approval_asked, approval_ended,
  message_activated, turn_begun, agent_worked, turn_ended, run_continued, run_step,
}
use temporal_agent_harness_e.Prelude.{◌⊎◌, ap, ◌∙◌}
use temporal_agent_harness_e.Chat.{allow, always_allow, deny, expired, cancelled}
use temporal_agent_harness_e.Chat.Memory.{
  AlwaysAllows, delegated, waited, Kept, Kept-system, Kept-enqueue, Kept-steer, Kept-interrupt,
  Kept-signal, Kept-expire_found, Kept-request, Kept-ask, Kept-activate, Kept-end_turn,
  add_memory-new,
}

-- In the memory of `t` stands only what stood in that of `s`, or `key`, when the decision is for good.
abbrev News : ChatState → ChatState → ApprovalDecision → String → Type 0
News s t d key =
    (k : String)
    → contains t.approval_memory k ≡ true
    → (contains s.approval_memory k ≡ true) ⊎ ((d ≡ always_allow) × (key ≡ k))

remembered :
    (s : ChatState) (d : ApprovalDecision) (key : String)
    → News s (if is_always d then add_memory key s else s) d key
unfolding is_always
remembered s allow key k h = inl h
remembered s deny key k h = inl h
remembered s expired key k h = inl h
remembered s cancelled key k h = inl h
remembered s always_allow key k h = elim (add_memory-new key k s h) [
  | inl old ↦ inl old
  | inr new ↦ inr (refl, new)
]

News-delegated :
    (a : PendingApproval) (approval_id : String) (d : ApprovalDecision) (failure : Option String)
    (workflow child : String) (s : ChatState)
    → News s (resolve_delegated a approval_id d failure workflow child s) d a.memory_key
unfolding resolve_delegated record_state_change pop_approval
News-delegated a approval_id d failure workflow child s k h =
    let popped = pop_approval approval_id s in
    let kept = if is_always d then add_memory a.memory_key popped else popped in
    remembered popped d a.memory_key k
      (rw (Kept-signal workflow child d failure (record_state_change kept)) at h)

-- What a decision for good on the approval `a` of a subagent adds.
abbrev NewOf : PendingApproval → ApprovalDecision → Option String → Option String → String → Type 0
NewOf a d workflow child k =
    (d ≡ always_allow)
    × (a.memory_key ≡ k)
    × ((w : String) × (workflow ≡ some w))
    × ((c : String) × (child ≡ some c))

resolve_for-News :
    (a : PendingApproval) (approval_id : String) (d : ApprovalDecision)
    (failure workflow child : Option String) (s : ChatState) (k : String)
    → contains (resolve_for a approval_id d failure workflow child s).approval_memory k ≡ true
    → (contains s.approval_memory k ≡ true) ⊎ NewOf a d workflow child k
unfolding resolve_for store_decision
resolve_for-News a approval_id d failure (some workflow) (some child) s k h =
    elim (News-delegated a approval_id d failure workflow child s k h) [
      | inl old ↦ inl old
      | inr new ↦ inr (new.0, new.1, (workflow, refl), (child, refl))
    ]
resolve_for-News a approval_id d failure (some workflow) none s k h = inl h
resolve_for-News a approval_id d failure none child s k h = inl h

resolve_found-News :
    (o : Option PendingApproval) (approval_id : String) (d : ApprovalDecision)
    (failure : Option String) (s : ChatState) (k : String)
    → contains (resolve_found o approval_id d failure s).approval_memory k ≡ true
    → (contains s.approval_memory k ≡ true)
      ⊎ (a : PendingApproval) × (o ≡ some a)
        × NewOf a d a.requesting_workflow_id a.requesting_approval_id k
unfolding resolve_found
resolve_found-News none approval_id d failure s k h = inl (rw (Kept-system _ s) at h)
resolve_found-News (some a) approval_id d failure s k h =
    elim (resolve_for-News a approval_id d failure a.requesting_workflow_id a.requesting_approval_id
      s k h) [ inl old ↦ inl old | inr new ↦ inr (a, refl, new) ]

resolve_parsed-News :
    (o : Option ApprovalDecision) (approval_id decision : String) (failure : Option String)
    (now : ℕ) (s : ChatState) (k : String)
    → parse_decision decision ≡ o
    → contains (resolve_parsed o approval_id decision failure (touch now s)).approval_memory k
      ≡ true
    → (contains s.approval_memory k ≡ true)
      ⊎ AlwaysAllows s k (approval_resolved approval_id decision failure now)
unfolding resolve_parsed touch
resolve_parsed-News none approval_id decision failure now s k parsed h =
    inl (rw (Kept-system _ (touch now s)) at h)
resolve_parsed-News (some d) approval_id decision failure now s k parsed h =
    elim (resolve_found-News (find approval_id s.pending_approvals) approval_id d failure
      (touch now s) k h) [
        | inl old ↦ inl old
        | inr (a, found, (for_good, key, (w, asking), (c, asked))) ↦
            inr (delegated (parsed ∙ ap some for_good) found asking asked key)
      ]

waited_always :
    (timed_out : Bool) (o : Option ApprovalDecision)
    → waited_for timed_out o ≡ always_allow
    → (timed_out ≡ false) × (o ≡ some always_allow)
unfolding waited_for
waited_always true o h = cc
waited_always false none h = cc
waited_always false (some d) h = (refl, ap some h)

Kept-take :
    (timed_out : Bool) (approval_id : String) (s : ChatState)
    → Kept s (take_decision timed_out approval_id s)
unfolding take_decision
Kept-take true approval_id s = refl
Kept-take false approval_id s = refl

end_approval-News :
    (timed_out : Bool) (approval_id key : String) (s : ChatState) (k : String)
    → contains (end_approval timed_out approval_id key s).1.approval_memory k ≡ true
    → (contains s.approval_memory k ≡ true)
      ⊎ AlwaysAllows s k (approval_ended timed_out approval_id key)
unfolding end_approval record_state_change pop_approval
end_approval-News timed_out approval_id key s k h =
    let closed =
      record_state_change (pop_approval approval_id (take_decision timed_out approval_id s)) in
    let d = waited_for timed_out (find approval_id s.approval_decisions) in
    elim (remembered closed d key k h) [
      | inl old ↦ inl (rw (Kept-take timed_out approval_id s) at old)
      | inr (for_good, same) ↦
          let (in_time, decided) = waited_always timed_out _ for_good in
          inr (rw (in_time, ← same) (waited decided))
    ]

-- A step of the chat adds a key to the remembered approvals only if it is the decision of a user to
-- allow that key for good: on a pending approval with that key that a subagent asked for, or as the
-- answer that a waiting call of this chat finds when its wait ends in time. No timeout, cancellation, single approval, turn or
-- continuation adds one.
pub run_step-AlwaysAllows :
    (step : Step) (s : ChatState) (k : String)
    → contains (run_step step s).approval_memory k ≡ true
    → (contains s.approval_memory k ≡ true) ⊎ AlwaysAllows s k step
unfolding run_step chat delete touch expire_child_approval activate_next_queued_message begin_turn
    record_state_change continued resolve_approval
run_step-AlwaysAllows (chat_sent r now) s k h = inl (rw (Kept-enqueue _ (touch now s)) at h)
run_step-AlwaysAllows delete_sent s k h = inl h
run_step-AlwaysAllows (steer_sent content mode attachments now) s k h =
    inl (rw (Kept-steer content mode attachments now s) at h)
run_step-AlwaysAllows (interrupt_sent content now) s k h =
    inl (rw (Kept-interrupt content now s) at h)
run_step-AlwaysAllows (approval_resolved approval_id decision failure now) s k h =
    resolve_parsed-News (parse_decision decision) approval_id decision failure now s k refl h
run_step-AlwaysAllows (child_approval_expired workflow child) s k h =
    inl (rw (Kept-expire_found _ s) at h)
run_step-AlwaysAllows (child_approval_requested r expires_at failure) s k h =
    inl (rw (Kept-request r expires_at failure s) at h)
run_step-AlwaysAllows (approval_asked tool_name args expires_at) s k h =
    inl (rw (Kept-ask tool_name args expires_at s) at h)
run_step-AlwaysAllows (approval_ended timed_out approval_id key) s k h =
    end_approval-News timed_out approval_id key s k h
run_step-AlwaysAllows message_activated s k h = inl (rw (Kept-activate s.pending_messages s) at h)
run_step-AlwaysAllows turn_begun s k h = inl h
run_step-AlwaysAllows (agent_worked transcript) s k h = inl h
run_step-AlwaysAllows (turn_ended censor end) s k h = inl (rw (Kept-end_turn censor end s) at h)
run_step-AlwaysAllows (run_continued now resumed defaults transcript) s k h = inl h
