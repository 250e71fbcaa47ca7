-- ===== src/Agent/Run/Answers.antt =====
-- The history after an answer of the model and the tools that it requests (agent_harness/agent.py).
use temporal_agent_harness_e.Prelude.{
  ℕ, String, ◌≡◌, refl, sym, ap, ◌∙◌, subst, Bool, true, false, not, ◌||◌, List, [], ◌∷◌, ◌++◌,
  arith, is_empty, All,
}
use temporal_agent_harness_e.Prelude.Outcome.{Outcome, ok, Yields, Yields-ok}
use temporal_agent_harness_e.Json.{Value, Dict}
use temporal_agent_harness_e.Messages.{Message, message, user, blocks, tool_use_blocks}
use temporal_agent_harness_e.Messages.Snapshots.{normalize_message_lem}
use temporal_agent_harness_e.Context.{
  block_ids, shape, shapes, IsPaired, nil, plain, IsPaired-append,
}
use temporal_agent_harness_e.Context.Manager.{
  Manager, record_assistant_message, record_tool_results,
}
use temporal_agent_harness_e.Providers.{is_null}
use temporal_agent_harness_e.Providers.Interface.{AgentProvider}
use temporal_agent_harness_e.Agent.Calls.{IsRequest, execute_requested_tools_lem}
use temporal_agent_harness_e.Agent.Calls.Results.{IsResult, execute_requested_tools-AllResult}
use temporal_agent_harness_e.Agent.State.{
  AgentConfig, Agent, receive, flush_interrupt_context, flush_after_tool_context,
}
use temporal_agent_harness_e.Agent.Call.{Round}
use temporal_agent_harness_e.Agent.Run.{
  RoundEnd, take_answer, without_tools, run_tools, after_tools, continue_as_new,
  should_return_continue_as_new,
}
use temporal_agent_harness_e.Agent.Run.Calm.{
  Kept, kept, then_run-Kept, pure-Kept, Anything, if-Kept,
}
use temporal_agent_harness_e.Agent.Run.Rounds.{Always, forget, then_run-Always}
use temporal_agent_harness_e.Agent.Run.Paired.{
  IsPairedHistory, IsAnswer, EndsWell, calls_of, requests-calls_of, calls_end, exchange_of,
  uses_of_requests, uses_not_nil, shapes-append, flush-IsPaired, receive-context, All-normal,
}

abbrev Paired {ℓ} : {A : Type ℓ} → A → Agent → Type 0
Paired x a = IsPairedHistory a.context

flush_interrupt-IsPaired :
    (a : Agent) → IsPairedHistory a.context → IsPairedHistory (flush_interrupt_context a).context
unfolding flush_interrupt_context
flush_interrupt-IsPaired a h = flush-IsPaired _ _ a.pending_interrupts a.context h

flush_after_tool-IsPaired :
    (a : Agent) → IsPairedHistory a.context → IsPairedHistory (flush_after_tool_context a).context
unfolding flush_after_tool_context
flush_after_tool-IsPaired a h = flush-IsPaired _ _ a.pending_after_tool_steering a.context h

-- A value that was computed, and what holds of it.
of_ok :
    {A : Type 0} (S : A → Agent → Type 0) (o : Outcome A) (a : Agent) {x : A}
    → o ≡ ok x
    → S x a
    → Kept Always S (o, a)
of_ok S o a e h = rw e (kept Always S (ok _) a tt h)

Yields-same : {A : Type 0} {o : Outcome A} {x : A} → o ≡ ok x → Yields (λ y. y ≡ x) o
Yields-same e = rw e refl

is_empty-nil : (qs : List Dict) → is_empty qs ≡ true → qs ≡ []
is_empty-nil [] h = refl
is_empty-nil (q ∷ qs) h = absurd (ground arith)

is_empty-cons :
    (qs : List Dict) → is_empty qs ≡ false → (q : Dict) × (rest : List Dict) × (qs ≡ q ∷ rest)
is_empty-cons [] h = absurd (ground arith)
is_empty-cons (q ∷ qs) h = (q, qs, refl)

plain_answer :
    (ms : List Message) (m : Message)
    → IsPaired (shapes ms)
    → IsAnswer m
    → tool_use_blocks m ≡ []
    → IsPaired (shapes (ms ++ m ∷ []))
unfolding shape block_ids
plain_answer ms m paired answer none_used = rw (shapes-append ms (m ∷ [])) (
    IsPaired-append (shapes ms) _ paired
      (plain (uses_of_requests m ∙ ap (block_ids "tool_use" "id") none_used) answer.no_results nil))

module _ {Q R : Type 0} (p : AgentProvider Q R) (config : AgentConfig)
    (str_of : Value → String) where
  without_tools-Paired :
      (m : Message) (r : R) (turn : ℕ) (a : Agent)
      → IsPairedHistory a.context
      → Kept Always Paired (without_tools p config str_of m r turn a)
  unfolding without_tools
  without_tools-Paired m r turn a h =
      if-Kept Always Paired a.interrupt_requested _ _
        (λ _. kept Always Paired (ok (RoundEnd.again turn)) _ tt (flush_interrupt-IsPaired a h))
        (λ _. kept Always Paired (ok (RoundEnd.done _)) a tt h)

  continue_as_new-Paired :
      (tools : List Dict) (m : Message) (r : R) (turn : ℕ) (a : Agent)
      → IsPairedHistory a.context
      → Kept Always Paired (continue_as_new p config str_of tools m r turn a)
  unfolding continue_as_new
  continue_as_new-Paired tools m r turn a h =
      let P : Agent → Type 0 = λ b. IsPairedHistory b.context in
      forget P Paired _ (
        then_run-Kept P Anything Paired _ _ (pure-Kept P _ a h)
          λ snapshot b paired _. kept P Paired (ok (RoundEnd.done _)) b paired paired)

  after_tools-Paired :
      (rd : Round Q R) (tools : List Dict) (m : Message) (r : R) (turn : ℕ) (interrupted : Bool)
      (results : List Dict) (a : Agent)
      → Kept Always (λ c b. IsPairedHistory c) (record_tool_results a.context results, a)
      → Kept Always Paired (after_tools p config str_of rd tools m r turn interrupted results a)
  unfolding after_tools
  after_tools-Paired rd tools m r turn interrupted results a h =
      then_run-Kept Always (λ c b. IsPairedHistory c) Paired _ _ h
        λ context b _ paired.
          let c = flush_after_tool_context (record b { context = context }) in
          let flushed = flush_after_tool-IsPaired (record b { context = context }) paired in
          if-Kept Always Paired (c.interrupt_requested || interrupted) _ _
            (λ _.
              kept Always Paired (ok (RoundEnd.again turn)) _ tt
                (flush_interrupt-IsPaired c flushed))
            λ _.
              if-Kept Always Paired (should_return_continue_as_new p config str_of rd) _ _
                (λ _. continue_as_new-Paired tools m r turn c flushed)
                (λ _. kept Always Paired (ok (RoundEnd.again turn)) c tt flushed)

  results-Paired :
      (c : Manager) (a : Agent) (m : Message) (q : Dict) (qs rs : List Dict)
      → IsPairedHistory c
      → IsRequest q
      → tool_use_blocks m ≡ q ∷ qs
      → a.context ≡ record c { messages = c.messages ++ m ∷ [] }
      → All IsResult rs
      → block_ids "tool_result" "tool_use_id" rs ≡ block_ids "tool_use" "id" (q ∷ qs)
      → Kept Always (λ x b. IsPairedHistory x) (record_tool_results a.context rs, a)
  unfolding record_tool_results block_ids
  results-Paired c a m q qs [] paired first used same results ids = absurd (
      uses_not_nil m q qs first used
        (uses_of_requests m ∙ ap (block_ids "tool_use" "id") used ∙ sym ids))
  results-Paired c a m q qs (x ∷ rs) paired first used same results ids =
      let answered = message user (blocks (x ∷ rs)) in
      of_ok (λ y b. IsPairedHistory y) _ a
        {x = record a.context { messages = a.context.messages ++ answered ∷ [] }}
        (rw (normalize_message_lem answered (All-normal (x ∷ rs) results)) refl)
        (subst (λ k. IsPaired (shapes (k.messages ++ answered ∷ []))) (sym same)
          (exchange_of c.messages m q qs (x ∷ rs) paired first used results ids))

  run_tools-Paired :
      (rd : Round Q R) (tools : List Dict) (m : Message) (r : R) (turn : ℕ) (c : Manager)
      (a : Agent) (q : Dict) (qs : List Dict)
      → IsPairedHistory c
      → tool_use_blocks m ≡ q ∷ qs
      → a.context ≡ record c { messages = c.messages ++ m ∷ [] }
      → All IsRequest (q ∷ qs)
      → All (EndsWell rd.tool_end rd.tool_signals) (q ∷ qs)
      → Kept Always Paired (run_tools p config str_of rd tools m r turn (q ∷ qs) a)
  unfolding run_tools calls_of
  run_tools-Paired rd tools m r turn c a q qs paired used same first ends =
      let b = receive a rd.tool_signals in
      let calls = calls_of rd.tool_end (q ∷ qs) in
      let (rs, given, ids) =
        execute_requested_tools_lem b.interrupt_requested calls
          (calls_end rd.tool_end a rd.tool_signals (q ∷ qs) first ends) in
      let results =
        Yields-ok (All IsResult) _ (execute_requested_tools-AllResult b.interrupt_requested calls)
          given in
      let answered =
        ids ∙ ap (block_ids "tool_use" "id") (requests-calls_of rd.tool_end (q ∷ qs)) in
      let SameContext : Agent → Type 0 =
        λ d. d.context ≡ record c { messages = c.messages ++ m ∷ [] } in
      then_run-Always SameContext (λ x d. x ≡ rs) Paired _ _
        (record {
          state = receive-context b rd.late_signals ∙ receive-context a rd.tool_signals ∙ same;
          value = Yields-same given;
        })
        λ x d kept_context is_results. rw is_results (
          after_tools-Paired rd tools m r turn _ rs d
            (results-Paired c d m q qs rs paired first.0 used kept_context results answered))

  take_answer-Paired :
      (rd : Round Q R) (tools : List Dict) (r : R) (turn : ℕ) (m : Message) (a : Agent)
      → IsPairedHistory a.context
      → IsAnswer m
      → is_null (p.guard_action r) ≡ true
      → All (EndsWell rd.tool_end rd.tool_signals) (tool_use_blocks m)
      → Kept Always Paired (take_answer p config str_of rd tools r turn m a)
  unfolding take_answer record_assistant_message
  take_answer-Paired rd tools r turn m a paired answer unguarded ends =
      let Recorded : Manager → Agent → Type 0 =
        λ x b. x ≡ record a.context { messages = a.context.messages ++ m ∷ [] } in
      then_run-Kept Always Recorded Paired _ _
        (of_ok Recorded _ a {x = record a.context { messages = a.context.messages ++ m ∷ [] }}
          (rw (normalize_message_lem m answer.normal) refl) refl)
        λ context b _ recorded.
          let c = record b { context = context } in
          if-Kept Always Paired (not (is_null (p.guard_action r))) _ _
            (λ guarded. absurd (ground arith))
            λ _.
              if-Kept Always Paired (is_empty (tool_use_blocks m)) _ _
                (λ e. without_tools-Paired m r turn c (
                  subst (λ k. IsPaired (shapes k.messages)) (sym recorded)
                    (plain_answer a.context.messages m paired answer (is_empty-nil _ e))))
                λ e.
                  let (q, qs, used) = is_empty-cons _ e in
                  rw used (
                    run_tools-Paired rd tools m r turn a.context c q qs paired used recorded
                      (subst (All IsRequest) used answer.complete)
                      (subst (All (EndsWell rd.tool_end rd.tool_signals)) used ends))

  -- When a conversation answers all its tool calls, and the model gives a message without results whose
  -- calls have names, inputs and ids, on which no guard acted, then the conversation answers all its calls
  -- again once the message is taken in: with the results of the tools, whether they return, fail or are
  -- cancelled by an interrupt, and with the messages of the user that waited, wherever the round goes on.
  pub take_answer-IsPaired :
      (rd : Round Q R) (tools : List Dict) (r : R) (turn : ℕ) (m : Message) (a : Agent)
      → IsPaired (shapes a.context.messages)
      → IsAnswer m
      → is_null (p.guard_action r) ≡ true
      → All (EndsWell rd.tool_end rd.tool_signals) (tool_use_blocks m)
      → let end = take_answer p config str_of rd tools r turn m a in
        Yields (λ e. IsPaired (shapes end.1.context.messages)) end.0
  take_answer-IsPaired rd tools r turn m a paired answer unguarded ends =
      (take_answer-Paired rd tools r turn m a paired answer unguarded ends).value
