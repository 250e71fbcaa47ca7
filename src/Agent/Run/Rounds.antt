-- ===== src/Agent/Run/Rounds.antt =====
-- One round of a run (agent_harness/agent.py): a model call and what follows it.
use temporal_agent_harness_e.Prelude.{
  ℕ, zero, suc, ◌≤◌, String, ◌≡◌, refl, Bool, true, false, not, ◌||◌, Option, none, some, List,
  if◌then◌else◌, arith, inl, inr, ◌⊎◌, is_empty,
}
use temporal_agent_harness_e.Prelude.Outcome.{ok, raise}
use temporal_agent_harness_e.Json.{Value, Dict}
use temporal_agent_harness_e.Messages.{Message, tool_use_blocks}
use temporal_agent_harness_e.Providers.{is_null}
use temporal_agent_harness_e.Providers.Interface.{AgentProvider}
use temporal_agent_harness_e.Agent.State.{
  AgentConfig, Agent, receive, Ran, then_run, flush_interrupt_context, flush_after_tool_context,
  flush_immediate_context,
}
use temporal_agent_harness_e.Agent.Call.{Round}
use temporal_agent_harness_e.Agent.Run.{
  AgentResult, RoundEnd, run_round, after_call, take_answer, without_tools, run_tools, after_tools,
  continue_as_new, note_termination, flush_before_call, should_return_continue_as_new, result_of,
}
use temporal_agent_harness_e.Agent.Run.Calm.{
  Kept, kept, then_run-Kept, pure-Kept, Anything, if-Kept, IsCalm, Answers, round_interrupts,
  call_provider-Answers, Answers-some,
}

abbrev pub Always : Agent → Type 0
Always a = Unit {0}

-- A round that had an answer: it took a turn, and leaves an interrupt to no one but a guard's halt.
abbrev pub Moves : ℕ → RoundEnd → Agent → Type 0
Moves turn (RoundEnd.done r) a =
    (r.turns ≡ turn) × ((not (is_null r.guard_action) || not a.interrupt_requested) ≡ true)
Moves turn (RoundEnd.again t) a = (t ≡ turn) × IsCalm a

pub forget :
    {A : Type 0} (P : Agent → Type 0) (S : A → Agent → Type 0) (r : Ran A)
    → Kept P S r
    → Kept Always S r
forget P S r h = record { state = tt; value = h.value }

pub then_run-Always :
    {A B : Type 0} (P : Agent → Type 0) (S : A → Agent → Type 0) (T : B → Agent → Type 0)
    (r : Ran A) (k : A → Agent → Ran B)
    → Kept P S r
    → ((x : A) (a : Agent) → P a → S x a → Kept Always T (k x a))
    → Kept Always T (then_run r k)
unfolding then_run
then_run-Always P S T (ok x, a) k h f = f x a h.state h.value
then_run-Always P S T (raise e, a) k h f = record { state = tt; value = tt }

ended :
    (turn : ℕ) (result : AgentResult) (a : Agent)
    → result.turns ≡ turn
    → (not (is_null result.guard_action) || not a.interrupt_requested) ≡ true
    → Kept Always (Moves turn) (ok (RoundEnd.done result), a)
ended turn result a h k = kept Always (Moves turn) (ok (RoundEnd.done result)) a tt (h, k)

flushed :
    (turn : ℕ) (a : Agent)
    → Kept Always (Moves turn) (ok (RoundEnd.again turn), flush_interrupt_context a)
unfolding flush_interrupt_context
flushed turn a =
    kept Always (Moves turn) (ok (RoundEnd.again turn)) (flush_interrupt_context a) tt (refl, refl)

pub calm_ends : (t u : Bool) → u ≡ false → (t || not u) ≡ true
calm_ends t u h = ground arith

halt_ends : (t u : Bool) → t ≡ true → (t || u) ≡ true
halt_ends t u h = ground arith

neither : (t u : Bool) → (t || u) ≡ false → t ≡ false
neither t u h = ground arith

-- A round, in which `n` interrupts may arrive: without an answer it takes no turn, but an interrupt
-- arrived.
abbrev pub Progress : ℕ → ℕ → RoundEnd → Agent → Type 0
Progress turn n (RoundEnd.done r) a = Moves (suc turn) (RoundEnd.done r) a
Progress turn n (RoundEnd.again t) a = ((t ≡ suc turn) ⊎ ((t ≡ turn) × (1 ≤ n))) × IsCalm a

Moves-Progress :
    (turn n : ℕ) (r : Ran RoundEnd)
    → Kept Always (Moves (suc turn)) r
    → Kept Always (Progress turn n) r
Moves-Progress turn n (ok (RoundEnd.done x), a) h = record { state = tt; value = h.value }
Moves-Progress turn n (ok (RoundEnd.again t), a) h = record {
  state = tt;
  value = (inl h.value.0, h.value.1);
}
Moves-Progress turn n (raise f, a) h = record { state = tt; value = tt }

if-IsCalm :
    (t : Bool) (a b : Agent) → IsCalm a → (t ≡ false → IsCalm b) → IsCalm (if t then a else b)
if-IsCalm true a b h k = h
if-IsCalm false a b h k = k refl

module _ {Q R : Type 0} (p : AgentProvider Q R) (config : AgentConfig)
    (str_of : Value → String) where
  without_tools-Kept :
      (m : Message) (r : R) (turn : ℕ) (a : Agent)
      → Kept Always (Moves turn) (without_tools p config str_of m r turn a)
  unfolding without_tools result_of
  without_tools-Kept m r turn a =
      if-Kept Always (Moves turn) a.interrupt_requested _ _ (λ _. flushed turn a)
        λ calm. ended turn (result_of p config str_of m r turn none) a refl (calm_ends _ _ calm)

  continue_as_new-Kept :
      (tools : List Dict) (m : Message) (r : R) (turn : ℕ) (a : Agent)
      → IsCalm a
      → Kept Always (Moves turn) (continue_as_new p config str_of tools m r turn a)
  unfolding continue_as_new result_of
  continue_as_new-Kept tools m r turn a h = forget IsCalm _ _ (
      then_run-Kept IsCalm Anything (Moves turn) _ _ (pure-Kept IsCalm _ a h) λ snapshot b calm _.
        kept IsCalm (Moves turn) (ok (RoundEnd.done (result_of p config str_of m r turn _))) b calm
          (refl, calm_ends _ _ calm))

  after_tools-Kept :
      (rd : Round Q R) (tools : List Dict) (m : Message) (r : R) (turn : ℕ) (interrupted : Bool)
      (results : List Dict) (a : Agent)
      → Kept Always
          (Moves turn)
          (after_tools p config str_of rd tools m r turn interrupted results a)
  unfolding after_tools
  after_tools-Kept rd tools m r turn interrupted results a =
      then_run-Kept Always Anything (Moves turn) _ _ (pure-Kept Always _ a tt) λ context b _ _.
        let c = flush_after_tool_context (record b { context = context }) in
        if-Kept Always (Moves turn) (c.interrupt_requested || interrupted) _ _ (λ _. flushed turn c)
          λ e.
            let calm = neither c.interrupt_requested interrupted e in
            if-Kept Always (Moves turn) (should_return_continue_as_new p config str_of rd) _ _
              (λ _. continue_as_new-Kept tools m r turn c calm)
              (λ _. kept Always (Moves turn) (ok (RoundEnd.again turn)) c tt (refl, calm))

  take_answer-Kept :
      (rd : Round Q R) (tools : List Dict) (r : R) (turn : ℕ) (m : Message) (a : Agent)
      → Kept Always (Moves turn) (take_answer p config str_of rd tools r turn m a)
  unfolding take_answer run_tools result_of
  take_answer-Kept rd tools r turn m a =
      then_run-Kept Always Anything (Moves turn) _ _ (pure-Kept Always _ a tt) λ context b _ _.
        let c = record b { context = context } in
        if-Kept Always (Moves turn) (not (is_null (p.guard_action r))) _ _
          (λ halted.
            ended turn (result_of p config str_of m r turn none)
              (note_termination p config str_of r c) refl (halt_ends _ _ halted))
          λ _.
            if-Kept Always (Moves turn) (is_empty (tool_use_blocks m)) _ _
              (λ _. without_tools-Kept m r turn c)
              λ _.
                let d = receive c rd.tool_signals in
                then_run-Kept Always Anything (Moves turn) _ _
                  (pure-Kept Always _ (receive d rd.late_signals) tt)
                  λ results e _ _. after_tools-Kept rd tools m r turn _ results e

  after_call-Kept :
      (rd : Round Q R) (tools : List Dict) (turn : ℕ) (r : R) (a : Agent)
      → Kept Always (Moves (suc turn)) (after_call p config str_of rd tools turn (some r) a)
  unfolding after_call
  after_call-Kept rd tools turn r a =
      if-Kept Always (Moves (suc turn)) a.interrupt_requested _ _ (λ _. flushed (suc turn) a)
        λ _.
          then_run-Kept Always Anything (Moves (suc turn)) _ _ (pure-Kept Always _ a tt) λ v b _ _.
            then_run-Kept Always Anything (Moves (suc turn)) _ _ (pure-Kept Always _ b tt)
              λ m c _ _. take_answer-Kept rd tools v (suc turn) m c

  after_call-Progress :
      (rd : Round Q R) (tools : List Dict) (turn n : ℕ) (o : Option R) (a : Agent)
      → (o ≡ none → 1 ≤ n)
      → Kept Always (Progress turn n) (after_call p config str_of rd tools turn o a)
  unfolding after_call flush_interrupt_context
  after_call-Progress rd tools turn n none a h =
      kept Always (Progress turn n) (ok (RoundEnd.again turn)) (flush_interrupt_context a) tt
        (inr (refl, h refl), refl)
  after_call-Progress rd tools turn n (some r) a h =
      Moves-Progress turn n _ (after_call-Kept rd tools turn r a)

  flush_before_call-IsCalm : (a : Agent) → IsCalm (flush_before_call p config str_of a)
  unfolding flush_before_call flush_immediate_context flush_interrupt_context
  flush_before_call-IsCalm a =
      if-IsCalm a.interrupt_requested (flush_interrupt_context a) a refl (λ e. e)

  pub round_of :
      (rd : Round Q R) (tools : List Dict) (turn n : ℕ) (a : Agent)
      → round_interrupts rd ≡ n
      → Kept Always (Progress turn n) (run_round p config str_of rd tools turn a)
  unfolding run_round
  round_of rd tools turn zero a quiet =
      then_run-Kept Always Answers (Progress turn 0) _ _
        (forget IsCalm _ _ (
          call_provider-Answers p config str_of rd tools (flush_before_call p config str_of a) quiet
            (flush_before_call-IsCalm a)))
        λ o b _ answered. after_call-Progress rd tools turn 0 o b (Answers-some o b 0 answered)
  round_of rd tools turn (suc n) a h =
      then_run-Kept Always Anything (Progress turn (suc n)) _ _ (pure-Kept Always _ _ tt)
        λ o b _ _. after_call-Progress rd tools turn (suc n) o b (λ _. omega arith)
