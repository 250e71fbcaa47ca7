-- ===== src/Agent/Run/Calm.antt =====
-- Model calls during which no interrupt arrives (agent_harness/agent.py).
use temporal_agent_harness_e.Prelude.{
  ℕ, zero, suc, ◌+◌, ◌≤◌, String, ◌≡◌, refl, sym, ap, ◌∙◌, &&_iff, Bool, true, false, not, ◌&&◌,
  Option, none, some, List, [], ◌∷◌, if◌then◌else◌, arith,
}
use temporal_agent_harness_e.Prelude.Outcome.{Outcome, ok, raise, Yields}
use temporal_agent_harness_e.Prelude.Int.{ℤ}
use temporal_agent_harness_e.Json.{Value, Dict}
use temporal_agent_harness_e.LlmGuards.{LlmGuardExecution, continues}
use temporal_agent_harness_e.Context.Budget.{ContextTokenBudget}
use temporal_agent_harness_e.Providers.Interface.{AgentProvider}
use temporal_agent_harness_e.Agent.State.{
  AgentConfig, Agent, Signal, steer, interrupt, SteeringMode, receive, receive_signal, Ran,
  then_run,
}
use temporal_agent_harness_e.Agent.Call.{
  Round, call_provider, call_provider_with_context_recovery, recover, run_attempt, or_retry, settle,
  or_interrupted_call, after_pre, after_response, after_post, halted_response, is_cancelled,
  is_overflow,
}

unfoldable pub interrupts : List Signal → ℕ
interrupts [] = 0
interrupts (interrupt s ∷ rest) = suc (interrupts rest)
interrupts (steer mode s ∷ rest) = interrupts rest

-- The interrupts that may arrive in a round.
unfoldable pub round_interrupts : {Q R : Type 0} → Round Q R → ℕ
round_interrupts rd =
    interrupts rd.pre_signals
    + interrupts (rd.attempt_signals 1)
    + interrupts (rd.attempt_signals 2)
    + interrupts rd.post_signals
    + interrupts rd.tool_signals
    + interrupts rd.late_signals

-- What a part of a run leaves: `P` of its state, and `S` of what it returns, with the state.
pub record Kept {ℓ} {A : Type ℓ} (P : Agent → Type 0) (S : A → Agent → Type 0) (r : Ran A)
    : Type 0 where
  pub state : P r.1
  pub value : Yields (λ x. S x r.1) r.0

pub kept {ℓ} :
    {A : Type ℓ} (P : Agent → Type 0) (S : A → Agent → Type 0) (o : Outcome A) (a : Agent)
    → P a
    → Yields (λ x. S x a) o
    → Kept P S (o, a)
kept P S o a h v = record { state = h; value = v }

pub then_run-Kept {ℓ κ} :
    {A : Type ℓ} {B : Type κ} (P : Agent → Type 0) (S : A → Agent → Type 0) (T : B → Agent → Type 0)
    (r : Ran A) (k : A → Agent → Ran B)
    → Kept P S r
    → ((x : A) (a : Agent) → P a → S x a → Kept P T (k x a))
    → Kept P T (then_run r k)
unfolding then_run
then_run-Kept P S T (ok x, a) k h f = f x a h.state h.value
then_run-Kept P S T (raise e, a) k h f = kept P T (raise e) a h.state tt

abbrev pub Anything {ℓ} : {A : Type ℓ} → A → Agent → Type 0
Anything x a = Unit

-- A value that is computed without the state.
pub pure-Kept {ℓ} :
    {A : Type ℓ} (P : Agent → Type 0) (o : Outcome A) (a : Agent) → P a → Kept P Anything (o, a)
pure-Kept P (ok x) a h = kept P Anything (ok x) a h tt
pure-Kept P (raise e) a h = kept P Anything (raise e) a h tt

abbrev pub IsCalm : Agent → Type 0
IsCalm a = a.interrupt_requested ≡ false

pub receive-IsCalm :
    (a : Agent) (l : List Signal) → interrupts l ≡ 0 → IsCalm a → IsCalm (receive a l)
unfolding receive receive_signal interrupts
receive-IsCalm a [] q h = h
receive-IsCalm a (steer SteeringMode.immediate s ∷ rest) q h = receive-IsCalm _ rest q h
receive-IsCalm a (steer SteeringMode.after_next_tool_result s ∷ rest) q h =
    receive-IsCalm _ rest q h
receive-IsCalm a (interrupt s ∷ rest) q h = absurd (omega (arith, q))

abbrev has_answer : {R : Type 0} → Option R → Bool
has_answer none = false
has_answer (some r) = true

abbrev pub Answers : {R : Type 0} → Option R → Agent → Type 0
Answers o a = has_answer o ≡ true

pub Answers-some : {R : Type 0} (o : Option R) (a : Agent) (n : ℕ) → Answers o a → o ≡ none → 1 ≤ n
Answers-some o a n h e = let no : false ≡ true = sym (ap has_answer e) ∙ h in absurd (ground arith)

-- Both ways on from a test.
pub if-Kept {ℓ} :
    {A : Type ℓ} (P : Agent → Type 0) (S : A → Agent → Type 0) (t : Bool) (r q : Ran A)
    → (t ≡ true → Kept P S r)
    → (t ≡ false → Kept P S q)
    → Kept P S (if t then r else q)
if-Kept P S true r q h k = h refl
if-Kept P S false r q h k = k refl

never {ℓ} : {A : Type ℓ} (t u : Bool) → t ≡ false → (t && u) ≡ true → A
never t u h e = absurd (ground arith)

or_interrupted_call-Kept :
    {R : Type 0} (r : Ran (Option R))
    → Kept IsCalm Answers r
    → Kept IsCalm Answers (or_interrupted_call r)
unfolding or_interrupted_call
or_interrupted_call-Kept (ok o, a) h = h
or_interrupted_call-Kept (raise f, a) h =
    if-Kept IsCalm Answers _ _ _ (never a.interrupt_requested (is_cancelled f) h.state)
      (λ _. kept IsCalm Answers (raise f) a h.state tt)

settle-Answers :
    {R : Type 0} (t : Bool) (o : Outcome R) (a : Agent)
    → t ≡ false
    → Yields (λ x. Answers x a) (settle t o)
unfolding settle
settle-Answers true o a h = absurd (ground arith)
settle-Answers false (ok r) a h = refl
settle-Answers false (raise f) a h = tt

or_retry-Kept :
    {R : Type 0} (left : Bool) (retry : Agent → Ran (Option R)) (r : Ran (Option R))
    → Kept IsCalm Answers r
    → ((a : Agent) → left ≡ true → IsCalm a → Kept IsCalm Answers (retry a))
    → Kept IsCalm Answers (or_retry left retry r)
unfolding or_retry
or_retry-Kept left retry (ok o, a) h k = h
or_retry-Kept left retry (raise f, a) h k =
    if-Kept IsCalm Answers _ _ _ (never a.interrupt_requested (is_cancelled f) h.state) λ _.
      if-Kept IsCalm Answers _ _ _ (λ e. k a (((&&_iff left (is_overflow f)).0 e).0) h.state)
        (λ _. kept IsCalm Answers (raise f) a h.state tt)

module _ {Q R : Type 0} (p : AgentProvider Q R) (config : AgentConfig)
    (str_of : Value → String) where
  run_attempt-Kept :
      (rd : Round Q R) (n : ℕ) (q : Q) (a : Agent)
      → interrupts (rd.attempt_signals n) ≡ 0
      → IsCalm a
      → Kept IsCalm Answers (run_attempt p config str_of rd n q a)
  unfolding run_attempt
  run_attempt-Kept rd n q a quiet h =
      let calm = receive-IsCalm a (rd.attempt_signals n) quiet h in
      kept IsCalm Answers _ _ calm
        (settle-Answers _ (rd.attempt_end n q) (receive a (rd.attempt_signals n)) calm)

  recover-Kept :
      (rd : Round Q R) (guarded : Q) (reserved : ℤ) (left n : ℕ) (b : Outcome ContextTokenBudget)
      (a : Agent)
      → ((i : ℕ) → n ≤ i → i ≤ n + left → interrupts (rd.attempt_signals i) ≡ 0)
      → IsCalm a
      → Kept IsCalm Answers (recover p config str_of rd guarded reserved left n b a)
  unfolding recover
  recover-Kept rd guarded reserved zero n b a quiet h =
      then_run-Kept IsCalm Anything Answers _ _ (pure-Kept IsCalm _ a h) λ q c hc _.
        or_retry-Kept false _ _ (run_attempt-Kept rd n q c (quiet n (omega arith) (omega arith)) hc)
          (λ d e. absurd (ground arith))
  recover-Kept rd guarded reserved (suc left) n b a quiet h =
      then_run-Kept IsCalm Anything Answers _ _ (pure-Kept IsCalm _ a h) λ q c hc _.
        or_retry-Kept true _ _ (run_attempt-Kept rd n q c (quiet n (omega arith) (omega arith)) hc)
          (λ d _ hd.
            recover-Kept rd guarded reserved left (suc n) _ d
              (λ i lo hi. quiet i (omega (arith, lo)) (omega (arith, hi))) hd)

  abbrev Quiet : Round Q R → Type 0
  Quiet rd = round_interrupts rd ≡ 0

  two_attempts :
      (rd : Round Q R) → Quiet rd → (i : ℕ) → 1 ≤ i → i ≤ 2 → interrupts (rd.attempt_signals i) ≡ 0
  unfolding round_interrupts
  two_attempts rd quiet zero lo hi = absurd (omega (arith, lo))
  two_attempts rd quiet (suc zero) lo hi = omega (arith, quiet)
  two_attempts rd quiet (suc (suc zero)) lo hi = omega (arith, quiet)
  two_attempts rd quiet (suc (suc (suc i))) lo hi = absurd (omega (arith, hi))

  call-Kept :
      (rd : Round Q R) (guarded : Q) (tools : List Dict) (a : Agent)
      → Quiet rd
      → IsCalm a
      → Kept IsCalm Answers (call_provider_with_context_recovery p config str_of rd guarded tools a)
  unfolding call_provider_with_context_recovery round_interrupts
  call-Kept rd guarded tools a quiet h =
      then_run-Kept IsCalm Anything Answers _ _ (pure-Kept IsCalm _ a h)
        λ reserved c hc _. recover-Kept rd guarded reserved 1 1 _ c (two_attempts rd quiet) hc

  halted-Kept :
      (e : LlmGuardExecution) (model : Value) (a : Agent)
      → IsCalm a
      → Kept IsCalm Answers (halted_response p config str_of e model a)
  unfolding halted_response
  halted-Kept e model a h =
      then_run-Kept IsCalm Anything Answers _ _
        (pure-Kept IsCalm _ (record a { llm_guard_state = e.state }) h)
        λ r b hb _. kept IsCalm Answers (ok (some r)) b hb refl

  after_post-Kept :
      (e : LlmGuardExecution) (r : R) (a : Agent)
      → IsCalm a
      → Kept IsCalm Answers (after_post p config str_of e r a)
  unfolding after_post
  after_post-Kept e r a h =
      if-Kept IsCalm Answers (not (continues e.action)) _ _
        (λ _. halted-Kept e (p.response_model r) a h)
        λ _.
          then_run-Kept IsCalm Anything Answers _ _
            (pure-Kept IsCalm _ (record a { llm_guard_state = e.state }) h)
            λ r b hb _. kept IsCalm Answers (ok (some r)) b hb refl

  after_response-Kept :
      (rd : Round Q R) (guarded : Q) (state : Dict) (o : Option R) (a : Agent)
      → Quiet rd
      → IsCalm a
      → Answers o a
      → Kept IsCalm Answers (after_response p config str_of rd guarded state o a)
  unfolding after_response round_interrupts
  after_response-Kept rd guarded state none a quiet h some_answer =
      kept IsCalm Answers (ok none) a h some_answer
  after_response-Kept rd guarded state (some r) a quiet h _ =
      then_run-Kept IsCalm Anything Answers _ _ (pure-Kept IsCalm _ a h) λ shown b hb _.
        then_run-Kept IsCalm Anything Answers _ _
          (pure-Kept IsCalm _ (receive b rd.post_signals)
            (receive-IsCalm b rd.post_signals (omega (arith, quiet)) hb))
          λ e c hc _. after_post-Kept e r c hc

  after_pre-Kept :
      (rd : Round Q R) (tools : List Dict) (e : LlmGuardExecution) (a : Agent)
      → Quiet rd
      → IsCalm a
      → Kept IsCalm Answers (after_pre p config str_of rd tools e a)
  unfolding after_pre
  after_pre-Kept rd tools e a quiet h =
      then_run-Kept IsCalm Anything Answers _ _ (pure-Kept IsCalm _ a h) λ guarded b hb _.
        if-Kept IsCalm Answers (not (continues e.action)) _ _
          (λ _. halted-Kept e (p.request_model guarded) b hb)
          λ _. then_run-Kept IsCalm Anything Answers _ _ (pure-Kept IsCalm _ b hb) λ context c hc _.
            or_interrupted_call-Kept _ (
              then_run-Kept IsCalm Answers Answers _ _ (call-Kept rd guarded tools _ quiet hc)
                λ o d hd ho. after_response-Kept rd guarded e.state o d quiet hd ho)

  -- A call during which no interrupt arrives has an answer, unless it raises.
  pub call_provider-Answers :
      (rd : Round Q R) (tools : List Dict) (a : Agent)
      → round_interrupts rd ≡ 0
      → IsCalm a
      → Kept IsCalm Answers (call_provider p config str_of rd tools a)
  unfolding call_provider round_interrupts
  call_provider-Answers rd tools a quiet h =
      then_run-Kept IsCalm Anything Answers _ _
        (pure-Kept IsCalm _ (record a { provider_call_sequence = suc a.provider_call_sequence }) h)
        λ request b hb _.
          then_run-Kept IsCalm Anything Answers _ _
            (pure-Kept IsCalm _ (receive b rd.pre_signals)
              (receive-IsCalm b rd.pre_signals (omega (arith, quiet)) hb))
            λ e c hc _. after_pre-Kept rd tools e c quiet hc
