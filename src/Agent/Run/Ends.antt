-- ===== src/Agent/Run/Ends.antt =====
-- The rounds of a run (agent_harness/agent.py): how many there are, and how the run ends.
use temporal_agent_harness_e.Prelude.{
  ℕ, zero, suc, ◌+◌, ◌≤◌, ◌<◌, String, ◌≡◌, refl, true, false, not, ◌||◌, Option, none, some, List,
  arith, inl, inr, ◌⊎◌, ltb, ltb→lt,
}
use temporal_agent_harness_e.Prelude.Outcome.{ok, raise, Yields}
use temporal_agent_harness_e.Json.{Value, Dict}
use temporal_agent_harness_e.Providers.{is_null}
use temporal_agent_harness_e.Providers.Interface.{AgentProvider}
use temporal_agent_harness_e.Attachments.{AttachmentRef}
use temporal_agent_harness_e.Agent.State.{AgentConfig, Agent, Ran}
use temporal_agent_harness_e.Agent.Call.{Round}
use temporal_agent_harness_e.Agent.Run.{
  AgentResult, RoundEnd, run_rounds, after_round, max_turns_result, AgentState, run, start_run,
  start_prompt, completed, terminated_result,
}
use temporal_agent_harness_e.Agent.Run.Calm.{
  Kept, kept, then_run-Kept, pure-Kept, Anything, if-Kept, IsCalm, round_interrupts,
}
use temporal_agent_harness_e.Agent.Run.Rounds.{
  Always, Progress, then_run-Always, calm_ends, round_of,
}

-- The interrupts that may arrive in the first `n` rounds.
unfoldable pub interrupts_within : {Q R : Type 0} → ℕ → (ℕ → Round Q R) → ℕ
interrupts_within zero rounds = 0
interrupts_within (suc n) rounds =
    round_interrupts (rounds 0) + interrupts_within n (λ i. rounds (suc i))

-- A run that has ended: between the turns that it started with and those it is allowed, and with no
-- interrupt left, unless a guard acted.
abbrev pub Finished : ℕ → ℕ → Option AgentResult → Agent → Type 0
Finished turn max_turns none a = ⊥
Finished turn max_turns (some r) a =
    (turn ≤ r.turns)
    × (r.turns ≤ max_turns)
    × ((not (is_null r.guard_action) || not a.interrupt_requested) ≡ true)

module _ {Q R : Type 0} (p : AgentProvider Q R) (config : AgentConfig)
    (str_of : Value → String) where
  earlier :
      (turn t max_turns : ℕ) (r : Ran (Option AgentResult))
      → turn ≤ t
      → Kept Always (Finished t max_turns) r
      → Kept Always (Finished turn max_turns) r
  earlier turn t max_turns (ok none, a) le h = absurd h.value
  earlier turn t max_turns (ok (some r), a) le h =
      let (low, high, calm) = h.value in
      kept Always (Finished turn max_turns) (ok (some r)) a tt (omega (arith, le, low), high, calm)
  earlier turn t max_turns (raise f, a) le h = record { state = tt; value = tt }

  -- A round, and what the rest of the run makes of its end.
  next-Finished :
      (turn n max_turns : ℕ) (e : RoundEnd) (a : Agent)
      (rest : ℕ → Agent → Ran (Option AgentResult))
      → turn < max_turns
      → Progress turn n e a
      → ((t : ℕ) (b : Agent)
          → (t ≡ suc turn) ⊎ ((t ≡ turn) × (1 ≤ n))
          → IsCalm b
          → Kept Always (Finished t max_turns) (rest t b))
      → Kept Always (Finished turn max_turns) (after_round p config str_of rest e a)
  unfolding after_round
  next-Finished turn n max_turns (RoundEnd.done r) a rest lt (turns, calm) k =
      kept Always (Finished turn max_turns) (ok (some r)) a tt
        (omega (arith, turns), omega (arith, turns, lt), calm)
  next-Finished turn n max_turns (RoundEnd.again t) a rest lt (step, calm) k =
      earlier turn t max_turns (rest t a) (ground (arith, step)) (k t a step calm)

  stopped :
      (max_turns turn : ℕ) (a : Agent)
      → turn ≤ max_turns
      → ltb turn max_turns ≡ false
      → (turn < max_turns ⊎ IsCalm a)
      → Finished turn max_turns (some (max_turns_result p config str_of max_turns)) a
  unfolding max_turns_result is_null
  stopped max_turns turn a le stop (inl more) = absurd (ground arith)
  stopped max_turns turn a le stop (inr calm) = (le, omega arith, calm_ends false _ calm)

  enough_left :
      (max_turns turn t fuel n later : ℕ)
      → max_turns + (n + later) < turn + suc fuel
      → (t ≡ suc turn) ⊎ ((t ≡ turn) × (1 ≤ n))
      → max_turns + later < t + fuel
  enough_left max_turns turn t fuel n later h step = ground arith

  at_most :
      (turn t max_turns n : ℕ)
      → turn < max_turns
      → (t ≡ suc turn) ⊎ ((t ≡ turn) × (1 ≤ n))
      → t ≤ max_turns
  at_most turn t max_turns n h step = ground arith

  run_rounds-Finished :
      (fuel : ℕ) (rounds : ℕ → Round Q R) (tools : List Dict) (max_turns turn : ℕ) (a : Agent)
      → max_turns + interrupts_within fuel rounds < turn + fuel
      → turn ≤ max_turns
      → (turn < max_turns ⊎ IsCalm a)
      → Kept Always
          (Finished turn max_turns)
          (run_rounds p config str_of fuel rounds tools max_turns turn a)
  unfolding run_rounds interrupts_within
  run_rounds-Finished zero rounds tools max_turns turn a enough le calm =
      absurd (omega (arith, enough, le))
  run_rounds-Finished (suc fuel) rounds tools max_turns turn a enough le calm =
      let later : ℕ → Round Q R = λ i. rounds (suc i) in
      if-Kept Always (Finished turn max_turns) (ltb turn max_turns) _ _
        (λ more.
          let lt = ltb→lt turn max_turns more in
          then_run-Kept Always (Progress turn (round_interrupts (rounds 0)))
            (Finished turn max_turns) _ _ (round_of p config str_of (rounds 0) tools turn _ a refl)
            λ e b _ step.
              next-Finished turn _ max_turns e b
                (run_rounds p config str_of fuel later tools max_turns) lt step
                λ t c moved calm.
                  run_rounds-Finished fuel later tools max_turns t c
                    (enough_left max_turns turn t fuel _ _ enough moved)
                    (at_most turn t max_turns _ lt moved) (inr calm))
        (λ stop.
          kept Always (Finished turn max_turns)
            (ok (some (max_turns_result p config str_of max_turns))) a tt
            (stopped max_turns turn a le stop calm))

  start_run-IsCalm :
      (prompt : Option String) (attachments : List AttachmentRef) (state : Option AgentState)
      (a : Agent)
      → IsCalm a
      → Kept IsCalm
          (λ turn b. turn ≡ completed p config str_of state)
          (start_run p config str_of prompt attachments state a)
  unfolding start_run start_prompt
  start_run-IsCalm none attachments none a h = record { state = h; value = tt }
  start_run-IsCalm (some prompt) attachments none a h = record { state = h; value = refl }
  start_run-IsCalm prompt attachments (some s) a h =
      then_run-Kept IsCalm Anything _ _ _ (pure-Kept IsCalm _ a h)
        λ context b calm _. kept IsCalm _ (ok s.turns) _ calm refl

  -- A run never uses up its fuel when that is more than the turns it has left and the interrupts that
  -- may arrive: every round takes a turn or an interrupt. An agent that starts without an interrupt, with
  -- no more turns completed than are allowed, either raises or ends with a result whose turns are at
  -- least the completed and at most the allowed ones; and it ends with no interrupt left to be
  -- taken in, unless a guard acted.
  pub run-Finished :
      (fuel : ℕ) (rounds : ℕ → Round Q R) (tools : List Dict) (prompt : Option String)
      (attachments : List AttachmentRef) (state : Option AgentState) (max_turns : ℕ) (a : Agent)
      → max_turns + interrupts_within fuel rounds < completed p config str_of state + fuel
      → completed p config str_of state ≤ max_turns
      → a.interrupt_requested ≡ false
      → let end = run p config str_of fuel rounds tools prompt attachments state max_turns a in
        Yields (λ o. Finished (completed p config str_of state) max_turns o end.1) end.0
  unfolding run terminated_result is_null
  run-Finished fuel rounds tools prompt attachments state max_turns a enough le calm =
      let turn = completed p config str_of state in
      let run_ends =
        if-Kept Always (Finished turn max_turns) a.terminated _ _
          (λ _.
            kept Always (Finished turn max_turns)
              (ok (some (terminated_result p config str_of turn a))) a tt (omega arith, le, refl))
          λ _.
            then_run-Always IsCalm (λ t b. t ≡ turn) (Finished turn max_turns) _ _
              (start_run-IsCalm prompt attachments state a calm)
              λ t b still same.
                rw same
                  (run_rounds-Finished fuel rounds tools max_turns turn b enough le (inr still)) in
      run_ends.value
