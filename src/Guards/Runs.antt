-- ===== src/Guards/Runs.antt =====
-- What execute_guards of agent_harness/guards.py ran when no guard failed.
use temporal_agent_harness_e.Prelude.{
  ℕ, suc, ◌+◌, ◌≡◌, refl, ap, inl, inr, true, false, Option, none, List, [], ◌∷◌, ◌++◌, map, arith,
  Bool-cases,
}
use temporal_agent_harness_e.Prelude.Outcome.{Outcome, ok, raise}
use temporal_agent_harness_e.Json.{Dict}
use temporal_agent_harness_e.Guards.{
  GuardTiming, GuardDef, GuardResult, guard_ran, tool_ran, History, GuardContext, Run, guard_step,
  execute_guards,
}

-- How many tool functions ran.
abbrev pub tool_runs : History → ℕ
tool_runs [] = 0
tool_runs (tool_ran n ∷ h) = suc (tool_runs h)
tool_runs (guard_ran t g b ∷ h) = tool_runs h

pub tool_runs-append : (h k : History) → tool_runs (h ++ k) ≡ tool_runs h + tool_runs k
tool_runs-append [] k = omega arith
tool_runs-append (tool_ran n ∷ h) k = omega (arith, tool_runs-append h k)
tool_runs-append (guard_ran t g b ∷ h) k = tool_runs-append h k

-- The events of guards that passed.
abbrev pub all_passed : GuardTiming → List GuardDef → History
all_passed timing gs = map (λ g. guard_ran timing g true) gs

guard_step-none :
    (g : GuardDef) (timing : GuardTiming) (o : Outcome GuardResult) (next : Run (Option Dict))
    (h k : History)
    → guard_step g timing o next h ≡ (ok none, k)
    → (r : GuardResult) × (o ≡ ok r)
      × (r.passed ≡ true)
      × (next (h ++ guard_ran timing g true ∷ []) ≡ (ok none, k))
unfolding guard_step
guard_step-none g timing (raise e) next h k p = ground arith
guard_step-none g timing (ok r) next h k p = elim (Bool-cases r.passed) [
  | inl e ↦ (r, refl, e, rw e at p)
  | inr e ↦ let stopped = rw e at p in ground arith
]

guard_step-tool_runs :
    (g : GuardDef) (timing : GuardTiming) (o : Outcome GuardResult) (next : Run (Option Dict))
    (h : History)
    → ((k : History) → tool_runs (next k).1 ≡ tool_runs k)
    → tool_runs (guard_step g timing o next h).1 ≡ tool_runs h
unfolding guard_step
guard_step-tool_runs g timing (raise e) next h same = refl
guard_step-tool_runs g timing (ok r) next h same = elim (Bool-cases r.passed) [
  | inl e ↦
      let k = h ++ guard_ran timing g true ∷ [] in
      rw e (omega (arith, same k, tool_runs-append h (guard_ran timing g true ∷ [])))
  | inr e ↦ rw e (omega (arith, tool_runs-append h (guard_ran timing g false ∷ [])))
]

module _ (answer : GuardTiming → GuardDef → GuardContext → History → Outcome GuardResult) where
  -- Every guard of the list was asked, in order, and passed.
  abbrev pub AllPassed : GuardTiming → GuardContext → List GuardDef → History → History → Type 0
  AllPassed timing ctx [] h k = h ≡ k
  AllPassed timing ctx (g ∷ gs) h k =
      (r : GuardResult) × (answer timing g ctx h ≡ ok r)
      × (r.passed ≡ true)
      × AllPassed timing ctx gs (h ++ guard_ran timing g true ∷ []) k

  pub execute_guards-AllPassed :
      (gs : List GuardDef) (timing : GuardTiming) (ctx : GuardContext) (h k : History)
      → execute_guards answer gs timing ctx h ≡ (ok none, k)
      → AllPassed timing ctx gs h k
  unfolding execute_guards
  execute_guards-AllPassed [] timing ctx h k e = ap (λ (p : Outcome (Option Dict) × History). p.1) e
  execute_guards-AllPassed (g ∷ gs) timing ctx h k e =
      let (r, answered, passed, rest) =
        guard_step-none g timing (answer timing g ctx h) (execute_guards answer gs timing ctx) h k
          e in
      (r, answered, passed, execute_guards-AllPassed gs timing ctx _ k rest)

  -- Guards run no tool.
  pub tool_runs-execute_guards :
      (gs : List GuardDef) (timing : GuardTiming) (ctx : GuardContext) (h : History)
      → tool_runs (execute_guards answer gs timing ctx h).1 ≡ tool_runs h
  unfolding execute_guards
  tool_runs-execute_guards [] timing ctx h = refl
  tool_runs-execute_guards (g ∷ gs) timing ctx h =
      guard_step-tool_runs g timing (answer timing g ctx h) (execute_guards answer gs timing ctx) h
        (tool_runs-execute_guards gs timing ctx)
