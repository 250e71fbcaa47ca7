-- ===== src/LlmGuards/Halts.antt =====
-- How the guards of agent_harness/llm_guards.py follow each other, and what a halted call answers.
use temporal_agent_harness_e.Prelude.{
  String, ◌≡◌, refl, ap, subst, ◌∙◌, sym, inl, inr, true, false, Bool-cases, Option, none, some,
  List, [], ◌∷◌, ◌++◌, if◌then◌else◌,
}
use temporal_agent_harness_e.Prelude.Outcome.{Fault, Outcome, ok, raise}
use temporal_agent_harness_e.Json.{Value, Dict, get, get-put}
use temporal_agent_harness_e.LlmGuards.{
  LlmGuardTiming, LlmGuardAction, LlmGuardResult, LlmGuardContext, LlmGuardExecution, continues,
  blocked_response, guarded_state, halt, guard_turn, execute, GuardMessage,
}

blocked-refusal :
    (response : Option Dict) (message : Option GuardMessage) (model name : String)
    → get "stop_reason" (blocked_response response message model name) ≡ some (Value.str "refusal")
unfolding blocked_response
blocked-refusal response message model name =
    get-put "stop_sequence" "stop_reason" Value.null _
    ∙ get-put "stop_reason" "stop_reason" (Value.str "refusal") _

ok-injective : {x y : LlmGuardExecution} → ok x ≡ ok y → x ≡ y
ok-injective h = cc

raise-ne-ok : (f : Fault) (r : LlmGuardExecution) → raise f ≡ ok r → ⊥
raise-ne-ok f r h = cc

true-ne-false : true ≡ false → ⊥
true-ne-false h = cc

goes_on :
    (e r : LlmGuardExecution)
    → record e { action = LlmGuardAction.continue; reason = none } ≡ r
    → continues r.action ≡ false
    → ⊥
unfolding continues
goes_on e r same halted = true-ne-false (ap (λ x. continues x.action) same ∙ halted)

-- The response refuses, as providers say it.
abbrev pub Refuses : LlmGuardExecution → Type 0
Refuses r = (d : Dict) × (r.response ≡ some d) × (get "stop_reason" d ≡ some (Value.str "refusal"))

-- The context of a guard behind those that let `d` through.
abbrev pub asked : String → LlmGuardTiming → LlmGuardExecution → LlmGuardContext
asked name timing d = record {
  guard_name = name;
  timing = timing;
  request = d.request;
  response = d.response;
  state = d.state;
}

-- A guard raises, or gives an answer that does not go on.
abbrev pub Halts : Outcome LlmGuardResult → Type 0
Halts (raise f) = Unit
Halts (ok r) = continues r.action ≡ false

-- What a call gives that a guard with the answer `o` ends.
abbrev pub EndsWith : Outcome LlmGuardResult → Outcome LlmGuardExecution → Type 0
EndsWith (raise f) out = out ≡ raise f
EndsWith (ok r) out =
    (x : LlmGuardExecution) × (out ≡ ok x)
    × (x.action ≡ r.action)
    × (x.reason ≡ r.reason)
    × Refuses x

module _ (str_of : Value → String)
    (answer : LlmGuardContext → Outcome LlmGuardResult × LlmGuardContext) where
  -- The rest of a pipeline, after what came before it.
  unfoldable pub then_execute :
      List String → LlmGuardTiming → Outcome LlmGuardExecution → Outcome LlmGuardExecution
  then_execute names timing (raise f) = raise f
  then_execute names timing (ok e) =
      if continues e.action then execute str_of answer names timing e else ok e

  execute-reset :
      (names : List String) (timing : LlmGuardTiming) (e : LlmGuardExecution)
      → execute str_of answer names timing
          (record e { action = LlmGuardAction.continue; reason = none })
        ≡ execute str_of answer names timing e
  unfolding execute guard_turn guarded_state
  execute-reset [] timing e = refl
  execute-reset (name ∷ names) timing e = refl

  turn-append :
      (names more : List String) (timing : LlmGuardTiming) (e : LlmGuardExecution) (name : String)
      (p : Outcome LlmGuardResult × LlmGuardContext)
      → ((d : LlmGuardExecution)
          → execute str_of answer (names ++ more) timing d
            ≡ then_execute more timing (execute str_of answer names timing d))
      → guard_turn str_of answer e name p (execute str_of answer (names ++ more) timing)
        ≡ then_execute more timing
            (guard_turn str_of answer e name p (execute str_of answer names timing))
  unfolding guard_turn then_execute halt guarded_state
  turn-append names more timing e name (raise f, left) h = refl
  turn-append names more timing e name (ok r, left) h = elim (Bool-cases (continues r.action)) [
    | inl c ↦ rw c (h _)
    | inr c ↦ rw c (rw c refl)
  ]

  -- Two lists of guards, one behind the other.
  pub execute-append :
      (names more : List String) (timing : LlmGuardTiming) (e : LlmGuardExecution)
      → execute str_of answer (names ++ more) timing e
        ≡ then_execute more timing (execute str_of answer names timing e)
  unfolding execute then_execute continues
  execute-append [] more timing e = sym (execute-reset more timing e)
  execute-append (name ∷ names) more timing e =
      turn-append names more timing e name _ (execute-append names more timing)

  halt-Refuses :
      (name : String) (message : Option GuardMessage) (e : LlmGuardExecution)
      → Refuses (halt str_of answer name message e)
  unfolding halt
  halt-Refuses name message e = (_, refl, blocked-refusal _ _ _ _)

  turn-Refuses :
      (names : List String) (timing : LlmGuardTiming) (e r : LlmGuardExecution) (name : String)
      (p : Outcome LlmGuardResult × LlmGuardContext)
      → ((d : LlmGuardExecution) → execute str_of answer names timing d ≡ ok r → Refuses r)
      → guard_turn str_of answer e name p (execute str_of answer names timing) ≡ ok r
      → Refuses r
  unfolding guard_turn
  turn-Refuses names timing e r name (raise f, left) later h = absurd (raise-ne-ok f r h)
  turn-Refuses names timing e r name (ok a, left) later h = elim (Bool-cases (continues a.action)) [
    | inl c ↦ later _ (rw c at h)
    | inr c ↦
        subst Refuses (ok-injective (rw c at h))
          (halt-Refuses name a.message (guarded_state str_of answer e name a left))
  ]

  -- A call that the guards block or terminate has a response, and its stop reason is a refusal, whatever
  -- the guards did to it before.
  pub execute-Refuses :
      (names : List String) (timing : LlmGuardTiming) (e r : LlmGuardExecution)
      → execute str_of answer names timing e ≡ ok r
      → continues r.action ≡ false
      → Refuses r
  unfolding execute continues
  execute-Refuses [] timing e r h halted = absurd (goes_on e r (ok-injective h) halted)
  execute-Refuses (name ∷ names) timing e r h halted =
      turn-Refuses names timing e r name _ (λ d k. execute-Refuses names timing d r k halted) h

  turn-EndsWith :
      (e : LlmGuardExecution) (name : String) (p : Outcome LlmGuardResult × LlmGuardContext)
      → Halts p.0
      → (out : Outcome LlmGuardExecution) × EndsWith p.0 out
        × ((next : LlmGuardExecution → Outcome LlmGuardExecution)
            → guard_turn str_of answer e name p next ≡ out)
  unfolding guard_turn
  turn-EndsWith e name (raise f, left) h = (raise f, refl, λ next. refl)
  turn-EndsWith e name (ok r, left) h =
      let now = guarded_state str_of answer e name r left in
      let halted = halt str_of answer name r.message now in
      (
        ok halted,
        (
          halted,
          refl,
          unfold halt guarded_state in refl,
          unfold halt guarded_state in refl,
          halt-Refuses name r.message now,
        ),
        λ next. rw h refl,
      )

  -- When the first guards let a call through and the next one raises, blocks or terminates, given the
  -- request, the response and the state that those leave, then the whole pipeline ends there, the same
  -- whatever guards stand behind: with its exception, or with its action and its reason and with a
  -- response that is a refusal.
  pub execute-Halts :
      (names : List String) (timing : LlmGuardTiming) (e d : LlmGuardExecution) (name : String)
      → execute str_of answer names timing e ≡ ok d
      → continues d.action ≡ true
      → Halts (answer (asked name timing d)).0
      → (out : Outcome LlmGuardExecution) × EndsWith (answer (asked name timing d)).0 out
        × ((more : List String) → execute str_of answer (names ++ name ∷ more) timing e ≡ out)
  execute-Halts names timing e d name passed on halts =
      let (out, ends, same) = turn-EndsWith d name (answer (asked name timing d)) halts in
      (
        out,
        ends,
        λ more.
            execute-append names (name ∷ more) timing e
            ∙ ap (then_execute (name ∷ more) timing) passed
            ∙ unfold then_execute execute in rw on (same (execute str_of answer more timing)),
      )
