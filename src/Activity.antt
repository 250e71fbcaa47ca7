-- ===== src/Activity.antt =====
-- record_routed_activity_call of agent_harness/workflow_activities.py: the calls of activities that a
-- tool or a guard makes, each with an optional step.
pub mod Options
use temporal_agent_harness_e.Prelude.{
  ℕ, suc, ◌+◌, ◌≡◌, refl, ap, ◌∙◌, ◌↔◌, ◌⊎◌, inl, inr, Bool, true, false, ◌&&◌, Option, none, some,
  List, [], ◌∷◌, String, arith, ltb, length,
}
use temporal_agent_harness_e.Prelude.Outcome.{
  Fault, Outcome, ok, raise, value_error, ◌>>=◌, ◌>>◌, raise_if,
}
use Prim.Native.String.{◌++◌ as join}

abbrev is_none : Option String → Bool
is_none none = true
is_none (some s) = false

marks : Option String → Bool → Bool
marks none used = true
marks (some s) used = used

unfoldable pub record_routed_activity_call : String → Option String → ℕ → Bool → Outcome (ℕ × Bool)
unfolding marks
record_routed_activity_call owner step activity_count used_unstepped = do
  raise_if (is_none step && ltb 0 activity_count)
      (value_error (join owner " called multiple activities; pass step=..."))
  raise_if (not_none step && used_unstepped)
      (value_error (join owner " mixed an unstepped activity with stepped activities"))
  ok (suc activity_count, marks step used_unstepped)
  where
    not_none : Option String → Bool
    not_none none = false
    not_none (some s) = true

-- The calls of one context, which counts from 0.
unfoldable pub record_calls : String → List (Option String) → ℕ → Bool → Outcome (ℕ × Bool)
record_calls owner [] activity_count used = ok (activity_count, used)
record_calls owner (step ∷ rest) activity_count used = do
  (count, now_used) ← record_routed_activity_call owner step activity_count used
  record_calls owner rest count now_used

-- Every call has a step.
abbrev pub AllStepped : List (Option String) → Type 0
AllStepped [] = Unit
AllStepped (none ∷ rest) = ⊥
AllStepped (some s ∷ rest) = AllStepped rest

from_zero : (k : ℕ) → 0 + k ≡ k
from_zero k = omega arith

one_more : (n k : ℕ) → suc n + k ≡ n + suc k
one_more n k = omega arith

raise-ne-ok : (e : Fault) (r : ℕ × Bool) → raise e ≡ ok r → ⊥
raise-ne-ok e r h = cc

stepped :
    (owner : String) (steps : List (Option String)) (n : ℕ)
    → AllStepped steps
    → record_calls owner steps n false ≡ ok (n + length steps, false)
unfolding record_calls record_routed_activity_call
stepped owner [] n h = ap (λ k. ok (k, false)) n_zero
  where
    n_zero : n ≡ n + 0
    n_zero = omega arith
stepped owner (none ∷ rest) n h = absurd h
stepped owner (some s ∷ rest) n h =
    stepped owner rest (suc n) h ∙ ap (λ k. ok (k, false)) (one_more n (length rest))

-- After a first call a call without a step is refused.
only_stepped :
    (owner : String) (steps : List (Option String)) (n : ℕ) (r : ℕ × Bool)
    → record_calls owner steps (suc n) false ≡ ok r
    → AllStepped steps
unfolding record_calls record_routed_activity_call
only_stepped owner [] n r h = tt
only_stepped owner (none ∷ rest) n r h =
    let later : ltb 0 (suc n) ≡ true = ground arith in absurd (raise-ne-ok _ r (rw later at h))
only_stepped owner (some s ∷ rest) n r h = only_stepped owner rest (suc n) r h

only_call :
    (owner : String) (step : Option String) (rest : List (Option String)) (r : ℕ × Bool)
    → record_calls owner (none ∷ step ∷ rest) 0 false ≡ ok r
    → ⊥
unfolding record_calls record_routed_activity_call
only_call owner none rest r h = raise-ne-ok _ r h
only_call owner (some s) rest r h = raise-ne-ok _ r h

after_first :
    (owner s : String) (rest : List (Option String)) (r : ℕ × Bool)
    → record_calls owner (some s ∷ rest) 0 false ≡ ok r
    → AllStepped rest
unfolding record_calls record_routed_activity_call
after_first owner s rest r h = only_stepped owner rest 0 r h

single_call : (owner : String) → record_calls owner (none ∷ []) 0 false ≡ ok (1, true)
unfolding record_calls record_routed_activity_call
single_call owner = refl

accepted :
    (owner : String) (steps : List (Option String)) (r : ℕ × Bool)
    → record_calls owner steps 0 false ≡ ok r
    → AllStepped steps ⊎ (steps ≡ none ∷ [])
accepted owner [] r h = inl tt
accepted owner (none ∷ []) r h = inr refl
accepted owner (none ∷ step ∷ rest) r h = absurd (only_call owner step rest r h)
accepted owner (some s ∷ rest) r h = inl (after_first owner s rest r h)

enough :
    (owner : String) (steps : List (Option String))
    → AllStepped steps ⊎ (steps ≡ none ∷ [])
    → (r : ℕ × Bool) × (record_calls owner steps 0 false ≡ ok r) × (r.0 ≡ length steps)
enough owner steps (inl all) = (
  (length steps, false),
  stepped owner steps 0 all ∙ ap (λ k. ok (k, false)) (from_zero (length steps)),
  refl,
)
enough owner steps (inr single) = rw single ((1, true), single_call owner, refl)

-- The calls of a context are accepted exactly when each has a step or when there is a single one, and
-- the context then counted them all.
pub record_calls_iff :
    (owner : String) (steps : List (Option String))
    → ((r : ℕ × Bool) × (record_calls owner steps 0 false ≡ ok r) × (r.0 ≡ length steps))
      ↔ (AllStepped steps ⊎ (steps ≡ none ∷ []))
record_calls_iff owner steps = (λ (r, h, counted). accepted owner steps r h, enough owner steps)
