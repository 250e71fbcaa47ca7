-- ===== src/Prelude/Loops.antt =====
-- A `while` loop whose body either ends the loop (`none`) or gives the next state.
use Prim.Native.Nat.{ℕ, zero, suc, ◌<◌}
use mathlib.Core.Path.{◌≡◌}
use mathlib.Core.Logic.{inl, inr}
use mathlib.Core.Option.{Option, none, some}
use native.Mathlib.Omega.{arith}
use temporal_agent_harness_e.Prelude.Tests.{Option-cases}

module _ {ℓ} {S : Type ℓ} (step : S → Option S) where
  unfoldable pub iterate : ℕ → S → S
  iterate zero s = s
  iterate (suc fuel) s = elim (step s) [ none ↦ s | some t ↦ iterate fuel t ]

  -- What every round keeps, the loop keeps.
  pub iterate_inv {κ} :
      (P : S → Type κ)
      → ((s t : S) → step s ≡ some t → P s → P t)
      → (fuel : ℕ) (s : S) → P s
      → P (iterate fuel s)
  unfolding iterate
  iterate_inv P keep zero s h = h
  iterate_inv P keep (suc fuel) s h = elim (Option-cases (step s)) [
    | inl e ↦ rw (e, iterate) h
    | inr (t, e) ↦ rw (e, iterate) (iterate_inv P keep fuel t (keep s t e h))
  ]

  -- With a measure that every round lowers, and fuel above it, the loop ends by its own exit.
  pub iterate_ends :
      (measure : S → ℕ)
      → ((s t : S) → step s ≡ some t → measure t < measure s)
      → (fuel : ℕ) (s : S) → measure s < fuel
      → step (iterate fuel s) ≡ none
  unfolding iterate
  iterate_ends measure lower zero s h = elim h [ ]
  iterate_ends measure lower (suc fuel) s h = elim (Option-cases (step s)) [
    | inl e ↦ rw (e, iterate) e
    | inr (t, e) ↦
        let shorter = lower s t e in
        rw (e, iterate) (iterate_ends measure lower fuel t (omega arith))
  ]
