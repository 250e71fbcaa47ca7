-- ===== src/Tools/Setup/Names.antt =====
-- Names in dicts, and what a registration of agent_harness/tools.py does not replace.
use temporal_agent_harness_e.Prelude.{
  String, ◌≡◌, refl, inl, inr, false, none, some, List, [], ◌∷◌, arith, str_eq, eq_iff, Bool-cases,
}
use temporal_agent_harness_e.Guards.{GuardDef}
use temporal_agent_harness_e.Tools.{ToolDef, find, assign, ToolSet}
use temporal_agent_harness_e.Tools.Setup.{Functions}
use temporal_agent_harness_e.Tools.Setup.{store_guard, store_tool}
use temporal_agent_harness_e.Tools.Setup.Keeps.{Registration, register, register-Keeps}

module _ {ℓ} {V : Type ℓ} where
  -- No name stands twice.
  abbrev pub Distinct : List (String × V) → Type ℓ
  Distinct [] = Unit
  Distinct ((k, v) ∷ d) = (find k d ≡ none) × Distinct d

  pub find-assign :
      (k j : String) (v : V) (d : List (String × V))
      → find j d ≡ none
      → str_eq k j ≡ false
      → find j (assign k v d) ≡ none
  unfolding find assign
  find-assign k j v [] h ne = rw ne
  find-assign k j v ((i, w) ∷ d) h ne =
      ground (arith, eq_iff i k, eq_iff i j, eq_iff k j, find-assign k j v d)

  pub assign-Distinct :
      (k : String) (v : V) (d : List (String × V)) → Distinct d → Distinct (assign k v d)
  unfolding find assign
  assign-Distinct k v [] h = (refl, tt)
  assign-Distinct k v ((j, w) ∷ d) h = elim (Bool-cases (str_eq j k)) [
    | inl e ↦ rw e h
    | inr e ↦ rw e (
      find-assign k j v d h.0 (ground (arith, eq_iff j k, eq_iff k j)),
      assign-Distinct k v d h.1,
    )
  ]

find-assign_kept {ℓ} :
    {V : Type ℓ} (k j : String) (v w : V) (d : List (String × V))
    → find k d ≡ none
    → find j d ≡ some w
    → find j (assign k v d) ≡ some w
unfolding find assign
find-assign_kept k j v w [] h e = cc
find-assign_kept k j v w ((i, x) ∷ d) h e =
    ground (arith, eq_iff i k, eq_iff i j, eq_iff k j, find-assign_kept k j v w d)

-- No registration, whether it returns or raises, replaces or removes a tool or a guard that the set
-- has: a second definition under a name in use is refused.
pub find-register :
    (f : Functions) (r : Registration) (s : ToolSet)
    → ((n : String) (t : ToolDef)
        → find n s.tools ≡ some t
        → find n (register f r s).1.tools ≡ some t)
      × ((n : String) (g : GuardDef)
          → find n s.guards ≡ some g
          → find n (register f r s).1.guards ≡ some g)
find-register f r s = (
  λ n t.
      (register-Keeps f (λ u. find n u.tools ≡ some t) (λ d u e k. unfold store_guard in k)
          (λ d u e k. unfold store_tool in find-assign_kept d.name n d t u.tools e k) r).at
        s,
  λ n g.
      (register-Keeps f (λ u. find n u.guards ≡ some g)
          (λ d u e k. unfold store_guard in find-assign_kept d.name n d g u.guards e k)
          (λ d u e k. unfold store_tool in k) r).at
        s,
)
