-- ===== src/Guards/Policy.antt =====
-- What validate_tool_guards of agent_harness/guards.py accepts.
use temporal_agent_harness_e.Prelude.{
  String, ◌≡◌, refl, ◌↔◌, inl, inr, true, false, ◌&&◌, List, [], ◌∷◌, arith, Bool-cases, is_empty,
  All,
}
use temporal_agent_harness_e.Prelude.Text.{contains}
use temporal_agent_harness_e.Prelude.Outcome.{ok, raise_if-ok, seq-ok}
use temporal_agent_harness_e.Guards.{GuardPolicy, GuardDef, validate_tool_guards}
use temporal_agent_harness_e.Guards.{unfulfilled}

abbrev pub AllFulfill : String → List GuardDef → Type 0
AllFulfill t = All (λ g. contains g.fulfills t ≡ true)

unfulfilled_raises :
    (kind t : String) (g : GuardDef) (gs : List GuardDef)
    → contains g.fulfills t ≡ false
    → unfulfilled kind t (g ∷ gs) ≡ ok tt
    → ⊥
unfolding unfulfilled
unfulfilled_raises kind t g gs e h = ground arith

unfulfilled_iff :
    (kind t : String) (gs : List GuardDef) → (unfulfilled kind t gs ≡ ok tt) ↔ AllFulfill t gs
unfolding unfulfilled
unfulfilled_iff kind t [] = (λ h. tt, λ h. refl)
unfulfilled_iff kind t (g ∷ gs) = elim (Bool-cases (contains g.fulfills t)) [
  | inl e ↦ (
    λ h. (e, (unfulfilled_iff kind t gs).0 (rw e at h)),
    λ h. rw e ((unfulfilled_iff kind t gs).1 h.1),
  )
  | inr e ↦ (λ h. absurd (unfulfilled_raises kind t g gs e h), λ h. cc (h.0))
]

-- A tool passes exactly when each side that the policy requires for its type has a guard, and every
-- guard of the tool fulfils its type.
pub validate_tool_guards_iff :
    (p : GuardPolicy) (t : String) (pres posts : List GuardDef)
    → (validate_tool_guards p t pres posts ≡ ok tt) ↔ (
        (contains p.required_pre t && is_empty pres ≡ false)
        × (contains p.required_post t && is_empty posts ≡ false)
        × AllFulfill t pres
        × AllFulfill t posts)
unfolding validate_tool_guards
validate_tool_guards_iff p t pres posts = (
  λ h.
      let (pre_present, h1) = raise_if-ok (contains p.required_pre t && is_empty pres) _ _ h in
      let (post_present, h2) = raise_if-ok (contains p.required_post t && is_empty posts) _ _ h1 in
      let (pre_fulfil, post_fulfil) = seq-ok (unfulfilled "Pre guard " t pres) _ h2 in
      (
        pre_present,
        post_present,
        (unfulfilled_iff "Pre guard " t pres).0 pre_fulfil,
        (unfulfilled_iff "Post guard " t posts).0 post_fulfil,
      ),
  λ (a, b, c, d). rw (
    a,
    b,
    (unfulfilled_iff "Pre guard " t pres).1 c,
    (unfulfilled_iff "Post guard " t posts).1 d,
  ),
)
