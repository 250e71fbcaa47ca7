-- ===== src/Activity/Options/Overrides.antt =====
-- The properties of the options of an activity: which of the given options an activity gets.
use temporal_agent_harness_e.Prelude.{
  ◌∙◌, String, ◌≡◌, refl, inl, inr, false, Option, none, some, List, [], ◌∷◌, map, str_eq, eq_refl,
  ◌⊎◌, Bool-cases, if◌then◌else◌, cons_some,
}
use temporal_agent_harness_e.Prelude.Text.{contains}
use temporal_agent_harness_e.Invocation.{Mapping, lookup}
use temporal_agent_harness_e.Activity.Options.{
  ActivityOptions, Field, field_name, fields, replaced, getattr, with_overrides, set_fields,
  to_execute_activity_kwargs, keyword_arguments, activity_options_with_overrides, task_queue,
  schedule_to_close, schedule_to_start, start_to_close, heartbeat, retry, cancellation, versioning,
  priority, named,
}

abbrev IsUnique : List Field → Type 0
IsUnique [] = Unit
IsUnique (f ∷ fs) = (contains (map field_name fs) (field_name f) ≡ false) × IsUnique fs

fields-IsUnique : IsUnique fields
unfolding contains
fields-IsUnique = (refl, (refl, (refl, (refl, (refl, (refl, (refl, (refl, (refl, tt)))))))))

-- `f` stands in the list, after fields of other names.
abbrev Among : Field → List Field → Type 0
Among f [] = ⊥
Among f (g ∷ fs) = (f ≡ g) ⊎ ((str_eq (field_name g) (field_name f) ≡ false) × Among f fs)

fields-Among : (f : Field) → Among f fields
fields-Among task_queue = inl refl
fields-Among schedule_to_close = inr (refl, inl refl)
fields-Among schedule_to_start = inr (refl, inr (refl, inl refl))
fields-Among start_to_close = inr (refl, inr (refl, inr (refl, inl refl)))
fields-Among heartbeat = inr (refl, inr (refl, inr (refl, inr (refl, inl refl))))
fields-Among retry = inr (refl, inr (refl, inr (refl, inr (refl, inr (refl, inl refl)))))
fields-Among cancellation =
    inr (refl, inr (refl, inr (refl, inr (refl, inr (refl, inr (refl, inl refl))))))
fields-Among versioning =
    inr (refl, inr (refl, inr (refl, inr (refl, inr (refl, inr (refl, inr (refl, inl refl)))))))
fields-Among priority = inr (
  refl,
  inr (refl, inr (refl, inr (refl, inr (refl, inr (refl, inr (refl, inr (refl, inl refl))))))),
)

module _ {ℓ} {A : Type ℓ} where
  lookup-cons_some :
      (k n : String) (v : Option A) (d : Mapping A)
      → lookup k (cons_some (named n v) d)
        ≡ (if str_eq n k then replaced (lookup k d) v else lookup k d)
  unfolding lookup
  lookup-cons_some k n none d = elim (Bool-cases (str_eq n k)) [
    | inl e ↦ rw e refl
    | inr e ↦ rw e refl
  ]
  lookup-cons_some k n (some v) d = refl

  lookup-set_fields :
      (o : ActivityOptions A) (k : String) (f : Field) (fs : List Field)
      → lookup k (set_fields o (f ∷ fs)) ≡ (
          if str_eq (field_name f) k
          then replaced (lookup k (set_fields o fs)) (getattr o f)
          else lookup k (set_fields o fs))
  unfolding set_fields
  lookup-set_fields o k f fs = lookup-cons_some k (field_name f) (getattr o f) (set_fields o fs)

  lookup-absent :
      (o : ActivityOptions A) (k : String) (fs : List Field)
      → contains (map field_name fs) k ≡ false
      → lookup k (set_fields o fs) ≡ none
  unfolding lookup set_fields contains
  lookup-absent o k [] h = refl
  lookup-absent o k (f ∷ fs) h =
      let step = lookup-set_fields o k f fs in
      let rest = lookup-absent o k fs in
      elim (Bool-cases (str_eq (field_name f) k)) [
        | inl e ↦ cc
        | inr e ↦ rw (step, e) (rest (rw e at h))
      ]

  getattr-with_overrides :
      (a b : ActivityOptions A) (f : Field)
      → getattr (with_overrides a b) f ≡ replaced (getattr a f) (getattr b f)
  unfolding getattr with_overrides
  getattr-with_overrides a b task_queue = refl
  getattr-with_overrides a b schedule_to_close = refl
  getattr-with_overrides a b schedule_to_start = refl
  getattr-with_overrides a b start_to_close = refl
  getattr-with_overrides a b heartbeat = refl
  getattr-with_overrides a b retry = refl
  getattr-with_overrides a b cancellation = refl
  getattr-with_overrides a b versioning = refl
  getattr-with_overrides a b priority = refl

  replaced-none : (x : Option A) → replaced none x ≡ x
  replaced-none none = refl
  replaced-none (some v) = refl

  lookup-getattr :
      (o : ActivityOptions A) (f : Field) (fs : List Field)
      → IsUnique fs
      → Among f fs
      → lookup (field_name f) (set_fields o fs) ≡ getattr o f
  lookup-getattr o f [] u h = elim h [ ]
  lookup-getattr o f (g ∷ fs) u (inl e) =
      rw
        (
          e,
          lookup-set_fields o (field_name g) g fs,
          eq_refl (field_name g),
          lookup-absent o (field_name g) fs u.0,
        )
        (replaced-none (getattr o g))
  lookup-getattr o f (g ∷ fs) u (inr h) =
      rw (lookup-set_fields o (field_name f) g fs, h.0) (lookup-getattr o f fs u.1 h.1)

  getattr-keyword_arguments :
      (kwargs : Mapping A) (f : Field)
      → getattr (keyword_arguments kwargs) f ≡ lookup (field_name f) kwargs
  unfolding getattr keyword_arguments
  getattr-keyword_arguments kwargs task_queue = refl
  getattr-keyword_arguments kwargs schedule_to_close = refl
  getattr-keyword_arguments kwargs schedule_to_start = refl
  getattr-keyword_arguments kwargs start_to_close = refl
  getattr-keyword_arguments kwargs heartbeat = refl
  getattr-keyword_arguments kwargs retry = refl
  getattr-keyword_arguments kwargs cancellation = refl
  getattr-keyword_arguments kwargs versioning = refl
  getattr-keyword_arguments kwargs priority = refl

  kwargs-getattr :
      (o : ActivityOptions A) (f : Field)
      → lookup (field_name f) (to_execute_activity_kwargs o) ≡ getattr o f
  unfolding to_execute_activity_kwargs
  kwargs-getattr o f = lookup-getattr o f fields fields-IsUnique (fields-Among f)

  abbrev pub given_option : Option (ActivityOptions A) → Field → Option A
  given_option none f = none
  given_option (some o) f = getattr o f

  fields_of-with_overrides :
      (defaults : ActivityOptions A) (given : Option (ActivityOptions A))
      (explicit : ActivityOptions A) (f : Field)
      → getattr (activity_options_with_overrides defaults given explicit) f
        ≡ replaced (replaced (getattr defaults f) (given_option given f)) (getattr explicit f)
  unfolding activity_options_with_overrides
  fields_of-with_overrides d none x f = getattr-with_overrides d x f
  fields_of-with_overrides d (some o) x f =
      let kwargs = to_execute_activity_kwargs o in
      rw
        (
          getattr-with_overrides (with_overrides d (keyword_arguments kwargs)) x f,
          getattr-with_overrides d (keyword_arguments kwargs) f,
          getattr-keyword_arguments kwargs f,
          kwargs-getattr o f,
        )
        refl

  -- Each of the nine options of an activity is passed under its name if someone gives it, and then it is
  -- the one that the call gives, or else that of the given ActivityOptions, or else the default.
  pub lookup-activity_options_with_overrides :
      (defaults : ActivityOptions A) (given : Option (ActivityOptions A))
      (explicit : ActivityOptions A) (f : Field)
      → lookup
          (field_name f)
          (to_execute_activity_kwargs (activity_options_with_overrides defaults given explicit))
        ≡ replaced (replaced (getattr defaults f) (given_option given f)) (getattr explicit f)
  lookup-activity_options_with_overrides d given x f =
      kwargs-getattr (activity_options_with_overrides d given x) f
      ∙ fields_of-with_overrides d given x f
