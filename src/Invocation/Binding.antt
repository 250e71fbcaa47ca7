-- ===== src/Invocation/Binding.antt =====
-- The properties of the keyword arguments of agent_harness/invocation.py.
use temporal_agent_harness_e.Prelude.{
  String, ◌≡◌, refl, sym, ap, ◌∙◌, ◌⊎◌, inl, inr, Bool, true, false, not, ◌&&◌, ◌||◌, Option, none,
  some, List, [], ◌∷◌, ◌++◌, append-nil, append_assoc, arith, if◌then◌else◌, is_empty, all,
}
use temporal_agent_harness_e.Prelude.Text.{contains}
use temporal_agent_harness_e.Prelude.Outcome.{Outcome, ok, raise, type_error, ◌>>◌, raise_if}
use temporal_agent_harness_e.Invocation.{
  Parameter, Signature, Mapping, Bound, lookup, keys, is_receiver, bind_keyword_arguments,
  bind_parameters, bind_parameter, bind_injected, bind_provided, missing_required, unexpected_args,
}

-- Where the argument of one parameter is taken from, told apart from the loop.
pub data Source {ℓ} (A : Type ℓ) : Type ℓ where
  unbound : Source A
  from_context : A → Source A
  from_args : A → Source A
  unavailable : Source A

-- `r` is `v` where the test holds, and otherwise a TypeError.
abbrev pub Decides {ℓ} : {B : Type ℓ} → Bool → B → Outcome B → Type ℓ
Decides t v r =
    ((t ≡ true) × (r ≡ ok v)) ⊎ ((t ≡ false) × (m : String) × (r ≡ raise (type_error m)))

module _ {ℓ} {A : Type ℓ} where
  abbrev pub is_available : Source A → Bool
  is_available unavailable = false
  is_available unbound = true
  is_available (from_context v) = true
  is_available (from_args v) = true

  abbrev pub argument : String → Source A → Mapping A
  argument n unbound = []
  argument n unavailable = []
  argument n (from_context v) = (n, v) ∷ []
  argument n (from_args v) = (n, v) ∷ []

  abbrev pub taken : String → Source A → List String
  taken n unbound = []
  taken n unavailable = []
  taken n (from_context v) = []
  taken n (from_args v) = n ∷ []

  abbrev pub provided_or_default : Bool → Option A → Source A
  provided_or_default d (some v) = from_args v
  provided_or_default true none = unbound
  provided_or_default false none = unavailable

  abbrev pub context_or : Source A → Option A → Option (String → String → String) → Source A
  context_or s (some v) t = from_context v
  context_or s none (some t) = unavailable
  context_or s none none = s

  abbrev extend : Bound A → Mapping A → List String → Bound A
  extend b more names = record {
    kwargs = b.kwargs ++ more;
    consumed_args = b.consumed_args ++ names;
  }

  extend-append :
      (b : Bound A) (u v : Mapping A) (s t : List String)
      → extend (extend b u s) v t ≡ extend b (u ++ v) (s ++ t)
  extend-append b u v s t = rw (append_assoc b.kwargs u v, append_assoc b.consumed_args s t) refl

  ok-extend_kwargs :
      (b : Bound A) (u : Mapping A)
      → ok (record { kwargs = b.kwargs ++ u; consumed_args = b.consumed_args }) ≡ ok (extend b u [])
  ok-extend_kwargs b u =
      ap (λ e. ok (record { kwargs = b.kwargs ++ u; consumed_args = e }))
        (sym (append-nil b.consumed_args))

  ok-extend_nil : (b : Bound A) → ok b ≡ ok (extend b [] [])
  ok-extend_nil b =
      ap (λ e. ok (record { kwargs = e; consumed_args = b.consumed_args }))
        (sym (append-nil b.kwargs))
      ∙ ok-extend_kwargs b []

module _ {ℓ} {A : Type ℓ} (fn : Signature) (provided_args injected : Mapping A)
    (missing : Mapping (String → String → String)) (label : String) where
  -- A context goes before an argument of the caller, and that before a default.
  abbrev pub source : Parameter → Source A
  source p =
      if is_receiver p.name
      then unbound
      else context_or (provided_or_default p.has_default (lookup p.name provided_args))
          (lookup p.annotation injected) (lookup p.annotation missing)

  abbrev pub arguments : List Parameter → Mapping A
  arguments [] = []
  arguments (p ∷ ps) = argument p.name (source p) ++ arguments ps

  abbrev pub used : List Parameter → List String
  used [] = []
  used (p ∷ ps) = taken p.name (source p) ++ used ps

  abbrev pub are_available : List Parameter → Bool
  are_available ps = all (λ p. is_available (source p)) ps

  bind_provided-default :
      (p : Parameter) (o : Option A) (b : Bound A)
      → Decides
          (is_available (provided_or_default p.has_default o))
          (extend b
            (argument p.name (provided_or_default p.has_default o))
            (taken p.name (provided_or_default p.has_default o)))
          (bind_provided fn provided_args injected missing label p o b)
  unfolding bind_provided
  bind_provided-default p (some v) b = inl (refl, refl)
  bind_provided-default p none b = go p.has_default
    where
      go :
          (d : Bool)
          → let s = provided_or_default {A = A} d none in
            Decides (is_available s) (extend b (argument p.name s) (taken p.name s)) (
              raise_if
                (not d)
                (type_error (missing_required fn provided_args injected missing label p))
              >> ok b)
      go true = inl (refl, ok-extend_nil b)
      go false = inr (refl, _, refl)

  bind_injected-context :
      (p : Parameter) (o : Option A) (t : Option (String → String → String)) (b : Bound A)
      → let s = context_or (provided_or_default p.has_default (lookup p.name provided_args)) o t in
        Decides
          (is_available s)
          (extend b (argument p.name s) (taken p.name s))
          (bind_injected fn provided_args injected missing label p o t b)
  unfolding bind_injected
  bind_injected-context p (some v) t b = inl (refl, ok-extend_kwargs b ((p.name, v) ∷ []))
  bind_injected-context p none (some t) b = inr (refl, _, refl)
  bind_injected-context p none none b = bind_provided-default p (lookup p.name provided_args) b

  bind_parameter-source :
      (p : Parameter) (b : Bound A)
      → Decides
          (is_available (source p))
          (extend b (argument p.name (source p)) (taken p.name (source p)))
          (bind_parameter fn provided_args injected missing label p b)
  unfolding bind_parameter
  bind_parameter-source p b = by_receiver (is_receiver p.name)
    where
      by_receiver :
          (t : Bool)
          → let s =
              if t
              then unbound
              else context_or
                  (provided_or_default p.has_default (lookup p.name provided_args))
                  (lookup p.annotation injected)
                  (lookup p.annotation missing) in
            Decides (is_available s) (extend b (argument p.name s) (taken p.name s)) (
              if t
              then ok b
              else bind_injected fn provided_args injected missing label p
                  (lookup p.annotation injected)
                  (lookup p.annotation missing)
                  b)
      by_receiver true = inl (refl, ok-extend_nil b)
      by_receiver false =
          bind_injected-context p (lookup p.annotation injected) (lookup p.annotation missing) b

  bind_parameters-source :
      (ps : List Parameter) (b : Bound A)
      → Decides
          (are_available ps)
          (extend b (arguments ps) (used ps))
          (bind_parameters fn provided_args injected missing label ps b)
  unfolding bind_parameters
  bind_parameters-source [] b = inl (refl, ok-extend_nil b)
  bind_parameters-source (p ∷ ps) b = elim (bind_parameter-source p b) [
    | inl h ↦
        let b' = extend b (argument p.name (source p)) (taken p.name (source p)) in
        let rest = bind_parameters-source ps b' in
        rw
          (
            h.0,
            h.1,
            sym (
                extend-append b (argument p.name (source p)) (arguments ps)
                  (taken p.name (source p)) (used ps)),
          )
          rest
    | inr h ↦ inr (rw h.0 refl, h.1, rw h.2 refl)
  ]

  unexpected_args-is_empty :
      (consumed names : List String)
      → is_empty (unexpected_args fn provided_args injected missing label consumed names)
        ≡ all (contains consumed) names
  unfolding unexpected_args
  unexpected_args-is_empty consumed [] = refl
  unexpected_args-is_empty consumed (n ∷ names) =
      let rest = unexpected_args-is_empty consumed names in ground (arith, rest)

  -- What a call with these arguments needs.
  abbrev pub accepts : Bool → Bool
  accepts reject_unexpected =
      are_available fn.parameters
      && (not reject_unexpected || all (contains (used fn.parameters)) (keys provided_args))

  -- bind_keyword_arguments returns, in the order of the signature, the context objects that the
  -- annotations ask for and the given arguments that have a parameter's name, or raises a
  -- TypeError. It returns if and only if every parameter has a context, an argument or a default,
  -- none asks for a context that is missing, and, where unexpected arguments are rejected, each
  -- given argument is taken by a parameter that is not the receiver and that no context fills.
  pub bind_keyword_arguments-Decides :
      (reject_unexpected : Bool)
      → Decides
          (accepts reject_unexpected)
          (arguments fn.parameters)
          (bind_keyword_arguments fn provided_args injected missing label reject_unexpected)
  unfolding bind_keyword_arguments
  bind_keyword_arguments-Decides r =
      elim (bind_parameters-source fn.parameters (record { kwargs = []; consumed_args = [] })) [
        | inl h ↦
            let none_left = unexpected_args-is_empty (used fn.parameters) (keys provided_args) in
            rw (h.0, h.1, none_left)
              (go r (all (contains (used fn.parameters)) (keys provided_args)) _ _)
        | inr h ↦ inr (rw h.0 refl, h.1, rw h.2 refl)
      ]
    where
      go :
          (r t : Bool) (m : String) (v : Mapping A)
          → Decides (not r || t) v (raise_if (r && not t) (type_error m) >> ok v)
      go true true m v = inl (refl, refl)
      go true false m v = inr (refl, _, refl)
      go false t m v = inl (refl, refl)
