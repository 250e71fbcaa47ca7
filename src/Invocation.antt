-- ===== src/Invocation.antt =====
-- agent_harness/invocation.py, and the calls of it in guards.py, tools.py and activity_router.py:
-- the keyword arguments of a function of the user. A function is its name and its signature, in
-- which an annotation is the name of a type; values are of any type.
pub mod Binding
use Prim.Native.Char.{code}
use Prim.Native.String.{◌++◌ as join}
use temporal_agent_harness_e.Prelude.{
  String, Bool, true, false, not, ◌&&◌, ◌||◌, Option, none, some, List, [], ◌∷◌, ◌++◌, map, str_eq,
  ltb, ◌==◌, if◌then◌else◌, is_empty, cons_some,
}
use temporal_agent_harness_e.Prelude.Text.{contains}
use temporal_agent_harness_e.Prelude.Outcome.{Outcome, ok, raise, type_error, ◌>>=◌, ◌>>◌, raise_if}

-- inspect.Parameter, with the annotation that get_type_hints gives
pub record Parameter : Type 0 where
  pub name : String
  pub annotation : String
  pub has_default : Bool

pub record Signature : Type 0 where
  pub name : String
  pub parameters : List Parameter

-- a dict by its items, in the order of insertion
abbrev pub Mapping {ℓ} : (A : Type ℓ) → Type ℓ
Mapping A = List (String × A)

unfoldable pub lookup {ℓ} : {A : Type ℓ} → String → Mapping A → Option A
lookup k [] = none
lookup k (e ∷ d) = let rest = lookup k d in if str_eq e.0 k then some e.1 else rest

abbrev pub keys {ℓ} : {A : Type ℓ} → Mapping A → List String
keys d = map (λ e. e.0) d

unfoldable pub text_le : String → String → Bool
text_le String.[] t = true
text_le (String.◌∷◌ c s) String.[] = false
text_le (String.◌∷◌ c s) (String.◌∷◌ d t) =
    ltb (code c) (code d) || ((code c == code d) && text_le s t)

insert : String → List String → List String
unfolding text_le
insert x [] = x ∷ []
insert x (y ∷ ys) = let rest = insert x ys in if text_le x y then x ∷ y ∷ ys else y ∷ rest

-- sorted(names)
unfoldable pub sort : List String → List String
unfolding insert
sort [] = []
sort (x ∷ xs) = insert x (sort xs)

-- ", ".join(names)
unfoldable pub join_commas : List String → String
join_commas [] = ""
join_commas (x ∷ []) = x
join_commas (x ∷ y ∷ ys) = join x (join ", " (join_commas (y ∷ ys)))

-- kwargs and consumed_args of the loop over the parameters
pub record Bound {ℓ} (A : Type ℓ) : Type ℓ where
  kwargs : Mapping A
  consumed_args : List String

abbrev pub is_receiver : String → Bool
is_receiver name = str_eq name "self" || str_eq name "cls"

-- The names of the parameters differ, so `kwargs[name] = value` appends.
abbrev pub put_kwarg {ℓ} : {A : Type ℓ} → String → A → Bound A → Bound A
put_kwarg name v b = record { kwargs = b.kwargs ++ (name, v) ∷ []; consumed_args = b.consumed_args }

abbrev pub consume {ℓ} : {A : Type ℓ} → String → Bound A → Bound A
consume name b = record { kwargs = b.kwargs; consumed_args = b.consumed_args ++ name ∷ [] }

-- `missing` gives the templates of messages, as functions of the names of function and parameter.
module _ {ℓ} {A : Type ℓ} (fn : Signature) (provided_args injected : Mapping A)
    (missing : Mapping (String → String → String)) (label : String) where
  unfoldable pub missing_required : Parameter → String
  missing_required p =
      join "Missing required " (join label (join " argument " (join fn.name (join "." p.name))))

  unfoldable pub bind_provided : Parameter → Option A → Bound A → Outcome (Bound A)
  unfolding missing_required
  bind_provided p (some v) b = ok (consume p.name (put_kwarg p.name v b))
  bind_provided p none b = do raise_if (not p.has_default) (type_error (missing_required p)); ok b

  unfoldable pub bind_injected :
      Parameter → Option A → Option (String → String → String) → Bound A → Outcome (Bound A)
  unfolding bind_provided
  bind_injected p (some v) template b = ok (put_kwarg p.name v b)
  bind_injected p none (some template) b = raise (type_error (template fn.name p.name))
  bind_injected p none none b = bind_provided p (lookup p.name provided_args) b

  -- one round of the loop
  unfoldable pub bind_parameter : Parameter → Bound A → Outcome (Bound A)
  unfolding bind_injected
  bind_parameter p b =
      if is_receiver p.name
      then ok b
      else bind_injected p (lookup p.annotation injected) (lookup p.annotation missing) b

  unfoldable pub bind_parameters : List Parameter → Bound A → Outcome (Bound A)
  unfolding bind_parameter
  bind_parameters [] b = ok b
  bind_parameters (p ∷ ps) b = do b ← bind_parameter p b; bind_parameters ps b

  -- set(provided_args) - consumed_args
  unfoldable pub unexpected_args : List String → List String → List String
  unexpected_args consumed [] = []
  unexpected_args consumed (n ∷ names) =
      let rest = unexpected_args consumed names in if contains consumed n then rest else n ∷ rest

  unfoldable pub unexpected : List String → String
  unfolding sort join_commas
  unexpected names =
      join "Unexpected " (
        join label (join " argument(s) for " (join fn.name (join ": " (join_commas (sort names))))))

  unfoldable pub bind_keyword_arguments : Bool → Outcome (Mapping A)
  unfolding bind_parameters unexpected_args unexpected
  bind_keyword_arguments reject_unexpected = do
    b ← bind_parameters fn.parameters (record { kwargs = []; consumed_args = [] })
    let left = unexpected_args b.consumed_args (keys provided_args)
    raise_if (reject_unexpected && not (is_empty left)) (type_error (unexpected left))
    ok b.kwargs

-- _kwargs_for_guard
unfoldable pub kwargs_for_guard {ℓ} : {A : Type ℓ} → Signature → A → Outcome (Mapping A)
unfolding bind_keyword_arguments
kwargs_for_guard fn ctx = bind_keyword_arguments fn [] (("GuardContext", ctx) ∷ []) [] "guard" true

-- _kwargs_for_tool
unfoldable pub kwargs_for_tool {ℓ} : {A : Type ℓ} → Signature → A → Mapping A → Outcome (Mapping A)
unfolding bind_keyword_arguments
kwargs_for_tool fn ctx args =
    bind_keyword_arguments fn args (("ToolContext", ctx) ∷ []) [] "tool" true

abbrev pub requires_activity_context : String → String → String
requires_activity_context function parameter =
    join function (join "." (join parameter " requires a routed activity context"))

abbrev pub with_context {ℓ} : {A : Type ℓ} → Option A → Mapping A
with_context (some c) = ("RoutedActivityContext", c) ∷ []
with_context none = []

-- _kwargs_for_activity
unfoldable pub kwargs_for_activity {ℓ} :
    {A : Type ℓ} → Signature → A → Mapping A → Option A → Outcome (Mapping A)
unfolding bind_keyword_arguments
kwargs_for_activity fn stream args activity_context =
    bind_keyword_arguments fn args (("StreamContext", stream) ∷ with_context activity_context)
      (("RoutedActivityContext", requires_activity_context) ∷ []) "activity" true
