-- ===== src/Tools/Setup.antt =====
-- Registration in agent_harness/tools.py and GuardSet of agent_harness/guards.py. A registration that
-- raises keeps what it registered before, so the tool set comes back beside the exception.
pub mod Keeps
pub mod Names
use temporal_agent_harness_e.Prelude.{
  ℕ, zero, suc, ◌+◌, ◌-◌, ◌*◌, ◌/◌, ◌%◌, ◌≤◌, ◌<◌, min, max, String, ◌≡◌, refl, sym, ap, ◌∙◌, subst,
  ◌≢◌, ◌↔◌, ◌⊎◌, inl, inr, Bool, true, false, not, ◌&&◌, ◌||◌, Option, none, some, List, [], ◌∷◌,
  ◌++◌, map, append-nil, append_assoc, map-append, arith, str_eq, eq_iff, eq_refl, ltb, leb, ◌==◌,
  if◌then◌else◌, Bool-cases, Option-cases, length, get_elem?, set, drop, take, is_empty, all,
  cons_some, length-append, length-drop, length-set, All, All-append, All-drop, All-if,
  All-cons_some, length-map, nil_of_empty, ne-nil_of_not_empty, not_empty_of_ne-nil, ltb→lt, lt→ltb,
  leb→le, le→leb, leb_false→lt, &&_iff,
}
use temporal_agent_harness_e.Prelude.Text.{
  text_length, text_take, is_blank, contains, decimal, lstrip, strip, join_lines,
}
use temporal_agent_harness_e.Prelude.Outcome.{
  Outcome, ok, raise, value_error, type_error, key_error, ◌>>=◌, ◌>>◌, raise_if, IsOk, Yields,
  Yields-bind, Yields-ok, raise_if-ok, seq-ok, bind-ok,
}
use temporal_agent_harness_e.Prelude.Loops.{iterate, iterate_inv, iterate_ends}
use temporal_agent_harness_e.Prelude.Int.{
  ℤ, pos, negsuc, ◌+ℤ◌, ◌-ℤ◌, ◌*ℤ◌, ◌≤ℤ◌, ltb_ℤ, leb_ℤ, max_ℤ, min_ℤ, int_eq, pos_part, neg_part,
  int_laws,
}
use temporal_agent_harness_e.Json.{
  Value, Items, Dict, get, put, get_str, as_str, field_is, to_items, value_eq, get-put, get_str-put,
  get_str-put_ne, field_is_ne, field_is-put_ne,
}
use temporal_agent_harness_e.Json.Dumps.{dumps, dumps_compact}
use temporal_agent_harness_e.Guards.{
  GuardTiming, pre, post, normalize_tool_category, tool_category_set, GuardPolicy, default_policy,
  GuardDef, GuardResult, validate_tool_guards, guard_failure_payload, Event, guard_ran, tool_ran,
  History, GuardContext, Run, execute_guards, ToolResult,
}
use temporal_agent_harness_e.Tools.{
  ArgsMode, signature, raw, ToolDef, find, assign, ToolSet, tool_names, get_tool, tool_schemas,
}
use Prim.Native.String.{◌++◌ as join}
use temporal_agent_harness_e.Prelude.Outcome.{Fault}

abbrev pub Setup {ℓ} : Type ℓ → Type ℓ
Setup A = ToolSet → Outcome A × ToolSet

module _ {ℓ κ} {A : Type ℓ} {B : Type κ} where
  abbrev pub continue : Outcome A → (A → Setup B) → Setup B
  continue (ok a) f s = f a s
  continue (raise e) f s = (raise e, s)

  unfoldable pub and_then : Setup A → (A → Setup B) → Setup B
  and_then m f s = let (r, t) = m s in continue r f t

unfoldable pub give {ℓ} : {A : Type ℓ} → A → Setup A
give a s = (ok a, s)

unfoldable pub fail {ℓ} : {A : Type ℓ} → Fault → Setup A
fail e s = (raise e, s)

unfoldable pub lift {ℓ} : {A : Type ℓ} → Outcome A → Setup A
lift r s = (r, s)

unfoldable pub gets {ℓ} : {A : Type ℓ} → (ToolSet → A) → Setup A
gets f s = (ok (f s), s)

-- A guard is named by its function or by its name.
pub data GuardReference : Type 0 where
  by_function : ℕ → GuardReference
  by_name : String → GuardReference

pub record GuardMetadata : Type 0 where
  pub name : String
  pub fulfills : List String

pub record ToolMetadata : Type 0 where
  pub name : String
  pub description : String
  pub tool_type : String
  pub pre_guards : List GuardReference
  pub post_guards : List GuardReference

-- What the decorators left on the functions, and the schemas of their parameters.
pub record Functions : Type 0 where
  pub guard_metadata : ℕ → Option GuardMetadata
  pub tool_metadata : ℕ → Option ToolMetadata
  pub input_schema_for_tool : ℕ → Outcome Dict

abbrev find_function : ℕ → List (ℕ × GuardDef) → Option GuardDef
find_function fn [] = none
find_function fn ((g, d) ∷ rest) = if g == fn then some d else find_function fn rest

unfoldable pub store_guard : GuardDef → Setup (Unit {0})
store_guard d s = (
  ok tt,
  record s { guards = assign d.name d s.guards; functions = s.functions ++ (d.fn, d) ∷ [] },
)

define_guard : ℕ → GuardMetadata → List String → Setup GuardDef
unfolding and_then store_guard give
define_guard fn m categories =
    let d : GuardDef = record { name = m.name; fulfills = categories; fn = fn } in
    and_then (store_guard d) λ _. give d

-- the decorator of GuardSet.guard
add_guard_def : ℕ → GuardMetadata → Option GuardDef → Setup GuardDef
unfolding and_then define_guard lift fail
add_guard_def fn m (some d) = fail (value_error (join "Duplicate guard name: " m.name))
add_guard_def fn m none = and_then (lift (tool_category_set m.fulfills)) (define_guard fn m)

unfoldable pub store_tool : ToolDef → Setup (Unit {0})
store_tool t s = (ok tt, record s { tools = assign t.name t s.tools })

define_tool :
    String
    → String
    → ℕ
    → List GuardDef
    → List GuardDef
    → ArgsMode
    → Dict
    → String
    → Setup (Unit {0})
unfolding store_tool
define_tool name description fn pres posts mode input category = store_tool (record {
  name = name;
  description = description;
  input_schema = input;
  tool_type = category;
  fn = fn;
  pre_guards = pres;
  post_guards = posts;
  args_mode = mode;
})

categorised :
    String
    → String
    → String
    → ℕ
    → List GuardDef
    → List GuardDef
    → ArgsMode
    → Dict
    → Setup (Unit {0})
unfolding define_tool
categorised name description tool_type fn pres posts mode input =
    and_then (lift (normalize_tool_category tool_type))
      (define_tool name description fn pres posts mode input)

module _ (f : Functions) where
  described_guard : ℕ → Option GuardMetadata → Setup GuardDef
  unfolding add_guard_def gets fail
  described_guard fn none =
      fail (value_error "Guard is not registered; decorate it before using it in a tool")
  described_guard fn (some m) = and_then (gets (λ s. find m.name s.guards)) (add_guard_def fn m)

  known_guard : ℕ → Option GuardDef → Setup GuardDef
  unfolding described_guard
  known_guard fn (some d) = give d
  known_guard fn none = described_guard fn (f.guard_metadata fn)

  -- _register_guard: a function that is registered already is found again
  unfoldable pub register_guard : ℕ → Setup GuardDef
  unfolding known_guard
  register_guard fn = and_then (gets (λ s. find_function fn s.functions)) (known_guard fn)

  or_registered : String → Option GuardDef → Option GuardDef → Setup GuardDef
  or_registered name (some d) _ = give d
  or_registered name none (some d) = give d
  or_registered name none none = fail (value_error (join "Unknown guard: " name))

  resolve_guard_ref : List (String × GuardDef) → GuardReference → Setup GuardDef
  unfolding or_registered register_guard
  resolve_guard_ref provider_guards (by_name name) =
      and_then (gets (λ s. find name s.guards)) (or_registered name (find name provider_guards))
  resolve_guard_ref provider_guards (by_function fn) = register_guard fn

  unfoldable pub resolve_guard_refs :
      List GuardReference → List (String × GuardDef) → Setup (List GuardDef)
  unfolding resolve_guard_ref
  resolve_guard_refs [] provider_guards = give []
  resolve_guard_refs (r ∷ rs) provider_guards =
      and_then (resolve_guard_ref provider_guards r)
        λ d. and_then (resolve_guard_refs rs provider_guards) λ ds. give (d ∷ ds)

  schema_or : Option Dict → ℕ → Outcome Dict
  schema_or (some d) fn = ok d
  schema_or none fn = f.input_schema_for_tool fn

  -- _register_tool; an absent input schema is derived from the function's signature
  unfoldable pub register_tool :
      String
      → String
      → String
      → ℕ
      → List GuardDef
      → List GuardDef
      → Option Dict
      → ArgsMode
      → Option ToolDef
      → Setup (Unit {0})
  unfolding schema_or categorised
  register_tool name description tool_type fn pres posts schema mode (some t) =
      fail (value_error (join "Duplicate tool name: " name))
  register_tool name description tool_type fn pres posts schema mode none =
      and_then (lift (schema_or schema fn))
        (categorised name description tool_type fn pres posts mode)

  unfoldable pub add_decorated : ℕ → ToolMetadata → List (String × GuardDef) → Setup (Unit {0})
  unfolding register_tool resolve_guard_refs
  add_decorated fn m provider_guards =
      and_then (resolve_guard_refs m.pre_guards provider_guards) λ pres.
        and_then (resolve_guard_refs m.post_guards provider_guards) λ posts.
          and_then (gets (λ s. find m.name s.tools))
            (register_tool m.name m.description m.tool_type fn pres posts none signature)

  missing_or : ℕ → Option ToolMetadata → Setup (Unit {0})
  unfolding add_decorated
  missing_or fn none = fail (value_error "Tool is missing @tool metadata")
  missing_or fn (some m) = add_decorated fn m []

  unfoldable pub add_tool : List ℕ → Setup (Unit {0})
  unfolding missing_or
  add_tool [] = give tt
  add_tool (fn ∷ fns) = and_then (missing_or fn (f.tool_metadata fn)) λ _. add_tool fns

  require_metadata : Option GuardMetadata → Setup (Unit {0})
  require_metadata none = fail (value_error "Guard is missing @guard metadata")
  require_metadata (some m) = give tt

  unfoldable pub add_guard : List ℕ → Setup (Unit {0})
  unfolding require_metadata
  add_guard [] = give tt
  add_guard (fn ∷ fns) =
      and_then (require_metadata (f.guard_metadata fn))
        λ _. and_then (register_guard fn) λ _. add_guard fns

  unfoldable pub add_dynamic_tool :
      String
      → String
      → Dict
      → String
      → ℕ
      → List GuardReference
      → List GuardReference
      → Setup (Unit {0})
  unfolding register_tool resolve_guard_refs
  add_dynamic_tool name description schema tool_type fn pres posts =
      and_then (resolve_guard_refs pres []) λ pre_defs.
        and_then (resolve_guard_refs posts []) λ post_defs.
          and_then (gets (λ s. find name s.tools))
            (register_tool name description tool_type fn pre_defs post_defs (some schema) raw)

  note_guard :
      ℕ → List (String × GuardDef) → Option GuardMetadata → Setup (List (String × GuardDef))
  note_guard fn known none = give known
  note_guard fn known (some m) = and_then (register_guard fn) λ d. give (assign m.name d known)

  provider_guards_of : List ℕ → List (String × GuardDef) → Setup (List (String × GuardDef))
  unfolding note_guard
  provider_guards_of [] known = give known
  provider_guards_of (fn ∷ fns) known =
      and_then (note_guard fn known (f.guard_metadata fn)) (provider_guards_of fns)

  -- `included is not None and name not in included`, or excluded
  unfoldable pub is_admitted : Option (List String) → List String → String → Bool
  is_admitted none excluded name = not (contains excluded name)
  is_admitted (some included) excluded name = contains included name && not (contains excluded name)

  offer_tool :
      Option (List String)
      → List String
      → List (String × GuardDef)
      → ℕ
      → Option ToolMetadata
      → Setup (Unit {0})
  unfolding add_decorated
  offer_tool included excluded known fn none = give tt
  offer_tool included excluded known fn (some m) =
      if is_admitted included excluded m.name then add_decorated fn m known else give tt

  provider_tools_of :
      Option (List String) → List String → List (String × GuardDef) → List ℕ → Setup (Unit {0})
  unfolding offer_tool
  provider_tools_of included excluded known [] = give tt
  provider_tools_of included excluded known (fn ∷ fns) =
      and_then (offer_tool included excluded known fn (f.tool_metadata fn))
        λ _. provider_tools_of included excluded known fns

  -- A provider is the list of its decorated methods.
  unfoldable pub add_provider : List ℕ → Option (List String) → List String → Setup (Unit {0})
  unfolding provider_guards_of provider_tools_of
  add_provider methods included excluded =
      and_then (provider_guards_of methods [])
        λ known. provider_tools_of included excluded known methods
