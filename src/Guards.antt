-- ===== src/Guards.antt =====
-- agent_harness/guards.py: guard policies, the check of the guards of a tool, and the run of guards
-- before and after a tool. Guards are user functions: they are a parameter, which may answer by
-- everything that ran before.
pub mod Policy
pub mod Runs
use temporal_agent_harness_e.Prelude.{
  ℕ, zero, suc, ◌+◌, ◌-◌, ◌*◌, ◌/◌, ◌%◌, ◌≤◌, ◌<◌, min, max, String, ◌≡◌, refl, sym, ap, ◌∙◌, subst,
  ◌≢◌, ◌↔◌, ◌⊎◌, inl, inr, Bool, true, false, not, ◌&&◌, ◌||◌, Option, none, some, List, [], ◌∷◌,
  ◌++◌, map, append-nil, append_assoc, map-append, arith, str_eq, eq_iff, eq_refl, ltb, leb, ◌==◌,
  if◌then◌else◌, Bool-cases, Option-cases, length, get_elem?, set, drop, take, is_empty, all,
  cons_some, length-append, length-drop, length-set, All, All-append, All-drop, All-if,
  All-cons_some, length-map, nil_of_empty, ne-nil_of_not_empty, not_empty_of_ne-nil, ltb→lt, lt→ltb,
  leb→le, le→leb, leb_false→lt, &&_iff,
}
use temporal_agent_harness_e.Prelude.Text.{
  text_length, text_take, is_blank, contains, decimal, lstrip, strip, join_lines,
}
use temporal_agent_harness_e.Prelude.Outcome.{
  Outcome, ok, raise, value_error, type_error, key_error, ◌>>=◌, ◌>>◌, raise_if, IsOk, Yields,
  Yields-bind, Yields-ok,
}
use temporal_agent_harness_e.Prelude.Loops.{iterate, iterate_inv, iterate_ends}
use temporal_agent_harness_e.Prelude.Int.{
  ℤ, pos, negsuc, ◌+ℤ◌, ◌-ℤ◌, ◌*ℤ◌, ◌≤ℤ◌, ltb_ℤ, leb_ℤ, max_ℤ, min_ℤ, int_eq, pos_part, neg_part,
  int_laws,
}
use temporal_agent_harness_e.Json.{
  Value, Items, Dict, get, put, get_str, as_str, field_is, to_items, value_eq, get-put, get_str-put,
  get_str-put_ne, field_is_ne, field_is-put_ne,
}
use temporal_agent_harness_e.Json.Dumps.{dumps, dumps_compact}
use Prim.Native.String.{◌++◌ as join}

pub data GuardTiming : Type 0 where
  pre : GuardTiming
  post : GuardTiming

abbrev timing_text : GuardTiming → String
timing_text pre = "pre"
timing_text post = "post"

-- normalize_tool_category of tool_types.py
unfoldable pub normalize_tool_category : String → Outcome String
normalize_tool_category s = do
  raise_if (is_blank s) (value_error "Tool category values must not be empty")
  ok s

normalize_categories : List String → Outcome (List String)
unfolding normalize_tool_category
normalize_categories [] = ok []
normalize_categories (x ∷ xs) = do
  y ← normalize_tool_category x
  ys ← normalize_categories xs
  ok (y ∷ ys)

-- tool_category_set of tool_types.py, for an iterable of texts
unfoldable pub tool_category_set : List String → Outcome (List String)
unfolding normalize_categories
tool_category_set values = do
  categories ← normalize_categories values
  raise_if (is_empty categories)
      (value_error "Tool category set must contain at least one category")
  ok categories

pub record GuardPolicy : Type 0 where
  pub required_pre : List String
  pub required_post : List String

unfoldable pub default_policy : GuardPolicy
default_policy = record { required_pre = "admin" ∷ "mutating" ∷ "mcp" ∷ []; required_post = [] }

unfoldable pub allow_all : GuardPolicy
allow_all = record { required_pre = []; required_post = [] }

unfoldable pub require_pre : List String → Outcome GuardPolicy
require_pre categories = do
  required ← tool_category_set categories
  ok (record { required_pre = required; required_post = [] })

-- A guard function is known by its identity.
pub record GuardDef : Type 0 where
  pub name : String
  pub fulfills : List String
  pub fn : ℕ

pub record GuardResult : Type 0 where
  pub passed : Bool
  pub reason : Option String
  pub llm_payload : Option Dict

unfulfilled : String → String → List GuardDef → Outcome (Unit {0})
unfulfilled kind tool_type [] = ok tt
unfulfilled kind tool_type (g ∷ gs) =
    let rest = unfulfilled kind tool_type gs in
    if contains g.fulfills tool_type
    then rest
    else raise (value_error (join kind (join g.name (join " does not fulfill " tool_type))))

unfoldable pub validate_tool_guards :
    GuardPolicy → String → List GuardDef → List GuardDef → Outcome (Unit {0})
unfolding unfulfilled
validate_tool_guards policy tool_type pre_guards post_guards = do
  raise_if (contains policy.required_pre tool_type && is_empty pre_guards)
      (value_error (join "Tool type " (join tool_type " requires at least one pre guard")))
  raise_if (contains policy.required_post tool_type && is_empty post_guards)
      (value_error (join "Tool type " (join tool_type " requires at least one post guard")))
  unfulfilled "Pre guard " tool_type pre_guards
  unfulfilled "Post guard " tool_type post_guards

or_default : Option String → String → String
or_default none s = s
or_default (some t) s = if is_blank t then s else t

-- An empty payload counts as none.
unfoldable pub guard_failure_payload : GuardDef → GuardTiming → GuardResult → Dict
unfolding or_default
guard_failure_payload g timing r =
    let standard = Dict.field "error" (Value.str "Guard failed") (
      Dict.field "guard" (Value.str g.name) (
        Dict.field "timing" (Value.str (timing_text timing))
          (Dict.field "reason" (Value.str (or_default r.reason "Guard did not pass")) Dict.end))) in
    elim r.llm_payload [
      | none ↦ standard
      | some d ↦ elim d [ Dict.end ↦ standard | Dict.field k v e ↦ Dict.field k v e ]
    ]

-- What ran, in order: guards with their verdicts, and tool functions.
pub data Event : Type 0 where
  guard_ran : GuardTiming → GuardDef → Bool → Event
  tool_ran : String → Event

abbrev pub History : Type 0
History = List Event

-- ToolResult of tools.py
pub record ToolResult : Type 0 where
  pub payload : Dict
  pub error : Bool

-- What a guard sees: the tool, its type, its arguments and its result if there is one.
pub record GuardContext : Type 0 where
  pub tool_name : String
  pub tool_type : String
  pub tool_args : Dict
  pub tool_result : Option ToolResult

-- Runs of user code from one history to the next.
abbrev pub Run {ℓ} : Type ℓ → Type ℓ
Run A = History → Outcome A × History

-- One turn of the loop: an exception ends it, and so does a guard that does not pass.
unfoldable pub guard_step :
    GuardDef → GuardTiming → Outcome GuardResult → Run (Option Dict) → Run (Option Dict)
guard_step g timing (raise e) next h = (raise e, h)
guard_step g timing (ok r) next h =
    if r.passed
    then next (h ++ guard_ran timing g true ∷ [])
    else (ok (some (guard_failure_payload g timing r)), h ++ guard_ran timing g false ∷ [])

module _ (answer : GuardTiming → GuardDef → GuardContext → History → Outcome GuardResult) where
  unfoldable pub execute_guards : List GuardDef → GuardTiming → GuardContext → Run (Option Dict)
  execute_guards [] timing ctx h = (ok none, h)
  execute_guards (g ∷ gs) timing ctx h =
      guard_step g timing (answer timing g ctx h) (execute_guards gs timing ctx) h
