-- ===== src/Tools.antt =====
-- agent_harness/tools.py: the registry of tools, and the run of a tool between its guards. Functions
-- are known by their identity; what they are decorated with, the schema that pydantic makes for them,
-- and what they do are parameters.
pub mod Execute
pub mod Setup
use temporal_agent_harness_e.Prelude.{
  ℕ, zero, suc, ◌+◌, ◌-◌, ◌*◌, ◌/◌, ◌%◌, ◌≤◌, ◌<◌, min, max, String, ◌≡◌, refl, sym, ap, ◌∙◌, subst,
  ◌≢◌, ◌↔◌, ◌⊎◌, inl, inr, Bool, true, false, not, ◌&&◌, ◌||◌, Option, none, some, List, [], ◌∷◌,
  ◌++◌, map, append-nil, append_assoc, map-append, arith, str_eq, eq_iff, eq_refl, ltb, leb, ◌==◌,
  if◌then◌else◌, Bool-cases, Option-cases, length, get_elem?, set, drop, take, is_empty, all,
  cons_some, length-append, length-drop, length-set, All, All-append, All-drop, All-if,
  All-cons_some, length-map, nil_of_empty, ne-nil_of_not_empty, not_empty_of_ne-nil, ltb→lt, lt→ltb,
  leb→le, le→leb, leb_false→lt, &&_iff,
}
use temporal_agent_harness_e.Prelude.Text.{
  text_length, text_take, is_blank, contains, decimal, lstrip, strip, join_lines,
}
use temporal_agent_harness_e.Prelude.Outcome.{
  Outcome, ok, raise, value_error, type_error, key_error, ◌>>=◌, ◌>>◌, raise_if, IsOk, Yields,
  Yields-bind, Yields-ok, raise_if-ok, seq-ok, bind-ok,
}
use temporal_agent_harness_e.Prelude.Loops.{iterate, iterate_inv, iterate_ends}
use temporal_agent_harness_e.Prelude.Int.{
  ℤ, pos, negsuc, ◌+ℤ◌, ◌-ℤ◌, ◌*ℤ◌, ◌≤ℤ◌, ltb_ℤ, leb_ℤ, max_ℤ, min_ℤ, int_eq, pos_part, neg_part,
  int_laws,
}
use temporal_agent_harness_e.Json.{
  Value, Items, Dict, get, put, get_str, as_str, field_is, to_items, value_eq, get-put, get_str-put,
  get_str-put_ne, field_is_ne, field_is-put_ne,
}
use temporal_agent_harness_e.Json.Dumps.{dumps, dumps_compact}
use temporal_agent_harness_e.Guards.{
  GuardTiming, pre, post, normalize_tool_category, tool_category_set, GuardPolicy, default_policy,
  GuardDef, GuardResult, validate_tool_guards, guard_failure_payload, Event, guard_ran, tool_ran,
  History, GuardContext, Run, execute_guards, ToolResult,
}

pub data ArgsMode : Type 0 where
  signature : ArgsMode
  raw : ArgsMode

pub record ToolDef : Type 0 where
  pub name : String
  pub description : String
  pub input_schema : Dict
  pub tool_type : String
  pub fn : ℕ
  pub pre_guards : List GuardDef
  pub post_guards : List GuardDef
  pub args_mode : ArgsMode

-- Python's dicts, in the order of insertion.
module _ {ℓ} {V : Type ℓ} where
  unfoldable pub find : String → List (String × V) → Option V
  find k [] = none
  find k ((j, v) ∷ d) = if str_eq j k then some v else find k d

  unfoldable pub assign : String → V → List (String × V) → List (String × V)
  assign k v [] = (k, v) ∷ []
  assign k v ((j, w) ∷ d) = if str_eq j k then (j, v) ∷ d else (j, w) ∷ assign k v d

pub record ToolSet : Type 0 where
  pub tools : List (String × ToolDef)
  pub guards : List (String × GuardDef)
  pub functions : List (ℕ × GuardDef)
  pub policy : GuardPolicy

unfoldable pub tool_names : ToolSet → List String
tool_names ts = map (λ e. e.0) ts.tools

unfoldable pub get_tool : ToolSet → String → Outcome ToolDef
get_tool ts name = elim (find name ts.tools) [ none ↦ raise (key_error name) | some t ↦ ok t ]

-- The dict that a provider is sent for a tool.
unfoldable pub tool_schema : ToolDef → Dict
tool_schema t = Dict.field "name" (Value.str t.name) (
    Dict.field "description" (Value.str t.description)
      (Dict.field "input_schema" (Value.obj t.input_schema) Dict.end))

schemas_for : ToolSet → List String → Outcome (List Dict)
unfolding get_tool tool_schema
schemas_for ts [] = ok []
schemas_for ts (n ∷ ns) = do t ← get_tool ts n; rest ← schemas_for ts ns; ok (tool_schema t ∷ rest)

unfoldable pub tool_schemas : ToolSet → Option (List String) → Outcome (List Dict)
unfolding schemas_for
tool_schemas ts none = ok (map (λ e. tool_schema e.1) ts.tools)
tool_schemas ts (some names) = schemas_for ts names
