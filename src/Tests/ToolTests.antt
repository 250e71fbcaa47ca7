-- ===== src/Tests/ToolTests.antt =====
-- The tool properties on a tool with a pre guard.
use temporal_agent_harness_e.Prelude.{
  ◌≡◌, ◌≢◌, ◌↔◌, refl, true, false, ◌&&◌, arith, String, none, some, [], ◌∷◌, is_empty,
}
use temporal_agent_harness_e.Prelude.Text.{contains}
use temporal_agent_harness_e.Prelude.Outcome.{Outcome, ok}
use temporal_agent_harness_e.Json.{Value, Dict}
use temporal_agent_harness_e.Guards.{
  GuardDef, GuardResult, GuardTiming, GuardContext, ToolResult, History, default_policy,
  validate_tool_guards, execute_guards, guard_step,
}
use temporal_agent_harness_e.Guards.Policy.{AllFulfill, validate_tool_guards_iff}
use temporal_agent_harness_e.Guards.Runs.{tool_runs}
use temporal_agent_harness_e.Tools.{ToolDef, ToolSet, ArgsMode, find, get_tool}
use temporal_agent_harness_e.Tools.Execute.{
  after_tool, after_post, execute_tool, Guarded, execute_tool-Guarded,
}
use temporal_agent_harness_e.Tools.Setup.{Functions, GuardReference}
use temporal_agent_harness_e.Tools.Setup.Keeps.{Registration, register}
use temporal_agent_harness_e.Tools.Setup.Names.{find-register}

abbrev approval : GuardDef
approval = record { name = "approval"; fulfills = "mutating" ∷ []; fn = 7 }

abbrev write_file : ToolDef
write_file = record {
  name = "write_file";
  description = "Writes a file.";
  input_schema = Dict.end;
  tool_type = "mutating";
  fn = 3;
  pre_guards = approval ∷ [];
  post_guards = [];
  args_mode = ArgsMode.signature;
}

abbrev tool_set : ToolSet
tool_set = record {
  tools = ("write_file", write_file) ∷ [];
  guards = ("approval", approval) ∷ [];
  functions = (7, approval) ∷ [];
  policy = record { required_pre = "mutating" ∷ []; required_post = [] };
}

abbrev approve : GuardTiming → GuardDef → GuardContext → History → Outcome GuardResult
approve timing g ctx h = ok (record { passed = true; reason = none; llm_payload = none })

abbrev succeed : ToolDef → Dict → History → Outcome ToolResult
succeed t args h =
    ok (record { payload = Dict.field "ok" (Value.bool true) Dict.end; error = false })

validate_tool_guards_iff_example :
    (validate_tool_guards default_policy "mutating" (approval ∷ []) [] ≡ ok tt) ↔ (
      (contains default_policy.required_pre "mutating" && is_empty (approval ∷ []) ≡ false)
      × (contains default_policy.required_post "mutating" && is_empty {A = GuardDef} [] ≡ false)
      × AllFulfill "mutating" (approval ∷ [])
      × AllFulfill "mutating" [])
validate_tool_guards_iff_example =
    validate_tool_guards_iff default_policy "mutating" (approval ∷ []) []

ran_once : tool_runs (execute_tool approve succeed tool_set "write_file" Dict.end []).1 ≡ 1
unfolding execute_tool get_tool find validate_tool_guards contains execute_guards guard_step
    after_tool after_post
ran_once = refl

ran : tool_runs (execute_tool approve succeed tool_set "write_file" Dict.end []).1 ≢ tool_runs []
ran h = omega (arith, h, ran_once)

execute_tool-Guarded_example :
    (t : ToolDef) × Guarded approve succeed tool_set "write_file" Dict.end [] t
execute_tool-Guarded_example =
    execute_tool-Guarded approve succeed tool_set "write_file" Dict.end [] ran

abbrev functions : Functions
functions = record {
  guard_metadata = λ n. some (record { name = "audit"; fulfills = "mutating" ∷ [] });
  tool_metadata = λ n. some (record {
    name = "delete_file";
    description = "Deletes a file.";
    tool_type = "mutating";
    pre_guards = GuardReference.by_function 9 ∷ GuardReference.by_name "approval" ∷ [];
    post_guards = [];
  });
  input_schema_for_tool = λ n. ok Dict.end;
}

abbrev registration : Registration
registration = Registration.provider (4 ∷ []) none []

find-register_example :
    ((n : String) (t : ToolDef)
      → find n tool_set.tools ≡ some t
      → find n (register functions registration tool_set).1.tools ≡ some t)
    × ((n : String) (g : GuardDef)
        → find n tool_set.guards ≡ some g
        → find n (register functions registration tool_set).1.guards ≡ some g)
find-register_example = find-register functions registration tool_set
