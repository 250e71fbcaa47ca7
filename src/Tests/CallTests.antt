-- ===== src/Tests/CallTests.antt =====
-- The properties of activity calls, of the retry budget and of the guards of a model call.
use temporal_agent_harness_e.Agent.Calls.{
  ToolEnd, IsRequest, execute_requested_tools, requests, execute_requested_tools_lem,
}
use temporal_agent_harness_e.Context.{block_ids}
use temporal_agent_harness_e.Tests.{call_block}
use temporal_agent_harness_e.Json.{field_is, get_str, get}
use temporal_agent_harness_e.Prelude.{
  ◌≡◌, ◌↔◌, ◌⊎◌, ◌++◌, refl, String, ℕ, Bool, true, false, Option, none, some, List, [], ◌∷◌,
  length, str_eq, if◌then◌else◌,
}
use temporal_agent_harness_e.Prelude.Outcome.{Outcome, ok}
use temporal_agent_harness_e.Prelude.Int.{pos, ◌≤ℤ◌, ◌-ℤ◌}
use temporal_agent_harness_e.Json.{Value, Dict}
use temporal_agent_harness_e.Context.Budget.{input_token_budget, checked_budget}
use temporal_agent_harness_e.Activity.{record_calls, AllStepped, record_calls_iff}
use temporal_agent_harness_e.Agent.{
  AgentSettings, context_token_budget, budget_for, retry_budget_shrinks,
}
use temporal_agent_harness_e.LlmGuards.{
  LlmGuardTiming, LlmGuardAction, LlmGuardResult, LlmGuardContext, LlmGuardExecution, GuardMessage,
  continues, execute, dict_or, next_response, update,
}
use temporal_agent_harness_e.LlmGuards.Halts.{
  Refuses, Halts, EndsWith, asked, execute-Halts, execute-Refuses,
}

abbrev steps : List (Option String)
steps = some "fetch" ∷ some "store" ∷ []

record_calls_iff_example :
    ((r : ℕ × Bool) × (record_calls "tool" steps 0 false ≡ ok r) × (r.0 ≡ length steps))
    ↔ (AllStepped steps ⊎ (steps ≡ none ∷ []))
record_calls_iff_example = record_calls_iff "tool" steps

abbrev settings : AgentSettings
settings = record {
  max_context_tokens = pos 200000;
  max_tokens = pos 32000;
  context_safety_margin_tokens = pos 4000;
  context_chars_per_token = record { numerator = 4; denominator = 1 };
}

settings_budget :
    context_token_budget settings (pos 9000) false ≡ ok (budget_for settings (pos 9000) false)
unfolding context_token_budget checked_budget budget_for input_token_budget ◌-ℤ◌
settings_budget = refl

retry_budget_shrinks_example :
    (context_token_budget settings (pos 9000) true ≡ ok (budget_for settings (pos 9000) true))
    × (input_token_budget (budget_for settings (pos 9000) true)
        ≤ℤ input_token_budget (budget_for settings (pos 9000) false))
retry_budget_shrinks_example = retry_budget_shrinks settings (pos 9000) settings_budget

abbrev shown : Value → String
shown v = "value"

abbrev refuse : LlmGuardContext → Outcome LlmGuardResult × LlmGuardContext
refuse ctx = (
  ok (record {
    action = LlmGuardAction.block;
    request = none;
    response = none;
    message = some (GuardMessage.text "Not this.");
    reason = some "policy";
    state = none;
  }),
  ctx,
)

abbrev call : LlmGuardExecution
call = record {
  request = Dict.field "model" (Value.str "claude") Dict.end;
  response = none;
  state = Dict.end;
  action = LlmGuardAction.continue;
  reason = none;
}

-- lets every call through but that of the guard "second"
abbrev second_refuses : LlmGuardContext → Outcome LlmGuardResult × LlmGuardContext
second_refuses ctx = if str_eq ctx.guard_name "second" then refuse ctx else (
  ok (record {
    action = LlmGuardAction.continue;
    request = none;
    response = none;
    message = none;
    reason = none;
    state = none;
  }),
  ctx,
)

first_passes : execute shown second_refuses ("first" ∷ []) LlmGuardTiming.pre call ≡ ok call
unfolding execute continues dict_or next_response update
first_passes = refl

second-Halts : Halts (second_refuses (asked "second" LlmGuardTiming.pre call)).0
unfolding continues
second-Halts = refl

call_passes : continues call.action ≡ true
unfolding continues
call_passes = refl

execute-Halts_example :
    (out : Outcome LlmGuardExecution) × EndsWith
      (second_refuses (asked "second" LlmGuardTiming.pre call)).0
      out
    × ((more : List String)
        → execute shown second_refuses (("first" ∷ []) ++ "second" ∷ more) LlmGuardTiming.pre call
          ≡ out)
execute-Halts_example =
    execute-Halts shown second_refuses ("first" ∷ []) LlmGuardTiming.pre call call "second"
      first_passes call_passes second-Halts

abbrev result_of : Outcome LlmGuardExecution → LlmGuardExecution
result_of (ok e) = e
result_of _ = call

abbrev halted : LlmGuardExecution
halted = result_of (execute shown refuse ("first" ∷ []) LlmGuardTiming.pre call)

halted_result : execute shown refuse ("first" ∷ []) LlmGuardTiming.pre call ≡ ok halted
unfolding execute continues
halted_result = refl

halted_action : continues halted.action ≡ false
unfolding execute continues
halted_action = refl

execute-Refuses_example : Refuses halted
execute-Refuses_example =
    execute-Refuses shown refuse ("first" ∷ []) LlmGuardTiming.pre call halted halted_result
      halted_action

call_block-IsRequest : IsRequest call_block
unfolding field_is get_str get
call_block-IsRequest = record {
  typed = refl;
  name = "look";
  named = refl;
  input = Value.obj (Dict.field "path" (Value.str "/") Dict.end);
  has_input = refl;
  id = "a";
  identified = refl;
}

abbrev interrupted_calls : List (Dict × ToolEnd)
interrupted_calls = (call_block, ToolEnd.cancelled) ∷ []

execute_requested_tools_lem_example :
    (rs : List Dict) × (execute_requested_tools true interrupted_calls ≡ ok rs)
    × (block_ids "tool_result" "tool_use_id" rs
        ≡ block_ids "tool_use" "id" (requests interrupted_calls))
execute_requested_tools_lem_example =
    execute_requested_tools_lem true interrupted_calls ((call_block-IsRequest, refl), tt)
