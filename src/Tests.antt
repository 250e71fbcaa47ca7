-- ===== src/Tests.antt =====
-- Example inputs: a conversation with a tool exchange, a torn one, and a small tool set.
pub mod InvocationTests
pub mod StreamTests
pub mod RunTests
pub mod ProviderTests
pub mod ContextTests
pub mod ToolTests
pub mod ChatTests
pub mod RegistryTests
pub mod CallTests
use temporal_agent_harness_e.Prelude.{true, false, List, [], ◌∷◌, Option}
use temporal_agent_harness_e.Prelude.Int.{pos}
use temporal_agent_harness_e.Json.{Value, Dict}
use temporal_agent_harness_e.Messages.{
  Message, message, user, assistant, text, blocks, tool_result_block,
}
use temporal_agent_harness_e.Context.Budget.{Ratio, ContextTokenBudget}
use temporal_agent_harness_e.Context.Manager.{Manager}

abbrev pub call_block : Dict
call_block = Dict.field "type" (Value.str "tool_use") (
    Dict.field "id" (Value.str "a") (
      Dict.field "name" (Value.str "look")
        (Dict.field "input" (Value.obj (Dict.field "path" (Value.str "/") Dict.end)) Dict.end)))

abbrev pub hello : Message
hello = message user (text "hello")

abbrev pub call : Message
call = message assistant (blocks (call_block ∷ []))

abbrev pub answer_a : Message
answer_a = message user (blocks (tool_result_block "a" "found" false ∷ []))

-- a whole exchange
abbrev pub chat : List Message
chat = hello ∷ call ∷ answer_a ∷ []

-- an answer without its call, then a call without its answer
abbrev pub torn : List Message
torn = answer_a ∷ hello ∷ call ∷ hello ∷ []

abbrev pub small_budget : ContextTokenBudget
small_budget = record {
  max_context_tokens = pos 60;
  reserved_output_tokens = pos 10;
  reserved_input_tokens = pos 0;
  safety_margin_tokens = pos 10;
  chars_per_token = record { numerator = 5; denominator = 2 };
}

abbrev pub manager : Manager
manager = record {
  max_recent_messages = 2;
  preserve_initial_user_message = true;
  clear_old_tool_results = true;
  max_tool_result_chars = Option.none;
  messages = chat;
}
