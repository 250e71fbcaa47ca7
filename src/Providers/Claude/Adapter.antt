-- ===== src/Providers/Claude/Adapter.antt =====
-- ClaudeProvider of agent_harness/providers/claude.py as a provider of the agent's loop.
use temporal_agent_harness_e.Prelude.{String, ◌==◌, Option, List}
use temporal_agent_harness_e.Prelude.Outcome.{Outcome, ok, value_error, raise_if, ◌>>◌}
use temporal_agent_harness_e.Prelude.Text.{text_length}
use temporal_agent_harness_e.Prelude.Int.{ℤ, pos}
use temporal_agent_harness_e.Json.{Value, Dict, to_items}
use temporal_agent_harness_e.Json.Dumps.{dumps_compact}
use temporal_agent_harness_e.Context.Budget.{Ratio, ceil_div}
use temporal_agent_harness_e.Providers.Interface.{AgentProvider, IsFaithful}
use temporal_agent_harness_e.Providers.Claude.{claude_message_to_agent_message}
use temporal_agent_harness_e.Providers.Claude.Requests.{
  ClaudeThinkingConfig, ClaudeRequest, ClaudeResponse, create_request, request_chat_history,
  replace_request_chat_history, replace_request_stream_attempt, claude_request_to_dict,
  claude_request_from_dict, claude_response_to_dict, claude_response_from_dict, request_from_to,
  response_from_to,
}
use temporal_agent_harness_e.Providers.Claude.Refusals.{
  response_from_guard_execution, response_with_visible_refusal,
}

unfoldable pub estimate_request_tokens : Ratio → String → List Dict → Outcome ℤ
estimate_request_tokens chars_per_token system_prompt tools =
    raise_if (chars_per_token.numerator == 0) (value_error "chars_per_token must be greater than 0")
    >> ok (
        pos (
          ceil_div
            (text_length (
              dumps_compact (
                Value.obj (
                  Dict.field "system" (Value.str system_prompt)
                    (Dict.field "tools" (Value.arr (to_items tools)) Dict.end)))))
            chars_per_token))

module _ (str_of : Value → String) (thinking : Option ClaudeThinkingConfig)
    (chars_per_token : Ratio) where
  unfoldable pub claude : AgentProvider ClaudeRequest ClaudeResponse
  claude = record {
    estimate_request_tokens = estimate_request_tokens chars_per_token;
    create_request = create_request str_of thinking;
    request_chat_history = request_chat_history str_of;
    replace_request_chat_history = replace_request_chat_history str_of;
    replace_request_stream_attempt = replace_request_stream_attempt str_of;
    request_to_dict = claude_request_to_dict;
    request_from_dict = claude_request_from_dict;
    response_to_dict = claude_response_to_dict;
    response_from_dict = claude_response_from_dict;
    response_from_guard_execution = response_from_guard_execution;
    response_with_visible_refusal = response_with_visible_refusal str_of;
    response_message = λ r. claude_message_to_agent_message str_of r.message;
    stop_reason_for_max_turns = Value.str "max_tokens";
    request_model = λ q. q.model;
    response_model = λ r. r.model;
    stop_reason = λ r. r.stop_reason;
    guard_action = λ r. r.guard_action;
    guard_reason = λ r. r.guard_reason;
    stop_details = λ r. r.stop_details;
  }

  -- Every request and response of the Claude provider comes back unchanged from the dict that guards and
  -- activities see.
  pub claude-IsFaithful : IsFaithful claude
  unfolding claude
  claude-IsFaithful = record {
    request_from_to = request_from_to;
    response_from_to = response_from_to;
  }
