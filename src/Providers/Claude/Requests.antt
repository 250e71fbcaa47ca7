-- ===== src/Providers/Claude/Requests.antt =====
-- The requests and responses of ClaudeProvider (agent_harness/providers/claude.py): how they are
-- built, and the dicts in which activities and guards see them. A field that the source only casts
-- holds any JSON value.
use temporal_agent_harness_e.Prelude.{
  String, ◌≡◌, refl, Bool, Option, none, some, List, if◌then◌else◌,
}
use temporal_agent_harness_e.Prelude.Outcome.{Outcome, ok, raise, value_error, ◌>>=◌}
use temporal_agent_harness_e.Prelude.Int.{ℤ, pos, ◌-ℤ◌, leb_ℤ, max_ℤ, min_ℤ}
use temporal_agent_harness_e.Json.{Value, Items, Dict, get, put, to_items}
use temporal_agent_harness_e.Messages.{Message}
use temporal_agent_harness_e.Providers.{
  get_or, item, copy_mapping, copy_optional_mapping, mapping_list, mapping_list-to_items,
}
use temporal_agent_harness_e.Providers.Claude.{
  agent_messages_to_claude_messages, claude_messages_to_agent_messages,
}

pub data ClaudeThinkingMode : Type 0 where
  enabled : ClaudeThinkingMode
  adaptive : ClaudeThinkingMode

pub record ClaudeThinkingConfig : Type 0 where
  pub is_enabled : Bool
  pub mode : ClaudeThinkingMode
  pub budget_tokens : ℤ
  pub effort : Option String
  pub display : Option String

pub record ClaudeRequest : Type 0 where
  pub system_prompt : Value
  pub model : Value
  pub max_tokens : Value
  pub context_token_limit : Value
  pub tools : List Dict
  pub chat_history : List Dict
  pub thinking : Option Dict
  pub output_config : Option Dict
  pub stream_id : Value
  pub stream_sequence : Value
  pub stream_attempt : Value

pub record ClaudeResponse : Type 0 where
  pub id : Value
  pub model : Value
  pub message : Dict
  pub stop_reason : Value
  pub stop_sequence : Value
  pub usage : Dict
  pub guard_action : Value
  pub guard_reason : Value
  pub stop_details : Option Dict

unfoldable pub opt_dict : Option Dict → Value
opt_dict none = Value.null
opt_dict (some d) = Value.obj d

unfoldable pub opt_text : Option String → Value
opt_text none = Value.null
opt_text (some s) = Value.str s

unfoldable pub opt_int : Option ℤ → Value
opt_int none = Value.null
opt_int (some n) = Value.int n

unfoldable pub with_display : Option String → Dict → Dict
with_display none param = param
with_display (some display) param = put "display" (Value.str display) param

effort_config : Option String → Option Dict
effort_config none = none
effort_config (some effort) = some (Dict.field "effort" (Value.str effort) Dict.end)

unfoldable pub thinking_budget : ℤ → ℤ → ℤ
thinking_budget budget_tokens max_tokens =
    min_ℤ (max_ℤ (pos 1024) budget_tokens) (max_tokens -ℤ pos 1)

unfoldable pub enabled_params : ClaudeThinkingConfig → ℤ → Outcome (Option Dict × Option Dict)
unfolding with_display effort_config
enabled_params t max_tokens = elim (t.mode) [
  | adaptive ↦ ok (
    some (with_display t.display (Dict.field "type" (Value.str "adaptive") Dict.end)),
    effort_config t.effort,
  )
  | enabled ↦
      if leb_ℤ max_tokens (pos 1024)
      then raise
          (value_error "max_tokens must be greater than 1024 when extended thinking is enabled")
      else ok (
        some (
            with_display t.display (
              Dict.field "type" (Value.str "enabled") (
                Dict.field "budget_tokens" (Value.int (thinking_budget t.budget_tokens max_tokens))
                  Dict.end))),
        none,
      )
]

-- the parameters `thinking` and `output_config`
unfoldable pub thinking_request_params :
    Option ClaudeThinkingConfig → ℤ → Outcome (Option Dict × Option Dict)
unfolding enabled_params
thinking_request_params none max_tokens = ok (none, none)
thinking_request_params (some t) max_tokens =
    if t.is_enabled then enabled_params t max_tokens else ok (none, none)

unfoldable pub claude_request_to_dict : ClaudeRequest → Dict
claude_request_to_dict r = Dict.field "system_prompt" r.system_prompt (
    Dict.field "model" r.model (
      Dict.field "max_tokens" r.max_tokens (
        Dict.field "context_token_limit" r.context_token_limit (
          Dict.field "thinking" (opt_dict r.thinking) (
            Dict.field "tools" (Value.arr (to_items r.tools)) (
              Dict.field "chat_history" (Value.arr (to_items r.chat_history)) (
                Dict.field "stream_id" r.stream_id (
                  Dict.field "stream_sequence" r.stream_sequence (
                    Dict.field "stream_attempt" r.stream_attempt
                      (Dict.field "output_config" (opt_dict r.output_config) Dict.end))))))))))

unfoldable pub claude_request_from_dict : Dict → Outcome ClaudeRequest
claude_request_from_dict d = do
  system_prompt ← item "system_prompt" d
  model ← item "model" d
  max_tokens ← item "max_tokens" d
  ok (record {
    system_prompt = system_prompt;
    model = model;
    max_tokens = max_tokens;
    context_token_limit = get_or "context_token_limit" Value.null d;
    tools = mapping_list (get_or "tools" (Value.arr Items.nil) d);
    chat_history = mapping_list (get_or "chat_history" (Value.arr Items.nil) d);
    thinking = copy_optional_mapping (get_or "thinking" Value.null d);
    output_config = copy_optional_mapping (get_or "output_config" Value.null d);
    stream_id = get_or "stream_id" Value.null d;
    stream_sequence = get_or "stream_sequence" Value.null d;
    stream_attempt = get_or "stream_attempt" Value.null d;
  })

unfoldable pub claude_response_to_dict : ClaudeResponse → Dict
claude_response_to_dict r = Dict.field "id" r.id (
    Dict.field "model" r.model (
      Dict.field "message" (Value.obj r.message) (
        Dict.field "stop_reason" r.stop_reason (
          Dict.field "stop_sequence" r.stop_sequence (
            Dict.field "usage" (Value.obj r.usage) (
              Dict.field "guard_action" r.guard_action (
                Dict.field "guard_reason" r.guard_reason
                  (Dict.field "stop_details" (opt_dict r.stop_details) Dict.end))))))))

unfoldable pub claude_response_from_dict : Dict → Outcome ClaudeResponse
claude_response_from_dict d = do
  id ← item "id" d
  model ← item "model" d
  message ← item "message" d
  ok (record {
    id = id;
    model = model;
    message = copy_mapping message;
    stop_reason = get_or "stop_reason" Value.null d;
    stop_sequence = get_or "stop_sequence" Value.null d;
    usage = copy_mapping (get_or "usage" (Value.obj Dict.end) d);
    guard_action = get_or "guard_action" Value.null d;
    guard_reason = get_or "guard_reason" Value.null d;
    stop_details = copy_optional_mapping (get_or "stop_details" Value.null d);
  })

module _ (str_of : Value → String) where
  unfoldable pub create_request :
      Option ClaudeThinkingConfig
      → String
      → String
      → ℤ
      → Option ℤ
      → List Dict
      → List Message
      → Option String
      → Option ℤ
      → Option ℤ
      → Outcome ClaudeRequest
  create_request thinking prompt model max_tokens limit tools history stream_id sequence attempt =
      do
        chat_history ← agent_messages_to_claude_messages str_of history
        params ← thinking_request_params thinking max_tokens
        ok (record {
          system_prompt = Value.str prompt;
          model = Value.str model;
          max_tokens = Value.int max_tokens;
          context_token_limit = opt_int limit;
          tools = tools;
          chat_history = chat_history;
          thinking = params.0;
          output_config = params.1;
          stream_id = opt_text stream_id;
          stream_sequence = opt_int sequence;
          stream_attempt = opt_int attempt;
        })

  unfoldable pub request_chat_history : ClaudeRequest → Outcome (List Message)
  request_chat_history r = claude_messages_to_agent_messages str_of r.chat_history

  unfoldable pub replace_request_chat_history : ClaudeRequest → List Message → Outcome ClaudeRequest
  replace_request_chat_history r history = do
    chat_history ← agent_messages_to_claude_messages str_of history
    ok (record r { chat_history = chat_history })

  unfoldable pub replace_request_stream_attempt : ClaudeRequest → Option ℤ → ClaudeRequest
  replace_request_stream_attempt r attempt = record r { stream_attempt = opt_int attempt }

copy-opt_dict : (o : Option Dict) → copy_optional_mapping (opt_dict o) ≡ o
unfolding copy_optional_mapping opt_dict copy_mapping
copy-opt_dict none = refl
copy-opt_dict (some d) = refl

pub request_from_to :
    (r : ClaudeRequest) → claude_request_from_dict (claude_request_to_dict r) ≡ ok r
unfolding claude_request_from_dict claude_request_to_dict item get_or get
request_from_to r =
    rw
      (
        mapping_list-to_items r.tools,
        mapping_list-to_items r.chat_history,
        copy-opt_dict r.thinking,
        copy-opt_dict r.output_config,
      )
      refl

pub response_from_to :
    (r : ClaudeResponse) → claude_response_from_dict (claude_response_to_dict r) ≡ ok r
unfolding claude_response_from_dict claude_response_to_dict item get_or get copy_mapping
response_from_to r = rw (copy-opt_dict r.stop_details)
