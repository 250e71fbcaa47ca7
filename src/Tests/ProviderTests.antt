-- ===== src/Tests/ProviderTests.antt =====
-- The properties of the translation for the Claude API.
use temporal_agent_harness_e.Prelude.{
  ◌≡◌, ◌⊎◌, ◌&&◌, refl, String, true, false, none, some, List, [], ◌∷◌, All,
}
use temporal_agent_harness_e.Prelude.Text.{is_blank, strip}
use temporal_agent_harness_e.Prelude.Outcome.{Outcome, ok, raise, value_error}
use temporal_agent_harness_e.Prelude.Int.{ℤ, pos, ◌+ℤ◌, ◌≤ℤ◌}
use temporal_agent_harness_e.Json.{Value, Items, Dict, get, to_items, field_is, get_str}
use temporal_agent_harness_e.Messages.{
  assistant, blocks, Message, text_block, user, context_compaction_marker_block,
}
use temporal_agent_harness_e.Providers.{message_text}
use temporal_agent_harness_e.Providers.Claude.{
  claude_message, claude_message_to_agent_message, agent_message_to_claude_message, agent_content,
  claude_role, claude_blocks_to_agent_blocks,
}
use temporal_agent_harness_e.Providers.Claude.Requests.{
  ClaudeThinkingMode, ClaudeThinkingConfig, ClaudeResponse, thinking_request_params,
}
use temporal_agent_harness_e.Providers.Claude.Refusals.{
  is_refusal, response_with_visible_refusal, response_with_visible_refusal-Shows,
}
use temporal_agent_harness_e.LlmGuards.{LlmGuardAction, LlmGuardResult, LlmGuardContext}
use temporal_agent_harness_e.Providers.Claude.Native.{IsNative, to-from_claude}
use temporal_agent_harness_e.Providers.Claude.Thinking.{thinking_request_params-Budget}
use temporal_agent_harness_e.Context.Budget.{Ratio}
use temporal_agent_harness_e.Providers.Interface.{IsFaithful}
use temporal_agent_harness_e.Providers.Claude.Adapter.{claude, claude-IsFaithful}
use temporal_agent_harness_e.Tests.{chat}

abbrev any_text : Value → String
any_text v = "value"

-- a compacted conversation, with the marker in front
abbrev marked : List Message
marked = record { role = user; content = blocks (context_compaction_marker_block 3 ∷ []) } ∷ chat

-- a guard that only looks on
abbrev audit : LlmGuardContext → Outcome LlmGuardResult × LlmGuardContext
audit ctx = (
  ok (record {
    action = LlmGuardAction.continue;
    request = none;
    response = none;
    message = none;
    reason = none;
    state = none;
  }),
  ctx,
)

abbrev thinking_block : Dict
thinking_block =
    Dict.field "type" (Value.str "thinking") (Dict.field "signature" (Value.str "s") Dict.end)

answer_native : All IsNative (thinking_block ∷ text_block "done" ∷ [])
unfolding field_is get_str get
answer_native = (IsNative.other refl, (IsNative.plain_text "done", tt))

to-from_claude_example :
    let answer =
      claude_message assistant (Value.arr (to_items (thinking_block ∷ text_block "done" ∷ []))) in
    (m : Message) × (claude_message_to_agent_message any_text answer ≡ ok m)
    × (agent_message_to_claude_message any_text m ≡ ok answer)
to-from_claude_example =
    to-from_claude any_text assistant (thinking_block ∷ text_block "done" ∷ []) answer_native

abbrev thinker : ClaudeThinkingConfig
thinker = record {
  is_enabled = true;
  mode = ClaudeThinkingMode.enabled;
  budget_tokens = pos 4096;
  effort = none;
  display = none;
}

thinking_request_params-Budget_example :
    ((pos 2048 ≤ℤ pos 1024)
      × (thinking_request_params (some thinker) (pos 2048)
          ≡ raise (
              value_error
                "max_tokens must be greater than 1024 when extended thinking is enabled")))
    ⊎ ((d : Dict) × (b : ℤ) × (thinking_request_params (some thinker) (pos 2048)
          ≡ ok (some d, none))
        × (get "budget_tokens" d ≡ some (Value.int b))
        × (pos 1024 ≤ℤ b)
        × (b +ℤ pos 1 ≤ℤ pos 2048)
        × ((b ≡ pos 4096) ⊎ (pos 4096 +ℤ pos 1 ≤ℤ pos 1024) ⊎ (pos 2048 ≤ℤ pos 4096)))
thinking_request_params-Budget_example = thinking_request_params-Budget thinker (pos 2048) refl refl

abbrev refused : ClaudeResponse
refused = record {
  id = Value.str "msg";
  model = Value.str "claude";
  message = claude_message assistant (Value.arr Items.nil);
  stop_reason = Value.str "refusal";
  stop_sequence = Value.null;
  usage = Dict.end;
  guard_action = Value.null;
  guard_reason = Value.null;
  stop_details = none;
}

refused_read :
    claude_message_to_agent_message any_text refused.message
    ≡ ok (record { role = assistant; content = blocks [] })
unfolding claude_message_to_agent_message claude_role agent_content claude_message
    claude_blocks_to_agent_blocks get
refused_read = refl

response_with_visible_refusal-Shows_example :
    (v : ClaudeResponse) × (n : Message) × (response_with_visible_refusal any_text refused ≡ ok v)
    × (claude_message_to_agent_message any_text v.message ≡ ok n)
    × (n.role ≡ assistant)
    × (record v { message = refused.message } ≡ refused)
    × ((is_refusal v && is_blank (strip (message_text n))) ≡ false)
    × ((v ≡ refused)
        ⊎ ((is_refusal refused ≡ true)
            × (is_blank (strip (message_text (record { role = assistant; content = blocks [] })))
                ≡ true)))
response_with_visible_refusal-Shows_example =
    response_with_visible_refusal-Shows any_text refused refused_read

abbrev quarter : Ratio
quarter = record { numerator = 4; denominator = 1 }

claude-IsFaithful_example : IsFaithful (claude any_text none quarter)
claude-IsFaithful_example = claude-IsFaithful any_text none quarter
