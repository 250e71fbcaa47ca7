-- ===== src/Tests/RunTests.antt =====
-- The properties of the agent's runs.
use temporal_agent_harness_e.Prelude.{
  inr, ℕ, zero, suc, arith, ◌≡◌, refl, String, true, false, none, some, [], ◌∷◌,
}
use temporal_agent_harness_e.Prelude.Outcome.{Outcome, ok, Yields}
use temporal_agent_harness_e.Prelude.Int.{pos}
use temporal_agent_harness_e.Json.{Value, Dict, to_items}
use temporal_agent_harness_e.Messages.{assistant, text_block}
use temporal_agent_harness_e.Agent.Calls.{ToolEnd}
use temporal_agent_harness_e.Agent.State.{AgentConfig, Agent, Signal}
use temporal_agent_harness_e.Agent.Call.{Round}
use temporal_agent_harness_e.Agent.Run.{run}
use temporal_agent_harness_e.Agent.Run.Calm.{interrupts, round_interrupts}
use temporal_agent_harness_e.Agent.Run.Ends.{interrupts_within, Finished, run-Finished}
use temporal_agent_harness_e.LlmGuards.{LlmGuardAction, LlmGuardResult, LlmGuardContext}
use temporal_agent_harness_e.Providers.{is_null}
use temporal_agent_harness_e.Providers.Interface.{AgentProvider}
use temporal_agent_harness_e.Providers.Claude.{claude_message}
use temporal_agent_harness_e.Providers.Claude.Requests.{ClaudeRequest, ClaudeResponse}
use temporal_agent_harness_e.Providers.Claude.Adapter.{claude}
use temporal_agent_harness_e.Tests.{manager, hello, call}
use temporal_agent_harness_e.Json.{field_is, get_str, get}
use temporal_agent_harness_e.Messages.{tool_use_blocks, blocks_of_type}
use temporal_agent_harness_e.Context.{
  IsPaired, shapes, shape, tool_use_ids, message_has_block_type, block_ids, any_of_type,
}
use temporal_agent_harness_e.Agent.Run.{take_answer}
use temporal_agent_harness_e.Agent.Run.Paired.{IsAnswer}
use temporal_agent_harness_e.Agent.Run.Answers.{take_answer-IsPaired}

abbrev any_text : Value → String
any_text v = "value"

abbrev provider : AgentProvider ClaudeRequest ClaudeResponse
provider = claude any_text none (record { numerator = 4; denominator = 1 })

abbrev config : AgentConfig
config = record {
  system_prompt = "be brief";
  model = "claude";
  max_tokens = pos 4096;
  max_context_tokens = pos 100000;
  settings = record {
    max_context_tokens = pos 100000;
    max_tokens = pos 4096;
    context_safety_margin_tokens = pos 4000;
    context_chars_per_token = record { numerator = 4; denominator = 1 };
  };
  stream_id = none;
  pre_guards = [];
  post_guards = [];
  continue_as_new_enabled = true;
}

abbrev agent : Agent
agent = record {
  context = manager;
  context_initialized = true;
  pending_immediate_steering = "be polite" ∷ [];
  pending_after_tool_steering = [];
  pending_interrupts = [];
  interrupt_requested = false;
  provider_call_sequence = 0;
  turn_user_prompt_index = none;
  terminated = false;
  termination_reason = Value.null;
  llm_guard_state = Dict.end;
}

abbrev allow : LlmGuardContext → Outcome LlmGuardResult × LlmGuardContext
allow ctx = (
  ok (record {
    action = LlmGuardAction.continue;
    request = none;
    response = none;
    message = none;
    reason = none;
    state = none;
  }),
  ctx,
)

abbrev answer : ClaudeResponse
answer = record {
  id = Value.str "msg";
  model = Value.str "claude";
  message = claude_message assistant (Value.arr (to_items (text_block "done" ∷ [])));
  stop_reason = Value.str "end_turn";
  stop_sequence = Value.null;
  usage = Dict.end;
  guard_action = Value.null;
  guard_reason = Value.null;
  stop_details = none;
}

-- every call is interrupted in its first attempt
abbrev interrupted_round : Round ClaudeRequest ClaudeResponse
interrupted_round = record {
  guard_answer = allow;
  pre_signals = [];
  attempt_signals = λ n. Signal.interrupt "stop" ∷ [];
  attempt_end = λ n q. ok answer;
  post_signals = [];
  tool_signals = [];
  tool_end = λ q. ToolEnd.cancelled;
  late_signals = [];
  continue_suggested = false;
}

abbrev quiet_round : Round ClaudeRequest ClaudeResponse
quiet_round = record interrupted_round { attempt_signals = λ n. [] }

-- one interrupted call, and quiet ones after it
abbrev rounds : ℕ → Round ClaudeRequest ClaudeResponse
rounds zero = interrupted_round
rounds (suc n) = quiet_round

few_interrupts : interrupts_within 5 rounds ≡ 2
unfolding interrupts_within round_interrupts interrupts
few_interrupts = refl

run-Finished_example :
    let end = run provider config any_text 5 rounds [] (some "hello") [] none 2 agent in
    Yields (λ o. Finished 0 2 o end.1) end.0
run-Finished_example =
    run-Finished provider config any_text 5 rounds [] (some "hello") [] none 2 agent
      (omega (arith, few_interrupts)) (omega arith) refl

-- a call that the interrupt of its round cancels
abbrev cancelled_round : Round ClaudeRequest ClaudeResponse
cancelled_round = record quiet_round { tool_signals = Signal.interrupt "stop" ∷ [] }

abbrev greeted : Agent
greeted = record agent { context = record manager { messages = hello ∷ [] } }

greeted-IsPaired : IsPaired (shapes greeted.context.messages)
unfolding shape tool_use_ids message_has_block_type block_ids any_of_type
greeted-IsPaired = IsPaired.plain refl refl IsPaired.nil

call-IsAnswer : IsAnswer call
unfolding message_has_block_type any_of_type tool_use_blocks blocks_of_type field_is get_str get
call-IsAnswer = record {
  normal = (refl, tt);
  no_results = refl;
  complete = (
    record {
      typed = refl;
      name = "look";
      named = refl;
      input = Value.obj (Dict.field "path" (Value.str "/") Dict.end);
      has_input = refl;
      id = "a";
      identified = refl;
    },
    tt,
  );
}

take_answer-IsPaired_example :
    let end = take_answer provider config any_text cancelled_round [] answer 1 call greeted in
    Yields (λ e. IsPaired (shapes end.1.context.messages)) end.0
unfolding tool_use_blocks blocks_of_type field_is get_str get interrupts is_null claude
take_answer-IsPaired_example =
    take_answer-IsPaired provider config any_text cancelled_round [] answer 1 call greeted
      greeted-IsPaired call-IsAnswer refl (inr (omega arith), tt)
