-- ===== src/Tests/StreamTests.antt =====
-- The properties of the events that an agent streams.
use temporal_agent_harness_e.Prelude.{
  ℕ, ◌<◌, ◌≡◌, ◌↔◌, ◌⊎◌, refl, String, true, some, List, [], ◌∷◌, false, arith,
}
use temporal_agent_harness_e.Prelude.Outcome.{Outcome, raise, value_error}
use temporal_agent_harness_e.Json.{Value, Dict, field_is, get_str, get}
use temporal_agent_harness_e.Providers.{get_or}
use temporal_agent_harness_e.Streaming.{
  StreamEvent, AgentStreamWriter, AgentEvent, for_provider, emit, emit_agent_event, emit_to,
  event_of, swallow, attempt_number, agent_started, text_delta, tool_input_completed,
}
use temporal_agent_harness_e.Streaming.Order.{emit_in_turn, sequences, kinds, attempt_number_iff}
use temporal_agent_harness_e.Providers.Claude.Stream.{
  RawEvent, raw_stream_event, json_preview, is_type,
}
use temporal_agent_harness_e.Providers.Claude.Inputs.{
  all_added, passes, after_start, raw_stream_event-input,
}

-- a sink that refuses every event
abbrev refuse : StreamEvent → Outcome (Unit {0})
refuse e = raise (value_error "no")

abbrev writer : AgentStreamWriter
writer = for_provider (some "stream") "claude" (some 1)

abbrev two_events : List AgentEvent
two_events = agent_started Value.null ∷ text_delta Value.null "hello" ∷ []

refused_first :
    kinds (emit_in_turn (some refuse) true (some 1) two_events writer).1.stream.sent
    ≡ "agent_start" ∷ []
unfolding emit_in_turn emit_agent_event emit emit_to event_of swallow for_provider agent_started
refused_first = refl

both_given :
    sequences (emit_in_turn (some refuse) false (some 1) two_events writer).1.stream.sent
    ≡ 1 ∷ 2 ∷ []
unfolding emit_in_turn emit_agent_event emit emit_to event_of swallow for_provider agent_started
both_given = refl

attempt_number_iff_example :
    (attempt_number 1 (some 7) < attempt_number 2 (some 1)) ↔ (1 < 2 ⊎ (◌≡◌ {A = ℕ} 1 2 × (7 < 1)))
attempt_number_iff_example =
    attempt_number_iff 1 2 7 1 (omega arith) (omega arith) (omega arith) (omega arith)

abbrev typed : String → Dict
typed t = Dict.field "type" (Value.str t) Dict.end

abbrev start : RawEvent
start = record {
  type_name = some "content_block_start";
  index = 1;
  content_block =
      Dict.field "type" (Value.str "tool_use")
        (Dict.field "id" (Value.str "a") (Dict.field "name" (Value.str "look") Dict.end));
  delta = Dict.end;
}

abbrev json_delta : ℕ → String → RawEvent
json_delta i s = record {
  type_name = some "content_block_delta";
  index = i;
  content_block = Dict.end;
  delta =
      Dict.field "type" (Value.str "input_json_delta")
        (Dict.field "partial_json" (Value.str s) Dict.end);
}

abbrev stop : RawEvent
stop = record {
  type_name = some "content_block_stop";
  index = 1;
  content_block = Dict.end;
  delta = Dict.end;
}

abbrev between : List RawEvent
between = json_delta 1 "{\"x\":" ∷ json_delta 2 "[]" ∷ json_delta 1 "1}" ∷ []

abbrev sorted : Value → String
sorted v = "{}"

raw_stream_event-input_example :
    (raw_stream_event sorted Value.null stop (after_start sorted Value.null start between [])).0
    ≡ some (
        tool_input_completed Value.null 1
          (get_or "id" Value.null start.content_block)
          (get_or "name" Value.null start.content_block)
          (get_or "type" Value.null start.content_block)
          (Value.str (all_added 1 between))
          (json_preview sorted Value.null (Value.str (all_added 1 between))))
unfolding is_type field_is get_str get passes
raw_stream_event-input_example =
    raw_stream_event-input sorted Value.null start stop between [] refl refl
      (refl, (refl, (refl, tt))) refl refl refl
