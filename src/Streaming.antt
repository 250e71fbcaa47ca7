-- ===== src/Streaming.antt =====
-- agent_harness/streaming.py: the events by which an agent shows its progress. The sink that takes them,
-- whether its errors are raised, and the attempt of the activity are parameters; `sent` is the log of what
-- the sink was given.
pub mod Order
use temporal_agent_harness_e.Prelude.{
  ℕ, zero, suc, ◌+◌, ◌*◌, ◌==◌, String, ◌≡◌, refl, Bool, true, false, Option, none, some, List, [],
  ◌∷◌, ◌++◌, if◌then◌else◌,
}
use temporal_agent_harness_e.Prelude.Outcome.{Outcome, ok, raise}
use temporal_agent_harness_e.Prelude.Int.{pos}
use temporal_agent_harness_e.Json.{Value, Dict}
use temporal_agent_harness_e.LlmGuards.{update}

pub record StreamEvent : Type 0 where
  pub stream_id : Option String
  pub tool_name : Option String
  pub step : Option String
  pub kind : String
  pub payload : Value
  pub sequence : ℕ

pub record StreamContext : Type 0 where
  pub stream_id : Option String
  pub tool_name : Option String
  pub step : Option String
  pub sequence : ℕ
  pub sent : List StreamEvent

pub record AgentStreamWriter : Type 0 where
  pub stream : StreamContext
  pub provider : String
  pub attempt : Option ℕ

-- AgentStreamWriter.for_provider
unfoldable pub for_provider : Option String → String → Option ℕ → AgentStreamWriter
for_provider stream_id provider attempt = record {
  stream = record {
    stream_id = stream_id;
    tool_name = some "agent";
    step = none;
    sequence = 0;
    sent = [];
  };
  provider = provider;
  attempt = attempt;
}

number : String → Option ℕ → Dict
number key none = Dict.end
number key (some n) = Dict.field key (Value.int (pos n)) Dict.end

-- activity_attempt or 1
unfoldable pub attempt_or_one : Option ℕ → ℕ
attempt_or_one none = 1
attempt_or_one (some n) = if n == 0 then 1 else n

-- The one number that the interface shows for both kinds of attempt.
unfoldable pub attempt_number : ℕ → Option ℕ → ℕ
attempt_number stream_attempt activity_attempt =
    stream_attempt * 1000 + attempt_or_one activity_attempt

shown_attempt : Option ℕ → Option ℕ → Dict
unfolding number attempt_number
shown_attempt none activity_attempt = number "attempt" activity_attempt
shown_attempt (some stream_attempt) activity_attempt =
    number "attempt" (some (attempt_number stream_attempt activity_attempt))

unfoldable pub attempt_payload : Option ℕ → Option ℕ → Dict
unfolding number shown_attempt
attempt_payload stream_attempt activity_attempt =
    update
      (update (number "stream_attempt" stream_attempt) (number "activity_attempt" activity_attempt))
      (shown_attempt stream_attempt activity_attempt)

-- `except Exception`, which goes on unless errors are to be raised
unfoldable pub swallow : Bool → Outcome (Unit {0}) → Outcome (Unit {0})
swallow raise_stream_errors (ok u) = ok u
swallow true (raise f) = raise f
swallow false (raise f) = ok tt

module _ (sink : Option (StreamEvent → Outcome (Unit {0}))) (raise_stream_errors : Bool)
    (activity_attempt : Option ℕ) where
  unfoldable pub event_of : StreamContext → Value → String → StreamEvent
  event_of s payload kind = record {
    stream_id = s.stream_id;
    tool_name = s.tool_name;
    step = s.step;
    kind = kind;
    payload = payload;
    sequence = suc s.sequence;
  }

  unfoldable pub emit_to :
      Option (StreamEvent → Outcome (Unit {0}))
      → StreamContext
      → Value
      → String
      → Outcome (Unit {0}) × StreamContext
  emit_to none s payload kind = (ok tt, s)
  emit_to (some take) s payload kind =
      let event = event_of s payload kind in
      (
        swallow raise_stream_errors (take event),
        record s { sequence = suc s.sequence; sent = s.sent ++ event ∷ [] },
      )

  -- StreamContext.emit
  unfoldable pub emit : StreamContext → Value → String → Outcome (Unit {0}) × StreamContext
  emit s payload kind = emit_to sink s payload kind

  -- AgentStreamWriter._emit
  unfoldable pub emit_agent_event :
      AgentStreamWriter → String → Dict → Outcome (Unit {0}) × AgentStreamWriter
  emit_agent_event w kind payload =
      let (end, stream) =
        emit w.stream
          (Value.obj (
            update (update (Dict.field "provider" (Value.str w.provider) Dict.end) payload)
              (attempt_payload w.attempt activity_attempt)))
          kind in
      (end, record w { stream = stream })

-- The events of an agent: their kind and payload.
abbrev pub AgentEvent : Type 0
AgentEvent = String × Dict

unfoldable pub agent_started : Value → AgentEvent
agent_started sequence = ("agent_start", Dict.field "sequence" sequence Dict.end)

unfoldable pub agent_cancelled : Value → AgentEvent
agent_cancelled sequence = ("agent_cancelled", Dict.field "sequence" sequence Dict.end)

unfoldable pub agent_completed : Value → Value → Value → Value → Value → String → Dict → AgentEvent
agent_completed sequence id model stop_reason stop_details text usage = (
  "agent_complete",
  Dict.field "id" id (
      Dict.field "model" model (
        Dict.field "sequence" sequence (
          Dict.field "stop_reason" stop_reason (
            Dict.field "stop_details" stop_details (
              Dict.field "text" (Value.str text)
                (Dict.field "usage" (Value.obj usage) Dict.end)))))),
)

unfoldable pub text_delta : Value → String → AgentEvent
text_delta sequence text = (
  "agent_text_delta",
  Dict.field "sequence" sequence (Dict.field "text" (Value.str text) Dict.end),
)

unfoldable pub thinking_started : Value → ℕ → AgentEvent
thinking_started sequence content_block_index = (
  "agent_thinking_start",
  Dict.field "sequence" sequence
      (Dict.field "content_block_index" (Value.int (pos content_block_index)) Dict.end),
)

unfoldable pub thinking_delta : Value → String → AgentEvent
thinking_delta sequence thinking = (
  "agent_thinking_delta",
  Dict.field "sequence" sequence (Dict.field "thinking" (Value.str thinking) Dict.end),
)

tool_input_payload : Value → ℕ → Value → Value → Value → Dict → Dict
tool_input_payload sequence content_block_index tool_use_id tool_name tool_type rest =
    Dict.field "sequence" sequence (
      Dict.field "content_block_index" (Value.int (pos content_block_index)) (
        Dict.field "tool_use_id" tool_use_id
          (Dict.field "tool_name" tool_name (Dict.field "tool_type" tool_type rest))))

unfoldable pub tool_input_started : Value → ℕ → Value → Value → Value → AgentEvent
unfolding tool_input_payload
tool_input_started sequence index tool_use_id tool_name tool_type = (
  "agent_tool_input_start",
  tool_input_payload sequence index tool_use_id tool_name tool_type Dict.end,
)

unfoldable pub tool_input_delta : Value → ℕ → Value → Value → Value → String → AgentEvent
unfolding tool_input_payload
tool_input_delta sequence index tool_use_id tool_name tool_type partial_json = (
  "agent_tool_input_delta",
  tool_input_payload sequence index tool_use_id tool_name tool_type
      (Dict.field "partial_json" (Value.str partial_json) Dict.end),
)

unfoldable pub tool_input_completed :
    Value → ℕ → Value → Value → Value → Value → String → AgentEvent
unfolding tool_input_payload
tool_input_completed sequence index tool_use_id tool_name tool_type input input_preview = (
  "agent_tool_input_complete",
  tool_input_payload sequence index tool_use_id tool_name tool_type
      (Dict.field "input" input (Dict.field "input_preview" (Value.str input_preview) Dict.end)),
)
