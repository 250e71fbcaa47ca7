-- ===== src/Providers/Claude/Stream.antt =====
-- The stream of a model call in agent_harness/providers/claude.py: the events of the API, the events of
-- the agent that they give, and the heartbeats. An attribute that an event lacks is a null; `dumps_sorted`
-- stands for json.dumps with sorted keys.
use Prim.Native.String.{◌++◌ as join}
use temporal_agent_harness_e.Prelude.{
  ℕ, zero, suc, ◌-◌, ◌==◌, ltb, String, Bool, false, not, ◌||◌, Option, none, some, List, [], ◌∷◌,
  if◌then◌else◌, str_eq,
}
use temporal_agent_harness_e.Prelude.Text.{is_blank, strip, join_lines, text_length}
use temporal_agent_harness_e.Prelude.Int.{pos}
use temporal_agent_harness_e.Json.{Value, Items, Dict, get, get_str, field_is}
use temporal_agent_harness_e.Providers.{get_or, copy_mapping, text_else}
use temporal_agent_harness_e.Providers.Claude.Requests.{opt_text}
use temporal_agent_harness_e.Providers.Claude.Refusals.{claude_refusal_fallback_text, cons_text}
use temporal_agent_harness_e.Streaming.{
  AgentEvent, text_delta, thinking_started, thinking_delta, tool_input_started, tool_input_delta,
  tool_input_completed,
}

pub record RawEvent : Type 0 where
  pub type_name : Option String
  pub index : ℕ
  pub content_block : Dict
  pub delta : Dict

pub record ToolInputStreamState : Type 0 where
  pub content_block_index : ℕ
  pub tool_use_id : Value
  pub tool_name : Value
  pub tool_type : Value
  pub partial_json : String

pub record HeartbeatState : Type 0 where
  pub sequence : Value
  pub phase : String
  pub events : ℕ
  pub last_event_type : Value
  pub stop_reason : Value

unfoldable pub record_event : HeartbeatState → RawEvent → HeartbeatState
record_event h e = record h { events = suc h.events; last_event_type = opt_text e.type_name }

unfoldable pub heartbeat_payload : HeartbeatState → String → Dict
heartbeat_payload h reason = Dict.field "kind" (Value.str "agent_stream") (
    Dict.field "provider" (Value.str "claude") (
      Dict.field "heartbeat_reason" (Value.str reason) (
        Dict.field "sequence" h.sequence (
          Dict.field "phase" (Value.str h.phase) (
            Dict.field "events" (Value.int (pos h.events)) (
              Dict.field "last_event_type" h.last_event_type
                (Dict.field "stop_reason" h.stop_reason Dict.end)))))))

-- tool_input_blocks
abbrev pub Blocks : Type 0
Blocks = List (ℕ × ToolInputStreamState)

unfoldable pub block_at : ℕ → Blocks → Option ToolInputStreamState
block_at i [] = none
block_at i ((j, s) ∷ bs) = if j == i then some s else block_at i bs

unfoldable pub put_block : ℕ → ToolInputStreamState → Blocks → Blocks
put_block i s [] = (i, s) ∷ []
put_block i s ((j, t) ∷ bs) =
    let rest = put_block i s bs in if j == i then (j, s) ∷ bs else (j, t) ∷ rest

unfoldable pub pop_block : ℕ → Blocks → Blocks
pop_block i [] = []
pop_block i ((j, t) ∷ bs) = let rest = pop_block i bs in if j == i then bs else (j, t) ∷ rest

text_drop : ℕ → String → String
text_drop zero s = s
text_drop (suc n) String.[] = ""
text_drop (suc n) (String.◌∷◌ c s) = text_drop n s

-- encoded[-2000:]
last_chars : ℕ → String → String
unfolding text_drop
last_chars n s = text_drop (text_length s - n) s

unfoldable pub is_type : Option String → String → Bool
is_type none s = false
is_type (some t) s = str_eq t s

-- an event for a text that is not empty
event_for : Option String → (String → AgentEvent) → Option AgentEvent
event_for none event = none
event_for (some s) event = if is_blank s then none else some (event s)

unfoldable pub add_json : ToolInputStreamState → String → ToolInputStreamState
add_json s partial = record s { partial_json = join s.partial_json partial }

module _ (dumps_sorted : Value → String) (sequence : Value) where
  unfoldable pub json_preview : Value → String
  unfolding last_chars
  json_preview v =
      let encoded = dumps_sorted v in
      if ltb 2000 (text_length encoded) then last_chars 2000 encoded else encoded

  unfoldable pub new_state : RawEvent → ToolInputStreamState
  new_state e = record {
    content_block_index = e.index;
    tool_use_id = get_or "id" Value.null e.content_block;
    tool_name = get_or "name" Value.null e.content_block;
    tool_type = get_or "type" Value.null e.content_block;
    partial_json = "";
  }

  unfoldable pub block_started : RawEvent → Blocks → Option AgentEvent × Blocks
  unfolding new_state
  block_started e bs =
      if field_is "type" "thinking" e.content_block
      then (some (thinking_started sequence e.index), bs)
      else if field_is "type" "tool_use" e.content_block
          || field_is "type" "server_tool_use" e.content_block
      then (
        some (
            tool_input_started sequence e.index (new_state e).tool_use_id (new_state e).tool_name
              (new_state e).tool_type),
        put_block e.index (new_state e) bs,
      )
      else (none, bs)

  unfoldable pub json_received :
      RawEvent → Option ToolInputStreamState → Option String → Blocks → Option AgentEvent × Blocks
  unfolding add_json
  json_received e (some s) (some partial) bs = (
    some (tool_input_delta sequence e.index s.tool_use_id s.tool_name s.tool_type partial),
    put_block e.index (add_json s partial) bs,
  )
  json_received e _ _ bs = (none, bs)

  unfoldable pub delta_received : RawEvent → Blocks → Option AgentEvent × Blocks
  unfolding event_for json_received
  delta_received e bs =
      if field_is "type" "text_delta" e.delta
      then (event_for (get_str "text" e.delta) (text_delta sequence), bs)
      else if field_is "type" "refusal_delta" e.delta
      then (event_for (get_str "refusal" e.delta) (text_delta sequence), bs)
      else if field_is "type" "thinking_delta" e.delta
      then (event_for (get_str "thinking" e.delta) (thinking_delta sequence), bs)
      else if field_is "type" "input_json_delta" e.delta
      then json_received e (block_at e.index bs) (get_str "partial_json" e.delta) bs
      else (none, bs)

  unfoldable pub block_stopped :
      RawEvent → Option ToolInputStreamState → Blocks → Option AgentEvent × Blocks
  block_stopped e none bs = (none, pop_block e.index bs)
  block_stopped e (some s) bs =
      let input = get_or "input" (Value.str s.partial_json) e.content_block in
      (
        some (
            tool_input_completed sequence e.index s.tool_use_id s.tool_name s.tool_type input
              (json_preview input)),
        pop_block e.index bs,
      )

  -- _emit_claude_raw_stream_event: the event that is given to the stream, if any
  unfoldable pub raw_stream_event : RawEvent → Blocks → Option AgentEvent × Blocks
  unfolding is_type block_started delta_received block_stopped
  raw_stream_event e bs =
      if is_type e.type_name "content_block_start"
      then block_started e bs
      else if is_type e.type_name "content_block_delta"
      then delta_received e bs
      else if is_type e.type_name "content_block_stop"
      then block_stopped e (block_at e.index bs) bs
      else (none, bs)

  -- the loop over the events of the API
  unfoldable pub raw_stream_events : List RawEvent → Blocks → List AgentEvent × Blocks
  raw_stream_events [] bs = ([], bs)
  raw_stream_events (e ∷ es) bs =
      let (event, now) = raw_stream_event e bs in
      let (events, left) = raw_stream_events es now in
      ((elim event [ none ↦ events | some x ↦ x ∷ events ]), left)

text_from_block_dict : Dict → String
text_from_block_dict b =
    if field_is "type" "text" b
    then text_else "" (get "text" b)
    else if field_is "type" "refusal" b
    then text_else "" (get "refusal" b)
    else ""

text_parts : Items → List String
unfolding text_from_block_dict
text_parts Items.nil = []
text_parts (Items.cons v vs) = cons_text (text_from_block_dict (copy_mapping v)) (text_parts vs)

unfoldable pub text_from_content_blocks : Items → String
unfolding text_parts
text_from_content_blocks content = join_lines "\n" (text_parts content)

unfoldable pub response_display_text : Option String → Items → Option Dict → String
unfolding is_type
response_display_text stop_reason content stop_details =
    let shown = strip (text_from_content_blocks content) in
    if not (is_blank shown)
    then shown
    else if is_type stop_reason "refusal"
    then claude_refusal_fallback_text stop_details
    else ""
