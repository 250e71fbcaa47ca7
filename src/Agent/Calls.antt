-- ===== src/Agent/Calls.antt =====
-- _execute_requested_tools of agent_harness/agent.py: the tools that a message requests run at once, and
-- each request gets a result. How a run of a tool ends is an argument; an exception is the name of its
-- type and the summaries of its chain of causes.
pub mod Results
use temporal_agent_harness_e.Prelude.{
  ◌≡◌, refl, ap, String, Bool, true, Option, none, some, List, [], ◌∷◌, map, if◌then◌else◌, All,
}
use temporal_agent_harness_e.Prelude.Text.{is_blank}
use temporal_agent_harness_e.Prelude.Outcome.{Outcome, ok, raise, key_error, cancelled_error, ◌>>=◌}
use temporal_agent_harness_e.Json.{Value, Dict, get, get_str, field_is, to_items}
use temporal_agent_harness_e.Json.Dumps.{dumps}
use temporal_agent_harness_e.Messages.{tool_result_block}
use temporal_agent_harness_e.Context.{block_ids}
use temporal_agent_harness_e.Guards.{ToolResult}

-- How _execute_tool ends for a request, also when it cannot take the input as keyword arguments.
pub data ToolEnd : Type 0 where
  returned : ToolResult → ToolEnd
  user_facing : Dict → ToolEnd
  raised : String → List Dict → ToolEnd
  cancelled : ToolEnd

last_cause : List Dict → Dict
last_cause [] = Dict.end
last_cause (d ∷ []) = d
last_cause (d ∷ e ∷ rest) = last_cause (e ∷ rest)

text_or : Option String → String → String
text_or none other = other
text_or (some s) other = if is_blank s then other else s

or_null : Option Value → Value
or_null none = Value.null
or_null (some v) = v

unfoldable pub tool_exception_payload : String → String → List Dict → Dict
unfolding last_cause text_or or_null
tool_exception_payload tool_name exception_type causes =
    let root = last_cause causes in
    Dict.field "error" (Value.str (text_or (get_str "message" root) "Tool execution failed.")) (
      Dict.field "type" (Value.str "ToolExecutionFailed") (
        Dict.field "tool_name" (Value.str tool_name) (
          Dict.field "exception_type" (Value.str exception_type) (
            Dict.field "cause_type" (or_null (get "type" root)) (
              Dict.field "message"
                (Value.str
                  "The tool failed after any configured retries. Treat this as the tool result and continue if possible.")
                (Dict.field "causes" (Value.arr (to_items causes)) Dict.end))))))

-- block[key], for a text
unfoldable pub read_text : String → Option String → Outcome String
read_text key none = raise (key_error key)
read_text key (some s) = ok s

unfoldable pub result_block : String → Dict → Bool → Dict
result_block tool_use_id payload error =
    tool_result_block tool_use_id (dumps (Value.obj payload)) error

-- block[key], for a value that may be of any type
unfoldable pub read_value : String → Option Value → Outcome Value
read_value key none = raise (key_error key)
read_value key (some v) = ok v

-- _execute_requested_tool behind its reads: only a cancellation is left to raise
unfoldable pub requested_result : String → String → ToolEnd → Outcome Dict
unfolding result_block
requested_result name tool_use_id (returned r) = ok (result_block tool_use_id r.payload r.error)
requested_result name tool_use_id (user_facing payload) = ok (result_block tool_use_id payload true)
requested_result name tool_use_id (raised exception_type causes) =
    ok (result_block tool_use_id (tool_exception_payload name exception_type causes) true)
requested_result name tool_use_id cancelled = raise cancelled_error

unfoldable pub execute_requested_tool : Dict → ToolEnd → Outcome Dict
unfolding read_text read_value requested_result
execute_requested_tool block end = do
  name ← read_text "name" (get_str "name" block)
  input ← read_value "input" (get "input" block)
  tool_use_id ← read_text "id" (get_str "id" block)
  requested_result name tool_use_id end

interrupted_payload : Dict
interrupted_payload = Dict.field "interrupted" (Value.bool true) (
    Dict.field "message"
      (Value.str "Tool execution was interrupted by the user before it completed.") Dict.end)

unfoldable pub interrupted_tool_result : Dict → Outcome Dict
unfolding read_text result_block interrupted_payload
interrupted_tool_result block = do
  tool_use_id ← read_text "id" (get_str "id" block)
  ok (result_block tool_use_id interrupted_payload true)

-- The `except` clause of the loop over the tasks.
unfoldable pub or_interrupted : Bool → Dict → Outcome Dict → Outcome Dict
unfolding interrupted_tool_result
or_interrupted interrupted block (ok r) = ok r
or_interrupted interrupted block (raise cancelled_error) =
    if interrupted then interrupted_tool_result block else raise cancelled_error
or_interrupted interrupted block (raise f) = raise f

unfoldable pub execute_requested_tools : Bool → List (Dict × ToolEnd) → Outcome (List Dict)
unfolding or_interrupted
execute_requested_tools interrupted [] = ok []
execute_requested_tools interrupted ((block, end) ∷ rest) = do
  r ← or_interrupted interrupted block (execute_requested_tool block end)
  rs ← execute_requested_tools interrupted rest
  ok (r ∷ rs)

-- A block that requests a tool, with the keys that are read outside of the `try`.
pub record IsRequest (block : Dict) : Type 0 where
  pub typed : field_is "type" "tool_use" block ≡ true
  pub name : String
  pub named : get_str "name" block ≡ some name
  pub input : Value
  pub has_input : get "input" block ≡ some input
  pub id : String
  pub identified : get_str "id" block ≡ some id

-- A tool is cancelled only by an interrupt.
abbrev pub CancelledBy : Bool → ToolEnd → Type 0
CancelledBy interrupted cancelled = interrupted ≡ true
CancelledBy interrupted _ = Unit

-- The result of one request.
record Result (id : String) (r : Outcome Dict) : Type 0 where
  block : Dict
  given : r ≡ ok block
  is_result : field_is "type" "tool_result" block ≡ true
  answers : get_str "tool_use_id" block ≡ some id

block-Result :
    (id : String) (payload : Dict) (error : Bool) → Result id (ok (result_block id payload error))
unfolding result_block tool_result_block field_is get_str get
block-Result id payload error = record {
  block = result_block id payload error;
  given = refl;
  is_result = refl;
  answers = refl;
}

end-Result :
    (interrupted : Bool) (block : Dict) (name id : String) (end : ToolEnd)
    → get_str "id" block ≡ some id
    → CancelledBy interrupted end
    → Result id (or_interrupted interrupted block (requested_result name id end))
unfolding or_interrupted requested_result interrupted_tool_result read_text
end-Result interrupted block name id (returned r) e h = block-Result id _ _
end-Result interrupted block name id (user_facing payload) e h = block-Result id payload true
end-Result interrupted block name id (raised exception_type causes) e h = block-Result id _ true
end-Result interrupted block name id cancelled e h =
    rw (h, e) (block-Result id interrupted_payload true)

request-Result :
    (interrupted : Bool) (block : Dict) (end : ToolEnd) (q : IsRequest block)
    → CancelledBy interrupted end
    → Result q.id (or_interrupted interrupted block (execute_requested_tool block end))
unfolding execute_requested_tool read_text read_value
request-Result interrupted block end q h =
    rw (q.named, q.has_input, q.identified)
      (end-Result interrupted block q.name q.id end q.identified h)

abbrev pub requests : List (Dict × ToolEnd) → List Dict
requests = map (λ c. c.0)

-- For requests that have a name, an input and an id, when only an interrupt cancels a tool, the results are given, and they
-- answer the requests one by one, in order: a request that failed or was interrupted has a result too.
pub execute_requested_tools_lem :
    (interrupted : Bool) (calls : List (Dict × ToolEnd))
    → All (λ c. IsRequest c.0 × CancelledBy interrupted c.1) calls
    → (rs : List Dict) × (execute_requested_tools interrupted calls ≡ ok rs)
      × (block_ids "tool_result" "tool_use_id" rs ≡ block_ids "tool_use" "id" (requests calls))
unfolding execute_requested_tools block_ids
execute_requested_tools_lem interrupted [] h = ([], refl, refl)
execute_requested_tools_lem interrupted ((block, end) ∷ rest) h =
    let q = h.0.0 in
    let r = request-Result interrupted block end q h.0.1 in
    let (rs, given, ids) = execute_requested_tools_lem interrupted rest h.1 in
    (
      r.block ∷ rs,
      rw (r.given, given) refl,
      rw (r.is_result, r.answers, q.typed, q.identified) (ap (◌∷◌ q.id) ids),
    )
