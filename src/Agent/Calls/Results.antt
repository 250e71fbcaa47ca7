-- ===== src/Agent/Calls/Results.antt =====
-- The results that _execute_requested_tools of agent_harness/agent.py gives, however the tools end.
use temporal_agent_harness_e.Prelude.{String, ◌≡◌, refl, Bool, true, false, List, [], ◌∷◌, All}
use temporal_agent_harness_e.Prelude.Outcome.{
  Outcome, ok, raise, cancelled_error, Yields, Yields-bind, Yields-ok,
}
use temporal_agent_harness_e.Json.{Dict, get, get_str, field_is}
use temporal_agent_harness_e.Messages.{is_normal_block, tool_result_block}
use temporal_agent_harness_e.Agent.Calls.{
  ToolEnd, execute_requested_tools, execute_requested_tool, or_interrupted, requested_result,
  interrupted_tool_result, read_text, read_value, result_block,
}

-- A result that may be stored.
abbrev pub IsResult : Dict → Type 0
IsResult b = (field_is "type" "tool_result" b ≡ true) × (is_normal_block b ≡ true)

result_block-IsResult :
    (id : String) (payload : Dict) (error : Bool) → IsResult (result_block id payload error)
unfolding result_block tool_result_block field_is get_str get
result_block-IsResult id payload error = (refl, refl)

requested_result-IsResult :
    (name id : String) (end : ToolEnd) → Yields IsResult (requested_result name id end)
unfolding requested_result
requested_result-IsResult name id (ToolEnd.returned r) = result_block-IsResult id _ _
requested_result-IsResult name id (ToolEnd.user_facing payload) =
    result_block-IsResult id payload true
requested_result-IsResult name id (ToolEnd.raised t causes) = result_block-IsResult id _ true
requested_result-IsResult name id ToolEnd.cancelled = tt

execute-IsResult :
    (block : Dict) (end : ToolEnd) → Yields IsResult (execute_requested_tool block end)
unfolding execute_requested_tool
execute-IsResult block end =
    Yields-bind IsResult (read_text "name" (get_str "name" block)) _ λ name _.
      Yields-bind IsResult (read_value "input" (get "input" block)) _ λ input _.
        Yields-bind IsResult (read_text "id" (get_str "id" block)) _
          λ id _. requested_result-IsResult name id end

interrupted-IsResult : (block : Dict) → Yields IsResult (interrupted_tool_result block)
unfolding interrupted_tool_result
interrupted-IsResult block =
    Yields-bind IsResult (read_text "id" (get_str "id" block)) _
      λ id _. result_block-IsResult id _ true

or_interrupted-IsResult :
    (interrupted : Bool) (block : Dict) (r : Outcome Dict)
    → Yields IsResult r
    → Yields IsResult (or_interrupted interrupted block r)
unfolding or_interrupted
or_interrupted-IsResult interrupted block (ok r) h = h
or_interrupted-IsResult true block (raise cancelled_error) h = interrupted-IsResult block
or_interrupted-IsResult false block (raise cancelled_error) h = tt
or_interrupted-IsResult interrupted block (raise f) h = tt

pub execute_requested_tools-AllResult :
    (interrupted : Bool) (calls : List (Dict × ToolEnd))
    → Yields (All IsResult) (execute_requested_tools interrupted calls)
unfolding execute_requested_tools
execute_requested_tools-AllResult interrupted [] = tt
execute_requested_tools-AllResult interrupted ((block, end) ∷ rest) =
    let first = or_interrupted-IsResult interrupted block _ (execute-IsResult block end) in
    let others = execute_requested_tools-AllResult interrupted rest in
    Yields-bind (All IsResult) (or_interrupted interrupted block (execute_requested_tool block end))
      _
      λ r e.
        Yields-bind (All IsResult) (execute_requested_tools interrupted rest) _
          λ rs e'. (Yields-ok IsResult _ first e, Yields-ok (All IsResult) _ others e')
