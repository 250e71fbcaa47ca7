-- ===== src/Providers/Claude/Native.antt =====
-- What the Claude API answered, on its way into the history and out again
-- (agent_harness/providers/claude.py).
use temporal_agent_harness_e.Prelude.{
  String, ◌≡◌, refl, ap, ◌∙◌, Bool, false, ◌||◌, some, List, [], ◌∷◌, arith, All,
}
use temporal_agent_harness_e.Prelude.Outcome.{ok, Yields-ok}
use temporal_agent_harness_e.Json.{Value, Dict, get, put, get_str, field_is, to_items, put-get}
use temporal_agent_harness_e.Messages.{Role, blocks, Message, message, text_block}
use temporal_agent_harness_e.Messages.Snapshots.{normalize_message_lem}
use temporal_agent_harness_e.Providers.{
  truthy, text_or, get_or, get_or_lem, copy_mapping, provider_metadata, provider_data,
  tool_use_block, provider_block, text_or-str,
}
use temporal_agent_harness_e.Providers.Claude.{
  agent_block_to_claude_block, claude_block_to_agent_block, agent_blocks_to_claude_blocks,
  claude_blocks_to_agent_blocks, agent_message_to_claude_message, claude_message_to_agent_message,
  claude_message, result_of_claude, own_data, claude_content, agent_content,
}
use temporal_agent_harness_e.Providers.Claude.Blocks.{from_call, from_result, to_call, to_result}
use temporal_agent_harness_e.Providers.Claude.Pairing.{from-claude_message}
use temporal_agent_harness_e.Providers.Claude.Stored.{message-HasNoMarker, HasNoMarker}

-- A block as the API gives it: a text without citations, a complete call or result, or a block of a
-- kind that the translation does not know, such as a thinking block.
pub data IsNative : Dict → Type 0 where
  plain_text : (s : String) → IsNative (text_block s)
  call :
      {d : Dict} (i n : Value) (input : Dict)
      → get "type" d ≡ some (Value.str "tool_use")
      → get "id" d ≡ some i
      → get "name" d ≡ some n
      → get "input" d ≡ some (Value.obj input)
      → IsNative d
  result :
      {d : Dict} (i content : Value) (e : Bool)
      → get "type" d ≡ some (Value.str "tool_result")
      → get "tool_use_id" d ≡ some i
      → get "content" d ≡ some content
      → get "is_error" d ≡ some (Value.bool e)
      → IsNative d
  other :
      {d : Dict}
      → (field_is "type" "text" d
          || field_is "type" "tool_use" d
          || field_is "type" "tool_result" d
          || field_is "type" "refusal" d)
        ≡ false
      → IsNative d

module _ (str_of : Value → String) where
  abbrev BlockKept : Dict → Type 0
  BlockKept d =
      (b : Dict) × (claude_block_to_agent_block str_of d ≡ ok b)
      × (agent_block_to_claude_block str_of b ≡ ok (some d))

  text_kept : (s : String) → BlockKept (text_block s)
  unfolding claude_block_to_agent_block agent_block_to_claude_block text_block field_is get_str get
  text_kept s = (text_block s, rw (text_or-str str_of s) refl, rw (text_or-str str_of s) refl)

  call_written :
      (d : Dict) (i n : Value) (input : Dict)
      → get "type" d ≡ some (Value.str "tool_use")
      → get "id" d ≡ some i
      → get "name" d ≡ some n
      → get "input" d ≡ some (Value.obj input)
      → put "input"
          (Value.obj input)
          (put "name" n (put "id" i (put "type" (Value.str "tool_use") d)))
        ≡ d
  call_written d i n input t hi hn hd =
      rw (put-get "type" _ d t, put-get "id" _ d hi, put-get "name" _ d hn, put-get "input" _ d hd)
        refl

  call_kept :
      (d : Dict) (i n : Value) (input : Dict)
      → get "type" d ≡ some (Value.str "tool_use")
      → get "id" d ≡ some i
      → get "name" d ≡ some n
      → get "input" d ≡ some (Value.obj input)
      → BlockKept d
  unfolding tool_use_block put field_is get_str get provider_data copy_mapping provider_metadata
      get_or
  call_kept d i n input t hi hn hd =
      let sent = tool_use_block i n input (some (provider_metadata "claude" "tool_use" d)) in
      (
        sent,
        from_call str_of d t hi hn ∙ rw (get_or_lem "input" (Value.obj Dict.end) d hd) refl,
        to_call str_of sent refl refl refl
            ∙ ap (λ x. ok (some x)) (call_written d i n input t hi hn hd),
      )

  result_written :
      (d : Dict) (i content : Value) (e : Bool)
      → get "type" d ≡ some (Value.str "tool_result")
      → get "tool_use_id" d ≡ some i
      → get "content" d ≡ some content
      → get "is_error" d ≡ some (Value.bool e)
      → put "is_error"
          (Value.bool e)
          (put "content" content (put "tool_use_id" i (put "type" (Value.str "tool_result") d)))
        ≡ d
  result_written d i content e t hi hc he =
      rw
        (
          put-get "type" _ d t,
          put-get "tool_use_id" _ d hi,
          put-get "content" _ d hc,
          put-get "is_error" _ d he,
        )
        refl

  abbrev stored_result : Dict → Value → Value → Bool → Dict
  stored_result d i content e = Dict.field "type" (Value.str "tool_result") (
      Dict.field "tool_use_id" i (
        Dict.field "content" content (
          Dict.field "is_error" (Value.bool e) (
            Dict.field "provider" (Value.obj (provider_metadata "claude" "tool_result" d))
              Dict.end))))

  result_read :
      (d : Dict) (i content : Value) (e : Bool)
      → get "tool_use_id" d ≡ some i
      → get "content" d ≡ some content
      → get "is_error" d ≡ some (Value.bool e)
      → result_of_claude d ≡ stored_result d i content e
  unfolding result_of_claude truthy
  result_read d i content e hi hc he =
      rw
        (
          get_or_lem "tool_use_id" Value.null d hi,
          get_or_lem "content" (Value.str "") d hc,
          get_or_lem "is_error" (Value.bool false) d he,
        )
        refl

  result_kept :
      (d : Dict) (i content : Value) (e : Bool)
      → get "type" d ≡ some (Value.str "tool_result")
      → get "tool_use_id" d ≡ some i
      → get "content" d ≡ some content
      → get "is_error" d ≡ some (Value.bool e)
      → BlockKept d
  unfolding result_of_claude field_is get_str get provider_data provider_metadata get_or truthy
  result_kept d i content e t hi hc he =
      let sent = stored_result d i content e in
      (
        sent,
        from_result str_of d t ∙ ap ok (result_read d i content e hi hc he),
        to_result str_of sent refl refl
            ∙ ap (λ x. ok (some x)) (result_written d i content e t hi hc he),
      )

  from_other :
      (d : Dict)
      → (field_is "type" "text" d
          || field_is "type" "tool_use" d
          || field_is "type" "tool_result" d
          || field_is "type" "refusal" d)
        ≡ false
      → claude_block_to_agent_block str_of d
        ≡ ok (provider_block "claude" (text_or str_of "unknown" (get "type" d)) d)
  unfolding claude_block_to_agent_block
  from_other d h = ground arith

  to_other :
      (s : String) (d : Dict)
      → agent_block_to_claude_block str_of (provider_block "claude" s d) ≡ ok (some d)
  unfolding agent_block_to_claude_block provider_block field_is get_str get own_data
  to_other s d = refl

  block_kept : {d : Dict} → IsNative d → BlockKept d
  block_kept (IsNative.plain_text s) = text_kept s
  block_kept (IsNative.call {d = d} i n input t hi hn hd) = call_kept d i n input t hi hn hd
  block_kept (IsNative.result {d = d} i c e t hi hc he) = result_kept d i c e t hi hc he
  block_kept (IsNative.other {d = d} h) = (_, from_other d h, to_other _ d)

  abbrev AllKept : List Dict → Type 0
  AllKept ds =
      (bs : List Dict) × (claude_blocks_to_agent_blocks str_of (to_items ds) ≡ ok bs)
      × (agent_blocks_to_claude_blocks str_of bs ≡ ok ds)

  blocks_kept : (ds : List Dict) → All IsNative ds → AllKept ds
  unfolding claude_blocks_to_agent_blocks agent_blocks_to_claude_blocks to_items copy_mapping
  blocks_kept [] h = ([], refl, refl)
  blocks_kept (d ∷ ds) h =
      let (b, from, to) = block_kept h.0 in
      let (bs, froms, tos) = blocks_kept ds h.1 in
      (b ∷ bs, rw (from, froms) refl, rw (to, tos) refl)

  -- A message of the API whose blocks are texts without citations, complete calls and results, and
  -- blocks of kinds that the translation does not know, is read as a message of the history, and that
  -- message is sent to the API as the same message again, field by field.
  pub to-from_claude :
      (r : Role) (ds : List Dict)
      → All IsNative ds
      → let answer = claude_message r (Value.arr (to_items ds)) in
        (m : Message) × (claude_message_to_agent_message str_of answer ≡ ok m)
        × (agent_message_to_claude_message str_of m ≡ ok answer)
  unfolding agent_message_to_claude_message claude_content agent_content
  to-from_claude r ds h =
      let (bs, froms, tos) = blocks_kept ds h in
      let read =
        from-claude_message str_of r (Value.arr (to_items ds)) (blocks bs) (rw froms refl) in
      let stored = Yields-ok HasNoMarker _ (message-HasNoMarker str_of _) read in
      (
        message r (blocks bs),
        read,
        rw (normalize_message_lem (message r (blocks bs)) stored.1, tos) refl,
      )
