-- ===== src/Providers/Claude.antt =====
-- agent_harness/providers/claude.py: the translation of messages to those of the Claude API and
-- back. A Claude message is a dict of JSON, as in the source.
pub mod Inputs
pub mod Stream
pub mod Adapter
pub mod Refusals
pub mod Native
pub mod Thinking
pub mod Stored
pub mod Pairing
pub mod Blocks
pub mod Requests
use temporal_agent_harness_e.Prelude.{
  ℕ, String, ◌≡◌, refl, Bool, true, false, not, ◌&&◌, ◌||◌, Option, none, some, List, [], ◌∷◌,
  if◌then◌else◌, str_eq, arith,
}
use temporal_agent_harness_e.Prelude.Outcome.{Outcome, ok, raise, value_error, ◌>>=◌}
use temporal_agent_harness_e.Json.{Value, Items, Dict, get, put, field_is, to_items}
use temporal_agent_harness_e.Messages.{
  Role, user, assistant, Content, text, blocks, Message, message, text_block, marker_text,
}
use temporal_agent_harness_e.Messages.Snapshots.{role_text, normalize_message}
use temporal_agent_harness_e.Providers.{
  truthy, get_or, item, copy_mapping, provider_metadata, provider_data, tool_use_block,
  provider_block, text_else, text_or,
}

abbrev pub or_new_block : String → Option Dict → Dict
or_new_block block_type none = Dict.field "type" (Value.str block_type) Dict.end
or_new_block block_type (some d) = d

unfoldable pub agent_tool_use_to_claude_block : Dict → Outcome Dict
agent_tool_use_to_claude_block b = do
  id ← item "id" b
  name ← item "name" b
  ok (
      put "input" (Value.obj (copy_mapping (get_or "input" (Value.obj Dict.end) b))) (
        put "name" name (
          put "id" id (
            put "type" (Value.str "tool_use")
              (or_new_block "tool_use" (provider_data b "claude"))))))

unfoldable pub agent_tool_result_to_claude_block : Dict → Outcome Dict
agent_tool_result_to_claude_block b = do
  tool_use_id ← item "tool_use_id" b
  ok (
      put "is_error" (Value.bool (truthy (get_or "is_error" (Value.bool false) b))) (
        put "content" (get_or "content" (Value.str "") b) (
          put "tool_use_id" tool_use_id (
            put "type" (Value.str "tool_result")
              (or_new_block "tool_result" (provider_data b "claude"))))))

-- the block of the API that another provider's block holds
unfoldable pub own_data : Option Value → Option Dict
own_data (some (Value.obj d)) = some d
own_data _ = none

unfoldable pub result_of_claude : Dict → Dict
result_of_claude b = Dict.field "type" (Value.str "tool_result") (
    Dict.field "tool_use_id" (get_or "tool_use_id" Value.null b) (
      Dict.field "content" (get_or "content" (Value.str "") b) (
        Dict.field "is_error" (Value.bool (truthy (get_or "is_error" (Value.bool false) b))) (
          Dict.field "provider" (Value.obj (provider_metadata "claude" "tool_result" b))
            Dict.end))))

unfoldable pub claude_message : Role → Value → Dict
claude_message r content =
    Dict.field "role" (Value.str (role_text r)) (Dict.field "content" content Dict.end)

unfoldable pub claude_role : Option Value → Outcome Role
claude_role (some (Value.str s)) =
    if str_eq s "user"
    then ok user
    else if str_eq s "assistant"
    then ok assistant
    else raise (value_error "Invalid Claude message role")
claude_role _ = raise (value_error "Invalid Claude message role")

module _ (str_of : Value → String) where
  unfoldable pub agent_block_to_claude_block : Dict → Outcome (Option Dict)
  agent_block_to_claude_block b =
      if field_is "type" "text" b
      then ok (some (text_block (text_or str_of "" (get "text" b))))
      else if field_is "type" "context_compaction_marker" b
      then ok (some (text_block (text_or str_of marker_text (get "text" b))))
      else if field_is "type" "tool_use" b
      then (do c ← agent_tool_use_to_claude_block b; ok (some c))
      else if field_is "type" "tool_result" b
      then (do c ← agent_tool_result_to_claude_block b; ok (some c))
      else if field_is "type" "provider" b && field_is "provider" "claude" b
      then ok (own_data (get "data" b))
      else if field_is "type" "refusal" b
      then ok (some (text_block (text_else "" (get "refusal" b))))
      else ok none

  unfoldable pub claude_block_to_agent_block : Dict → Outcome Dict
  claude_block_to_agent_block b =
      if field_is "type" "text" b
      then ok (text_block (text_or str_of "" (get "text" b)))
      else if field_is "type" "tool_use" b
      then (do
        id ← item "id" b
        name ← item "name" b
        ok (
            tool_use_block id name (copy_mapping (get_or "input" (Value.obj Dict.end) b))
              (some (provider_metadata "claude" "tool_use" b))))
      else if field_is "type" "tool_result" b
      then ok (result_of_claude b)
      else if field_is "type" "refusal" b
      then ok (text_block (text_else "" (get "refusal" b)))
      else ok (provider_block "claude" (text_or str_of "unknown" (get "type" b)) b)

  cons_kept : Option Dict → List Dict → List Dict
  cons_kept none cs = cs
  cons_kept (some c) cs = c ∷ cs

  unfoldable pub agent_blocks_to_claude_blocks : List Dict → Outcome (List Dict)
  unfolding cons_kept
  agent_blocks_to_claude_blocks [] = ok []
  agent_blocks_to_claude_blocks (b ∷ bs) = do
    c ← agent_block_to_claude_block b
    cs ← agent_blocks_to_claude_blocks bs
    ok (cons_kept c cs)

  unfoldable pub claude_content : Content → Outcome Value
  claude_content (text s) = ok (Value.str s)
  claude_content (blocks bs) = do
    cs ← agent_blocks_to_claude_blocks bs
    ok (Value.arr (to_items cs))

  unfoldable pub agent_message_to_claude_message : Message → Outcome Dict
  agent_message_to_claude_message m = do
    normalized ← normalize_message m
    content ← claude_content normalized.content
    ok (claude_message normalized.role content)

  unfoldable pub agent_messages_to_claude_messages : List Message → Outcome (List Dict)
  agent_messages_to_claude_messages [] = ok []
  agent_messages_to_claude_messages (m ∷ ms) = do
    d ← agent_message_to_claude_message m
    ds ← agent_messages_to_claude_messages ms
    ok (d ∷ ds)

  -- an item of a list of blocks that is no dict is read as the empty dict
  unfoldable pub claude_blocks_to_agent_blocks : Items → Outcome (List Dict)
  claude_blocks_to_agent_blocks Items.nil = ok []
  claude_blocks_to_agent_blocks (Items.cons v vs) = do
    b ← claude_block_to_agent_block (copy_mapping v)
    bs ← claude_blocks_to_agent_blocks vs
    ok (b ∷ bs)

  unfoldable pub agent_content : Option Value → Outcome Content
  agent_content (some (Value.str s)) = ok (text s)
  agent_content (some (Value.arr vs)) = do bs ← claude_blocks_to_agent_blocks vs; ok (blocks bs)
  agent_content _ = raise (value_error "Claude message content must be a string or list")

  unfoldable pub claude_message_to_agent_message : Dict → Outcome Message
  unfolding claude_role
  claude_message_to_agent_message d = do
    role ← claude_role (get "role" d)
    content ← agent_content (get "content" d)
    ok (message role content)

  unfoldable pub claude_messages_to_agent_messages : List Dict → Outcome (List Message)
  claude_messages_to_agent_messages [] = ok []
  claude_messages_to_agent_messages (d ∷ ds) = do
    m ← claude_message_to_agent_message d
    ms ← claude_messages_to_agent_messages ds
    ok (m ∷ ms)
