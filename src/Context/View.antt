-- ===== src/Context/View.antt =====
-- What the context manager of agent_harness/sliding_window_context_manager.py shows: the messages for a
-- model request, and the snapshot that a continuation starts from.
pub mod Pairing
pub mod Compaction
use temporal_agent_harness_e.Prelude.{
  ℕ, zero, suc, ◌+◌, ◌-◌, ◌*◌, ◌/◌, ◌%◌, ◌≤◌, ◌<◌, min, max, String, ◌≡◌, refl, sym, ap, ◌∙◌, subst,
  ◌≢◌, ◌↔◌, ◌⊎◌, inl, inr, Bool, true, false, not, ◌&&◌, ◌||◌, Option, none, some, List, [], ◌∷◌,
  ◌++◌, map, append-nil, append_assoc, map-append, arith, str_eq, eq_iff, eq_refl, ltb, leb, ◌==◌,
  if◌then◌else◌, Bool-cases, Option-cases, length, get_elem?, set, drop, take, is_empty, all,
  cons_some, length-append, length-drop, length-set, All, All-append, All-drop, length-map,
  nil_of_empty, ne-nil_of_not_empty, not_empty_of_ne-nil, ltb→lt, lt→ltb, leb→le, le→leb,
  leb_false→lt, &&_iff,
}
use temporal_agent_harness_e.Prelude.Text.{
  text_length, text_take, is_blank, contains, decimal, lstrip, strip, join_lines,
}
use temporal_agent_harness_e.Prelude.Outcome.{
  Outcome, ok, raise, value_error, type_error, key_error, ◌>>=◌, ◌>>◌, raise_if, IsOk, Yields,
  Yields-bind, Yields-ok,
}
use temporal_agent_harness_e.Prelude.Loops.{iterate, iterate_inv, iterate_ends}
use temporal_agent_harness_e.Prelude.Int.{
  ℤ, pos, negsuc, ◌+ℤ◌, ◌-ℤ◌, ◌*ℤ◌, ◌≤ℤ◌, ltb_ℤ, leb_ℤ, max_ℤ, min_ℤ, int_eq, pos_part, neg_part,
  int_laws,
}
use temporal_agent_harness_e.Json.{
  Value, Items, Dict, get, put, get_str, as_str, field_is, to_items, value_eq, get-put, get_str-put,
  get_str-put_ne, field_is_ne, field_is-put_ne,
}
use temporal_agent_harness_e.Json.Dumps.{dumps, dumps_compact}
use temporal_agent_harness_e.Messages.{
  Role, user, assistant, Content, text, blocks, Message, message, text_message, text_block,
  context_compaction_marker_block, tool_result_block, tool_use_blocks, is_normal_block, IsNormal,
  AllNormal, content_blocks,
}
use temporal_agent_harness_e.Messages.Snapshots.{
  message_to_snapshot, snapshots, message_from_snapshot, messages_from_snapshots, normalize_message,
  normalize_messages, normalize_message_lem, normalize_messages_lem, from-snapshots,
  message_from_snapshot-IsNormal, messages_from_snapshots-AllNormal,
}
use temporal_agent_harness_e.Context.{
  tool_use_ids, tool_result_ids, message_has_block_type, has_tool_results_for,
  without_tool_use_blocks, Shape, shape, shapes, Answers, IsPaired, nil, plain, exchange, IsUnmixed,
  has_uses_of_ids, has_results_of_ids, without-shape, Rest, Begins, IsPaired-Begins,
  IsPaired-append,
}
use temporal_agent_harness_e.Context.Budget.{
  Ratio, ContextTokenBudget, input_token_budget, checked_budget, ceil_div, ceil_mul,
  estimated_tokens, fits, excess_chars,
}
use temporal_agent_harness_e.Context.Shrink.Loop.{Truncated, truncate_to_budget-Truncated}
use temporal_agent_harness_e.Context.Groups.{
  message_groups, flatten_message_groups, flatten-message_groups, AllPaired,
  message_groups-AllPaired, message_groups-AllNormal, flatten-AllNormal, flatten-IsPaired,
}
use temporal_agent_harness_e.Context.Exchanges.{
  drop_incomplete_tool_exchanges, drop_incomplete-IsPaired, drop_incomplete_of_IsPaired,
}
use temporal_agent_harness_e.Context.Fit.{
  fit_messages_to_token_budget, ShortOf, Bounded, kept_messages, fit-ShortOf, fit-IsPaired,
}
use temporal_agent_harness_e.Attachments.{AttachmentRef, attachment_manifest_text}
use temporal_agent_harness_e.Context.Manager.{Manager, snapshot_of}

-- The last `max_recent_messages`, behind the first message of all.
window : Manager → List Message → List Message
window s [] = []
window s (first ∷ rest) =
    let start = length (first ∷ rest) - s.max_recent_messages in
    let recent = drop start (first ∷ rest) in
    if s.preserve_initial_user_message && ltb 0 start then first ∷ recent else recent

unfoldable pub selected_messages : Manager → List Message
unfolding window
selected_messages s =
    if leb (length s.messages) s.max_recent_messages
    then drop_incomplete_tool_exchanges s.messages
    else drop_incomplete_tool_exchanges (window s s.messages)

latest_from : ℕ → Option ℕ → List Message → Option ℕ
latest_from i latest [] = latest
latest_from i latest (m ∷ ms) =
    latest_from (suc i) (if message_has_block_type m "tool_result" then some i else latest) ms

unfoldable pub latest_tool_result_index : List Message → Option ℕ
unfolding latest_from
latest_tool_result_index ms = latest_from 0 none ms

unfoldable pub content_length : Option Value → Value
content_length (some (Value.str s)) = Value.int (pos (text_length s))
content_length (some (Value.arr items)) = Value.int (pos (text_length (dumps (Value.arr items))))
content_length _ = Value.null

or_null : Option Value → Value
or_null none = Value.null
or_null (some v) = v

unfoldable pub cleared_tool_result_block : Dict → Dict
unfolding or_null content_length
cleared_tool_result_block b =
    put "content"
      (Value.str (
        dumps (
          Value.obj (
            Dict.field "cleared" (Value.bool true) (
              Dict.field "reason" (Value.str "Older tool result omitted from model context.") (
                Dict.field "tool_use_id" (or_null (get "tool_use_id" b))
                  (Dict.field "original_chars" (content_length (get "content" b)) Dict.end)))))))
      b

preview : String → ℕ → String
preview content limit = dumps (
    Value.obj (
      Dict.field "truncated" (Value.bool true) (
        Dict.field "original_chars" (Value.int (pos (text_length content)))
          (Dict.field "preview" (Value.str (text_take limit content)) Dict.end))))

limited_block : Dict → Option String → ℕ → Dict
unfolding preview
limited_block b none limit = b
limited_block b (some content) limit =
    if ltb limit (text_length content)
    then put "content" (Value.str (preview content limit)) b
    else b

limit_block : Dict → Option ℕ → Dict
unfolding limited_block
limit_block b none = b
limit_block b (some limit) = limited_block b (get_str "content" b) limit

unfoldable pub block_for_model : Bool → Option ℕ → Dict → Dict
unfolding cleared_tool_result_block limit_block
block_for_model clear limit b =
    if field_is "type" "tool_result" b
    then (if clear then cleared_tool_result_block b else limit_block b limit)
    else b

content_for_model : Bool → Option ℕ → Content → Content
unfolding block_for_model
content_for_model clear limit (text s) = text s
content_for_model clear limit (blocks bs) = blocks (map (block_for_model clear limit) bs)

unfoldable pub message_for_model : Bool → Option ℕ → Message → Message
unfolding content_for_model
message_for_model clear limit m = message m.role (content_for_model clear limit m.content)

is_index : Option ℕ → ℕ → Bool
is_index none i = false
is_index (some j) i = i == j

-- The list comprehension of messages_for_model, from an index on.
messages_from : Manager → Option ℕ → ℕ → List Message → List Message
unfolding is_index
messages_from s latest i [] = []
messages_from s latest i (m ∷ ms) =
    message_for_model (not (is_index latest i) && s.clear_old_tool_results)
      (if is_index latest i then none else s.max_tool_result_chars) m
    ∷ messages_from s latest (suc i) ms

unfoldable pub windowed_messages : Manager → List Message
unfolding messages_from
windowed_messages s =
    messages_from s (latest_tool_result_index (selected_messages s)) 0 (selected_messages s)

unfoldable pub messages_for_model : Manager → Option ContextTokenBudget → Outcome (List Message)
messages_for_model s none = ok (windowed_messages s)
messages_for_model s (some b) =
    fit_messages_to_token_budget (windowed_messages s) b s.preserve_initial_user_message

-- Messages that carry no marker of an earlier compaction.
unfoldable pub without_context_compaction_markers : List Message → List Message
without_context_compaction_markers [] = []
without_context_compaction_markers (m ∷ ms) =
    let rest = without_context_compaction_markers ms in
    if message_has_block_type m "context_compaction_marker" then rest else m ∷ rest

abbrev pub marker_message : ℕ → Message
marker_message dropped = message user (blocks (context_compaction_marker_block dropped ∷ []))

same_first : List Message → List Message → Bool
same_first (m ∷ ms) (n ∷ ns) = value_eq (message_to_snapshot m) (message_to_snapshot n)
same_first _ _ = false

unfoldable pub with_context_compaction_marker : List Message → List Message → Bool → List Message
unfolding same_first
with_context_compaction_marker full compacted_messages preserve =
    let compacted = without_context_compaction_markers compacted_messages in
    if leb (length full) (length compacted)
    then compacted_messages
    else let index = if preserve && same_first full compacted then 1 else 0 in
      take index compacted ++ marker_message (length full - length compacted) ∷ drop index compacted

unfoldable pub continuation_messages : Manager → Option ContextTokenBudget → Outcome (List Message)
continuation_messages s budget = do
  compacted ← messages_for_model s budget
  ok (
      with_context_compaction_marker
        (without_context_compaction_markers (drop_incomplete_tool_exchanges s.messages)) compacted
        s.preserve_initial_user_message)

unfoldable pub continuation_context_snapshot : Manager → Option ContextTokenBudget → Outcome Dict
unfolding snapshot_of
continuation_context_snapshot s budget = do ms ← continuation_messages s budget; ok (snapshot_of ms)
