-- ===== src/Context/Manager.antt =====
-- SlidingWindowContextManager of agent_harness/sliding_window_context_manager.py.
pub mod Stored
use temporal_agent_harness_e.Prelude.{
  ℕ, zero, suc, ◌+◌, ◌-◌, ◌*◌, ◌/◌, ◌%◌, ◌≤◌, ◌<◌, min, max, String, ◌≡◌, refl, sym, ap, ◌∙◌, subst,
  ◌≢◌, ◌↔◌, ◌⊎◌, inl, inr, Bool, true, false, not, ◌&&◌, ◌||◌, Option, none, some, List, [], ◌∷◌,
  ◌++◌, map, append-nil, append_assoc, map-append, arith, str_eq, eq_iff, eq_refl, ltb, leb, ◌==◌,
  if◌then◌else◌, Bool-cases, Option-cases, length, get_elem?, set, drop, take, is_empty, all,
  cons_some, length-append, length-drop, length-set, All, All-append, All-drop, length-map,
  nil_of_empty, ne-nil_of_not_empty, not_empty_of_ne-nil, ltb→lt, lt→ltb, leb→le, le→leb,
  leb_false→lt, &&_iff,
}
use temporal_agent_harness_e.Prelude.Text.{
  text_length, text_take, is_blank, contains, decimal, lstrip, strip, join_lines,
}
use temporal_agent_harness_e.Prelude.Outcome.{
  Outcome, ok, raise, value_error, type_error, key_error, ◌>>=◌, ◌>>◌, raise_if, IsOk, Yields,
  Yields-bind, Yields-ok,
}
use temporal_agent_harness_e.Prelude.Loops.{iterate, iterate_inv, iterate_ends}
use temporal_agent_harness_e.Prelude.Int.{
  ℤ, pos, negsuc, ◌+ℤ◌, ◌-ℤ◌, ◌*ℤ◌, ◌≤ℤ◌, ltb_ℤ, leb_ℤ, max_ℤ, min_ℤ, int_eq, pos_part, neg_part,
  int_laws,
}
use temporal_agent_harness_e.Json.{
  Value, Items, Dict, get, put, get_str, as_str, field_is, to_items, value_eq, get-put, get_str-put,
  get_str-put_ne, field_is_ne, field_is-put_ne,
}
use temporal_agent_harness_e.Json.Dumps.{dumps, dumps_compact}
use temporal_agent_harness_e.Messages.{
  Role, user, assistant, Content, text, blocks, Message, message, text_message, text_block,
  context_compaction_marker_block, tool_result_block, tool_use_blocks, is_normal_block, IsNormal,
  AllNormal, content_blocks,
}
use temporal_agent_harness_e.Messages.Snapshots.{
  message_to_snapshot, snapshots, message_from_snapshot, messages_from_snapshots, normalize_message,
  normalize_messages, normalize_message_lem, normalize_messages_lem, from-snapshots,
  message_from_snapshot-IsNormal, messages_from_snapshots-AllNormal,
}
use temporal_agent_harness_e.Context.{
  tool_use_ids, tool_result_ids, message_has_block_type, has_tool_results_for,
  without_tool_use_blocks, Shape, shape, shapes, Answers, IsPaired, nil, plain, exchange, IsUnmixed,
  has_uses_of_ids, has_results_of_ids, without-shape, Rest, Begins, IsPaired-Begins,
  IsPaired-append,
}
use temporal_agent_harness_e.Context.Budget.{
  Ratio, ContextTokenBudget, input_token_budget, checked_budget, ceil_div, ceil_mul,
  estimated_tokens, fits, excess_chars,
}
use temporal_agent_harness_e.Context.Shrink.Loop.{Truncated, truncate_to_budget-Truncated}
use temporal_agent_harness_e.Context.Groups.{
  message_groups, flatten_message_groups, flatten-message_groups, AllPaired,
  message_groups-AllPaired, message_groups-AllNormal, flatten-AllNormal, flatten-IsPaired,
}
use temporal_agent_harness_e.Context.Exchanges.{
  drop_incomplete_tool_exchanges, drop_incomplete-IsPaired, drop_incomplete_of_IsPaired,
}
use temporal_agent_harness_e.Context.Fit.{
  fit_messages_to_token_budget, ShortOf, Bounded, kept_messages, fit-ShortOf, fit-IsPaired,
}
use temporal_agent_harness_e.Attachments.{AttachmentRef, attachment_manifest_text}

pub record Manager : Type 0 where
  pub max_recent_messages : ℕ
  pub preserve_initial_user_message : Bool
  pub clear_old_tool_results : Bool
  pub max_tool_result_chars : Option ℕ
  pub messages : List Message

too_few_chars : Option ℕ → Bool
too_few_chars none = false
too_few_chars (some n) = ltb n 1

-- __post_init__
unfoldable pub checked_manager : Manager → Outcome Manager
unfolding too_few_chars
checked_manager s = do
  raise_if (ltb s.max_recent_messages 2) (value_error "max_recent_messages must be at least 2")
  raise_if (too_few_chars s.max_tool_result_chars)
      (value_error "max_tool_result_chars must be at least 1")
  ok s

unfoldable pub user_content : String → String → Content
user_content prompt manifest =
    if is_blank manifest
    then text prompt
    else blocks
        ((if is_blank prompt then [] else text_block prompt ∷ []) ++ text_block manifest ∷ [])

unfoldable pub user_message_content : String → List AttachmentRef → Content
unfolding user_content
user_message_content prompt attachments = user_content prompt (attachment_manifest_text attachments)

unfoldable pub record_user_message : Manager → String → List AttachmentRef → Manager
unfolding user_message_content
record_user_message s prompt attachments = record s {
  messages = s.messages ++ message user (user_message_content prompt attachments) ∷ [];
}

unfoldable pub initialize : Manager → String → List AttachmentRef → Manager
unfolding record_user_message
initialize s prompt attachments =
    record_user_message (record s { messages = [] }) prompt attachments

unfoldable pub record_assistant_message : Manager → Message → Outcome Manager
record_assistant_message s m = do
  n ← normalize_message m
  ok (record s { messages = s.messages ++ n ∷ [] })

unfoldable pub record_tool_results : Manager → List Dict → Outcome Manager
record_tool_results s [] = ok s
record_tool_results s (r ∷ rs) = do
  n ← normalize_message (message user (blocks (r ∷ rs)))
  ok (record s { messages = s.messages ++ n ∷ [] })

unfoldable pub full_messages : Manager → Items
full_messages s = snapshots s.messages

unfoldable pub replace_messages : Manager → Items → Outcome Manager
replace_messages s items = do ms ← messages_from_snapshots items; ok (record s { messages = ms })

unfoldable pub snapshot_of : List Message → Dict
snapshot_of ms =
    Dict.field "version" (Value.int (pos 2))
      (Dict.field "messages" (Value.arr (snapshots ms)) Dict.end)

unfoldable pub full_context_snapshot : Manager → Dict
unfolding snapshot_of
full_context_snapshot s = snapshot_of s.messages

is_version_2 : Option Value → Bool
is_version_2 none = false
is_version_2 (some v) = value_eq v (Value.int (pos 2))

restore_messages : Manager → Option Value → Outcome Manager
restore_messages s (some (Value.arr items)) = do
  ms ← messages_from_snapshots items
  ok (record s { messages = ms })
restore_messages s _ = raise (value_error "Context snapshot messages must be a list")

unfoldable pub restore : Manager → Dict → Outcome Manager
unfolding is_version_2 restore_messages
restore s snapshot =
    if is_version_2 (get "version" snapshot)
    then restore_messages s (get "messages" snapshot)
    else raise (value_error "Unsupported context snapshot version")
