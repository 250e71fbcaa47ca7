-- ===== src/Context/Shrink.antt =====
-- The two truncating loops of agent_harness/sliding_window_context_manager.py. They differ in what
-- they shorten: the contents of tool results, or texts.
pub mod Shorter
pub mod Located
pub mod Keeps
pub mod Loop
use temporal_agent_harness_e.Prelude.{
  ℕ, zero, suc, ◌+◌, ◌-◌, ◌*◌, ◌/◌, ◌%◌, ◌≤◌, ◌<◌, min, max, String, ◌≡◌, refl, sym, ap, ◌∙◌, subst,
  ◌≢◌, ◌↔◌, ◌⊎◌, inl, inr, Bool, true, false, not, ◌&&◌, ◌||◌, Option, none, some, List, [], ◌∷◌,
  ◌++◌, map, append-nil, append_assoc, map-append, arith, str_eq, eq_iff, eq_refl, ltb, leb, ◌==◌,
  if◌then◌else◌, Bool-cases, Option-cases, length, get_elem?, set, drop, take, is_empty, all,
  length-append, length-drop, length-set, All, All-append, All-drop, length-map, nil_of_empty,
  ne-nil_of_not_empty, not_empty_of_ne-nil, ltb→lt, lt→ltb, leb→le, le→leb, leb_false→lt, &&_iff,
}
use temporal_agent_harness_e.Prelude.Text.{text_length, text_take, is_blank, contains, decimal}
use temporal_agent_harness_e.Prelude.Outcome.{
  Outcome, ok, raise, value_error, type_error, key_error, ◌>>=◌, ◌>>◌, raise_if, IsOk, Yields,
  Yields-bind, Yields-ok,
}
use temporal_agent_harness_e.Prelude.Loops.{iterate, iterate_inv, iterate_ends}
use temporal_agent_harness_e.Prelude.Int.{
  ℤ, pos, negsuc, ◌+ℤ◌, ◌-ℤ◌, ◌*ℤ◌, ◌≤ℤ◌, ltb_ℤ, leb_ℤ, max_ℤ, min_ℤ, int_eq, pos_part, neg_part,
  int_laws,
}
use temporal_agent_harness_e.Json.{
  Value, Items, Dict, get, put, get_str, as_str, field_is, to_items, value_eq, get-put, get_str-put,
  get_str-put_ne, field_is_ne, field_is-put_ne,
}
use temporal_agent_harness_e.Json.Dumps.{dumps, dumps_compact}
use temporal_agent_harness_e.Messages.{
  Role, user, assistant, Content, text, blocks, Message, message, text_message, text_block,
  context_compaction_marker_block, tool_result_block, tool_use_blocks, is_normal_block, IsNormal,
  AllNormal, content_blocks,
}
use temporal_agent_harness_e.Messages.Snapshots.{
  message_to_snapshot, snapshots, message_from_snapshot, messages_from_snapshots, normalize_message,
  normalize_messages, normalize_message_lem, normalize_messages_lem, from-snapshots,
  message_from_snapshot-IsNormal, messages_from_snapshots-AllNormal,
}
use temporal_agent_harness_e.Context.Budget.{
  Ratio, ContextTokenBudget, input_token_budget, checked_budget, ceil_div, ceil_mul,
  estimated_tokens, fits, excess_chars,
}
use Prim.Native.String.{◌++◌ as join}

pub data Kind : Type 0 where
  tool_results : Kind
  texts : Kind

abbrev pub block_type : Kind → String
block_type tool_results = "tool_result"
block_type texts = "text"

abbrev pub content_key : Kind → String
content_key tool_results = "content"
content_key texts = "text"

-- Whether a message that is one text counts.
abbrev pub whole_text : Kind → Bool
whole_text tool_results = false
whole_text texts = true

pub record Location : Type 0 where
  pub message_index : ℕ
  pub block_index : Option ℕ
  pub original : String

abbrev pub location : ℕ → Option ℕ → String → Location
location i j s = record { message_index = i; block_index = j; original = s }

-- `largest is None or len(content) > len(largest[2])`
unfoldable pub larger : Option Location → Location → Option Location
larger none l = some l
larger (some m) l = if ltb (text_length m.original) (text_length l.original) then some l else some m

-- The content of a block of the kind, when it is a text.
unfoldable pub payload : Kind → Dict → Option String
payload k b = if field_is "type" (block_type k) b then get_str (content_key k) b else none

unfoldable pub offer : ℕ → ℕ → Option String → Option Location → Option Location
offer i j none found = found
offer i j (some s) found = larger found (location i (some j) s)

unfoldable pub scan_blocks : Kind → ℕ → ℕ → List Dict → Option Location → Option Location
scan_blocks k i j [] found = found
scan_blocks k i j (b ∷ bs) found = scan_blocks k i (suc j) bs (offer i j (payload k b) found)

unfoldable pub scan_content : Kind → ℕ → Content → Option Location → Option Location
scan_content k i (text s) found = if whole_text k then larger found (location i none s) else found
scan_content k i (blocks bs) found = scan_blocks k i 0 bs found

unfoldable pub scan_messages : Kind → ℕ → List Message → Option Location → Option Location
scan_messages k i [] found = found
scan_messages k i (m ∷ ms) found = scan_messages k (suc i) ms (scan_content k i m.content found)

-- _largest_tool_result_location and _largest_text_location
unfoldable pub largest_location : Kind → List Message → Option Location
largest_location k ms = scan_messages k 0 ms none

unfoldable pub with_content : Dict → String → Dict
with_content b s = put (if field_is "type" "text" b then "text" else "content") (Value.str s) b

set_in_blocks : Role → List Dict → ℕ → Option Dict → String → Outcome Message
unfolding with_content
set_in_blocks role bs j none s = raise (value_error "list index out of range")
set_in_blocks role bs j (some b) s = ok (message role (blocks (set bs j (with_content b s))))

set_in_content : Role → Content → ℕ → String → Outcome Message
unfolding set_in_blocks
set_in_content role (text t) j s = raise (type_error "Cannot set block content on a string message")
set_in_content role (blocks bs) j s = set_in_blocks role bs j (get_elem? bs j) s

unfoldable pub set_block_content : Message → ℕ → String → Outcome Message
unfolding set_in_content
set_block_content m j s = set_in_content m.role m.content j s

unfoldable pub replaced_message : Message → Option ℕ → String → Outcome Message
replaced_message m none s = ok (message m.role (text s))
replaced_message m (some j) s = set_block_content m j s

-- The assignment at the end of a round.
replace_in : List Message → ℕ → Option Message → Option ℕ → String → Outcome (List Message)
unfolding replaced_message
replace_in ms i none j s = raise (value_error "list index out of range")
replace_in ms i (some m) j s = do n ← replaced_message m j s; ok (set ms i n)

unfoldable pub replace_at : List Message → Location → String → Outcome (List Message)
unfolding replace_in
replace_at ms l s = replace_in ms l.message_index (get_elem? ms l.message_index) l.block_index s

-- max(0, min(len - 1, len - excess - 500)), and half of the text where that is no shorter
unfoldable pub target_chars : ℕ → ℕ → ℕ
target_chars len excess =
    let target = min (len - 1) (len - excess - 500) in if leb len target then len / 2 else target

unfoldable pub truncated_payload : String → ℕ → String
truncated_payload content preview_chars = dumps (
    Value.obj (
      Dict.field "truncated" (Value.bool true) (
        Dict.field "reason" (Value.str "Tool result truncated to fit model context budget.") (
          Dict.field "original_chars" (Value.int (pos (text_length content)))
            (Dict.field "preview" (Value.str (text_take preview_chars content)) Dict.end)))))

unfoldable pub truncated_text : String → ℕ → String
truncated_text content preview_chars =
    join "[Message text truncated to fit model context budget. Original chars: "
      (join (decimal (text_length content)) (join ".]\n\n" (text_take preview_chars content)))

unfoldable pub truncated : Kind → String → ℕ → String
unfolding truncated_payload truncated_text
truncated tool_results = truncated_payload
truncated texts = truncated_text

-- A round replaces the largest content by a shorter one, or ends the loop.
replacement : List Message → Location → String → Option (Outcome (List Message))
replacement ms l s =
    if leb (text_length l.original) (text_length s) then none else some (replace_at ms l s)

shorten :
    Kind → ContextTokenBudget → List Message → Option Location → Option (Outcome (List Message))
unfolding replacement
shorten k b ms none = none
shorten k b ms (some l) =
    replacement ms l
      (truncated k l.original (target_chars (text_length l.original) (excess_chars ms b)))

unfoldable pub shrink_round :
    Kind → ContextTokenBudget → Outcome (List Message) → Option (Outcome (List Message))
unfolding shorten
shrink_round k b (raise e) = none
shrink_round k b (ok ms) = if fits ms b then none else shorten k b ms (largest_location k ms)

-- The length of what the loop may still shorten.
abbrev pub payload_length : Option String → ℕ
payload_length none = 0
payload_length (some s) = text_length s

abbrev pub blocks_weight : Kind → List Dict → ℕ
blocks_weight k [] = 0
blocks_weight k (b ∷ bs) = payload_length (payload k b) + blocks_weight k bs

abbrev pub content_weight : Kind → Content → ℕ
content_weight k (text s) = if whole_text k then text_length s else 0
content_weight k (blocks bs) = blocks_weight k bs

abbrev pub weight : Kind → List Message → ℕ
weight k [] = 0
weight k (m ∷ ms) = content_weight k m.content + weight k ms

-- _truncate_tool_results_to_budget and _truncate_text_to_budget: a round more than there is to shorten
unfoldable pub truncate_to_budget :
    Kind → List Message → ContextTokenBudget → Outcome (List Message)
truncate_to_budget k ms b = do
  compacted ← normalize_messages ms
  iterate (shrink_round k b) (suc (weight k compacted)) (ok compacted)
