-- ===== src/Messages.antt =====
-- agent_harness/messages.py: messages, their blocks, and the snapshots that they are stored as.
-- A block is a dict; a snapshot is JSON. Exception messages leave out the value that they quote.
pub mod Snapshots
use temporal_agent_harness_e.Prelude.{
  ℕ, zero, suc, ◌+◌, ◌-◌, ◌*◌, ◌/◌, ◌%◌, ◌≤◌, ◌<◌, min, max, String, ◌≡◌, refl, sym, ap, ◌∙◌, subst,
  ◌≢◌, ◌↔◌, ◌⊎◌, inl, inr, Bool, true, false, not, ◌&&◌, ◌||◌, Option, none, some, List, [], ◌∷◌,
  ◌++◌, map, append-nil, append_assoc, map-append, arith, str_eq, eq_iff, eq_refl, ltb, leb, ◌==◌,
  if◌then◌else◌, Bool-cases, Option-cases, length, get_elem?, set, drop, take, is_empty, all,
  length-append, length-drop, length-set, All, All-append, All-drop, length-map, ltb→lt, lt→ltb,
  leb→le, le→leb, leb_false→lt, &&_iff,
}
use temporal_agent_harness_e.Prelude.Text.{text_length, text_take, is_blank, contains, decimal}
use temporal_agent_harness_e.Prelude.Outcome.{
  Outcome, ok, raise, value_error, type_error, key_error, ◌>>=◌, ◌>>◌, raise_if, IsOk,
}
use temporal_agent_harness_e.Prelude.Loops.{iterate, iterate_inv, iterate_ends}
use temporal_agent_harness_e.Prelude.Int.{
  ℤ, pos, negsuc, ◌+ℤ◌, ◌-ℤ◌, ◌*ℤ◌, ◌≤ℤ◌, ltb_ℤ, leb_ℤ, max_ℤ, min_ℤ, int_eq, pos_part, neg_part,
  int_laws,
}
use temporal_agent_harness_e.Json.{
  Value, Items, Dict, get, put, get_str, as_str, field_is, to_items, value_eq, get-put, get_str-put,
  get_str-put_ne,
}
use temporal_agent_harness_e.Json.Dumps.{dumps, dumps_compact}

pub data Role : Type 0 where
  user : Role
  assistant : Role

pub data Content : Type 0 where
  text : String → Content
  blocks : List Dict → Content

pub record Message : Type 0 where
  pub role : Role
  pub content : Content

abbrev pub message : Role → Content → Message
message r c = record { role = r; content = c }

abbrev pub text_message : Role → String → Message
text_message r s = message r (text s)

unfoldable pub text_block : String → Dict
text_block s = Dict.field "type" (Value.str "text") (Dict.field "text" (Value.str s) Dict.end)

-- CONTEXT_COMPACTION_MARKER_TEXT
abbrev pub marker_text : String
marker_text =
    "Older conversation existed here, but it was dropped during context compaction. The retained conversation below is the bounded context that remains available."

unfoldable pub context_compaction_marker_block : ℕ → Dict
context_compaction_marker_block dropped =
    Dict.field "type" (Value.str "context_compaction_marker") (
      Dict.field "text" (Value.str marker_text) (
        Dict.field "reason" (Value.str "older_messages_dropped")
          (Dict.field "dropped_messages" (Value.int (pos dropped)) Dict.end)))

unfoldable pub tool_result_block : String → String → Bool → Dict
tool_result_block tool_use_id content is_error = Dict.field "type" (Value.str "tool_result") (
    Dict.field "tool_use_id" (Value.str tool_use_id) (
      Dict.field "content" (Value.str content)
        (Dict.field "is_error" (Value.bool is_error) Dict.end)))

unfoldable pub blocks_of_type : String → List Dict → List Dict
blocks_of_type t [] = []
blocks_of_type t (b ∷ bs) =
    let rest = blocks_of_type t bs in if field_is "type" t b then b ∷ rest else rest

abbrev pub content_blocks : Content → List Dict
content_blocks (text s) = []
content_blocks (blocks bs) = bs

-- the blocks of a message by which the model requests tools
unfoldable pub tool_use_blocks : Message → List Dict
unfolding blocks_of_type
tool_use_blocks m = blocks_of_type "tool_use" (content_blocks m.content)

-- A block may be stored: a dict that is not empty, with a text for its type.
abbrev pub is_normal_block : Dict → Bool
is_normal_block b = elim (get_str "type" b) [ none ↦ false | some t ↦ true ]

abbrev pub IsNormal : Message → Type 0
IsNormal m = All (λ b. is_normal_block b ≡ true) (content_blocks m.content)

abbrev pub AllNormal : List Message → Type 0
AllNormal = All IsNormal
