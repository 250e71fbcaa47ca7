-- ===== src/Chat/Bytes.antt =====
-- How simple_chat_agent/worker/workflow.py bounds the size of its query results: the bytes of texts and
-- messages, and their truncation.
use Prim.Native.Char.{code}
use temporal_agent_harness_e.Prelude.{
  ℕ, ◌+◌, ◌-◌, ◌≤◌, min, max, String, Bool-cases, inl, inr, leb→le, Option, none, some, List, [],
  ◌∷◌, arith, ltb, leb, ◌==◌, if◌then◌else◌,
}
use Prim.Native.String.{◌++◌ as join}
use temporal_agent_harness_e.Prelude.Int.{ℤ, pos_part}
use temporal_agent_harness_e.Prelude.Text.{decimal}
use temporal_agent_harness_e.Attachments.{AttachmentRef}
use temporal_agent_harness_e.Chat.{ChatRole, user, assistant, system, ChatMessage, TranscriptDelta}

abbrev pub base_overhead : ℕ
base_overhead = 2048

abbrev pub message_overhead : ℕ
message_overhead = 512

abbrev pub min_max_bytes : ℕ
min_max_bytes = 16384

abbrev pub hard_max_bytes : ℕ
hard_max_bytes = 1000000

abbrev pub truncation_notice : String
truncation_notice =
    "\n\n[Transcript message truncated to keep the workflow query response bounded.]"

-- max(MIN, min(requested, HARD_MAX)), for an int
unfoldable pub transcript_byte_limit : ℤ → ℕ
transcript_byte_limit n = max min_max_bytes (min (pos_part n) hard_max_bytes)

-- The bytes of a character in UTF-8.
unfoldable pub char_bytes : ℕ → ℕ
char_bytes c = if ltb c 128 then 1 else if ltb c 2048 then 2 else if ltb c 65536 then 3 else 4

unfoldable pub text_bytes : String → ℕ
unfolding char_bytes
text_bytes String.[] = 0
text_bytes (String.◌∷◌ c s) = char_bytes (code c) + text_bytes s

-- The first `n` bytes, less a last character that they hold in part only. A limit of 0 gives the
-- empty text.
unfoldable pub truncate_text_bytes : String → ℕ → String
unfolding char_bytes
truncate_text_bytes String.[] n = ""
truncate_text_bytes (String.◌∷◌ c s) n =
    let rest = truncate_text_bytes s (n - char_bytes (code c)) in
    if leb (char_bytes (code c)) n then String.◌∷◌ c rest else ""

abbrev role_text : ChatRole → String
role_text user = "user"
role_text assistant = "assistant"
role_text system = "system"

or_nothing : Option ℕ → String
or_nothing none = ""
or_nothing (some n) = if n == 0 then "" else decimal n

metadata_bytes : List (String × String) → ℕ
metadata_bytes [] = 0
metadata_bytes ((k, v) ∷ rest) = text_bytes k + text_bytes v + metadata_bytes rest

unfoldable pub attachment_bytes : AttachmentRef → ℕ
unfolding or_nothing metadata_bytes
attachment_bytes a =
    message_overhead
    + text_bytes a.attachment_id
    + text_bytes a.name
    + text_bytes a.mime_type
    + text_bytes (decimal a.size_bytes)
    + text_bytes a.content_kind
    + text_bytes a.source
    + text_bytes a.text_preview
    + text_bytes (or_nothing a.text_chars)
    + text_bytes a.expires_at
    + metadata_bytes a.metadata

attachments_bytes : List AttachmentRef → ℕ
attachments_bytes [] = 0
attachments_bytes (a ∷ rest) = attachment_bytes a + attachments_bytes rest

unfoldable pub chat_message_query_bytes : ChatMessage → ℕ
unfolding attachments_bytes
chat_message_query_bytes m =
    message_overhead
    + text_bytes (role_text m.role)
    + text_bytes m.content
    + attachments_bytes m.attachments

unfoldable pub delta_bytes : TranscriptDelta → ℕ
delta_bytes d =
    message_overhead
    + text_bytes (decimal d.revision)
    + text_bytes (decimal d.index)
    + chat_message_query_bytes d.message

unfoldable pub deltas_bytes : List TranscriptDelta → ℕ
deltas_bytes [] = 0
deltas_bytes (d ∷ ds) = delta_bytes d + deltas_bytes ds

unfoldable pub transcript_deltas_query_bytes : List TranscriptDelta → ℕ
transcript_deltas_query_bytes ds = base_overhead + deltas_bytes ds

unfoldable pub truncate_chat_message_for_query : ChatMessage → ℕ → ChatMessage
truncate_chat_message_for_query m available = record m {
  content =
      join (truncate_text_bytes m.content (available - text_bytes truncation_notice))
        truncation_notice;
}

-- A truncated text fits its limit, whatever the widths of its characters.
pub text_bytes-truncate_text_bytes : (s : String) (n : ℕ) → text_bytes (truncate_text_bytes s n) ≤ n
unfolding text_bytes truncate_text_bytes
text_bytes-truncate_text_bytes String.[] n = omega arith
text_bytes-truncate_text_bytes (String.◌∷◌ c s) n =
    elim (Bool-cases (leb (char_bytes (code c)) n)) [
      | inl e ↦
          rw e (
            omega (arith, leb→le _ _ e, text_bytes-truncate_text_bytes s (n - char_bytes (code c))))
      | inr e ↦ rw e (omega arith)
    ]

pub base_within_limit : (n : ℤ) → base_overhead ≤ transcript_byte_limit n
unfolding transcript_byte_limit
base_within_limit n = omega arith
