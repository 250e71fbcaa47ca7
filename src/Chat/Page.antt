-- ===== src/Chat/Page.antt =====
-- _transcript_page of simple_chat_agent/worker/workflow.py: the page of the transcript that fits a
-- number of messages and of bytes.
pub mod Bounds
use temporal_agent_harness_e.Prelude.{
  ℕ, zero, suc, ◌+◌, ◌-◌, ◌≤◌, ◌<◌, min, max, ◌≡◌, refl, sym, ap, ◌∙◌, ◌⊎◌, inl, inr, Bool, true,
  false, Option, none, some, List, [], ◌∷◌, arith, ltb, leb, ◌==◌, if◌then◌else◌, Bool-cases,
  Option-cases, length, get_elem?, drop, take, leb→le, leb_false→lt, is_empty,
}
use temporal_agent_harness_e.Prelude.Int.{ℤ, pos, negsuc, pos_part}
use temporal_agent_harness_e.Chat.{ChatMessage, ChatState, rendered_transcript}
use temporal_agent_harness_e.Chat.Bytes.{
  base_overhead, message_overhead, transcript_byte_limit, chat_message_query_bytes,
  truncate_chat_message_for_query, base_within_limit,
}

pub record TranscriptPage : Type 0 where
  pub messages : List ChatMessage
  pub start : ℕ
  pub end : ℕ
  pub total : ℕ
  pub transcript_revision : ℕ
  pub limited : Bool
  pub byte_limit : ℕ
  pub estimated_bytes : ℕ

-- The variables of the loop.
pub record Loop : Type 0 where
  pub messages : List ChatMessage
  pub estimated_bytes : ℕ
  pub start : ℕ
  pub limited : Bool

-- The message that does not fit any more: a first one is cut.
unfoldable pub overflow : ℕ → ℕ → ChatMessage → Loop → Loop
overflow byte_limit index m l =
    let cut =
      truncate_chat_message_for_query m (byte_limit - l.estimated_bytes - message_overhead) in
    if is_empty l.messages
    then record {
      messages = cut ∷ [];
      estimated_bytes = l.estimated_bytes + chat_message_query_bytes cut;
      start = index;
      limited = true;
    }
    else record l { limited = true }

unfoldable pub prepend : ℕ → ChatMessage → Loop → Loop
prepend index m l = record l {
  messages = m ∷ l.messages;
  estimated_bytes = l.estimated_bytes + chat_message_query_bytes m;
  start = index;
}

-- for index in range(lower + n - 1, lower - 1, -1)
unfoldable pub page_loop : List ChatMessage → ℕ → ℕ → ℕ → Loop → Loop
page_loop transcript byte_limit lower zero l = l
page_loop transcript byte_limit lower (suc n) l = elim (get_elem? transcript (lower + n)) [
  | none ↦ l
  | some m ↦
      let rest = page_loop transcript byte_limit lower n (prepend (lower + n) m l) in
      if leb (l.estimated_bytes + chat_message_query_bytes m) byte_limit
      then rest
      else overflow byte_limit (lower + n) m l
]

-- max(1, min(int(limit or 60), 200))
unfoldable pub page_limit : ℤ → ℕ
page_limit limit = max 1 (min (elim limit [ pos n ↦ if n == 0 then 60 else n | negsuc n ↦ 0 ]) 200)

unfoldable pub page_end : Option ℤ → ℕ → ℕ
page_end none total = total
page_end (some before) total = min (pos_part before) total

abbrev pub first_loop : ℕ → Loop
first_loop end = record {
  messages = [];
  estimated_bytes = base_overhead;
  start = end;
  limited = false;
}

unfoldable pub transcript_page : ChatState → Option ℤ → ℤ → ℤ → TranscriptPage
transcript_page s before limit max_bytes =
    let transcript = rendered_transcript s in
    let byte_limit = transcript_byte_limit max_bytes in
    let end = page_end before (length transcript) in
    let lower = end - page_limit limit in
    let l = page_loop transcript byte_limit lower (end - lower) (first_loop end) in
    record {
      messages = l.messages;
      start = l.start;
      end = end;
      total = length transcript;
      transcript_revision = s.transcript_revision;
      limited = l.limited;
      byte_limit = byte_limit;
      estimated_bytes = min l.estimated_bytes byte_limit;
    }

-- The bytes of messages.
abbrev pub messages_bytes : List ChatMessage → ℕ
messages_bytes [] = 0
messages_bytes (m ∷ ms) = chat_message_query_bytes m + messages_bytes ms

module _ {A : Type 0} where
  -- t[start:end]
  abbrev pub slice : List A → ℕ → ℕ → List A
  slice t start end = drop start (take end t)

  slice-extend :
      (t : List A) (i end : ℕ) (x : A)
      → get_elem? t i ≡ some x
      → i < end
      → slice t i end ≡ x ∷ slice t (suc i) end
  slice-extend [] i end x e lt = cc
  slice-extend (y ∷ t) i zero x e lt = absurd (omega (arith, lt))
  slice-extend (y ∷ t) zero (suc end) x e lt =
      let same : y ≡ x = cc in ap (λ z. z ∷ take end t) same
  slice-extend (y ∷ t) (suc i) (suc end) x e lt = slice-extend t i end x e (omega (arith, lt))

  slice-nil : (t : List A) (end : ℕ) → slice t end end ≡ []
  slice-nil [] zero = refl
  slice-nil [] (suc end) = refl
  slice-nil (y ∷ t) zero = refl
  slice-nil (y ∷ t) (suc end) = slice-nil t end

  get_elem-within : (t : List A) (i : ℕ) → get_elem? t i ≡ none → i < length t → ⊥
  get_elem-within [] i e lt = omega (arith, lt)
  get_elem-within (y ∷ t) zero e lt = cc
  get_elem-within (y ∷ t) (suc i) e lt = get_elem-within t i e (omega (arith, lt))

-- A page of whole messages within the limit, which reaches the lower bound unless it is limited.
pub record Whole (t : List ChatMessage) (byte_limit lower end : ℕ) (l : Loop) : Type 0 where
  pub shown : l.messages ≡ slice t l.start end
  pub low : lower ≤ l.start
  pub high : l.start ≤ end
  pub bytes : l.estimated_bytes ≡ base_overhead + messages_bytes l.messages
  pub fits : l.estimated_bytes ≤ byte_limit
  pub reached : (l.start ≡ lower) ⊎ (l.limited ≡ true)

-- A page of one message, cut because it does not fit alone.
pub record Cut (t : List ChatMessage) (byte_limit lower end : ℕ) (l : Loop) : Type 0 where
  pub last : ChatMessage
  pub is_last : get_elem? t l.start ≡ some last
  pub before_end : suc l.start ≡ end
  pub low : lower ≤ l.start
  pub too_big : byte_limit < base_overhead + chat_message_query_bytes last
  pub limited : l.limited ≡ true
  pub shown :
      l.messages
      ≡ truncate_chat_message_for_query last (byte_limit - base_overhead - message_overhead) ∷ []
