-- ===== src/Chat/Deltas.antt =====
-- transcript_deltas_since of simple_chat_agent/worker/workflow.py, against a log of all changes.
pub mod Growth
use temporal_agent_harness_e.Prelude.{
  ℕ, zero, suc, ◌+◌, ◌-◌, ◌*◌, ◌≤◌, ◌<◌, min, String, ◌≡◌, refl, sym, ap, ◌∙◌, ◌⊎◌, inl, inr, Bool,
  true, false, Option, none, some, List, [], ◌∷◌, ◌++◌, append-nil, append_assoc, arith, ltb, leb,
  if◌then◌else◌, Bool-cases, length, drop, All, All-append, All-drop, length-append, length-drop,
  is_empty, ltb→lt, leb→le, leb_false→lt,
}
use temporal_agent_harness_e.Prelude.Int.{ℤ, pos, negsuc, pos_part}
use temporal_agent_harness_e.Chat.{
  ChatMessage, TranscriptDelta, ChatState, Status, last_of, record_transcript_change,
  transcript_delta_buffer_limit, rendered_transcript,
}
use temporal_agent_harness_e.Chat.Bytes.{
  transcript_byte_limit, transcript_deltas_query_bytes, deltas_bytes, base_overhead,
  base_within_limit,
}

abbrev pub Log : Type 0
Log = List TranscriptDelta

pub record TranscriptDeltaResult : Type 0 where
  pub from_revision : ℕ
  pub to_revision : ℕ
  pub deltas : Log
  pub needs_snapshot : Bool
  pub transcript_length : ℕ
  pub status : Status
  pub pending_messages : ℕ
  pub active_message_index : Option ℕ
  pub state_revision : ℕ
  pub limited : Bool
  pub byte_limit : ℕ
  pub estimated_bytes : ℕ

-- [delta for delta in deltas if delta.revision > after]
unfoldable pub newer : ℕ → Log → Log
newer after [] = []
newer after (d ∷ ds) = let rest = newer after ds in if ltb after d.revision then d ∷ rest else rest

transcript_delta_result : ChatState → ℕ → Log → Bool → ℕ → Bool → ℕ → TranscriptDeltaResult
transcript_delta_result s after deltas needs_snapshot byte_limit limited estimated = record {
  from_revision = after;
  to_revision = s.transcript_revision;
  deltas = deltas;
  needs_snapshot = needs_snapshot;
  transcript_length = length (rendered_transcript s);
  status = s.status;
  pending_messages = length s.pending_messages;
  active_message_index = s.active_message_index;
  state_revision = s.state_revision;
  limited = limited;
  byte_limit = byte_limit;
  estimated_bytes = min estimated byte_limit;
}

-- Without an estimate, the bytes of the deltas.
plain_result : ChatState → ℕ → Log → Bool → ℕ → TranscriptDeltaResult
unfolding transcript_delta_result
plain_result s after deltas needs_snapshot byte_limit =
    transcript_delta_result s after deltas needs_snapshot byte_limit false
      (transcript_deltas_query_bytes deltas)

sized_result : ChatState → ℕ → ℕ → Log → TranscriptDeltaResult
unfolding plain_result
sized_result s after byte_limit deltas =
    if ltb byte_limit (transcript_deltas_query_bytes deltas)
    then transcript_delta_result s after [] true byte_limit true byte_limit
    else plain_result s after deltas false byte_limit

buffered_result : ChatState → ℕ → ℕ → Log → TranscriptDeltaResult
unfolding sized_result
buffered_result s after byte_limit [] = plain_result s after [] true byte_limit
buffered_result s after byte_limit (d ∷ ds) =
    if ltb after (d.revision - 1)
    then plain_result s after [] true byte_limit
    else sized_result s after byte_limit (newer after (d ∷ ds))

unfoldable pub transcript_deltas_since : ChatState → ℤ → ℤ → TranscriptDeltaResult
unfolding buffered_result
transcript_deltas_since s after max_bytes =
    if leb s.transcript_revision (pos_part after)
    then plain_result s (pos_part after) [] false (transcript_byte_limit max_bytes)
    else buffered_result s (pos_part after) (transcript_byte_limit max_bytes) s.transcript_deltas

-- The revisions grow, all above `low`.
pub data Increasing : ℕ → Log → Type 0 where
  nil : {low : ℕ} → Increasing low []
  cons :
      {low : ℕ} {d : TranscriptDelta} {ds : Log}
      → low < d.revision
      → Increasing d.revision ds
      → Increasing low (d ∷ ds)

-- The buffer holds the end of a log of every change, whose revisions the state's revision bounds.
pub record Logged (log : Log) (s : ChatState) : Type 0 where
  pub dropped : ℕ
  pub suffix : s.transcript_deltas ≡ drop dropped log
  pub increasing : Increasing 0 log
  pub bounded : All (λ d. d.revision ≤ s.transcript_revision) log

-- Of the dropped changes none is newer than what a client of the buffer has.
newer_none : (after : ℕ) (log : Log) → All (λ d. d.revision ≤ after) log → newer after log ≡ []
unfolding newer
newer_none after [] h = refl
newer_none after (d ∷ ds) h = ground (arith, newer_none after ds h.1, h.0)

cons-ne-nil : {A : Type 0} (x : A) (xs : List A) → x ∷ xs ≡ [] → ⊥
cons-ne-nil x xs e = cc

above :
    (low : ℕ) (log : Log) (n : ℕ) (d : TranscriptDelta) (rest : Log)
    → Increasing low log
    → drop n log ≡ d ∷ rest
    → low < d.revision
above low _ zero d rest nil e = absurd (cons-ne-nil d rest (sym e))
above low _ (suc n) d rest nil e = absurd (cons-ne-nil d rest (sym e))
above low _ zero d rest (cons {d = c} lt i) e = let same : c ≡ d = cc in rw (← same) lt
above low _ (suc n) d rest (cons {d = c} {ds = ds} lt i) e =
    omega (arith, lt, above c.revision ds n d rest i e)

-- What the buffer dropped is no news to a client whose revision reaches the buffer.
newer-drop :
    (after low n : ℕ) (log : Log) (d : TranscriptDelta) (rest : Log)
    → Increasing low log
    → drop n log ≡ d ∷ rest
    → d.revision ≤ suc after
    → newer after log ≡ newer after (d ∷ rest)
unfolding newer
newer-drop after low zero log d rest i e le = ap (newer after) e
newer-drop after low (suc n) _ d rest nil e le = absurd (cons-ne-nil d rest (sym e))
newer-drop after low (suc n) _ d rest (cons {d = c} {ds = ds} lt i) e le =
    let old : ltb after c.revision ≡ false = ground (arith, above c.revision ds n d rest i e, le) in
    rw old (newer-drop after c.revision n ds d rest i e le)

-- What a client may do with an answer: take a new snapshot, or apply all the changes since.
pub record Answers (log : Log) (s : ChatState) (after : ℕ) (r : TranscriptDeltaResult)
    : Type 0 where
  pub up_to : r.to_revision ≡ s.transcript_revision
  pub complete :
      (r.needs_snapshot ≡ true) × (r.deltas ≡ [])
      ⊎ (r.needs_snapshot ≡ false) × (r.deltas ≡ newer after log)
  pub small : transcript_deltas_query_bytes r.deltas ≤ r.byte_limit

small_nil : (limit : ℕ) → base_overhead ≤ limit → transcript_deltas_query_bytes [] ≤ limit
unfolding transcript_deltas_query_bytes deltas_bytes
small_nil limit h = omega (arith, h)

sized-Answers :
    (log : Log) (s : ChatState) (after limit : ℕ) (ds : Log)
    → base_overhead ≤ limit
    → ds ≡ newer after log
    → Answers log s after (sized_result s after limit ds)
unfolding sized_result
sized-Answers log s after limit ds h e =
    elim (Bool-cases (ltb limit (transcript_deltas_query_bytes ds))) [
      | inl big ↦
          rw big (record { up_to = refl; complete = inl (refl, refl); small = small_nil limit h })
      | inr fits ↦
          rw fits (record { up_to = refl; complete = inr (refl, e); small = ground (arith, fits) })
    ]

buffered-Answers :
    (log : Log) (s : ChatState) (after limit n : ℕ) (ds : Log)
    → base_overhead ≤ limit
    → Increasing 0 log
    → ds ≡ drop n log
    → Answers log s after (buffered_result s after limit ds)
unfolding buffered_result
buffered-Answers log s after limit n [] h i e = record {
  up_to = refl;
  complete = inl (refl, refl);
  small = small_nil limit h;
}
buffered-Answers log s after limit n (d ∷ ds) h i e =
    elim (Bool-cases (ltb after (d.revision - 1))) [
      | inl old ↦
          rw old (record { up_to = refl; complete = inl (refl, refl); small = small_nil limit h })
      | inr reached ↦ rw reached (
          sized-Answers log s after limit (newer after (d ∷ ds)) h
            (sym (newer-drop after 0 n log d ds i (sym e) (ground (arith, reached)))))
    ]

pub bounded_by :
    (low high : ℕ) (log : Log)
    → low ≤ high
    → All (λ d. d.revision ≤ low) log
    → All (λ d. d.revision ≤ high) log
bounded_by low high [] h b = tt
bounded_by low high (d ∷ ds) h b = (omega (arith, h, b.0), bounded_by low high ds h b.1)

-- For a state whose buffer ends the log, each answer to a client either asks it to take a snapshot or
-- holds exactly the changes of the whole log that are newer than the client's revision, in order;
-- and the deltas of an answer fit its byte limit.
pub transcript_deltas_since-Answers :
    (log : Log) (s : ChatState) (after max_bytes : ℤ)
    → Logged log s
    → Answers log s (pos_part after) (transcript_deltas_since s after max_bytes)
unfolding transcript_deltas_since
transcript_deltas_since-Answers log s after max_bytes h =
    let a = pos_part after in
    let limit = transcript_byte_limit max_bytes in
    elim (Bool-cases (leb s.transcript_revision a)) [
      | inl e ↦ rw e (record {
        up_to = refl;
        complete = inr (
          refl,
          sym (newer_none a log (bounded_by s.transcript_revision a log (leb→le _ _ e) h.bounded)),
        );
        small = small_nil limit (base_within_limit max_bytes);
      })
      | inr e ↦ rw e (
          buffered-Answers log s a limit h.dropped s.transcript_deltas (base_within_limit max_bytes)
            h.increasing h.suffix)
    ]
