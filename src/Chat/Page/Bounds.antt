-- ===== src/Chat/Page/Bounds.antt =====
-- What a page of simple_chat_agent/worker/workflow.py shows of the transcript.
use temporal_agent_harness_e.Prelude.{
  ℕ, zero, suc, ◌+◌, ◌-◌, ◌≤◌, ◌<◌, min, ◌≡◌, refl, sym, ap, ◌∙◌, ◌⊎◌, inl, inr, Option, none, some,
  List, [], ◌∷◌, arith, leb, Bool-cases, Option-cases, length, get_elem?, leb→le, leb_false→lt,
  is_empty, nil_of_empty,
}
use temporal_agent_harness_e.Prelude.Int.{ℤ}
use temporal_agent_harness_e.Chat.{ChatMessage, ChatState, rendered_transcript}
use temporal_agent_harness_e.Chat.Bytes.{
  base_overhead, transcript_byte_limit, chat_message_query_bytes, base_within_limit,
}
use temporal_agent_harness_e.Chat.Page.{
  TranscriptPage, Loop, overflow, prepend, page_loop, page_limit, page_end, first_loop,
  transcript_page, messages_bytes, slice, slice-extend, slice-nil, get_elem-within, Whole, Cut,
}

slice-empty :
    (t : List ChatMessage) (i end : ℕ) → slice t i end ≡ [] → i ≤ end → end ≤ length t → i ≡ end
slice-empty [] i end e le h = omega (arith, le, h)
slice-empty (y ∷ t) zero zero e le h = refl
slice-empty (y ∷ t) zero (suc end) e le h = cc
slice-empty (y ∷ t) (suc i) zero e le h = absurd (omega (arith, le))
slice-empty (y ∷ t) (suc i) (suc end) e le h =
    ap suc (slice-empty t i end e (omega (arith, le)) (omega (arith, h)))

-- The loop with `n` messages to go.
record Going (t : List ChatMessage) (byte_limit lower end n : ℕ) (l : Loop) : Type 0 where
  at : l.start ≡ lower + n
  shown : l.messages ≡ slice t (lower + n) end
  high : lower + n ≤ end
  bytes : l.estimated_bytes ≡ base_overhead + messages_bytes l.messages
  fits : l.estimated_bytes ≤ byte_limit

module _ (t : List ChatMessage) (byte_limit lower end : ℕ) (within : end ≤ length t) where
  prepend-Going :
      (n : ℕ) (l : Loop) (m : ChatMessage)
      → get_elem? t (lower + n) ≡ some m
      → l.estimated_bytes + chat_message_query_bytes m ≤ byte_limit
      → Going t byte_limit lower end (suc n) l
      → Going t byte_limit lower end n (prepend (lower + n) m l)
  unfolding prepend
  prepend-Going n l m found fits g =
      let step : lower + suc n ≡ suc (lower + n) = omega arith in
      record {
        at = refl;
        shown =
            ap (◌∷◌ m) (g.shown ∙ ap (λ i. slice t i end) step)
            ∙ sym (slice-extend t (lower + n) end m found (omega (arith, g.high)));
        high = omega (arith, g.high);
        bytes = omega (arith, g.bytes);
        fits = fits;
      }

  overflow-Page :
      (n : ℕ) (l : Loop) (m : ChatMessage)
      → get_elem? t (lower + n) ≡ some m
      → byte_limit < l.estimated_bytes + chat_message_query_bytes m
      → Going t byte_limit lower end (suc n) l
      → Whole t byte_limit lower end (overflow byte_limit (lower + n) m l)
        ⊎ Cut t byte_limit lower end (overflow byte_limit (lower + n) m l)
  unfolding overflow
  overflow-Page n l m found big g = elim (Bool-cases (is_empty l.messages)) [
    | inl e ↦
        let none_yet = nil_of_empty l.messages e in
        let all_left = slice-empty t (lower + suc n) end (sym g.shown ∙ none_yet) g.high within in
        let base : l.estimated_bytes ≡ base_overhead = rw (g.bytes, none_yet) (omega arith) in
        inr (
          rw e (record {
            last = m;
            is_last = found;
            before_end = omega (arith, all_left);
            low = omega arith;
            too_big = omega (arith, big, base);
            limited = refl;
            shown = rw base refl;
          }))
    | inr e ↦ inl (
        rw e (record {
          shown = g.shown ∙ ap (λ i. slice t i end) (sym g.at);
          low = omega (arith, g.at);
          high = omega (arith, g.at, g.high);
          bytes = g.bytes;
          fits = g.fits;
          reached = inr refl;
        }))
  ]

  loop-Page :
      (n : ℕ) (l : Loop)
      → Going t byte_limit lower end n l
      → Whole t byte_limit lower end (page_loop t byte_limit lower n l)
        ⊎ Cut t byte_limit lower end (page_loop t byte_limit lower n l)
  unfolding page_loop
  loop-Page zero l g = inl (record {
    shown = g.shown ∙ ap (λ i. slice t i end) (sym g.at);
    low = omega (arith, g.at);
    high = omega (arith, g.at, g.high);
    bytes = g.bytes;
    fits = g.fits;
    reached = inl (omega (arith, g.at));
  })
  loop-Page (suc n) l g = elim (Option-cases (get_elem? t (lower + n))) [
    | inl missing ↦ absurd (get_elem-within t (lower + n) missing (omega (arith, g.high, within)))
    | inr (m, found) ↦
        elim (Bool-cases (leb (l.estimated_bytes + chat_message_query_bytes m) byte_limit)) [
          | inl e ↦
              rw (page_loop, found, e)
                (loop-Page n (prepend (lower + n) m l) (prepend-Going n l m found (leb→le _ _ e) g))
          | inr e ↦ rw (page_loop, found, e) (overflow-Page n l m found (leb_false→lt _ _ e) g)
        ]
  ]

end_within : (before : Option ℤ) (total : ℕ) → page_end before total ≤ total
unfolding page_end
end_within none total = omega arith
end_within (some before) total = omega arith

back : (end n : ℕ) → end - n + (end - (end - n)) ≡ end
back end n = omega arith

-- The loop that a page comes from.
abbrev pub loop_of : TranscriptPage → ℕ → Loop
loop_of p bytes = record {
  messages = p.messages;
  estimated_bytes = bytes;
  start = p.start;
  limited = p.limited;
}

-- A page of the transcript that users see is in one of two forms. Either it is a run of whole
-- messages up to its end, whose bytes fit the limit, and which reaches back as far as the number of
-- messages asked for unless it is marked as limited; or it is marked as limited and is the one message
-- before its end, cut because it does not fit alone.
pub transcript_page-Page :
    (s : ChatState) (before : Option ℤ) (limit max_bytes : ℤ)
    → (bytes : ℕ) × (Whole
          (rendered_transcript s)
          (transcript_byte_limit max_bytes)
          (page_end before (length (rendered_transcript s)) - page_limit limit)
          (page_end before (length (rendered_transcript s)))
          (loop_of (transcript_page s before limit max_bytes) bytes)
        ⊎ Cut
            (rendered_transcript s)
            (transcript_byte_limit max_bytes)
            (page_end before (length (rendered_transcript s)) - page_limit limit)
            (page_end before (length (rendered_transcript s)))
            (loop_of (transcript_page s before limit max_bytes) bytes))
      × ((transcript_page s before limit max_bytes).estimated_bytes
          ≡ min bytes (transcript_byte_limit max_bytes))
unfolding transcript_page
transcript_page-Page s before limit max_bytes =
    let t = rendered_transcript s in
    let byte_limit = transcript_byte_limit max_bytes in
    let end = page_end before (length t) in
    let lower = end - page_limit limit in
    let l = page_loop t byte_limit lower (end - lower) (first_loop end) in
    (
      l.estimated_bytes,
      loop-Page t byte_limit lower end (end_within before (length t)) (end - lower) (first_loop end)
          (record {
            at = omega arith;
            shown = sym (ap (λ i. slice t i end) (back end (page_limit limit)) ∙ slice-nil t end);
            high = omega arith;
            bytes = omega arith;
            fits = base_within_limit max_bytes;
          }),
      refl,
    )
