-- ===== src/Chat/Deltas/Growth.antt =====
-- The buffer of simple_chat_agent/worker/workflow.py stays the end of a log that only grows.
use temporal_agent_harness_e.Prelude.{
  ℕ, String, zero, suc, ◌-◌, ◌≤◌, ◌≡◌, refl, sym, ◌∙◌, inl, inr, Option, none, some, List, [], ◌∷◌,
  ◌++◌, map, map-append, subst, ap, append-nil, append_assoc, arith, ltb, Bool-cases, length, drop,
  All, All-append,
}
use temporal_agent_harness_e.Chat.{
  ChatMessage, TranscriptDelta, ChatState, last_of, record_transcript_change, record_system_message,
  record_state_change, transcript_delta_buffer_limit, rendered_transcript, system_message,
  next_transcript_index,
}
use temporal_agent_harness_e.Chat.Deltas.{Log, Logged, Increasing, nil, cons, bounded_by}

-- A change without its revision: an index of the transcript and the message that stands there.
abbrev pub Told : Type 0
Told = List (ℕ × ChatMessage)

abbrev pub told : Log → Told
told = map (λ d. (d.index, d.message))

-- From `s` to `t` the log of `s` only got longer, by changes as `P` has them.
pub record Grows (P : Told → Type 0) (s t : ChatState) : Type 0 where
  pub at : (log : Log) → Logged log s → (new : Log) × Logged (log ++ new) t × P (told new)

abbrev pub Quiet : Told → Type 0
Quiet l = l ≡ []

-- The one message `m`, at the index `i`.
abbrev pub Shown : ℕ → ChatMessage → Told → Type 0
Shown i m l = l ≡ (i, m) ∷ []

pub Grows-weaken :
    {P R : Told → Type 0} (s t : ChatState) → ((l : Told) → P l → R l) → Grows P s t → Grows R s t
Grows-weaken s t f g = record {
  at = λ log h. let (new, k, p) = g.at log h in (new, k, f (told new) p);
}

pub Grows-same :
    (s t : ChatState)
    → t.transcript_deltas ≡ s.transcript_deltas
    → t.transcript_revision ≡ s.transcript_revision
    → Grows Quiet s t
Grows-same s t same_deltas same_revision = record {
  at = λ log h. (
    [],
    rw append-nil (record {
      dropped = h.dropped;
      suffix = same_deltas ∙ h.suffix;
      increasing = h.increasing;
      bounded = rw same_revision h.bounded;
    }),
    refl,
  );
}

-- Changes of the kind `P` and then of the kind `R`.
abbrev pub Then : (Told → Type 0) → (Told → Type 0) → Told → Type 0
Then P R l = (a : Told) × (b : Told) × (l ≡ a ++ b) × P a × R b

pub Grows-trans :
    {P R : Told → Type 0} (s t u : ChatState) → Grows P s t → Grows R t u → Grows (Then P R) s u
Grows-trans s t u a b = record {
  at = λ log h.
      let (new, k, p) = a.at log h in
      let (more, l, r) = b.at (log ++ new) k in
      (
        new ++ more,
        rw (← append_assoc) l,
        (told new, told more, map-append (λ d. (d.index, d.message)) new more, p, r),
      );
}

-- Before changes come no others.
pub Grows-after :
    {R : Told → Type 0} (s t u : ChatState) → Grows Quiet s t → Grows R t u → Grows R s u
Grows-after {R} s t u a b =
    Grows-weaken s u (λ l (x, y, e, p, r). subst R (sym (e ∙ ap (λ z. z ++ y) p)) r)
      (Grows-trans s t u a b)

-- Behind changes come no others.
pub Grows-before :
    {P : Told → Type 0} (s t u : ChatState) → Grows P s t → Grows Quiet t u → Grows P s u
Grows-before {P} s t u a b =
    Grows-weaken s u (λ l (x, y, e, p, r). subst P (sym (e ∙ ap (λ z. x ++ z) r ∙ append-nil x)) p)
      (Grows-trans s t u a b)

module _ {A : Type 0} where
  drop_before : (k : ℕ) (log r : List A) → (j : ℕ) × (drop j (log ++ r) ≡ drop k log ++ r)
  drop_before zero log r = (0, refl)
  drop_before (suc k) [] r = (0, refl)
  drop_before (suc k) (x ∷ log) r = let (j, e) = drop_before k log r in (suc j, e)

  drop_twice : (a b : ℕ) (l : List A) → (j : ℕ) × (drop j l ≡ drop a (drop b l))
  drop_twice a zero l = (a, refl)
  drop_twice zero (suc b) [] = (0, refl)
  drop_twice (suc a) (suc b) [] = (0, refl)
  drop_twice a (suc b) (x ∷ l) = let (j, e) = drop_twice a b l in (suc j, e)

  last_of-drop : (n b : ℕ) (l : List A) → (j : ℕ) × (last_of n (drop b l) ≡ drop j l)
  unfolding last_of
  last_of-drop n b l = elim (Bool-cases (ltb n (length (drop b l)))) [
    | inl e ↦ let (j, h) = drop_twice (length (drop b l) - n) b l in (j, rw e (sym h))
    | inr e ↦ (b, rw e refl)
  ]

Increasing-append :
    (low high : ℕ) (log : Log) (d : TranscriptDelta)
    → Increasing low log
    → All (λ c. c.revision ≤ high) log
    → low ≤ high
    → d.revision ≡ suc high
    → Increasing low (log ++ d ∷ [])
Increasing-append low high _ d nil h le e = cons (omega (arith, le, e)) nil
Increasing-append low high _ d (cons {d = c} {ds = ds} lt i) h le e =
    cons lt (Increasing-append c.revision high ds d i h.1 h.0 e)

Logged-record :
    (log : Log) (s : ChatState) (d : TranscriptDelta)
    → d.revision ≡ suc s.transcript_revision
    → Logged log s
    → Logged (log ++ d ∷ []) (record s {
      transcript_revision = suc s.transcript_revision;
      transcript_deltas = last_of transcript_delta_buffer_limit (s.transcript_deltas ++ d ∷ []);
    })
Logged-record log s d e h =
    let (j, before) = drop_before h.dropped log (d ∷ []) in
    let (n, last) = last_of-drop transcript_delta_buffer_limit j (log ++ d ∷ []) in
    record {
      dropped = n;
      suffix = rw (h.suffix, ← before) last;
      increasing =
          Increasing-append 0 s.transcript_revision log d h.increasing h.bounded (omega arith) e;
      bounded =
          All-append (λ c. c.revision ≤ suc s.transcript_revision) log (d ∷ [])
            (bounded_by s.transcript_revision (suc s.transcript_revision) log (omega arith)
              h.bounded)
            (omega (arith, e), tt);
    }

Logged-bump :
    (log : Log) (s : ChatState)
    → Logged log s
    → Logged log (record s { transcript_revision = suc s.transcript_revision })
Logged-bump log s h = record {
  dropped = h.dropped;
  suffix = h.suffix;
  increasing = h.increasing;
  bounded =
      bounded_by s.transcript_revision (suc s.transcript_revision) log (omega arith) h.bounded;
}

abbrev pub recorded : Option ℕ → Option ChatMessage → Told
recorded (some i) (some m) = (i, m) ∷ []
recorded none m = []
recorded (some i) none = []

pub Grows-record :
    (i : Option ℕ) (m : Option ChatMessage) (s : ChatState)
    → Grows (λ l. l ≡ recorded i m) s (record_transcript_change i m s)
unfolding record_transcript_change
Grows-record none m s = record { at = λ log h. ([], rw append-nil (Logged-bump log s h), refl) }
Grows-record (some i) none s = record {
  at = λ log h. ([], rw append-nil (Logged-bump log s h), refl);
}
Grows-record (some i) (some m) s = record {
  at = λ log h.
      let d : TranscriptDelta = record {
        revision = suc s.transcript_revision;
        index = i;
        message = m;
      } in
      (d ∷ [], Logged-record log s d refl h, refl);
}

pub Grows-system :
    (content : String) (s : ChatState)
    → Grows
        (Shown (length (rendered_transcript s)) (system_message content))
        s
        (record_system_message content s)
unfolding record_system_message next_transcript_index
Grows-system content s = Grows-record _ _ s

pub Grows-state : (s : ChatState) → Grows Quiet s (record_state_change s)
unfolding record_state_change
Grows-state s = Grows-same s _ refl refl
