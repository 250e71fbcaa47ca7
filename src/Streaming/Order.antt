-- ===== src/Streaming/Order.antt =====
-- The numbers that the events of agent_harness/streaming.py carry.
use temporal_agent_harness_e.Prelude.{
  ℕ, zero, suc, ◌+◌, ◌≤◌, ◌<◌, String, ◌≡◌, ◌↔◌, ◌⊎◌, Bool, true, Option, some, List, [], ◌∷◌, ◌++◌,
  take, arith, length, map,
}
use temporal_agent_harness_e.Prelude.Outcome.{Fault, Outcome, ok, raise}
use temporal_agent_harness_e.Streaming.{
  StreamEvent, AgentStreamWriter, AgentEvent, attempt_number, attempt_or_one, emit_agent_event,
  swallow,
}

-- n + 1, ..., n + k
unfoldable pub count_from : ℕ → ℕ → List ℕ
count_from n zero = []
count_from n (suc k) = suc n ∷ count_from (suc n) k

abbrev pub sequences : List StreamEvent → List ℕ
sequences = map (λ e. e.sequence)

abbrev pub kinds : List StreamEvent → List String
kinds = map (λ e. e.kind)

abbrev proceed :
    (AgentStreamWriter → Outcome (Unit {0}) × AgentStreamWriter)
    → Outcome (Unit {0}) × AgentStreamWriter
    → Outcome (Unit {0}) × AgentStreamWriter
proceed next (ok u, w) = next w
proceed next (raise f, w) = (raise f, w)

module _ (sink : Option (StreamEvent → Outcome (Unit {0}))) (raise_stream_errors : Bool)
    (activity_attempt : Option ℕ) where
  -- A caller that awaits one emission after the other: an exception ends it.
  unfoldable pub emit_in_turn :
      List AgentEvent → AgentStreamWriter → Outcome (Unit {0}) × AgentStreamWriter
  emit_in_turn [] w = (ok tt, w)
  emit_in_turn ((kind, payload) ∷ rest) w =
      proceed (emit_in_turn rest)
        (emit_agent_event sink raise_stream_errors activity_attempt w kind payload)

attempt_or_one_lem : (a : ℕ) → 1 ≤ a → attempt_or_one (some a) ≡ a
unfolding attempt_or_one
attempt_or_one_lem a h = ground arith

-- The attempts of a call are shown in their order, the retries of the request first and those of the
-- activity after them, as long as an activity has at most 1000 attempts.
pub attempt_number_iff :
    (s t a b : ℕ)
    → 1 ≤ a
    → a ≤ 1000
    → 1 ≤ b
    → b ≤ 1000
    → (attempt_number s (some a) < attempt_number t (some b)) ↔ (s < t ⊎ ((s ≡ t) × (a < b)))
unfolding attempt_number
attempt_number_iff s t a b la ha lb hb =
    rw (attempt_or_one_lem a la, attempt_or_one_lem b lb) (ground arith)

-- The last event that the sink was given, which it refused.
pub record RefusedLast (receive : StreamEvent → Outcome (Unit {0})) (sent : List StreamEvent)
    (f : Fault) : Type 0 where
  pub before : List StreamEvent
  pub last : StreamEvent
  pub sent_eq : sent ≡ before ++ last ∷ []
  pub refused : receive last ≡ raise f

-- What a caller has given the sink, from `w` to `end`, and how many events.
pub record Emitted (receive : StreamEvent → Outcome (Unit {0})) (raises : Bool)
    (events : List AgentEvent) (w : AgentStreamWriter)
    (end : Outcome (Unit {0}) × AgentStreamWriter) : Type 0 where
  pub count : ℕ
  pub numbers :
      sequences end.1.stream.sent ≡ sequences w.stream.sent ++ count_from w.stream.sequence count
  pub in_order : kinds end.1.stream.sent ≡ kinds w.stream.sent ++ map (λ e. e.0) (take count events)
  pub next_number : end.1.stream.sequence ≡ count + w.stream.sequence
  pub ended :
      ((end.0 ≡ ok tt) × (count ≡ length events))
      ⊎ ((raises ≡ true)
          × (f : Fault) × (end.0 ≡ raise f)
          × RefusedLast receive end.1.stream.sent f)

module _ (receive : StreamEvent → Outcome (Unit {0})) (activity_attempt : Option ℕ) where
  abbrev emitted :
      Bool → List AgentEvent → AgentStreamWriter → Outcome (Unit {0}) × AgentStreamWriter
  emitted raises = emit_in_turn (some receive) raises activity_attempt

  -- What emitting one event does to the writer and to the sink.
  record OneEvent (raises : Bool) (kind : String) (w : AgentStreamWriter)
      (p : Outcome (Unit {0}) × AgentStreamWriter) : Type 0 where
    event : StreamEvent
    event_kind : event.kind ≡ kind
    event_number : event.sequence ≡ suc w.stream.sequence
    given : p.1.stream.sent ≡ w.stream.sent ++ event ∷ []
    number : p.1.stream.sequence ≡ suc w.stream.sequence
    answer : p.0 ≡ swallow raises (receive event)
