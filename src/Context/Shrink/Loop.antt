-- ===== src/Context/Shrink/Loop.antt =====
-- The truncating loops end by their own exits, never raise, and keep every tool call and result.
use temporal_agent_harness_e.Prelude.{
  ℕ, suc, ◌≤◌, ◌<◌, String, ◌≡◌, refl, inl, inr, Option, none, some, List, arith, Bool-cases,
}
use temporal_agent_harness_e.Prelude.Text.{text_length}
use temporal_agent_harness_e.Prelude.Outcome.{Outcome, ok, raise}
use temporal_agent_harness_e.Prelude.Loops.{iterate, iterate_inv, iterate_ends}
use temporal_agent_harness_e.Messages.{Message, AllNormal}
use temporal_agent_harness_e.Messages.Snapshots.{normalize_messages_lem}
use temporal_agent_harness_e.Context.Shrink.{
  Kind, Location, largest_location, replace_at, shrink_round, weight, truncate_to_budget,
}
use temporal_agent_harness_e.Context.Same.{SameMessages, SameMessages-refl, SameMessages-trans}
use temporal_agent_harness_e.Context.Budget.{ContextTokenBudget, fits}
use temporal_agent_harness_e.Context.Shrink.Shorter.{
  ShorterMessages, ShorterMessages-refl, ShorterMessages-trans,
}
use temporal_agent_harness_e.Context.Shrink.Located.{largest_location-Found}
use temporal_agent_harness_e.Context.Shrink.Keeps.{Replaced, replace_at-Replaced}
use temporal_agent_harness_e.Context.Shrink.{shorten, replacement}

-- The round that was made: the largest content, and the shorter text in its place.
record Round (k : Kind) (ms : List Message) (r : Outcome (List Message)) : Type 0 where
  place : Location
  new_text : String
  largest : largest_location k ms ≡ some place
  shorter : text_length new_text < text_length place.original
  made : r ≡ replace_at ms place new_text

module _ (k : Kind) (b : ContextTokenBudget) where
  replacement-Round :
      (ms : List Message) (l : Location) (t : String) (r : Outcome (List Message))
      → largest_location k ms ≡ some l
      → replacement ms l t ≡ some r
      → Round k ms r
  unfolding replacement
  replacement-Round ms l t r found h = record {
    place = l;
    new_text = t;
    largest = found;
    shorter = ground arith;
    made = ground arith;
  }

  shorten-Round :
      (ms : List Message) (o : Option Location) (r : Outcome (List Message))
      → largest_location k ms ≡ o
      → shorten k b ms o ≡ some r
      → Round k ms r
  unfolding shorten
  shorten-Round ms none r found h = cc
  shorten-Round ms (some l) r found h = replacement-Round ms l _ r found h

  shrink_round-Round :
      (ms : List Message) (r : Outcome (List Message))
      → shrink_round k b (ok ms) ≡ some r
      → Round k ms r
  unfolding shrink_round
  shrink_round-Round ms r h = elim (Bool-cases (fits ms b)) [
    | inl e ↦ let impossible : none ≡ some r = rw e at h in cc
    | inr e ↦ shorten-Round ms (largest_location k ms) r refl (rw e at h)
  ]

  Round-Replaced :
      (ms : List Message) (r : Outcome (List Message)) (d : Round k ms r)
      → Replaced k ms d.place d.new_text r
  Round-Replaced ms r d =
      rw d.made (
        replace_at-Replaced k ms d.place d.new_text (largest_location-Found k ms d.place d.largest))

  outcome_weight : Outcome (List Message) → ℕ
  outcome_weight (ok ms) = weight k ms
  outcome_weight (raise e) = 0

  shrink_round-lowers :
      (s t : Outcome (List Message))
      → shrink_round k b s ≡ some t
      → outcome_weight t < outcome_weight s
  unfolding outcome_weight
  shrink_round-lowers (ok ms) t h =
      let d = shrink_round-Round ms t h in
      let r = Round-Replaced ms t d in rw r.returned (omega (arith, r.weighed, d.shorter))
  shrink_round-lowers (raise e) t h = unfold shrink_round in cc h

  -- What a loop that began with `start` holds after any number of rounds.
  abbrev Shrunk : List Message → Outcome (List Message) → Type 0
  Shrunk start (ok ms) =
      SameMessages start ms × (weight k ms ≤ weight k start) × ShorterMessages start ms
  Shrunk start (raise e) = ⊥

  shrink_round-Shrunk :
      (start : List Message) (s t : Outcome (List Message))
      → shrink_round k b s ≡ some t
      → Shrunk start s
      → Shrunk start t
  shrink_round-Shrunk start (ok ms) t h (same, lighter, shorter) =
      let d = shrink_round-Round ms t h in
      let r = Round-Replaced ms t d in
      rw r.returned (
        SameMessages-trans same r.same,
        omega (arith, r.weighed, d.shorter),
        ShorterMessages-trans start ms r.result shorter (r.shorter d.shorter),
      )
  shrink_round-Shrunk start (raise e) t h s = absurd s

  loop-Shrunk :
      (ms : List Message) → Shrunk ms (iterate (shrink_round k b) (suc (weight k ms)) (ok ms))
  loop-Shrunk ms =
      iterate_inv (shrink_round k b) (Shrunk ms) (shrink_round-Shrunk ms) (suc (weight k ms))
        (ok ms) (SameMessages-refl ms, omega arith, ShorterMessages-refl ms)

  loop-ends :
      (ms : List Message)
      → shrink_round k b (iterate (shrink_round k b) (suc (weight k ms)) (ok ms)) ≡ none
  loop-ends ms =
      iterate_ends (shrink_round k b) outcome_weight shrink_round-lowers (suc (weight k ms)) (ok ms)
        (unfold outcome_weight in omega arith)

  -- The result of a loop: the same exchanges, no more text, and no round is left to make.
  pub record Truncated (ms : List Message) (r : Outcome (List Message)) : Type 0 where
    pub result : List Message
    pub returned : r ≡ ok result
    pub same : SameMessages ms result
    pub lighter : weight k result ≤ weight k ms
    pub shorter : ShorterMessages ms result
    pub ended : shrink_round k b (ok result) ≡ none

  Truncated-Shrunk :
      (ms : List Message) (r : Outcome (List Message))
      → Shrunk ms r
      → shrink_round k b r ≡ none
      → Truncated ms r
  Truncated-Shrunk ms (ok out) (same, lighter, shorter) e = record {
    result = out;
    returned = refl;
    same = same;
    lighter = lighter;
    shorter = shorter;
    ended = e;
  }
  Truncated-Shrunk ms (raise f) s e = absurd s

-- On any stored conversation both loops return, after as many rounds as they need: they leave every
-- message its role, its tool calls and its results, keep each text or put a shorter one in its place,
-- make the content that they shorten no longer in all, and stop only where the source's loop does.
pub truncate_to_budget-Truncated :
    (k : Kind) (b : ContextTokenBudget) (ms : List Message)
    → AllNormal ms
    → Truncated k b ms (truncate_to_budget k ms b)
unfolding truncate_to_budget
truncate_to_budget-Truncated k b ms h =
    rw (normalize_messages_lem ms h)
      (Truncated-Shrunk k b ms _ (loop-Shrunk k b ms) (loop-ends k b ms))
