-- ===== src/Context/Fit.antt =====
-- _fit_messages_to_token_budget of agent_harness/sliding_window_context_manager.py.
use temporal_agent_harness_e.Prelude.{
  ℕ, zero, suc, ◌<◌, ◌≤◌, arith, length, ◌≡◌, refl, ap, ◌∙◌, ◌⊎◌, inl, inr, Bool, true, false, none,
  List, [], ◌∷◌, ◌++◌, if◌then◌else◌, Bool-cases, drop, All, All-append, All-drop,
}
use temporal_agent_harness_e.Prelude.Outcome.{Outcome, ok, ◌>>=◌}
use temporal_agent_harness_e.Messages.{Message, AllNormal}
use temporal_agent_harness_e.Context.{shapes, IsPaired}
use temporal_agent_harness_e.Context.Shrink.{tool_results, texts, shrink_round, truncate_to_budget}
use temporal_agent_harness_e.Context.Same.{
  SameMessages, SameMessages-refl, SameMessages-trans, shapes-same, AllNormal-same,
}
use temporal_agent_harness_e.Context.Shrink.Shorter.{
  ShorterMessages, ShorterMessages-refl, ShorterMessages-trans,
}
use temporal_agent_harness_e.Context.Budget.{ContextTokenBudget, fits}
use temporal_agent_harness_e.Context.Shrink.Loop.{truncate_to_budget-Truncated}
use temporal_agent_harness_e.Context.Groups.{
  message_groups, flatten_message_groups, flatten-message_groups, message_groups-AllPaired,
  message_groups-AllNormal, flatten-AllNormal, flatten-IsPaired,
}

abbrev Groups : Type 0
Groups = List (List Message)

-- The first group stays out of the loop that drops groups, when the first message is preserved.
unfoldable pub kept_prefix : Bool → Groups → Groups
kept_prefix true (g ∷ gs) = g ∷ []
kept_prefix _ _ = []

unfoldable pub droppable : Bool → Groups → Groups
droppable true (g ∷ gs) = gs
droppable true [] = []
droppable false gs = gs

-- The loop ends with a candidate that fits, or with one group at most.
pub data Shed : Type 0 where
  candidate : List Message → Shed
  remaining : Groups → Shed

unfoldable pub shed_groups : Groups → Groups → ContextTokenBudget → Shed
shed_groups prefix [] b = remaining []
shed_groups prefix (g ∷ []) b = remaining (g ∷ [])
shed_groups prefix (g ∷ h ∷ rest) b =
    let shorter = shed_groups prefix (h ∷ rest) b in
    let whole = flatten_message_groups (prefix ++ g ∷ h ∷ rest) in
    if fits whole b then candidate whole else shorter

truncate_rest : List Message → ContextTokenBudget → Outcome (List Message)
truncate_rest ms b = do
  compacted ← truncate_to_budget tool_results ms b
  if fits compacted b then ok compacted else truncate_to_budget texts compacted b

finish : Groups → ContextTokenBudget → Shed → Outcome (List Message)
unfolding truncate_rest
finish prefix b (candidate ms) = ok ms
finish prefix b (remaining gs) = truncate_rest (flatten_message_groups (prefix ++ gs)) b

unfoldable pub fit_messages_to_token_budget :
    List Message → ContextTokenBudget → Bool → Outcome (List Message)
unfolding finish
fit_messages_to_token_budget ms b preserve =
    let groups = message_groups ms in
    let prefix = kept_prefix preserve groups in
    if fits ms b then ok ms else finish prefix b (shed_groups prefix (droppable preserve groups) b)

prefix_droppable :
    (preserve : Bool) (gs : Groups) → kept_prefix preserve gs ++ droppable preserve gs ≡ gs
unfolding kept_prefix droppable
prefix_droppable true [] = refl
prefix_droppable true (g ∷ gs) = refl
prefix_droppable false gs = refl

-- The result fits, or the last loop has shortened what it could.
abbrev pub Bounded : ContextTokenBudget → List Message → Type 0
Bounded b out = (fits out b ≡ true) ⊎ (shrink_round texts b (ok out) ≡ none)

-- A result for the messages `base`: shortened copies of them, in their order.
pub record ShortOf (b : ContextTokenBudget) (base : List Message) (r : Outcome (List Message))
    : Type 0 where
  pub result : List Message
  pub returned : r ≡ ok result
  pub same : SameMessages base result
  pub shorter : ShorterMessages base result
  pub bounded : Bounded b result

truncate_rest-ShortOf :
    (b : ContextTokenBudget) (ms : List Message) → AllNormal ms → ShortOf b ms (truncate_rest ms b)
unfolding truncate_rest
truncate_rest-ShortOf b ms h =
    let t = truncate_to_budget-Truncated tool_results b ms h in
    let u = truncate_to_budget-Truncated texts b t.result (AllNormal-same t.same h) in
    rw t.returned (elim (Bool-cases (fits t.result b)) [
      | inl e ↦ rw e (record {
        result = t.result;
        returned = refl;
        same = t.same;
        shorter = t.shorter;
        bounded = inl e;
      })
      | inr e ↦ rw e (record {
        result = u.result;
        returned = u.returned;
        same = SameMessages-trans t.same u.same;
        shorter = ShorterMessages-trans ms t.result u.result t.shorter u.shorter;
        bounded = inr u.ended;
      })
    ])

-- What every group has, the prefix and the droppable groups have.
parts_All {κ} :
    (P : List Message → Type κ) (preserve : Bool) (gs : Groups)
    → All P gs
    → All P (kept_prefix preserve gs) × All P (droppable preserve gs)
unfolding kept_prefix droppable
parts_All P true [] h = (tt, tt)
parts_All P true (g ∷ gs) h = ((h.0, tt), h.1)
parts_All P false gs h = (tt, h)

-- Messages that fit are left as they are.
whole_ShortOf :
    (b : ContextTokenBudget) (ms : List Message)
    → fits ms b ≡ true
    → (s : ShortOf b ms (ok ms)) × (s.result ≡ ms) × (fits s.result b ≡ true)
whole_ShortOf b ms e = (
  record {
    result = ms;
    returned = refl;
    same = SameMessages-refl ms;
    shorter = ShorterMessages-refl ms;
    bounded = inl e;
  },
  refl,
  e,
)

later_needed :
    (b : ContextTokenBudget) (prefix : Groups) (g : List Message) (gs : Groups) (n : ℕ)
    → fits (flatten_message_groups (prefix ++ g ∷ gs)) b ≡ false
    → ((k : ℕ) → k < n → fits (flatten_message_groups (prefix ++ drop k gs)) b ≡ false)
    → (k : ℕ) → k < suc n
    → fits (flatten_message_groups (prefix ++ drop k (g ∷ gs))) b ≡ false
later_needed b prefix g gs n first others zero lt = first
later_needed b prefix g gs n first others (suc k) lt = others k (omega (arith, lt))

-- What the loop over the groups leaves: the prefix and all but the first `n` of the other groups. It
-- drops a group only while the rest does not fit, and shortens only where one group at most is left.
record ShedOf (b : ContextTokenBudget) (prefix gs : Groups) (r : Outcome (List Message))
    : Type 0 where
  n : ℕ
  short : ShortOf b (flatten_message_groups (prefix ++ drop n gs)) r
  needed : (k : ℕ) → k < n → fits (flatten_message_groups (prefix ++ drop k gs)) b ≡ false
  enough :
      ((short.result ≡ flatten_message_groups (prefix ++ drop n gs)) × (fits short.result b ≡ true))
      ⊎ (length (drop n gs) ≤ 1)

shed_groups-ShedOf :
    (b : ContextTokenBudget) (prefix gs : Groups)
    → All AllNormal prefix
    → All AllNormal gs
    → ShedOf b prefix gs (finish prefix b (shed_groups prefix gs b))
unfolding finish shed_groups
shed_groups-ShedOf b prefix [] hp h = record {
  n = 0;
  short = truncate_rest-ShortOf b _ (flatten-AllNormal _ (All-append AllNormal prefix [] hp h));
  needed = λ k lt. absurd (omega (arith, lt));
  enough = inr (omega arith);
}
shed_groups-ShedOf b prefix (g ∷ []) hp h = record {
  n = 0;
  short =
      truncate_rest-ShortOf b _ (flatten-AllNormal _ (All-append AllNormal prefix (g ∷ []) hp h));
  needed = λ k lt. absurd (omega (arith, lt));
  enough = inr (omega arith);
}
shed_groups-ShedOf b prefix (g ∷ h ∷ rest) hp normal =
    let whole = flatten_message_groups (prefix ++ g ∷ h ∷ rest) in
    let s = shed_groups-ShedOf b prefix (h ∷ rest) hp normal.1 in
    elim (Bool-cases (fits whole b)) [
      | inl e ↦
          let (short, kept, fitting) = whole_ShortOf b whole e in
          rw e (record {
            n = 0;
            short = short;
            needed = λ k lt. absurd (omega (arith, lt));
            enough = inl (kept, fitting);
          })
      | inr e ↦ rw e (record {
        n = suc s.n;
        short = s.short;
        needed = later_needed b prefix g (h ∷ rest) s.n e s.needed;
        enough = s.enough;
      })
    ]

-- The messages that a fit keeps: the prefix and all but the first `n` of the other groups.
abbrev pub kept_messages : Bool → List Message → ℕ → List Message
kept_messages preserve ms n =
    flatten_message_groups
      (kept_prefix preserve (message_groups ms) ++ drop n (droppable preserve (message_groups ms)))

kept_messages-zero : (preserve : Bool) (ms : List Message) → kept_messages preserve ms 0 ≡ ms
kept_messages-zero preserve ms =
    ap flatten_message_groups (prefix_droppable preserve (message_groups ms))
    ∙ flatten-message_groups ms

-- A fit that drops `n` groups: no fewer would do, and no content is touched unless one group at most is
-- left to drop.
pub record FitOf (b : ContextTokenBudget) (preserve : Bool) (ms : List Message)
    (r : Outcome (List Message)) : Type 0 where
  pub n : ℕ
  pub short : ShortOf b (kept_messages preserve ms n) r
  pub needed : (k : ℕ) → k < n → fits (kept_messages preserve ms k) b ≡ false
  pub enough :
      ((short.result ≡ kept_messages preserve ms n) × (fits short.result b ≡ true))
      ⊎ (length (drop n (droppable preserve (message_groups ms))) ≤ 1)

fit_whole :
    (b : ContextTokenBudget) (preserve : Bool) (ms base : List Message)
    → base ≡ ms
    → fits ms b ≡ true
    → (s : ShortOf b base (ok ms)) × (s.result ≡ base) × (fits s.result b ≡ true)
fit_whole b preserve ms base same e = rw same (whole_ShortOf b ms e)

-- Fitting a stored conversation into a budget always returns. The result is the first group, when it
-- is preserved, and a final run of the other groups, in order. No longer run fits: each one makes the
-- estimate exceed the budget. The messages are as they were stored and fit, unless at most one of the
-- other groups is left: then each text of a content is kept or a shorter one stands in its place, no
-- other value of a block changes, and the result fits, unless the last loop found nothing to shorten.
pub fit-ShortOf :
    (b : ContextTokenBudget) (preserve : Bool) (ms : List Message)
    → AllNormal ms
    → FitOf b preserve ms (fit_messages_to_token_budget ms b preserve)
unfolding fit_messages_to_token_budget
fit-ShortOf b preserve ms h =
    let (hp, hd) =
      parts_All AllNormal preserve (message_groups ms) (message_groups-AllNormal ms h) in
    let s =
      shed_groups-ShedOf b (kept_prefix preserve (message_groups ms))
        (droppable preserve (message_groups ms)) hp hd in
    elim (Bool-cases (fits ms b)) [
      | inl e ↦
          let (short, kept, fitting) =
            fit_whole b preserve ms (kept_messages preserve ms 0) (kept_messages-zero preserve ms)
              e in
          rw e (record {
            n = 0;
            short = short;
            needed = λ k lt. absurd (omega (arith, lt));
            enough = inl (kept, fitting);
          })
      | inr e ↦ rw e (record { n = s.n; short = s.short; needed = s.needed; enough = s.enough })
    ]

kept_messages-IsPaired :
    (preserve : Bool) (ms : List Message) (n : ℕ)
    → IsPaired (shapes ms)
    → IsPaired (shapes (kept_messages preserve ms n))
kept_messages-IsPaired preserve ms n p =
    let (hp, hd) =
      parts_All (λ g. IsPaired (shapes g)) preserve (message_groups ms)
        (message_groups-AllPaired ms p) in
    flatten-IsPaired _ (
      All-append (λ g. IsPaired (shapes g)) (kept_prefix preserve (message_groups ms)) _ hp
        (All-drop (λ g. IsPaired (shapes g)) n _ hd))

-- Fitting never tears a tool call from its result.
pub fit-IsPaired :
    (b : ContextTokenBudget) (preserve : Bool) (ms out : List Message)
    → AllNormal ms
    → IsPaired (shapes ms)
    → fit_messages_to_token_budget ms b preserve ≡ ok out
    → IsPaired (shapes out)
fit-IsPaired b preserve ms out h p e =
    let f = fit-ShortOf b preserve ms h in
    let same : f.short.result ≡ out = cc (f.short.returned) in
    rw (← same, shapes-same f.short.same) (kept_messages-IsPaired preserve ms f.n p)
