-- ===== src/Context/View/Compaction.antt =====
-- The marker that a continuation snapshot carries where older messages were dropped.
use temporal_agent_harness_e.Prelude.{
  ℕ, zero, suc, ◌-◌, ◌≤◌, ◌<◌, ◌≡◌, refl, ap, ◌∙◌, ◌⊎◌, inl, inr, Bool, true, ◌&&◌, List, [], ◌∷◌,
  ◌++◌, arith, leb, if◌then◌else◌, Bool-cases, length, drop, take, leb→le, leb_false→lt,
}
use temporal_agent_harness_e.Json.{get, get_str, field_is}
use temporal_agent_harness_e.Messages.{Message, context_compaction_marker_block}
use temporal_agent_harness_e.Context.{message_has_block_type}
use temporal_agent_harness_e.Context.View.{
  without_context_compaction_markers, marker_message, with_context_compaction_marker,
}
use temporal_agent_harness_e.Context.{any_of_type}
use temporal_agent_harness_e.Context.View.{same_first}

-- How many messages carry a marker.
unfoldable pub marker_count : List Message → ℕ
marker_count [] = 0
marker_count (m ∷ ms) =
    if message_has_block_type m "context_compaction_marker"
    then suc (marker_count ms)
    else marker_count ms

marker_count-without :
    (ms : List Message) → marker_count (without_context_compaction_markers ms) ≡ 0
unfolding marker_count without_context_compaction_markers
marker_count-without [] = refl
marker_count-without (m ∷ ms) = ground (arith, marker_count-without ms)

without-without :
    (ms : List Message)
    → without_context_compaction_markers (without_context_compaction_markers ms)
      ≡ without_context_compaction_markers ms
unfolding without_context_compaction_markers
without-without [] = refl
without-without (m ∷ ms) = ground (arith, without-without ms)

marker-IsMarker :
    (n : ℕ) → message_has_block_type (marker_message n) "context_compaction_marker" ≡ true
unfolding message_has_block_type any_of_type context_compaction_marker_block field_is get_str get
marker-IsMarker n = refl

-- A marker at any place is the only one more.
insert-count :
    (i n : ℕ) (ms : List Message)
    → marker_count (take i ms ++ marker_message n ∷ drop i ms) ≡ suc (marker_count ms)
unfolding marker_count
insert-count zero n ms = rw (marker-IsMarker n)
insert-count (suc i) n [] = rw (marker-IsMarker n)
insert-count (suc i) n (m ∷ ms) = ground (arith, insert-count i n ms)

insert-without :
    (i n : ℕ) (ms : List Message)
    → without_context_compaction_markers (take i ms ++ marker_message n ∷ drop i ms)
      ≡ without_context_compaction_markers ms
unfolding without_context_compaction_markers
insert-without zero n ms = rw (marker-IsMarker n)
insert-without (suc i) n [] = rw (marker-IsMarker n)
insert-without (suc i) n (m ∷ ms) = ground (arith, insert-without i n ms)

-- The marking loses no message of the compacted conversation but older markers. Where messages of the
-- full conversation are missing from it, it holds exactly one marker; else it stays as it is.
pub with_context_compaction_marker_lem :
    (full compacted : List Message) (preserve : Bool)
    → (without_context_compaction_markers (with_context_compaction_marker full compacted preserve)
        ≡ without_context_compaction_markers compacted)
      × ((length (without_context_compaction_markers compacted) < length full)
            × (marker_count (with_context_compaction_marker full compacted preserve) ≡ 1)
          ⊎ (length full ≤ length (without_context_compaction_markers compacted))
            × (with_context_compaction_marker full compacted preserve ≡ compacted))
unfolding with_context_compaction_marker
with_context_compaction_marker_lem full compacted preserve =
    let rest = without_context_compaction_markers compacted in
    let index : ℕ = if preserve && same_first full rest then 1 else 0 in
    elim (Bool-cases (leb (length full) (length rest))) [
      | inl e ↦ (rw e, inr (leb→le _ _ e, rw e))
      | inr e ↦ (
        rw e (insert-without index (length full - length rest) rest ∙ without-without compacted),
        inl (
          leb_false→lt _ _ e,
          rw e (
              insert-count index (length full - length rest) rest
              ∙ ap suc (marker_count-without compacted)),
        ),
      )
    ]
