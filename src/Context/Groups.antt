-- ===== src/Context/Groups.antt =====
-- _message_groups and _flatten_message_groups of agent_harness/sliding_window_context_manager.py.
-- A group is one message, or a tool exchange.
use temporal_agent_harness_e.Prelude.{
  ◌≡◌, refl, ap, inl, inr, not, ◌&&◌, List, [], ◌∷◌, ◌++◌, map-append, if◌then◌else◌, Bool-cases,
  is_empty, All, All-append, not_empty_of_ne-nil,
}
use temporal_agent_harness_e.Messages.{Message, IsNormal, AllNormal}
use temporal_agent_harness_e.Context.Exchanges.{contains-all}
use temporal_agent_harness_e.Context.{
  tool_use_ids, has_tool_results_for, shape, shapes, IsPaired, nil, plain, exchange,
  IsPaired-Begins, IsPaired-append,
}

unfoldable pub message_groups : List Message → List (List Message)
message_groups [] = []
message_groups (m ∷ []) = (m ∷ []) ∷ []
message_groups (m ∷ n ∷ rest) =
    let from_next = message_groups (n ∷ rest) in
    let after_next = message_groups rest in
    if not (is_empty (tool_use_ids m)) && has_tool_results_for n (tool_use_ids m)
    then (m ∷ n ∷ []) ∷ after_next
    else (m ∷ []) ∷ from_next

unfoldable pub flatten_message_groups : List (List Message) → List Message
flatten_message_groups [] = []
flatten_message_groups (g ∷ gs) = g ++ flatten_message_groups gs

-- Grouping loses no message and keeps the order.
pub flatten-message_groups : (ms : List Message) → flatten_message_groups (message_groups ms) ≡ ms
unfolding message_groups flatten_message_groups
flatten-message_groups [] = refl
flatten-message_groups (m ∷ []) = refl
flatten-message_groups (m ∷ n ∷ rest) =
    elim (Bool-cases (not (is_empty (tool_use_ids m)) && has_tool_results_for n (tool_use_ids m))) [
      | inl e ↦ rw e (ap (λ l. m ∷ n ∷ l) (flatten-message_groups rest))
      | inr e ↦ rw e (ap (◌∷◌ m) (flatten-message_groups (n ∷ rest)))
    ]

abbrev pub AllPaired : List (List Message) → Type 0
AllPaired = All (λ g. IsPaired (shapes g))

-- The groups of a paired conversation are paired one by one.
pub message_groups-AllPaired :
    (ms : List Message) → IsPaired (shapes ms) → AllPaired (message_groups ms)
unfolding message_groups shape has_tool_results_for
message_groups-AllPaired [] p = tt
message_groups-AllPaired (m ∷ []) p = (p, tt)
message_groups-AllPaired (m ∷ n ∷ rest) p = elim (IsPaired-Begins p) [
  | inl (no_uses, no_results, q) ↦
      rw no_uses (plain no_uses no_results nil, message_groups-AllPaired (n ∷ rest) q)
  | inr (some_uses, (answers, n_plain, q)) ↦
      rw (not_empty_of_ne-nil _ some_uses, contains-all _ _ answers)
        (exchange some_uses answers n_plain nil, message_groups-AllPaired rest q)
]

-- Paired groups in a row, in any selection, are a paired conversation.
pub flatten-IsPaired :
    (gs : List (List Message)) → AllPaired gs → IsPaired (shapes (flatten_message_groups gs))
unfolding flatten_message_groups
flatten-IsPaired [] h = nil
flatten-IsPaired (g ∷ gs) h =
    rw map-append (IsPaired-append (shapes g) _ h.0 (flatten-IsPaired gs h.1))

pub message_groups-AllNormal :
    (ms : List Message) → AllNormal ms → All AllNormal (message_groups ms)
unfolding message_groups
message_groups-AllNormal [] h = tt
message_groups-AllNormal (m ∷ []) h = (h, tt)
message_groups-AllNormal (m ∷ n ∷ rest) h =
    elim (Bool-cases (not (is_empty (tool_use_ids m)) && has_tool_results_for n (tool_use_ids m))) [
      | inl e ↦ rw e ((h.0, (h.1.0, tt)), message_groups-AllNormal rest h.1.1)
      | inr e ↦ rw e ((h.0, tt), message_groups-AllNormal (n ∷ rest) h.1)
    ]

pub flatten-AllNormal :
    (gs : List (List Message)) → All AllNormal gs → AllNormal (flatten_message_groups gs)
unfolding flatten_message_groups
flatten-AllNormal [] h = tt
flatten-AllNormal (g ∷ gs) h = All-append IsNormal g _ h.0 (flatten-AllNormal gs h.1)
