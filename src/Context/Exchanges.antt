-- ===== src/Context/Exchanges.antt =====
-- _drop_incomplete_tool_exchanges of agent_harness/sliding_window_context_manager.py, and what it
-- keeps: whole exchanges of tool calls and results.
use temporal_agent_harness_e.Prelude.{
  String, ◌≡◌, refl, ap, ◌∙◌, ◌≢◌, inl, inr, true, false, List, [], ◌∷◌, arith, str_eq, eq_iff,
  eq_refl, if◌then◌else◌, Bool-cases, Option-cases, is_empty, all, cons_some, All, nil_of_empty,
  ne-nil_of_not_empty, not_empty_of_ne-nil, &&_iff,
}
use temporal_agent_harness_e.Prelude.Text.{contains}
use temporal_agent_harness_e.Messages.{Message}
use temporal_agent_harness_e.Context.{
  tool_use_ids, tool_result_ids, message_has_block_type, has_tool_results_for,
  without_tool_use_blocks, shape, shapes, IsPaired, nil, plain, exchange, IsUnmixed,
  has_uses_of_ids, has_results_of_ids, without-shape, IsPaired-Begins,
}

-- One round of the loop: the message at the index, what follows it, and what the loop does with
-- the rest from the next index and from the one after that.
unfoldable pub drop_incomplete_tool_exchanges : List Message → List Message
drop_incomplete_tool_exchanges [] = []
drop_incomplete_tool_exchanges (m ∷ []) =
    if is_empty (tool_use_ids m)
    then (if message_has_block_type m "tool_result" then [] else m ∷ [])
    else cons_some (without_tool_use_blocks m) []
drop_incomplete_tool_exchanges (m ∷ n ∷ rest) =
    let from_next = drop_incomplete_tool_exchanges (n ∷ rest) in
    let after_next = drop_incomplete_tool_exchanges rest in
    if is_empty (tool_use_ids m)
    then (if message_has_block_type m "tool_result" then from_next else m ∷ from_next)
    else if has_tool_results_for n (tool_use_ids m)
    then m ∷ n ∷ after_next
    else cons_some (without_tool_use_blocks m) from_next

all-contains :
    (ids held : List String)
    → all (contains held) ids ≡ true
    → (i : String) → contains ids i ≡ true
    → contains held i ≡ true
unfolding contains
all-contains [] held h i m = cc
all-contains (j ∷ ids) held h i m = elim (Bool-cases (str_eq j i)) [
  | inl e ↦ rw (← (eq_iff j i).0 e) ((&&_iff _ _).0 h).0
  | inr e ↦ all-contains ids held ((&&_iff _ _).0 h).1 i (rw e at m)
]

pub contains-all :
    (ids held : List String)
    → ((i : String) → contains ids i ≡ true → contains held i ≡ true)
    → all (contains held) ids ≡ true
unfolding contains
contains-all [] held h = refl
contains-all (j ∷ ids) held h =
    (&&_iff _ _).1 (h j (rw eq_refl), contains-all ids held (λ i m. h i ground arith))

-- One message in front of a paired conversation.
plain_message :
    (m : Message) (ms : List Message)
    → tool_use_ids m ≡ []
    → message_has_block_type m "tool_result" ≡ false
    → IsPaired (shapes ms)
    → IsPaired (shapes (m ∷ ms))
unfolding shape
plain_message m ms no_uses no_results p = plain no_uses no_results p

stripped_message :
    (m : Message) (ms : List Message)
    → IsUnmixed m
    → is_empty (tool_use_ids m) ≡ false
    → IsPaired (shapes ms)
    → IsPaired (shapes (cons_some (without_tool_use_blocks m) ms))
stripped_message m ms unmixed some_uses p = elim (Option-cases (without_tool_use_blocks m)) [
  | inl e ↦ rw e p
  | inr (n, e) ↦
      let (no_uses, same) = without-shape m n e in
      let uses = has_uses_of_ids m (ne-nil_of_not_empty _ some_uses) in
      rw e (plain_message n ms no_uses (same ∙ ground arith) p)
]

held-ne-nil :
    (ids held : List String) → is_empty ids ≡ false → all (contains held) ids ≡ true → held ≢ []
unfolding contains
held-ne-nil [] held some_ids h e = cc
held-ne-nil (i ∷ ids) held some_ids h e =
    let none_held : contains held i ≡ false = rw e in ground arith

-- A message that answers another has results, so no requests.
answering_message :
    (m n : Message)
    → IsUnmixed n
    → is_empty (tool_use_ids m) ≡ false
    → has_tool_results_for n (tool_use_ids m) ≡ true
    → tool_use_ids n ≡ []
unfolding has_tool_results_for
answering_message m n unmixed some_uses answered =
    let results =
      has_results_of_ids n (held-ne-nil (tool_use_ids m) (tool_result_ids n) some_uses answered) in
    elim (Bool-cases (is_empty (tool_use_ids n))) [
      | inl e ↦ nil_of_empty _ e
      | inr e ↦ cc (unmixed, results, has_uses_of_ids n (ne-nil_of_not_empty _ e))
    ]

exchange_messages :
    (m n : Message) (ms : List Message)
    → IsUnmixed n
    → is_empty (tool_use_ids m) ≡ false
    → has_tool_results_for n (tool_use_ids m) ≡ true
    → IsPaired (shapes ms)
    → IsPaired (shapes (m ∷ n ∷ ms))
unfolding shape has_tool_results_for
exchange_messages m n ms unmixed some_uses answered p =
    exchange (ne-nil_of_not_empty _ some_uses)
      (all-contains (tool_use_ids m) (tool_result_ids n) answered)
      (answering_message m n unmixed some_uses answered) p

-- Whatever the history, as long as no message mixes requests and results, what the loop keeps is a
-- sequence of plain messages and whole exchanges.
pub drop_incomplete-IsPaired :
    (ms : List Message) → All IsUnmixed ms → IsPaired (shapes (drop_incomplete_tool_exchanges ms))
unfolding drop_incomplete_tool_exchanges
drop_incomplete-IsPaired [] h = nil
drop_incomplete-IsPaired (m ∷ []) h = elim (Bool-cases (is_empty (tool_use_ids m))) [
  | inl e ↦ elim (Bool-cases (message_has_block_type m "tool_result")) [
    | inl r ↦ rw (e, r) nil
    | inr r ↦ rw (e, r) (plain_message m [] (nil_of_empty _ e) r nil)
  ]
  | inr e ↦ rw e (stripped_message m [] h.0 e nil)
]
drop_incomplete-IsPaired (m ∷ n ∷ rest) h =
    let from_next = drop_incomplete-IsPaired (n ∷ rest) h.1 in
    let after_next = drop_incomplete-IsPaired rest h.1.1 in
    elim (Bool-cases (is_empty (tool_use_ids m))) [
      | inl e ↦ elim (Bool-cases (message_has_block_type m "tool_result")) [
        | inl r ↦ rw (e, r) from_next
        | inr r ↦ rw (e, r) (plain_message m _ (nil_of_empty _ e) r from_next)
      ]
      | inr e ↦ elim (Bool-cases (has_tool_results_for n (tool_use_ids m))) [
        | inl a ↦ rw (e, a) (exchange_messages m n _ h.1.0 e a after_next)
        | inr a ↦ rw (e, a) (stripped_message m _ h.0 e from_next)
      ]
    ]

-- A conversation that is paired already loses nothing: the loop returns it as it is.
pub drop_incomplete_of_IsPaired :
    (ms : List Message) → IsPaired (shapes ms) → drop_incomplete_tool_exchanges ms ≡ ms
unfolding drop_incomplete_tool_exchanges shape has_tool_results_for
drop_incomplete_of_IsPaired [] p = refl
drop_incomplete_of_IsPaired (m ∷ []) p = elim (IsPaired-Begins p) [
  | inl (no_uses, no_results, _) ↦ rw (no_uses, no_results)
  | inr (_, impossible) ↦ absurd impossible
]
drop_incomplete_of_IsPaired (m ∷ n ∷ rest) p = elim (IsPaired-Begins p) [
  | inl (no_uses, no_results, q) ↦
      rw (no_uses, no_results) (ap (◌∷◌ m) (drop_incomplete_of_IsPaired (n ∷ rest) q))
  | inr (some_uses, (answers, _, q)) ↦
      rw (not_empty_of_ne-nil _ some_uses, contains-all _ _ answers)
        (ap (λ l. m ∷ n ∷ l) (drop_incomplete_of_IsPaired rest q))
]
