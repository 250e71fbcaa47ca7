-- ===== src/Agent/Run/Paired.antt =====
-- What a round writes into the conversation (agent_harness/agent.py): an answer of the model, the
-- results of the tools that it requests, and the messages of the user that wait.
use temporal_agent_harness_e.Prelude.{
  ◌≤◌, String, ◌≡◌, refl, sym, ap, ◌∙◌, ◌≢◌, Bool, true, false, List, [], ◌∷◌, ◌++◌, map,
  map-append, append_assoc, arith, Bool-cases, inl, inr, ◌⊎◌, is_empty, All,
}
use temporal_agent_harness_e.Json.{Dict, field_is, field_is_ne}
use temporal_agent_harness_e.Messages.{
  Message, message, user, text, blocks, tool_use_blocks, blocks_of_type, IsNormal, content_blocks,
  is_normal_block,
}
use temporal_agent_harness_e.Context.{
  block_ids, any_of_type, tool_use_ids, tool_result_ids, message_has_block_type, shape, shapes,
  IsPaired, nil, plain, exchange, IsPaired-append,
}
use temporal_agent_harness_e.Context.Manager.{
  Manager, record_user_message, user_message_content, user_content,
}
use temporal_agent_harness_e.Attachments.{attachment_manifest_text}
use temporal_agent_harness_e.Agent.Calls.{ToolEnd, IsRequest, CancelledBy, requests}
use temporal_agent_harness_e.Agent.Calls.Results.{IsResult}
use temporal_agent_harness_e.Agent.State.{
  Agent, Signal, steer, interrupt, SteeringMode, receive, receive_signal, flush_steering_messages,
}
use temporal_agent_harness_e.Agent.Run.Calm.{interrupts}

abbrev pub IsPairedHistory : Manager → Type 0
IsPairedHistory c = IsPaired (shapes c.messages)

pub shapes-append : (ms ns : List Message) → shapes (ms ++ ns) ≡ shapes ms ++ shapes ns
shapes-append ms ns = map-append shape ms ns

record_user_message-IsPaired :
    (c : Manager) (s : String) → IsPairedHistory c → IsPairedHistory (record_user_message c s [])
unfolding record_user_message user_message_content user_content attachment_manifest_text shape
    tool_use_ids tool_result_ids message_has_block_type block_ids any_of_type
record_user_message-IsPaired c s h =
    rw (shapes-append c.messages (message user (text s) ∷ []))
      (IsPaired-append (shapes c.messages) _ h (plain refl refl nil))

pub flush-IsPaired :
    (tag description : String) (l : List String) (c : Manager)
    → IsPairedHistory c
    → IsPairedHistory (flush_steering_messages tag description l c)
unfolding flush_steering_messages
flush-IsPaired tag description [] c h = h
flush-IsPaired tag description (s ∷ rest) c h =
    flush-IsPaired tag description rest _ (record_user_message-IsPaired c _ h)

pub receive-context : (a : Agent) (l : List Signal) → (receive a l).context ≡ a.context
unfolding receive receive_signal
receive-context a [] = refl
receive-context a (steer SteeringMode.immediate s ∷ rest) = receive-context _ rest
receive-context a (steer SteeringMode.after_next_tool_result s ∷ rest) = receive-context _ rest
receive-context a (interrupt s ∷ rest) = receive-context _ rest

receive_interrupted :
    (a : Agent) (l : List Signal)
    → a.interrupt_requested ≡ true
    → (receive a l).interrupt_requested ≡ true
unfolding receive receive_signal
receive_interrupted a [] h = h
receive_interrupted a (steer SteeringMode.immediate s ∷ rest) h = receive_interrupted _ rest h
receive_interrupted a (steer SteeringMode.after_next_tool_result s ∷ rest) h =
    receive_interrupted _ rest h
receive_interrupted a (interrupt s ∷ rest) h = receive_interrupted _ rest refl

-- An interrupt that arrives is seen.
pub receive-interrupts :
    (a : Agent) (l : List Signal) → 1 ≤ interrupts l → (receive a l).interrupt_requested ≡ true
unfolding receive receive_signal interrupts
receive-interrupts a [] h = absurd (omega (arith, h))
receive-interrupts a (steer SteeringMode.immediate s ∷ rest) h = receive-interrupts _ rest h
receive-interrupts a (steer SteeringMode.after_next_tool_result s ∷ rest) h =
    receive-interrupts _ rest h
receive-interrupts a (interrupt s ∷ rest) h = receive_interrupted _ rest refl

-- The ids of the requests of a message are those of its calls.
ids_of_type :
    (t key : String) (bs : List Dict) → block_ids t key (blocks_of_type t bs) ≡ block_ids t key bs
unfolding block_ids blocks_of_type
ids_of_type t key [] = refl
ids_of_type t key (b ∷ bs) = elim (Bool-cases (field_is "type" t b)) [
  | inl e ↦ rw (e, e, ids_of_type t key bs) refl
  | inr e ↦ rw (e, ids_of_type t key bs) refl
]

no_calls : (rs : List Dict) → All IsResult rs → block_ids "tool_use" "id" rs ≡ []
unfolding block_ids
no_calls [] h = refl
no_calls (r ∷ rs) h =
    rw (field_is_ne "type" "tool_result" "tool_use" r refl h.0.0) (no_calls rs h.1)

pub All-normal : (rs : List Dict) → All IsResult rs → All (λ b. is_normal_block b ≡ true) rs
All-normal [] h = tt
All-normal (r ∷ rs) h = (h.0.1, All-normal rs h.1)

-- An answer that the provider may give: it may be stored, holds no results, and each of its calls has a
-- name, an input and an id.
pub record IsAnswer (m : Message) : Type 0 where
  pub normal : IsNormal m
  pub no_results : message_has_block_type m "tool_result" ≡ false
  pub complete : All IsRequest (tool_use_blocks m)

-- A tool is cancelled only when an interrupt arrived.
abbrev pub EndsWell : (Dict → ToolEnd) → List Signal → Dict → Type 0
EndsWell end signals q = CancelledBy false (end q) ⊎ (1 ≤ interrupts signals)

unfoldable pub calls_of : (Dict → ToolEnd) → List Dict → List (Dict × ToolEnd)
calls_of end = map (λ q. (q, end q))

pub requests-calls_of : (end : Dict → ToolEnd) (qs : List Dict) → requests (calls_of end qs) ≡ qs
unfolding calls_of
requests-calls_of end [] = refl
requests-calls_of end (q ∷ qs) = ap (◌∷◌ q) (requests-calls_of end qs)

ends_well :
    (e : ToolEnd) (interrupted : Bool)
    → CancelledBy false e ⊎ (interrupted ≡ true)
    → CancelledBy interrupted e
ends_well ToolEnd.cancelled interrupted (inl h) = absurd (ground arith)
ends_well ToolEnd.cancelled interrupted (inr h) = h
ends_well (ToolEnd.returned r) interrupted h = tt
ends_well (ToolEnd.user_facing d) interrupted h = tt
ends_well (ToolEnd.raised t c) interrupted h = tt

pub calls_end :
    (end : Dict → ToolEnd) (a : Agent) (l : List Signal) (qs : List Dict)
    → All IsRequest qs
    → All (EndsWell end l) qs
    → All (λ c. IsRequest c.0 × CancelledBy (receive a l).interrupt_requested c.1) (calls_of end qs)
unfolding calls_of
calls_end end a l [] h k = tt
calls_end end a l (q ∷ qs) h k =
    let seen =
      elim k.0 as (λ x. CancelledBy false (end q) ⊎ ((receive a l).interrupt_requested ≡ true)) [
        | inl x ↦ inl x
        | inr x ↦ inr (receive-interrupts a l x)
      ] in
    ((h.0, ends_well (end q) _ seen), calls_end end a l qs h.1 k.1)

pub uses_of_requests :
    (m : Message) → tool_use_ids m ≡ block_ids "tool_use" "id" (tool_use_blocks m)
unfolding tool_use_ids tool_use_blocks
uses_of_requests m = sym (ids_of_type "tool_use" "id" (content_blocks m.content))

cons_not_nil : (s : String) (l k : List String) → l ≡ s ∷ k → l ≢ []
cons_not_nil s l k e f = let no : false ≡ true = ap is_empty (sym e ∙ f) in absurd (ground arith)

pub uses_not_nil :
    (m : Message) (q : Dict) (qs : List Dict)
    → IsRequest q
    → tool_use_blocks m ≡ q ∷ qs
    → tool_use_ids m ≢ []
unfolding block_ids
uses_not_nil m q qs h used =
    cons_not_nil h.id (tool_use_ids m) (block_ids "tool_use" "id" qs)
      (uses_of_requests m ∙ ap (block_ids "tool_use" "id") used ∙ rw (h.typed, h.identified) refl)

-- The message of the results answers the message of the calls.
pub exchange_of :
    (ms : List Message) (m : Message) (q : Dict) (qs rs : List Dict)
    → IsPaired (shapes ms)
    → IsRequest q
    → tool_use_blocks m ≡ q ∷ qs
    → All IsResult rs
    → block_ids "tool_result" "tool_use_id" rs ≡ block_ids "tool_use" "id" (q ∷ qs)
    → IsPaired (shapes ((ms ++ m ∷ []) ++ message user (blocks rs) ∷ []))
unfolding shape tool_use_ids tool_result_ids
exchange_of ms m q qs rs paired first used results ids =
    let same : block_ids "tool_result" "tool_use_id" rs ≡ tool_use_ids m =
      ids ∙ sym (uses_of_requests m ∙ ap (block_ids "tool_use" "id") used) in
    rw
      (
        append_assoc ms (m ∷ []) (message user (blocks rs) ∷ []),
        shapes-append ms (m ∷ message user (blocks rs) ∷ []),
      )
      (IsPaired-append (shapes ms) _ paired
        (exchange (uses_not_nil m q qs first used) (λ i h. rw same h) (no_calls rs results) nil))
