-- ===== src/Context/View/Pairing.antt =====
-- The messages that go to a model keep tool calls and results together.
use temporal_agent_harness_e.Prelude.{
  ℕ, suc, ◌-◌, String, ◌≡◌, refl, inl, inr, Bool, true, false, ◌&&◌, Option, none, some, List, [],
  ◌∷◌, map, ltb, leb, if◌then◌else◌, Bool-cases, length, drop, is_empty, cons_some, All, All-drop,
  All-if, All-cons_some,
}
use temporal_agent_harness_e.Prelude.Text.{text_length}
use temporal_agent_harness_e.Prelude.Outcome.{ok}
use temporal_agent_harness_e.Json.{Dict, get_str, field_is}
use temporal_agent_harness_e.Messages.{
  Role, Content, text, blocks, Message, message, is_normal_block, IsNormal, AllNormal,
}
use temporal_agent_harness_e.Context.{
  tool_use_ids, message_has_block_type, has_tool_results_for, without_tool_use_blocks, shapes,
  IsPaired, IsUnmixed,
}
use temporal_agent_harness_e.Context.Same.{
  SameBlock, SameBlock-refl, SameBlock-put, SameBlocks, SameMessage, SameMessage-blocks,
  SameMessage-text, SameMessages, shapes-same, AllNormal-same,
}
use temporal_agent_harness_e.Context.Budget.{ContextTokenBudget}
use temporal_agent_harness_e.Context.Exchanges.{
  drop_incomplete_tool_exchanges, drop_incomplete-IsPaired,
}
use temporal_agent_harness_e.Context.Fit.{fit-ShortOf, fit-IsPaired}
use temporal_agent_harness_e.Context.View.{
  selected_messages, block_for_model, message_for_model, windowed_messages, messages_for_model,
}
use temporal_agent_harness_e.Context.{other_blocks, without_blocks, rebuild-shape}
use temporal_agent_harness_e.Context.Manager.{Manager}
use temporal_agent_harness_e.Context.View.{
  window, messages_from, content_for_model, cleared_tool_result_block, limit_block, limited_block,
}

other_blocks-normal :
    (bs : List Dict)
    → All (λ b. is_normal_block b ≡ true) bs
    → All (λ b. is_normal_block b ≡ true) (other_blocks bs)
unfolding other_blocks
other_blocks-normal [] h = tt
other_blocks-normal (b ∷ bs) h = elim (Bool-cases (field_is "type" "tool_use" b)) [
  | inl e ↦ rw e (other_blocks-normal bs h.1)
  | inr e ↦ rw e (h.0, other_blocks-normal bs h.1)
]

without-IsNormal_parts :
    (m n : Message) (c : Content)
    → without_blocks m c ≡ some n
    → c ≡ m.content
    → IsNormal m
    → IsNormal n
unfolding without_blocks
without-IsNormal_parts m n (text s) h e normal = let same : m ≡ n = cc in rw (← same) normal
without-IsNormal_parts m n (blocks bs) h e normal =
    let normal_blocks : All (λ b. is_normal_block b ≡ true) bs = rw (← e) at normal in
    rw (rebuild-shape m.role (other_blocks bs) h) (other_blocks-normal bs normal_blocks)

without-IsNormal : (m n : Message) → without_tool_use_blocks m ≡ some n → IsNormal m → IsNormal n
unfolding without_tool_use_blocks
without-IsNormal m n e h = without-IsNormal_parts m n m.content e refl h

-- Dropping messages keeps what every message has, if a message without its requests has it too.
drop_incomplete-All {κ} :
    (P : Message → Type κ)
    → ((m n : Message) → without_tool_use_blocks m ≡ some n → P m → P n)
    → (ms : List Message) → All P ms
    → All P (drop_incomplete_tool_exchanges ms)
unfolding drop_incomplete_tool_exchanges
drop_incomplete-All P stripped [] h = tt
drop_incomplete-All P stripped (m ∷ []) h =
    let remains = All-cons_some P (without_tool_use_blocks m) [] (λ n e. stripped m n e h.0) tt in
    let plain_case = All-if P (message_has_block_type m "tool_result") [] (m ∷ []) tt h in
    All-if P (is_empty (tool_use_ids m))
      (if message_has_block_type m "tool_result" then [] else m ∷ [])
      (cons_some (without_tool_use_blocks m) []) plain_case remains
drop_incomplete-All P stripped (m ∷ n ∷ rest) h =
    let next = drop_incomplete_tool_exchanges (n ∷ rest) in
    let after = drop_incomplete_tool_exchanges rest in
    let from_next = drop_incomplete-All P stripped (n ∷ rest) h.1 in
    let after_next = drop_incomplete-All P stripped rest h.1.1 in
    let remains =
      All-cons_some P (without_tool_use_blocks m) next (λ k e. stripped m k e h.0) from_next in
    let tool_result = message_has_block_type m "tool_result" in
    let answered = has_tool_results_for n (tool_use_ids m) in
    let plain_case = All-if P tool_result next (m ∷ next) from_next (h.0, from_next) in
    let exchange_case =
      All-if P answered (m ∷ n ∷ after) (cons_some (without_tool_use_blocks m) next)
        (h.0, (h.1.0, after_next)) remains in
    All-if P (is_empty (tool_use_ids m)) (if tool_result then next else m ∷ next)
      (if answered then m ∷ n ∷ after else cons_some (without_tool_use_blocks m) next) plain_case
      exchange_case

limited_block-SameBlock :
    (b : Dict) (o : Option String) (limit : ℕ) → SameBlock b (limited_block b o limit)
unfolding limited_block
limited_block-SameBlock b none limit = SameBlock-refl b
limited_block-SameBlock b (some content) limit =
    elim (Bool-cases (ltb limit (text_length content))) [
      | inl e ↦ rw e (SameBlock-put "content" _ b refl refl refl)
      | inr e ↦ rw e (SameBlock-refl b)
    ]

limit_block-SameBlock : (b : Dict) (limit : Option ℕ) → SameBlock b (limit_block b limit)
unfolding limit_block
limit_block-SameBlock b none = SameBlock-refl b
limit_block-SameBlock b (some limit) = limited_block-SameBlock b (get_str "content" b) limit

SameBlock-if :
    (t : Bool) (b c d : Dict) → SameBlock b c → SameBlock b d → SameBlock b (if t then c else d)
SameBlock-if true b c d h k = h
SameBlock-if false b c d h k = k

block_for_model-SameBlock :
    (clear : Bool) (limit : Option ℕ) (b : Dict) → SameBlock b (block_for_model clear limit b)
unfolding block_for_model cleared_tool_result_block
block_for_model-SameBlock clear limit b =
    SameBlock-if _ b _ _
      (SameBlock-if clear b _ _ (SameBlock-put "content" _ b refl refl refl)
        (limit_block-SameBlock b limit))
      (SameBlock-refl b)

map-SameBlocks :
    (clear : Bool) (limit : Option ℕ) (bs : List Dict)
    → SameBlocks bs (map (block_for_model clear limit) bs)
map-SameBlocks clear limit [] = SameBlocks.nil
map-SameBlocks clear limit (b ∷ bs) =
    SameBlocks.cons (block_for_model-SameBlock clear limit b) (map-SameBlocks clear limit bs)

content_for_model-SameMessage :
    (clear : Bool) (limit : Option ℕ) (r : Role) (c : Content)
    → SameMessage (message r c) (message r (content_for_model clear limit c))
unfolding content_for_model
content_for_model-SameMessage clear limit r (text s) = SameMessage-text r s s
content_for_model-SameMessage clear limit r (blocks bs) =
    SameMessage-blocks r (map-SameBlocks clear limit bs)

message_for_model-SameMessage :
    (clear : Bool) (limit : Option ℕ) (m : Message)
    → SameMessage m (message_for_model clear limit m)
unfolding message_for_model
message_for_model-SameMessage clear limit m =
    content_for_model-SameMessage clear limit m.role m.content

messages_from-SameMessages :
    (s : Manager) (latest : Option ℕ) (i : ℕ) (ms : List Message)
    → SameMessages ms (messages_from s latest i ms)
unfolding messages_from
messages_from-SameMessages s latest i [] = SameMessages.nil
messages_from-SameMessages s latest i (m ∷ ms) =
    SameMessages.cons (message_for_model-SameMessage _ _ m)
      (messages_from-SameMessages s latest (suc i) ms)

-- Clearing and previewing change contents of tool results, and nothing else.
pub windowed-SameMessages : (s : Manager) → SameMessages (selected_messages s) (windowed_messages s)
unfolding windowed_messages
windowed-SameMessages s = messages_from-SameMessages s _ 0 (selected_messages s)

window-All {κ} :
    (P : Message → Type κ) (s : Manager) (ms : List Message) → All P ms → All P (window s ms)
unfolding window
window-All P s [] h = tt
window-All P s (m ∷ ms) h =
    let start = length (m ∷ ms) - s.max_recent_messages in
    let recent = All-drop P start (m ∷ ms) h in
    All-if P (s.preserve_initial_user_message && ltb 0 start) (m ∷ drop start (m ∷ ms))
      (drop start (m ∷ ms)) (h.0, recent) recent

selected-AllNormal : (s : Manager) → AllNormal s.messages → AllNormal (selected_messages s)
unfolding selected_messages
selected-AllNormal s h =
    All-if IsNormal (leb (length s.messages) s.max_recent_messages)
      (drop_incomplete_tool_exchanges s.messages)
      (drop_incomplete_tool_exchanges (window s s.messages))
      (drop_incomplete-All IsNormal without-IsNormal s.messages h)
      (drop_incomplete-All IsNormal without-IsNormal (window s s.messages)
        (window-All IsNormal s s.messages h))

selected-IsPaired :
    (s : Manager) → All IsUnmixed s.messages → IsPaired (shapes (selected_messages s))
unfolding selected_messages
selected-IsPaired s h = elim (Bool-cases (leb (length s.messages) s.max_recent_messages)) [
  | inl e ↦ rw e (drop_incomplete-IsPaired s.messages h)
  | inr e ↦ rw e (drop_incomplete-IsPaired _ (window-All IsUnmixed s s.messages h))
]

pub windowed-IsPaired :
    (s : Manager) → All IsUnmixed s.messages → IsPaired (shapes (windowed_messages s))
windowed-IsPaired s h = rw (shapes-same (windowed-SameMessages s)) (selected-IsPaired s h)

pub windowed-AllNormal : (s : Manager) → AllNormal s.messages → AllNormal (windowed_messages s)
windowed-AllNormal s h = AllNormal-same (windowed-SameMessages s) (selected-AllNormal s h)

-- From any stored history without mixed messages, and under any budget or none, the manager returns
-- messages for the model in which every message with tool calls is followed at once by a message with
-- results that names their ids, and no message outside of such an exchange holds results. As in the
-- source, a call counts only when its id is a text.
pub messages_for_model-IsPaired :
    (s : Manager) (budget : Option ContextTokenBudget)
    → AllNormal s.messages
    → All IsUnmixed s.messages
    → (out : List Message) × (messages_for_model s budget ≡ ok out) × IsPaired (shapes out)
unfolding messages_for_model
messages_for_model-IsPaired s none normal unmixed =
    (windowed_messages s, refl, windowed-IsPaired s unmixed)
messages_for_model-IsPaired s (some b) normal unmixed =
    let ms = windowed_messages s in
    let f =
      (fit-ShortOf b s.preserve_initial_user_message ms (windowed-AllNormal s normal)).short in
    (
      f.result,
      f.returned,
      fit-IsPaired b s.preserve_initial_user_message ms f.result (windowed-AllNormal s normal)
          (windowed-IsPaired s unmixed) f.returned,
    )
