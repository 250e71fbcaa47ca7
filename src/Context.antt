-- ===== src/Context.antt =====
-- agent_harness/sliding_window_context_manager.py: which tool calls a message requests and answers.
-- The children model the selection of whole exchanges, the token budget, and the manager itself.
pub mod Exchanges
pub mod Same
pub mod Groups
pub mod Budget
pub mod Shrink
pub mod Fit
pub mod Manager
pub mod View
use temporal_agent_harness_e.Prelude.{
  ℕ, zero, suc, ◌+◌, ◌-◌, ◌*◌, ◌/◌, ◌%◌, ◌≤◌, ◌<◌, min, max, String, ◌≡◌, refl, sym, ap, ◌∙◌, subst,
  ◌≢◌, ◌↔◌, ◌⊎◌, inl, inr, Bool, true, false, not, ◌&&◌, ◌||◌, Option, none, some, List, [], ◌∷◌,
  ◌++◌, map, append-nil, append_assoc, map-append, arith, str_eq, eq_iff, eq_refl, ltb, leb, ◌==◌,
  if◌then◌else◌, Bool-cases, Option-cases, length, get_elem?, set, drop, take, is_empty, all,
  cons_some, length-append, length-drop, length-set, All, All-append, All-drop, length-map, ltb→lt,
  lt→ltb, leb→le, le→leb, leb_false→lt, &&_iff,
}
use temporal_agent_harness_e.Prelude.Text.{text_length, text_take, is_blank, contains, decimal}
use temporal_agent_harness_e.Prelude.Outcome.{
  Outcome, ok, raise, value_error, type_error, key_error, ◌>>=◌, ◌>>◌, raise_if, IsOk, Yields,
  Yields-bind, Yields-ok,
}
use temporal_agent_harness_e.Prelude.Loops.{iterate, iterate_inv, iterate_ends}
use temporal_agent_harness_e.Prelude.Int.{
  ℤ, pos, negsuc, ◌+ℤ◌, ◌-ℤ◌, ◌*ℤ◌, ◌≤ℤ◌, ltb_ℤ, leb_ℤ, max_ℤ, min_ℤ, int_eq, pos_part, neg_part,
  int_laws,
}
use temporal_agent_harness_e.Json.{
  Value, Items, Dict, get, put, get_str, as_str, field_is, to_items, value_eq, get-put, get_str-put,
  get_str-put_ne, field_is_ne, field_is-put_ne,
}
use temporal_agent_harness_e.Json.Dumps.{dumps, dumps_compact}
use temporal_agent_harness_e.Messages.{
  Role, user, assistant, Content, text, blocks, Message, message, text_message, text_block,
  context_compaction_marker_block, tool_result_block, tool_use_blocks, is_normal_block, IsNormal,
  AllNormal, content_blocks,
}
use temporal_agent_harness_e.Messages.Snapshots.{
  message_to_snapshot, snapshots, message_from_snapshot, messages_from_snapshots, normalize_message,
  normalize_messages, normalize_message_lem, normalize_messages_lem, from-snapshots,
  message_from_snapshot-IsNormal, messages_from_snapshots-AllNormal,
}

-- _block_ids over the blocks of a message; the sets of the source are lists here
unfoldable pub block_ids : String → String → List Dict → List String
block_ids t key [] = []
block_ids t key (b ∷ bs) =
    let rest = block_ids t key bs in
    if field_is "type" t b then cons_some (get_str key b) rest else rest

unfoldable pub any_of_type : String → List Dict → Bool
any_of_type t [] = false
any_of_type t (b ∷ bs) = field_is "type" t b || any_of_type t bs

unfoldable pub tool_use_ids : Message → List String
tool_use_ids m = block_ids "tool_use" "id" (content_blocks m.content)

unfoldable pub tool_result_ids : Message → List String
tool_result_ids m = block_ids "tool_result" "tool_use_id" (content_blocks m.content)

unfoldable pub message_has_block_type : Message → String → Bool
message_has_block_type m t = any_of_type t (content_blocks m.content)

unfoldable pub has_tool_results_for : Message → List String → Bool
has_tool_results_for m ids = all (contains (tool_result_ids m)) ids

unfoldable pub other_blocks : List Dict → List Dict
other_blocks [] = []
other_blocks (b ∷ bs) =
    let rest = other_blocks bs in if field_is "type" "tool_use" b then rest else b ∷ rest

-- A message of tool requests alone is left out.
rebuild : Role → List Dict → Option Message
rebuild role [] = none
rebuild role (b ∷ bs) = some (message role (blocks (b ∷ bs)))

without_blocks : Message → Content → Option Message
unfolding rebuild
without_blocks m (text s) = some m
without_blocks m (blocks bs) = rebuild m.role (other_blocks bs)

unfoldable pub without_tool_use_blocks : Message → Option Message
unfolding without_blocks
without_tool_use_blocks m = without_blocks m m.content

-- What the pairing of tool calls and results depends on.
pub record Shape : Type 0 where
  pub uses : List String
  pub results : List String
  pub has_results : Bool

unfoldable pub shape : Message → Shape
unfolding tool_use_ids tool_result_ids message_has_block_type
shape m = record {
  uses = tool_use_ids m;
  results = tool_result_ids m;
  has_results = message_has_block_type m "tool_result";
}

abbrev pub shapes : List Message → List Shape
shapes = map shape

-- Every requested tool call of the first is answered by the second.
abbrev pub Answers : Shape → Shape → Type 0
Answers s t = (i : String) → contains s.uses i ≡ true → contains t.results i ≡ true

-- A conversation that a provider accepts: a message with tool calls is followed at once by one with
-- their results, and results stand nowhere else.
pub data IsPaired : List Shape → Type 0 where
  nil : IsPaired []
  plain :
      {s : Shape} {r : List Shape}
      → s.uses ≡ []
      → s.has_results ≡ false
      → IsPaired r
      → IsPaired (s ∷ r)
  exchange :
      {s t : Shape} {r : List Shape}
      → s.uses ≢ []
      → Answers s t
      → t.uses ≡ []
      → IsPaired r
      → IsPaired (s ∷ t ∷ r)

-- No message both requests tools and carries results.
abbrev pub IsUnmixed : Message → Type 0
IsUnmixed m = message_has_block_type m "tool_use" && message_has_block_type m "tool_result" ≡ false

-- With an id among the blocks of a type there is such a block.
any_of_type_of_ids :
    (t key : String) (bs : List Dict) → block_ids t key bs ≢ [] → any_of_type t bs ≡ true
unfolding block_ids any_of_type
any_of_type_of_ids t key [] h = absurd (h refl)
any_of_type_of_ids t key (b ∷ bs) h = ground (arith, any_of_type_of_ids t key bs)

pub has_uses_of_ids :
    (m : Message) → tool_use_ids m ≢ [] → message_has_block_type m "tool_use" ≡ true
unfolding tool_use_ids message_has_block_type
has_uses_of_ids m h = any_of_type_of_ids "tool_use" "id" (content_blocks m.content) h

pub has_results_of_ids :
    (m : Message) → tool_result_ids m ≢ [] → message_has_block_type m "tool_result" ≡ true
unfolding tool_result_ids message_has_block_type
has_results_of_ids m h = any_of_type_of_ids "tool_result" "tool_use_id" (content_blocks m.content) h

-- Without its requests a message keeps its other blocks.
pub block_ids-other_blocks : (bs : List Dict) → block_ids "tool_use" "id" (other_blocks bs) ≡ []
unfolding block_ids other_blocks
block_ids-other_blocks [] = refl
block_ids-other_blocks (b ∷ bs) = ground (arith, block_ids-other_blocks bs)

pub any_result-other_blocks :
    (bs : List Dict) → any_of_type "tool_result" (other_blocks bs) ≡ any_of_type "tool_result" bs
unfolding any_of_type other_blocks
any_result-other_blocks [] = refl
any_result-other_blocks (b ∷ bs) =
    ground (arith, field_is_ne "type" "tool_use" "tool_result" b, any_result-other_blocks bs)

rebuild-shape :
    (role : Role) (bs : List Dict) {n : Message}
    → rebuild role bs ≡ some n
    → n ≡ message role (blocks bs)
unfolding rebuild
rebuild-shape role [] h = cc
rebuild-shape role (b ∷ bs) h = cc

without-shape_parts :
    (m n : Message) (c : Content)
    → without_blocks m c ≡ some n
    → c ≡ m.content
    → (tool_use_ids n ≡ [])
      × (message_has_block_type n "tool_result" ≡ message_has_block_type m "tool_result")
unfolding without_blocks tool_use_ids message_has_block_type block_ids any_of_type
without-shape_parts m n (text s) h e = let same : m ≡ n = cc in rw (← same, ← e) (refl, refl)
without-shape_parts m n (blocks bs) h e =
    rw (rebuild-shape m.role (other_blocks bs) h, ← e)
      (block_ids-other_blocks bs, any_result-other_blocks bs)

-- What is left of a message without its requests has no requests, and the results that it had.
pub without-shape :
    (m n : Message)
    → without_tool_use_blocks m ≡ some n
    → (tool_use_ids n ≡ [])
      × (message_has_block_type n "tool_result" ≡ message_has_block_type m "tool_result")
unfolding without_tool_use_blocks
without-shape m n h = without-shape_parts m n m.content h refl

-- How a paired conversation begins.
abbrev pub Rest : Shape → List Shape → Type 0
Rest s [] = ⊥
Rest s (t ∷ r) = Answers s t × (t.uses ≡ []) × IsPaired r

abbrev pub Begins : List Shape → Type 0
Begins [] = Unit
Begins (s ∷ r) = ((s.uses ≡ []) × (s.has_results ≡ false) × IsPaired r) ⊎ ((s.uses ≢ []) × Rest s r)

pub IsPaired-Begins : {l : List Shape} → IsPaired l → Begins l
IsPaired-Begins nil = tt
IsPaired-Begins (plain u h p) = inl (u, h, p)
IsPaired-Begins (exchange u a v p) = inr (u, (a, v, p))

pub IsPaired-append : (l r : List Shape) → IsPaired l → IsPaired r → IsPaired (l ++ r)
IsPaired-append _ r nil q = q
IsPaired-append _ r (plain u h p) q = plain u h (IsPaired-append _ r p q)
IsPaired-append _ r (exchange u a v p) q = exchange u a v (IsPaired-append _ r p q)
