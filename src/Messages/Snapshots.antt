-- ===== src/Messages/Snapshots.antt =====
-- Snapshots of messages: agent_harness/messages.py (normalize_message) and the snapshot functions of
-- agent_harness/sliding_window_context_manager.py.
use temporal_agent_harness_e.Prelude.{
  String, ◌≡◌, refl, true, Option, some, List, [], ◌∷◌, arith, str_eq, if◌then◌else◌, All,
}
use temporal_agent_harness_e.Prelude.Outcome.{
  Outcome, ok, raise, value_error, ◌>>=◌, Yields, Yields-bind, Yields-ok,
}
use temporal_agent_harness_e.Json.{Value, Items, Dict, get, get_str, to_items}
use temporal_agent_harness_e.Messages.{
  Role, user, assistant, Content, text, blocks, Message, message, is_normal_block, IsNormal,
  AllNormal, content_blocks,
}

abbrev pub role_text : Role → String
role_text user = "user"
role_text assistant = "assistant"

content_value : Content → Value
content_value (text s) = Value.str s
content_value (blocks bs) = Value.arr (to_items bs)

unfoldable pub message_to_snapshot : Message → Value
unfolding content_value
message_to_snapshot m = Value.obj (
    Dict.field "role" (Value.str (role_text m.role))
      (Dict.field "content" (content_value m.content) Dict.end))

unfoldable pub snapshots : List Message → Items
snapshots [] = Items.nil
snapshots (m ∷ ms) = Items.cons (message_to_snapshot m) (snapshots ms)

-- _block_mapping: what is not a dict is read as the empty dict
abbrev block_mapping : Value → Dict
block_mapping (Value.obj d) = d
block_mapping _ = Dict.end

normalize_typed : Dict → Outcome Dict
normalize_typed b =
    if is_normal_block b
    then ok b
    else raise (value_error "Agent message block type must be a string")

normalize_dict : Dict → Outcome Dict
unfolding normalize_typed
normalize_dict Dict.end = raise (value_error "Agent message block must be a dict-like object")
normalize_dict (Dict.field k v d) = normalize_typed (Dict.field k v d)

normalize_block : Value → Outcome Dict
unfolding normalize_dict
normalize_block v = normalize_dict (block_mapping v)

normalize_blocks : Items → Outcome (List Dict)
unfolding normalize_block
normalize_blocks Items.nil = ok []
normalize_blocks (Items.cons v vs) = do b ← normalize_block v; bs ← normalize_blocks vs; ok (b ∷ bs)

parse_role : Option Value → Outcome Role
parse_role (some (Value.str s)) =
    if str_eq s "user"
    then ok user
    else if str_eq s "assistant"
    then ok assistant
    else raise (value_error "Invalid context snapshot role")
parse_role _ = raise (value_error "Invalid context snapshot role")

parse_content : Option Value → Outcome Content
unfolding normalize_blocks
parse_content (some (Value.str s)) = ok (text s)
parse_content (some (Value.arr items)) = do bs ← normalize_blocks items; ok (blocks bs)
parse_content _ = raise (value_error "Context snapshot content must be a string or list")

-- _message_from_snapshot, with the part of normalize_message that its own tests leave
unfoldable pub message_from_snapshot : Value → Outcome Message
unfolding parse_role parse_content
message_from_snapshot (Value.obj d) = do
  role ← parse_role (get "role" d)
  content ← parse_content (get "content" d)
  ok (message role content)
message_from_snapshot _ = raise (value_error "Context snapshot message must be a dict")

unfoldable pub messages_from_snapshots : Items → Outcome (List Message)
messages_from_snapshots Items.nil = ok []
messages_from_snapshots (Items.cons v vs) = do
  m ← message_from_snapshot v
  ms ← messages_from_snapshots vs
  ok (m ∷ ms)

-- _normalize_message
unfoldable pub normalize_message : Message → Outcome Message
normalize_message m = message_from_snapshot (message_to_snapshot m)

unfoldable pub normalize_messages : List Message → Outcome (List Message)
normalize_messages [] = ok []
normalize_messages (m ∷ ms) = do n ← normalize_message m; ns ← normalize_messages ms; ok (n ∷ ns)

normalize_block_lem : (b : Dict) → is_normal_block b ≡ true → normalize_block (Value.obj b) ≡ ok b
unfolding normalize_block get_str get
normalize_block_lem Dict.end h = cc
normalize_block_lem (Dict.field k v d) h = rw h

normalize_blocks-to_items :
    (bs : List Dict)
    → All (λ b. is_normal_block b ≡ true) bs
    → normalize_blocks (to_items bs) ≡ ok bs
unfolding normalize_blocks to_items
normalize_blocks-to_items [] h = refl
normalize_blocks-to_items (b ∷ bs) h =
    cc (normalize_block_lem b h.0, normalize_blocks-to_items bs h.1)

from-to_snapshot_parts :
    (r : Role) (c : Content)
    → All (λ b. is_normal_block b ≡ true) (content_blocks c)
    → message_from_snapshot (message_to_snapshot (message r c)) ≡ ok (message r c)
unfolding message_from_snapshot message_to_snapshot get
from-to_snapshot_parts user (text s) h = refl
from-to_snapshot_parts assistant (text s) h = refl
from-to_snapshot_parts user (blocks bs) h = rw (normalize_blocks-to_items bs h)
from-to_snapshot_parts assistant (blocks bs) h = rw (normalize_blocks-to_items bs h)

-- A stored message comes back from its snapshot.
pub normalize_message_lem : (m : Message) → IsNormal m → normalize_message m ≡ ok m
unfolding normalize_message
normalize_message_lem m h = from-to_snapshot_parts m.role m.content h

-- So does a whole conversation.
pub from-snapshots :
    (ms : List Message) → AllNormal ms → messages_from_snapshots (snapshots ms) ≡ ok ms
unfolding messages_from_snapshots snapshots normalize_message
from-snapshots [] h = refl
from-snapshots (m ∷ ms) h = rw (normalize_message_lem m h.0, from-snapshots ms h.1)

pub normalize_messages_lem : (ms : List Message) → AllNormal ms → normalize_messages ms ≡ ok ms
unfolding normalize_messages
normalize_messages_lem [] h = refl
normalize_messages_lem (m ∷ ms) h = rw (normalize_message_lem m h.0, normalize_messages_lem ms h.1)

normal_of_block : (v : Value) (b : Dict) → normalize_block v ≡ ok b → is_normal_block b ≡ true
unfolding normalize_block
normal_of_block (Value.obj (Dict.field k w d)) b h = ground arith
normal_of_block (Value.obj Dict.end) b h = cc
normal_of_block v b h = cc

abbrev AllNormalBlocks : List Dict → Type 0
AllNormalBlocks = All (λ b. is_normal_block b ≡ true)

normalize_blocks-AllNormalBlocks : (vs : Items) → Yields AllNormalBlocks (normalize_blocks vs)
unfolding normalize_blocks
normalize_blocks-AllNormalBlocks Items.nil = tt
normalize_blocks-AllNormalBlocks (Items.cons v vs) =
    let tail_normal = normalize_blocks-AllNormalBlocks vs in
    Yields-bind AllNormalBlocks (normalize_block v) _ λ b e.
      Yields-bind AllNormalBlocks (normalize_blocks vs) _ λ bs e'.
        (normal_of_block v b e, Yields-ok AllNormalBlocks (normalize_blocks vs) tail_normal e')

parse_content-normal :
    (o : Option Value) → Yields (λ c. AllNormalBlocks (content_blocks c)) (parse_content o)
unfolding parse_content
parse_content-normal (some (Value.arr items)) =
    Yields-bind (λ c. AllNormalBlocks (content_blocks c)) (normalize_blocks items) _
      λ bs e.
        Yields-ok AllNormalBlocks (normalize_blocks items) (normalize_blocks-AllNormalBlocks items)
          e
parse_content-normal (some (Value.str s)) = tt
parse_content-normal _ = tt

-- Only messages that may be stored are read from snapshots.
pub message_from_snapshot-IsNormal : (v : Value) → Yields IsNormal (message_from_snapshot v)
unfolding message_from_snapshot
message_from_snapshot-IsNormal (Value.obj d) =
    Yields-bind IsNormal (parse_role (get "role" d)) _ λ r _.
      Yields-bind IsNormal (parse_content (get "content" d)) _ λ c e.
        Yields-ok (λ c. AllNormalBlocks (content_blocks c)) (parse_content (get "content" d))
          (parse_content-normal (get "content" d)) e
message_from_snapshot-IsNormal _ = tt

pub messages_from_snapshots-AllNormal : (vs : Items) → Yields AllNormal (messages_from_snapshots vs)
unfolding messages_from_snapshots
messages_from_snapshots-AllNormal Items.nil = tt
messages_from_snapshots-AllNormal (Items.cons v vs) =
    let tail_normal = messages_from_snapshots-AllNormal vs in
    Yields-bind AllNormal (message_from_snapshot v) _ λ m e.
      Yields-bind AllNormal (messages_from_snapshots vs) _ λ ms e'. (
        Yields-ok IsNormal (message_from_snapshot v) (message_from_snapshot-IsNormal v) e,
        Yields-ok AllNormal (messages_from_snapshots vs) tail_normal e',
      )
