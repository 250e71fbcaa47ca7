-- ===== src/Context/Same.antt =====
-- What shortening, clearing and previewing leave of a message: its role, its tool calls and their
-- results, and that it may be stored.
use temporal_agent_harness_e.Prelude.{
  ℕ, zero, suc, String, ◌≡◌, refl, ◌∙◌, true, false, some, List, [], ◌∷◌, str_eq, get_elem?, set,
  All,
}
use temporal_agent_harness_e.Json.{Value, Dict, put, get_str, field_is, get_str-put_ne}
use temporal_agent_harness_e.Messages.{
  Role, text, blocks, Message, message, is_normal_block, IsNormal, AllNormal,
}
use temporal_agent_harness_e.Context.{shape, shapes}
use temporal_agent_harness_e.Context.{block_ids, any_of_type}

pub record SameBlock (b c : Dict) : Type 0 where
  pub type : get_str "type" c ≡ get_str "type" b
  pub id : get_str "id" c ≡ get_str "id" b
  pub tool_use_id : get_str "tool_use_id" c ≡ get_str "tool_use_id" b

pub SameBlock-refl : (b : Dict) → SameBlock b b
SameBlock-refl b = record { type = refl; id = refl; tool_use_id = refl }

-- A new value under another key.
pub SameBlock-put :
    (k : String) (v : Value) (b : Dict)
    → str_eq k "type" ≡ false
    → str_eq k "id" ≡ false
    → str_eq k "tool_use_id" ≡ false
    → SameBlock b (put k v b)
SameBlock-put k v b t i u = record {
  type = get_str-put_ne k "type" v b t;
  id = get_str-put_ne k "id" v b i;
  tool_use_id = get_str-put_ne k "tool_use_id" v b u;
}

pub data SameBlocks : List Dict → List Dict → Type 0 where
  nil : SameBlocks [] []
  cons :
      {b c : Dict} {bs cs : List Dict}
      → SameBlock b c
      → SameBlocks bs cs
      → SameBlocks (b ∷ bs) (c ∷ cs)

pub SameBlocks-refl : (bs : List Dict) → SameBlocks bs bs
SameBlocks-refl [] = nil
SameBlocks-refl (b ∷ bs) = cons (SameBlock-refl b) (SameBlocks-refl bs)

pub SameBlocks-set :
    (bs : List Dict) (j : ℕ) (b c : Dict)
    → get_elem? bs j ≡ some b
    → SameBlock b c
    → SameBlocks bs (set bs j c)
SameBlocks-set [] j b c e s = cc
SameBlocks-set (a ∷ bs) zero b c e s =
    let same : a ≡ b = cc in rw same (cons s (SameBlocks-refl bs))
SameBlocks-set (a ∷ bs) (suc j) b c e s = cons (SameBlock-refl a) (SameBlocks-set bs j b c e s)

block_ids-same :
    (t key : String) {bs cs : List Dict}
    → ((b c : Dict) → SameBlock b c → get_str key c ≡ get_str key b)
    → SameBlocks bs cs
    → block_ids t key cs ≡ block_ids t key bs
unfolding block_ids field_is
block_ids-same t key keeps nil = refl
block_ids-same t key keeps (cons {b} {c} {bs} {cs} s r) =
    rw (s.type, keeps b c s, block_ids-same t key keeps r)

any_of_type-same :
    (t : String) {bs cs : List Dict} → SameBlocks bs cs → any_of_type t cs ≡ any_of_type t bs
unfolding any_of_type field_is
any_of_type-same t nil = refl
any_of_type-same t (cons s r) = rw (s.type, any_of_type-same t r)

normal-same :
    {bs cs : List Dict}
    → SameBlocks bs cs
    → All (λ b. is_normal_block b ≡ true) bs
    → All (λ b. is_normal_block b ≡ true) cs
normal-same nil h = tt
normal-same (cons s r) h = (rw (s.type, is_normal_block) h.0, normal-same r h.1)

pub record SameMessage (m n : Message) : Type 0 where
  pub role : n.role ≡ m.role
  pub shape_eq : shape n ≡ shape m
  pub normal : IsNormal m → IsNormal n

pub SameMessage-refl : (m : Message) → SameMessage m m
SameMessage-refl m = record { role = refl; shape_eq = refl; normal = λ h. h }

SameMessage-trans : {l m n : Message} → SameMessage l m → SameMessage m n → SameMessage l n
SameMessage-trans s t = record {
  role = t.role ∙ s.role;
  shape_eq = t.shape_eq ∙ s.shape_eq;
  normal = λ h. t.normal (s.normal h);
}

pub SameMessage-blocks :
    (r : Role) {bs cs : List Dict}
    → SameBlocks bs cs
    → SameMessage (message r (blocks bs)) (message r (blocks cs))
unfolding shape
SameMessage-blocks r {bs} {cs} s = record {
  role = refl;
  shape_eq = λ i. record {
    uses = block_ids-same "tool_use" "id" (λ b c h. h.id) s i;
    results = block_ids-same "tool_result" "tool_use_id" (λ b c h. h.tool_use_id) s i;
    has_results = any_of_type-same "tool_result" s i;
  };
  normal = normal-same s;
}

pub SameMessage-text :
    (r : Role) (s t : String) → SameMessage (message r (text s)) (message r (text t))
unfolding shape
SameMessage-text r s t = record { role = refl; shape_eq = refl; normal = λ h. h }

pub data SameMessages : List Message → List Message → Type 0 where
  nil : SameMessages [] []
  cons :
      {m n : Message} {ms ns : List Message}
      → SameMessage m n
      → SameMessages ms ns
      → SameMessages (m ∷ ms) (n ∷ ns)

pub SameMessages-refl : (ms : List Message) → SameMessages ms ms
SameMessages-refl [] = SameMessages.nil
SameMessages-refl (m ∷ ms) = SameMessages.cons (SameMessage-refl m) (SameMessages-refl ms)

pub SameMessages-trans :
    {ls ms ns : List Message} → SameMessages ls ms → SameMessages ms ns → SameMessages ls ns
SameMessages-trans SameMessages.nil q = q
SameMessages-trans (SameMessages.cons s r) (SameMessages.cons t q) =
    SameMessages.cons (SameMessage-trans s t) (SameMessages-trans r q)

pub SameMessages-set :
    (ms : List Message) (i : ℕ) (m n : Message)
    → get_elem? ms i ≡ some m
    → SameMessage m n
    → SameMessages ms (set ms i n)
SameMessages-set [] i m n e s = cc
SameMessages-set (a ∷ ms) zero m n e s =
    let same : a ≡ m = cc in rw same (SameMessages.cons s (SameMessages-refl ms))
SameMessages-set (a ∷ ms) (suc i) m n e s =
    SameMessages.cons (SameMessage-refl a) (SameMessages-set ms i m n e s)

pub shapes-same : {ms ns : List Message} → SameMessages ms ns → shapes ns ≡ shapes ms
shapes-same SameMessages.nil = refl
shapes-same (SameMessages.cons s r) = cc (s.shape_eq, shapes-same r)

pub AllNormal-same : {ms ns : List Message} → SameMessages ms ns → AllNormal ms → AllNormal ns
AllNormal-same SameMessages.nil h = tt
AllNormal-same (SameMessages.cons s r) h = (s.normal h.0, AllNormal-same r h.1)
