-- ===== src/Context/Shrink/Shorter.antt =====
-- What the truncating loops leave of contents: every text is kept or shorter, and nothing else changes.
use temporal_agent_harness_e.Prelude.{
  ℕ, zero, suc, ◌<◌, String, ◌≡◌, refl, sym, ap, ◌∙◌, ◌⊎◌, inl, inr, true, none, some, List, [],
  ◌∷◌, arith, str_eq, eq_iff, Bool-cases, get_elem?, set,
}
use temporal_agent_harness_e.Prelude.Text.{text_length}
use temporal_agent_harness_e.Json.{
  Value, Dict, get, put, get_str, field_is, as_str-some, get-put_ne, get-put_same, field_is_ne,
}
use temporal_agent_harness_e.Messages.{Content, text, blocks, Message, message}
use temporal_agent_harness_e.Context.Shrink.{
  Kind, tool_results, texts, block_type, content_key, payload, with_content,
}

-- The value under a key is kept, or it is a text in the place of a longer one.
abbrev pub ShorterAt : String → Dict → Dict → Type 0
ShorterAt key b c =
    (get key c ≡ get key b)
    ⊎ ((key ≡ "text" ⊎ key ≡ "content")
        × (s : String) × (t : String) × (get key b ≡ some (Value.str s))
        × (get key c ≡ some (Value.str t))
        × (text_length t < text_length s))

pub record ShorterBlock (b c : Dict) : Type 0 where
  pub at : (key : String) → ShorterAt key b c

abbrev pub ShorterBlocks : List Dict → List Dict → Type 0
ShorterBlocks [] [] = Unit
ShorterBlocks [] (c ∷ cs) = ⊥
ShorterBlocks (b ∷ bs) [] = ⊥
ShorterBlocks (b ∷ bs) (c ∷ cs) = ShorterBlock b c × ShorterBlocks bs cs

abbrev pub ShorterContent : Content → Content → Type 0
ShorterContent (text s) (text t) = (t ≡ s) ⊎ (text_length t < text_length s)
ShorterContent (text s) (blocks cs) = ⊥
ShorterContent (blocks bs) (text t) = ⊥
ShorterContent (blocks bs) (blocks cs) = ShorterBlocks bs cs

abbrev pub ShorterMessages : List Message → List Message → Type 0
ShorterMessages [] [] = Unit
ShorterMessages [] (n ∷ ns) = ⊥
ShorterMessages (m ∷ ms) [] = ⊥
ShorterMessages (m ∷ ms) (n ∷ ns) =
    (n.role ≡ m.role) × ShorterContent m.content n.content × ShorterMessages ms ns

ShorterBlock-refl : (b : Dict) → ShorterBlock b b
ShorterBlock-refl b = record { at = λ key. inl refl }

ShorterAt-trans :
    (key : String) (a b c : Dict) → ShorterAt key a b → ShorterAt key b c → ShorterAt key a c
ShorterAt-trans key a b c (inl x) (inl y) = inl (y ∙ x)
ShorterAt-trans key a b c (inl x) (inr (named, s, t, before, after, less)) =
    inr (named, s, t, sym x ∙ before, after, less)
ShorterAt-trans key a b c (inr (named, s, t, before, after, less)) (inl y) =
    inr (named, s, t, before, y ∙ after, less)
ShorterAt-trans key a b c (inr (named, s, t, before, after, less))
      (inr (_, u, v, before', after', less')) =
    let same : t ≡ u = cc (after, before') in
    inr (named, s, v, before, after', omega (arith, less, less', ap text_length same))

ShorterBlocks-refl : (bs : List Dict) → ShorterBlocks bs bs
ShorterBlocks-refl [] = tt
ShorterBlocks-refl (b ∷ bs) = (ShorterBlock-refl b, ShorterBlocks-refl bs)

ShorterBlocks-trans :
    (bs cs ds : List Dict) → ShorterBlocks bs cs → ShorterBlocks cs ds → ShorterBlocks bs ds
ShorterBlocks-trans [] [] [] h k = tt
ShorterBlocks-trans [] [] (d ∷ ds) h k = elim k [ ]
ShorterBlocks-trans [] (c ∷ cs) ds h k = elim h [ ]
ShorterBlocks-trans (b ∷ bs) [] ds h k = elim h [ ]
ShorterBlocks-trans (b ∷ bs) (c ∷ cs) [] h k = elim k [ ]
ShorterBlocks-trans (b ∷ bs) (c ∷ cs) (d ∷ ds) h k = (
  record { at = λ key. ShorterAt-trans key b c d (h.0.at key) (k.0.at key) },
  ShorterBlocks-trans bs cs ds h.1 k.1,
)

ShorterContent-refl : (c : Content) → ShorterContent c c
ShorterContent-refl (text s) = inl refl
ShorterContent-refl (blocks bs) = ShorterBlocks-refl bs

ShorterContent-trans :
    (a b c : Content) → ShorterContent a b → ShorterContent b c → ShorterContent a c
ShorterContent-trans (text s) (text t) (text u) (inl x) (inl y) = inl (y ∙ x)
ShorterContent-trans (text s) (text t) (text u) (inl x) (inr y) =
    inr (omega (arith, y, ap text_length x))
ShorterContent-trans (text s) (text t) (text u) (inr x) (inl y) =
    inr (omega (arith, x, ap text_length y))
ShorterContent-trans (text s) (text t) (text u) (inr x) (inr y) = inr (omega (arith, x, y))
ShorterContent-trans (text s) (text t) (blocks ds) h k = elim k [ ]
ShorterContent-trans (text s) (blocks cs) c h k = elim h [ ]
ShorterContent-trans (blocks bs) (text t) c h k = elim h [ ]
ShorterContent-trans (blocks bs) (blocks cs) (text u) h k = elim k [ ]
ShorterContent-trans (blocks bs) (blocks cs) (blocks ds) h k = ShorterBlocks-trans bs cs ds h k

pub ShorterMessages-refl : (ms : List Message) → ShorterMessages ms ms
ShorterMessages-refl [] = tt
ShorterMessages-refl (m ∷ ms) = (refl, ShorterContent-refl m.content, ShorterMessages-refl ms)

pub ShorterMessages-trans :
    (ls ms ns : List Message)
    → ShorterMessages ls ms
    → ShorterMessages ms ns
    → ShorterMessages ls ns
ShorterMessages-trans [] [] [] h k = tt
ShorterMessages-trans [] [] (n ∷ ns) h k = elim k [ ]
ShorterMessages-trans [] (m ∷ ms) ns h k = elim h [ ]
ShorterMessages-trans (l ∷ ls) [] ns h k = elim h [ ]
ShorterMessages-trans (l ∷ ls) (m ∷ ms) [] h k = elim k [ ]
ShorterMessages-trans (l ∷ ls) (m ∷ ms) (n ∷ ns) h k = (
  k.0 ∙ h.0,
  ShorterContent-trans l.content m.content n.content h.1 k.1,
  ShorterMessages-trans ls ms ns h.2 k.2,
)

pub ShorterBlocks-set :
    (bs : List Dict) (j : ℕ) (b c : Dict)
    → get_elem? bs j ≡ some b
    → ShorterBlock b c
    → ShorterBlocks bs (set bs j c)
ShorterBlocks-set [] j b c e s = cc
ShorterBlocks-set (a ∷ bs) zero b c e s =
    let same : a ≡ b = cc in rw same (s, ShorterBlocks-refl bs)
ShorterBlocks-set (a ∷ bs) (suc j) b c e s = (ShorterBlock-refl a, ShorterBlocks-set bs j b c e s)

pub ShorterMessages-set :
    (ms : List Message) (i : ℕ) (m : Message) (c : Content)
    → get_elem? ms i ≡ some m
    → ShorterContent m.content c
    → ShorterMessages ms (set ms i (message m.role c))
ShorterMessages-set [] i m c e s = cc
ShorterMessages-set (a ∷ ms) zero m c e s =
    let same : a ≡ m = cc in rw same (refl, s, ShorterMessages-refl ms)
ShorterMessages-set (a ∷ ms) (suc i) m c e s =
    (refl, ShorterContent-refl a.content, ShorterMessages-set ms i m c e s)

-- A shorter text under the key of the old one.
put-Shorter :
    (k s t : String) (b : Dict)
    → (k ≡ "text" ⊎ k ≡ "content")
    → get_str k b ≡ some s
    → text_length t < text_length s
    → ShorterBlock b (put k (Value.str t) b)
unfolding get_str
put-Shorter k s t b named old less = record {
  at = λ key. elim (Bool-cases (str_eq k key)) [
    | inl e ↦
        let same : k ≡ key = (eq_iff k key).0 e in
        rw (← same)
          (inr (named, s, t, as_str-some (get k b) s old, get-put_same k (Value.str t) b, less))
    | inr e ↦ inl (get-put_ne k key (Value.str t) b e)
  ];
}

none-ne-some : {A : Type 0} {x : A} → none ≡ some x → ⊥
none-ne-some h = cc

pub payload-some :
    (k : Kind) (b : Dict) {s : String}
    → payload k b ≡ some s
    → (field_is "type" (block_type k) b ≡ true) × (get_str (content_key k) b ≡ some s)
unfolding payload
payload-some k b h = elim (Bool-cases (field_is "type" (block_type k) b)) [
  | inl e ↦ (e, rw e at h)
  | inr e ↦ absurd (none-ne-some (rw e at h))
]

pub with_content-Shorter :
    (k : Kind) (b : Dict) (s t : String)
    → payload k b ≡ some s
    → text_length t < text_length s
    → ShorterBlock b (with_content b t)
unfolding with_content
with_content-Shorter tool_results b s t old less =
    let (typed, held) = payload-some tool_results b old in
    rw (field_is_ne "type" "tool_result" "text" b refl typed)
      (put-Shorter "content" s t b (inr refl) held less)
with_content-Shorter texts b s t old less =
    let (typed, held) = payload-some texts b old in
    rw typed (put-Shorter "text" s t b (inl refl) held less)
