-- ===== src/Context/Shrink/Keeps.antt =====
-- A replacement changes one content and nothing else, and its length is accounted for.
use temporal_agent_harness_e.Prelude.{
  ℕ, zero, suc, ◌+◌, ◌<◌, String, ◌≡◌, refl, sym, subst, inl, inr, some, List, [], ◌∷◌, arith,
  Bool-cases, get_elem?, set,
}
use temporal_agent_harness_e.Prelude.Text.{text_length}
use temporal_agent_harness_e.Prelude.Outcome.{Outcome, ok}
use temporal_agent_harness_e.Json.{Value, Dict, field_is, get_str-put, field_is_ne, field_is-put_ne}
use temporal_agent_harness_e.Messages.{text, blocks, Message, message}
use temporal_agent_harness_e.Context.Shrink.{
  Kind, tool_results, texts, Location, payload, with_content, set_block_content, replaced_message,
  replace_at, blocks_weight, content_weight, weight,
}
use temporal_agent_harness_e.Context.Same.{
  SameBlock, SameBlock-put, SameBlocks-set, SameMessage, SameMessage-blocks, SameMessage-text,
  SameMessages, SameMessages-set,
}
use temporal_agent_harness_e.Context.Shrink.Shorter.{
  ShorterMessages, ShorterMessages-set, ShorterBlocks-set, payload-some, with_content-Shorter,
}
use temporal_agent_harness_e.Context.Shrink.Located.{Found, in_text, in_block}

with_content-SameBlock : (b : Dict) (s : String) → SameBlock b (with_content b s)
unfolding with_content
with_content-SameBlock b s = elim (Bool-cases (field_is "type" "text" b)) [
  | inl e ↦ rw e (SameBlock-put "text" (Value.str s) b refl refl refl)
  | inr e ↦ rw e (SameBlock-put "content" (Value.str s) b refl refl refl)
]

payload-with_content :
    (k : Kind) (b : Dict) (s t : String)
    → payload k b ≡ some s
    → payload k (with_content b t) ≡ some t
unfolding payload with_content
payload-with_content tool_results b s t h =
    let typed = (payload-some tool_results b h).0 in
    let no_text = field_is_ne "type" "tool_result" "text" b refl typed in
    rw (
      no_text,
      field_is-put_ne "content" "type" "tool_result" (Value.str t) b refl,
      typed,
      get_str-put "content" t b,
    )
payload-with_content texts b s t h =
    let typed = (payload-some texts b h).0 in
    rw (
      typed,
      field_is-put_ne "text" "type" "text" (Value.str t) b refl,
      typed,
      get_str-put "text" t b,
    )

blocks_weight-set :
    (k : Kind) (bs : List Dict) (j : ℕ) (b c : Dict) (s t : String)
    → get_elem? bs j ≡ some b
    → payload k b ≡ some s
    → payload k c ≡ some t
    → blocks_weight k (set bs j c) + text_length s ≡ blocks_weight k bs + text_length t
blocks_weight-set k [] j b c s t e p q = cc
blocks_weight-set k (a ∷ bs) zero b c s t e p q =
    let same : a ≡ b = cc in rw (same, p, q) (omega arith)
blocks_weight-set k (a ∷ bs) (suc j) b c s t e p q =
    omega (arith, blocks_weight-set k bs j b c s t e p q)

weight-set :
    (k : Kind) (ms : List Message) (i : ℕ) (m n : Message) (s t : String)
    → get_elem? ms i ≡ some m
    → content_weight k n.content + text_length s ≡ content_weight k m.content + text_length t
    → weight k (set ms i n) + text_length s ≡ weight k ms + text_length t
weight-set k [] i m n s t e h = cc
weight-set k (a ∷ ms) zero m n s t e h = let same : a ≡ m = cc in rw same (omega arith)
weight-set k (a ∷ ms) (suc i) m n s t e h = omega (arith, weight-set k ms i m n s t e h)

-- What a replacement gives: the conversation with one content of the location's length exchanged.
pub record Replaced (k : Kind) (ms : List Message) (l : Location) (t : String)
    (r : Outcome (List Message)) : Type 0 where
  pub result : List Message
  pub returned : r ≡ ok result
  pub same : SameMessages ms result
  pub shorter : text_length t < text_length l.original → ShorterMessages ms result
  pub weighed : weight k result + text_length l.original ≡ weight k ms + text_length t

pub replace_at-Replaced :
    (k : Kind) (ms : List Message) (l : Location) (t : String)
    → Found k ms l
    → Replaced k ms l t (replace_at ms l t)
unfolding replace_at set_block_content replaced_message
replace_at-Replaced k ms _ t (in_text {i} {s} m e c w) = record {
  result = set ms i (message m.role (text t));
  returned = rw e;
  same = SameMessages-set ms i m _ e (
      subst (λ x. SameMessage (message m.role x) (message m.role (text t))) (sym c)
        (SameMessage-text m.role s t));
  shorter = λ less. ShorterMessages-set ms i m (text t) e (rw c (inr less));
  weighed = weight-set k ms i m _ s t e (rw (c, w) (omega arith));
}
replace_at-Replaced k ms _ t (in_block {i} {j} {s} m bs b e c f p) = record {
  result = set ms i (message m.role (blocks (set bs j (with_content b t))));
  returned = rw (e, c, f);
  same = SameMessages-set ms i m _ e (
      subst
        (λ x.
          SameMessage (message m.role x) (message m.role (blocks (set bs j (with_content b t)))))
        (sym c)
        (SameMessage-blocks m.role (SameBlocks-set bs j b _ f (with_content-SameBlock b t))));
  shorter = λ less.
      ShorterMessages-set ms i m (blocks (set bs j (with_content b t))) e
        (rw c (ShorterBlocks-set bs j b _ f (with_content-Shorter k b s t p less)));
  weighed =
      weight-set k ms i m _ s t e
        (rw c (blocks_weight-set k bs j b _ s t f p (payload-with_content k b s t p)));
}
