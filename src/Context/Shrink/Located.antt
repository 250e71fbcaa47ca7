-- ===== src/Context/Shrink/Located.antt =====
-- The location that a scan reports holds the content that it reports.
use temporal_agent_harness_e.Prelude.{
  ℕ, suc, String, ◌≡◌, refl, sym, ap, ◌∙◌, inl, inr, true, Option, none, some, List, [], ◌∷◌, ◌++◌,
  append_assoc, arith, ltb, Bool-cases, length, get_elem?, length-append,
}
use temporal_agent_harness_e.Prelude.Text.{text_length}
use temporal_agent_harness_e.Json.{Dict}
use temporal_agent_harness_e.Messages.{Content, text, blocks, Message}
use temporal_agent_harness_e.Context.Shrink.{
  Kind, whole_text, Location, location, larger, payload, offer, scan_blocks, scan_content,
  scan_messages, largest_location,
}

pub data Found (k : Kind) (ms : List Message) : Location → Type 0 where
  in_text :
      {i : ℕ} {s : String} (m : Message)
      → get_elem? ms i ≡ some m
      → m.content ≡ text s
      → whole_text k ≡ true
      → Found k ms (location i none s)
  in_block :
      {i j : ℕ} {s : String} (m : Message) (bs : List Dict) (b : Dict)
      → get_elem? ms i ≡ some m
      → m.content ≡ blocks bs
      → get_elem? bs j ≡ some b
      → payload k b ≡ some s
      → Found k ms (location i (some j) s)

abbrev pub AnyFound : Kind → List Message → Option Location → Type 0
AnyFound k ms none = Unit
AnyFound k ms (some l) = Found k ms l

larger-AnyFound :
    (k : Kind) (ms : List Message) (found : Option Location) (l : Location)
    → AnyFound k ms found
    → Found k ms l
    → AnyFound k ms (larger found l)
unfolding larger
larger-AnyFound k ms none l h f = f
larger-AnyFound k ms (some m) l h f =
    elim (Bool-cases (ltb (text_length m.original) (text_length l.original))) [
      | inl e ↦ rw e f
      | inr e ↦ rw e h
    ]

get_elem?-append {ℓ} :
    {A : Type ℓ} (xs ys : List A) (y : A) → get_elem? (xs ++ y ∷ ys) (length xs) ≡ some y
get_elem?-append [] ys y = refl
get_elem?-append (x ∷ xs) ys y = get_elem?-append xs ys y

snoc_append {ℓ} : {A : Type ℓ} (xs ys : List A) (y : A) → (xs ++ y ∷ []) ++ ys ≡ xs ++ y ∷ ys
snoc_append xs ys y = append_assoc xs (y ∷ []) ys

length-snoc {ℓ} : {A : Type ℓ} (xs : List A) (y : A) → length (xs ++ y ∷ []) ≡ suc (length xs)
length-snoc xs y = omega (arith, length-append xs (y ∷ []))

module _ (k : Kind) (all_messages : List Message) where
  offer-AnyFound :
      (m : Message) (i : ℕ) (seen bs : List Dict) (b : Dict) (o : Option String)
      (found : Option Location)
      → get_elem? all_messages i ≡ some m
      → m.content ≡ blocks (seen ++ b ∷ bs)
      → payload k b ≡ o
      → AnyFound k all_messages found
      → AnyFound k all_messages (offer i (length seen) o found)
  unfolding offer
  offer-AnyFound m i seen bs b none found at whole e h = h
  offer-AnyFound m i seen bs b (some s) found at whole e h =
      larger-AnyFound k all_messages found _ h
        (in_block m (seen ++ b ∷ bs) b at whole (get_elem?-append seen bs b) e)

  scan_blocks-AnyFound :
      (m : Message) (i : ℕ) (seen bs : List Dict) (found : Option Location)
      → get_elem? all_messages i ≡ some m
      → m.content ≡ blocks (seen ++ bs)
      → AnyFound k all_messages found
      → AnyFound k all_messages (scan_blocks k i (length seen) bs found)
  unfolding scan_blocks
  scan_blocks-AnyFound m i seen [] found at whole h = h
  scan_blocks-AnyFound m i seen (b ∷ bs) found at whole h = rw (length-snoc seen b) at (
      scan_blocks-AnyFound m i (seen ++ b ∷ []) bs _ at (rw (snoc_append seen bs b) whole)
        (offer-AnyFound m i seen bs b (payload k b) found at whole refl h))

  scan_content-AnyFound :
      (m : Message) (i : ℕ) (c : Content) (found : Option Location)
      → get_elem? all_messages i ≡ some m
      → m.content ≡ c
      → AnyFound k all_messages found
      → AnyFound k all_messages (scan_content k i c found)
  unfolding scan_content
  scan_content-AnyFound m i (text s) found at whole h = elim (Bool-cases (whole_text k)) [
    | inl e ↦ rw e (larger-AnyFound k all_messages found _ h (in_text m at whole e))
    | inr e ↦ rw e h
  ]
  scan_content-AnyFound m i (blocks bs) found at whole h =
      scan_blocks-AnyFound m i [] bs found at whole h

  scan_messages-AnyFound :
      (seen ms : List Message) (found : Option Location)
      → all_messages ≡ seen ++ ms
      → AnyFound k all_messages found
      → AnyFound k all_messages (scan_messages k (length seen) ms found)
  unfolding scan_messages
  scan_messages-AnyFound seen [] found e h = h
  scan_messages-AnyFound seen (m ∷ ms) found e h = rw (length-snoc seen m) at (
      scan_messages-AnyFound (seen ++ m ∷ []) ms _ (e ∙ sym (snoc_append seen ms m)) (
        scan_content-AnyFound m (length seen) m.content found
          (ap (λ l. get_elem? l (length seen)) e ∙ get_elem?-append seen ms m) refl h))

pub largest_location-Found :
    (k : Kind) (ms : List Message) (l : Location) → largest_location k ms ≡ some l → Found k ms l
unfolding largest_location
largest_location-Found k ms l e = rw e at (scan_messages-AnyFound k ms [] ms none refl tt)
