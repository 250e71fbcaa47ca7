-- ===== src/Prelude/Text.antt =====
-- Texts as Python's `str`: `len`, slices from the left, membership, and decimal numbers.
use Prim.Native.Nat.{ℕ, zero, suc, ◌/◌, ◌%◌}
use Prim.Native.Char.{Char, code}
use Prim.Native.String.{String, ◌++◌ as join}
use mathlib.Core.Path.{◌≡◌, refl, ap}
use mathlib.Core.Bool.{Bool, true, false, not, ◌&&◌, ◌||◌}
use mathlib.Core.Option.{Option, none, some}
use mathlib.Core.List.{List, [], ◌∷◌}
use mathlib.Core.Logic.{inl, inr}
use text.Mathlib.TextEquality.{eq_iff}
use text.Mathlib.TextLemmas.{cons-append}
use native.Mathlib.Omega.{arith}
use text.Mathlib.Text.{◌==◌ as str_eq}
use temporal_agent_harness_e.Prelude.Tests.{ltb, leb, ◌==◌, if◌then◌else◌, Bool-cases}
use temporal_agent_harness_e.Prelude.Lists.{get_elem?}

-- len(s): the number of characters.
unfoldable pub text_length : String → ℕ
text_length String.[] = 0
text_length (String.◌∷◌ c s) = suc (text_length s)

-- s[:n], for n >= 0
unfoldable pub text_take : ℕ → String → String
text_take zero s = ""
text_take (suc n) String.[] = ""
text_take (suc n) (String.◌∷◌ c s) = String.◌∷◌ c (text_take n s)

-- `not s`
abbrev pub is_blank : String → Bool
is_blank s = str_eq s ""

-- `s in l`
unfoldable pub contains : List String → String → Bool
contains [] s = false
contains (x ∷ xs) s = str_eq x s || contains xs s

abbrev digits : List String
digits = "0" ∷ "1" ∷ "2" ∷ "3" ∷ "4" ∷ "5" ∷ "6" ∷ "7" ∷ "8" ∷ "9" ∷ []

abbrev or_blank : Option String → String
or_blank none = ""
or_blank (some t) = t

digit : ℕ → String
digit d = or_blank (get_elem? digits d)

decimal_from : ℕ → ℕ → String
decimal_from zero n = ""
decimal_from (suc fuel) n =
    let high = decimal_from fuel (n / 10) in
    if ltb n 10 then digit n else join high (digit (n % 10))

-- str(n): a number has no more digits than its value plus one
unfoldable pub decimal : ℕ → String
unfolding decimal_from digit
decimal n = decimal_from (suc n) n

pub contains-cons :
    (x s : String) (xs : List String) → contains (x ∷ xs) s ≡ (str_eq x s || contains xs s)
unfolding contains
contains-cons x s xs = refl

decimal_example : decimal 2048 ≡ "2048"
unfolding decimal
decimal_example = refl

-- str.isspace of one character
unfoldable pub is_space : ℕ → Bool
is_space c =
    (leb 9 c && leb c 13)
    || (leb 28 c && leb c 32)
    || c == 133
    || c == 160
    || c == 5760
    || (leb 8192 c && leb c 8202)
    || c == 8232
    || c == 8233
    || c == 8239
    || c == 8287
    || c == 12288

unfoldable pub lstrip : String → String
unfolding is_space
lstrip String.[] = ""
lstrip (String.◌∷◌ c s) = let rest = lstrip s in if is_space (code c) then rest else String.◌∷◌ c s

unfoldable pub rstrip : String → String
unfolding is_space
rstrip String.[] = ""
rstrip (String.◌∷◌ c s) =
    let rest = rstrip s in if is_blank rest && is_space (code c) then "" else String.◌∷◌ c rest

-- s.strip()
unfoldable pub strip : String → String
unfolding lstrip rstrip
strip s = lstrip (rstrip s)

-- sep.join(lines)
unfoldable pub join_lines : String → List String → String
join_lines sep [] = ""
join_lines sep (x ∷ []) = x
join_lines sep (x ∷ y ∷ rest) = join x (join sep (join_lines sep (y ∷ rest)))

strip_example : strip "  a b\n" ≡ "a b"
unfolding strip
strip_example = refl

is_blank-cons : (c : Char) (s : String) → is_blank (String.◌∷◌ c s) ≡ false
unfolding text_length
is_blank-cons c s = elim (Bool-cases (is_blank (String.◌∷◌ c s))) [
  | inl e ↦ absurd (no_length (ap text_length ((eq_iff (String.◌∷◌ c s) "").0 e)))
  | inr e ↦ e
]
  where
    no_length : {n : ℕ} → suc n ≡ 0 → ⊥
    no_length h = omega arith

keep_if : (b : Bool) (s t : String) → (if b && false then s else t) ≡ t
keep_if b s t = ground arith

rstrip-cons :
    (c : Char) (s : String)
    → is_space (code c) ≡ false
    → rstrip (String.◌∷◌ c s) ≡ String.◌∷◌ c (rstrip s)
unfolding rstrip
rstrip-cons c s h = rw h (keep_if (is_blank (rstrip s)) "" (String.◌∷◌ c (rstrip s)))

lstrip-cons :
    (c : Char) (s : String) → is_space (code c) ≡ false → lstrip (String.◌∷◌ c s) ≡ String.◌∷◌ c s
unfolding lstrip
lstrip-cons c s h = rw h refl

-- The first character is no space.
unfoldable pub starts_visibly : String → Bool
starts_visibly String.[] = false
starts_visibly (String.◌∷◌ c s) = not (is_space (code c))

pub starts_visibly-join :
    (s t : String) → starts_visibly s ≡ true → starts_visibly (join s t) ≡ true
unfolding starts_visibly
starts_visibly-join String.[] t h = cc
starts_visibly-join (String.◌∷◌ c s) t h = rw (cons-append c s t) h

-- A text that does not begin with a space is not blank once it is stripped.
pub is_blank-strip : (s : String) → starts_visibly s ≡ true → is_blank (strip s) ≡ false
unfolding strip starts_visibly
is_blank-strip String.[] h = cc
is_blank-strip (String.◌∷◌ c s) h =
    let no_space : is_space (code c) ≡ false = ground arith in
    rw (rstrip-cons c s no_space, lstrip-cons c (rstrip s) no_space) (is_blank-cons c (rstrip s))
