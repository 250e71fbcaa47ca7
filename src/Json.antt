-- ===== src/Json.antt =====
-- The JSON values that messages, snapshots and tool payloads hold: Python dicts keep their keys in
-- the order of insertion. Floating-point numbers are not modelled.
pub mod Dumps
use temporal_agent_harness_e.Prelude.{
  ℕ, zero, suc, ◌+◌, ◌-◌, ◌*◌, ◌/◌, ◌%◌, ◌≤◌, ◌<◌, min, max, String, ◌≡◌, refl, sym, ap, ◌∙◌, subst,
  ◌≢◌, ◌↔◌, ◌⊎◌, inl, inr, Bool, true, false, not, ◌&&◌, ◌||◌, Option, none, some, List, [], ◌∷◌,
  ◌++◌, map, append-nil, append_assoc, map-append, arith, str_eq, eq_iff, eq_refl, ltb, leb, ◌==◌,
  if◌then◌else◌, Bool-cases, Option-cases, length, get_elem?, set, drop, take, is_empty, all,
  length-append, length-drop, length-set, All, All-append, All-drop, length-map, ltb→lt, lt→ltb,
  leb→le, le→leb, leb_false→lt, &&_iff,
}
use temporal_agent_harness_e.Prelude.Text.{text_length, text_take, is_blank, contains, decimal}
use temporal_agent_harness_e.Prelude.Outcome.{
  Outcome, ok, raise, value_error, type_error, key_error, ◌>>=◌, ◌>>◌, raise_if, IsOk,
}
use temporal_agent_harness_e.Prelude.Loops.{iterate, iterate_inv, iterate_ends}
use temporal_agent_harness_e.Prelude.Int.{
  ℤ, pos, negsuc, ◌+ℤ◌, ◌-ℤ◌, ◌*ℤ◌, ◌≤ℤ◌, ltb_ℤ, leb_ℤ, max_ℤ, min_ℤ, int_eq, pos_part, neg_part,
  int_laws,
}

mutual
  pub data Value : Type 0 where
    null : Value
    bool : Bool → Value
    int : ℤ → Value
    str : String → Value
    arr : Items → Value
    obj : Dict → Value

  pub data Items : Type 0 where
    nil : Items
    cons : Value → Items → Items

  pub data Dict : Type 0 where
    end : Dict
    field : String → Value → Dict → Dict

-- d.get(key)
unfoldable pub get : String → Dict → Option Value
get k end = none
get k (field j v d) = if str_eq j k then some v else get k d

-- d[key] = value
unfoldable pub put : String → Value → Dict → Dict
put k v end = field k v end
put k v (field j w d) = if str_eq j k then field j v d else field j w (put k v d)

abbrev pub as_str : Option Value → Option String
as_str (some (str s)) = some s
as_str _ = none

-- `value = d.get(key)`, when `isinstance(value, str)`
unfoldable pub get_str : String → Dict → Option String
get_str k d = as_str (get k d)

-- d.get(key) == text
is_text : Option String → String → Bool
is_text none s = false
is_text (some t) s = str_eq t s

unfoldable pub field_is : String → String → Dict → Bool
unfolding is_text
field_is k s d = is_text (get_str k d) s

unfoldable pub to_items : List Dict → Items
to_items [] = nil
to_items (d ∷ ds) = cons (obj d) (to_items ds)

unfoldable pub dict_length : Dict → ℕ
dict_length end = 0
dict_length (field k v d) = suc (dict_length d)

-- Python's `==`: the order of a dict's keys does not count.
unfoldable mutual
  pub value_eq : Value → Value → Bool
  value_eq null null = true
  value_eq (bool a) (bool b) = if a then b else not b
  value_eq (bool a) (int n) = int_eq (pos (if a then 1 else 0)) n
  value_eq (int n) (bool a) = int_eq (pos (if a then 1 else 0)) n
  value_eq (int a) (int b) = int_eq a b
  value_eq (str a) (str b) = str_eq a b
  value_eq (arr a) (arr b) = items_eq a b
  value_eq (obj a) (obj b) = dict_length a == dict_length b && dict_within a b
  value_eq _ _ = false

  pub items_eq : Items → Items → Bool
  items_eq nil nil = true
  items_eq (cons a as_) (cons b bs) = value_eq a b && items_eq as_ bs
  items_eq _ _ = false

  pub dict_within : Dict → Dict → Bool
  dict_within end d = true
  dict_within (field k v c) d =
      dict_within c d && elim (get k d) [ none ↦ false | some w ↦ value_eq v w ]

-- Reading a key after writing one.
pub get-put :
    (k j : String) (v : Value) (d : Dict)
    → get j (put k v d) ≡ (if str_eq k j then some v else get j d)
unfolding get put
get-put k j v end = refl
get-put k j v (field i w d) = ground (arith, eq_iff k j, eq_iff i k, eq_iff i j, get-put k j v d)

pub get_str-put_ne :
    (k j : String) (v : Value) (d : Dict) → str_eq k j ≡ false → get_str j (put k v d) ≡ get_str j d
unfolding get_str
get_str-put_ne k j v d h = rw (get-put k j v d, h)

pub get_str-put : (k s : String) (d : Dict) → get_str k (put k (str s) d) ≡ some s
unfolding get_str
get_str-put k s d = rw (get-put k k (str s) d, eq_refl)

is_text_ne :
    (o : Option String) (s t : String)
    → str_eq s t ≡ false
    → is_text o s ≡ true
    → is_text o t ≡ false
unfolding is_text
is_text_ne none s t h e = refl
is_text_ne (some r) s t h e = rw ((eq_iff r s).0 e) h

-- A field that holds one text holds no other.
pub field_is_ne :
    (k s t : String) (d : Dict)
    → str_eq s t ≡ false
    → field_is k s d ≡ true
    → field_is k t d ≡ false
unfolding field_is
field_is_ne k s t d h e = is_text_ne (get_str k d) s t h e

pub field_is-put_ne :
    (k j s : String) (v : Value) (d : Dict)
    → str_eq k j ≡ false
    → field_is j s (put k v d) ≡ field_is j s d
unfolding field_is
field_is-put_ne k j s v d h = rw (get_str-put_ne k j v d h)

is_text-some : (o : Option String) (s : String) → is_text o s ≡ true → o ≡ some s
unfolding is_text
is_text-some none s h = cc
is_text-some (some t) s h = ap some ((eq_iff t s).0 h)

pub as_str-some : (o : Option Value) (s : String) → as_str o ≡ some s → o ≡ some (str s)
as_str-some (some (str t)) s h = cc
as_str-some _ s h = cc

-- The value under a key that holds one text.
pub get-field_is : (k s : String) (d : Dict) → field_is k s d ≡ true → get k d ≡ some (str s)
unfolding field_is get_str
get-field_is k s d h = as_str-some (get k d) s (is_text-some (get_str k d) s h)

pub get-put_ne :
    (k j : String) (v : Value) (d : Dict) → str_eq k j ≡ false → get j (put k v d) ≡ get j d
get-put_ne k j v d h = rw (get-put k j v d, h)

pub get-put_same : (k : String) (v : Value) (d : Dict) → get k (put k v d) ≡ some v
get-put_same k v d = rw (get-put k k v d, eq_refl)

is_text_refl : (s : String) → is_text (some s) s ≡ true
unfolding is_text
is_text_refl s = (eq_iff s s).1 refl

pub field_is-get : (k s : String) (d : Dict) → get k d ≡ some (str s) → field_is k s d ≡ true
unfolding field_is get_str
field_is-get k s d h = rw h (is_text_refl s)

-- Writing what a key holds changes nothing.
pub put-get : (k : String) (v : Value) (d : Dict) → get k d ≡ some v → put k v d ≡ d
unfolding get put
put-get k v end h = cc
put-get k v (field j w d) h = ground (arith, put-get k v d)
