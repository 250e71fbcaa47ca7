-- ===== src/Json/Dumps.antt =====
-- json.dumps with its default ASCII output, for both of the separators that the program uses.
use temporal_agent_harness_e.Prelude.{
  ℕ, suc, ◌+◌, ◌-◌, ◌/◌, ◌%◌, String, ◌≡◌, refl, Bool, true, false, ◌&&◌, Option, none, some, List,
  [], ◌∷◌, ltb, leb, ◌==◌, if◌then◌else◌, get_elem?,
}
use temporal_agent_harness_e.Prelude.Text.{decimal}
use temporal_agent_harness_e.Prelude.Int.{ℤ, pos, negsuc}
use Prim.Native.Char.{code}
use Prim.Native.String.{◌++◌ as join}
use temporal_agent_harness_e.Json.{Value, Items, Dict}

abbrev hex_digits : List String
hex_digits =
    "0" ∷ "1" ∷ "2" ∷ "3" ∷ "4" ∷ "5" ∷ "6" ∷ "7" ∷ "8" ∷ "9" ∷ "a" ∷ "b" ∷ "c" ∷ "d" ∷ "e" ∷ "f"
    ∷ []

abbrev or_blank : Option String → String
or_blank none = ""
or_blank (some t) = t

hex : ℕ → String
hex n = or_blank (get_elem? hex_digits (n % 16))

-- \uXXXX for one UTF-16 unit
unit : ℕ → String
unfolding hex
unit n = join "\\u" (join (hex (n / 4096)) (join (hex (n / 256)) (join (hex (n / 16)) (hex n))))

-- A character outside the first plane is written as a pair of surrogates.
escape_code : ℕ → String → String
unfolding unit
escape_code c plain =
    if c == 34
    then "\\\""
    else if c == 92
    then "\\\\"
    else if c == 10
    then "\\n"
    else if c == 13
    then "\\r"
    else if c == 9
    then "\\t"
    else if c == 12
    then "\\f"
    else if c == 8
    then "\\b"
    else if leb 32 c && leb c 126
    then plain
    else if ltb c 65536
    then unit c
    else join (unit (55296 + (c - 65536) / 1024)) (unit (56320 + (c - 65536) % 1024))

escape : String → String
unfolding escape_code
escape String.[] = ""
escape (String.◌∷◌ c s) = join (escape_code (code c) (String.◌∷◌ c "")) (escape s)

quote : String → String
unfolding escape
quote s = join "\"" (join (escape s) "\"")

int_text : ℤ → String
unfolding decimal
int_text (pos n) = decimal n
int_text (negsuc n) = join "-" (decimal (suc n))

bool_text : Bool → String
bool_text true = "true"
bool_text false = "false"

-- A separator stands before each member but the first.
abbrev lead : Bool → String → String
lead first sep = if first then "" else sep

unfoldable mutual
  unfolding quote int_text bool_text

  pub dumps_value : String → String → Value → String
  dumps_value sep colon Value.null = "null"
  dumps_value sep colon (Value.bool b) = bool_text b
  dumps_value sep colon (Value.int n) = int_text n
  dumps_value sep colon (Value.str s) = quote s
  dumps_value sep colon (Value.arr items) = join "[" (join (dumps_items sep colon true items) "]")
  dumps_value sep colon (Value.obj d) = join "{" (join (dumps_dict sep colon true d) "}")

  pub dumps_items : String → String → Bool → Items → String
  dumps_items sep colon first Items.nil = ""
  dumps_items sep colon first (Items.cons v items) =
      join (lead first sep) (join (dumps_value sep colon v) (dumps_items sep colon false items))

  pub dumps_dict : String → String → Bool → Dict → String
  dumps_dict sep colon first Dict.end = ""
  dumps_dict sep colon first (Dict.field k v d) =
      join (lead first sep) (
        join (quote k) (join colon (join (dumps_value sep colon v) (dumps_dict sep colon false d))))

-- json.dumps(value)
unfoldable pub dumps : Value → String
unfolding dumps_value
dumps = dumps_value ", " ": "

-- json.dumps(value, separators=(",", ":"))
unfoldable pub dumps_compact : Value → String
unfolding dumps_value
dumps_compact = dumps_value "," ":"

dumps_example :
    dumps (
      Value.obj (
        Dict.field "a" (Value.int (negsuc 1)) (
          Dict.field "b"
            (Value.arr (Items.cons (Value.str "x\n") (Items.cons Value.null Items.nil)))
            Dict.end)))
    ≡ "{\"a\": -2, \"b\": [\"x\\n\", null]}"
unfolding dumps
dumps_example = refl
