-- ===== src/Providers.antt =====
-- agent_harness/providers/_shared.py, agent_harness/providers/errors.py and the text of a message
-- (agent_harness/messages.py): what the translations for the model APIs share. Python's `str` of a
-- value that is no text is a parameter; a copy of a value is the value.
pub mod Interface
pub mod Claude
use Prim.Native.String.{◌++◌ as join}
use temporal_agent_harness_e.Prelude.{
  ℕ, String, ◌≡◌, refl, Bool, true, false, not, ◌&&◌, ◌||◌, Option, none, some, List, [], ◌∷◌,
  if◌then◌else◌, str_eq, arith, eq_iff, Bool-cases, inl, inr, sym,
}
use temporal_agent_harness_e.Prelude.Text.{is_blank, strip, contains}
use temporal_agent_harness_e.Prelude.Outcome.{Outcome, ok, raise, key_error}
use temporal_agent_harness_e.Prelude.Int.{ℤ, pos, int_eq, leb_ℤ, ltb_ℤ, ◌+ℤ◌}
use temporal_agent_harness_e.Json.{Value, Items, Dict, get, put, field_is, to_items}
use temporal_agent_harness_e.Messages.{Content, text, blocks, Message, marker_text}

-- bool(value)
unfoldable pub truthy : Value → Bool
truthy Value.null = false
truthy (Value.bool b) = b
truthy (Value.int n) = not (int_eq n (pos 0))
truthy (Value.str s) = not (is_blank s)
truthy (Value.arr Items.nil) = false
truthy (Value.arr (Items.cons v vs)) = true
truthy (Value.obj Dict.end) = false
truthy (Value.obj (Dict.field k v d)) = true

-- d.get(key, default)
unfoldable pub get_or : String → Value → Dict → Value
get_or k default d = elim (get k d) [ none ↦ default | some v ↦ v ]

-- d[key]
unfoldable pub item : String → Dict → Outcome Value
item k d = elim (get k d) [ none ↦ raise (key_error k) | some v ↦ ok v ]

-- copy_mapping: what is no dict is read as the empty dict.
unfoldable pub copy_mapping : Value → Dict
copy_mapping (Value.obj d) = d
copy_mapping _ = Dict.end

unfoldable pub copy_optional_mapping : Value → Option Dict
unfolding copy_mapping
copy_optional_mapping Value.null = none
copy_optional_mapping v = some (copy_mapping v)

map_copies : Items → List Dict
map_copies Items.nil = []
map_copies (Items.cons v vs) = copy_mapping v ∷ map_copies vs

unfoldable pub mapping_list : Value → List Dict
unfolding map_copies
mapping_list (Value.arr vs) = map_copies vs
mapping_list _ = []

unfoldable pub provider_metadata : String → String → Dict → Dict
provider_metadata provider provider_type payload =
    Dict.field "name" (Value.str provider)
      (Dict.field "type" (Value.str provider_type) (Dict.field "data" (Value.obj payload) Dict.end))

as_dict : Option Value → Option Dict
as_dict (some (Value.obj d)) = some d
as_dict _ = none

data_of : String → Option Dict → Option Dict
unfolding as_dict
data_of provider none = none
data_of provider (some metadata) =
    if field_is "name" provider metadata then as_dict (get "data" metadata) else none

unfoldable pub provider_data : Dict → String → Option Dict
unfolding data_of as_dict
provider_data block provider = data_of provider (as_dict (get "provider" block))

with_provider : Option Dict → Dict → Dict
with_provider none block = block
with_provider (some provider) block = put "provider" (Value.obj provider) block

unfoldable pub tool_use_block : Value → Value → Dict → Option Dict → Dict
unfolding with_provider
tool_use_block tool_use_id name input provider = with_provider provider (
    Dict.field "type" (Value.str "tool_use") (
      Dict.field "id" tool_use_id
        (Dict.field "name" name (Dict.field "input" (Value.obj input) Dict.end))))

unfoldable pub provider_block : String → String → Dict → Dict
provider_block provider provider_type payload = Dict.field "type" (Value.str "provider") (
    Dict.field "provider" (Value.str provider) (
      Dict.field "provider_type" (Value.str provider_type)
        (Dict.field "data" (Value.obj payload) Dict.end)))

-- `text if isinstance(text, str) else default`
unfoldable pub text_else : String → Option Value → String
text_else default (some (Value.str s)) = s
text_else default _ = default

unfoldable pub text_from_block : Dict → String
text_from_block b =
    if field_is "type" "text" b
    then text_else "" (get "text" b)
    else if field_is "type" "refusal" b
    then text_else "" (get "refusal" b)
    else if field_is "type" "context_compaction_marker" b
    then text_else marker_text (get "text" b)
    else ""

text_from_blocks : List Dict → String
text_from_blocks [] = ""
text_from_blocks (b ∷ bs) = join (text_from_block b) (text_from_blocks bs)

text_of_content : Content → String
unfolding text_from_blocks
text_of_content (text s) = s
text_of_content (blocks bs) = text_from_blocks bs

unfoldable pub message_text : Message → String
unfolding text_of_content
message_text m = text_of_content m.content

module _ (str_of : Value → String) where
  str_value : Value → String
  str_value (Value.str s) = s
  str_value v = str_of v

  -- str(value or default)
  unfoldable pub text_or : String → Option Value → String
  unfolding str_value
  text_or default none = default
  text_or default (some v) = if truthy v then str_value v else default

unfoldable pub non_retryable_http_status : Option ℤ → Bool
non_retryable_http_status none = false
non_retryable_http_status (some status) =
    if int_eq status (pos 408) || int_eq status (pos 409) || int_eq status (pos 429)
    then false
    else leb_ℤ (pos 400) status && ltb_ℤ status (pos 500)

-- A stop reason or a guard action that is no text is a null.
unfoldable pub within : List String → Value → Bool
within reasons (Value.str s) = contains reasons s
within reasons _ = false

unfoldable pub is_null : Value → Bool
is_null Value.null = true
is_null _ = false

unfoldable pub needs_refusal_fallback : Value → List String → Value → String → Bool
unfolding within is_null
needs_refusal_fallback stop_reason refusal_stop_reasons guard_action response_text =
    if not (within refusal_stop_reasons stop_reason)
    then false
    else if not (is_null guard_action)
    then false
    else is_blank (strip response_text)

unfoldable pub refusal_fallback_text : String → String → String
refusal_fallback_text fallback details_text =
    if is_blank details_text then fallback else join fallback (join "\n\n" details_text)

unfoldable pub counted_tokens_exceed_context : ℤ → ℤ → Option ℤ → Bool
counted_tokens_exceed_context input_tokens max_output_tokens none = false
counted_tokens_exceed_context input_tokens max_output_tokens (some limit) =
    ltb_ℤ limit (input_tokens +ℤ max_output_tokens)

map_copies-to_items : (ds : List Dict) → map_copies (to_items ds) ≡ ds
unfolding map_copies to_items copy_mapping
map_copies-to_items [] = refl
map_copies-to_items (d ∷ ds) = rw (map_copies-to_items ds)

pub mapping_list-to_items : (ds : List Dict) → mapping_list (Value.arr (to_items ds)) ≡ ds
unfolding mapping_list
mapping_list-to_items ds = map_copies-to_items ds

pub item_lem : (k : String) (d : Dict) {v : Value} → get k d ≡ some v → item k d ≡ ok v
unfolding item
item_lem k d h = rw (h, item) refl

pub get_or_lem :
    (k : String) (other : Value) (d : Dict) {v : Value} → get k d ≡ some v → get_or k other d ≡ v
unfolding get_or
get_or_lem k other d h = rw (h, get_or) refl

-- A text is what `str(text or "")` makes of it.
pub text_or-str :
    (str_of : Value → String) (s : String) → text_or str_of "" (some (Value.str s)) ≡ s
unfolding text_or truthy
text_or-str str_of s = elim (Bool-cases (is_blank s)) [
  | inl e ↦ rw e (sym ((eq_iff s "").0 e))
  | inr e ↦ rw e refl
]

pub needs_refusal_fallback_lem :
    (reason : Value) (reasons : List String) (action : Value) (s : String)
    → needs_refusal_fallback reason reasons action s
      ≡ (within reasons reason && is_null action && is_blank (strip s))
unfolding needs_refusal_fallback
needs_refusal_fallback_lem reason reasons action s = ground arith

pub get_or-none :
    (k : String) (other : Value) (d : Dict) → get k d ≡ none → get_or k other d ≡ other
unfolding get_or
get_or-none k other d h = rw (h, get_or) refl
