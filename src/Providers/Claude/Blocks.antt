-- ===== src/Providers/Claude/Blocks.antt =====
-- One block on its way to the Claude API and back (agent_harness/providers/claude.py).
use temporal_agent_harness_e.Prelude.{
  String, ◌≡◌, refl, ap, ◌∙◌, Bool, true, false, not, ◌&&◌, ◌||◌, Option, none, some, List, [], ◌∷◌,
  inl, inr, if◌then◌else◌, arith, Bool-cases, Option-cases,
}
use temporal_agent_harness_e.Prelude.Outcome.{Outcome, ok, ◌>>=◌}
use temporal_agent_harness_e.Json.{
  Value, Dict, get, put, get_str, as_str, field_is, field_is_ne, get-put_ne, get-put_same,
  get-field_is,
}
use temporal_agent_harness_e.Messages.{text_block, marker_text}
use temporal_agent_harness_e.Context.{block_ids, any_of_type}
use temporal_agent_harness_e.Providers.{
  get_or, get_or_lem, item, item_lem, copy_mapping, provider_metadata, provider_data,
  tool_use_block, provider_block, text_or, text_else, truthy,
}
use temporal_agent_harness_e.Providers.Claude.{
  agent_tool_use_to_claude_block, agent_tool_result_to_claude_block, own_data, or_new_block,
  result_of_claude, agent_block_to_claude_block, claude_block_to_agent_block,
}

abbrev has : String → Dict → Bool
has k b = elim (get k b) [ none ↦ false | some v ↦ true ]

abbrev is_call_or_result : Dict → Bool
is_call_or_result d = field_is "type" "tool_use" d || field_is "type" "tool_result" d

abbrev plain_data : Option Dict → Bool
plain_data none = true
plain_data (some d) = not (is_call_or_result d)

-- A call has its id and name, a result the id of its call, and no block of the API that is stored as
-- another provider's block is a call or a result.
unfoldable pub sendable : Dict → Bool
sendable b =
    if field_is "type" "tool_use" b
    then has "id" b && has "name" b
    else if field_is "type" "tool_result" b
    then has "tool_use_id" b
    else if field_is "type" "provider" b && field_is "provider" "claude" b
    then plain_data (own_data (get "data" b))
    else true

abbrev pub call_ids : List Dict → List String
call_ids = block_ids "tool_use" "id"

abbrev pub result_ids : List Dict → List String
result_ids = block_ids "tool_result" "tool_use_id"

abbrev pub opt_list : Option Dict → List Dict
opt_list none = []
opt_list (some b) = b ∷ []

-- What the pairing of calls and results takes from a block.
abbrev pub Same : List Dict → List Dict → Type 0
Same bs cs =
    (call_ids bs ≡ call_ids cs)
    × (result_ids bs ≡ result_ids cs)
    × (any_of_type "tool_result" bs ≡ any_of_type "tool_result" cs)

-- Two values read one after the other.
items_lem {ℓ} :
    {B : Type ℓ} (k j : String) (d : Dict) (f : Value → Value → B) {v w : Value}
    → get k d ≡ some v
    → get j d ≡ some w
    → (do x ← item k d; y ← item j d; ok (f x y)) ≡ ok (f v w)
items_lem k j d f hv hw = rw (item_lem k d hv, item_lem j d hw) refl

module _ (str_of : Value → String) where
  abbrev to_claude : Dict → Outcome (Option Dict)
  to_claude = agent_block_to_claude_block str_of

  abbrev from_claude : Dict → Outcome Dict
  from_claude = claude_block_to_agent_block str_of

  pub from_call :
      (c : Dict) {i n : Value}
      → get "type" c ≡ some (Value.str "tool_use")
      → get "id" c ≡ some i
      → get "name" c ≡ some n
      → from_claude c
        ≡ ok (
            tool_use_block i n
              (copy_mapping (get_or "input" (Value.obj Dict.end) c))
              (some (provider_metadata "claude" "tool_use" c)))
  unfolding claude_block_to_agent_block field_is get_str item
  from_call c t i n = rw t (items_lem "id" "name" c _ i n)

  pub from_result :
      (c : Dict)
      → get "type" c ≡ some (Value.str "tool_result")
      → from_claude c ≡ ok (result_of_claude c)
  unfolding claude_block_to_agent_block field_is get_str
  from_result c t = rw t refl

  abbrev pub call_of_agent : Dict → Value → Value → Dict
  call_of_agent b i n =
      put "input" (Value.obj (copy_mapping (get_or "input" (Value.obj Dict.end) b))) (
        put "name" n (
          put "id" i (
            put "type" (Value.str "tool_use")
              (or_new_block "tool_use" (provider_data b "claude")))))

  abbrev pub result_of_agent : Dict → Value → Dict
  result_of_agent b i =
      put "is_error" (Value.bool (truthy (get_or "is_error" (Value.bool false) b))) (
        put "content" (get_or "content" (Value.str "") b) (
          put "tool_use_id" i (
            put "type" (Value.str "tool_result")
              (or_new_block "tool_result" (provider_data b "claude")))))

  abbrev plain_of : Dict → Dict
  plain_of c =
      if field_is "type" "text" c
      then text_block (text_or str_of "" (get "text" c))
      else if field_is "type" "refusal" c
      then text_block (text_else "" (get "refusal" c))
      else provider_block "claude" (text_or str_of "unknown" (get "type" c)) c

  from_plain : (c : Dict) → is_call_or_result c ≡ false → from_claude c ≡ ok (plain_of c)
  unfolding claude_block_to_agent_block
  from_plain c h = ground arith

  -- Only calls become calls, and only results results.
  plain_Same : (c : Dict) → Same [] (plain_of c ∷ [])
  unfolding block_ids any_of_type field_is get_str get text_block provider_block
  plain_Same c = ground arith

  pub to_call :
      (b : Dict) {i n : Value}
      → field_is "type" "tool_use" b ≡ true
      → get "id" b ≡ some i
      → get "name" b ≡ some n
      → to_claude b ≡ ok (some (call_of_agent b i n))
  unfolding agent_block_to_claude_block agent_tool_use_to_claude_block field_is get_str
  to_call b t hi hn =
      rw (get-field_is "type" "tool_use" b t) (rw (item_lem "id" b hi, item_lem "name" b hn) refl)

  -- What is sent for a call comes back as a call with its id.
  from_call_of_agent :
      (b : Dict) (i n : Value)
      → (d : Dict) × (m : Dict) × (from_claude (call_of_agent b i n)
          ≡ ok (tool_use_block i n d (some m)))
  from_call_of_agent b i n = (
    _,
    _,
    from_call (call_of_agent b i n)
        (get-put_ne "input" "type" _ _ refl
          ∙ get-put_ne "name" "type" _ _ refl
          ∙ get-put_ne "id" "type" _ _ refl
          ∙ get-put_same "type" _ _)
        (get-put_ne "input" "id" _ _ refl ∙ get-put_ne "name" "id" _ _ refl ∙ get-put_same "id" _ _)
        (get-put_ne "input" "name" _ _ refl ∙ get-put_same "name" _ _),
  )

  call_Same :
      (b d m : Dict) {i : Value} (n : Value)
      → field_is "type" "tool_use" b ≡ true
      → get "id" b ≡ some i
      → Same (b ∷ []) (tool_use_block i n d (some m) ∷ [])
  unfolding block_ids any_of_type tool_use_block put field_is get_str get
  call_Same b d m n t hi =
      let same_id = ap as_str hi in
      let no_result = field_is_ne "type" "tool_use" "tool_result" b refl t in
      ground (arith, same_id, no_result)

  pub to_result :
      (b : Dict) {i : Value}
      → field_is "type" "tool_result" b ≡ true
      → get "tool_use_id" b ≡ some i
      → to_claude b ≡ ok (some (result_of_agent b i))
  unfolding agent_block_to_claude_block agent_tool_result_to_claude_block field_is get_str
  to_result b t hi =
      rw (get-field_is "type" "tool_result" b t) (rw (item_lem "tool_use_id" b hi) refl)

  type_of_result :
      (b : Dict) (i : Value) → get "type" (result_of_agent b i) ≡ some (Value.str "tool_result")
  type_of_result b i =
      get-put_ne "is_error" "type" _ _ refl
      ∙ get-put_ne "content" "type" _ _ refl
      ∙ get-put_ne "tool_use_id" "type" _ _ refl
      ∙ get-put_same "type" _ _

  id_of_result : (b : Dict) (i : Value) → get "tool_use_id" (result_of_agent b i) ≡ some i
  id_of_result b i =
      get-put_ne "is_error" "tool_use_id" _ _ refl
      ∙ get-put_ne "content" "tool_use_id" _ _ refl
      ∙ get-put_same "tool_use_id" _ _

  result_Same :
      (b c : Dict) {i : Value}
      → field_is "type" "tool_result" b ≡ true
      → get "tool_use_id" b ≡ some i
      → get "tool_use_id" c ≡ some i
      → Same (b ∷ []) (result_of_claude c ∷ [])
  unfolding block_ids any_of_type result_of_claude field_is get_str get
  result_Same b c t hb hc =
      let same_id = ap as_str hb in
      let no_use = field_is_ne "type" "tool_result" "tool_use" b refl t in
      let read_back = get_or_lem "tool_use_id" Value.null c hc in
      ground (arith, same_id, no_use, read_back)

  plain_flags : (b : Dict) → is_call_or_result b ≡ false → Same (b ∷ []) []
  unfolding block_ids any_of_type
  plain_flags b h = ground arith

  abbrev Back : Dict → Type 0
  Back b = (o : Option Dict) × (to_claude b ≡ ok o) × elim o [
    | none ↦ Same (b ∷ []) []
    | some c ↦ (a : Dict) × (from_claude c ≡ ok a) × Same (b ∷ []) (a ∷ [])
  ]

  call-Back : (b : Dict) → field_is "type" "tool_use" b ≡ true → sendable b ≡ true → Back b
  unfolding sendable
  call-Back b t h = elim (Option-cases (get "id" b)) [
    | inl e ↦ absurd (ground arith)
    | inr (i, hi) ↦ elim (Option-cases (get "name" b)) [
      | inl e ↦ absurd (ground arith)
      | inr (n, hn) ↦
          let (d, m, e) = from_call_of_agent b i n in
          (some (call_of_agent b i n), to_call b t hi hn, (_, e, call_Same b d m n t hi))
    ]
  ]

  result-Back :
      (b : Dict)
      → field_is "type" "tool_use" b ≡ false
      → field_is "type" "tool_result" b ≡ true
      → sendable b ≡ true
      → Back b
  unfolding sendable
  result-Back b u t h = elim (Option-cases (get "tool_use_id" b)) [
    | inl e ↦ absurd (ground arith)
    | inr (i, hi) ↦ (
      some (result_of_agent b i),
      to_result b t hi,
      (
        _,
        from_result (result_of_agent b i) (type_of_result b i),
        result_Same b (result_of_agent b i) t hi (id_of_result b i),
      ),
    )
  ]

  -- What is sent for any other block.
  abbrev sent_plain : Dict → Option Dict
  sent_plain b =
      if field_is "type" "text" b
      then some (text_block (text_or str_of "" (get "text" b)))
      else if field_is "type" "context_compaction_marker" b
      then some (text_block (text_or str_of marker_text (get "text" b)))
      else if field_is "type" "provider" b && field_is "provider" "claude" b
      then own_data (get "data" b)
      else if field_is "type" "refusal" b
      then some (text_block (text_else "" (get "refusal" b)))
      else none

  to_plain : (b : Dict) → is_call_or_result b ≡ false → to_claude b ≡ ok (sent_plain b)
  unfolding agent_block_to_claude_block
  to_plain b h = ground arith

  sent_plain_lem :
      (b : Dict)
      → is_call_or_result b ≡ false
      → sendable b ≡ true
      → plain_data (sent_plain b) ≡ true
  unfolding sendable text_block field_is get_str get
  sent_plain_lem b h e = ground arith

  plain-Back :
      (b : Dict) (o : Option Dict)
      → is_call_or_result b ≡ false
      → to_claude b ≡ ok o
      → plain_data o ≡ true
      → Back b
  plain-Back b none h e p = (none, e, plain_flags b h)
  plain-Back b (some c) h e p =
      let (u, r, f) = plain_flags b h in
      let (u', r', f') = plain_Same c in
      (some c, e, (plain_of c, from_plain c (ground arith), (u ∙ u', r ∙ r', f ∙ f')))

  -- A block that may be sent is sent, and what comes back for it counts alike for the pairing.
  pub back : (b : Dict) → sendable b ≡ true → Back b
  back b h = elim (Bool-cases (field_is "type" "tool_use" b)) [
    | inl t ↦ call-Back b t h
    | inr u ↦ elim (Bool-cases (field_is "type" "tool_result" b)) [
      | inl t ↦ result-Back b u t h
      | inr v ↦
          let plain : is_call_or_result b ≡ false = ground arith in
          plain-Back b (sent_plain b) plain (to_plain b plain) (sent_plain_lem b plain h)
    ]
  ]
