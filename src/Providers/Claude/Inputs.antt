-- ===== src/Providers/Claude/Inputs.antt =====
-- The inputs of tools that the stream of agent_harness/providers/claude.py puts together.
use Prim.Native.String.{◌++◌ as join}
use text.Mathlib.TextLemmas.{
  append_assoc as join_assoc, append-nil as join-nil, nil-append as nil-join,
}
use temporal_agent_harness_e.Prelude.{
  ℕ, ◌==◌, String, ◌≡◌, refl, sym, ap, ◌∙◌, subst, Bool, true, false, not, ◌&&◌, ◌||◌, Option, none,
  some, List, [], ◌∷◌, if◌then◌else◌, arith, str_eq, eq_iff, All, Bool-cases, inl, inr,
}
use temporal_agent_harness_e.Json.{Value, get, get_str, field_is, field_is_ne}
use temporal_agent_harness_e.Streaming.{tool_input_completed}
use temporal_agent_harness_e.Providers.{get_or, get_or-none}
use temporal_agent_harness_e.Providers.Claude.Stream.{
  RawEvent, ToolInputStreamState, Blocks, block_at, put_block, pop_block, raw_stream_event,
  raw_stream_events, json_preview, is_type, new_state, block_started, delta_received, json_received,
  block_stopped, add_json,
}

same_place : (i : ℕ) → (i == i) ≡ true
same_place i = ground arith

block_at-put :
    (i j : ℕ) (s : ToolInputStreamState) (bs : Blocks)
    → block_at j (put_block i s bs) ≡ (if i == j then some s else block_at j bs)
unfolding block_at put_block
block_at-put i j s [] = refl
block_at-put i j s ((k, t) ∷ bs) = ground (arith, block_at-put i j s bs)

-- An event that neither starts nor stops the block `i`.
unfoldable pub passes : ℕ → RawEvent → Bool
passes i e = not (
    e.index == i
    && (is_type e.type_name "content_block_start" || is_type e.type_name "content_block_stop"))

or_blank : Option String → String
or_blank none = ""
or_blank (some s) = s

-- The JSON that a delta holds.
unfoldable pub delta_text : RawEvent → String
unfolding or_blank
delta_text e =
    if field_is "type" "input_json_delta" e.delta
    then or_blank (get_str "partial_json" e.delta)
    else ""

-- The JSON that an event adds to the block `i`.
unfoldable pub added : ℕ → RawEvent → String
added i e = if e.index == i && is_type e.type_name "content_block_delta" then delta_text e else ""

unfoldable pub all_added : ℕ → List RawEvent → String
all_added i [] = ""
all_added i (e ∷ es) = join (added i e) (all_added i es)

block_at-pop :
    (k i : ℕ) (bs : Blocks) → (k == i) ≡ false → block_at i (pop_block k bs) ≡ block_at i bs
unfolding block_at pop_block
block_at-pop k i [] h = refl
block_at-pop k i ((j, t) ∷ bs) h = ground (arith, block_at-pop k i bs)

module _ (dumps_sorted : Value → String) (sequence : Value) where
  -- Whether a block of another index starts or stops is nothing to the block `i`.
  started_elsewhere :
      (i : ℕ) (e : RawEvent) (bs : Blocks)
      → (e.index == i) ≡ false
      → block_at i (block_started dumps_sorted sequence e bs).1 ≡ block_at i bs
  unfolding block_started
  started_elsewhere i e bs h =
      let put = block_at-put e.index i (new_state dumps_sorted sequence e) bs in ground (arith, put)

  stopped_elsewhere :
      (i : ℕ) (e : RawEvent) (o : Option ToolInputStreamState) (bs : Blocks)
      → (e.index == i) ≡ false
      → block_at i (block_stopped dumps_sorted sequence e o bs).1 ≡ block_at i bs
  unfolding block_stopped
  stopped_elsewhere i e none bs h = block_at-pop e.index i bs h
  stopped_elsewhere i e (some s) bs h = block_at-pop e.index i bs h

  json_elsewhere :
      (i : ℕ) (e : RawEvent) (o : Option ToolInputStreamState) (p : Option String) (bs : Blocks)
      → (e.index == i) ≡ false
      → block_at i (json_received dumps_sorted sequence e o p bs).1 ≡ block_at i bs
  unfolding json_received
  json_elsewhere i e none none bs h = refl
  json_elsewhere i e none (some x) bs h = refl
  json_elsewhere i e (some s) none bs h = refl
  json_elsewhere i e (some s) (some x) bs h = block_at-put e.index i _ bs ∙ rw h refl

  json_here :
      (e : RawEvent) (s : ToolInputStreamState) (p : Option String) (bs : Blocks)
      → block_at e.index bs ≡ some s
      → block_at e.index (json_received dumps_sorted sequence e (some s) p bs).1
        ≡ some (add_json s (or_blank p))
  unfolding json_received add_json or_blank
  json_here e s none bs h = h ∙ rw (join-nil s.partial_json) refl
  json_here e s (some x) bs h = block_at-put e.index e.index _ bs ∙ rw (same_place e.index) refl

  not_json :
      (e : RawEvent) (bs : Blocks)
      → field_is "type" "input_json_delta" e.delta ≡ false
      → (delta_received dumps_sorted sequence e bs).1 ≡ bs
  unfolding delta_received
  not_json e bs h = ground arith

  json_delta :
      (e : RawEvent) (bs : Blocks)
      → field_is "type" "input_json_delta" e.delta ≡ true
      → delta_received dumps_sorted sequence e bs
        ≡ json_received dumps_sorted sequence e
            (block_at e.index bs)
            (get_str "partial_json" e.delta)
            bs
  unfolding delta_received
  json_delta e bs h =
      let no_text = field_is_ne "type" "input_json_delta" "text_delta" e.delta refl h in
      let no_refusal = field_is_ne "type" "input_json_delta" "refusal_delta" e.delta refl h in
      let no_thinking = field_is_ne "type" "input_json_delta" "thinking_delta" e.delta refl h in
      rw (no_text, no_refusal, no_thinking, h) refl

  add_nothing : (s : ToolInputStreamState) → add_json s "" ≡ s
  unfolding add_json
  add_nothing s = rw (join-nil s.partial_json) refl

  delta_elsewhere :
      (i : ℕ) (e : RawEvent) (bs : Blocks)
      → (e.index == i) ≡ false
      → block_at i (delta_received dumps_sorted sequence e bs).1 ≡ block_at i bs
  delta_elsewhere i e bs h = elim (Bool-cases (field_is "type" "input_json_delta" e.delta)) [
    | inl json ↦ rw (json_delta e bs json) (json_elsewhere i e _ _ bs h)
    | inr other ↦ rw (not_json e bs other) refl
  ]

  delta_here :
      (e : RawEvent) (s : ToolInputStreamState) (bs : Blocks)
      → block_at e.index bs ≡ some s
      → block_at e.index (delta_received dumps_sorted sequence e bs).1
        ≡ some (add_json s (delta_text e))
  unfolding delta_text
  delta_here e s bs h = elim (Bool-cases (field_is "type" "input_json_delta" e.delta)) [
    | inl json ↦
        rw (json_delta e bs json, json, h) (json_here e s (get_str "partial_json" e.delta) bs h)
    | inr other ↦ rw (not_json e bs other, other) (h ∙ ap some (sym (add_nothing s)))
  ]

  keeps_other :
      (i : ℕ) (e : RawEvent) (bs : Blocks)
      → (e.index == i) ≡ false
      → block_at i (raw_stream_event dumps_sorted sequence e bs).1 ≡ block_at i bs
  unfolding raw_stream_event
  keeps_other i e bs h =
      let start = started_elsewhere i e bs h in
      let delta = delta_elsewhere i e bs h in
      let stop = stopped_elsewhere i e (block_at e.index bs) bs h in
      ground (arith, start, delta, stop)

  is_type_ne :
      (o : Option String) (s t : String)
      → str_eq s t ≡ false
      → is_type o s ≡ true
      → is_type o t ≡ false
  unfolding is_type
  is_type_ne none s t h e = refl
  is_type_ne (some r) s t h e = rw ((eq_iff r s).0 e) h

  keeps_here :
      (e : RawEvent) (s : ToolInputStreamState) (bs : Blocks)
      → block_at e.index bs ≡ some s
      → passes e.index e ≡ true
      → block_at e.index (raw_stream_event dumps_sorted sequence e bs).1
        ≡ some (add_json s (added e.index e))
  unfolding raw_stream_event passes added
  keeps_here e s bs h p =
      let here = same_place e.index in
      let delta = delta_here e s bs h in
      let nothing = h ∙ ap some (sym (add_nothing s)) in ground (arith, here, delta, nothing)

  keeps :
      (i : ℕ) (e : RawEvent) (s : ToolInputStreamState) (bs : Blocks)
      → block_at i bs ≡ some s
      → passes i e ≡ true
      → block_at i (raw_stream_event dumps_sorted sequence e bs).1 ≡ some (add_json s (added i e))
  unfolding added
  keeps i e s bs h p = elim (Bool-cases (e.index == i)) [
    | inl same ↦
        let here : e.index ≡ i = ground (arith, same) in
        subst
          (λ k.
            block_at k bs ≡ some s
            → passes k e ≡ true
            → block_at k (raw_stream_event dumps_sorted sequence e bs).1
              ≡ some (add_json s (added k e)))
          here (keeps_here e s bs) h p
    | inr other ↦ keeps_other i e bs other ∙ h ∙ ap some (sym (add_nothing s)) ∙ rw other refl
  ]

  add_twice :
      (s : ToolInputStreamState) (a b : String) → add_json (add_json s a) b ≡ add_json s (join a b)
  unfolding add_json
  add_twice s a b = rw (join_assoc s.partial_json a b) refl

  All-kept :
      (i : ℕ) (es : List RawEvent) (s : ToolInputStreamState) (bs : Blocks)
      → block_at i bs ≡ some s
      → All (λ e. passes i e ≡ true) es
      → block_at i (raw_stream_events dumps_sorted sequence es bs).1
        ≡ some (add_json s (all_added i es))
  unfolding raw_stream_events all_added
  All-kept i [] s bs h p = h ∙ ap some (sym (add_nothing s))
  All-kept i (e ∷ es) s bs h p =
      All-kept i es (add_json s (added i e)) _ (keeps i e s bs h p.0) p.1
      ∙ ap some (add_twice s (added i e) (all_added i es))

  -- The state of the events of the API after a tool's block was started and more events came.
  abbrev pub after_start : RawEvent → List RawEvent → Blocks → Blocks
  after_start start es bs =
      (raw_stream_events dumps_sorted sequence es
        (raw_stream_event dumps_sorted sequence start bs).1).1

  started_here :
      (start : RawEvent) (bs : Blocks)
      → is_type start.type_name "content_block_start" ≡ true
      → field_is "type" "tool_use" start.content_block ≡ true
      → block_at start.index (raw_stream_event dumps_sorted sequence start bs).1
        ≡ some (new_state dumps_sorted sequence start)
  unfolding raw_stream_event block_started
  started_here start bs t h =
      let no_thinking = field_is_ne "type" "tool_use" "thinking" start.content_block refl h in
      rw (t, no_thinking, h)
        (block_at-put start.index start.index (new_state dumps_sorted sequence start) bs
          ∙ rw (same_place start.index) refl)

  stopped_without_input :
      (stop : RawEvent) (s : ToolInputStreamState) (bs : Blocks)
      → get "input" stop.content_block ≡ none
      → (block_stopped dumps_sorted sequence stop (some s) bs).0
        ≡ some (
            tool_input_completed sequence stop.index s.tool_use_id s.tool_name s.tool_type
              (Value.str s.partial_json)
              (json_preview dumps_sorted sequence (Value.str s.partial_json)))
  unfolding block_stopped
  stopped_without_input stop s bs h =
      rw (get_or-none "input" (Value.str s.partial_json) stop.content_block h) refl

  stopped_here :
      (stop : RawEvent) (s : ToolInputStreamState) (bs : Blocks)
      → is_type stop.type_name "content_block_stop" ≡ true
      → get "input" stop.content_block ≡ none
      → block_at stop.index bs ≡ some s
      → (raw_stream_event dumps_sorted sequence stop bs).0
        ≡ some (
            tool_input_completed sequence stop.index s.tool_use_id s.tool_name s.tool_type
              (Value.str s.partial_json)
              (json_preview dumps_sorted sequence (Value.str s.partial_json)))
  unfolding raw_stream_event
  stopped_here stop s bs t no_input h =
      let no_start = is_type_ne stop.type_name "content_block_stop" "content_block_start" refl t in
      let no_delta = is_type_ne stop.type_name "content_block_stop" "content_block_delta" refl t in
      rw (no_start, no_delta, t, h) (stopped_without_input stop s bs no_input)

  -- When the API starts a block that calls a tool, sends any events that neither start nor stop a block
  -- of its index, and stops it without giving an input, the agent's event of the complete input
  -- has the JSON of the block's deltas, joined in their order, whatever blocks were streamed between them.
  pub raw_stream_event-input :
      (start stop : RawEvent) (es : List RawEvent) (bs : Blocks)
      → is_type start.type_name "content_block_start" ≡ true
      → field_is "type" "tool_use" start.content_block ≡ true
      → All (λ e. passes start.index e ≡ true) es
      → is_type stop.type_name "content_block_stop" ≡ true
      → stop.index ≡ start.index
      → get "input" stop.content_block ≡ none
      → let input = Value.str (all_added start.index es) in
        (raw_stream_event dumps_sorted sequence stop (after_start start es bs)).0
        ≡ some (
            tool_input_completed sequence start.index
              (get_or "id" Value.null start.content_block)
              (get_or "name" Value.null start.content_block)
              (get_or "type" Value.null start.content_block)
              input
              (json_preview dumps_sorted sequence input))
  unfolding new_state add_json
  raw_stream_event-input start stop es bs t h p u same no_input =
      let kept =
        All-kept start.index es (new_state dumps_sorted sequence start) _
          (started_here start bs t h) p in
      stopped_here stop _ (after_start start es bs) u no_input
        (ap (λ k. block_at k (after_start start es bs)) same ∙ kept)
      ∙ rw (same, nil-join (all_added start.index es)) refl
