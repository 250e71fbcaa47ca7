-- ===== src/Providers/Claude/Pairing.antt =====
-- A conversation on its way to the Claude API and back: what _call_provider of agent_harness/agent.py
-- keeps of a history when it stores what a request to the API holds.
use temporal_agent_harness_e.Prelude.{
  String, ◌≡◌, refl, sym, ◌∙◌, true, ◌||◌, Option, none, some, List, [], ◌∷◌, ◌++◌, map, arith, All,
}
use temporal_agent_harness_e.Prelude.Outcome.{ok}
use temporal_agent_harness_e.Json.{Value, Dict, get, to_items}
use temporal_agent_harness_e.Messages.{
  Role, user, assistant, Content, text, blocks, Message, message, IsNormal, content_blocks,
}
use temporal_agent_harness_e.Messages.Snapshots.{normalize_message_lem}
use temporal_agent_harness_e.Context.{
  block_ids, any_of_type, tool_use_ids, tool_result_ids, message_has_block_type, shape, shapes,
}
use temporal_agent_harness_e.Providers.{copy_mapping}
use temporal_agent_harness_e.Providers.Claude.{
  agent_block_to_claude_block, claude_block_to_agent_block, agent_blocks_to_claude_blocks,
  claude_blocks_to_agent_blocks, claude_content, agent_content, claude_message, claude_role,
  agent_message_to_claude_message, agent_messages_to_claude_messages,
  claude_message_to_agent_message, claude_messages_to_agent_messages,
}
use temporal_agent_harness_e.Providers.Claude.Blocks.{sendable, Same, back}

abbrev pub AllSendable : List Dict → Type 0
AllSendable = All (λ b. sendable b ≡ true)

-- A message that may be stored and sent.
abbrev pub IsSendable : Message → Type 0
IsSendable m = IsNormal m × AllSendable (content_blocks m.content)

block_ids-cons :
    (t k : String) (b : Dict) (bs : List Dict)
    → block_ids t k (b ∷ bs) ≡ block_ids t k (b ∷ []) ++ block_ids t k bs
unfolding block_ids
block_ids-cons t k b bs = ground arith

any_of_type-cons :
    (t : String) (b : Dict) (bs : List Dict)
    → any_of_type t (b ∷ bs) ≡ (any_of_type t (b ∷ []) || any_of_type t bs)
unfolding any_of_type
any_of_type-cons t b bs = ground arith

Same-drop : (b : Dict) (bs cs : List Dict) → Same (b ∷ []) [] → Same bs cs → Same (b ∷ bs) cs
unfolding block_ids any_of_type
Same-drop b bs cs (u, r, f) (u', r', f') = (
  block_ids-cons _ _ b bs ∙ rw (u, u') refl,
  block_ids-cons _ _ b bs ∙ rw (r, r') refl,
  any_of_type-cons _ b bs ∙ rw (f, f') refl,
)

Same-cons :
    (b c : Dict) (bs cs : List Dict) → Same (b ∷ []) (c ∷ []) → Same bs cs → Same (b ∷ bs) (c ∷ cs)
Same-cons b c bs cs (u, r, f) (u', r', f') = (
  block_ids-cons _ _ b bs ∙ rw (u, u') (sym (block_ids-cons _ _ c cs)),
  block_ids-cons _ _ b bs ∙ rw (r, r') (sym (block_ids-cons _ _ c cs)),
  any_of_type-cons _ b bs ∙ rw (f, f') (sym (any_of_type-cons _ c cs)),
)

shape_of_Same :
    (m n : Message) → Same (content_blocks m.content) (content_blocks n.content) → shape n ≡ shape m
unfolding shape tool_use_ids tool_result_ids message_has_block_type
shape_of_Same m n (u, r, f) = rw (u, r, f) refl

abbrev pub roles : List Message → List Role
roles = map (λ m. m.role)

module _ (str_of : Value → String) where
  abbrev BlocksBack : List Dict → Type 0
  BlocksBack bs =
      (cs : List Dict) × (agent_blocks_to_claude_blocks str_of bs ≡ ok cs)
      × ((back_blocks : List Dict) × (claude_blocks_to_agent_blocks str_of (to_items cs)
            ≡ ok back_blocks)
          × Same bs back_blocks)

  abbrev BlockBack : Dict → Option Dict → Type 0
  BlockBack b none = Same (b ∷ []) []
  BlockBack b (some c) =
      (a : Dict) × (claude_block_to_agent_block str_of c ≡ ok a) × Same (b ∷ []) (a ∷ [])

  extend :
      (b : Dict) (bs cs rest : List Dict) (o : Option Dict)
      → agent_block_to_claude_block str_of b ≡ ok o
      → BlockBack b o
      → agent_blocks_to_claude_blocks str_of bs ≡ ok cs
      → claude_blocks_to_agent_blocks str_of (to_items cs) ≡ ok rest
      → Same bs rest
      → BlocksBack (b ∷ bs)
  unfolding agent_blocks_to_claude_blocks claude_blocks_to_agent_blocks to_items copy_mapping
  extend b bs cs rest none e s to from same =
      (cs, rw (e, to) refl, (rest, from, Same-drop b bs rest s same))
  extend b bs cs rest (some c) e (a, f, s) to from same =
      (c ∷ cs, rw (e, to) refl, (a ∷ rest, rw (f, from) refl, Same-cons b a bs rest s same))

  blocks_back : (bs : List Dict) → AllSendable bs → BlocksBack bs
  unfolding agent_blocks_to_claude_blocks claude_blocks_to_agent_blocks to_items copy_mapping
  blocks_back [] h = ([], refl, ([], refl, (refl, refl, refl)))
  blocks_back (b ∷ bs) h =
      let (cs, to, (rest, from, same)) = blocks_back bs h.1 in
      let (o, e, s) = back str_of b h.0 in extend b bs cs rest o e s to from same

  abbrev MessageBack : Message → Type 0
  MessageBack m =
      (d : Dict) × (agent_message_to_claude_message str_of m ≡ ok d)
      × ((n : Message) × (claude_message_to_agent_message str_of d ≡ ok n)
          × (n.role ≡ m.role)
          × (shape n ≡ shape m))

  abbrev ContentBack : Content → Type 0
  ContentBack c =
      (v : Value) × (claude_content str_of c ≡ ok v)
      × ((d : Content) × (agent_content str_of (some v) ≡ ok d)
          × Same (content_blocks c) (content_blocks d))

  content_back : (c : Content) → AllSendable (content_blocks c) → ContentBack c
  unfolding claude_content agent_content
  content_back (text s) h = (Value.str s, refl, (text s, refl, (refl, refl, refl)))
  content_back (blocks bs) h =
      let (cs, to, (rest, from, same)) = blocks_back bs h in
      (Value.arr (to_items cs), rw to refl, (blocks rest, rw from refl, same))

  pub from-claude_message :
      (r : Role) (v : Value) (c : Content)
      → agent_content str_of (some v) ≡ ok c
      → claude_message_to_agent_message str_of (claude_message r v) ≡ ok (message r c)
  unfolding claude_message_to_agent_message claude_message claude_role get
  from-claude_message user v c h = rw h refl
  from-claude_message assistant v c h = rw h refl

  message_back : (m : Message) → IsSendable m → MessageBack m
  unfolding agent_message_to_claude_message
  message_back m h =
      let (v, to, (c, from, (u, r, f))) = content_back m.content h.1 in
      (
        claude_message m.role v,
        rw (normalize_message_lem m h.0, to) refl,
        (
          message m.role c,
          from-claude_message m.role v c from,
          refl,
          shape_of_Same m (message m.role c) (u, r, f),
        ),
      )

  abbrev HistoryBack : List Message → Type 0
  HistoryBack ms =
      (ds : List Dict) × (agent_messages_to_claude_messages str_of ms ≡ ok ds)
      × ((ns : List Message) × (claude_messages_to_agent_messages str_of ds ≡ ok ns)
          × (roles ns ≡ roles ms)
          × (shapes ns ≡ shapes ms))

  pub history_back : (ms : List Message) → All IsSendable ms → HistoryBack ms
  unfolding agent_messages_to_claude_messages claude_messages_to_agent_messages
  history_back [] h = ([], refl, ([], refl, refl, refl))
  history_back (m ∷ ms) h =
      let (d, to, (n, from, role, same)) = message_back m h.0 in
      let (ds, tos, (ns, froms, roles_same, all_same)) = history_back ms h.1 in
      (
        d ∷ ds,
        rw (to, tos) refl,
        (n ∷ ns, rw (from, froms) refl, rw (role, roles_same) refl, rw (same, all_same) refl),
      )
