-- ===== src/Registry/Continues.antt =====
-- What a registry of simple_chat_agent/worker/user_chats_workflow.py keeps over its updates and over a
-- continuation.
use temporal_agent_harness_e.Prelude.{
  ℕ, ◌≡◌, refl, sym, ap, ◌∙◌, String, false, none, List, [], ◌∷◌, ◌++◌, map, append-nil,
  append_assoc, str_eq, eq_iff, arith, All, ltb,
}
use temporal_agent_harness_e.Tools.{find, assign}
use temporal_agent_harness_e.Tools.Setup.Names.{Distinct}
use temporal_agent_harness_e.Registry.{
  ChatRecord, McpServer, UserChats, dict_of, continue_as_new_input, start_run,
}

module _ {V : Type 0} (key : V → String) where
  -- Every value stands under its own key.
  abbrev pub Keyed : List (String × V) → Type 0
  Keyed = All (λ e. key e.1 ≡ e.0)

  other_key :
      (j k : String) (v : V) (d l : List (String × V))
      → find j (d ++ (k, v) ∷ l) ≡ none
      → str_eq k j ≡ false
  unfolding find
  other_key j k v [] l h = ground (arith, h)
  other_key j k v ((i, w) ∷ d) l h = ground (arith, h, other_key j k v d l)

  fresh_key :
      (k : String) (v : V) (d l : List (String × V)) → Distinct (d ++ (k, v) ∷ l) → find k d ≡ none
  unfolding find
  fresh_key k v [] l h = refl
  fresh_key k v ((i, w) ∷ d) l h =
      ground (arith, other_key i k v d l h.0, eq_iff i k, eq_iff k i, fresh_key k v d l h.1)

  assign-fresh :
      (k : String) (v : V) (d : List (String × V))
      → find k d ≡ none
      → assign k v d ≡ d ++ (k, v) ∷ []
  unfolding find assign
  assign-fresh k v [] h = refl
  assign-fresh k v ((i, w) ∷ d) h = ground (arith, h, assign-fresh k v d)

  dict_of-values :
      (l d : List (String × V))
      → Keyed l
      → Distinct (d ++ l)
      → dict_of key (map (λ e. e.1) l) d ≡ d ++ l
  unfolding dict_of
  dict_of-values [] d h u = sym (append-nil d)
  dict_of-values ((k, v) ∷ l) d h u =
      let next = d ++ (k, v) ∷ [] in
      ap (dict_of key (map (λ e. e.1) l))
        (ap (λ j. assign j v d) h.0 ∙ assign-fresh k v d (fresh_key k v d l u))
      ∙ dict_of-values l next h.1 (rw append_assoc u)
      ∙ append_assoc d ((k, v) ∷ []) l

-- Chats and servers stand under their own identifiers, each once.
pub record IsUserChats (s : UserChats) : Type 0 where
  pub chats_keyed : Keyed (λ (c : ChatRecord). c.workflow_id) s.chats
  pub chats_once : Distinct s.chats
  pub servers_keyed : Keyed (λ (m : McpServer). m.server_id) s.mcp_servers
  pub servers_once : Distinct s.mcp_servers

-- A continuation loses nothing of the registry: the new run starts with the same chats, servers and
-- workspace, in the same order, and with the time of the last update.
pub start_run-continue_as_new_input :
    (now : ℕ) (s : UserChats)
    → IsUserChats s
    → start_run now (continue_as_new_input s)
      ≡ record s { run_started_at = now; touched_this_run = ltb now s.last_touched_at }
unfolding start_run continue_as_new_input
start_run-continue_as_new_input now s h =
    rw
      (
        dict_of-values (λ (c : ChatRecord). c.workflow_id) s.chats [] h.chats_keyed h.chats_once,
        dict_of-values (λ (m : McpServer). m.server_id) s.mcp_servers [] h.servers_keyed
            h.servers_once,
      )
      refl
