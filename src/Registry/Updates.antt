-- ===== src/Registry/Updates.antt =====
-- The updates of simple_chat_agent/worker/user_chats_workflow.py keep the registry well-formed.
use temporal_agent_harness_e.Prelude.{
  ℕ, ◌≡◌, refl, sym, ◌∙◌, String, Bool, true, false, Bool-cases, inl, inr, Option, none, some, List,
  [], ◌∷◌, str_eq, eq_iff, arith,
}
use temporal_agent_harness_e.Tools.{find, assign}
use temporal_agent_harness_e.Tools.Setup.Names.{Distinct, assign-Distinct}
use temporal_agent_harness_e.Chat.Signals.{remove}
use temporal_agent_harness_e.Registry.{
  ChatRecord, McpServer, UserDemoWorkspaceRecord, UserChats, touch, put_chat, create_chat,
  change_found, touch_chat, forget_chat, upsert_mcp_server, delete_mcp_server, begin_delete_chat,
  end_delete_chat, set_demo_workspace, clear_demo_workspace,
}
use temporal_agent_harness_e.Registry.Continues.{Keyed, IsUserChats}

module _ {V : Type 0} where
  find-remove :
      (k j : String) (d : List (String × V)) → find j d ≡ none → find j (remove k d) ≡ none
  unfolding find remove
  find-remove k j [] h = refl
  find-remove k j ((i, w) ∷ d) h = ground (arith, h, find-remove k j d)

  remove-Distinct : (k : String) (d : List (String × V)) → Distinct d → Distinct (remove k d)
  unfolding remove
  remove-Distinct k [] h = tt
  remove-Distinct k ((i, w) ∷ d) h = elim (Bool-cases (str_eq i k)) [
    | inl e ↦ rw e h.1
    | inr e ↦ rw e (find-remove k i d h.0, remove-Distinct k d h.1)
  ]

  module _ (key : V → String) where
    remove-Keyed : (k : String) (d : List (String × V)) → Keyed key d → Keyed key (remove k d)
    unfolding remove
    remove-Keyed k [] h = tt
    remove-Keyed k ((i, w) ∷ d) h = elim (Bool-cases (str_eq i k)) [
      | inl e ↦ rw e h.1
      | inr e ↦ rw e (h.0, remove-Keyed k d h.1)
    ]

    assign-Keyed :
        (k : String) (v : V) (d : List (String × V))
        → key v ≡ k
        → Keyed key d
        → Keyed key (assign k v d)
    unfolding assign
    assign-Keyed k v [] e h = (e, tt)
    assign-Keyed k v ((i, w) ∷ d) e h = elim (Bool-cases (str_eq i k)) [
      | inl same ↦ rw same (e ∙ sym ((eq_iff i k).0 same), h.1)
      | inr other ↦ rw other (h.0, assign-Keyed k v d e h.1)
    ]

    find-Keyed :
        (k : String) (v : V) (d : List (String × V)) → Keyed key d → find k d ≡ some v → key v ≡ k
    unfolding find
    find-Keyed k v [] h e = cc
    find-Keyed k v ((i, w) ∷ d) h e = ground (arith, e, h.0, eq_iff i k, find-Keyed k v d h.1)

pub data Update : Type 0 where
  created : String → String → Option String → String → Update
  touched : String → Option String → Update
  forgotten : String → Update
  server_put : McpServer → Update
  server_deleted : String → Update
  deletion_begun : String → Update
  deletion_ended : String → Bool → Update
  workspace_set : UserDemoWorkspaceRecord → Update
  workspace_cleared : Update

unfoldable pub update : Update → ℕ → UserChats → UserChats
update (created workflow_id run_id initial_message task_queue) now s =
    create_chat workflow_id run_id initial_message task_queue now s
update (touched workflow_id title) now s = touch_chat workflow_id title now s
update (forgotten workflow_id) now s = forget_chat workflow_id now s
update (server_put server) now s = upsert_mcp_server server now s
update (server_deleted server_id) now s = delete_mcp_server server_id now s
update (deletion_begun workflow_id) now s = begin_delete_chat workflow_id now s
update (deletion_ended workflow_id raised) now s = end_delete_chat workflow_id raised s
update (workspace_set w) now s = set_demo_workspace w now s
update workspace_cleared now s = clear_demo_workspace now s

abbrev chat_key : ChatRecord → String
chat_key c = c.workflow_id

touch-IsUserChats : (now : ℕ) (s : UserChats) → IsUserChats s → IsUserChats (touch now s)
unfolding touch
touch-IsUserChats now s h = record {
  chats_keyed = h.chats_keyed;
  chats_once = h.chats_once;
  servers_keyed = h.servers_keyed;
  servers_once = h.servers_once;
}

assigned-IsUserChats :
    (k : String) (c : ChatRecord) (s : UserChats)
    → c.workflow_id ≡ k
    → IsUserChats s
    → IsUserChats (record s { chats = assign k c s.chats })
assigned-IsUserChats k c s e h = record {
  chats_keyed = assign-Keyed chat_key k c s.chats e h.chats_keyed;
  chats_once = assign-Distinct k c s.chats h.chats_once;
  servers_keyed = h.servers_keyed;
  servers_once = h.servers_once;
}

removed-IsUserChats :
    (k : String) (s : UserChats)
    → IsUserChats s
    → IsUserChats (record s { chats = remove k s.chats })
removed-IsUserChats k s h = record {
  chats_keyed = remove-Keyed chat_key k s.chats h.chats_keyed;
  chats_once = remove-Distinct k s.chats h.chats_once;
  servers_keyed = h.servers_keyed;
  servers_once = h.servers_once;
}

change_found-IsUserChats :
    (k : String) (f : ChatRecord → ChatRecord) (o : Option ChatRecord) (s : UserChats)
    → find k s.chats ≡ o
    → ((c : ChatRecord) → (f c).workflow_id ≡ c.workflow_id)
    → IsUserChats s
    → IsUserChats (change_found k f o s)
unfolding change_found
change_found-IsUserChats k f none s found same h = h
change_found-IsUserChats k f (some c) s found same h =
    assigned-IsUserChats k (f c) s (same c ∙ find-Keyed chat_key k c s.chats h.chats_keyed found) h

-- Every update of the registry keeps each chat and each server under its own identifier, once.
pub update-IsUserChats :
    (u : Update) (now : ℕ) (s : UserChats) → IsUserChats s → IsUserChats (update u now s)
unfolding update create_chat put_chat touch_chat forget_chat upsert_mcp_server delete_mcp_server
    begin_delete_chat end_delete_chat set_demo_workspace clear_demo_workspace touch
update-IsUserChats (created workflow_id run_id initial_message task_queue) now s h =
    assigned-IsUserChats workflow_id _ (touch now s) refl (touch-IsUserChats now s h)
update-IsUserChats (touched workflow_id title) now s h =
    change_found-IsUserChats workflow_id _ (find workflow_id s.chats) (touch now s) refl (λ c. refl)
      (touch-IsUserChats now s h)
update-IsUserChats (forgotten workflow_id) now s h =
    removed-IsUserChats workflow_id (touch now s) (touch-IsUserChats now s h)
update-IsUserChats (server_put server) now s h = record {
  chats_keyed = h.chats_keyed;
  chats_once = h.chats_once;
  servers_keyed =
      assign-Keyed (λ (m : McpServer). m.server_id) server.server_id server s.mcp_servers refl
        h.servers_keyed;
  servers_once = assign-Distinct server.server_id server s.mcp_servers h.servers_once;
}
update-IsUserChats (server_deleted server_id) now s h = record {
  chats_keyed = h.chats_keyed;
  chats_once = h.chats_once;
  servers_keyed =
      remove-Keyed (λ (m : McpServer). m.server_id) server_id s.mcp_servers h.servers_keyed;
  servers_once = remove-Distinct server_id s.mcp_servers h.servers_once;
}
update-IsUserChats (deletion_begun workflow_id) now s h =
    change_found-IsUserChats workflow_id _ (find workflow_id s.chats) (touch now s) refl (λ c. refl)
      (touch-IsUserChats now s h)
update-IsUserChats (deletion_ended workflow_id true) now s h = h
update-IsUserChats (deletion_ended workflow_id false) now s h = removed-IsUserChats workflow_id s h
update-IsUserChats (workspace_set w) now s h = record {
  chats_keyed = h.chats_keyed;
  chats_once = h.chats_once;
  servers_keyed = h.servers_keyed;
  servers_once = h.servers_once;
}
update-IsUserChats workspace_cleared now s h = record {
  chats_keyed = h.chats_keyed;
  chats_once = h.chats_once;
  servers_keyed = h.servers_keyed;
  servers_once = h.servers_once;
}
