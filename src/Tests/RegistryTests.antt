-- ===== src/Tests/RegistryTests.antt =====
-- The registry properties on a registry with one chat.
use temporal_agent_harness_e.Prelude.{◌≡◌, refl, true, false, none, some, [], ◌∷◌}
use temporal_agent_harness_e.Tools.{find}
use temporal_agent_harness_e.Registry.{
  ChatRecord, ChatStatus, UserChats, continue_as_new_input, start_run,
}
use temporal_agent_harness_e.Registry.Continues.{IsUserChats, start_run-continue_as_new_input}
use temporal_agent_harness_e.Registry.Updates.{Update, update, update-IsUserChats}

abbrev first_chat : ChatRecord
first_chat = record {
  workflow_id = "chat-1";
  run_id = "run-1";
  title = "New chat";
  status = ChatStatus.active;
  created_at = 3;
  updated_at = 4;
  task_queue = "chats";
}

abbrev registry : UserChats
registry = record {
  user_id = "user";
  user_email = "";
  search_attr_name = "";
  chats = ("chat-1", first_chat) ∷ [];
  mcp_servers = [];
  demo_workspace = none;
  run_started_at = 1;
  last_touched_at = 4;
  touched_this_run = true;
}

registry-IsUserChats : IsUserChats registry
unfolding find
registry-IsUserChats = record {
  chats_keyed = (refl, tt);
  chats_once = (refl, tt);
  servers_keyed = tt;
  servers_once = tt;
}

start_run-continue_as_new_input_example :
    start_run 9 (continue_as_new_input registry)
    ≡ record registry { run_started_at = 9; touched_this_run = false }
start_run-continue_as_new_input_example =
    start_run-continue_as_new_input 9 registry registry-IsUserChats

update-IsUserChats_example :
    IsUserChats (update (Update.touched "chat-1" (some "Plans")) 7 registry)
update-IsUserChats_example =
    update-IsUserChats (Update.touched "chat-1" (some "Plans")) 7 registry registry-IsUserChats
