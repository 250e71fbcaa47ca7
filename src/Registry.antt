-- ===== src/Registry.antt =====
-- simple_chat_agent/worker/user_chats_workflow.py: the registry of a user's chats and servers. Times are
-- numbers of seconds, and isoformat writes them as they are. The identifiers of a new chat, and how a
-- call of a chat's workflow ends, are arguments; what a new chat is started with is left out.
pub mod Continues
pub mod Updates
use Prim.Native.String.{◌++◌ as join}
use temporal_agent_harness_e.Prelude.{
  ℕ, ◌+◌, String, Bool, true, false, Option, none, some, List, [], ◌∷◌, map, leb, if◌then◌else◌,
  ltb,
}
use temporal_agent_harness_e.Prelude.Text.{is_blank, strip, text_length, text_take}
use temporal_agent_harness_e.Json.{Dict}
use temporal_agent_harness_e.Tools.{find, assign}
use temporal_agent_harness_e.Chat.Signals.{remove}
use temporal_agent_harness_e.Chat.Approvals.{squeeze}

pub data ChatStatus : Type 0 where
  active : ChatStatus
  deleting : ChatStatus

pub record ChatRecord : Type 0 where
  pub workflow_id : String
  pub run_id : String
  pub title : String
  pub status : ChatStatus
  pub created_at : ℕ
  pub updated_at : ℕ
  pub task_queue : String

-- HttpMcpServerConfig, of which the registry reads only the identifier
pub record McpServer : Type 0 where
  pub server_id : String
  pub config : Dict

pub record UserDemoWorkspaceRecord : Type 0 where
  pub control_workflow_id : String
  pub status : String
  pub workspace_id : String
  pub namespace : String
  pub host : String
  pub url : String
  pub task_queue : String
  pub updated_at : Option ℕ

pub record UserChats : Type 0 where
  pub user_id : String
  pub user_email : String
  pub search_attr_name : String
  pub chats : List (String × ChatRecord)
  pub mcp_servers : List (String × McpServer)
  pub demo_workspace : Option UserDemoWorkspaceRecord
  pub run_started_at : ℕ
  pub last_touched_at : ℕ
  pub touched_this_run : Bool

pub record UserChatsInput : Type 0 where
  pub user_id : String
  pub user_email : String
  pub search_attr_name : String
  pub chats : List ChatRecord
  pub mcp_servers : List McpServer
  pub demo_workspace : Option UserDemoWorkspaceRecord
  pub last_touched_at : Option ℕ

unfoldable pub touch : ℕ → UserChats → UserChats
touch now s = record s { last_touched_at = now; touched_this_run = true }

unfoldable pub put_chat : ChatRecord → UserChats → UserChats
put_chat c s = record s { chats = assign c.workflow_id c s.chats }

unfoldable pub conversation_title : String → String
conversation_title message =
    let normalized = squeeze false (strip message) in
    if is_blank normalized
    then "New chat"
    else if leb (text_length normalized) 64
    then normalized
    else join (text_take 61 normalized) "..."

initial_text : Option String → String
initial_text none = ""
initial_text (some s) = strip s

-- create_chat, once the chat's workflow has started
unfoldable pub create_chat : String → String → Option String → String → ℕ → UserChats → UserChats
unfolding initial_text
create_chat workflow_id run_id initial_message task_queue now s =
    put_chat
      (record {
        workflow_id = workflow_id;
        run_id = run_id;
        title = conversation_title (initial_text initial_message);
        status = active;
        created_at = now;
        updated_at = now;
        task_queue = task_queue;
      })
      (touch now s)

title_or : Option String → String → String
title_or none title = title
title_or (some t) title = if is_blank t then title else t

-- `self._chats[workflow_id] = ` the record found under it, changed
unfoldable pub change_found :
    String → (ChatRecord → ChatRecord) → Option ChatRecord → UserChats → UserChats
change_found workflow_id f none s = s
change_found workflow_id f (some c) s = record s { chats = assign workflow_id (f c) s.chats }

unfoldable pub touch_chat : String → Option String → ℕ → UserChats → UserChats
unfolding title_or change_found
touch_chat workflow_id title now s =
    change_found workflow_id (λ c. record c { title = title_or title c.title; updated_at = now })
      (find workflow_id s.chats) (touch now s)

unfoldable pub forget_chat : String → ℕ → UserChats → UserChats
forget_chat workflow_id now s =
    let t = touch now s in record t { chats = remove workflow_id t.chats }

unfoldable pub upsert_mcp_server : McpServer → ℕ → UserChats → UserChats
upsert_mcp_server server now s =
    let t = touch now s in record t { mcp_servers = assign server.server_id server t.mcp_servers }

unfoldable pub delete_mcp_server : String → ℕ → UserChats → UserChats
delete_mcp_server server_id now s =
    let t = touch now s in record t { mcp_servers = remove server_id t.mcp_servers }

-- delete_chat up to its calls of the chat's workflow
unfoldable pub begin_delete_chat : String → ℕ → UserChats → UserChats
unfolding change_found
begin_delete_chat workflow_id now s =
    change_found workflow_id (λ c. record c { status = deleting; updated_at = now })
      (find workflow_id s.chats) (touch now s)

-- delete_chat after its calls: a failure leaves the record, unless the workflow is missing
unfoldable pub end_delete_chat : String → Bool → UserChats → UserChats
end_delete_chat workflow_id raised s =
    if raised then s else record s { chats = remove workflow_id s.chats }

or_now : Option ℕ → ℕ → Option ℕ
or_now none now = some now
or_now (some t) now = some t

unfoldable pub set_demo_workspace : UserDemoWorkspaceRecord → ℕ → UserChats → UserChats
unfolding or_now
set_demo_workspace w now s = record (touch now s) {
  demo_workspace = some (record w { updated_at = or_now w.updated_at now });
}

unfoldable pub clear_demo_workspace : ℕ → UserChats → UserChats
clear_demo_workspace now s = record (touch now s) { demo_workspace = none }

-- USER_WORKFLOW_RUN_TTL, in seconds
abbrev pub user_workflow_run_ttl : ℕ
user_workflow_run_ttl = 1296000

unfoldable pub checkpoint_due : ℕ → UserChats → Bool
checkpoint_due now s = leb (s.run_started_at + user_workflow_run_ttl) now

unfoldable pub continue_as_new_input : UserChats → UserChatsInput
continue_as_new_input s = record {
  user_id = s.user_id;
  user_email = s.user_email;
  search_attr_name = s.search_attr_name;
  chats = map (λ e. e.1) s.chats;
  mcp_servers = map (λ e. e.1) s.mcp_servers;
  demo_workspace = s.demo_workspace;
  last_touched_at = some s.last_touched_at;
}

-- {key(v): v for v in values}, on top of what is there
unfoldable pub dict_of {ℓ} :
    {V : Type ℓ} → (V → String) → List V → List (String × V) → List (String × V)
dict_of key [] d = d
dict_of key (v ∷ vs) d = dict_of key vs (assign (key v) v d)

touched_at : Option ℕ → ℕ → ℕ
touched_at none now = now
touched_at (some t) now = t

was_touched : Option ℕ → ℕ → Bool
was_touched none now = true
was_touched (some t) now = ltb now t

-- The start of `run`.
unfoldable pub start_run : ℕ → UserChatsInput → UserChats
unfolding touched_at was_touched
start_run now i = record {
  user_id = i.user_id;
  user_email = i.user_email;
  search_attr_name = i.search_attr_name;
  chats = dict_of (λ (c : ChatRecord). c.workflow_id) i.chats [];
  mcp_servers = dict_of (λ (m : McpServer). m.server_id) i.mcp_servers [];
  demo_workspace = i.demo_workspace;
  run_started_at = now;
  last_touched_at = touched_at i.last_touched_at now;
  touched_this_run = was_touched i.last_touched_at now;
}
