-- ===== src/Chat/Turns.antt =====
-- The turns of simple_chat_agent/worker/workflow.py: the next message of the queue becomes the active
-- one, the agent works, and the turn is cleared; and the state that a continuation starts from. What
-- the agent itself does to the transcript is an argument.
use temporal_agent_harness_e.Prelude.{
  ℕ, suc, String, Bool, true, false, ◌||◌, Option, none, some, List, [], ◌∷◌, ltb, leb,
  if◌then◌else◌, length, is_empty,
}
use temporal_agent_harness_e.Json.{Dict}
use temporal_agent_harness_e.Attachments.{AttachmentRef}
use temporal_agent_harness_e.Chat.{
  ChatMessage, user, QueuedChatMessage, idle, responding, ChatState, record_state_change,
  record_transcript_change, record_system_message, rendered_transcript,
}

pub record ActiveTurn : Type 0 where
  pub message : Option String
  pub attachments : List AttachmentRef
  pub settle_after_revision : ℕ

or_no_servers : Option (List Dict) → List Dict
or_no_servers none = []
or_no_servers (some servers) = servers

unfoldable pub apply_tool_config : Option (List String) → QueuedChatMessage → ChatState → ChatState
unfolding or_no_servers
apply_tool_config none q s = s
apply_tool_config (some names) q s = record s {
  available_tool_names = names;
  github_connection_id = q.github_connection_id;
  mcp_servers = or_no_servers q.mcp_servers;
}

-- _apply_queued_tool_config
unfoldable pub apply_queued_tool_config : QueuedChatMessage → ChatState → ChatState
unfolding apply_tool_config
apply_queued_tool_config q s = apply_tool_config q.available_tool_names q s

unfoldable pub activate : List QueuedChatMessage → ChatState → Option (ActiveTurn × ChatState)
activate [] s = none
activate (q ∷ qs) s = some (
  record {
    message = some q.content;
    attachments = q.attachments;
    settle_after_revision = q.settle_after_revision;
  },
  apply_queued_tool_config q (record s {
    pending_messages = qs;
    active_message_index = some q.transcript_index;
    active_message = some q;
    active_settle_after_revision = q.settle_after_revision;
  }),
)

-- The run loop calls it only with a message in the queue.
unfoldable pub activate_next_queued_message : ChatState → Option (ActiveTurn × ChatState)
unfolding activate
activate_next_queued_message s = activate s.pending_messages s

unfoldable pub begin_turn : ChatState → ChatState
begin_turn s = record_state_change (record s { status = responding })

unfoldable pub clear_active_turn : ChatState → ChatState
clear_active_turn s = record_state_change (record s {
  active_message_index = none;
  active_message = none;
  active_settle_after_revision = 0;
  status = idle;
})

unfoldable pub last_message : List ChatMessage → Option ChatMessage
last_message [] = none
last_message (m ∷ []) = some m
last_message (m ∷ n ∷ rest) = last_message (n ∷ rest)

unfoldable pub record_latest : List ChatMessage → ChatState → ChatState
unfolding last_message
record_latest [] s = record_transcript_change none none s
record_latest (m ∷ rest) s =
    record_transcript_change (some (length rest)) (last_message (m ∷ rest)) s

unfoldable pub record_latest_rendered_message_change : ChatState → ChatState
unfolding record_latest
record_latest_rendered_message_change s = record_latest (rendered_transcript s) s

abbrev pub attachments_of : Option QueuedChatMessage → List AttachmentRef
attachments_of none = []
attachments_of (some q) = q.attachments

unfoldable pub effective_at : Option ℕ → Option String → ChatState → ChatState
effective_at (some i) (some effective) s =
    record_transcript_change (some i)
      (some (record {
        role = user;
        content = effective;
        attachments = attachments_of s.active_message;
      }))
      s
effective_at _ _ s = s

-- _record_effective_user_prompt_if_needed, with the prompt that the agent's guards left
unfoldable pub record_effective_user_prompt_if_needed : Bool → Option String → ChatState → ChatState
unfolding effective_at
record_effective_user_prompt_if_needed false effective s = s
record_effective_user_prompt_if_needed true effective s =
    if s.agent_ready then effective_at s.active_message_index effective s else s

-- How the agent's run ended: with a result, or with an error for the user.
pub data TurnEnd : Type 0 where
  finished : Option String → TurnEnd
  failed_with : String → TurnEnd

-- _run_active_turn after the agent's run.
unfoldable pub end_turn : Bool → TurnEnd → ChatState → ChatState
end_turn censor (finished effective) s = clear_active_turn (
    record_latest_rendered_message_change
      (record_effective_user_prompt_if_needed censor effective s))
end_turn censor (failed_with message) s = clear_active_turn (record_system_message message s)

-- What a new run of the workflow keeps of the state of the last one: _continue_as_new_input, then
-- _restore_from_input and the start of `run`. `resumed` tells whether the agent's run goes on, and
-- `defaults` is what tool_names_for_connections lists, for a state without tool names.
unfoldable pub continued : ℕ → Bool → List String → List ChatMessage → ChatState → ChatState
continued now resumed defaults transcript s =
    let busy = leb 1 (length s.pending_messages) || resumed in
    record_state_change (record s {
      status = idle;
      agent_ready = true;
      agent_transcript = transcript;
      active_message = none;
      available_tool_names =
          if is_empty s.available_tool_names then defaults else s.available_tool_names;
      pending_approvals = [];
      approval_decisions = [];
      delete_requested = false;
      transcript_revision = suc s.transcript_revision;
      transcript_deltas = [];
      last_touched_at = if busy then now else s.last_touched_at;
      touched_this_run = busy || ltb now s.last_touched_at;
      calls = [];
    })
