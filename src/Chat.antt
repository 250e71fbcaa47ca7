-- ===== src/Chat.antt =====
-- simple_chat_agent/worker/workflow.py: the state of a chat workflow, its transcript with the messages
-- that wait in the queue, and the buffer of transcript changes. Times are numbers of seconds, and the
-- configuration of a server is the dict of its fields, which is only copied.
pub mod Bytes
pub mod Deltas
pub mod Page
pub mod Signals
pub mod Approvals
pub mod Turns
pub mod Memory
pub mod Queue
pub mod Steps
use temporal_agent_harness_e.Prelude.{
  ℕ, suc, ◌+◌, ◌-◌, String, Bool, true, false, Option, none, some, List, [], ◌∷◌, ◌++◌, ltb,
  if◌then◌else◌, length, set, drop,
}
use temporal_agent_harness_e.Json.{Dict}
use temporal_agent_harness_e.Attachments.{AttachmentRef}

pub data ChatRole : Type 0 where
  user : ChatRole
  assistant : ChatRole
  system : ChatRole

pub record ChatMessage : Type 0 where
  pub role : ChatRole
  pub content : String
  pub attachments : List AttachmentRef

pub record TranscriptDelta : Type 0 where
  pub revision : ℕ
  pub index : ℕ
  pub message : ChatMessage

pub record QueuedChatMessage : Type 0 where
  pub content : String
  pub transcript_index : ℕ
  pub attachments : List AttachmentRef
  pub settle_after_revision : ℕ
  pub available_tool_names : Option (List String)
  pub github_connection_id : Option String
  pub mcp_servers : Option (List Dict)

pub record PendingApproval : Type 0 where
  pub approval_id : String
  pub tool_name : String
  pub tool_args : Dict
  pub summary : String
  pub memory_key : String
  pub expires_at : Option String
  pub requesting_workflow_id : Option String
  pub requesting_approval_id : Option String

pub data Status : Type 0 where
  starting : Status
  idle : Status
  responding : Status

pub data ApprovalDecision : Type 0 where
  allow : ApprovalDecision
  always_allow : ApprovalDecision
  deny : ApprovalDecision
  expired : ApprovalDecision
  cancelled : ApprovalDecision

pub data SteeringMode : Type 0 where
  immediate : SteeringMode
  after_next_tool_result : SteeringMode

-- What the workflow asks of its agent and of other workflows.
pub data Call : Type 0 where
  steer_agent : String → SteeringMode → Call
  interrupt_agent : String → Call
  resolve_delegated_approval : String → String → ApprovalDecision → Call

-- `agent_transcript` is the agent's context snapshot as _chat_message_from_agent_message renders it.
pub record ChatState : Type 0 where
  pub pending_messages : List QueuedChatMessage
  pub status : Status
  pub agent_ready : Bool
  pub agent_transcript : List ChatMessage
  pub active_message_index : Option ℕ
  pub active_message : Option QueuedChatMessage
  pub active_settle_after_revision : ℕ
  pub available_tool_names : List String
  pub github_connection_id : Option String
  pub mcp_servers : List Dict
  pub pending_approvals : List (String × PendingApproval)
  pub approval_decisions : List (String × ApprovalDecision)
  pub approval_memory : List String
  pub approval_counter : ℕ
  pub delete_requested : Bool
  pub state_revision : ℕ
  pub transcript_revision : ℕ
  pub transcript_deltas : List TranscriptDelta
  pub last_touched_at : ℕ
  pub touched_this_run : Bool
  pub calls : List Call

abbrev pub transcript_delta_buffer_limit : ℕ
transcript_delta_buffer_limit = 80

unfoldable pub record_state_change : ChatState → ChatState
record_state_change s = record s { state_revision = suc s.state_revision }

-- l[-n:] where l is longer than n
unfoldable pub last_of {ℓ} : {A : Type ℓ} → ℕ → List A → List A
last_of n l = if ltb n (length l) then drop (length l - n) l else l

unfoldable pub record_transcript_change : Option ℕ → Option ChatMessage → ChatState → ChatState
record_transcript_change (some i) (some m) s = record s {
  transcript_revision = suc s.transcript_revision;
  transcript_deltas = last_of transcript_delta_buffer_limit (
      s.transcript_deltas
      ++ record { revision = suc s.transcript_revision; index = i; message = m } ∷ []);
}
record_transcript_change _ _ s = record s { transcript_revision = suc s.transcript_revision }

unfoldable pub overlay_transcript_message : ℕ → ChatMessage → List ChatMessage → List ChatMessage
overlay_transcript_message i m transcript =
    if ltb i (length transcript) then set transcript i m else transcript ++ m ∷ []

abbrev pub chat_message_for_queue : QueuedChatMessage → ChatMessage
chat_message_for_queue q = record { role = user; content = q.content; attachments = q.attachments }

-- _rendered_transcript overlays the active message, then the queue in order.
unfoldable pub overlay_queue : List QueuedChatMessage → List ChatMessage → List ChatMessage
overlay_queue [] transcript = transcript
overlay_queue (q ∷ qs) transcript =
    overlay_queue qs
      (overlay_transcript_message q.transcript_index (chat_message_for_queue q) transcript)

unfoldable pub overlay_active : Option QueuedChatMessage → List ChatMessage → List ChatMessage
overlay_active none transcript = transcript
overlay_active (some q) transcript =
    overlay_transcript_message q.transcript_index (chat_message_for_queue q) transcript

unfoldable pub rendered_transcript : ChatState → List ChatMessage
rendered_transcript s =
    overlay_queue s.pending_messages (overlay_active s.active_message s.agent_transcript)

unfoldable pub next_transcript_index : ChatState → ℕ
next_transcript_index s = length (rendered_transcript s)

unfoldable pub system_message : String → ChatMessage
system_message content = record { role = system; content = content; attachments = [] }

unfoldable pub record_system_message : String → ChatState → ChatState
record_system_message content s =
    record_transcript_change (some (next_transcript_index s)) (some (system_message content)) s
