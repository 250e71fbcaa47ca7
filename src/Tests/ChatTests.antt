-- ===== src/Tests/ChatTests.antt =====
-- The properties of a chat on a fresh chat with a first message.
use temporal_agent_harness_e.Prelude.Text.{contains}
use temporal_agent_harness_e.Tools.{find}
use temporal_agent_harness_e.Chat.{
  user, QueuedChatMessage, Status, ApprovalDecision, ChatState, record_state_change,
  rendered_transcript,
}
use temporal_agent_harness_e.Chat.Signals.{
  ChatSignalRequest, chat, is_always, add_memory, pop_approval,
}
use temporal_agent_harness_e.Chat.Approvals.{end_approval, waited_for}
use temporal_agent_harness_e.Prelude.{
  ◌≡◌, ◌⊎◌, ◌≤◌, ◌++◌, ◌-◌, min, refl, ℕ, true, false, none, List, [], ◌∷◌, length,
}
use temporal_agent_harness_e.Prelude.Int.{ℤ, pos, pos_part}
use temporal_agent_harness_e.Chat.Bytes.{
  text_bytes, truncate_text_bytes, transcript_byte_limit, text_bytes-truncate_text_bytes,
}
use temporal_agent_harness_e.Chat.Deltas.{
  Log, Logged, Increasing, Answers, transcript_deltas_since, transcript_deltas_since-Answers,
}
use temporal_agent_harness_e.Chat.Steps.{Step, run_step, run_steps}
use temporal_agent_harness_e.Chat.Steps.Buffer.{StepsTold, run_steps-Answers}
use temporal_agent_harness_e.Chat.Deltas.Growth.{told}
use temporal_agent_harness_e.Chat.Memory.{AlwaysAllows}
use temporal_agent_harness_e.Chat.Memory.Always.{run_step-AlwaysAllows}
use temporal_agent_harness_e.Chat.Queue.{chat_shows, Activated, activate-Activated}
use temporal_agent_harness_e.Chat.Page.{Whole, Cut, page_end, page_limit, transcript_page}
use temporal_agent_harness_e.Chat.Page.Bounds.{loop_of, transcript_page-Page}

abbrev fresh : ChatState
fresh = record {
  pending_messages = [];
  status = Status.idle;
  agent_ready = true;
  agent_transcript = [];
  active_message_index = none;
  active_message = none;
  active_settle_after_revision = 0;
  available_tool_names = "fetch_url" ∷ [];
  github_connection_id = none;
  mcp_servers = [];
  pending_approvals = [];
  approval_decisions = ("approval-1", ApprovalDecision.always_allow) ∷ [];
  approval_memory = [];
  approval_counter = 1;
  delete_requested = false;
  state_revision = 1;
  transcript_revision = 0;
  transcript_deltas = [];
  last_touched_at = 0;
  touched_this_run = false;
  calls = [];
}

abbrev request : ChatSignalRequest
request = record {
  message = "hello";
  attachments = [];
  after_revision = pos 0;
  available_tool_names = "fetch_url" ∷ [];
  github_connection_id = none;
  mcp_servers = [];
}

abbrev waiting_message : QueuedChatMessage
waiting_message = record {
  content = "hello";
  transcript_index = 0;
  attachments = [];
  settle_after_revision = 0;
  available_tool_names = none;
  github_connection_id = none;
  mcp_servers = none;
}

abbrev waiting : ChatState
waiting = record fresh { pending_messages = waiting_message ∷ [] }

abbrev steps : List Step
steps = Step.chat_sent request 5 ∷ Step.message_activated ∷ Step.turn_begun ∷ []

fresh-Logged : Logged [] fresh
fresh-Logged = record { dropped = 0; suffix = refl; increasing = Increasing.nil; bounded = tt }

transcript_deltas_since-Answers_example :
    Answers [] fresh 0 (transcript_deltas_since fresh (pos 0) (pos 20000))
transcript_deltas_since-Answers_example =
    transcript_deltas_since-Answers [] fresh (pos 0) (pos 20000) fresh-Logged

run_steps-Answers_example :
    (new : Log) × Logged ([] ++ new) (run_steps steps fresh)
    × StepsTold steps fresh (told new)
    × ((after max_bytes : ℤ)
        → Answers
            ([] ++ new)
            (run_steps steps fresh)
            (pos_part after)
            (transcript_deltas_since (run_steps steps fresh) after max_bytes))
run_steps-Answers_example = run_steps-Answers steps fresh [] fresh-Logged

chat_shows_example :
    (rendered_transcript (chat request 5 fresh)
      ≡ rendered_transcript fresh
        ++ record { role = user; content = "hello"; attachments = [] } ∷ [])
    × (q : QueuedChatMessage) × ((chat request 5 fresh).pending_messages ≡ [] ++ q ∷ [])
    × (q.content ≡ "hello")
    × (q.transcript_index ≡ length (rendered_transcript fresh))
chat_shows_example = chat_shows request 5 fresh

activate-Activated_example : Activated waiting waiting_message []
activate-Activated_example = activate-Activated waiting waiting_message [] refl refl

abbrev answered : Step
answered = Step.approval_ended false "approval-1" "github_open_issue"

now_remembered : contains (run_step answered fresh).approval_memory "github_open_issue" ≡ true
unfolding run_step end_approval contains is_always waited_for find add_memory record_state_change
    pop_approval
now_remembered = refl

run_step-AlwaysAllows_example :
    (contains fresh.approval_memory "github_open_issue" ≡ true)
    ⊎ AlwaysAllows fresh "github_open_issue" answered
run_step-AlwaysAllows_example =
    run_step-AlwaysAllows answered fresh "github_open_issue" now_remembered

transcript_page-Page_example :
    (bytes : ℕ) × (Whole
        (rendered_transcript waiting)
        (transcript_byte_limit (pos 20000))
        (page_end none (length (rendered_transcript waiting)) - page_limit (pos 60))
        (page_end none (length (rendered_transcript waiting)))
        (loop_of (transcript_page waiting none (pos 60) (pos 20000)) bytes)
      ⊎ Cut
          (rendered_transcript waiting)
          (transcript_byte_limit (pos 20000))
          (page_end none (length (rendered_transcript waiting)) - page_limit (pos 60))
          (page_end none (length (rendered_transcript waiting)))
          (loop_of (transcript_page waiting none (pos 60) (pos 20000)) bytes))
    × ((transcript_page waiting none (pos 60) (pos 20000)).estimated_bytes
        ≡ min bytes (transcript_byte_limit (pos 20000)))
transcript_page-Page_example = transcript_page-Page waiting none (pos 60) (pos 20000)

text_bytes-truncate_text_bytes_example : text_bytes (truncate_text_bytes "grün" 3) ≤ 3
text_bytes-truncate_text_bytes_example = text_bytes-truncate_text_bytes "grün" 3
