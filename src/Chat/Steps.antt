-- ===== src/Chat/Steps.antt =====
-- The steps of a chat workflow of simple_chat_agent/worker/workflow.py: its signals, the ends of its
-- waits and its turns, in any order.
pub mod Growth
pub mod Asks
pub mod Ends
pub mod Buffer
use temporal_agent_harness_e.Prelude.{
  ℕ, suc, ◌≡◌, refl, inl, inr, ◌≢◌, String, Bool, true, false, Bool-cases, ◌&&◌, Option, none, some,
  List, [], ◌∷◌, ◌++◌, append-nil, append_assoc, if◌then◌else◌,
}
use temporal_agent_harness_e.Prelude.Int.{ℤ, pos, pos_part}
use temporal_agent_harness_e.Prelude.Text.{contains}
use temporal_agent_harness_e.Json.{Dict}
use temporal_agent_harness_e.Attachments.{AttachmentRef}
use temporal_agent_harness_e.Tools.{find, assign}
use temporal_agent_harness_e.Chat.{
  ChatMessage, QueuedChatMessage, PendingApproval, Status, ApprovalDecision, SteeringMode, Call,
  ChatState, record_state_change, record_transcript_change, record_system_message,
  chat_message_for_queue, rendered_transcript,
}
use temporal_agent_harness_e.Chat.Signals.{
  touch, queued, enqueue_chat, enqueue_and_record, ChatSignalRequest, chat, delete, call,
  steering_mode, steer_agent, steer, is_responding, interrupt, pop_approval, add_memory,
  signal_child_approval, is_always, parse_decision, resolve_delegated, store_decision, resolve_for,
  resolve_found, resolve_parsed, resolve_approval, find_delegated, expire_found,
  expire_child_approval, approval_memory_key,
}
use temporal_agent_harness_e.Chat.Approvals.{
  add_approval, new_approval, ChildToolApprovalRequest, request_new, request_child_approval,
  ask_approval, waited_for, take_decision, end_approval,
}
use temporal_agent_harness_e.Chat.Turns.{
  ActiveTurn, apply_tool_config, apply_queued_tool_config, activate, activate_next_queued_message,
  begin_turn, clear_active_turn, record_latest, record_latest_rendered_message_change, effective_at,
  record_effective_user_prompt_if_needed, TurnEnd, finished, failed_with, end_turn, continued,
}
use temporal_agent_harness_e.Chat.Deltas.{
  Log, Logged, TranscriptDeltaResult, Answers, transcript_deltas_since,
  transcript_deltas_since-Answers,
}
use temporal_agent_harness_e.Chat.Deltas.Growth.{
  Grows, Grows-same, Grows-trans, Grows-record, Grows-system, Grows-state,
}

pub data Step : Type 0 where
  chat_sent : ChatSignalRequest → ℕ → Step
  delete_sent : Step
  steer_sent : String → String → List AttachmentRef → ℕ → Step
  interrupt_sent : String → ℕ → Step
  approval_resolved : String → String → Option String → ℕ → Step
  child_approval_expired : String → String → Step
  child_approval_requested : ChildToolApprovalRequest → String → Option String → Step
  approval_asked : String → Dict → String → Step
  approval_ended : Bool → String → String → Step
  message_activated : Step
  turn_begun : Step
  agent_worked : List ChatMessage → Step
  turn_ended : Bool → TurnEnd → Step
  run_continued : ℕ → Bool → List String → List ChatMessage → Step

unfoldable pub activated : Option (ActiveTurn × ChatState) → ChatState → ChatState
activated none s = s
activated (some (turn, t)) s = t

unfoldable pub run_step : Step → ChatState → ChatState
unfolding activated
run_step (chat_sent r now) s = chat r now s
run_step delete_sent s = delete s
run_step (steer_sent content mode attachments now) s = steer content mode attachments now s
run_step (interrupt_sent content now) s = interrupt content now s
run_step (approval_resolved approval_id decision failure now) s =
    resolve_approval approval_id decision failure now s
run_step (child_approval_expired workflow child) s = expire_child_approval workflow child s
run_step (child_approval_requested r expires_at failure) s =
    request_child_approval r expires_at failure s
run_step (approval_asked tool_name args expires_at) s = (ask_approval tool_name args expires_at s).1
run_step (approval_ended timed_out approval_id key) s = (end_approval timed_out approval_id key s).1
run_step message_activated s = activated (activate_next_queued_message s) s
run_step turn_begun s = begin_turn s
run_step (agent_worked transcript) s = record s { agent_transcript = transcript }
run_step (turn_ended censor end) s = end_turn censor end s
run_step (run_continued now resumed defaults transcript) s =
    continued now resumed defaults transcript s

unfoldable pub run_steps : List Step → ChatState → ChatState
run_steps [] s = s
run_steps (step ∷ rest) s = run_steps rest (run_step step s)
