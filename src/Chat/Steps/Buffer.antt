-- ===== src/Chat/Steps/Buffer.antt =====
-- What the buffer of changes of simple_chat_agent/worker/workflow.py tells over all steps of a chat.
use temporal_agent_harness_e.Prelude.{
  ℕ, suc, ◌≡◌, refl, ◌&&◌, length, String, Bool, List, [], ◌∷◌, ◌++◌, append-nil,
}
use temporal_agent_harness_e.Prelude.Int.{ℤ, pos_part}
use temporal_agent_harness_e.Chat.{ChatMessage, ChatState, record_state_change, rendered_transcript}
use temporal_agent_harness_e.Chat.Signals.{is_responding, delete, expire_child_approval}
use temporal_agent_harness_e.Chat.Turns.{activate_next_queued_message, begin_turn, continued}
use temporal_agent_harness_e.Prelude.{drop, sym, arith}
use temporal_agent_harness_e.Chat.Deltas.{
  bounded_by, Log, Logged, Answers, transcript_deltas_since, transcript_deltas_since-Answers,
}
use temporal_agent_harness_e.Chat.Deltas.Growth.{
  Told, told, Then, Quiet, Shown, Grows, Grows-same, Grows-trans,
}
use temporal_agent_harness_e.Chat.Steps.{
  Step, chat_sent, delete_sent, steer_sent, interrupt_sent, approval_resolved,
  child_approval_expired, child_approval_requested, approval_asked, approval_ended,
  message_activated, turn_begun, agent_worked, turn_ended, run_continued, run_step, run_steps,
}
use temporal_agent_harness_e.Chat.Steps.Ends.{Grows-activate, Grows-end_turn, TurnTold}
use temporal_agent_harness_e.Chat.Steps.Growth.{
  AtMostNotice, user_message, SteerTold, InterruptTold, Grows-chat, Grows-steer, Grows-interrupt,
}
use temporal_agent_harness_e.Chat.Steps.Asks.{
  Grows-resolve, Grows-expire_found, Grows-request, Grows-ask, Grows-end,
}

drop-length : (log : Log) → drop (length log) log ≡ []
drop-length [] = refl
drop-length (d ∷ log) = drop-length log

-- A continuation drops the whole buffer.
Logged-continued :
    (log : Log) (s : ChatState) (now : ℕ) (resumed : Bool) (defaults : List String)
    (transcript : List ChatMessage)
    → Logged log s
    → Logged log (continued now resumed defaults transcript s)
unfolding continued record_state_change
Logged-continued log s now resumed defaults transcript h = record {
  dropped = length log;
  suffix = sym (drop-length log);
  increasing = h.increasing;
  bounded =
      bounded_by s.transcript_revision (suc s.transcript_revision) log (omega arith) h.bounded;
}

-- The changes that each step tells to clients.
abbrev pub StepTold : Step → ChatState → Told → Type 0
StepTold (chat_sent r now) s =
    Shown (length (rendered_transcript s)) (user_message r.message r.attachments)
StepTold (steer_sent content mode attachments now) s =
    SteerTold (length (rendered_transcript s)) content attachments
StepTold (interrupt_sent content now) s =
    InterruptTold (s.agent_ready && is_responding s.status) (length (rendered_transcript s)) content
StepTold (approval_resolved approval_id decision failure now) s = AtMostNotice
StepTold (child_approval_requested r expires_at failure) s = AtMostNotice
StepTold (turn_ended censor end) s = TurnTold censor end s
StepTold delete_sent s = Quiet
StepTold (child_approval_expired workflow child) s = Quiet
StepTold (approval_asked tool_name args expires_at) s = Quiet
StepTold (approval_ended timed_out approval_id key) s = Quiet
StepTold message_activated s = Quiet
StepTold turn_begun s = Quiet
StepTold (agent_worked transcript) s = Quiet
StepTold (run_continued now resumed defaults transcript) s = Quiet

abbrev pub StepsTold : List Step → ChatState → Told → Type 0
StepsTold [] s = Quiet
StepsTold (step ∷ rest) s = Then (StepTold step s) (StepsTold rest (run_step step s))

Grows-step : (step : Step) (s : ChatState) → Grows (StepTold step s) s (run_step step s)
unfolding run_step delete expire_child_approval activate_next_queued_message begin_turn
    record_state_change
Grows-step (chat_sent r now) s = Grows-chat r now s
Grows-step delete_sent s = Grows-same s _ refl refl
Grows-step (steer_sent content mode attachments now) s = Grows-steer content mode attachments now s
Grows-step (interrupt_sent content now) s = Grows-interrupt content now s
Grows-step (approval_resolved approval_id decision failure now) s =
    Grows-resolve approval_id decision failure now s
Grows-step (child_approval_expired workflow child) s = Grows-expire_found _ s
Grows-step (child_approval_requested r expires_at failure) s = Grows-request r expires_at failure s
Grows-step (approval_asked tool_name args expires_at) s = Grows-ask tool_name args expires_at s
Grows-step (approval_ended timed_out approval_id key) s = Grows-end timed_out approval_id key s
Grows-step message_activated s = Grows-activate s.pending_messages s
Grows-step turn_begun s = Grows-same s _ refl refl
Grows-step (agent_worked transcript) s = Grows-same s _ refl refl
Grows-step (turn_ended censor end) s = Grows-end_turn censor end s
Grows-step (run_continued now resumed defaults transcript) s = record {
  at =
      λ log h. ([], rw append-nil (Logged-continued log s now resumed defaults transcript h), refl);
}

Grows-steps : (steps : List Step) (s : ChatState) → Grows (StepsTold steps s) s (run_steps steps s)
unfolding run_steps
Grows-steps [] s = Grows-same s s refl refl
Grows-steps (step ∷ rest) s =
    Grows-trans s (run_step step s) _ (Grows-step step s) (Grows-steps rest (run_step step s))

-- From a state whose buffer ends a log of changes, and however the signals, turns, approvals and
-- continuations of the chat then interleave, the buffer ends that log with new changes behind it. The
-- new changes are, step by step: the message of a user at its place; the notice of the system for
-- steering, an interrupt or a failed turn, and at most one for an approval; and for a finished turn the
-- prompt, where it is censored, and the last message shown. Each answer to a client, for any byte limit,
-- either asks it to take a snapshot or holds exactly the changes of the longer log that are newer than
-- the client's revision, in order, within the limit.
pub run_steps-Answers :
    (steps : List Step) (s : ChatState) (log : Log)
    → Logged log s
    → (new : Log) × Logged (log ++ new) (run_steps steps s)
      × StepsTold steps s (told new)
      × ((after max_bytes : ℤ)
          → Answers
              (log ++ new)
              (run_steps steps s)
              (pos_part after)
              (transcript_deltas_since (run_steps steps s) after max_bytes))
run_steps-Answers steps s log h =
    let (new, logged, steps_told) = (Grows-steps steps s).at log h in
    (
      new,
      logged,
      steps_told,
      λ after max_bytes.
          transcript_deltas_since-Answers (log ++ new) (run_steps steps s) after max_bytes logged,
    )
