-- ===== src/Chat/Queue.antt =====
-- What users see of the queue of simple_chat_agent/worker/workflow.py: sent messages in the transcript,
-- and the order in which turns take them.
use temporal_agent_harness_e.Prelude.{
  ℕ, String, ◌≡◌, refl, sym, ap, ◌∙◌, Option, none, some, List, [], ◌∷◌, ◌++◌, length, arith,
}
use temporal_agent_harness_e.Chat.{
  ChatMessage, user, QueuedChatMessage, ChatState, record_state_change, record_transcript_change,
  overlay_transcript_message, chat_message_for_queue, overlay_queue, overlay_active,
  rendered_transcript, next_transcript_index,
}
use temporal_agent_harness_e.Chat.Signals.{
  touch, queued, enqueue_chat, enqueue_and_record, ChatSignalRequest, chat,
}
use temporal_agent_harness_e.Chat.Turns.{
  ActiveTurn, apply_tool_config, apply_queued_tool_config, activate, activate_next_queued_message,
}

overlay_queue-append :
    (qs : List QueuedChatMessage) (q : QueuedChatMessage) (t : List ChatMessage)
    → overlay_queue (qs ++ q ∷ []) t
      ≡ overlay_transcript_message q.transcript_index
          (chat_message_for_queue q)
          (overlay_queue qs t)
unfolding overlay_queue
overlay_queue-append [] q t = refl
overlay_queue-append (p ∷ qs) q t = overlay_queue-append qs q _

overlay_at_end :
    (t : List ChatMessage) (m : ChatMessage)
    → overlay_transcript_message (length t) m t ≡ t ++ m ∷ []
unfolding overlay_transcript_message
overlay_at_end t m = ground arith

enqueue_shows :
    (s : ChatState) (q : QueuedChatMessage)
    → q.transcript_index ≡ next_transcript_index s
    → rendered_transcript (enqueue_and_record q s)
      ≡ rendered_transcript s ++ chat_message_for_queue q ∷ []
unfolding enqueue_and_record enqueue_chat record_state_change record_transcript_change
    rendered_transcript next_transcript_index
enqueue_shows s q e =
    let shown =
      overlay_queue s.pending_messages (overlay_active s.active_message s.agent_transcript) in
    overlay_queue-append s.pending_messages q (overlay_active s.active_message s.agent_transcript)
    ∙ ap (λ i. overlay_transcript_message i (chat_message_for_queue q) shown) e
    ∙ overlay_at_end shown (chat_message_for_queue q)

touched_shown :
    (now : ℕ) (s : ChatState) → rendered_transcript (touch now s) ≡ rendered_transcript s
unfolding rendered_transcript touch
touched_shown now s = refl

-- A message that a user sends stands at once at the end of the transcript, behind everything that was
-- shown before, and at the end of the queue.
pub chat_shows :
    (r : ChatSignalRequest) (now : ℕ) (s : ChatState)
    → (rendered_transcript (chat r now s)
        ≡ rendered_transcript s
          ++ record { role = user; content = r.message; attachments = r.attachments } ∷ [])
      × (q : QueuedChatMessage) × ((chat r now s).pending_messages ≡ s.pending_messages ++ q ∷ [])
      × (q.content ≡ r.message)
      × (q.transcript_index ≡ length (rendered_transcript s))
unfolding chat queued touch next_transcript_index
chat_shows r now s =
    let t = touch now s in
    let q =
      queued t r.message r.attachments r.after_revision (some r.available_tool_names)
        r.github_connection_id (some r.mcp_servers) in
    (
      enqueue_shows t q refl
          ∙ ap (λ shown. shown ++ chat_message_for_queue q ∷ []) (touched_shown now s),
      q,
      unfold enqueue_and_record enqueue_chat record_state_change record_transcript_change in refl,
      refl,
      ap length (touched_shown now s),
    )

config_shows :
    (names : Option (List String)) (q : QueuedChatMessage) (s : ChatState)
    → (rendered_transcript (apply_tool_config names q s) ≡ rendered_transcript s)
      × ((apply_tool_config names q s).pending_messages ≡ s.pending_messages)
unfolding apply_tool_config rendered_transcript
config_shows none q s = (refl, refl)
config_shows (some names) q s = (refl, refl)

-- _activate_next_queued_message before the tool configuration.
abbrev taken : ChatState → QueuedChatMessage → List QueuedChatMessage → ChatState
taken s q qs = record s {
  pending_messages = qs;
  active_message_index = some q.transcript_index;
  active_message = some q;
  active_settle_after_revision = q.settle_after_revision;
}

taken_shown :
    (s : ChatState) (q : QueuedChatMessage) (qs : List QueuedChatMessage)
    → s.pending_messages ≡ q ∷ qs
    → s.active_message ≡ none
    → rendered_transcript (taken s q qs) ≡ rendered_transcript s
unfolding rendered_transcript overlay_queue overlay_active
taken_shown s q qs waiting between = sym (
    ap (λ l. overlay_queue l (overlay_active s.active_message s.agent_transcript)) waiting
    ∙ ap (λ a. overlay_queue (q ∷ qs) (overlay_active a s.agent_transcript)) between)

-- What activation makes of a queue `q ∷ qs`.
pub record Activated (s : ChatState) (q : QueuedChatMessage) (qs : List QueuedChatMessage)
    : Type 0 where
  pub turn : ActiveTurn
  pub after : ChatState
  pub activated : activate_next_queued_message s ≡ some (turn, after)
  pub oldest : turn.message ≡ some q.content
  pub rest : after.pending_messages ≡ qs
  pub shown : rendered_transcript after ≡ rendered_transcript s

-- Between turns, the next turn takes the oldest message of the queue and leaves the others in order,
-- and the transcript that users see does not change by it.
pub activate-Activated :
    (s : ChatState) (q : QueuedChatMessage) (qs : List QueuedChatMessage)
    → s.pending_messages ≡ q ∷ qs
    → s.active_message ≡ none
    → Activated s q qs
unfolding activate_next_queued_message activate apply_queued_tool_config
activate-Activated s q qs waiting between =
    let t = taken s q qs in
    record {
      turn = record {
        message = some q.content;
        attachments = q.attachments;
        settle_after_revision = q.settle_after_revision;
      };
      after = apply_queued_tool_config q t;
      activated = ap (λ l. activate l s) waiting;
      oldest = refl;
      rest = (config_shows q.available_tool_names q t).1;
      shown = (config_shows q.available_tool_names q t).0 ∙ taken_shown s q qs waiting between;
    }
