-- ===== src/Chat/Steps/Growth.antt =====
-- How the messages that users send to a chat of simple_chat_agent/worker/workflow.py let the log grow.
use temporal_agent_harness_e.Prelude.{
  ℕ, length, ◌≡◌, ◌⊎◌, refl, inl, inr, String, Bool, true, false, Bool-cases, ◌&&◌, Option, none,
  some, List, [], ◌∷◌, if◌then◌else◌,
}
use temporal_agent_harness_e.Attachments.{AttachmentRef}
use temporal_agent_harness_e.Chat.{
  ChatMessage, user, chat_message_for_queue, record_system_message, system_message,
  rendered_transcript, next_transcript_index, QueuedChatMessage, SteeringMode, Call, ChatState,
}
use temporal_agent_harness_e.Chat.Signals.{
  touch, queued, enqueue_chat, enqueue_and_record, ChatSignalRequest, chat, call, steer_agent,
  steer, is_responding, interrupt,
}
use temporal_agent_harness_e.Chat.Deltas.Growth.{
  Told, Quiet, Shown, Grows, Grows-weaken, Grows-same, Grows-after, Grows-before, Grows-record,
  Grows-system, Grows-state,
}

abbrev pub Notice : Told → Type 0
Notice l = (i : ℕ) × (content : String) × (l ≡ (i, system_message content) ∷ [])

-- No change, or one message of the system.
abbrev pub AtMostNotice : Told → Type 0
AtMostNotice l = Quiet l ⊎ Notice l

pub Grows-if :
    {P : Told → Type 0} (b : Bool) (s t u : ChatState)
    → Grows P s t
    → Grows P s u
    → Grows P s (if b then t else u)
Grows-if true s t u a c = a
Grows-if false s t u a c = c

pub weaken-Quiet : (s t : ChatState) → Grows Quiet s t → Grows AtMostNotice s t
weaken-Quiet s t = Grows-weaken s t (λ l q. inl q)

pub Grows-notice :
    (content : String) (s : ChatState) → Grows AtMostNotice s (record_system_message content s)
Grows-notice content s =
    Grows-weaken s _ (λ l e. inr (length (rendered_transcript s), content, e))
      (Grows-system content s)

pub Grows-enqueue :
    (q : QueuedChatMessage) (s : ChatState)
    → Grows (Shown q.transcript_index (chat_message_for_queue q)) s (enqueue_and_record q s)
unfolding enqueue_and_record
Grows-enqueue q s =
    Grows-after s (enqueue_chat q s) _ (unfold enqueue_chat in Grows-same s _ refl refl)
      (Grows-before (enqueue_chat q s) _ _ (Grows-record _ _ _) (Grows-state _))

pub Grows-touch : (now : ℕ) (s : ChatState) → Grows Quiet s (touch now s)
unfolding touch
Grows-touch now s = Grows-same s _ refl refl

pub Grows-call : (c : Call) (s : ChatState) → Grows Quiet s (call c s)
unfolding call
Grows-call c s = Grows-same s _ refl refl

abbrev pub user_message : String → List AttachmentRef → ChatMessage
user_message content attachments = record {
  role = user;
  content = content;
  attachments = attachments;
}

pub Grows-chat :
    (r : ChatSignalRequest) (now : ℕ) (s : ChatState)
    → Grows
        (Shown (length (rendered_transcript s)) (user_message r.message r.attachments))
        s
        (chat r now s)
unfolding chat touch queued next_transcript_index rendered_transcript
Grows-chat r now s =
    Grows-after s (touch now s) _ (Grows-touch now s) (Grows-enqueue _ (touch now s))

abbrev pub NoticeAt : ℕ → Told → Type 0
NoticeAt i l = (content : String) × (l ≡ (i, system_message content) ∷ [])

notice_at :
    (content : String) (s : ChatState)
    → Grows (NoticeAt (length (rendered_transcript s))) s (record_system_message content s)
notice_at content s = Grows-weaken s _ (λ l e. (content, e)) (Grows-system content s)

called_notice :
    (c : Call) (content : String) (s : ChatState)
    → Grows (NoticeAt (length (rendered_transcript s))) s (record_system_message content (call c s))
unfolding call rendered_transcript
called_notice c content s =
    Grows-after s (call c s) _ (Grows-call c s) (notice_at content (call c s))

pub Grows-steer_agent :
    (content mode : String) (m : Option SteeringMode) (s : ChatState)
    → Grows (NoticeAt (length (rendered_transcript s))) s (steer_agent content mode m s)
unfolding steer_agent
Grows-steer_agent content mode none s = notice_at _ s
Grows-steer_agent content mode (some m) s =
    Grows-if s.agent_ready s _ _ (called_notice (Call.steer_agent content m) _ s) (notice_at _ s)

-- What a steering message shows: it stands itself in the queue only when it has attachments.
abbrev pub SteerTold : ℕ → String → List AttachmentRef → Told → Type 0
SteerTold i content [] = NoticeAt i
SteerTold i content (a ∷ rest) = Shown i (user_message content (a ∷ rest))

pub Grows-steer :
    (content mode : String) (attachments : List AttachmentRef) (now : ℕ) (s : ChatState)
    → Grows
        (SteerTold (length (rendered_transcript s)) content attachments)
        s
        (steer content mode attachments now s)
unfolding steer touch queued next_transcript_index rendered_transcript
Grows-steer content mode [] now s =
    Grows-after s (touch now s) _ (Grows-touch now s)
      (Grows-steer_agent content mode _ (touch now s))
Grows-steer content mode (a ∷ rest) now s =
    Grows-after s (touch now s) _ (Grows-touch now s) (Grows-enqueue _ (touch now s))

-- An interrupt of a turn is told; without a turn it waits in the queue as a message.
abbrev pub InterruptTold : Bool → ℕ → String → Told → Type 0
InterruptTold true i content = NoticeAt i
InterruptTold false i content = Shown i (user_message content [])

pub Grows-interrupt :
    (content : String) (now : ℕ) (s : ChatState)
    → Grows
        (InterruptTold
          (s.agent_ready && is_responding s.status)
          (length (rendered_transcript s))
          content)
        s
        (interrupt content now s)
unfolding interrupt touch queued next_transcript_index rendered_transcript
Grows-interrupt content now s =
    let t = touch now s in
    Grows-after s t _ (Grows-touch now s)
      (elim (Bool-cases (t.agent_ready && is_responding t.status)) [
        | inl e ↦ rw e (called_notice (Call.interrupt_agent content) _ t)
        | inr e ↦ rw e (Grows-enqueue _ t)
      ])
