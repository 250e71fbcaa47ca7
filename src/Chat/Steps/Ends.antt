-- ===== src/Chat/Steps/Ends.antt =====
-- What the turns of simple_chat_agent/worker/workflow.py tell to clients.
use temporal_agent_harness_e.Prelude.{
  ℕ, suc, ◌≡◌, refl, ap, subst, ◌∙◌, ◌⊎◌, inl, inr, ◌&&◌, length, if◌then◌else◌, String, Bool, true,
  false, Option, none, some, List, [], ◌∷◌, ◌++◌,
}
use temporal_agent_harness_e.Chat.{
  ChatMessage, QueuedChatMessage, ChatState, record_state_change, record_system_message,
  record_transcript_change, system_message, rendered_transcript,
}
use temporal_agent_harness_e.Chat.Turns.{
  apply_tool_config, apply_queued_tool_config, activate, clear_active_turn, record_latest,
  record_latest_rendered_message_change, effective_at, last_message, attachments_of,
  record_effective_user_prompt_if_needed, TurnEnd, finished, failed_with, end_turn,
}
use temporal_agent_harness_e.Prelude.{sym}
use temporal_agent_harness_e.Chat.Deltas.Growth.{
  Told, Then, Quiet, Shown, recorded, Grows, Grows-weaken, Grows-same, Grows-trans, Grows-after,
  Grows-before, Grows-record, Grows-system,
}
use temporal_agent_harness_e.Chat.Steps.{activated}
use temporal_agent_harness_e.Chat.Steps.Growth.{user_message}

pub Grows-config :
    (names : Option (List String)) (q : QueuedChatMessage) (s : ChatState)
    → Grows Quiet s (apply_tool_config names q s)
unfolding apply_tool_config
Grows-config none q s = Grows-same s s refl refl
Grows-config (some names) q s = Grows-same s _ refl refl

pub Grows-activate :
    (qs : List QueuedChatMessage) (s : ChatState) → Grows Quiet s (activated (activate qs s) s)
unfolding activated activate apply_queued_tool_config
Grows-activate [] s = Grows-same s s refl refl
Grows-activate (q ∷ qs) s =
    Grows-after s
      (record s {
        pending_messages = qs;
        active_message_index = some q.transcript_index;
        active_message = some q;
        active_settle_after_revision = q.settle_after_revision;
      })
      _ (Grows-same s _ refl refl) (Grows-config q.available_tool_names q _)

pub Grows-clear : (s : ChatState) → Grows Quiet s (clear_active_turn s)
unfolding clear_active_turn record_state_change
Grows-clear s = Grows-same s _ refl refl

-- The change that tells the last message of a transcript, if it has one.
abbrev pub LatestTold : List ChatMessage → Told → Type 0
LatestTold transcript l =
    ((transcript ≡ []) × Quiet l)
    ⊎ (front : List ChatMessage) × (m : ChatMessage) × (transcript ≡ front ++ m ∷ [])
      × Shown (length front) m l

last_split :
    (m : ChatMessage) (rest : List ChatMessage)
    → (front : List ChatMessage) × (n : ChatMessage) × (m ∷ rest ≡ front ++ n ∷ [])
      × (last_message (m ∷ rest) ≡ some n)
      × (length front ≡ length rest)
unfolding last_message
last_split m [] = ([], m, refl, refl, refl)
last_split m (n ∷ rest) =
    let (front, x, split, last, same) = last_split n rest in
    (m ∷ front, x, ap (◌∷◌ m) split, last, ap suc same)

pub Grows-latest :
    (transcript : List ChatMessage) (s : ChatState)
    → Grows (LatestTold transcript) s (record_latest transcript s)
unfolding record_latest
Grows-latest [] s = Grows-weaken s _ (λ l q. inl (refl, q)) (Grows-record _ _ s)
Grows-latest (m ∷ rest) s =
    let (front, n, split, last, same) = last_split m rest in
    Grows-weaken s _
      (λ l e. inr (
        front,
        n,
        split,
        e ∙ ap (recorded (some (length rest))) last ∙ ap (λ i. (i, n) ∷ []) (sym same),
      ))
      (Grows-record _ _ s)

-- The change that tells the prompt as the guards left it.
abbrev pub prompt_told : Bool → Option ℕ → Option String → Option QueuedChatMessage → Told
prompt_told true (some i) (some effective) q = (i, user_message effective (attachments_of q)) ∷ []
prompt_told true (some i) none q = []
prompt_told true none effective q = []
prompt_told false i effective q = []

abbrev pub PromptTold : Bool → Option ℕ → Option String → Option QueuedChatMessage → Told → Type 0
PromptTold t i effective q l = l ≡ prompt_told t i effective q

pub Grows-effective_at :
    (i : Option ℕ) (effective : Option String) (s : ChatState)
    → Grows (PromptTold true i effective s.active_message) s (effective_at i effective s)
unfolding effective_at
Grows-effective_at none effective s = Grows-same s s refl refl
Grows-effective_at (some i) none s = Grows-same s s refl refl
Grows-effective_at (some i) (some effective) s = Grows-record _ _ s

pub Grows-ready :
    (ready : Bool) (i : Option ℕ) (effective : Option String) (s : ChatState)
    → Grows
        (PromptTold ready i effective s.active_message)
        s
        (if ready then effective_at i effective s else s)
Grows-ready true i effective s = Grows-effective_at i effective s
Grows-ready false i effective s = Grows-same s s refl refl

pub Grows-effective :
    (censor : Bool) (effective : Option String) (s : ChatState)
    → Grows
        (PromptTold (censor && s.agent_ready) s.active_message_index effective s.active_message)
        s
        (record_effective_user_prompt_if_needed censor effective s)
unfolding record_effective_user_prompt_if_needed
Grows-effective false effective s = Grows-same s s refl refl
Grows-effective true effective s = Grows-ready s.agent_ready s.active_message_index effective s

rendered-record :
    (i : Option ℕ) (m : Option ChatMessage) (s : ChatState)
    → rendered_transcript (record_transcript_change i m s) ≡ rendered_transcript s
unfolding rendered_transcript record_transcript_change
rendered-record none m s = refl
rendered-record (some i) none s = refl
rendered-record (some i) (some m) s = refl

rendered-effective_at :
    (i : Option ℕ) (effective : Option String) (s : ChatState)
    → rendered_transcript (effective_at i effective s) ≡ rendered_transcript s
unfolding effective_at
rendered-effective_at none effective s = refl
rendered-effective_at (some i) none s = refl
rendered-effective_at (some i) (some effective) s = rendered-record _ _ s

rendered-if :
    (b : Bool) (t s : ChatState)
    → rendered_transcript t ≡ rendered_transcript s
    → rendered_transcript (if b then t else s) ≡ rendered_transcript s
rendered-if true t s e = e
rendered-if false t s e = refl

rendered-effective :
    (censor : Bool) (effective : Option String) (s : ChatState)
    → rendered_transcript (record_effective_user_prompt_if_needed censor effective s)
      ≡ rendered_transcript s
unfolding record_effective_user_prompt_if_needed
rendered-effective false effective s = refl
rendered-effective true effective s =
    rendered-if s.agent_ready _ s (rendered-effective_at s.active_message_index effective s)

-- What the end of a turn tells: the prompt that guards changed and the last message, or the error.
abbrev pub TurnTold : Bool → TurnEnd → ChatState → Told → Type 0
TurnTold censor (finished effective) s =
    Then (PromptTold (censor && s.agent_ready) s.active_message_index effective s.active_message)
      (LatestTold (rendered_transcript s))
TurnTold censor (failed_with message) s =
    Shown (length (rendered_transcript s)) (system_message message)

pub Grows-end_turn :
    (censor : Bool) (end : TurnEnd) (s : ChatState)
    → Grows (TurnTold censor end s) s (end_turn censor end s)
unfolding end_turn record_latest_rendered_message_change
Grows-end_turn censor (finished effective) s =
    let prompted = record_effective_user_prompt_if_needed censor effective s in
    let latest = record_latest (rendered_transcript prompted) prompted in
    Grows-before s latest _
      (Grows-trans s prompted latest (Grows-effective censor effective s) (
        subst (λ t. Grows (LatestTold t) prompted latest) (rendered-effective censor effective s)
          (Grows-latest (rendered_transcript prompted) prompted)))
      (Grows-clear latest)
Grows-end_turn censor (failed_with message) s =
    Grows-before s (record_system_message message s) _ (Grows-system message s) (Grows-clear _)
