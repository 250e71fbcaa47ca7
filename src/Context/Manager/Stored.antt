-- ===== src/Context/Manager/Stored.antt =====
-- What the context manager stores can be stored again: the round trip through a snapshot, and the
-- invariant of every operation.
use temporal_agent_harness_e.Prelude.{
  String, ◌≡◌, refl, inl, inr, true, Option, some, List, [], ◌∷◌, ◌++◌, str_eq, Bool-cases, All,
  All-append,
}
use temporal_agent_harness_e.Prelude.Outcome.{Outcome, ok, ◌>>=◌, Yields, Yields-bind, Yields-ok}
use temporal_agent_harness_e.Json.{Value, Items, Dict, get, get_str, value_eq}
use temporal_agent_harness_e.Messages.{
  user, blocks, Message, message, text_block, is_normal_block, IsNormal, AllNormal, content_blocks,
}
use temporal_agent_harness_e.Messages.Snapshots.{
  message_to_snapshot, messages_from_snapshots, normalize_message, from-snapshots,
  message_from_snapshot-IsNormal, messages_from_snapshots-AllNormal,
}
use temporal_agent_harness_e.Context.Manager.{
  Manager, record_user_message, initialize, record_assistant_message, record_tool_results,
  replace_messages, full_context_snapshot, restore,
}
use temporal_agent_harness_e.Attachments.{AttachmentRef, attachment_manifest_text}
use temporal_agent_harness_e.Context.Manager.{is_version_2, restore_messages, user_content}

-- Restoring the full snapshot of a manager gives its history back, exactly.
pub restore-full_context_snapshot :
    (s t : Manager)
    → AllNormal t.messages
    → restore s (full_context_snapshot t) ≡ ok (record s { messages = t.messages })
unfolding restore full_context_snapshot get value_eq
restore-full_context_snapshot s t h = rw (from-snapshots t.messages h)

-- The operations that change the history, with their arguments.
pub data Operation : Type 0 where
  initialize_with : String → List AttachmentRef → Operation
  user_message : String → List AttachmentRef → Operation
  assistant_message : Message → Operation
  tool_results : List Dict → Operation
  replace : Items → Operation
  restore_from : Dict → Operation

unfoldable pub apply : Manager → Operation → Outcome Manager
apply s (initialize_with prompt attachments) = ok (initialize s prompt attachments)
apply s (user_message prompt attachments) = ok (record_user_message s prompt attachments)
apply s (assistant_message m) = record_assistant_message s m
apply s (tool_results rs) = record_tool_results s rs
apply s (replace items) = replace_messages s items
apply s (restore_from snapshot) = restore s snapshot

abbrev pub IsStored : Manager → Type 0
IsStored s = AllNormal s.messages

user_content-normal :
    (prompt manifest : String)
    → All (λ b. is_normal_block b ≡ true) (content_blocks (user_content prompt manifest))
unfolding user_content text_block get_str get
user_content-normal prompt manifest = elim (Bool-cases (str_eq manifest "")) [
  | inl e ↦ rw e tt
  | inr e ↦ elim (Bool-cases (str_eq prompt "")) [
    | inl f ↦ rw (e, f) (refl, tt)
    | inr f ↦ rw (e, f) (refl, (refl, tt))
  ]
]

record_user_message-IsStored :
    (s : Manager) (prompt : String) (attachments : List AttachmentRef)
    → IsStored s
    → IsStored (record_user_message s prompt attachments)
unfolding record_user_message
record_user_message-IsStored s prompt attachments h =
    All-append IsNormal s.messages _ h
      (user_content-normal prompt (attachment_manifest_text attachments), tt)

append-IsStored :
    (s : Manager) (m : Message)
    → IsStored s
    → Yields IsStored
        (do n ← normalize_message m; ok (record s { messages = s.messages ++ n ∷ [] }))
append-IsStored s m h = Yields-bind IsStored (normalize_message m) _ λ n e.
    All-append IsNormal s.messages (n ∷ []) h (
      Yields-ok IsNormal (normalize_message m)
          (unfold normalize_message in message_from_snapshot-IsNormal (message_to_snapshot m)) e,
      tt,
    )

read-IsStored :
    (s : Manager) (items : Items)
    → Yields IsStored (do ms ← messages_from_snapshots items; ok (record s { messages = ms }))
read-IsStored s items = Yields-bind IsStored (messages_from_snapshots items) _ λ ms e.
    Yields-ok AllNormal (messages_from_snapshots items) (messages_from_snapshots-AllNormal items) e

restore_messages-IsStored :
    (s : Manager) (o : Option Value) → Yields IsStored (restore_messages s o)
unfolding restore_messages
restore_messages-IsStored s (some (Value.arr items)) = read-IsStored s items
restore_messages-IsStored s _ = tt

restore-IsStored : (s : Manager) (snapshot : Dict) → Yields IsStored (restore s snapshot)
unfolding restore
restore-IsStored s snapshot = elim (Bool-cases (is_version_2 (get "version" snapshot))) [
  | inl e ↦ rw e (restore_messages-IsStored s (get "messages" snapshot))
  | inr e ↦ rw e tt
]

-- Whatever a provider, a guard or a snapshot supplies, an operation that returns leaves a history
-- whose messages can all be stored and read back.
pub apply-IsStored : (s : Manager) (o : Operation) → IsStored s → Yields IsStored (apply s o)
unfolding apply record_assistant_message record_tool_results replace_messages
apply-IsStored s (initialize_with prompt attachments) h =
    unfold initialize in
    record_user_message-IsStored (record s { messages = [] }) prompt attachments tt
apply-IsStored s (user_message prompt attachments) h =
    record_user_message-IsStored s prompt attachments h
apply-IsStored s (assistant_message m) h = append-IsStored s m h
apply-IsStored s (tool_results []) h = h
apply-IsStored s (tool_results (r ∷ rs)) h = append-IsStored s (message user (blocks (r ∷ rs))) h
apply-IsStored s (replace items) h = read-IsStored s items
apply-IsStored s (restore_from snapshot) h = restore-IsStored s snapshot
