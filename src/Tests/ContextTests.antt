-- ===== src/Tests/ContextTests.antt =====
-- The context properties on the example conversations.
use temporal_agent_harness_e.Prelude.{
  ◌≡◌, ◌⊎◌, ◌≤◌, ◌<◌, refl, subst, true, some, List, [], ◌∷◌, All, length,
}
use temporal_agent_harness_e.Prelude.Outcome.{ok, Yields}
use temporal_agent_harness_e.Json.{get_str, get, field_is}
use temporal_agent_harness_e.Messages.{Message, AllNormal, tool_result_block}
use temporal_agent_harness_e.Context.{
  shapes, IsPaired, IsUnmixed, tool_use_ids, tool_result_ids, message_has_block_type, block_ids,
  any_of_type, has_tool_results_for, without_tool_use_blocks, other_blocks,
}
use temporal_agent_harness_e.Prelude.Text.{contains}
use temporal_agent_harness_e.Context.Exchanges.{
  drop_incomplete_tool_exchanges, drop_incomplete-IsPaired, drop_incomplete_of_IsPaired,
}
use temporal_agent_harness_e.Context.Groups.{
  message_groups, flatten_message_groups, flatten-message_groups,
}
use temporal_agent_harness_e.Context.Shrink.{tool_results, truncate_to_budget}
use temporal_agent_harness_e.Context.Shrink.Loop.{Truncated, truncate_to_budget-Truncated}
use temporal_agent_harness_e.Context.Fit.{
  fit_messages_to_token_budget, FitOf, fit-ShortOf, fit-IsPaired,
}
use temporal_agent_harness_e.Context.Manager.{restore, full_context_snapshot}
use temporal_agent_harness_e.Context.Manager.Stored.{
  Operation, apply, IsStored, restore-full_context_snapshot, apply-IsStored,
}
use temporal_agent_harness_e.Context.View.{
  messages_for_model, with_context_compaction_marker, without_context_compaction_markers,
}
use temporal_agent_harness_e.Context.View.Pairing.{messages_for_model-IsPaired}
use temporal_agent_harness_e.Context.View.Compaction.{
  with_context_compaction_marker_lem, marker_count,
}
use temporal_agent_harness_e.Tests.{hello, call, chat, torn, small_budget, manager}

chat-AllNormal : AllNormal chat
unfolding get_str get tool_result_block
chat-AllNormal = (tt, ((refl, tt), ((refl, tt), tt)))

chat-IsUnmixed : All IsUnmixed chat
unfolding message_has_block_type any_of_type field_is get_str get tool_result_block
chat-IsUnmixed = (refl, (refl, (refl, tt)))

torn-IsUnmixed : All IsUnmixed torn
unfolding message_has_block_type any_of_type field_is get_str get tool_result_block
torn-IsUnmixed = (refl, (refl, (refl, (refl, tt))))

-- The torn conversation loses both halves.
drop_incomplete-IsPaired_example : IsPaired (shapes (drop_incomplete_tool_exchanges torn))
drop_incomplete-IsPaired_example = drop_incomplete-IsPaired torn torn-IsUnmixed

torn_dropped : drop_incomplete_tool_exchanges torn ≡ hello ∷ hello ∷ []
unfolding drop_incomplete_tool_exchanges tool_use_ids block_ids field_is get_str get
    tool_result_block message_has_block_type any_of_type has_tool_results_for contains
    tool_result_ids without_tool_use_blocks other_blocks
torn_dropped = refl

chat_kept : drop_incomplete_tool_exchanges chat ≡ chat
unfolding drop_incomplete_tool_exchanges tool_use_ids block_ids field_is get_str get
    tool_result_block message_has_block_type any_of_type has_tool_results_for contains
    tool_result_ids without_tool_use_blocks other_blocks
chat_kept = refl

chat-IsPaired : IsPaired (shapes chat)
chat-IsPaired =
    subst (λ ms. IsPaired (shapes ms)) chat_kept (drop_incomplete-IsPaired chat chat-IsUnmixed)

drop_incomplete_of_IsPaired_example : drop_incomplete_tool_exchanges chat ≡ chat
drop_incomplete_of_IsPaired_example = drop_incomplete_of_IsPaired chat chat-IsPaired

flatten-message_groups_example : flatten_message_groups (message_groups chat) ≡ chat
flatten-message_groups_example = flatten-message_groups chat

truncate_to_budget-Truncated_example :
    Truncated tool_results small_budget chat (truncate_to_budget tool_results chat small_budget)
truncate_to_budget-Truncated_example =
    truncate_to_budget-Truncated tool_results small_budget chat chat-AllNormal

fit-ShortOf_example :
    FitOf small_budget true chat (fit_messages_to_token_budget chat small_budget true)
fit-ShortOf_example = fit-ShortOf small_budget true chat chat-AllNormal

abbrev fitted : List Message
fitted = fit-ShortOf_example.short.result

fit-IsPaired_example : IsPaired (shapes fitted)
fit-IsPaired_example =
    fit-IsPaired small_budget true chat fitted chat-AllNormal chat-IsPaired
      fit-ShortOf_example.short.returned

messages_for_model-IsPaired_example :
    (out : List Message) × (messages_for_model manager (some small_budget) ≡ ok out)
    × IsPaired (shapes out)
messages_for_model-IsPaired_example =
    messages_for_model-IsPaired manager (some small_budget) chat-AllNormal chat-IsUnmixed

with_context_compaction_marker_lem_example :
    (without_context_compaction_markers (with_context_compaction_marker chat (hello ∷ []) true)
      ≡ without_context_compaction_markers (hello ∷ []))
    × ((length (without_context_compaction_markers (hello ∷ [])) < length chat)
          × (marker_count (with_context_compaction_marker chat (hello ∷ []) true) ≡ 1)
        ⊎ (length chat ≤ length (without_context_compaction_markers (hello ∷ [])))
          × (with_context_compaction_marker chat (hello ∷ []) true ≡ hello ∷ []))
with_context_compaction_marker_lem_example =
    with_context_compaction_marker_lem chat (hello ∷ []) true

restore-full_context_snapshot_example :
    restore (record manager { messages = torn }) (full_context_snapshot manager) ≡ ok manager
restore-full_context_snapshot_example =
    restore-full_context_snapshot (record manager { messages = torn }) manager chat-AllNormal

apply-IsStored_example : Yields IsStored (apply manager (Operation.assistant_message call))
apply-IsStored_example = apply-IsStored manager (Operation.assistant_message call) chat-AllNormal
