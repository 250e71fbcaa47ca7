-- ===== src/Agent/Run.antt =====
-- The loop of agent_harness/agent.py over model calls and tool calls: Agent.run. Fuel bounds the
-- number of rounds; a run that has used it up has no result. The environment says what happens in each
pub mod Answers
pub mod Paired
pub mod Rounds
pub mod Ends
pub mod Calm
-- round, whichever round it is.
use Prim.Native.String.{◌++◌ as join}
use temporal_agent_harness_e.Prelude.{
  ℕ, zero, suc, ◌-◌, String, ◌≡◌, refl, Bool, true, false, not, ◌&&◌, ◌||◌, Option, none, some,
  List, [], ◌∷◌, map, if◌then◌else◌, ltb, is_empty, length,
}
use temporal_agent_harness_e.Prelude.Text.{decimal}
use temporal_agent_harness_e.Prelude.Outcome.{Outcome, ok, raise, value_error, ◌>>=◌}
use temporal_agent_harness_e.Prelude.Int.{ℤ, pos, ◌-ℤ◌}
use temporal_agent_harness_e.Json.{Value, Items, Dict, value_eq}
use temporal_agent_harness_e.Messages.{Message, assistant, text_message, tool_use_blocks}
use temporal_agent_harness_e.Attachments.{AttachmentRef}
use temporal_agent_harness_e.Context.Manager.{
  Manager, record_user_message, initialize, record_assistant_message, record_tool_results, restore,
  full_context_snapshot,
}
use temporal_agent_harness_e.Context.View.{continuation_context_snapshot}
use temporal_agent_harness_e.Providers.{is_null}
use temporal_agent_harness_e.Providers.Interface.{AgentProvider}
use temporal_agent_harness_e.Agent.{context_token_budget}
use temporal_agent_harness_e.Agent.Calls.{execute_requested_tools}
use temporal_agent_harness_e.Agent.State.{
  AgentConfig, Agent, receive, flush_immediate_context, flush_after_tool_context,
  flush_interrupt_context, Ran, then_run,
}
use temporal_agent_harness_e.Agent.Call.{Round, call_provider}

pub record AgentState : Type 0 where
  pub context_snapshot : Dict
  pub turns : ℕ
  pub llm_guard_state : Dict

pub record AgentResult : Type 0 where
  pub message : Message
  pub stop_reason : Value
  pub turns : ℕ
  pub continuation_state : Option AgentState
  pub guard_action : Value
  pub guard_reason : Value
  pub stop_details : Option Dict

-- How a round ends: with a result, or with the next round, after a number of turns.
pub data RoundEnd : Type 0 where
  done : AgentResult → RoundEnd
  again : ℕ → RoundEnd

module _ {Q R : Type 0} (p : AgentProvider Q R) (config : AgentConfig)
    (str_of : Value → String) where
  unfoldable pub result_of : Message → R → ℕ → Option AgentState → AgentResult
  result_of message r turn continuation = record {
    message = message;
    stop_reason = p.stop_reason r;
    turns = turn;
    continuation_state = continuation;
    guard_action = p.guard_action r;
    guard_reason = p.guard_reason r;
    stop_details = p.stop_details r;
  }

  unfoldable pub should_return_continue_as_new : Round Q R → Bool
  should_return_continue_as_new rd = config.continue_as_new_enabled && rd.continue_suggested

  unfoldable pub note_termination : R → Agent → Agent
  note_termination r a =
      if value_eq (p.guard_action r) (Value.str "terminate")
      then record a { terminated = true; termination_reason = p.guard_reason r }
      else a

  unfoldable pub continue_as_new : List Dict → Message → R → ℕ → Agent → Ran RoundEnd
  unfolding result_of
  continue_as_new tools message r turn a =
      then_run
        (
          do
            reserved ← p.estimate_request_tokens config.system_prompt tools
            budget ← context_token_budget config.settings reserved false
            continuation_context_snapshot a.context (some budget),
          a,
        )
        (λ snapshot b. (
          ok (
              RoundEnd.done (
                result_of message r turn (
                  some (record {
                    context_snapshot = snapshot;
                    turns = turn;
                    llm_guard_state = b.llm_guard_state;
                  })))),
          b,
        ))

  unfoldable pub after_tools :
      Round Q R → List Dict → Message → R → ℕ → Bool → List Dict → Agent → Ran RoundEnd
  unfolding should_return_continue_as_new continue_as_new
  after_tools rd tools message r turn interrupted results a =
      then_run (record_tool_results a.context results, a)
        λ context b.
          let c = flush_after_tool_context (record b { context = context }) in
          if c.interrupt_requested || interrupted
          then (ok (RoundEnd.again turn), flush_interrupt_context c)
          else if should_return_continue_as_new rd
          then continue_as_new tools message r turn c
          else (ok (RoundEnd.again turn), c)

  unfoldable pub run_tools :
      Round Q R → List Dict → Message → R → ℕ → List Dict → Agent → Ran RoundEnd
  unfolding after_tools
  run_tools rd tools message r turn requested a =
      let b = receive a rd.tool_signals in
      then_run
        (
          execute_requested_tools b.interrupt_requested (map (λ q. (q, rd.tool_end q)) requested),
          receive b rd.late_signals,
        )
        (after_tools rd tools message r turn b.interrupt_requested)

  unfoldable pub without_tools : Message → R → ℕ → Agent → Ran RoundEnd
  unfolding result_of
  without_tools message r turn a =
      if a.interrupt_requested
      then (ok (RoundEnd.again turn), flush_interrupt_context a)
      else (ok (RoundEnd.done (result_of message r turn none)), a)

  unfoldable pub take_answer : Round Q R → List Dict → R → ℕ → Message → Agent → Ran RoundEnd
  unfolding result_of note_termination run_tools without_tools
  take_answer rd tools r turn message a =
      then_run (record_assistant_message a.context message, a)
        λ context b.
          let c = record b { context = context } in
          if not (is_null (p.guard_action r))
          then (ok (RoundEnd.done (result_of message r turn none)), note_termination r c)
          else if is_empty (tool_use_blocks message)
          then without_tools message r turn c
          else run_tools rd tools message r turn (tool_use_blocks message) c

  unfoldable pub after_call : Round Q R → List Dict → ℕ → Option R → Agent → Ran RoundEnd
  unfolding take_answer
  after_call rd tools turn none a = (ok (RoundEnd.again turn), flush_interrupt_context a)
  after_call rd tools turn (some r) a =
      if a.interrupt_requested
      then (ok (RoundEnd.again (suc turn)), flush_interrupt_context a)
      else then_run (p.response_with_visible_refusal r, a)
          (λ v b. then_run (p.response_message v, b) (take_answer rd tools v (suc turn)))

  unfoldable pub flush_before_call : Agent → Agent
  flush_before_call a =
      flush_immediate_context (if a.interrupt_requested then flush_interrupt_context a else a)

  -- one round of the loop of `run`
  unfoldable pub run_round : Round Q R → List Dict → ℕ → Agent → Ran RoundEnd
  unfolding after_call flush_before_call
  run_round rd tools turn a =
      then_run (call_provider p config str_of rd tools (flush_before_call a))
        (after_call rd tools turn)

  unfoldable pub max_turns_result : ℕ → AgentResult
  max_turns_result max_turns = record {
    message =
        text_message assistant
          (join "Stopped after reaching max_turns=" (join (decimal max_turns) "."));
    stop_reason = p.stop_reason_for_max_turns;
    turns = max_turns;
    continuation_state = none;
    guard_action = Value.null;
    guard_reason = Value.null;
    stop_details = none;
  }

  unfoldable pub after_round :
      (ℕ → Agent → Ran (Option AgentResult)) → RoundEnd → Agent → Ran (Option AgentResult)
  after_round rest (RoundEnd.done result) a = (ok (some result), a)
  after_round rest (RoundEnd.again turn) a = rest turn a

  -- `while turn < max_turns`
  unfoldable pub run_rounds :
      ℕ → (ℕ → Round Q R) → List Dict → ℕ → ℕ → Agent → Ran (Option AgentResult)
  unfolding max_turns_result after_round
  run_rounds zero rounds tools max_turns turn a = (ok none, a)
  run_rounds (suc fuel) rounds tools max_turns turn a =
      let rest = run_rounds fuel (λ i. rounds (suc i)) tools max_turns in
      if ltb turn max_turns
      then then_run (run_round (rounds 0) tools turn a) (after_round rest)
      else (ok (some (max_turns_result max_turns)), a)

  unfoldable pub compacted_state : List Dict → Agent → Outcome AgentState
  compacted_state tools a = do
    reserved ← p.estimate_request_tokens config.system_prompt tools
    budget ← context_token_budget config.settings reserved false
    snapshot ← continuation_context_snapshot a.context (some budget)
    ok (record { context_snapshot = snapshot; turns = 0; llm_guard_state = a.llm_guard_state })

  unfoldable pub terminated_result : ℕ → Agent → AgentResult
  terminated_result turns a = record {
    message = text_message assistant "The agent was terminated.";
    stop_reason = Value.str "refusal";
    turns = turns;
    continuation_state = none;
    guard_action = Value.str "terminate";
    guard_reason = a.termination_reason;
    stop_details = none;
  }

  -- The turns that a run starts with.
  abbrev pub completed : Option AgentState → ℕ
  completed none = 0
  completed (some s) = s.turns

  unfoldable pub start_prompt : String → List AttachmentRef → Agent → Agent
  start_prompt prompt attachments a =
      let context =
        if a.context_initialized
        then record_user_message a.context prompt attachments
        else initialize a.context prompt attachments in
      record a {
        context = context;
        context_initialized = true;
        turn_user_prompt_index = some (pos (length context.messages) -ℤ pos 1);
      }

  unfoldable pub start_run : Option String → List AttachmentRef → Option AgentState → Agent → Ran ℕ
  unfolding start_prompt
  start_run none attachments none a =
      (raise (value_error "user_prompt is required when state is not provided"), a)
  start_run (some prompt) attachments none a = (ok 0, start_prompt prompt attachments a)
  start_run prompt attachments (some s) a =
      then_run (restore a.context s.context_snapshot, a)
        λ context b. (
          ok s.turns,
          record b {
            context = context;
            context_initialized = true;
            llm_guard_state = s.llm_guard_state;
            turn_user_prompt_index = none;
          },
        )

  -- run, of an agent whose tools have the schemas `tools`
  unfoldable pub run :
      ℕ
      → (ℕ → Round Q R)
      → List Dict
      → Option String
      → List AttachmentRef
      → Option AgentState
      → ℕ
      → Agent
      → Ran (Option AgentResult)
  unfolding terminated_result
  run fuel rounds tools prompt attachments state max_turns a =
      if a.terminated
      then (ok (some (terminated_result (completed state) a)), a)
      else then_run (start_run prompt attachments state a)
          (λ turn b. run_rounds fuel rounds tools max_turns turn b)

unfoldable pub restore_idle_state : Agent → AgentState → Ran (Unit {0})
restore_idle_state a s =
    then_run (restore a.context s.context_snapshot, a)
      λ context b. (
        ok tt,
        record b {
          context = context;
          context_initialized = true;
          llm_guard_state = s.llm_guard_state;
        },
      )

unfoldable pub context_snapshot : Agent → Dict
context_snapshot a =
    if not a.context_initialized
    then Dict.field "version" (Value.int (pos 2))
        (Dict.field "messages" (Value.arr Items.nil) Dict.end)
    else full_context_snapshot a.context
