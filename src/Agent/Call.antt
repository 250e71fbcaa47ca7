-- ===== src/Agent/Call.antt =====
-- A model call of the agent: _call_provider, _call_provider_with_context_recovery and
-- _run_provider_activity of agent_harness/agent.py. A round is what happens around a call: the signals
-- that arrive while the agent waits, the answers of the guards, and how the activity of each attempt
-- ends. An exception that says that the context window was exceeded, at any place of its chain of
-- causes, is an application error of that type.
use temporal_agent_harness_e.Prelude.{
  ℕ, zero, suc, String, Bool, true, false, not, ◌&&◌, Option, none, some, List, if◌then◌else◌,
  str_eq,
}
use temporal_agent_harness_e.Prelude.Outcome.{
  Outcome, ok, raise, Fault, application_error, cancelled_error, ◌>>=◌,
}
use temporal_agent_harness_e.Prelude.Int.{ℤ, pos}
use temporal_agent_harness_e.Json.{Value, Dict}
use temporal_agent_harness_e.Messages.Snapshots.{snapshots}
use temporal_agent_harness_e.Context.Budget.{ContextTokenBudget}
use temporal_agent_harness_e.Context.Manager.{Manager, replace_messages}
use temporal_agent_harness_e.Context.View.{messages_for_model}
use temporal_agent_harness_e.LlmGuards.{
  LlmGuardTiming, LlmGuardAction, LlmGuardContext, LlmGuardResult, LlmGuardExecution, execute,
  continues, dict_or,
}
use temporal_agent_harness_e.Providers.Interface.{AgentProvider}
use temporal_agent_harness_e.Agent.{context_token_budget}
use temporal_agent_harness_e.Agent.Calls.{ToolEnd}
use temporal_agent_harness_e.Agent.State.{AgentConfig, Agent, Signal, receive, Ran, then_run}

-- What happens around one call, for requests `Q` and responses `R`.
pub record Round (Q R : Type 0) : Type 0 where
  pub guard_answer : LlmGuardContext → Outcome LlmGuardResult × LlmGuardContext
  pub pre_signals : List Signal
  pub attempt_signals : ℕ → List Signal
  pub attempt_end : ℕ → Q → Outcome R
  pub post_signals : List Signal
  pub tool_signals : List Signal
  pub tool_end : Dict → ToolEnd
  pub late_signals : List Signal
  pub continue_suggested : Bool

unfoldable pub is_overflow : Fault → Bool
is_overflow (application_error type_name) = str_eq type_name "ContextWindowExceeded"
is_overflow f = false

unfoldable pub is_cancelled : Fault → Bool
is_cancelled cancelled_error = true
is_cancelled f = false

-- _run_provider_activity after its wait: an interrupted call is cancelled, and its answer discarded.
unfoldable pub settle {ℓ} : {R : Type ℓ} → Bool → Outcome R → Outcome (Option R)
settle true (ok r) = ok none
settle true (raise cancelled_error) = ok none
settle true (raise f) = raise f
settle false (ok r) = ok (some r)
settle false (raise f) = raise f

-- `except`: a cancellation by an interrupt leaves no response.
unfoldable pub or_interrupted_call {ℓ} : {R : Type ℓ} → Ran (Option R) → Ran (Option R)
unfolding is_cancelled
or_interrupted_call (ok o, a) = (ok o, a)
or_interrupted_call (raise f, a) =
    if a.interrupt_requested && is_cancelled f then (ok none, a) else (raise f, a)

-- The `except` of an attempt, where `retry` makes another one.
unfoldable pub or_retry {ℓ} :
    {R : Type ℓ} → Bool → (Agent → Ran (Option R)) → Ran (Option R) → Ran (Option R)
unfolding is_overflow is_cancelled
or_retry left retry (ok o, a) = (ok o, a)
or_retry left retry (raise f, a) =
    if a.interrupt_requested && is_cancelled f
    then (ok none, a)
    else if left && is_overflow f
    then retry a
    else (raise f, a)

module _ {Q R : Type 0} (p : AgentProvider Q R) (config : AgentConfig)
    (str_of : Value → String) where
  unfoldable pub attempt_request : Q → ℕ → ContextTokenBudget → Manager → Outcome Q
  attempt_request guarded n budget context = do
    shown ← messages_for_model context (some budget)
    request ← p.replace_request_chat_history guarded shown
    ok (p.replace_request_stream_attempt request (some (pos n)))

  unfoldable pub run_attempt : Round Q R → ℕ → Q → Agent → Ran (Option R)
  run_attempt rd n request a =
      let b = receive a (rd.attempt_signals n) in
      (settle b.interrupt_requested (rd.attempt_end n request), b)

  -- the loop over the attempts, of which `left` more are allowed
  unfoldable pub recover :
      Round Q R → Q → ℤ → ℕ → ℕ → Outcome ContextTokenBudget → Agent → Ran (Option R)
  unfolding attempt_request run_attempt
  recover rd guarded reserved zero n budget a =
      then_run (do b ← budget; attempt_request guarded n b a.context, a)
        λ request b. or_retry false (λ c. (ok none, c)) (run_attempt rd n request b)
  recover rd guarded reserved (suc left) n budget a =
      then_run (do b ← budget; attempt_request guarded n b a.context, a)
        λ request b.
          or_retry true
            (recover rd guarded reserved left (suc n)
              (context_token_budget config.settings reserved true))
            (run_attempt rd n request b)

  unfoldable pub call_provider_with_context_recovery :
      Round Q R → Q → List Dict → Agent → Ran (Option R)
  call_provider_with_context_recovery rd guarded tools a =
      then_run (p.estimate_request_tokens config.system_prompt tools, a)
        λ reserved b.
          recover rd guarded reserved 1 1 (context_token_budget config.settings reserved false) b

  unfoldable pub execute_guards :
      Round Q R
      → List String
      → LlmGuardTiming
      → Dict
      → Option Dict
      → Dict
      → Outcome LlmGuardExecution
  execute_guards rd names timing request response state =
      execute str_of rd.guard_answer names timing (record {
        request = request;
        response = response;
        state = state;
        action = LlmGuardAction.continue;
        reason = none;
      })

  unfoldable pub halted_response : LlmGuardExecution → Value → Agent → Ran (Option R)
  halted_response e model a =
      then_run (p.response_from_guard_execution e model, record a { llm_guard_state = e.state })
        λ r b. (ok (some r), b)

  unfoldable pub after_post : LlmGuardExecution → R → Agent → Ran (Option R)
  unfolding halted_response
  after_post e r a =
      if not (continues e.action)
      then halted_response e (p.response_model r) a
      else then_run
          (
            p.response_from_dict (dict_or e.response (p.response_to_dict r)),
            record a { llm_guard_state = e.state },
          )
          (λ r b. (ok (some r), b))

  unfoldable pub after_response : Round Q R → Q → Dict → Option R → Agent → Ran (Option R)
  unfolding execute_guards after_post
  after_response rd guarded state none a = (ok none, a)
  after_response rd guarded state (some r) a =
      then_run (p.replace_request_chat_history guarded a.context.messages, a)
        λ shown b.
          then_run
            (
              execute_guards rd config.post_guards LlmGuardTiming.post (p.request_to_dict shown)
                  (some (p.response_to_dict r)) state,
              receive b rd.post_signals,
            )
            (λ e c. after_post e r c)

  unfoldable pub after_pre : Round Q R → List Dict → LlmGuardExecution → Agent → Ran (Option R)
  unfolding halted_response after_response
  after_pre rd tools e a =
      then_run (p.request_from_dict e.request, a)
        λ guarded b.
          if not (continues e.action)
          then halted_response e (p.request_model guarded) b
          else then_run
              (do ms ← p.request_chat_history guarded; replace_messages b.context (snapshots ms), b)
              (λ context c. or_interrupted_call (
                then_run
                  (call_provider_with_context_recovery rd guarded tools
                    (record c { context = context }))
                  (after_response rd guarded e.state)))

  unfoldable pub call_provider : Round Q R → List Dict → Agent → Ran (Option R)
  unfolding execute_guards after_pre
  call_provider rd tools a =
      let b = record a { provider_call_sequence = suc a.provider_call_sequence } in
      then_run
        (
          p.create_request config.system_prompt config.model config.max_tokens
              (some config.max_context_tokens) tools b.context.messages config.stream_id
              (some (pos b.provider_call_sequence)) (some (pos 1)),
          b,
        )
        (λ request c.
          then_run
            (
              execute_guards rd config.pre_guards LlmGuardTiming.pre (p.request_to_dict request)
                  none c.llm_guard_state,
              receive c rd.pre_signals,
            )
            (after_pre rd tools))
