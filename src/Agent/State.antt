-- ===== src/Agent/State.antt =====
-- The state of an agent (agent_harness/agent.py), the signals that change it while it runs, and the
-- messages of the user that it takes into the conversation. A function that may raise leaves its state
-- too, since the agent goes on with it.
use Prim.Native.String.{◌++◌ as join}
use temporal_agent_harness_e.Prelude.{ℕ, String, Bool, true, false, Option, List, [], ◌∷◌, ◌++◌}
use temporal_agent_harness_e.Prelude.Outcome.{Outcome, ok, raise}
use temporal_agent_harness_e.Prelude.Int.{ℤ}
use temporal_agent_harness_e.Json.{Value, Dict}
use temporal_agent_harness_e.Agent.{AgentSettings}
use temporal_agent_harness_e.Context.Manager.{Manager, record_user_message}

pub data SteeringMode : Type 0 where
  immediate : SteeringMode
  after_next_tool_result : SteeringMode

pub data Signal : Type 0 where
  steer : SteeringMode → String → Signal
  interrupt : String → Signal

-- What an agent is made with.
pub record AgentConfig : Type 0 where
  pub system_prompt : String
  pub model : String
  pub max_tokens : ℤ
  pub max_context_tokens : ℤ
  pub settings : AgentSettings
  pub stream_id : Option String
  pub pre_guards : List String
  pub post_guards : List String
  pub continue_as_new_enabled : Bool

pub record Agent : Type 0 where
  pub context : Manager
  pub context_initialized : Bool
  pub pending_immediate_steering : List String
  pub pending_after_tool_steering : List String
  pub pending_interrupts : List String
  pub interrupt_requested : Bool
  pub provider_call_sequence : ℕ
  pub turn_user_prompt_index : Option ℤ
  pub terminated : Bool
  pub termination_reason : Value
  pub llm_guard_state : Dict

-- steer and interrupt
unfoldable pub receive_signal : Agent → Signal → Agent
receive_signal a (steer immediate s) = record a {
  pending_immediate_steering = a.pending_immediate_steering ++ s ∷ [];
}
receive_signal a (steer after_next_tool_result s) = record a {
  pending_after_tool_steering = a.pending_after_tool_steering ++ s ∷ [];
}
receive_signal a (interrupt s) = record a {
  pending_interrupts = a.pending_interrupts ++ s ∷ [];
  interrupt_requested = true;
}

unfoldable pub receive : Agent → List Signal → Agent
receive a [] = a
receive a (s ∷ rest) = receive (receive_signal a s) rest

unfoldable pub formatted_control_message : String → String → String → String
formatted_control_message tag description message = join "<" (
    join tag
      (join ">\n" (join description (join "\n\n" (join message (join "\n</" (join tag ">")))))))

unfoldable pub flush_steering_messages : String → String → List String → Manager → Manager
flush_steering_messages tag description [] context = context
flush_steering_messages tag description (message ∷ messages) context =
    flush_steering_messages tag description messages
      (record_user_message context (formatted_control_message tag description message) [])

unfoldable pub flush_immediate_context : Agent → Agent
flush_immediate_context a = record a {
  context =
      flush_steering_messages "steering"
        "This is out-of-band user steering. Use it to adjust how you proceed, but do not treat it as a new task."
        a.pending_immediate_steering a.context;
  pending_immediate_steering = [];
}

unfoldable pub flush_after_tool_context : Agent → Agent
flush_after_tool_context a = record a {
  context =
      flush_steering_messages "steering"
        "This is out-of-band user steering supplied after a tool result. Use it to adjust the next reasoning step."
        a.pending_after_tool_steering a.context;
  pending_after_tool_steering = [];
}

unfoldable pub flush_interrupt_context : Agent → Agent
flush_interrupt_context a = record a {
  context =
      flush_steering_messages "interrupt"
        "The in-progress assistant response or tool execution was interrupted by the user. Discard any uncommitted partial assistant output and use this new context before continuing."
        a.pending_interrupts a.context;
  pending_interrupts = [];
  interrupt_requested = false;
}

-- What a part of a run returns or raises, and the state it leaves.
abbrev pub Ran {ℓ} : Type ℓ → Type ℓ
Ran A = Outcome A × Agent

unfoldable pub then_run {ℓ κ} : {A : Type ℓ} {B : Type κ} → Ran A → (A → Agent → Ran B) → Ran B
then_run (ok x, a) k = k x a
then_run (raise f, a) k = (raise f, a)
