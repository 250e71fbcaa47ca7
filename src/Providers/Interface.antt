-- ===== src/Providers/Interface.antt =====
-- agent_harness/providers/interface.py: what the agent's loop asks of a provider of models, and the laws
-- by which a request and a response pass through the guards as dicts.
use temporal_agent_harness_e.Prelude.{String, ◌≡◌, Option, List}
use temporal_agent_harness_e.Prelude.Outcome.{Outcome, ok}
use temporal_agent_harness_e.Prelude.Int.{ℤ}
use temporal_agent_harness_e.Json.{Value, Dict}
use temporal_agent_harness_e.Messages.{Message}
use temporal_agent_harness_e.LlmGuards.{LlmGuardExecution}

-- `Request` and `Response` are the provider's own types.
pub record AgentProvider (Request Response : Type 0) : Type 0 where
  pub estimate_request_tokens : String → List Dict → Outcome ℤ
  pub create_request :
      String
      → String
      → ℤ
      → Option ℤ
      → List Dict
      → List Message
      → Option String
      → Option ℤ
      → Option ℤ
      → Outcome Request
  pub request_chat_history : Request → Outcome (List Message)
  pub replace_request_chat_history : Request → List Message → Outcome Request
  pub replace_request_stream_attempt : Request → Option ℤ → Request
  pub request_to_dict : Request → Dict
  pub request_from_dict : Dict → Outcome Request
  pub response_to_dict : Response → Dict
  pub response_from_dict : Dict → Outcome Response
  pub response_from_guard_execution : LlmGuardExecution → Value → Outcome Response
  pub response_with_visible_refusal : Response → Outcome Response
  pub response_message : Response → Outcome Message
  pub stop_reason_for_max_turns : Value
  pub request_model : Request → Value
  pub response_model : Response → Value
  pub stop_reason : Response → Value
  pub guard_action : Response → Value
  pub guard_reason : Response → Value
  pub stop_details : Response → Option Dict

-- A request and a response come back from their dicts.
pub record IsFaithful {Request Response : Type 0} (p : AgentProvider Request Response)
    : Type 0 where
  pub request_from_to : (q : Request) → p.request_from_dict (p.request_to_dict q) ≡ ok q
  pub response_from_to : (r : Response) → p.response_from_dict (p.response_to_dict r) ≡ ok r
