-- ===== src/Providers/Claude/Stored.antt =====
-- The history that a model call stores: _call_provider of agent_harness/agent.py builds a request of
-- the conversation, has it go through the guards as a dict, and stores the messages that it reads back
-- from the request, unless a guard halts the call.
use temporal_agent_harness_e.Prelude.{
  String, ◌≡◌, refl, Bool, true, false, Option, none, some, List, if◌then◌else◌, arith, All,
}
use temporal_agent_harness_e.Prelude.Outcome.{Outcome, ok, ◌>>=◌, Yields, Yields-bind, Yields-ok}
use temporal_agent_harness_e.Prelude.Int.{ℤ}
use temporal_agent_harness_e.Json.{Value, Items, Dict, get, put, get_str, field_is}
use temporal_agent_harness_e.Messages.{
  Message, text_block, is_normal_block, content_blocks, IsNormal,
}
use temporal_agent_harness_e.Context.{message_has_block_type, any_of_type}
use temporal_agent_harness_e.LlmGuards.{
  LlmGuardTiming, LlmGuardAction, LlmGuardContext, LlmGuardResult, LlmGuardExecution, continues,
  execute,
}
use temporal_agent_harness_e.Providers.{copy_mapping, tool_use_block, provider_block}
use temporal_agent_harness_e.Providers.Claude.{
  claude_role, claude_block_to_agent_block, claude_blocks_to_agent_blocks, agent_content,
  claude_message_to_agent_message, result_of_claude,
}
use temporal_agent_harness_e.Providers.Claude.Requests.{
  ClaudeThinkingConfig, ClaudeRequest, create_request, opt_int, opt_text, request_chat_history,
  claude_request_to_dict, claude_request_from_dict,
}

Yields-if {ℓ κ} :
    {A : Type ℓ} (P : A → Type κ) (t : Bool) (x y : Outcome A)
    → Yields P x
    → Yields P y
    → Yields P (if t then x else y)
Yields-if P true x y hx hy = hx
Yields-if P false x y hx hy = hy

-- A block that may be stored and is no marker.
abbrev IsUnmarked : Dict → Type 0
IsUnmarked b = (field_is "type" "context_compaction_marker" b ≡ false) × (is_normal_block b ≡ true)

abbrev pub HasNoMarker : Message → Type 0
HasNoMarker m = (message_has_block_type m "context_compaction_marker" ≡ false) × IsNormal m

module _ (str_of : Value → String) where
  from_claude-IsUnmarked : (c : Dict) → Yields IsUnmarked (claude_block_to_agent_block str_of c)
  unfolding claude_block_to_agent_block text_block result_of_claude provider_block tool_use_block
      get field_is get_str put
  from_claude-IsUnmarked c = ground arith

  abbrev AllUnmarked : List Dict → Type 0
  AllUnmarked bs =
      (any_of_type "context_compaction_marker" bs ≡ false) × All (λ b. is_normal_block b ≡ true) bs

  blocks-AllUnmarked : (vs : Items) → Yields AllUnmarked (claude_blocks_to_agent_blocks str_of vs)
  unfolding claude_blocks_to_agent_blocks any_of_type
  blocks-AllUnmarked Items.nil = (refl, tt)
  blocks-AllUnmarked (Items.cons v vs) =
      let tail_unmarked = blocks-AllUnmarked vs in
      Yields-bind AllUnmarked (claude_block_to_agent_block str_of (copy_mapping v)) _ λ b e.
        Yields-bind AllUnmarked (claude_blocks_to_agent_blocks str_of vs) _ λ bs e'.
          let first = Yields-ok IsUnmarked _ (from_claude-IsUnmarked (copy_mapping v)) e in
          let rest = Yields-ok AllUnmarked _ tail_unmarked e' in
          (rw (first.0, rest.0) refl, (first.1, rest.1))

  content-AllUnmarked :
      (o : Option Value) → Yields (λ c. AllUnmarked (content_blocks c)) (agent_content str_of o)
  unfolding agent_content any_of_type
  content-AllUnmarked (some (Value.str s)) = (refl, tt)
  content-AllUnmarked (some (Value.arr vs)) =
      Yields-bind (λ c. AllUnmarked (content_blocks c)) (claude_blocks_to_agent_blocks str_of vs) _
        λ bs e. Yields-ok AllUnmarked _ (blocks-AllUnmarked vs) e
  content-AllUnmarked _ = tt

  pub message-HasNoMarker :
      (d : Dict) → Yields HasNoMarker (claude_message_to_agent_message str_of d)
  unfolding claude_message_to_agent_message message_has_block_type
  message-HasNoMarker d = Yields-bind HasNoMarker (claude_role (get "role" d)) _ λ r _.
      Yields-bind HasNoMarker (agent_content str_of (get "content" d)) _ λ c e.
        Yields-ok (λ c. AllUnmarked (content_blocks c)) _ (content-AllUnmarked (get "content" d)) e

  module _ (answer : LlmGuardContext → Outcome LlmGuardResult × LlmGuardContext)
      (guards : List String) (state : Dict) where
    -- what execute_pre is given
    abbrev pub before_guards : Dict → LlmGuardExecution
    before_guards request = record {
      request = request;
      response = none;
      state = state;
      action = LlmGuardAction.continue;
      reason = none;
    }

    -- The guards let a call through and leave its request as it is.
    abbrev pub LetThrough : Type 0
    LetThrough =
        (request : Dict)
        → (e : LlmGuardExecution) × (execute str_of answer guards LlmGuardTiming.pre
              (before_guards request)
            ≡ ok e)
          × (e.request ≡ request)
          × (continues e.action ≡ true)

  module _ (thinking : Option ClaudeThinkingConfig) (prompt model : String) (max_tokens : ℤ)
      (limit : Option ℤ) (tools : List Dict) (stream_id : Option String) (sequence : Option ℤ) where
    abbrev built : List Dict → Option Dict × Option Dict → ClaudeRequest
    built chat_history params = record {
      system_prompt = Value.str prompt;
      model = Value.str model;
      max_tokens = Value.int max_tokens;
      context_token_limit = opt_int limit;
      tools = tools;
      chat_history = chat_history;
      thinking = params.0;
      output_config = params.1;
      stream_id = opt_text stream_id;
      stream_sequence = opt_int sequence;
      stream_attempt = opt_int (some (ℤ.pos 1));
    }

    module _ (answer : LlmGuardContext → Outcome LlmGuardResult × LlmGuardContext)
        (guards : List String) (state : Dict) where
      unfoldable pub stored_unless_halted :
          LlmGuardAction → ClaudeRequest → Outcome (Option (List Message))
      stored_unless_halted action guarded =
          if continues action
          then (do ms ← request_chat_history str_of guarded; ok (some ms))
          else ok none

      -- The history that _call_provider stores before the call, none where a guard halts it.
      unfoldable pub stored_history : List Message → Outcome (Option (List Message))
      unfolding stored_unless_halted
      stored_history history = do
        guard_request ←
            create_request str_of thinking prompt model max_tokens limit tools history stream_id
              sequence (some (ℤ.pos 1))
        e ←
            execute str_of answer guards LlmGuardTiming.pre
              (before_guards answer guards state (claude_request_to_dict guard_request))
        guarded ← claude_request_from_dict e.request
        stored_unless_halted e.action guarded
