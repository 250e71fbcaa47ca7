-- ===== src/LlmGuards.antt =====
-- LlmGuardPipeline of agent_harness/llm_guards.py: guards around a model call, which may rewrite the
-- request and the response, and block or end the call. What a guard answers, and how it leaves its
-- context, is a parameter; so is Python's `str` of a model that is no text.
pub mod Halts
use Prim.Native.String.{◌++◌ as join}
use temporal_agent_harness_e.Prelude.{
  ℕ, String, ◌≡◌, refl, ap, ◌∙◌, ◌≢◌, Bool, true, false, not, ◌&&◌, ◌||◌, Option, none, some, List,
  [], ◌∷◌, ◌++◌, if◌then◌else◌, str_eq, arith,
}
use temporal_agent_harness_e.Prelude.Outcome.{Outcome, ok, raise}
use temporal_agent_harness_e.Prelude.Text.{is_blank}
use temporal_agent_harness_e.Prelude.Int.{ℤ, pos, int_eq}
use temporal_agent_harness_e.Json.{Value, Items, Dict, get, put, get-put}

pub data LlmGuardTiming : Type 0 where
  pre : LlmGuardTiming
  post : LlmGuardTiming

pub data LlmGuardAction : Type 0 where
  continue : LlmGuardAction
  block : LlmGuardAction
  terminate : LlmGuardAction

-- A message is a text or a dict.
pub data GuardMessage : Type 0 where
  text : String → GuardMessage
  dict : Dict → GuardMessage

pub record LlmGuardResult : Type 0 where
  pub action : LlmGuardAction
  pub request : Option Dict
  pub response : Option Dict
  pub message : Option GuardMessage
  pub reason : Option String
  pub state : Option Dict

-- A guard is known by its name; a context leaves out what guards only pass on to activities.
pub record LlmGuardContext : Type 0 where
  pub guard_name : String
  pub timing : LlmGuardTiming
  pub request : Dict
  pub response : Option Dict
  pub state : Dict

pub record LlmGuardExecution : Type 0 where
  pub request : Dict
  pub response : Option Dict
  pub state : Dict
  pub action : LlmGuardAction
  pub reason : Option String

abbrev is_empty_dict : Dict → Bool
is_empty_dict Dict.end = true
is_empty_dict (Dict.field k v d) = false

-- `a or b` for dicts
unfoldable pub dict_or : Option Dict → Dict → Dict
dict_or none other = other
dict_or (some d) other = if is_empty_dict d then other else d

-- dict.update
unfoldable pub update : Dict → Dict → Dict
update d Dict.end = d
update d (Dict.field k v rest) = update (put k v d) rest

set_default : Option Value → Dict → Dict
set_default none d = put "role" (Value.str "assistant") d
set_default (some v) d = d

unfoldable pub message_from_value : GuardMessage → Dict
unfolding set_default
message_from_value (text s) =
    Dict.field "role" (Value.str "assistant") (Dict.field "content" (Value.str s) Dict.end)
message_from_value (dict d) = set_default (get "role" d) d

abbrev blocked_text : String
blocked_text = "The response was blocked by an LLM guard."

unfoldable pub empty_guard_response : String → String → Dict
empty_guard_response model guard_name = Dict.field "id" (Value.str (join "guard:" guard_name)) (
    Dict.field "model" (Value.str model) (
      Dict.field "message" (Value.obj (message_from_value (text blocked_text))) (
        Dict.field "stop_reason" (Value.str "refusal") (
          Dict.field "stop_sequence" Value.null
            (Dict.field "usage" (Value.obj Dict.end) Dict.end)))))

unfoldable pub response_with_message : Option Dict → GuardMessage → String → String → Dict
response_with_message response message model guard_name =
    put "message" (Value.obj (message_from_value message))
      (dict_or response (empty_guard_response model guard_name))

-- `message or` the text of a blocked response
or_blocked : Option GuardMessage → GuardMessage
or_blocked none = text blocked_text
or_blocked (some (text s)) = if is_blank s then text blocked_text else text s
or_blocked (some (dict d)) = if is_empty_dict d then text blocked_text else dict d

unfoldable pub blocked_response : Option Dict → Option GuardMessage → String → String → Dict
unfolding or_blocked
blocked_response response message model guard_name = put "stop_sequence" Value.null (
    put "stop_reason" (Value.str "refusal") (
      put "message" (Value.obj (message_from_value (or_blocked message)))
        (dict_or response (empty_guard_response model guard_name))))

unfoldable pub continues : LlmGuardAction → Bool
continues continue = true
continues _ = false

-- The response after a guard: none only where there was none and the guard gave none.
unfoldable pub next_response : Option Dict → Option Dict → Option Dict → Option Dict
next_response none none left = none
next_response none (some given) left = some (dict_or (some given) (dict_or left Dict.end))
next_response (some now) given left = some (dict_or given (dict_or left Dict.end))

next_state : Option Dict → Dict → Dict
next_state none left = left
next_state (some given) left = update left given

with_message : Option GuardMessage → Option Dict → String → String → Option Dict
with_message none response model guard_name = response
with_message (some m) response model guard_name =
    some (response_with_message response m model guard_name)

module _ (str_of : Value → String)
    (answer : LlmGuardContext → Outcome LlmGuardResult × LlmGuardContext) where
  -- str(request.get("model") or "guarded")
  model_of : Option Value → String
  model_of none = "guarded"
  model_of (some Value.null) = "guarded"
  model_of (some (Value.bool b)) = if b then str_of (Value.bool b) else "guarded"
  model_of (some (Value.int n)) = if int_eq n (pos 0) then "guarded" else str_of (Value.int n)
  model_of (some (Value.str s)) = if is_blank s then "guarded" else s
  model_of (some (Value.arr Items.nil)) = "guarded"
  model_of (some (Value.arr (Items.cons v vs))) = str_of (Value.arr (Items.cons v vs))
  model_of (some (Value.obj Dict.end)) = "guarded"
  model_of (some (Value.obj (Dict.field k v d))) = str_of (Value.obj (Dict.field k v d))

  -- What the loop holds after a guard returned, before it looks at the action.
  guarded_state : LlmGuardExecution → String → LlmGuardResult → LlmGuardContext → LlmGuardExecution
  unfolding model_of next_state with_message
  guarded_state e name r left =
      let request = dict_or r.request left.request in
      record {
        request = request;
        response =
            with_message r.message (next_response e.response r.response left.response)
              (model_of (get "model" request)) name;
        state = next_state r.state left.state;
        action = r.action;
        reason = r.reason;
      }

  halt : String → Option GuardMessage → LlmGuardExecution → LlmGuardExecution
  unfolding model_of
  halt name message e = record e {
    response = some (blocked_response e.response message (model_of (get "model" e.request)) name);
  }

  guard_turn :
      LlmGuardExecution
      → String
      → Outcome LlmGuardResult × LlmGuardContext
      → (LlmGuardExecution → Outcome LlmGuardExecution)
      → Outcome LlmGuardExecution
  unfolding guarded_state halt
  guard_turn e name (raise f, left) next = raise f
  guard_turn e name (ok r, left) next =
      let now = guarded_state e name r left in
      let rest = next (record now { action = continue; reason = none }) in
      if continues r.action then rest else ok (halt name r.message now)

  -- _execute, from the request, response and state that `e` holds
  unfoldable pub execute :
      List String → LlmGuardTiming → LlmGuardExecution → Outcome LlmGuardExecution
  unfolding guard_turn
  execute [] timing e = ok (record e { action = continue; reason = none })
  execute (name ∷ names) timing e =
      guard_turn e name
        (answer (record {
          guard_name = name;
          timing = timing;
          request = e.request;
          response = e.response;
          state = e.state;
        }))
        (execute names timing)
