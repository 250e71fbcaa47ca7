-- ===== src/Providers/Claude/Refusals.antt =====
-- Refusals and blocked responses of agent_harness/providers/claude.py.
use Prim.Native.String.{◌++◌ as join}
use temporal_agent_harness_e.Prelude.{
  String, ◌≡◌, refl, sym, ap, ◌∙◌, Bool, true, false, ◌&&◌, Option, none, some, List, [], ◌∷◌,
  if◌then◌else◌, arith, Bool-cases, Option-cases, inl, inr, ◌⊎◌,
}
use temporal_agent_harness_e.Prelude.Outcome.{Outcome, ok, raise, ◌>>=◌, bind-ok}
use temporal_agent_harness_e.Prelude.Text.{
  is_blank, strip, is_space, join_lines, is_blank-strip, starts_visibly, starts_visibly-join,
}
use temporal_agent_harness_e.Json.{Value, Dict, get, put}
use temporal_agent_harness_e.Messages.{Role, user, Content, text, Message, message}
use temporal_agent_harness_e.LlmGuards.{LlmGuardExecution, LlmGuardAction, dict_or}
use temporal_agent_harness_e.Providers.{
  get_or, get_or_lem, within, is_null, needs_refusal_fallback_lem, needs_refusal_fallback,
  refusal_fallback_text, message_text, text_else,
}
use temporal_agent_harness_e.Providers.Claude.{
  claude_message_to_agent_message, claude_role, agent_content,
}
use temporal_agent_harness_e.Providers.Claude.Requests.{
  ClaudeResponse, claude_response_from_dict, opt_text,
}

-- PROVIDER_REFUSAL_FALLBACK
abbrev fallback : String
fallback =
    "Claude refused this turn. Anthropic did not return a provider-generated refusal message, so the app stopped this agent run instead of retrying the same request."

abbrev pub cons_text : String → List String → List String
cons_text s rest = if is_blank s then rest else s ∷ rest

category_part : String → String
category_part s = if is_blank s then "" else join "Refusal category: " (join s ".")

unfoldable pub refusal_details_text : Option Dict → String
unfolding category_part
refusal_details_text none = ""
refusal_details_text (some details) = join_lines " " (
    cons_text (category_part (text_else "" (get "category" details)))
      (cons_text (text_else "" (get "explanation" details)) []))

unfoldable pub claude_refusal_fallback_text : Option Dict → String
claude_refusal_fallback_text stop_details =
    refusal_fallback_text fallback (refusal_details_text stop_details)

unfoldable pub action_value : LlmGuardAction → String
action_value LlmGuardAction.continue = "continue"
action_value LlmGuardAction.block = "block"
action_value LlmGuardAction.terminate = "terminate"

unfoldable pub guard_response_dict : LlmGuardExecution → Value → Dict → String → Dict
unfolding action_value
guard_response_dict e model message stop_reason = put "guard_reason" (opt_text e.reason) (
    put "guard_action" (Value.str (action_value e.action)) (
      dict_or e.response (
        Dict.field "id" (Value.str "guard:llm") (
          Dict.field "model" model (
            Dict.field "message" (Value.obj message) (
              Dict.field "stop_reason" (Value.str stop_reason) (
                Dict.field "stop_sequence" Value.null
                  (Dict.field "usage" (Value.obj Dict.end) Dict.end))))))))

unfoldable pub response_from_guard_execution : LlmGuardExecution → Value → Outcome ClaudeResponse
response_from_guard_execution e model = claude_response_from_dict (
    guard_response_dict e model
      (Dict.field "role" (Value.str "assistant")
        (Dict.field "content" (Value.str "The response was blocked by an LLM guard.") Dict.end))
      "refusal")

module _ (str_of : Value → String) where
  unfoldable pub claude_message_text : Dict → Outcome String
  claude_message_text d = do m ← claude_message_to_agent_message str_of d; ok (message_text m)

  unfoldable pub needs_fallback : ClaudeResponse → Outcome Bool
  needs_fallback r = do
    shown ← claude_message_text r.message
    ok (needs_refusal_fallback r.stop_reason ("refusal" ∷ []) r.guard_action shown)

  unfoldable pub response_with_visible_refusal : ClaudeResponse → Outcome ClaudeResponse
  response_with_visible_refusal r = do
    needed ← needs_fallback r
    ok (
        if needed
        then record r {
          message = Dict.field "role" (get_or "role" (Value.str "assistant") r.message) (
              Dict.field "content" (Value.str (claude_refusal_fallback_text r.stop_details))
                Dict.end);
        }
        else r)

fallback_starts : starts_visibly fallback ≡ true
unfolding starts_visibly is_space
fallback_starts = refl

fallback_shown :
    (details : Option Dict) → is_blank (strip (claude_refusal_fallback_text details)) ≡ false
unfolding claude_refusal_fallback_text refusal_fallback_text
fallback_shown details = elim (Bool-cases (is_blank (refusal_details_text details))) [
  | inl e ↦ rw e (is_blank-strip fallback fallback_starts)
  | inr e ↦ rw e (
      is_blank-strip (join fallback (join "\n\n" (refusal_details_text details)))
        (starts_visibly-join fallback _ fallback_starts))
]

-- A provider's refusal without a guard's action.
unfoldable pub is_refusal : ClaudeResponse → Bool
is_refusal r = within ("refusal" ∷ []) r.stop_reason && is_null r.guard_action

-- A role that was read is read again from the message that replaces it.
role_again :
    (w : Value) (d : Dict) {x : Role}
    → claude_role (get "role" d) ≡ ok x
    → claude_role (some (get_or "role" w d)) ≡ ok x
unfolding claude_role
role_again w d h = elim (Option-cases (get "role" d)) [
  | inl e ↦ absurd (raises (sym (ap claude_role e) ∙ h))
  | inr (v, e) ↦ rw (get_or_lem "role" w d e) (sym (ap claude_role e) ∙ h)
]
  where
    raises : {x : Role} → claude_role none ≡ ok x → ⊥
    raises h = cc

same_role : {r : Role} {c : Content} {m : Message} → Outcome.ok (message r c) ≡ ok m → r ≡ m.role
same_role h = ap (λ o. elim o [ ok n ↦ n.role | raise e ↦ user ]) h

module _ (str_of : Value → String) where
  shown_message : ClaudeResponse → Dict
  shown_message r =
      Dict.field "role" (get_or "role" (Value.str "assistant") r.message)
        (Dict.field "content" (Value.str (claude_refusal_fallback_text r.stop_details)) Dict.end)

  shown_read :
      (r : ClaudeResponse) {m : Message}
      → claude_message_to_agent_message str_of r.message ≡ ok m
      → claude_message_to_agent_message str_of (shown_message r)
        ≡ ok (message m.role (text (claude_refusal_fallback_text r.stop_details)))
  unfolding claude_message_to_agent_message shown_message agent_content get
  shown_read r h =
      let (role, read, rest) = bind-ok (claude_role (get "role" r.message)) _ h in
      let (content, read_content, same) =
        bind-ok (agent_content str_of (get "content" r.message)) _ rest in
      let shown = claude_refusal_fallback_text r.stop_details in
      rw (role_again (Value.str "assistant") r.message read)
        (ap (λ x. ok (message x (text shown))) (same_role same))

  -- For a response whose message can be read, the response with a visible refusal can be read too, by
  -- the same role, and differs at most in its message; it differs only if the provider refused, no guard
  -- acted and the message shows nothing but spaces; and where the provider refused and no guard acted,
  -- its message shows more than spaces.
  pub response_with_visible_refusal-Shows :
      (r : ClaudeResponse) {m : Message}
      → claude_message_to_agent_message str_of r.message ≡ ok m
      → (v : ClaudeResponse) × (n : Message) × (response_with_visible_refusal str_of r ≡ ok v)
        × (claude_message_to_agent_message str_of v.message ≡ ok n)
        × (n.role ≡ m.role)
        × (record v { message = r.message } ≡ r)
        × ((is_refusal v && is_blank (strip (message_text n))) ≡ false)
        × ((v ≡ r) ⊎ ((is_refusal r ≡ true) × (is_blank (strip (message_text m)) ≡ true)))
  unfolding response_with_visible_refusal needs_fallback claude_message_text is_refusal
      shown_message message_text
  response_with_visible_refusal-Shows r {m = m} h =
      let need =
        needs_refusal_fallback_lem r.stop_reason ("refusal" ∷ []) r.guard_action (message_text m) in
      elim (Bool-cases (is_refusal r && is_blank (strip (message_text m)))) [
        | inl e ↦ (
          record r { message = shown_message r },
          message m.role (text (claude_refusal_fallback_text r.stop_details)),
          rw (h, need, e) refl,
          shown_read r h,
          refl,
          refl,
          rw (fallback_shown r.stop_details) (ground arith),
          inr (ground arith),
        )
        | inr e ↦ (r, m, rw (h, need, e) refl, h, refl, refl, e, inl refl)
      ]
