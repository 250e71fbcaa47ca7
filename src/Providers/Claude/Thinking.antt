-- ===== src/Providers/Claude/Thinking.antt =====
-- The thinking budget of a request: _thinking_request_params of agent_harness/providers/claude.py.
use temporal_agent_harness_e.Prelude.{
  String, str_eq, ◌≡◌, refl, true, false, Option, none, some, Bool-cases, ◌⊎◌, inl, inr,
}
use temporal_agent_harness_e.Prelude.Outcome.{ok, raise, value_error}
use temporal_agent_harness_e.Prelude.Int.{ℤ, pos, ◌≤ℤ◌, ◌+ℤ◌, leb_ℤ, max_ℤ, min_ℤ, int_laws}
use temporal_agent_harness_e.Json.{Value, Dict, get, get-put_ne}
use temporal_agent_harness_e.Providers.Claude.Requests.{
  enabled, ClaudeThinkingConfig, thinking_request_params, thinking_budget, with_display,
  enabled_params,
}

budget_bounds :
    (n m : ℤ)
    → (pos 1025 ≤ℤ m)
    → (pos 1024 ≤ℤ thinking_budget n m)
      × (thinking_budget n m +ℤ pos 1 ≤ℤ m)
      × ((thinking_budget n m ≡ n) ⊎ (n +ℤ pos 1 ≤ℤ pos 1024) ⊎ (m ≤ℤ n))
unfolding thinking_budget max_ℤ min_ℤ
budget_bounds n m h = (grind int_laws, grind int_laws, grind int_laws)

get-with_display :
    (k : String) (o : Option String) (d : Dict)
    → str_eq "display" k ≡ false
    → get k (with_display o d) ≡ get k d
unfolding with_display
get-with_display k none d h = refl
get-with_display k (some s) d h = get-put_ne "display" k _ d h

-- With extended thinking on in its mode of a fixed budget, a request for at most 1024 tokens is refused
-- with an error; for every other, the parameters hold a budget of at least 1024 tokens and less than
-- the tokens of the request, which is the configured one unless that lies outside of these bounds.
pub thinking_request_params-Budget :
    (t : ClaudeThinkingConfig) (m : ℤ)
    → t.is_enabled ≡ true
    → t.mode ≡ enabled
    → ((m ≤ℤ pos 1024)
        × (thinking_request_params (some t) m
            ≡ raise (
                value_error
                  "max_tokens must be greater than 1024 when extended thinking is enabled")))
      ⊎ ((d : Dict) × (b : ℤ) × (thinking_request_params (some t) m ≡ ok (some d, none))
          × (get "budget_tokens" d ≡ some (Value.int b))
          × (pos 1024 ≤ℤ b)
          × (b +ℤ pos 1 ≤ℤ m)
          × ((b ≡ t.budget_tokens)
              ⊎ (t.budget_tokens +ℤ pos 1 ≤ℤ pos 1024)
              ⊎ (m ≤ℤ t.budget_tokens)))
unfolding thinking_request_params enabled_params get
thinking_request_params-Budget t m e h = elim (Bool-cases (leb_ℤ m (pos 1024))) [
  | inl short ↦ inl (grind int_laws, rw (e, h, short) refl)
  | inr long ↦
      let (low, high, same) = budget_bounds t.budget_tokens m (grind int_laws) in
      inr (
        with_display t.display (
            Dict.field "type" (Value.str "enabled") (
              Dict.field "budget_tokens" (Value.int (thinking_budget t.budget_tokens m)) Dict.end)),
        thinking_budget t.budget_tokens m,
        rw (e, h, long) refl,
        get-with_display "budget_tokens" t.display _ refl,
        low,
        high,
        same,
      )
]
