-- ===== src/Context/Budget.antt =====
-- ContextTokenBudget of agent_harness/context_manager.py, and the estimate of tokens that is held
-- against it. A float such as 2.5 characters per token is a fraction of two numbers, and its division
-- is exact; a negative one is not written.
use temporal_agent_harness_e.Prelude.{ℕ, ◌+◌, ◌-◌, ◌*◌, ◌/◌, Bool, List, ◌==◌, if◌then◌else◌}
use temporal_agent_harness_e.Prelude.Text.{text_length}
use temporal_agent_harness_e.Prelude.Outcome.{Outcome, ok, raise, value_error, ◌>>◌, raise_if}
use temporal_agent_harness_e.Prelude.Int.{ℤ, pos, ◌-ℤ◌, ltb_ℤ, leb_ℤ, pos_part}
use temporal_agent_harness_e.Json.{Value}
use temporal_agent_harness_e.Json.Dumps.{dumps_compact}
use temporal_agent_harness_e.Messages.{Message}
use temporal_agent_harness_e.Messages.Snapshots.{snapshots}

pub record Ratio : Type 0 where
  pub numerator : ℕ
  pub denominator : ℕ

pub record ContextTokenBudget : Type 0 where
  pub max_context_tokens : ℤ
  pub reserved_output_tokens : ℤ
  pub reserved_input_tokens : ℤ
  pub safety_margin_tokens : ℤ
  pub chars_per_token : Ratio

unfoldable pub input_token_budget : ContextTokenBudget → ℤ
input_token_budget b =
    b.max_context_tokens -ℤ b.reserved_output_tokens -ℤ b.reserved_input_tokens
    -ℤ b.safety_margin_tokens

-- __post_init__: a budget exists only if it passes
unfoldable pub checked_budget : ContextTokenBudget → Outcome ContextTokenBudget
unfolding input_token_budget
checked_budget b = do
  raise_if (ltb_ℤ b.max_context_tokens (pos 1))
      (value_error "max_context_tokens must be at least 1")
  raise_if (ltb_ℤ b.reserved_output_tokens (pos 0))
      (value_error "reserved_output_tokens cannot be negative")
  raise_if (ltb_ℤ b.reserved_input_tokens (pos 0))
      (value_error "reserved_input_tokens cannot be negative")
  raise_if (ltb_ℤ b.safety_margin_tokens (pos 0))
      (value_error "safety_margin_tokens cannot be negative")
  raise_if (b.chars_per_token.numerator == 0) (value_error "chars_per_token must be greater than 0")
  raise_if (ltb_ℤ (input_token_budget b) (pos 1)) (
      value_error
        "Context token budget leaves no room for messages; reduce max_tokens, reserved input, or safety margin")
  ok b

-- math.ceil(n / chars_per_token)
abbrev pub ceil_div : ℕ → Ratio → ℕ
ceil_div n r = (n * r.denominator + r.numerator - 1) / r.numerator

-- math.ceil(n * chars_per_token)
abbrev pub ceil_mul : ℕ → Ratio → ℕ
ceil_mul n r = (n * r.numerator + r.denominator - 1) / r.denominator

unfoldable pub estimate_token_count : Value → Ratio → Outcome ℕ
estimate_token_count v r =
    if r.numerator == 0
    then raise (value_error "chars_per_token must be greater than 0")
    else ok (ceil_div (text_length (dumps_compact v)) r)

-- The same for messages, under a budget that was checked.
unfoldable pub estimated_tokens : List Message → ContextTokenBudget → ℕ
estimated_tokens ms b =
    ceil_div (text_length (dumps_compact (Value.arr (snapshots ms)))) b.chars_per_token

unfoldable pub fits : List Message → ContextTokenBudget → Bool
fits ms b = leb_ℤ (pos (estimated_tokens ms b)) (input_token_budget b)

-- math.ceil(excess_tokens * chars_per_token), where the messages do not fit
unfoldable pub excess_chars : List Message → ContextTokenBudget → ℕ
excess_chars ms b =
    ceil_mul (pos_part (pos (estimated_tokens ms b) -ℤ input_token_budget b)) b.chars_per_token
