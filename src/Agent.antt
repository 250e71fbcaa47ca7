-- ===== src/Agent.antt =====
-- _context_token_budget of agent_harness/agent.py: the token budget of a model call, and the smaller one
-- of the retry after a context overflow. What the provider estimates for a request is an argument.
pub mod Calls
pub mod State
pub mod Run
pub mod Call
use temporal_agent_harness_e.Prelude.{
  ◌*◌, ◌≡◌, refl, Bool, true, false, Bool-cases, inl, inr, arith, leb, ◌==◌, if◌then◌else◌,
}
use temporal_agent_harness_e.Prelude.Outcome.{Outcome, ok, raise_if-ok}
use temporal_agent_harness_e.Prelude.Int.{
  ℤ, pos, negsuc, ◌-ℤ◌, ◌*ℤ◌, ◌≤ℤ◌, ltb_ℤ, max_ℤ, min_ℤ, int_laws,
}
use temporal_agent_harness_e.Context.Budget.{
  Ratio, ContextTokenBudget, input_token_budget, checked_budget,
}

-- The agent's settings that the budget is made of.
pub record AgentSettings : Type 0 where
  pub max_context_tokens : ℤ
  pub max_tokens : ℤ
  pub context_safety_margin_tokens : ℤ
  pub context_chars_per_token : Ratio

abbrev pub retry_chars_per_token : Ratio
retry_chars_per_token = record { numerator = 5; denominator = 2 }

-- min of two fractions
unfoldable pub min_ratio : Ratio → Ratio → Ratio
min_ratio a b = if leb (a.numerator * b.denominator) (b.numerator * a.denominator) then a else b

unfoldable pub retry_safety_margin : AgentSettings → ℤ → ℤ
retry_safety_margin a reserved =
    min_ℤ (max_ℤ (a.context_safety_margin_tokens *ℤ pos 4) (pos 16000))
      (max_ℤ (pos 0) (a.max_context_tokens -ℤ a.max_tokens -ℤ reserved -ℤ pos 1))

-- The arguments of ContextTokenBudget.
unfoldable pub budget_for : AgentSettings → ℤ → Bool → ContextTokenBudget
budget_for a reserved retry = record {
  max_context_tokens = a.max_context_tokens;
  reserved_output_tokens = a.max_tokens;
  reserved_input_tokens = reserved;
  safety_margin_tokens =
      if retry then retry_safety_margin a reserved else a.context_safety_margin_tokens;
  chars_per_token =
      if retry
      then min_ratio a.context_chars_per_token retry_chars_per_token
      else a.context_chars_per_token;
}

unfoldable pub context_token_budget : AgentSettings → ℤ → Bool → Outcome ContextTokenBudget
context_token_budget a reserved retry = checked_budget (budget_for a reserved retry)

-- What checked_budget accepts.
pub record Accepted (b : ContextTokenBudget) : Type 0 where
  pub some_context : ltb_ℤ b.max_context_tokens (pos 1) ≡ false
  pub output : ltb_ℤ b.reserved_output_tokens (pos 0) ≡ false
  pub input : ltb_ℤ b.reserved_input_tokens (pos 0) ≡ false
  pub margin : ltb_ℤ b.safety_margin_tokens (pos 0) ≡ false
  pub ratio : (b.chars_per_token.numerator == 0) ≡ false
  pub room : ltb_ℤ (input_token_budget b) (pos 1) ≡ false

checked-Accepted : (b : ContextTokenBudget) → checked_budget b ≡ ok b → Accepted b
unfolding checked_budget
checked-Accepted b h =
    let (h1, r1) = raise_if-ok _ _ _ h in
    let (h2, r2) = raise_if-ok _ _ _ r1 in
    let (h3, r3) = raise_if-ok _ _ _ r2 in
    let (h4, r4) = raise_if-ok _ _ _ r3 in
    let (h5, r5) = raise_if-ok _ _ _ r4 in
    let (h6, _) = raise_if-ok _ _ _ r5 in
    record { some_context = h1; output = h2; input = h3; margin = h4; ratio = h5; room = h6 }

Accepted-checked : (b : ContextTokenBudget) → Accepted b → checked_budget b ≡ ok b
unfolding checked_budget
Accepted-checked b h = rw (h.some_context, h.output, h.input, h.margin, h.ratio, h.room) refl

times_four : (m : ℤ) → pos 0 ≤ℤ m → m ≤ℤ m *ℤ pos 4
unfolding ◌*ℤ◌
times_four (pos n) h = grind arith
times_four (negsuc n) h = absurd (omega (arith, h))

abbrev Between : ℤ → ℤ → ℤ → Type 0
Between low x high = (low ≤ℤ x) × (x ≤ℤ high)

-- A clamped number stays where its bounds are.
clamped :
    (m x room : ℤ)
    → pos 0 ≤ℤ m
    → m ≤ℤ x
    → m ≤ℤ room
    → Between m (min_ℤ (max_ℤ x (pos 16000)) (max_ℤ (pos 0) room)) room
unfolding min_ℤ max_ℤ
clamped m x room low up fits = ground arith

-- The margin of a retry, where the first budget left room.
retry_margin :
    (a : AgentSettings) (reserved : ℤ)
    → pos 0 ≤ℤ a.context_safety_margin_tokens
    → pos 1 ≤ℤ a.max_context_tokens -ℤ a.max_tokens -ℤ reserved -ℤ a.context_safety_margin_tokens
    → Between a.context_safety_margin_tokens
        (retry_safety_margin a reserved)
        (a.max_context_tokens -ℤ a.max_tokens -ℤ reserved -ℤ pos 1)
unfolding retry_safety_margin
retry_margin a reserved low room =
    clamped a.context_safety_margin_tokens (a.context_safety_margin_tokens *ℤ pos 4)
      (a.max_context_tokens -ℤ a.max_tokens -ℤ reserved -ℤ pos 1) low
      (times_four a.context_safety_margin_tokens low) (omega (int_laws, room))

not_negative : (x : ℤ) → ltb_ℤ x (pos 0) ≡ false → pos 0 ≤ℤ x
not_negative x h = ground arith

at_least_one : (x : ℤ) → ltb_ℤ x (pos 1) ≡ false → pos 1 ≤ℤ x
at_least_one x h = ground arith

below_test : (x y : ℤ) → y ≤ℤ x → ltb_ℤ x y ≡ false
below_test x y h = ground arith

min_ratio-positive :
    (a b : Ratio)
    → (a.numerator == 0) ≡ false
    → (b.numerator == 0) ≡ false
    → ((min_ratio a b).numerator == 0) ≡ false
unfolding min_ratio
min_ratio-positive a b ha hb =
    elim (Bool-cases (leb (a.numerator * b.denominator) (b.numerator * a.denominator))) [
      | inl e ↦ rw e ha
      | inr e ↦ rw e hb
    ]

retry-Accepted :
    (a : AgentSettings) (reserved : ℤ)
    → Accepted (budget_for a reserved false)
    → Accepted (budget_for a reserved true)
      × (input_token_budget (budget_for a reserved true)
          ≤ℤ input_token_budget (budget_for a reserved false))
unfolding budget_for input_token_budget
retry-Accepted a reserved h =
    let low = not_negative a.context_safety_margin_tokens h.margin in
    let (up, room) = retry_margin a reserved low (at_least_one _ h.room) in
    (
      record {
        some_context = h.some_context;
        output = h.output;
        input = h.input;
        margin = below_test (retry_safety_margin a reserved) (pos 0) (omega (int_laws, low, up));
        ratio = min_ratio-positive a.context_chars_per_token retry_chars_per_token h.ratio refl;
        room =
            below_test (input_token_budget (budget_for a reserved true)) (pos 1)
              (omega (int_laws, room));
      },
      omega (int_laws, up),
    )

-- Where the first budget of a call is accepted, the budget of the retry after a context overflow is
-- accepted too, whatever margin the agent was given, and it leaves no more tokens for messages.
pub retry_budget_shrinks :
    (a : AgentSettings) (reserved : ℤ)
    → context_token_budget a reserved false ≡ ok (budget_for a reserved false)
    → (context_token_budget a reserved true ≡ ok (budget_for a reserved true))
      × (input_token_budget (budget_for a reserved true)
          ≤ℤ input_token_budget (budget_for a reserved false))
unfolding context_token_budget
retry_budget_shrinks a reserved h =
    let (accepted, smaller) =
      retry-Accepted a reserved (checked-Accepted (budget_for a reserved false) h) in
    (Accepted-checked (budget_for a reserved true) accepted, smaller)
