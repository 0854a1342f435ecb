-- ===== src/Routing/Budget.antt =====
-- The policies that application/reasoning.py resolves: their budgets, and what they may hold.
use agentic_model_gateway.Base.{
  ℕ, ◌≡◌, refl, ap, Bool, true, false, not, ◌&&◌, ◌||◌, Option, none, some, ltb, if◌then◌else◌,
  is_none, arith, Bool-cases, inl, inr, either,
}
use agentic_model_gateway.Routing.Reasoning.{
  ReasoningPreference, inherit, off, client, low, medium, high, xhigh, max, ReasoningControl,
  by_default, control_off, control_on, ReasoningPolicy, ReasoningEffort, is_on, is_off, is_valid,
  policy_off, policy_on, numeric_budget_tokens, ReasoningRequest, positive_budget, thinking_control,
  output_effort, client_reasoning_policy, reasoning_fits, preferred, fitted,
  resolve_reasoning_policy, ThinkingConfig,
}
use agentic_model_gateway.Routing.Router.{is_inherit}

-- Whether a numeric budget, if there is one, is below the tokens that the request may use.
unfoldable pub below : (budget_tokens max_tokens : Option ℕ) → Bool
below none max_tokens = true
below (some budget) none = true
below (some budget) (some max_tokens) = ltb budget max_tokens

unfoldable pub Fits : ReasoningPolicy → Option ℕ → Type 0
unfolding numeric_budget_tokens below
Fits policy max_tokens = below (numeric_budget_tokens policy) max_tokens ≡ true

below-none : (budget_tokens : Option ℕ) → below budget_tokens none ≡ true
unfolding below
below-none none = refl
below-none (some budget) = refl

budget-Fits :
    (control : ReasoningControl) (effort : Option ReasoningEffort) (budget : Option ℕ) (n : ℕ)
    → reasoning_fits
        (record { control = control; effort = effort; budget_tokens = budget })
        (some n)
      ≡ true
    → Fits (record { control = control; effort = effort; budget_tokens = budget }) (some n)
unfolding Fits numeric_budget_tokens reasoning_fits below
budget-Fits control_off effort budget n e = refl
budget-Fits by_default none none n e = refl
budget-Fits by_default (some effort) none n e = e
budget-Fits by_default effort (some budget) n e = e
budget-Fits control_on none none n e = refl
budget-Fits control_on (some effort) none n e = e
budget-Fits control_on effort (some budget) n e = e

reasoning_fits-Fits :
    (policy : ReasoningPolicy) (max_tokens : Option ℕ)
    → reasoning_fits policy max_tokens ≡ true
    → Fits policy max_tokens
unfolding Fits
reasoning_fits-Fits policy none e = below-none _
reasoning_fits-Fits policy (some n) e =
    budget-Fits policy.control policy.effort policy.budget_tokens n e

off-Fits :
    (policy : ReasoningPolicy) (max_tokens : Option ℕ)
    → is_off policy.control ≡ true
    → Fits policy max_tokens
unfolding Fits numeric_budget_tokens below
off-Fits policy max_tokens switched = ground (arith, switched)

switched_off :
    (policy : ReasoningPolicy) (max_tokens : Option ℕ)
    → not (is_off policy.control) && not (reasoning_fits policy max_tokens) ≡ false
    → Fits policy max_tokens
switched_off policy max_tokens kept = elim (Bool-cases (is_off policy.control)) [
  | inl switched ↦ off-Fits policy max_tokens switched
  | inr shown ↦ reasoning_fits-Fits policy max_tokens (ground (arith, shown, kept))
]

pub fitted-Fits :
    (policy : ReasoningPolicy) (max_tokens : Option ℕ) → Fits (fitted policy max_tokens) max_tokens
unfolding fitted Fits reasoning_fits
fitted-Fits policy max_tokens =
    either (λ p. Fits p max_tokens)
      (not (is_off policy.control) && not (reasoning_fits policy max_tokens))
      (λ _. off-Fits policy_off max_tokens refl) (switched_off policy max_tokens)

-- What `__post_init__` asks of a policy that holds the budget of the thinking field.
positive_budget-valid :
    (thinking : Option ThinkingConfig) (effort : Option ReasoningEffort)
    → is_valid (policy_on effort (positive_budget thinking)) ≡ true
unfolding positive_budget
positive_budget-valid none effort = refl
positive_budget-valid (some thinking) effort = budget_valid thinking.budget_tokens
  where
    budget_valid :
        (budget : Option ℕ)
        → is_valid (
            policy_on effort
              (elim budget [ none ↦ none | some value ↦ if ltb 0 value then some value else none ]))
          ≡ true
    budget_valid none = refl
    budget_valid (some value) = elim (Bool-cases (ltb 0 value)) [
      | inl positive ↦ ground (arith, positive)
      | inr zero ↦ ground (arith, zero)
    ]

pub client_policy_valid :
    (request : ReasoningRequest) → is_valid (client_reasoning_policy request) ≡ true
unfolding client_reasoning_policy
client_policy_valid request =
    either Valid effort_disables (λ _. refl)
      (λ _.
        either Valid (is_off control) (λ _. refl)
          (λ _.
            either Valid (is_on control || not (is_none budget_tokens))
              (λ _. positive_budget-valid request.thinking effort) (λ _. refl)))
  where
    Valid : ReasoningPolicy → Type 0
    Valid policy = is_valid policy ≡ true

    budget_tokens : Option ℕ
    budget_tokens = positive_budget request.thinking

    control : ReasoningControl
    control = thinking_control request.thinking budget_tokens

    effort : Option ReasoningEffort
    effort = (output_effort request.output_effort).0

    effort_disables : Bool
    effort_disables = (output_effort request.output_effort).1

fitted-valid :
    (policy : ReasoningPolicy) (max_tokens : Option ℕ)
    → is_valid policy ≡ true
    → is_valid (fitted policy max_tokens) ≡ true
unfolding fitted reasoning_fits
fitted-valid policy max_tokens valid =
    either (λ p. is_valid p ≡ true)
      (not (is_off policy.control) && not (reasoning_fits policy max_tokens)) (λ _. refl)
      (λ _. valid)

preferred_valid :
    (preference : ReasoningPreference) (request : ReasoningRequest)
    → is_inherit preference ≡ false
    → (policy : ReasoningPolicy) × (preferred preference request ≡ some policy)
      × (is_valid policy ≡ true)
unfolding preferred client_reasoning_policy
preferred_valid inherit request e = ground arith
preferred_valid off request e = (_, refl, refl)
preferred_valid client request e = (_, refl, client_policy_valid request)
preferred_valid low request e = (_, refl, refl)
preferred_valid medium request e = (_, refl, refl)
preferred_valid high request e = (_, refl, refl)
preferred_valid xhigh request e = (_, refl, refl)
preferred_valid max request e = (_, refl, refl)

pub resolve_total :
    (request : ReasoningRequest) (preference : ReasoningPreference)
    → is_inherit preference ≡ false
    → (policy : ReasoningPolicy) × (resolve_reasoning_policy request preference ≡ some policy)
      × (is_valid policy ≡ true)
      × Fits policy request.max_tokens
unfolding resolve_reasoning_policy
resolve_total request preference e =
    let (policy, found, valid) = preferred_valid preference request e in
    (
      fitted policy request.max_tokens,
      ap (λ p. elim p [ none ↦ none | some policy ↦ some (fitted policy request.max_tokens) ])
          found,
      fitted-valid policy request.max_tokens valid,
      fitted-Fits policy request.max_tokens,
    )
