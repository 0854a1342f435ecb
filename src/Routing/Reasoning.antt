-- ===== src/Routing/Reasoning.antt =====
-- core/reasoning.py, config/reasoning.py and application/reasoning.py: what a client asks of a model's
-- reasoning, and what the configuration makes of it.
use agentic_model_gateway.Base.{
  ℕ, Bool, true, false, not, ◌&&◌, ◌||◌, Option, none, some, ltb, if◌then◌else◌, is_none,
}

pub data ReasoningPreference : Type 0 where
  inherit off client low medium high xhigh max : ReasoningPreference

pub data ReasoningControl : Type 0 where
  by_default control_off control_on : ReasoningControl

pub data ReasoningEffort : Type 0 where
  minimal_effort low_effort medium_effort high_effort xhigh_effort max_effort : ReasoningEffort

abbrev pub effort_budget_tokens : ReasoningEffort → ℕ
effort_budget_tokens minimal_effort = 512
effort_budget_tokens low_effort = 512
effort_budget_tokens medium_effort = 1024
effort_budget_tokens high_effort = 2048
effort_budget_tokens xhigh_effort = 4096
effort_budget_tokens max_effort = 8192

pub record ReasoningPolicy : Type 0 where
  pub control : ReasoningControl
  pub effort : Option ReasoningEffort
  pub budget_tokens : Option ℕ

abbrev pub is_on : ReasoningControl → Bool
is_on control_on = true
is_on _ = false

abbrev pub is_off : ReasoningControl → Bool
is_off control_off = true
is_off _ = false

-- `__post_init__` raises a ValueError for any other policy.
abbrev pub is_valid : ReasoningPolicy → Bool
is_valid p = elim p.budget_tokens [ none ↦ true | some budget ↦ ltb 0 budget && is_on p.control ]

abbrev pub policy_off : ReasoningPolicy
policy_off = record { control = control_off; effort = none; budget_tokens = none }

abbrev pub policy_on : Option ReasoningEffort → Option ℕ → ReasoningPolicy
policy_on effort budget_tokens = record {
  control = control_on;
  effort = effort;
  budget_tokens = budget_tokens;
}

abbrev pub effort_budget : Option ReasoningEffort → Option ℕ
effort_budget none = none
effort_budget (some effort) = some (effort_budget_tokens effort)

unfoldable pub numeric_budget_tokens : ReasoningPolicy → Option ℕ
numeric_budget_tokens p =
    if is_off p.control
    then none
    else elim p.budget_tokens [ some budget ↦ some budget | none ↦ effort_budget p.effort ]

pub data ThinkingType : Type 0 where
  disabled adaptive enabled_type other_type : ThinkingType

-- `enabled` is `none` where the field is not set; a budget that is no positive integer counts as none,
-- and is zero here.
pub record ThinkingConfig : Type 0 where
  pub type : ThinkingType
  pub enabled : Option Bool
  pub budget_tokens : Option ℕ

-- `output_config["effort"]`: none, a name that means `none`, an effort, or another text.
pub data EffortField : Type 0 where
  no_effort effort_none unknown_effort : EffortField
  named_effort : ReasoningEffort → EffortField

pub record ReasoningRequest : Type 0 where
  pub thinking : Option ThinkingConfig
  pub output_effort : EffortField
  pub max_tokens : Option ℕ

unfoldable pub positive_budget : Option ThinkingConfig → Option ℕ
positive_budget none = none
positive_budget (some thinking) = elim thinking.budget_tokens [
  | none ↦ none
  | some value ↦ if ltb 0 value then some value else none
]

abbrev pub is_disabled : ThinkingType → Bool
is_disabled disabled = true
is_disabled type = false

abbrev pub is_enabled : ThinkingType → Bool
is_enabled adaptive = true
is_enabled enabled_type = true
is_enabled type = false

abbrev pub is_set_to : Bool → Option Bool → Bool
is_set_to b none = false
is_set_to true (some enabled) = enabled
is_set_to false (some enabled) = not enabled

unfoldable pub thinking_control :
    Option ThinkingConfig → (budget_tokens : Option ℕ) → ReasoningControl
thinking_control none budget_tokens = by_default
thinking_control (some thinking) budget_tokens =
    if is_disabled thinking.type || is_set_to false thinking.enabled
    then control_off
    else if is_enabled thinking.type
        || (is_set_to true thinking.enabled || not (is_none budget_tokens))
    then control_on
    else by_default

-- The effort, and whether it disables reasoning.
abbrev pub output_effort : EffortField → Option ReasoningEffort × Bool
output_effort no_effort = (none, false)
output_effort effort_none = (none, true)
output_effort unknown_effort = (none, false)
output_effort (named_effort effort) = (some effort, false)

unfoldable pub client_reasoning_policy : ReasoningRequest → ReasoningPolicy
unfolding positive_budget thinking_control
client_reasoning_policy request =
    let budget_tokens = positive_budget request.thinking in
    let control = thinking_control request.thinking budget_tokens in
    let (effort, effort_disables) = output_effort request.output_effort in
    if effort_disables
    then policy_off
    else if is_off control
    then record { control = control_off; effort = effort; budget_tokens = none }
    else if is_on control || not (is_none budget_tokens)
    then policy_on effort budget_tokens
    else record { control = by_default; effort = effort; budget_tokens = none }

abbrev pub or_budget : Option ℕ → ℕ → ℕ
or_budget none budget = budget
or_budget (some budget) other = budget

-- `MIN_REASONING_BUDGET_TOKENS` stands in for a budget that is not given.
unfoldable pub reasoning_fits : ReasoningPolicy → Option ℕ → Bool
reasoning_fits policy none = true
reasoning_fits policy (some max_tokens) =
    ltb (or_budget policy.budget_tokens (or_budget (effort_budget policy.effort) 1024)) max_tokens

-- `ReasoningEffort(preference.value)`, for a preference that names an effort.
unfoldable pub preferred : ReasoningPreference → ReasoningRequest → Option ReasoningPolicy
unfolding client_reasoning_policy
preferred inherit request = none
preferred off request = some policy_off
preferred client request = some (client_reasoning_policy request)
preferred low request = some (policy_on (some low_effort) none)
preferred medium request = some (policy_on (some medium_effort) none)
preferred high request = some (policy_on (some high_effort) none)
preferred xhigh request = some (policy_on (some xhigh_effort) none)
preferred max request = some (policy_on (some max_effort) none)

unfoldable pub fitted : ReasoningPolicy → Option ℕ → ReasoningPolicy
unfolding reasoning_fits
fitted policy max_tokens =
    if not (is_off policy.control) && not (reasoning_fits policy max_tokens)
    then policy_off
    else policy

-- `none` is the ValueError of a preference that is not resolved.
unfoldable pub resolve_reasoning_policy :
    ReasoningRequest → ReasoningPreference → Option ReasoningPolicy
unfolding preferred fitted
resolve_reasoning_policy request preference = elim (preferred preference request) [
  | none ↦ none
  | some policy ↦ some (fitted policy request.max_tokens)
]
