-- ===== src/ModelId.antt =====
-- core/gateway_model_ids.py: the model ids that the gateway advertises, and their decoding.
use agentic_model_gateway.Base.{
  ℕ, ◌-◌, Bool, true, false, not, ◌&&◌, Option, none, some, List, [], ◌∷◌, ◌++◌, length, ◌==◌,
  if◌then◌else◌,
}
use agentic_model_gateway.Stream.Slices.{drop, ends_with, take, without_last}
use agentic_model_gateway.Stream.Text.{Text, is_empty, same_text}
pub mod Laws
mod Tests

-- `anthropic`
abbrev pub gateway_prefix : Text
gateway_prefix = 97 ∷ 110 ∷ 116 ∷ 104 ∷ 114 ∷ 111 ∷ 112 ∷ 105 ∷ 99 ∷ []

-- `claude-3-freecc-no-thinking`
abbrev pub no_thinking_prefix : Text
no_thinking_prefix =
    99 ∷ 108 ∷ 97 ∷ 117 ∷ 100 ∷ 101 ∷ 45 ∷ 51 ∷ 45 ∷ 102 ∷ 114 ∷ 101 ∷ 101 ∷ 99 ∷ 99 ∷ 45 ∷ 110
    ∷ 111 ∷ 45 ∷ 116 ∷ 104 ∷ 105 ∷ 110 ∷ 107 ∷ 105 ∷ 110 ∷ 103 ∷ []

-- `[1m]`
abbrev pub one_m_suffix : Text
one_m_suffix = 91 ∷ 49 ∷ 109 ∷ 93 ∷ []

abbrev pub slash : ℕ
slash = 47

pub record DecodedGatewayModelId : Type 0 where
  pub provider_id : Text
  pub provider_model : Text
  pub force_reasoning_off : Bool
  pub one_m_context : Bool

unfoldable pub gateway_model_id : Text → Text
gateway_model_id provider_model_ref = gateway_prefix ++ slash ∷ provider_model_ref

unfoldable pub no_thinking_gateway_model_id : Text → Text
no_thinking_gateway_model_id provider_model_ref = no_thinking_prefix ++ slash ∷ provider_model_ref

unfoldable pub one_m_gateway_model_id : Text → Text
unfolding gateway_model_id
one_m_gateway_model_id provider_model_ref = gateway_model_id provider_model_ref ++ one_m_suffix

pub record Partition : Type 0 where
  pub before : Text
  pub has_separator : Bool
  pub behind : Text

abbrev pub put_before : ℕ → Partition → Partition
put_before c p = record p { before = c ∷ p.before }

-- `s.partition("/")`
unfoldable pub partition : Text → Partition
partition [] = record { before = []; has_separator = false; behind = [] }
partition (c ∷ s) =
    if c == slash
    then record { before = []; has_separator = true; behind = s }
    else put_before c (partition s)

-- Whether reasoning is forced off, for a known prefix.
unfoldable pub reasoning_off : Text → Option Bool
unfolding same_text
reasoning_off prefix =
    if same_text prefix gateway_prefix
    then some false
    else if same_text prefix no_thinking_prefix
    then some true
    else none

unfoldable pub decode_provider :
    (force_reasoning_off one_m_context : Bool) → Partition → Option DecodedGatewayModelId
decode_provider off one_m p =
    if p.has_separator && not (is_empty p.behind)
    then some (record {
      provider_id = p.before;
      provider_model = p.behind;
      force_reasoning_off = off;
      one_m_context = one_m;
    })
    else none

unfoldable pub decode_prefix : (one_m_context : Bool) → Partition → Option DecodedGatewayModelId
unfolding reasoning_off partition decode_provider
decode_prefix one_m p =
    if p.has_separator
    then elim (reasoning_off p.before) [
      | none ↦ none
      | some off ↦ decode_provider off one_m (partition p.behind)
    ]
    else none

unfoldable pub decode_gateway_model_id : Text → Option DecodedGatewayModelId
unfolding ends_with partition decode_prefix without_last
decode_gateway_model_id model_name =
    let one_m_context = ends_with model_name one_m_suffix in
    decode_prefix one_m_context
      (partition (if one_m_context then without_last 4 model_name else model_name))
