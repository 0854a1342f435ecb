-- ===== src/Routing/Requests.antt =====
-- application/routing.py: resolve_messages_request and resolve_token_count_request. Of a request, the
-- model and what it asks of reasoning are kept; the rest is copied unchanged.
use agentic_model_gateway.Base.{Bool, Option, none, some}
use agentic_model_gateway.Stream.Text.{Text}
use agentic_model_gateway.Routing.Reasoning.{
  ReasoningPolicy, ReasoningRequest, resolve_reasoning_policy,
}
use agentic_model_gateway.Routing.Router.{Settings, ResolvedModel, Resolution, resolved, resolve}

pub record MessagesRequest : Type 0 where
  pub model : Text
  pub asked : ReasoningRequest

pub record RoutedMessagesRequest : Type 0 where
  pub request : MessagesRequest
  pub resolved_model : ResolvedModel
  pub reasoning : ReasoningPolicy

-- Besides the routed request, what `resolve` raises, and the ValueError of a preference that is not
-- resolved.
pub data Routed : Type 0 where
  routed : RoutedMessagesRequest → Routed
  not_resolved : Resolution → Routed
  preference_unresolved : Routed

pub record RoutedTokenCountRequest : Type 0 where
  pub model : Text
  pub resolved_model : ResolvedModel

pub data RoutedTokenCount : Type 0 where
  routed_count : RoutedTokenCountRequest → RoutedTokenCount
  count_not_resolved : Resolution → RoutedTokenCount

abbrev pub with_policy : MessagesRequest → ResolvedModel → Option ReasoningPolicy → Routed
with_policy request m none = preference_unresolved
with_policy request m (some policy) = routed (record {
  request = record request { model = m.provider_model };
  resolved_model = m;
  reasoning = policy;
})

unfoldable pub route_to : MessagesRequest → Resolution → Routed
unfolding resolve_reasoning_policy
route_to request (resolved m) =
    with_policy request m (resolve_reasoning_policy request.asked m.reasoning_preference)
route_to request error = not_resolved error

unfoldable pub count_to : Resolution → RoutedTokenCount
count_to (resolved m) = routed_count (record { model = m.provider_model; resolved_model = m })
count_to error = count_not_resolved error

module _ (lower : Text → Text) (supported : Text → Bool) (s : Settings) where
  unfoldable pub resolve_messages_request : MessagesRequest → Routed
  unfolding route_to resolve
  resolve_messages_request request = route_to request (resolve lower supported s request.model)

  unfoldable pub resolve_token_count_request : Text → RoutedTokenCount
  unfolding count_to resolve
  resolve_token_count_request model = count_to (resolve lower supported s model)
