-- ===== src/Routing/Tests.antt =====
-- The laws of the router at the provider `p`, the models `m` and `x`, and a request for `x-opus`.
use agentic_model_gateway.Base.{◌≡◌, refl, Bool, true, none, some, [], ◌∷◌, contains}
use agentic_model_gateway.Stream.Text.{Text, same_text}
use agentic_model_gateway.Stream.Slices.{ends_with}
use agentic_model_gateway.ModelId.{
  gateway_model_id, no_thinking_gateway_model_id, one_m_gateway_model_id,
}
use agentic_model_gateway.ModelId.Laws.RoundTrip.{model_ref}
use agentic_model_gateway.Routing.Reasoning.{
  client, inherit, off, high, ReasoningPolicy, named_effort, low_effort, is_valid,
}
use agentic_model_gateway.Routing.Router.{
  Settings, ResolvedModel, resolved, resolve, validate_settings,
}
use agentic_model_gateway.Routing.Budget.{Fits}
use agentic_model_gateway.Routing.Requests.{MessagesRequest, routed, resolve_messages_request}
use agentic_model_gateway.Routing.Routed.{every_request_routed}
use agentic_model_gateway.Routing.Advertised.{advertised_id_routed}

abbrev provider : Text
provider = 112 ∷ []

abbrev model : Text
model = 109 ∷ []

abbrev supported : Text → Bool
unfolding same_text
supported = same_text provider

abbrev lower : Text → Text
lower s = s

abbrev settings : Settings
settings = record {
  model = 112 ∷ 47 ∷ 109 ∷ [];
  reasoning_policy = client;
  model_fable = none;
  model_opus = some (112 ∷ 47 ∷ 120 ∷ []);
  model_haiku = none;
  model_sonnet = none;
  reasoning_fable = inherit;
  reasoning_opus = high;
  reasoning_haiku = inherit;
  reasoning_sonnet = off;
}

-- `x-opus`, with the effort `low` and 600 tokens.
abbrev request : MessagesRequest
request = record {
  model = 120 ∷ 45 ∷ 111 ∷ 112 ∷ 117 ∷ 115 ∷ [];
  asked = record {
    thinking = none;
    output_effort = named_effort low_effort;
    max_tokens = some 600;
  };
}

every_request_routed_example :
    (m : ResolvedModel) × (policy : ReasoningPolicy) × (resolve lower supported settings
        request.model
      ≡ resolved m)
    × (resolve_messages_request lower supported settings request
        ≡ routed (record {
          request = record request { model = m.provider_model };
          resolved_model = m;
          reasoning = policy;
        }))
    × (supported m.provider_id ≡ true)
    × (is_valid policy ≡ true)
    × Fits policy (some 600)
unfolding validate_settings supported
every_request_routed_example = every_request_routed lower supported settings request refl

advertised_id_routed_example :
    let routed_to : Text → ResolvedModel = λ name. record {
      original_model = name;
      provider_id = provider;
      provider_model = model;
      provider_model_ref = name;
      reasoning_preference = client;
    } in
    let plain = gateway_model_id (model_ref provider model) in
    let no_thinking = no_thinking_gateway_model_id (model_ref provider model) in
    let one_m = one_m_gateway_model_id (model_ref provider model) in
    (resolve lower supported settings plain ≡ resolved (routed_to plain))
    × (resolve lower supported settings no_thinking
        ≡ resolved (record (routed_to no_thinking) { reasoning_preference = off }))
    × (resolve lower supported settings one_m ≡ resolved (routed_to one_m))
unfolding gateway_model_id no_thinking_gateway_model_id contains ends_with supported
advertised_id_routed_example =
    advertised_id_routed lower supported settings provider model refl refl refl refl refl
