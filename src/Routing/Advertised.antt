-- ===== src/Routing/Advertised.antt =====
-- The ids of core/gateway_model_ids.py, as application/routing.py routes them.
use agentic_model_gateway.Base.{
  ◌≡◌, ap, ◌∙◌, Bool, true, false, none, some, contains, if◌then◌else◌,
}
use agentic_model_gateway.Stream.Text.{Text, is_empty}
use agentic_model_gateway.Stream.Slices.{ends_with}
use agentic_model_gateway.ModelId.{
  one_m_suffix, slash, gateway_model_id, no_thinking_gateway_model_id, one_m_gateway_model_id,
  decode_gateway_model_id,
}
use agentic_model_gateway.ModelId.Laws.RoundTrip.{model_ref, decode_advertised}
use agentic_model_gateway.Routing.Reasoning.{off}
use agentic_model_gateway.Routing.Router.{
  Settings, ResolvedModel, resolved, decoded_provider_model, direct_provider_model, resolve_found,
  resolve,
}

module _ (lower : Text → Text) (supported : Text → Bool) (s : Settings) where
  decoded_resolved :
      (name provider model : Text) (forced one_m : Bool)
      → decode_gateway_model_id name
        ≡ some (record {
          provider_id = provider;
          provider_model = model;
          force_reasoning_off = forced;
          one_m_context = one_m;
        })
      → supported provider ≡ true
      → resolve lower supported s name
        ≡ resolved (record {
          original_model = name;
          provider_id = provider;
          provider_model = model;
          provider_model_ref = name;
          reasoning_preference = if forced then off else s.reasoning_policy;
        })
  unfolding resolve resolve_found direct_provider_model decoded_provider_model
  decoded_resolved name provider model forced one_m e known =
      ap
        (λ d.
          resolve_found lower supported s name (decoded_provider_model lower supported s name d))
        e
      ∙ ap
          (λ b.
            resolve_found lower supported s name
              (if b then some (provider, model, forced) else none))
          known

  -- The ids that the gateway advertises for a model of a supported provider are routed to that provider
  -- and that model: the plain and the one-million id with the root preference, the no-thinking id with
  -- reasoning off. The provider has no slash, the model is not empty, and an id without the suffix of
  -- the one-million context does not end in it by chance.
  pub advertised_id_routed :
      (provider model : Text)
      → contains slash provider ≡ false
      → is_empty model ≡ false
      → ends_with (gateway_model_id (model_ref provider model)) one_m_suffix ≡ false
      → ends_with (no_thinking_gateway_model_id (model_ref provider model)) one_m_suffix ≡ false
      → supported provider ≡ true
      → let routed_to : Text → Bool → ResolvedModel = λ name forced. record {
        original_model = name;
        provider_id = provider;
        provider_model = model;
        provider_model_ref = name;
        reasoning_preference = if forced then off else s.reasoning_policy;
      } in
        let plain = gateway_model_id (model_ref provider model) in
        let no_thinking = no_thinking_gateway_model_id (model_ref provider model) in
        let one_m = one_m_gateway_model_id (model_ref provider model) in
        (resolve lower supported s plain ≡ resolved (routed_to plain false))
        × (resolve lower supported s no_thinking ≡ resolved (routed_to no_thinking true))
        × (resolve lower supported s one_m ≡ resolved (routed_to one_m false))
  advertised_id_routed provider model h filled plain bare known =
      let (p, n, o) = decode_advertised provider model h filled plain bare in
      (
        decoded_resolved _ provider model false false p known,
        decoded_resolved _ provider model true false n known,
        decoded_resolved _ provider model false true o known,
      )
