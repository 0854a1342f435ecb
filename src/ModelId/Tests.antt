-- ===== src/ModelId/Tests.antt =====
-- The laws of model ids at the provider `p` and the model `m/x`.
use agentic_model_gateway.Base.{contains, ◌≡◌, refl, true, false, some, [], ◌∷◌}
use agentic_model_gateway.Stream.Text.{Text}
use agentic_model_gateway.ModelId.{
  DecodedGatewayModelId, gateway_model_id, no_thinking_gateway_model_id, one_m_gateway_model_id,
  decode_gateway_model_id,
}
use agentic_model_gateway.ModelId.Laws.RoundTrip.{model_ref, decode_advertised, decoded_id, id_of}

abbrev provider : Text
provider = 112 ∷ []

abbrev model : Text
model = 109 ∷ 47 ∷ 120 ∷ []

abbrev decoded : DecodedGatewayModelId
decoded = record {
  provider_id = provider;
  provider_model = model;
  force_reasoning_off = false;
  one_m_context = true;
}

decode_advertised_example :
    (decode_gateway_model_id (gateway_model_id (model_ref provider model))
      ≡ some (record decoded { one_m_context = false }))
    × (decode_gateway_model_id (no_thinking_gateway_model_id (model_ref provider model))
        ≡ some (record decoded { force_reasoning_off = true; one_m_context = false }))
    × (decode_gateway_model_id (one_m_gateway_model_id (model_ref provider model)) ≡ some decoded)
unfolding decode_gateway_model_id gateway_model_id no_thinking_gateway_model_id contains
decode_advertised_example = decode_advertised provider model refl refl refl refl

one_m_decoded :
    decode_gateway_model_id (one_m_gateway_model_id (model_ref provider model)) ≡ some decoded
unfolding decode_gateway_model_id one_m_gateway_model_id
one_m_decoded = refl

decoded_id_example : id_of decoded ≡ one_m_gateway_model_id (model_ref provider model)
decoded_id_example =
    decoded_id (one_m_gateway_model_id (model_ref provider model)) decoded one_m_decoded
