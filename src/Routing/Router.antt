-- ===== src/Routing/Router.antt =====
-- application/routing.py: class ModelRouter, and the references of config/model_refs.py. `lower` is
-- `str.lower`, and the catalog of providers is given by its test of an id.
use agentic_model_gateway.Base.{
  Bool, true, false, not, ◌&&◌, Option, none, some, List, [], ◌∷◌, if◌then◌else◌, is_none,
}
use agentic_model_gateway.Stream.Text.{Text, is_empty}
use agentic_model_gateway.Stream.Slices.{ends_with, without_last}
use agentic_model_gateway.Think.Find.{find}
use agentic_model_gateway.ModelId.{
  DecodedGatewayModelId, Partition, partition, one_m_suffix, decode_gateway_model_id,
}
use agentic_model_gateway.Routing.Reasoning.{ReasoningPreference, inherit, off}

pub record Route : Type 0 where
  pub marker : Text
  pub model : Option Text
  pub reasoning : ReasoningPreference

-- The settings that the router reads; the routes stand in the order of `_ROUTE_SETTINGS`.
pub record Settings : Type 0 where
  pub model : Text
  pub reasoning_policy : ReasoningPreference
  pub model_fable : Option Text
  pub model_opus : Option Text
  pub model_haiku : Option Text
  pub model_sonnet : Option Text
  pub reasoning_fable : ReasoningPreference
  pub reasoning_opus : ReasoningPreference
  pub reasoning_haiku : ReasoningPreference
  pub reasoning_sonnet : ReasoningPreference

pub record ResolvedModel : Type 0 where
  pub original_model : Text
  pub provider_id : Text
  pub provider_model : Text
  pub provider_model_ref : Text
  pub reasoning_preference : ReasoningPreference

-- Besides the model, UnknownProviderError, and the IndexError of a reference without a slash.
pub data Resolution : Type 0 where
  resolved : ResolvedModel → Resolution
  unknown_provider : Text → Resolution
  no_model_name : Resolution

abbrev pub route_settings : Settings → List Route
route_settings s =
    record {
      marker = 102 ∷ 97 ∷ 98 ∷ 108 ∷ 101 ∷ [];
      model = s.model_fable;
      reasoning = s.reasoning_fable;
    }
    ∷ record {
      marker = 111 ∷ 112 ∷ 117 ∷ 115 ∷ [];
      model = s.model_opus;
      reasoning = s.reasoning_opus;
    }
    ∷ record {
      marker = 104 ∷ 97 ∷ 105 ∷ 107 ∷ 117 ∷ [];
      model = s.model_haiku;
      reasoning = s.reasoning_haiku;
    }
    ∷ record {
      marker = 115 ∷ 111 ∷ 110 ∷ 110 ∷ 101 ∷ 116 ∷ [];
      model = s.model_sonnet;
      reasoning = s.reasoning_sonnet;
    }
    ∷ []

unfoldable pub first_route : Text → List Route → Option Route
unfolding find
first_route normalized [] = none
first_route normalized (route ∷ routes) =
    if not (is_none (find route.marker normalized))
    then some route
    else first_route normalized routes

abbrev pub is_inherit : ReasoningPreference → Bool
is_inherit inherit = true
is_inherit preference = false

module _ (lower : Text → Text) (supported : Text → Bool) (s : Settings) where
  unfoldable pub matched_route : Text → Option Route
  unfolding first_route
  matched_route model_name = first_route (lower model_name) (route_settings s)

  abbrev pub route_model : Option Route → Text
  route_model none = s.model
  route_model (some route) = elim route.model [ none ↦ s.model | some model ↦ model ]

  unfoldable pub resolve_model_ref : Text → Text
  unfolding matched_route
  resolve_model_ref name = route_model (matched_route name)

  abbrev pub route_preference : Option Route → ReasoningPreference
  route_preference none = s.reasoning_policy
  route_preference (some route) =
      if is_inherit route.reasoning then s.reasoning_policy else route.reasoning

  unfoldable pub resolve_reasoning_preference : Text → ReasoningPreference
  unfolding matched_route
  resolve_reasoning_preference name = route_preference (matched_route name)

  abbrev pub without_one_m : Text → Text
  unfolding ends_with without_last
  without_one_m model = if ends_with model one_m_suffix then without_last 4 model else model

  -- A name that is no advertised id, as a reference.
  unfoldable pub raw_provider_model : Partition → Option (Text × Text × Bool)
  unfolding without_one_m
  raw_provider_model p =
      if p.has_separator && (supported p.before && not (is_empty p.behind))
      then some (p.before, without_one_m p.behind, false)
      else none

  unfoldable pub decoded_provider_model :
      Text → Option DecodedGatewayModelId → Option (Text × Text × Bool)
  unfolding partition raw_provider_model
  decoded_provider_model name none = raw_provider_model (partition name)
  decoded_provider_model name (some decoded) =
      if supported decoded.provider_id
      then some (decoded.provider_id, decoded.provider_model, decoded.force_reasoning_off)
      else none

  -- The provider, its model, and whether reasoning is forced off.
  unfoldable pub direct_provider_model : Text → Option (Text × Text × Bool)
  unfolding decoded_provider_model decode_gateway_model_id
  direct_provider_model name = decoded_provider_model name (decode_gateway_model_id name)

  -- `parse_provider_type` and `parse_model_name` of a configured reference.
  unfoldable pub configured : Text → Text → Partition → Resolution
  configured name ref p =
      if not (supported p.before)
      then unknown_provider p.before
      else if p.has_separator
      then resolved (record {
        original_model = name;
        provider_id = p.before;
        provider_model = p.behind;
        provider_model_ref = ref;
        reasoning_preference = resolve_reasoning_preference name;
      })
      else no_model_name

  abbrev pub direct : Text → Text × Text × Bool → Resolution
  direct name (provider_id, provider_model, force_reasoning_off) = resolved (record {
    original_model = name;
    provider_id = provider_id;
    provider_model = provider_model;
    provider_model_ref = name;
    reasoning_preference = if force_reasoning_off then off else s.reasoning_policy;
  })

  unfoldable pub resolve_found : Text → Option (Text × Text × Bool) → Resolution
  unfolding resolve_model_ref partition configured
  resolve_found name (some found) = direct name found
  resolve_found name none =
      configured name (resolve_model_ref name) (partition (resolve_model_ref name))

  unfoldable pub resolve : Text → Resolution
  unfolding direct_provider_model resolve_found
  resolve name = resolve_found name (direct_provider_model name)

  -- config/settings.py: the validators of the references and of the root preference. `true` is where
  -- they raise no ValueError.
  abbrev pub validate_reference : Partition → Bool
  validate_reference p = p.has_separator && supported p.before

  unfoldable pub validate_model_format : Option Text → Bool
  unfolding partition
  validate_model_format none = true
  validate_model_format (some ref) = validate_reference (partition ref)

  unfoldable pub validate_settings : Bool
  unfolding validate_model_format
  validate_settings =
      not (is_inherit s.reasoning_policy)
      && (validate_model_format (some s.model)
          && (validate_model_format s.model_fable
              && (validate_model_format s.model_opus
                  && (validate_model_format s.model_haiku
                      && validate_model_format s.model_sonnet))))
