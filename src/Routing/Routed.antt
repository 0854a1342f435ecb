-- ===== src/Routing/Routed.antt =====
-- What the router makes of a request under validated settings.
use agentic_model_gateway.Base.{
  ◌≡◌, refl, ap, subst, ◌∙◌, Bool, true, false, not, Option, none, some, if◌then◌else◌, is_none,
  List, All, arith, either, ◌∷◌, [],
}
use agentic_model_gateway.Stream.Text.{Text}
use agentic_model_gateway.ModelId.{DecodedGatewayModelId, Partition, partition}
use agentic_model_gateway.Think.Find.{find}
use agentic_model_gateway.Routing.Reasoning.{off, ReasoningPolicy, is_valid}
use agentic_model_gateway.Routing.Router.{
  Settings, ResolvedModel, Resolution, resolved, Route, is_inherit, route_preference, matched_route,
  resolve_model_ref, resolve_reasoning_preference, raw_provider_model, direct_provider_model,
  decoded_provider_model, resolve_found, configured, resolve, first_route, route_settings,
  route_model, validate_model_format, validate_settings, validate_reference,
}
use agentic_model_gateway.Routing.Budget.{Fits, resolve_total}
use agentic_model_gateway.Routing.Requests.{
  MessagesRequest, routed, with_policy, route_to, resolve_messages_request,
}

module _ (lower : Text → Text) (supported : Text → Bool) (s : Settings) where
  -- What holds of the model, where there is one.
  abbrev OfModel : (ResolvedModel → Type 0) → Resolution → Type 0
  OfModel P (resolved m) = P m
  OfModel P error = Unit

  route_preference_set :
      (route : Option Route)
      → is_inherit s.reasoning_policy ≡ false
      → is_inherit (route_preference lower supported s route) ≡ false
  route_preference_set none h = h
  route_preference_set (some route) h =
      either (λ p. is_inherit p ≡ false) (is_inherit route.reasoning) (λ _. h) (λ e. e)

  direct_preference_set :
      (forced : Bool)
      → is_inherit s.reasoning_policy ≡ false
      → is_inherit (if forced then off else s.reasoning_policy) ≡ false
  direct_preference_set true h = refl
  direct_preference_set false h = h

  abbrev IsRoutable : ResolvedModel → Type 0
  IsRoutable m = (is_inherit m.reasoning_preference ≡ false) × (supported m.provider_id ≡ true)

  configured-IsRoutable :
      (name ref : Text) (p : Partition)
      → is_inherit s.reasoning_policy ≡ false
      → OfModel IsRoutable (configured lower supported s name ref p)
  unfolding configured resolve_reasoning_preference
  configured-IsRoutable name ref p h =
      either (OfModel IsRoutable) (not (supported p.before)) (λ _. tt)
        (λ known.
          either (OfModel IsRoutable) p.has_separator
            (λ _. (
              route_preference_set (matched_route lower supported s name) h,
              ground (arith, known),
            ))
            (λ _. tt))

  raw_supported :
      (p : Partition) (found : Text × Text × Bool)
      → raw_provider_model lower supported s p ≡ some found
      → supported found.0 ≡ true
  unfolding raw_provider_model
  raw_supported p found e = ground arith

  decoded_supported :
      (name : Text) (decoded : Option DecodedGatewayModelId) (found : Text × Text × Bool)
      → decoded_provider_model lower supported s name decoded ≡ some found
      → supported found.0 ≡ true
  unfolding decoded_provider_model
  decoded_supported name none found e = raw_supported (partition name) found e
  decoded_supported name (some decoded) found e = ground arith

  found-IsRoutable :
      (name : Text) (found : Option (Text × Text × Bool))
      → ((x : Text × Text × Bool) → found ≡ some x → supported x.0 ≡ true)
      → is_inherit s.reasoning_policy ≡ false
      → OfModel IsRoutable (resolve_found lower supported s name found)
  unfolding resolve_found
  found-IsRoutable name none known h = configured-IsRoutable name _ _ h
  found-IsRoutable name (some found) known h = (direct_preference_set found.2 h, known found refl)

  resolved-IsRoutable :
      (name : Text)
      → is_inherit s.reasoning_policy ≡ false
      → OfModel IsRoutable (resolve lower supported s name)
  unfolding resolve direct_provider_model
  resolved-IsRoutable name h = found-IsRoutable name _ (decoded_supported name _) h

  abbrev IsReference : Text → Type 0
  IsReference ref = validate_model_format lower supported s (some ref) ≡ true

  -- A reference that the validators accept is resolved.
  reference_resolved :
      (name ref : Text) (p : Partition)
      → validate_reference lower supported s p ≡ true
      → (m : ResolvedModel) × (configured lower supported s name ref p ≡ resolved m)
  unfolding configured
  reference_resolved name ref p e = (
    record {
      original_model = name;
      provider_id = p.before;
      provider_model = p.behind;
      provider_model_ref = ref;
      reasoning_preference = resolve_reasoning_preference lower supported s name;
    },
    ground (arith, e),
  )

  own_model :
      (route : Route)
      → validate_model_format lower supported s route.model ≡ true
      → IsReference s.model
      → IsReference (route_model lower supported s (some route))
  own_model route valid root = of_model route.model valid
    where
      of_model :
          (model : Option Text)
          → validate_model_format lower supported s model ≡ true
          → IsReference (elim model [ none ↦ s.model | some ref ↦ ref ])
      of_model none _ = root
      of_model (some ref) accepted = accepted

  first_model :
      (normalized : Text) (routes : List Route)
      → All (λ route. validate_model_format lower supported s route.model ≡ true) routes
      → IsReference s.model
      → IsReference (route_model lower supported s (first_route normalized routes))
  unfolding first_route
  first_model normalized [] valid root = root
  first_model normalized (route ∷ routes) valid root =
      either (λ r. IsReference (route_model lower supported s r))
        (not (is_none (find route.marker normalized))) (λ _. own_model route valid.0 root)
        (λ _. first_model normalized routes valid.1 root)

  -- The parts of validated settings.
  validated :
      validate_settings lower supported s ≡ true
      → (is_inherit s.reasoning_policy ≡ false)
        × IsReference s.model
        × All
            (λ route. validate_model_format lower supported s route.model ≡ true)
            (route_settings s)
  unfolding validate_settings
  validated h = (
    ground (arith, h),
    ground (arith, h),
    (ground (arith, h), (ground (arith, h), (ground (arith, h), (ground (arith, h), tt)))),
  )

  found_resolved :
      (name : Text) (found : Option (Text × Text × Bool))
      → validate_settings lower supported s ≡ true
      → (m : ResolvedModel) × (resolve_found lower supported s name found ≡ resolved m)
  unfolding resolve_found resolve_model_ref matched_route validate_model_format
  found_resolved name (some found) h = (_, refl)
  found_resolved name none h =
      let (_, root, routes) = validated h in
      reference_resolved name _ _ (first_model (lower name) (route_settings s) routes root)

  -- Under settings that the validators accept, every request is routed: to a supported provider, under
  -- the model that resolve gives, and with a reasoning policy that __post_init__ accepts and whose
  -- numeric budget, if any, is below the request's max_tokens.
  pub every_request_routed :
      (request : MessagesRequest)
      → validate_settings lower supported s ≡ true
      → (m : ResolvedModel) × (policy : ReasoningPolicy) × (resolve lower supported s request.model
          ≡ resolved m)
        × (resolve_messages_request lower supported s request
            ≡ routed (record {
              request = record request { model = m.provider_model };
              resolved_model = m;
              reasoning = policy;
            }))
        × (supported m.provider_id ≡ true)
        × (is_valid policy ≡ true)
        × Fits policy request.asked.max_tokens
  unfolding resolve_messages_request route_to resolve
  every_request_routed request h =
      let (inherited, _, _) = validated h in
      let (m, e) =
        found_resolved request.model (direct_provider_model lower supported s request.model) h in
      let (set, known) =
        subst (OfModel IsRoutable) e (resolved-IsRoutable request.model inherited) in
      let (policy, found, valid, fits) = resolve_total request.asked m.reasoning_preference set in
      (m, policy, e, ap (route_to request) e ∙ ap (with_policy request m) found, known, valid, fits)
