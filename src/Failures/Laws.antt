-- ===== src/Failures/Laws.antt =====
-- The classification of a failure, and the test of whether it may be tried again.
use agentic_model_gateway.Base.{
  either, ℕ, ◌≤◌, ◌≡◌, refl, ap, ◌∙◌, Bool, true, false, not, Option, none, some, if◌then◌else◌,
  is_none, arith,
}
use agentic_model_gateway.Stream.Text.{Text}
use agentic_model_gateway.Failures.Errors.{
  ExecutionFailure, Facts, authentication_error, permission_denied_error, rate_limit_error,
  bad_request_error, api_timeout_error, api_connection_error, internal_server_error, api_error,
  ProviderError, execution_failure, recovery_exhausted, protocol_error, timeout_error, other_error,
  sdk_error, http_status_error, transport_error,
}
use agentic_model_gateway.Failures.Status.{
  has_marker, marked_status, rate_limit_markers, internal_error_markers, status_from_body,
  overload_markers, inferred_status, retryable_only, is_retryable_status, or_then,
  retryable_transient_status, is_transient_overload_error, is_retryable_provider_error,
  underlying_provider_error,
}
use agentic_model_gateway.Failures.Classify.{
  internal_server_failure, server_failure, by_api_status, by_transient_status, api_failure,
  http_status_failure, classify, failure_of, classify_provider_failure,
}

-- An exception whose status is that of its class: the SDK raises an InternalServerError for the
-- statuses from 500.
abbrev pub IsConsistent : ProviderError → Type 0
IsConsistent (sdk_error internal_server_error facts) =
    (status : ℕ) × (facts.status_code ≡ some status) × (500 ≤ status) × (status ≤ 599)
IsConsistent e = Unit

overloaded_marked :
    (facts : Facts)
    → has_marker facts.text overload_markers ≡ true
    → is_none (inferred_status facts) ≡ false
unfolding inferred_status marked_status
overloaded_marked facts h = ground (arith, h)

internal_server_failure-retryable :
    (facts : Facts)
    → IsConsistent (sdk_error internal_server_error facts)
    → (internal_server_failure facts).retryable
      ≡ is_retryable_provider_error (sdk_error internal_server_error facts)
unfolding internal_server_failure server_failure is_transient_overload_error
    is_retryable_provider_error retryable_transient_status inferred_status is_retryable_status
internal_server_failure-retryable facts (status, e, low, high) = ground (arith, e, low, high)

retryable_only-status :
    (o : Option ℕ) (status : ℕ) → retryable_only o ≡ some status → is_retryable_status status ≡ true
unfolding is_retryable_status
retryable_only-status none status e = ground (arith, e)
retryable_only-status (some other) status e = ground (arith, e)

marked_status-status :
    (s : Text) (status : ℕ) → marked_status s ≡ some status → is_retryable_status status ≡ true
unfolding marked_status is_retryable_status
marked_status-status s status e =
    by_marks (has_marker s rate_limit_markers) (has_marker s overload_markers)
      (has_marker s internal_error_markers) e
  where
    by_marks :
        (a b c : Bool)
        → (if a then some 429 else if b then some 503 else if c then some 500 else none)
          ≡ some status
        → is_retryable_status status ≡ true
    by_marks a b c h = ground (arith, h)

-- Every status that is inferred is one that may be tried again.
inferred_status-status :
    (facts : Facts) (status : ℕ)
    → inferred_status facts ≡ some status
    → is_retryable_status status ≡ true
unfolding inferred_status
inferred_status-status facts status =
    first_of (retryable_only facts.status_code) (retryable_only (status_from_body facts.body))
      (marked_status facts.text) (retryable_only-status facts.status_code status)
      (retryable_only-status (status_from_body facts.body) status)
      (marked_status-status facts.text status)
  where
    first_of :
        {P : Type 0} (a b c : Option ℕ)
        → (a ≡ some status → P)
        → (b ≡ some status → P)
        → (c ≡ some status → P)
        → or_then a (or_then b c) ≡ some status
        → P
    first_of (some x) b c f g h e = f e
    first_of none (some x) c f g h e = g e
    first_of none none c f g h e = h e

by_transient_status-retryable :
    (o : Option ℕ) (is_overload : Bool) (status : Option ℕ)
    → ((s : ℕ) → o ≡ some s → is_retryable_status s ≡ true)
    → (is_overload ≡ true → is_none o ≡ false)
    → (by_transient_status o is_overload status (not (is_none o))).retryable ≡ not (is_none o)
unfolding by_transient_status by_api_status is_retryable_status
by_transient_status-retryable none is_overload none valid marked = ground (arith, marked)
by_transient_status-retryable none is_overload (some s) valid marked = ground (arith, marked)
by_transient_status-retryable (some s) is_overload status valid marked =
    let ok = valid s refl in ground (arith, ok)

api_failure-retryable :
    (facts : Facts)
    → (api_failure facts).retryable ≡ is_retryable_provider_error (sdk_error api_error facts)
unfolding api_failure is_transient_overload_error is_retryable_provider_error
    retryable_transient_status
api_failure-retryable facts =
    by_transient_status-retryable (inferred_status facts) (has_marker facts.text overload_markers)
      facts.status_code (inferred_status-status facts) (overloaded_marked facts)

classify-retryable :
    (t : Option ℕ) (e : ProviderError)
    → IsConsistent e
    → (classify t e).retryable ≡ is_retryable_provider_error e
unfolding classify is_retryable_provider_error retryable_transient_status http_status_failure
classify-retryable t (execution_failure f) c = refl
classify-retryable t (recovery_exhausted last_error) c = refl
classify-retryable t (sdk_error authentication_error facts) c = refl
classify-retryable t (sdk_error permission_denied_error facts) c = refl
classify-retryable t (sdk_error rate_limit_error facts) c = refl
classify-retryable t (sdk_error bad_request_error facts) c = refl
classify-retryable t (sdk_error api_timeout_error facts) c = refl
classify-retryable t (sdk_error api_connection_error facts) c = refl
classify-retryable t (sdk_error internal_server_error facts) c =
    internal_server_failure-retryable facts c
classify-retryable t (sdk_error api_error facts) c = api_failure-retryable facts
classify-retryable t (http_status_error status facts) c = ground arith
classify-retryable t (transport_error e facts) c = refl
classify-retryable t (protocol_error facts) c = refl
classify-retryable t (timeout_error facts) c = refl
classify-retryable t (other_error facts) c = refl

by_transient_status-status :
    (o : Option ℕ) (is_overload : Bool) (status : Option ℕ)
    → ((s : ℕ) → o ≡ some s → is_retryable_status s ≡ true)
    → (is_overload ≡ true → is_none o ≡ false)
    → (by_transient_status o is_overload status (not (is_none o))).retryable ≡ true
    → is_retryable_status (by_transient_status o is_overload status (not (is_none o))).status_code
      ≡ true
unfolding by_transient_status by_api_status is_retryable_status
by_transient_status-status none is_overload none valid marked r = ground (arith, marked, r)
by_transient_status-status none is_overload (some s) valid marked r = ground (arith, marked, r)
by_transient_status-status (some s) is_overload status valid marked r =
    let ok = valid s refl in ground (arith, ok, r)

api_failure-status :
    (facts : Facts)
    → (api_failure facts).retryable ≡ true
    → is_retryable_status (api_failure facts).status_code ≡ true
unfolding api_failure is_transient_overload_error is_retryable_provider_error
    retryable_transient_status
api_failure-status facts =
    by_transient_status-status (inferred_status facts) (has_marker facts.text overload_markers)
      facts.status_code (inferred_status-status facts) (overloaded_marked facts)

server_failure-status : (o : Option ℕ) → is_retryable_status (server_failure o).status_code ≡ true
unfolding server_failure is_retryable_status
server_failure-status none = refl
server_failure-status (some status) = ground arith

internal_server_failure-status :
    (facts : Facts) → is_retryable_status (internal_server_failure facts).status_code ≡ true
unfolding internal_server_failure is_retryable_status
internal_server_failure-status facts =
    let e = sdk_error internal_server_error facts in
    either (λ (f : ExecutionFailure). is_retryable_status f.status_code ≡ true)
      (is_transient_overload_error e) (λ h. refl)
      (λ h. server_failure-status (or_then (retryable_transient_status e) facts.status_code))

-- Whether an exception is a failure already.
abbrev pub is_final : ProviderError → Bool
is_final (execution_failure f) = true
is_final e = false

failure_of-plain : (t : Option ℕ) (e : ProviderError) → failure_of (λ x. none) t e ≡ classify t e
unfolding failure_of classify
failure_of-plain t (execution_failure f) = refl
failure_of-plain t (recovery_exhausted last_error) = refl
failure_of-plain t (protocol_error facts) = refl
failure_of-plain t (timeout_error facts) = refl
failure_of-plain t (other_error facts) = refl
failure_of-plain t (sdk_error x facts) = refl
failure_of-plain t (http_status_error status facts) = refl
failure_of-plain t (transport_error x facts) = refl

-- A failure of a provider that no caller overrides is classified as retryable just where
-- is_retryable_provider_error holds of what is left of it once the wrappers of exhausted recoveries are
-- taken off. Where that is an InternalServerError, it carries a status from 500 to 599.
pub classified_as_retried :
    (t : Option ℕ) (e : ProviderError)
    → IsConsistent (underlying_provider_error e)
    → (classify_provider_failure (λ x. none) t e).retryable
      ≡ is_retryable_provider_error (underlying_provider_error e)
unfolding classify_provider_failure
classified_as_retried t e c =
    ap (λ f. f.retryable) (failure_of-plain t (underlying_provider_error e))
    ∙ classify-retryable t (underlying_provider_error e) c

-- Unless it is an ExecutionFailure already, a failure that is reported as retryable has the status 429
-- or one from 500 to 599.
pub retryable_failure_status :
    (t : Option ℕ) (e : ProviderError)
    → (classify t e).retryable ≡ true
    → is_final e ≡ false
    → is_retryable_status (classify t e).status_code ≡ true
unfolding classify is_retryable_provider_error retryable_transient_status http_status_failure
    is_retryable_status
retryable_failure_status t (execution_failure x) r f = ground (arith, f)
retryable_failure_status t (recovery_exhausted x) r f = ground (arith, r)
retryable_failure_status t (sdk_error authentication_error facts) r f = ground (arith, r)
retryable_failure_status t (sdk_error permission_denied_error facts) r f = ground (arith, r)
retryable_failure_status t (sdk_error rate_limit_error facts) r f = ground (arith, r)
retryable_failure_status t (sdk_error bad_request_error facts) r f = ground (arith, r)
retryable_failure_status t (sdk_error api_timeout_error facts) r f = ground (arith, r)
retryable_failure_status t (sdk_error api_connection_error facts) r f = ground (arith, r)
retryable_failure_status t (sdk_error internal_server_error facts) r f =
    internal_server_failure-status facts
retryable_failure_status t (sdk_error api_error facts) r f = api_failure-status facts r
retryable_failure_status t (http_status_error status facts) r f = ground (arith, r)
retryable_failure_status t (transport_error x facts) r f = ground arith
retryable_failure_status t (protocol_error facts) r f = refl
retryable_failure_status t (timeout_error facts) r f = refl
retryable_failure_status t (other_error facts) r f = refl
