-- ===== src/Failures/Classify.antt =====
-- providers/failure_policy.py: the canonical failure of a provider's exception. The read timeout, where
-- one is configured, is given in seconds. The final wording, with the upstream's detail and the request's
-- id, is left to core/diagnostics.py.
use agentic_model_gateway.Base.{
  ℕ, Bool, true, false, ◌&&◌, ◌||◌, Option, none, some, leb, ◌==◌, if◌then◌else◌,
}
use agentic_model_gateway.Failures.Errors.{
  FailureKind, invalid_request, authentication, permission, rate_limit, overloaded, timeout,
  upstream, unavailable, context_window_exceeded, Message, authentication_message,
  permission_message, rate_limit_message, invalid_request_message, overloaded_message,
  temporarily_unavailable, request_failed, could_not_connect, connection_interrupted,
  provider_timed_out, request_timed_out, timed_out_after, other_message, ExecutionFailure, Facts,
  authentication_error, permission_denied_error, rate_limit_error, bad_request_error,
  api_timeout_error, api_connection_error, internal_server_error, api_error, TransportError,
  read_timeout, connect_timeout, other_timeout, connect_error, remote_protocol_error, ProviderError,
  execution_failure, recovery_exhausted, protocol_error, timeout_error, other_error, sdk_error,
  http_status_error, transport_error,
}
use agentic_model_gateway.Failures.Status.{
  is_retryable_status, or_then, retryable_transient_status, is_transient_overload_error,
  is_retryable_provider_error, underlying_provider_error,
}

abbrev pub failure : FailureKind → ℕ → Message → Bool → ExecutionFailure
failure kind status_code message retryable = record {
  kind = kind;
  status_code = status_code;
  message = message;
  retryable = retryable;
}

abbrev pub overloaded_provider_failure : ExecutionFailure
overloaded_provider_failure = failure overloaded 529 overloaded_message true

abbrev pub context_window_exceeded_provider_failure : Message → ExecutionFailure
context_window_exceeded_provider_failure message = failure context_window_exceeded 400 message false

abbrev pub is_bad_gateway : ℕ → Bool
is_bad_gateway status = status == 502 || (status == 503 || status == 504)

abbrev pub stable_upstream : ℕ → Message
stable_upstream status = if is_bad_gateway status then temporarily_unavailable else request_failed

abbrev pub timed_out : Option ℕ → Message → Message
timed_out none message = message
timed_out (some seconds) message = timed_out_after seconds

unfoldable pub provider_error_message : (read_timeout_s : Option ℕ) → ProviderError → Message
provider_error_message t (execution_failure f) = f.message
provider_error_message t (recovery_exhausted last_error) = provider_error_message t last_error
provider_error_message t (transport_error read_timeout facts) = timed_out t provider_timed_out
provider_error_message t (transport_error connect_timeout facts) = could_not_connect
provider_error_message t (transport_error connect_error facts) = could_not_connect
provider_error_message t (transport_error remote_protocol_error facts) = connection_interrupted
provider_error_message t (timeout_error facts) = timed_out t request_timed_out
provider_error_message t (sdk_error rate_limit_error facts) = rate_limit_message
provider_error_message t (sdk_error authentication_error facts) = authentication_message
provider_error_message t (sdk_error permission_denied_error facts) = permission_message
provider_error_message t (sdk_error bad_request_error facts) = invalid_request_message
provider_error_message t (transport_error e facts) = other_message facts.wording
provider_error_message t (sdk_error e facts) = other_message facts.wording
provider_error_message t (http_status_error status facts) = other_message facts.wording
provider_error_message t (protocol_error facts) = other_message facts.wording
provider_error_message t (other_error facts) = other_message facts.wording

abbrev pub or_500 : Option ℕ → ℕ
or_500 none = 500
or_500 (some status) = status

-- A status of the server's errors is kept, and any other is 500.
unfoldable pub server_failure : Option ℕ → ExecutionFailure
server_failure none = failure upstream 500 (stable_upstream 500) true
server_failure (some status) =
    if leb 500 status && leb status 599
    then failure upstream status (stable_upstream status) true
    else failure upstream 500 (stable_upstream 500) true

unfoldable pub internal_server_failure : Facts → ExecutionFailure
unfolding retryable_transient_status is_transient_overload_error server_failure
internal_server_failure facts =
    let e = sdk_error internal_server_error facts in
    if is_transient_overload_error e
    then overloaded_provider_failure
    else server_failure (or_then (retryable_transient_status e) facts.status_code)

unfoldable pub by_api_status : (status : ℕ) → (retryable : Bool) → ExecutionFailure
by_api_status status retryable =
    if status == 401
    then failure authentication 401 authentication_message false
    else if status == 403
    then failure permission 403 permission_message false
    else failure upstream status (stable_upstream status) retryable

abbrev pub is_429 : Option ℕ → Bool
is_429 none = false
is_429 (some status) = status == 429

unfoldable pub by_transient_status :
    (transient : Option ℕ)
    → (is_overload : Bool) → (status : Option ℕ) → (retryable : Bool) → ExecutionFailure
unfolding by_api_status
by_transient_status transient is_overload status retryable =
    if is_429 transient
    then failure rate_limit 429 rate_limit_message true
    else if is_overload
    then overloaded_provider_failure
    else by_api_status (or_500 (or_then transient status)) retryable

unfoldable pub api_failure : Facts → ExecutionFailure
unfolding retryable_transient_status is_transient_overload_error is_retryable_provider_error
    by_transient_status
api_failure facts =
    let e = sdk_error api_error facts in
    by_transient_status (retryable_transient_status e) (is_transient_overload_error e)
      facts.status_code (is_retryable_provider_error e)

unfoldable pub http_status_failure : ℕ → ExecutionFailure
unfolding is_retryable_status
http_status_failure status =
    if status == 401
    then failure authentication 401 authentication_message false
    else if status == 403
    then failure permission 403 permission_message false
    else if status == 429
    then failure rate_limit 429 rate_limit_message true
    else if status == 400
    then failure invalid_request 400 invalid_request_message false
    else if is_bad_gateway status
    then overloaded_provider_failure
    else failure upstream status (stable_upstream status) (is_retryable_status status)

abbrev pub transport_kind : TransportError → FailureKind
transport_kind read_timeout = timeout
transport_kind connect_timeout = timeout
transport_kind other_timeout = timeout
transport_kind remote_protocol_error = upstream
transport_kind e = unavailable

-- `_classify_provider_failure`; its exception is no exhausted recovery.
unfoldable pub classify : (read_timeout_s : Option ℕ) → ProviderError → ExecutionFailure
unfolding provider_error_message internal_server_failure api_failure http_status_failure
    is_retryable_provider_error
classify t (execution_failure f) = f
classify t (sdk_error authentication_error facts) =
    failure authentication 401 authentication_message false
classify t (sdk_error permission_denied_error facts) =
    failure permission 403 permission_message false
classify t (sdk_error rate_limit_error facts) = failure rate_limit 429 rate_limit_message true
classify t (sdk_error bad_request_error facts) =
    failure invalid_request 400 invalid_request_message false
classify t (sdk_error api_timeout_error facts) = failure timeout 500 (stable_upstream 500) true
classify t (sdk_error api_connection_error facts) =
    failure unavailable 500 (stable_upstream 500) true
classify t (sdk_error internal_server_error facts) = internal_server_failure facts
classify t (sdk_error api_error facts) = api_failure facts
classify t (http_status_error status facts) = http_status_failure status
classify t (timeout_error facts) =
    failure timeout 502 (provider_error_message t (timeout_error facts))
      (is_retryable_provider_error (timeout_error facts))
classify t (transport_error e facts) =
    failure (transport_kind e) 502 (provider_error_message t (transport_error e facts))
      (is_retryable_provider_error (transport_error e facts))
classify t e = failure upstream 502 (provider_error_message t e) (is_retryable_provider_error e)

abbrev pub chosen : Option ExecutionFailure → ExecutionFailure → ExecutionFailure
chosen none classified = classified
chosen (some overriding) classified = overriding

-- An ExecutionFailure stands as it is; any other may be overridden.
unfoldable pub failure_of :
    (override : ProviderError → Option ExecutionFailure)
    → Option ℕ
    → ProviderError
    → ExecutionFailure
unfolding classify
failure_of override t (execution_failure f) = f
failure_of override t e = chosen (override e) (classify t e)

-- `classify_provider_failure`, but for the wording.
unfoldable pub classify_provider_failure :
    (override : ProviderError → Option ExecutionFailure)
    → Option ℕ
    → ProviderError
    → ExecutionFailure
unfolding underlying_provider_error failure_of
classify_provider_failure override t e = failure_of override t (underlying_provider_error e)
