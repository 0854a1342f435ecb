-- ===== src/Failures/Status.antt =====
-- providers/failure_policy.py: the status that a failure reports, and whether it may be tried again.
use agentic_model_gateway.Base.{
  ℕ, ◌+◌, ◌-◌, ◌*◌, Bool, true, false, not, ◌&&◌, ◌||◌, Option, none, some, List, [], ◌∷◌, ◌++◌,
  leb, ◌==◌, if◌then◌else◌, is_none,
}
use agentic_model_gateway.Stream.Text.{Text}
use agentic_model_gateway.Think.Find.{find}
use agentic_model_gateway.Failures.Errors.{
  FailureKind, overloaded, Value, int_value, text_value, other_value, Item, Body, mapping, opaque,
  Facts, authentication_error, permission_denied_error, rate_limit_error, bad_request_error,
  api_timeout_error, api_connection_error, ProviderError, execution_failure, recovery_exhausted,
  protocol_error, timeout_error, other_error, sdk_error, http_status_error, transport_error,
}

-- `rate_limit`, `rate limit`, `too many requests`
abbrev pub rate_limit_markers : List Text
rate_limit_markers =
    (114 ∷ 97 ∷ 116 ∷ 101 ∷ 95 ∷ 108 ∷ 105 ∷ 109 ∷ 105 ∷ 116 ∷ [])
    ∷ (114 ∷ 97 ∷ 116 ∷ 101 ∷ 32 ∷ 108 ∷ 105 ∷ 109 ∷ 105 ∷ 116 ∷ [])
    ∷ (116 ∷ 111 ∷ 111 ∷ 32 ∷ 109 ∷ 97 ∷ 110 ∷ 121 ∷ 32 ∷ 114 ∷ 101 ∷ 113 ∷ 117 ∷ 101 ∷ 115 ∷ 116
        ∷ 115 ∷ [])
    ∷ []

-- `resourceexhausted`, `resource exhausted`, `limit reached`, `overloaded`, `capacity`
abbrev pub overload_markers : List Text
overload_markers =
    (114 ∷ 101 ∷ 115 ∷ 111 ∷ 117 ∷ 114 ∷ 99 ∷ 101 ∷ 101 ∷ 120 ∷ 104 ∷ 97 ∷ 117 ∷ 115 ∷ 116 ∷ 101
      ∷ 100 ∷ [])
    ∷ (114 ∷ 101 ∷ 115 ∷ 111 ∷ 117 ∷ 114 ∷ 99 ∷ 101 ∷ 32 ∷ 101 ∷ 120 ∷ 104 ∷ 97 ∷ 117 ∷ 115 ∷ 116
        ∷ 101 ∷ 100 ∷ [])
    ∷ (108 ∷ 105 ∷ 109 ∷ 105 ∷ 116 ∷ 32 ∷ 114 ∷ 101 ∷ 97 ∷ 99 ∷ 104 ∷ 101 ∷ 100 ∷ [])
    ∷ (111 ∷ 118 ∷ 101 ∷ 114 ∷ 108 ∷ 111 ∷ 97 ∷ 100 ∷ 101 ∷ 100 ∷ [])
    ∷ (99 ∷ 97 ∷ 112 ∷ 97 ∷ 99 ∷ 105 ∷ 116 ∷ 121 ∷ [])
    ∷ []

-- `internal_server_error`, `internal server error`
abbrev pub internal_error_markers : List Text
internal_error_markers =
    (105 ∷ 110 ∷ 116 ∷ 101 ∷ 114 ∷ 110 ∷ 97 ∷ 108 ∷ 95 ∷ 115 ∷ 101 ∷ 114 ∷ 118 ∷ 101 ∷ 114 ∷ 95
      ∷ 101 ∷ 114 ∷ 114 ∷ 111 ∷ 114 ∷ [])
    ∷ (105 ∷ 110 ∷ 116 ∷ 101 ∷ 114 ∷ 110 ∷ 97 ∷ 108 ∷ 32 ∷ 115 ∷ 101 ∷ 114 ∷ 118 ∷ 101 ∷ 114 ∷ 32
        ∷ 101 ∷ 114 ∷ 114 ∷ 111 ∷ 114 ∷ [])
    ∷ []

unfoldable pub has_marker : Text → List Text → Bool
unfolding find
has_marker s [] = false
has_marker s (marker ∷ markers) = not (is_none (find marker s)) || has_marker s markers

unfoldable pub is_retryable_status : ℕ → Bool
is_retryable_status status = status == 429 || leb 500 status && leb status 599

abbrev pub retryable_only : Option ℕ → Option ℕ
unfolding is_retryable_status
retryable_only none = none
retryable_only (some status) = if is_retryable_status status then some status else none

-- The first of two results.
abbrev pub or_then : Option ℕ → Option ℕ → Option ℕ
or_then none other = other
or_then (some status) other = some status

-- The markers of a text, as a status.
unfoldable pub marked_status : Text → Option ℕ
unfolding has_marker
marked_status s =
    if has_marker s rate_limit_markers
    then some 429
    else if has_marker s overload_markers
    then some 503
    else if has_marker s internal_error_markers
    then some 500
    else none

-- `int` of a text that `isdigit`, with the digits of ASCII.
unfoldable pub read_digits : (value : ℕ) → Text → Option ℕ
read_digits value [] = some value
read_digits value (c ∷ s) =
    let rest = read_digits (10 * value + (c - 48)) s in if leb 48 c && leb c 57 then rest else none

unfoldable pub coerce_status : Value → Option ℕ
unfolding read_digits
coerce_status (int_value n) = some n
coerce_status (text_value [] lowered) = none
coerce_status (text_value (c ∷ s) lowered) = read_digits 0 (c ∷ s)
coerce_status other_value = none

-- `" ".join(values)` of the texts under `type` and `code`.
abbrev pub joined_fields : Value → Value → Text
joined_fields (text_value t type) (text_value c code) = type ++ 32 ∷ code
joined_fields (text_value t type) code = type
joined_fields type (text_value c code) = code
joined_fields type code = []

unfoldable pub status_from_type_fields : Item → Option ℕ
unfolding marked_status
status_from_type_fields item = marked_status (joined_fields item.type item.code)

unfoldable pub status_from_item : Item → Option ℕ
unfolding coerce_status status_from_type_fields
status_from_item item = or_then (coerce_status item.status) (
    or_then (coerce_status item.status_code)
      (or_then (coerce_status item.code) (status_from_type_fields item)))

unfoldable pub status_from_body : Body → Option ℕ
unfolding status_from_item
status_from_body (mapping item none) = status_from_item item
status_from_body (mapping item (some error)) =
    or_then (status_from_item item) (status_from_item error)
status_from_body opaque = none

-- The status of an exception without a class of its own.
unfoldable pub inferred_status : Facts → Option ℕ
unfolding status_from_body marked_status
inferred_status facts =
    or_then (retryable_only facts.status_code)
      (or_then (retryable_only (status_from_body facts.body)) (marked_status facts.text))

unfoldable pub retryable_transient_status : ProviderError → Option ℕ
unfolding inferred_status
retryable_transient_status (execution_failure f) =
    if f.retryable then retryable_only (some f.status_code) else none
retryable_transient_status (recovery_exhausted last_error) = none
retryable_transient_status (sdk_error rate_limit_error facts) = some 429
retryable_transient_status (sdk_error e facts) = inferred_status facts
retryable_transient_status (http_status_error status facts) = retryable_only (some status)
retryable_transient_status (transport_error e facts) = inferred_status facts
retryable_transient_status (protocol_error facts) = inferred_status facts
retryable_transient_status (timeout_error facts) = inferred_status facts
retryable_transient_status (other_error facts) = inferred_status facts

abbrev pub is_overloaded : FailureKind → Bool
is_overloaded overloaded = true
is_overloaded kind = false

unfoldable pub is_transient_overload_error : ProviderError → Bool
unfolding has_marker
is_transient_overload_error (execution_failure f) = is_overloaded f.kind
is_transient_overload_error (recovery_exhausted last_error) = false
is_transient_overload_error (sdk_error e facts) = has_marker facts.text overload_markers
is_transient_overload_error (http_status_error status facts) =
    has_marker facts.text overload_markers
is_transient_overload_error (transport_error e facts) = has_marker facts.text overload_markers
is_transient_overload_error (protocol_error facts) = has_marker facts.text overload_markers
is_transient_overload_error (timeout_error facts) = has_marker facts.text overload_markers
is_transient_overload_error (other_error facts) = has_marker facts.text overload_markers

unfoldable pub is_retryable_provider_error : ProviderError → Bool
unfolding retryable_transient_status
is_retryable_provider_error (execution_failure f) = f.retryable
is_retryable_provider_error (recovery_exhausted last_error) = false
is_retryable_provider_error (sdk_error authentication_error facts) = false
is_retryable_provider_error (sdk_error permission_denied_error facts) = false
is_retryable_provider_error (sdk_error bad_request_error facts) = false
is_retryable_provider_error (sdk_error api_timeout_error facts) = true
is_retryable_provider_error (sdk_error api_connection_error facts) = true
is_retryable_provider_error (transport_error e facts) = true
is_retryable_provider_error (protocol_error facts) = true
is_retryable_provider_error (timeout_error facts) = true
is_retryable_provider_error e = not (is_none (retryable_transient_status e))

-- `underlying_provider_error`
unfoldable pub underlying_provider_error : ProviderError → ProviderError
underlying_provider_error (recovery_exhausted last_error) = underlying_provider_error last_error
underlying_provider_error e = e
