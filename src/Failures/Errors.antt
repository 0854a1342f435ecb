-- ===== src/Failures/Errors.antt =====
-- core/failures.py, and the exceptions that providers/failure_policy.py tells apart. A class of a library
-- stands for the exceptions whose innermost tested class it is: httpx's ConnectError, ReadError and
-- WriteError are NetworkErrors, its ReadTimeout and ConnectTimeout are TimeoutExceptions, and openai's
-- APITimeoutError is an APIConnectionError, as all of its classes here are APIErrors.
use agentic_model_gateway.Base.{ℕ, Bool, Option}
use agentic_model_gateway.Stream.Text.{Text}

pub data FailureKind : Type 0 where
  invalid_request context_window_exceeded authentication permission rate_limit overloaded :
      FailureKind
  timeout upstream unavailable : FailureKind

-- The wordings of a failure, and those that come from elsewhere.
pub data Message : Type 0 where
  authentication_message permission_message rate_limit_message invalid_request_message : Message
  overloaded_message temporarily_unavailable request_failed could_not_connect : Message
  connection_interrupted provider_timed_out request_timed_out : Message
  timed_out_after : (seconds : ℕ) → Message
  other_message : Text → Message

pub record ExecutionFailure : Type 0 where
  pub kind : FailureKind
  pub status_code : ℕ
  pub message : Message
  pub retryable : Bool

-- A value of a JSON object. A text comes with what `lower` makes of it.
pub data Value : Type 0 where
  int_value : ℕ → Value
  text_value : (value lowered : Text) → Value
  other_value : Value

pub record Item : Type 0 where
  pub status : Value
  pub status_code : Value
  pub code : Value
  pub type : Value

-- The `body` of an exception behind `json.loads`: a mapping with the mapping under `error`, if it has one.
pub data Body : Type 0 where
  mapping : Item → (error : Option Item) → Body
  opaque : Body

-- What else is asked of an exception: its status, its body, and its text with those of its body and its
-- response in lower case. `wording` is what `safe_exception_message` says.
pub record Facts : Type 0 where
  pub status_code : Option ℕ
  pub body : Body
  pub text : Text
  pub wording : Text

pub data SdkError : Type 0 where
  authentication_error permission_denied_error rate_limit_error bad_request_error : SdkError
  api_timeout_error api_connection_error internal_server_error api_error : SdkError

pub data TransportError : Type 0 where
  read_timeout connect_timeout other_timeout connect_error read_error write_error : TransportError
  network_error remote_protocol_error : TransportError

pub data ProviderError : Type 0 where
  execution_failure : ExecutionFailure → ProviderError
  recovery_exhausted : (last_error : ProviderError) → ProviderError
  protocol_error timeout_error other_error : Facts → ProviderError
  sdk_error : SdkError → Facts → ProviderError
  http_status_error : (status : ℕ) → Facts → ProviderError
  transport_error : TransportError → Facts → ProviderError
