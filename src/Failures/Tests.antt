-- ===== src/Failures/Tests.antt =====
-- The classification's theorems at an overloaded provider.
use agentic_model_gateway.Base.{◌≡◌, refl, true, none, some, [], ◌∷◌, arith}
use agentic_model_gateway.Failures.Errors.{
  Facts, opaque, internal_server_error, ProviderError, recovery_exhausted, sdk_error,
}
use agentic_model_gateway.Failures.Status.{
  is_retryable_status, is_retryable_provider_error, underlying_provider_error,
}
use agentic_model_gateway.Failures.Classify.{classify, classify_provider_failure}
use agentic_model_gateway.Failures.Laws.{classified_as_retried, retryable_failure_status}

-- A text that says `capacity`, behind a status of 500.
abbrev facts : Facts
facts = record {
  status_code = some 500;
  body = opaque;
  text = 97 ∷ 116 ∷ 32 ∷ 99 ∷ 97 ∷ 112 ∷ 97 ∷ 99 ∷ 105 ∷ 116 ∷ 121 ∷ [];
  wording = [];
}

abbrev error : ProviderError
error = sdk_error internal_server_error facts

is_overload : (classify none error).status_code ≡ 529
unfolding classify
is_overload = refl

reported : (classify none error).retryable ≡ true
unfolding classify
reported = refl

classified_as_retried_example :
    (classify_provider_failure (λ x. none) none (recovery_exhausted error)).retryable
    ≡ is_retryable_provider_error (underlying_provider_error (recovery_exhausted error))
unfolding underlying_provider_error
classified_as_retried_example =
    classified_as_retried none (recovery_exhausted error) (500, refl, omega arith, omega arith)

retryable_failure_status_example : is_retryable_status (classify none error).status_code ≡ true
retryable_failure_status_example = retryable_failure_status none error reported refl
