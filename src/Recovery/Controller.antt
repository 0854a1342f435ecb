-- ===== src/Recovery/Controller.antt =====
-- providers/stream_recovery.py: class RecoveryController and `is_retryable_stream_error`.
use agentic_model_gateway.Base.{
  ℕ, Bool, true, false, not, ◌&&◌, ◌||◌, Option, none, some, List, [], ltb, ◌==◌, if◌then◌else◌,
}
use agentic_model_gateway.Recovery.Holdback.{Holdback, new_holdback, flush, discard, has_buffered}

pub data RecoveryFailureAction : Type 0 where
  early_retry midstream_recovery final_error : RecoveryFailureAction

pub record RecoveryDecision : Type 0 where
  pub action : RecoveryFailureAction
  pub retryable : Bool
  pub committed : Bool
  pub has_buffered : Bool

-- What the code asks of an exception: its classes, the `retryable` of an ExecutionFailure, and the
-- answer of `retryable_transient_status`.
pub record StreamError : Type 0 where
  pub is_protocol_error : Bool
  pub execution_failure : Option Bool
  pub is_refused : Bool
  pub transient_status : Option ℕ
  pub is_broken_transport : Bool

abbrev pub has_status : Option ℕ → Bool
has_status none = false
has_status (some status) = true

unfoldable pub is_retryable_stream_error : StreamError → Bool
is_retryable_stream_error e = if e.is_protocol_error then true else elim e.execution_failure [
  | some retryable ↦ retryable
  | none ↦
      if e.is_refused
      then false
      else if has_status e.transient_status
      then true
      else e.is_broken_transport
]

-- The arguments of `advance_failure`.
pub record Failure : Type 0 where
  pub error : StreamError
  pub stream_opened : Bool
  pub generated_output : Bool
  pub complete_tool_salvageable : Bool
  pub attempts_remaining : ℕ
  pub retryable_override : Option Bool

unfoldable pub is_retryable : Failure → Bool
unfolding is_retryable_stream_error
is_retryable f = elim f.retryable_override [
  | none ↦ is_retryable_stream_error f.error
  | some retryable ↦ retryable
]

abbrev pub retry_available : Failure → Bool
retry_available f = ltb 0 f.attempts_remaining

abbrev pub reserve_last_attempt_for_recovery : Failure → Bool
reserve_last_attempt_for_recovery f = f.generated_output && f.attempts_remaining == 1

module _ {E : Type 0} where
  -- An early retry drops what is held and goes on with a new buffer.
  unfoldable pub advance_failure : Failure → Holdback E → RecoveryDecision × Holdback E
  unfolding is_retryable discard
  advance_failure f b =
      if is_retryable f
        && (retry_available f
            && (f.stream_opened
                && (not b.committed
                    && (not f.complete_tool_salvageable
                        && not (reserve_last_attempt_for_recovery f)))))
      then (
        record {
          action = early_retry;
          retryable = true;
          committed = false;
          has_buffered = has_buffered b;
        },
        new_holdback,
      )
      else if is_retryable f
          && (f.generated_output && (retry_available f || f.complete_tool_salvageable))
      then (
        record {
          action = midstream_recovery;
          retryable = true;
          committed = b.committed;
          has_buffered = has_buffered b;
        },
        b,
      )
      else (
        record {
          action = final_error;
          retryable = is_retryable f;
          committed = b.committed;
          has_buffered = has_buffered b;
        },
        b,
      )

  unfoldable pub flush_uncommitted : RecoveryDecision → Holdback E → List E × Holdback E
  unfolding flush
  flush_uncommitted decision b =
      if not decision.committed && decision.has_buffered then flush b else ([], b)
