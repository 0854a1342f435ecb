-- ===== src/Recovery/Tests.antt =====
-- The recovery controller's theorems at short streams, whose events are numbers of that many bytes.
use agentic_model_gateway.Base.{
  total, some, ◌⊎◌, ℕ, ◌<◌, ◌≡◌, refl, true, false, none, List, [], ◌∷◌, arith,
}
use agentic_model_gateway.Recovery.Holdback.{Holdback, Limits, push}
use agentic_model_gateway.Recovery.Controller.{
  midstream_recovery, early_retry, midstream_recovery, StreamError, Failure, is_retryable,
  advance_failure,
}
use agentic_model_gateway.Recovery.Delivery.{new_stage, Op, pushes, flushes, fails, perform, run}
use agentic_model_gateway.Recovery.Invisible.{
  early_retry_invisible, held_bytes_bounded, generated_output_recovered,
}
use agentic_model_gateway.Recovery.Order.{delivered_in_order, pushed, all_keep}

abbrev limits : Limits
limits = record { holdback_ticks = 10; max_bytes = 100 }

abbrev size : ℕ → ℕ
size n = n

abbrev cut_off : StreamError
cut_off = record {
  is_protocol_error = true;
  execution_failure = none;
  is_refused = false;
  transient_status = none;
  is_broken_transport = false;
}

abbrev failure : ℕ → Failure
failure attempts = record {
  error = cut_off;
  stream_opened = true;
  generated_output = true;
  complete_tool_salvageable = false;
  attempts_remaining = attempts;
  retryable_override = none;
}

abbrev held_back : List (Op ℕ)
held_back = pushes 20 0 1 ∷ pushes 30 2 2 ∷ []

held_back-retried :
    (advance_failure (failure 2) (run limits size held_back new_stage).holdback).0.action
    ≡ early_retry
unfolding run perform push advance_failure is_retryable
held_back-retried = refl

early_retry_invisible_example :
    ((run limits size held_back new_stage).sent ≡ [])
    × (perform limits size (fails (failure 2)) (run limits size held_back new_stage) ≡ new_stage)
early_retry_invisible_example =
    early_retry_invisible limits size (omega arith) held_back (failure 2) held_back-retried

held_bytes_bounded_example : total size (run limits size held_back new_stage).holdback.events < 100
held_bytes_bounded_example = held_bytes_bounded limits size (omega arith) held_back

-- The third event commits the stream, and the failure has no attempt left.
abbrev long_stream : List (Op ℕ)
long_stream =
    pushes 20 0 1 ∷ pushes 30 2 2 ∷ pushes 60 3 3 ∷ fails (failure 0) ∷ pushes 5 4 4 ∷ flushes ∷ []

long_stream-kept : all_keep long_stream ≡ true
unfolding all_keep
long_stream-kept = refl

delivered_in_order_example :
    (perform limits size flushes (run limits size long_stream new_stage)).sent
    ≡ 20 ∷ 30 ∷ 60 ∷ 5 ∷ []
unfolding pushed
delivered_in_order_example =
    delivered_in_order limits size (omega arith) long_stream long_stream-kept

abbrev held_stage : Holdback ℕ
held_stage = record { events = 20 ∷ []; bytes = 20; started_at = some 0; committed = false }

retryable : is_retryable (failure 1) ≡ true
unfolding is_retryable
retryable = refl

generated_output_recovered_example :
    (((advance_failure (failure 1) held_stage).0.action ≡ early_retry) × (false ≡ false) × (1 < 1))
    ⊎ (((advance_failure (failure 1) held_stage).0.action ≡ midstream_recovery)
        × ((advance_failure (failure 1) held_stage).1 ≡ held_stage))
generated_output_recovered_example =
    generated_output_recovered (failure 1) held_stage retryable refl refl
