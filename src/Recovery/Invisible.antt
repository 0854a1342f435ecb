-- ===== src/Recovery/Invisible.antt =====
-- What the client sees of a failed attempt, and what becomes of the output it has seen.
use agentic_model_gateway.Base.{total, ◌||◌, ◌⊎◌, ℕ, ◌<◌, ◌≡◌, true, false, List, [], arith}
use agentic_model_gateway.Recovery.Holdback.{Limits, Holdback, new_holdback}
use agentic_model_gateway.Recovery.Controller.{
  retry_available, early_retry, midstream_recovery, Failure, is_retryable, advance_failure,
}
use agentic_model_gateway.Recovery.Delivery.{
  Stage, new_stage, Op, fails, perform, run, reached-IsHeld,
}

module _ {E : Type 0} where
  early_retry-uncommitted :
      (f : Failure) (b : Holdback E)
      → (advance_failure f b).0.action ≡ early_retry
      → (b.committed ≡ false) × ((advance_failure f b).1 ≡ new_holdback)
  unfolding advance_failure
  early_retry-uncommitted f b e = (ground arith, ground arith)

  restart :
      (c : Limits) (size : E → ℕ) (f : Failure) (s : Stage E)
      → s.sent ≡ []
      → (advance_failure f s.holdback).1 ≡ new_holdback
      → perform c size (fails f) s ≡ new_stage
  unfolding perform
  restart c size f s quiet fresh i = record { holdback = fresh i; sent = quiet i }

  -- Where a controller that has gone through any operations answers a failure with an early retry,
  -- the client has received nothing, and the controller and the client are again as at the start.
  pub early_retry_invisible :
      (c : Limits) (size : E → ℕ)
      → 0 < c.max_bytes
      → (ops : List (Op E)) (f : Failure)
      → (advance_failure f (run c size ops new_stage).holdback).0.action ≡ early_retry
      → ((run c size ops new_stage).sent ≡ [])
        × (perform c size (fails f) (run c size ops new_stage) ≡ new_stage)
  early_retry_invisible c size positive ops f e =
      let s = run c size ops new_stage in
      let (uncommitted, fresh) = early_retry-uncommitted f s.holdback e in
      let quiet = (reached-IsHeld c size positive ops).unseen uncommitted in
      (quiet, restart c size f s quiet fresh)

  -- The bytes of the events that a controller holds back stay below the limit, whatever it has gone
  -- through.
  pub held_bytes_bounded :
      (c : Limits) (size : E → ℕ)
      → 0 < c.max_bytes
      → (ops : List (Op E)) → total size (run c size ops new_stage).holdback.events < c.max_bytes
  held_bytes_bounded c size positive ops =
      let h = reached-IsHeld c size positive ops in ground (arith, h.counted, h.bounded)

  -- A retryable failure of a stream that has generated output, with an attempt left or a complete tool
  -- call to save, is never the end: the stream is either tried again, while it is uncommitted and one
  -- more attempt stays in reserve, or recovered in midstream with what it holds.
  pub generated_output_recovered :
      (f : Failure) (b : Holdback E)
      → is_retryable f ≡ true
      → f.generated_output ≡ true
      → (retry_available f || f.complete_tool_salvageable) ≡ true
      → (((advance_failure f b).0.action ≡ early_retry)
          × (b.committed ≡ false)
          × (1 < f.attempts_remaining))
        ⊎ (((advance_failure f b).0.action ≡ midstream_recovery) × ((advance_failure f b).1 ≡ b))
  unfolding advance_failure
  generated_output_recovered f b r g left = ground arith
