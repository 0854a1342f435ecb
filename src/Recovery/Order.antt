-- ===== src/Recovery/Order.antt =====
-- Each event of a stream that goes on reaches the client once and in its order.
use agentic_model_gateway.Base.{
  ℕ, ◌<◌, ◌≡◌, refl, sym, ap, ◌∙◌, Bool, true, false, not, ◌&&◌, List, [], ◌∷◌, ◌++◌, arith,
}
use mathlib.Core.List.{append-nil, append_assoc}
use agentic_model_gateway.Recovery.Holdback.{Limits, push, flush}
use agentic_model_gateway.Recovery.Controller.{retry_available, advance_failure, flush_uncommitted}
use agentic_model_gateway.Recovery.Delivery.{
  Stage, new_stage, Op, pushes, flushes, discards, fails, flushes_uncommitted, perform, run, IsHeld,
  perform-IsHeld, reached-IsHeld,
}

-- An operation that drops no event: a failure drops some only with an attempt left.
unfoldable pub keeps : {E : Type 0} → Op E → Bool
keeps discards = false
keeps (fails f) = not (retry_available f)
keeps _ = true

unfoldable pub all_keep : {E : Type 0} → List (Op E) → Bool
unfolding keeps
all_keep [] = true
all_keep (op ∷ ops) = keeps op && all_keep ops

unfoldable pub pushed : {E : Type 0} → List (Op E) → List E
pushed [] = []
pushed (pushes event first second ∷ ops) = event ∷ pushed ops
pushed (op ∷ ops) = pushed ops

abbrev arrived : {E : Type 0} → Stage E → List E
arrived s = s.sent ++ s.holdback.events

pushed-cons :
    {E : Type 0} (op : Op E) (ops : List (Op E))
    → pushed (op ∷ ops) ≡ pushed (op ∷ []) ++ pushed ops
unfolding pushed
pushed-cons (pushes event first second) ops = refl
pushed-cons flushes ops = refl
pushed-cons discards ops = refl
pushed-cons (fails f) ops = refl
pushed-cons (flushes_uncommitted decision) ops = refl

both_true : (a b : Bool) → (a && b) ≡ true → (a ≡ true) × (b ≡ true)
both_true a b e = (ground arith, ground arith)

module _ {E : Type 0} (c : Limits) (size : E → ℕ) (positive : 0 < c.max_bytes) where
  perform-arrived :
      (op : Op E) (s : Stage E)
      → keeps op ≡ true
      → IsHeld c size s
      → arrived (perform c size op s) ≡ arrived s ++ pushed (op ∷ [])
  unfolding perform push flush advance_failure flush_uncommitted keeps pushed
  perform-arrived (pushes event first second) s k h = ground (
    arith,
    h.released,
    append-nil s.sent,
    append-nil s.holdback.events,
    append-nil (s.sent ++ s.holdback.events),
    append-nil (s.holdback.events ++ event ∷ []),
    append-nil (s.sent ++ event ∷ []),
    append_assoc s.sent s.holdback.events (event ∷ []),
    append-nil (s.sent ++ (s.holdback.events ++ event ∷ [])),
  )
  perform-arrived flushes s k h = ground (
    arith,
    h.released,
    append-nil s.sent,
    append-nil s.holdback.events,
    append-nil (s.sent ++ s.holdback.events),
  )
  perform-arrived discards s k h = ground arith
  perform-arrived (fails f) s k h = ground (
    arith,
    h.released,
    append-nil s.sent,
    append-nil s.holdback.events,
    append-nil (s.sent ++ s.holdback.events),
  )
  perform-arrived (flushes_uncommitted decision) s k h = ground (
    arith,
    h.released,
    append-nil s.sent,
    append-nil s.holdback.events,
    append-nil (s.sent ++ s.holdback.events),
  )

  run-arrived :
      (ops : List (Op E)) (s : Stage E)
      → all_keep ops ≡ true
      → IsHeld c size s
      → arrived (run c size ops s) ≡ arrived s ++ pushed ops
  unfolding run all_keep pushed
  run-arrived [] s k h = sym (append-nil (arrived s))
  run-arrived (op ∷ ops) s k h =
      let (kept, rest) = both_true (keeps op) (all_keep ops) k in
      run-arrived ops (perform c size op s) rest (perform-IsHeld c size positive op s h)
      ∙ ap (λ events. events ++ pushed ops) (perform-arrived op s kept h)
      ∙ append_assoc (arrived s) (pushed (op ∷ [])) (pushed ops)
      ∙ ap (λ events. arrived s ++ events) (sym (pushed-cons op ops))

  flushed-arrived : (s : Stage E) → IsHeld c size s → (perform c size flushes s).sent ≡ arrived s
  unfolding perform flush
  flushed-arrived s h = ground (arith, h.released)

  -- Where a controller goes through pushes, flushes and failures that leave no attempt, and is then
  -- flushed, the client has received every pushed event, once and in the order of the pushes.
  pub delivered_in_order :
      (ops : List (Op E))
      → all_keep ops ≡ true
      → (perform c size flushes (run c size ops new_stage)).sent ≡ pushed ops
  unfolding run
  delivered_in_order ops k =
      flushed-arrived (run c size ops new_stage) (reached-IsHeld c size positive ops)
      ∙ run-arrived ops new_stage k (reached-IsHeld c size positive [])
