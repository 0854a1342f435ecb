-- ===== src/Recovery/Delivery.antt =====
-- A provider's use of its recovery controller: the operations in sequence, with the events that the
-- client has received.
use agentic_model_gateway.Base.{
  total-append, total, ℕ, ◌<◌, ◌≡◌, refl, true, false, List, [], ◌∷◌, ◌++◌, arith,
}
use agentic_model_gateway.Recovery.Holdback.{Limits, Holdback, new_holdback, push, flush, discard}
use agentic_model_gateway.Recovery.Controller.{
  RecoveryDecision, Failure, advance_failure, flush_uncommitted,
}

pub record Stage (E : Type 0) : Type 0 where
  pub holdback : Holdback E
  pub sent : List E

abbrev pub new_stage : {E : Type 0} → Stage E
new_stage = record { holdback = new_holdback; sent = [] }

pub data Op (E : Type 0) : Type 0 where
  pushes : E → (first second : ℕ) → Op E
  flushes : Op E
  discards : Op E
  fails : Failure → Op E
  flushes_uncommitted : RecoveryDecision → Op E

module _ {E : Type 0} (c : Limits) (size : E → ℕ) where
  abbrev deliver : List E × Holdback E → Stage E → Stage E
  deliver (events, b) s = record { holdback = b; sent = s.sent ++ events }

  unfoldable pub perform : Op E → Stage E → Stage E
  unfolding push flush discard advance_failure flush_uncommitted
  perform (pushes event first second) s = deliver (push c size event first second s.holdback) s
  perform flushes s = deliver (flush s.holdback) s
  perform discards s = record s { holdback = discard s.holdback }
  perform (fails f) s = record s { holdback = (advance_failure f s.holdback).1 }
  perform (flushes_uncommitted decision) s = deliver (flush_uncommitted decision s.holdback) s

  unfoldable pub run : List (Op E) → Stage E → Stage E
  unfolding perform
  run [] s = s
  run (op ∷ ops) s = run ops (perform op s)

-- A committed stream holds nothing back, and of an uncommitted one nothing was sent.
pub record IsHeld {E : Type 0} (c : Limits) (size : E → ℕ) (s : Stage E) : Type 0 where
  pub counted : s.holdback.bytes ≡ total size s.holdback.events
  pub bounded : s.holdback.bytes < c.max_bytes
  pub released : s.holdback.committed ≡ true → s.holdback.events ≡ []
  pub unseen : s.holdback.committed ≡ false → s.sent ≡ []

module _ {E : Type 0} (c : Limits) (size : E → ℕ) (positive : 0 < c.max_bytes) where
  new_stage-IsHeld : IsHeld c size new_stage
  unfolding total
  new_stage-IsHeld = record {
    counted = refl;
    bounded = positive;
    released = λ e. refl;
    unseen = λ e. refl;
  }

  pub perform-IsHeld :
      (op : Op E) (s : Stage E) → IsHeld c size s → IsHeld c size (perform c size op s)
  unfolding perform push flush discard advance_failure flush_uncommitted total
  perform-IsHeld (pushes event first second) s h = record {
    counted = ground (arith, total-append size s.holdback.events event);
    bounded = ground (arith, total-append size s.holdback.events event);
    released = ground (arith, total-append size s.holdback.events event);
    unseen = ground (arith, total-append size s.holdback.events event);
  }
  perform-IsHeld flushes s h = record {
    counted = ground (arith);
    bounded = ground arith;
    released = ground arith;
    unseen = ground arith;
  }
  perform-IsHeld discards s h = record {
    counted = refl;
    bounded = positive;
    released = λ e. refl;
    unseen = h.unseen;
  }
  perform-IsHeld (fails f) s h = record {
    counted = ground arith;
    bounded = ground arith;
    released = ground arith;
    unseen = ground arith;
  }
  perform-IsHeld (flushes_uncommitted decision) s h = record {
    counted = ground arith;
    bounded = ground arith;
    released = ground arith;
    unseen = ground arith;
  }

  pub run-IsHeld :
      (ops : List (Op E)) (s : Stage E) → IsHeld c size s → IsHeld c size (run c size ops s)
  unfolding run
  run-IsHeld [] s h = h
  run-IsHeld (op ∷ ops) s h = run-IsHeld ops (perform c size op s) (perform-IsHeld op s h)

  pub reached-IsHeld : (ops : List (Op E)) → IsHeld c size (run c size ops new_stage)
  reached-IsHeld ops = run-IsHeld ops new_stage new_stage-IsHeld
