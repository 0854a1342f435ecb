-- ===== src/Recovery/Holdback.antt =====
-- providers/stream_recovery.py: class RecoveryHoldbackBuffer. An event is of any type, with the number
-- of its bytes given by `size`; times are whole ticks.
use agentic_model_gateway.Base.{
  ℕ, ◌+◌, Bool, true, false, ◌||◌, Option, none, some, List, [], ◌∷◌, ◌++◌, leb, if◌then◌else◌,
}

pub record Limits : Type 0 where
  pub holdback_ticks : ℕ
  pub max_bytes : ℕ

pub record Holdback (E : Type 0) : Type 0 where
  pub events : List E
  pub bytes : ℕ
  pub started_at : Option ℕ
  pub committed : Bool

-- The time of the first held event, which a first event reads from the clock.
abbrev pub start_time : Option ℕ → ℕ → ℕ
start_time none now = now
start_time (some started) now = started

module _ {E : Type 0} where
  abbrev pub new_holdback : Holdback E
  new_holdback = record { events = []; bytes = 0; started_at = none; committed = false }

  abbrev pub emptied : Holdback E → Holdback E
  emptied b = record b { events = []; bytes = 0; started_at = none }

  unfoldable pub flush : Holdback E → List E × Holdback E
  flush b = if b.committed then ([], b) else (b.events, record (emptied b) { committed = true })

  unfoldable pub discard : Holdback E → Holdback E
  discard b = emptied b

  abbrev pub has_events : List E → Bool
  has_events [] = false
  has_events (e ∷ events) = true

  abbrev pub has_buffered : Holdback E → Bool
  has_buffered b = has_events b.events

  abbrev pub held : (E → ℕ) → E → ℕ → Holdback E → Holdback E
  held size event first b = record b {
    events = b.events ++ event ∷ [];
    bytes = b.bytes + size event;
    started_at = some (start_time b.started_at first);
  }

  -- `first` and `second` are what the clock says where the event begins the holdback and at the test.
  unfoldable pub push : Limits → (E → ℕ) → E → (first second : ℕ) → Holdback E → List E × Holdback E
  unfolding flush
  push c size event first second b =
      if b.committed
      then (event ∷ [], b)
      else (let b' = held size event first b in
          if leb c.max_bytes b'.bytes
            || leb (start_time b.started_at first + c.holdback_ticks) second
          then flush b'
          else ([], b'))
