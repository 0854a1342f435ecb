-- ===== src/Limiter.antt =====
-- core/rate_limit.py: the strict sliding window that admits upstream requests.
-- A round is the body of the loop of `_acquire` under its lock. The clock is read twice in it, at the
-- start (`now`) and where the acquisition is written down (`stamp`); both are whole ticks.
pub mod Window
mod Tests
use agentic_model_gateway.Base.{
  ℕ, ◌+◌, ◌-◌, Bool, true, false, Option, none, some, List, [], ◌∷◌, ◌++◌, ltb, leb, ◌==◌,
  if◌then◌else◌, ◌||◌, length,
}

pub record Limiter : Type 0 where
  pub rate_limit : ℕ
  pub rate_window : ℕ
  -- Oldest first.
  pub times : List ℕ

-- `none` is the constructor's ValueError.
pub new_limiter : ℕ → ℕ → Option Limiter
new_limiter rate_limit rate_window =
    if rate_limit == 0 || rate_window == 0
    then none
    else some (record { rate_limit = rate_limit; rate_window = rate_window; times = [] })

-- `times[0] <= now - rate_window`, with the subtraction brought to the other side.
unfoldable pub prune : ℕ → ℕ → List ℕ → List ℕ
prune window now [] = []
prune window now (t ∷ times) = if leb (t + window) now then prune window now times else t ∷ times

-- What the clock shows to a round, and the answer of the callback (`none`: no callback).
pub record Reading : Type 0 where
  pub now : ℕ
  pub stamp : ℕ
  pub allowed : Option Bool

pub data Round : Type 0 where
  recorded refused : Round
  waits : ℕ → Round

pub is_refusal : Option Bool → Bool
is_refusal (some false) = true
is_refusal _ = false

pub wait_time : Limiter → List ℕ → ℕ → ℕ
wait_time l [] now = 0
wait_time l (oldest ∷ times) now = (oldest + l.rate_window) - now

unfoldable pub acquire_round : Limiter → Reading → Round × Limiter
unfolding is_refusal wait_time
acquire_round l r =
    let times = prune l.rate_window r.now l.times in
    if ltb (length times) l.rate_limit
    then (if is_refusal r.allowed
        then (refused, record l { times = times })
        else (recorded, record l { times = times ++ r.stamp ∷ [] }))
    else (waits (wait_time l times r.now), record l { times = times })

pub answer : Round → Option Bool → Option Bool
answer recorded later = some true
answer refused later = some false
answer (waits t) later = later

-- The loop of one caller, a reading for each round; `none` while it still waits.
pub acquire : Limiter → List Reading → Option Bool
unfolding acquire_round answer
acquire l [] = none
acquire l (r ∷ rs) =
    let (round, l') = acquire_round l r in let later = acquire l' rs in answer round later

log_round : Round → ℕ → List ℕ → List ℕ
log_round recorded stamp log = log ++ stamp ∷ []
log_round _ stamp log = log

-- The rounds of all callers in the order in which they get the lock, with the log of every stamp.
pub run : List Reading → Limiter × List ℕ → Limiter × List ℕ
unfolding log_round
run [] s = s
run (r ∷ rs) (l, log) =
    let (round, l') = acquire_round l r in run rs (l', log_round round r.stamp log)
