-- ===== src/Limiter/Tests.antt =====
-- The limiter's theorems at a history of three rounds.
use agentic_model_gateway.Base.{ℕ, ◌≤◌, ◌≡◌, refl, true, none, some, List, [], ◌∷◌, arith}
use agentic_model_gateway.Limiter.{
  Limiter, Reading, is_refusal, acquire, acquire_round, waits, run, prune,
}
use agentic_model_gateway.Limiter.Window.{count_in, run_rate_bound, waits_once}

abbrev fresh : Limiter
fresh = record { rate_limit = 2; rate_window = 10; times = [] }

abbrev reading : ℕ → Reading
reading t = record { now = t; stamp = t; allowed = none }

abbrev history : List Reading
history = reading 1 ∷ reading 3 ∷ reading 12 ∷ []

run_rate_bound_example : count_in 2 10 (run history (fresh, [])).1 ≤ 2
run_rate_bound_example = run_rate_bound 2 history fresh refl (omega arith)

abbrev full : Limiter
full = record { rate_limit = 2; rate_window = 10; times = 1 ∷ 3 ∷ [] }

full_waits : (acquire_round full (reading 4)).0 ≡ waits 7
unfolding acquire_round prune
full_waits = refl

waits_once_example : acquire full (reading 4 ∷ reading 11 ∷ []) ≡ some true
unfolding is_refusal
waits_once_example =
    waits_once full (reading 4) (reading 11) 7 (omega arith) (omega arith) full_waits (omega arith)
