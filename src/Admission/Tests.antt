-- ===== src/Admission/Tests.antt =====
-- The controller's theorems at concrete histories.
use agentic_model_gateway.Base.{
  contains, ℕ, ◌+◌, ◌≤◌, ◌≡◌, refl, true, false, not, Option, none, some, List, [], ◌∷◌, ◌==◌,
  if◌then◌else◌, max, replicate, arith,
}
use agentic_model_gateway.Admission.State.{
  Policy, Session, Episode, Config, State, new_state, retry_delay, probe_permit, leads,
  claim_attempt,
}
use agentic_model_gateway.Admission.Gate.{gate, exhausted, matching_probe, permit_is_current}
use agentic_model_gateway.Admission.Attempt.{
  Draws, attempt_failed, failed_with_budget, retry, aclose,
}
use agentic_model_gateway.Admission.System.{
  idle, Action, opens, enters, limited, takes_slot, closes, fails, act, World, Reach,
}
use agentic_model_gateway.Admission.Phases.{phase_of}
use agentic_model_gateway.Admission.Play.{play, play-Reach}
use agentic_model_gateway.Admission.Slots.{total_held, slots_conserved}
use agentic_model_gateway.Admission.Probe.{active_probe_has_holder}
use agentic_model_gateway.Admission.Probe.Held.{holds_probe}
use agentic_model_gateway.Admission.Exclusive.{one_probe}
use agentic_model_gateway.Admission.Budget.{starts, starts-le-max_attempts}
use agentic_model_gateway.Admission.Exhaustion.{exhausted_probe, retry_delay_bounds}
use agentic_model_gateway.Admission.Run.{Call, value, failure, returned, run_with_retry}
use agentic_model_gateway.Admission.Run.Alone.{expected, run_with_retry_alone}

-- An error is its Retry-After, and zero is final.
abbrev policy : Policy ℕ
policy = record {
  retryable = λ e. not (e == 0);
  retry_after = λ e. if e == 0 then none else some e;
}

abbrev override : ℕ → Option ℕ
override e = none

abbrev config : Config
config = record {
  max_concurrency = 2;
  max_attempts = 2;
  base_delay = 2;
  max_delay = 60;
  jitter = 1;
}

abbrev sessions : ℕ → Session ℕ
sessions i = record { max_attempts = 2; attempts_started = 0; terminal_error = none }

abbrev start : State ℕ
start = record {
  config = config;
  free_slots = 2;
  episode = none;
  next_generation = 1;
  sessions = sessions;
}

abbrev world : World ℕ
world = record { state = start; phases = replicate 3 idle }

abbrev draws : ℕ → Draws
draws now = record { now = now; first = 0; second = 1 }

-- The first execution fails and probes the recovery, while the second waits.
abbrev schedule : List (ℕ × Action ℕ)
schedule =
    (0, opens)
    ∷ (0, enters 1)
    ∷ (0, limited 1)
    ∷ (0, takes_slot 1)
    ∷ (0, fails 5 (draws 2))
    ∷ (0, closes 2)
    ∷ (1, opens)
    ∷ (1, enters 3)
    ∷ (0, opens)
    ∷ (0, enters 20)
    ∷ []

program : Unit {0}
unfolding play act gate permit_is_current matching_probe claim_attempt retry attempt_failed
    failed_with_budget aclose retry_delay contains new_state
program = tt

abbrev or_world : Option (World ℕ) → World ℕ
or_world none = world
or_world (some w) = w

abbrev probing : World ℕ
unfolding program
probing = or_world (play policy override world schedule)

probing_played : play policy override world schedule ≡ some probing
unfolding program
probing_played = refl

probing_reached : Reach policy override world probing
probing_reached = play-Reach policy override schedule world probing probing_played

abbrev episode : Episode ℕ
episode = record {
  generation = 1;
  leader = some 0;
  ready_at = 7;
  last_error = 5;
  waiters = 1 ∷ [];
  probe_active = true;
  terminal_until = none;
}

slots_conserved_example : probing.state.free_slots + total_held probing.phases ≡ 2
unfolding program
slots_conserved_example = slots_conserved config sessions start 3 refl probing_reached

active_probe_has_holder_example :
    (i : ℕ) × (some 0 ≡ some i) × (holds_probe 1 (phase_of probing.phases i) ≡ true)
unfolding program
active_probe_has_holder_example =
    active_probe_has_holder start 3 episode refl probing_reached refl refl

one_probe_example :
    (◌≡◌ {A = ℕ} 0 0) × (leads 0 episode.leader ≡ true) × (episode.probe_active ≡ true)
unfolding program
one_probe_example = one_probe start 3 episode 0 0 refl probing_reached refl refl refl

starts-le-max_attempts_example :
    ((probing.state.sessions 0).attempts_started ≡ starts probing_reached 0)
    × (starts probing_reached 0 ≤ 2)
starts-le-max_attempts_example = starts-le-max_attempts probing_reached 0 refl

abbrev spent : State ℕ
spent = record probing.state {
  sessions = λ i. record { max_attempts = 2; attempts_started = 2; terminal_error = none };
}

exhausted_probe_example :
    ((attempt_failed policy 0 (probe_permit 1) 5 (draws 30) spent).0 ≡ false)
    × ((gate 1 31 (attempt_failed policy 0 (probe_permit 1) 5 (draws 30) spent).1).0 ≡ exhausted 5)
unfolding program
exhausted_probe_example =
    exhausted_probe policy 0 1 31 (probe_permit 1) 5 (draws 30) spent episode refl refl refl refl

retry_delay_bounds_example :
    (5 ≤ retry_delay policy config 1 5 2)
    × (retry_delay policy config 1 5 2 ≤ max (60 + 1) 5)
    × (retry_delay policy config 1 5 2 ≤ retry_delay policy config 1 5 3)
retry_delay_bounds_example = retry_delay_bounds policy config 1 2 3 5 (omega arith)

abbrev calls : List (Call ℕ ℕ)
calls =
    record { outcome = failure 5; clock = λ fuel. 9; draws = draws 9; closed_at = 9 }
    ∷ record { outcome = value 7; clock = λ fuel. 20; draws = draws 20; closed_at = 20 }
    ∷ []

run_with_retry_alone_example : (run_with_retry policy override 0 calls start).0 ≡ returned 7
unfolding expected
run_with_retry_alone_example =
    run_with_retry_alone policy override 0 2 calls start (omega arith)
      (record { budget = refl; untold = refl; room = omega arith; led = tt })
