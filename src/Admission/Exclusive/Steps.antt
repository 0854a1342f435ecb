-- ===== src/Admission/Exclusive/Steps.antt =====
-- Each step of an execution, and what it leaves of the right to the probe.
use agentic_model_gateway.Base.{ℕ, ◌<◌, ◌≡◌, ◌≢◌, true, Option, none, some, if◌then◌else◌, arith}
use agentic_model_gateway.Admission.State.{Policy, Permit, Episode, State, leads}
use agentic_model_gateway.Admission.Gate.{
  gate, wake, cancel_wait, abandon_waiting_leader, permit_is_current, abandon_probe_permit,
  matching_probe,
}
use agentic_model_gateway.Admission.Attempt.{
  succeeded, retry_immediately, retry, aclose, close_episode, attempt_corrected, attempt_failed,
  failed_with_budget, failed_without_budget, exhaust_episode,
}
use agentic_model_gateway.Admission.System.{
  Phase, idle, at_gate, waiting, sleeping, at_limiter, at_semaphore, running, Action, opens,
  notified, awake, enters, cancelled, limited, takes_slot, corrects, closes, succeeds, fails, act,
  pass_limiter, take_slot,
}

abbrev pub probe_generation : Permit → Option ℕ
probe_generation p = if p.probe then p.generation else none

-- The generation of the probe that an execution may start or has under way.
abbrev pub probe_of : Phase → Option ℕ
probe_of (at_limiter p) = probe_generation p
probe_of (at_semaphore p) = probe_generation p
probe_of (running a) = if a.resolved then none else probe_generation a.permit
probe_of _ = none

-- Of the current episode only the leader has the probe, and the episode knows of it.
abbrev pub Backed : {E : Type 0} → Option (Episode E) → ℕ → ℕ → Type 0
Backed none j g = Unit
Backed (some ep) j g = g ≡ ep.generation → (leads j ep.leader ≡ true) × (ep.probe_active ≡ true)

abbrev pub Entitled : {E : Type 0} → State E → ℕ → Option ℕ → Type 0
Entitled s j none = Unit
Entitled s j (some g) = (g < s.next_generation) × Backed s.episode j g

abbrev pub IsFresh : {E : Type 0} → Option (Episode E) → ℕ → Type 0
IsFresh none upcoming = Unit
IsFresh (some ep) upcoming = ep.generation < upcoming

module _ {E : Type 0} (policy : Policy E) (override : E → Option E) where
  pub act-IsFresh :
      (action : Action E) (i : ℕ) (at after : Phase) (s s' : State E)
      → act policy override action i at s ≡ some (after, s')
      → IsFresh s.episode s.next_generation
      → IsFresh s'.episode s'.next_generation
  unfolding act gate wake pass_limiter take_slot permit_is_current matching_probe
      abandon_probe_permit cancel_wait abandon_waiting_leader succeeded close_episode
      retry_immediately attempt_corrected retry attempt_failed failed_with_budget
      failed_without_budget exhaust_episode aclose
  act-IsFresh opens i idle after s s' e h = ground arith
  act-IsFresh (enters now) i at_gate after s s' e h = ground arith
  act-IsFresh notified i (waiting g) after s s' e h = ground arith
  act-IsFresh awake i (sleeping g) after s s' e h = ground arith
  act-IsFresh (limited now) i (at_limiter p) after s s' e h = ground arith
  act-IsFresh (takes_slot now) i (at_semaphore p) after s s' e h = ground arith
  act-IsFresh succeeds i (running t) after s s' e h = ground arith
  act-IsFresh (corrects now) i (running t) after s s' e h = ground arith
  act-IsFresh (fails error d) i (running t) after s s' e h = ground arith
  act-IsFresh (closes now) i (running t) after s s' e h = ground arith
  act-IsFresh (cancelled now) i (waiting g) after s s' e h = ground arith
  act-IsFresh (cancelled now) i (sleeping g) after s s' e h = ground arith
  act-IsFresh (cancelled now) i (at_limiter p) after s s' e h = ground arith
  act-IsFresh (cancelled now) i (at_semaphore p) after s s' e h = ground arith
  act-IsFresh _ i _ after s s' e h = absurd (cc)

  -- The execution that takes the step.
  pub act-Entitled_self :
      (action : Action E) (i : ℕ) (at after : Phase) (s s' : State E)
      → act policy override action i at s ≡ some (after, s')
      → IsFresh s.episode s.next_generation
      → Entitled s i (probe_of at)
      → Entitled s' i (probe_of after)
  unfolding act gate wake pass_limiter take_slot permit_is_current matching_probe
      abandon_probe_permit cancel_wait abandon_waiting_leader succeeded close_episode
      retry_immediately attempt_corrected retry attempt_failed failed_with_budget
      failed_without_budget exhaust_episode aclose
  act-Entitled_self opens i idle after s s' e f h = ground arith
  act-Entitled_self (enters now) i at_gate after s s' e f h = ground arith
  act-Entitled_self notified i (waiting g) after s s' e f h = ground arith
  act-Entitled_self awake i (sleeping g) after s s' e f h = ground arith
  act-Entitled_self (limited now) i (at_limiter p) after s s' e f h = ground arith
  act-Entitled_self (takes_slot now) i (at_semaphore p) after s s' e f h = ground arith
  act-Entitled_self succeeds i (running t) after s s' e f h = ground arith
  act-Entitled_self (corrects now) i (running t) after s s' e f h = ground arith
  act-Entitled_self (fails error d) i (running t) after s s' e f h = ground arith
  act-Entitled_self (closes now) i (running t) after s s' e f h = ground arith
  act-Entitled_self (cancelled now) i (waiting g) after s s' e f h = ground arith
  act-Entitled_self (cancelled now) i (sleeping g) after s s' e f h = ground arith
  act-Entitled_self (cancelled now) i (at_limiter p) after s s' e f h = ground arith
  act-Entitled_self (cancelled now) i (at_semaphore p) after s s' e f h = ground arith
  act-Entitled_self _ i _ after s s' e f h = absurd (cc)

  -- Every other execution.
  pub act-Entitled_other :
      (action : Action E) (i j g : ℕ) (at after : Phase) (s s' : State E)
      → act policy override action i at s ≡ some (after, s')
      → IsFresh s.episode s.next_generation
      → j ≢ i
      → Entitled s j (some g)
      → Entitled s' j (some g)
  unfolding act gate wake pass_limiter take_slot permit_is_current matching_probe
      abandon_probe_permit cancel_wait abandon_waiting_leader succeeded close_episode
      retry_immediately attempt_corrected retry attempt_failed failed_with_budget
      failed_without_budget exhaust_episode aclose
  act-Entitled_other opens i j g' idle after s s' e f ne h = ground arith
  act-Entitled_other (enters now) i j g' at_gate after s s' e f ne h = ground arith
  act-Entitled_other notified i j g' (waiting g) after s s' e f ne h = ground arith
  act-Entitled_other awake i j g' (sleeping g) after s s' e f ne h = ground arith
  act-Entitled_other (limited now) i j g' (at_limiter p) after s s' e f ne h = ground arith
  act-Entitled_other (takes_slot now) i j g' (at_semaphore p) after s s' e f ne h = ground arith
  act-Entitled_other succeeds i j g' (running t) after s s' e f ne h = ground arith
  act-Entitled_other (corrects now) i j g' (running t) after s s' e f ne h = ground arith
  act-Entitled_other (fails error d) i j g' (running t) after s s' e f ne h = ground arith
  act-Entitled_other (closes now) i j g' (running t) after s s' e f ne h = ground arith
  act-Entitled_other (cancelled now) i j g' (waiting g) after s s' e f ne h = ground arith
  act-Entitled_other (cancelled now) i j g' (sleeping g) after s s' e f ne h = ground arith
  act-Entitled_other (cancelled now) i j g' (at_limiter p) after s s' e f ne h = ground arith
  act-Entitled_other (cancelled now) i j g' (at_semaphore p) after s s' e f ne h = ground arith
  act-Entitled_other _ i j g' _ after s s' e f ne h = absurd (cc)
