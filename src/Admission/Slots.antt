-- ===== src/Admission/Slots.antt =====
-- The concurrency bulkhead: slots are neither lost nor made up, whatever the executions do.
use agentic_model_gateway.Base.{
  ℕ, zero, suc, ◌+◌, ◌-◌, ◌<◌, ◌≡◌, refl, ◌∙◌, ap, Option, some, List, [], ◌∷◌, if◌then◌else◌,
  get_elem?, set, replicate, arith,
}
use agentic_model_gateway.Admission.State.{Policy, Permit, Session, Config, State, new_state}
use agentic_model_gateway.Admission.Gate.{
  gate, wake, cancel_wait, abandon_waiting_leader, abandon_probe_permit,
}
use agentic_model_gateway.Admission.Attempt.{
  Attempt, Draws, succeeded, retry_immediately, retry, aclose, close_episode, attempt_corrected,
  attempt_failed, failed_with_budget, failed_without_budget, exhaust_episode,
}
use agentic_model_gateway.Admission.System.{
  Phase, idle, at_gate, waiting, sleeping, at_limiter, at_semaphore, running, Action, opens,
  notified, awake, enters, cancelled, limited, takes_slot, corrects, closes, succeeds, fails, act,
  pass_limiter, take_slot, World, Step, step, Reach, here, next,
}

-- A running attempt that is not closed holds one slot.
abbrev pub slots_held : Phase → ℕ
slots_held (running a) = if a.closed then 0 else 1
slots_held _ = 0

abbrev pub total_held : List Phase → ℕ
total_held [] = 0
total_held (p ∷ ps) = slots_held p + total_held ps

total_held-set :
    (ps : List Phase) (i : ℕ) (p after : Phase)
    → get_elem? ps i ≡ some p
    → total_held (set ps i after) + slots_held p ≡ total_held ps + slots_held after
total_held-set [] i p after e = cc
total_held-set (x ∷ ps) zero p after e = let h : x ≡ p = cc in omega (arith, ap slots_held h)
total_held-set (x ∷ ps) (suc i) p after e = omega (arith, total_held-set ps i p after e)

module _ {E : Type 0} where
  -- The steps of the gate and of an attempt leave the semaphore alone.
  gate-free_slots : (i now : ℕ) (s : State E) → (gate i now s).1.free_slots ≡ s.free_slots
  unfolding gate
  gate-free_slots i now s = ground arith

  wake-free_slots : (i g : ℕ) (s : State E) → (wake i g s).1.free_slots ≡ s.free_slots
  unfolding wake
  wake-free_slots i g s = ground arith

  cancel_wait-free_slots :
      (i : ℕ) (g : Option ℕ) (s : State E) → (cancel_wait i g s).free_slots ≡ s.free_slots
  unfolding cancel_wait
  cancel_wait-free_slots i g s = ground arith

  abandon_waiting_leader-free_slots :
      (i g : ℕ) (s : State E) → (abandon_waiting_leader i g s).free_slots ≡ s.free_slots
  unfolding abandon_waiting_leader
  abandon_waiting_leader-free_slots i g s = ground arith

  abandon_probe_permit-free_slots :
      (i now : ℕ) (p : Permit) (s : State E)
      → (abandon_probe_permit i now p s).free_slots ≡ s.free_slots
  unfolding abandon_probe_permit
  abandon_probe_permit-free_slots i now p s = ground arith

  succeeded-free_slots :
      (i : ℕ) (a : Attempt) (s : State E)
      → ((succeeded i a s).1.free_slots ≡ s.free_slots) × ((succeeded i a s).0.closed ≡ a.closed)
  unfolding succeeded close_episode
  succeeded-free_slots i a s = ground arith

  retry_immediately-free_slots :
      (i now : ℕ) (a : Attempt) (s : State E)
      → ((retry_immediately i now a s).1.free_slots ≡ s.free_slots)
        × ((retry_immediately i now a s).0.closed ≡ a.closed)
  unfolding retry_immediately attempt_corrected
  retry_immediately-free_slots i now a s = ground arith

  attempt_failed-free_slots :
      (policy : Policy E) (i : ℕ) (p : Permit) (error : E) (d : Draws) (s : State E)
      → (attempt_failed policy i p error d s).1.free_slots ≡ s.free_slots
  unfolding attempt_failed failed_with_budget failed_without_budget exhaust_episode
  attempt_failed-free_slots policy i p error d s = ground arith

  retry-free_slots :
      (policy : Policy E) (override : E → Option E) (i : ℕ) (a : Attempt) (error : E) (d : Draws)
      (s : State E)
      → ((retry policy override i a error d s).2.free_slots ≡ s.free_slots)
        × ((retry policy override i a error d s).1.closed ≡ a.closed)
  unfolding retry close_episode
  retry-free_slots policy override i a error d s =
      ground (arith, attempt_failed-free_slots policy i a.permit error d s)

  new_state-free_slots :
      (c : Config) (sessions : ℕ → Session E) (s : State E)
      → new_state c sessions ≡ some s
      → s.free_slots ≡ c.max_concurrency
  unfolding new_state
  new_state-free_slots c sessions s made = ground arith

  aclose-free_slots :
      (i now : ℕ) (a : Attempt) (s : State E)
      → (aclose i now a s).1.free_slots ≡ s.free_slots + slots_held (running a)
  unfolding aclose
  aclose-free_slots i now a s = ground (arith, abandon_probe_permit-free_slots i now a.permit s)

  pass_limiter-free_slots :
      (i now : ℕ) (p : Permit) (s : State E)
      → (pass_limiter i now p s).1.free_slots + slots_held (pass_limiter i now p s).0 ≡ s.free_slots
  unfolding pass_limiter
  pass_limiter-free_slots i now p s = ground (arith, abandon_probe_permit-free_slots i now p s)

  take_slot-free_slots :
      (i now : ℕ) (p : Permit) (s : State E)
      → 0 < s.free_slots
      → (take_slot i now p s).1.free_slots + slots_held (take_slot i now p s).0 ≡ s.free_slots
  unfolding take_slot
  take_slot-free_slots i now p s h = ground (
    arith,
    abandon_probe_permit-free_slots i now p (record s { free_slots = s.free_slots - 1 + 1 }),
  )

  act-free_slots :
      (policy : Policy E) (override : E → Option E) (action : Action E) (i : ℕ)
      (phase after : Phase) (s s' : State E)
      → act policy override action i phase s ≡ some (after, s')
      → s'.free_slots + slots_held after ≡ s.free_slots + slots_held phase
  unfolding act
  act-free_slots policy override opens i idle after s s' e = ground arith
  act-free_slots policy override (enters now) i at_gate after s s' e =
      ground (arith, gate-free_slots i now s)
  act-free_slots policy override notified i (waiting g) after s s' e = ground arith
  act-free_slots policy override awake i (sleeping g) after s s' e =
      ground (arith, wake-free_slots i g s)
  act-free_slots policy override (limited now) i (at_limiter p) after s s' e =
      ground (arith, pass_limiter-free_slots i now p s)
  act-free_slots policy override (takes_slot now) i (at_semaphore p) after s s' e =
      ground (arith, take_slot-free_slots i now p s)
  act-free_slots policy override succeeds i (running a) after s s' e =
      ground (arith, succeeded-free_slots i a s)
  act-free_slots policy override (corrects now) i (running a) after s s' e =
      ground (arith, retry_immediately-free_slots i now a s)
  act-free_slots policy override (fails error d) i (running a) after s s' e =
      ground (arith, retry-free_slots policy override i a error d s)
  act-free_slots policy override (closes now) i (running a) after s s' e =
      ground (arith, aclose-free_slots i now a s)
  act-free_slots policy override (cancelled now) i (waiting g) after s s' e =
      ground (arith, cancel_wait-free_slots i g s)
  act-free_slots policy override (cancelled now) i (sleeping g) after s s' e =
      ground (arith, abandon_waiting_leader-free_slots i g s)
  act-free_slots policy override (cancelled now) i (at_limiter p) after s s' e =
      ground (arith, abandon_probe_permit-free_slots i now p s)
  act-free_slots policy override (cancelled now) i (at_semaphore p) after s s' e =
      ground (arith, abandon_probe_permit-free_slots i now p s)
  act-free_slots policy override _ i _ after s s' e = cc

  Step-slots :
      {policy : Policy E} {override : E → Option E} {u v : World E}
      → Step policy override u v
      → v.state.free_slots + total_held v.phases ≡ u.state.free_slots + total_held u.phases
  Step-slots {policy} {override} {u} (step i action phase after s found acted) = omega (
    arith,
    act-free_slots policy override action i phase after u.state s acted,
    total_held-set u.phases i phase after found,
  )

  Reach-slots :
      {policy : Policy E} {override : E → Option E} {u v : World E}
      → Reach policy override u v
      → v.state.free_slots + total_held v.phases ≡ u.state.free_slots + total_held u.phases
  Reach-slots here = refl
  Reach-slots (next r st) = Step-slots st ∙ Reach-slots r

total_held-idle : (n : ℕ) → total_held (replicate n idle) ≡ 0
total_held-idle zero = refl
total_held-idle (suc n) = omega (arith, total_held-idle n)

-- From a new controller and `n` idle executions, in every world that their steps can reach, the free
-- slots and the attempts that hold one are together `max_concurrency`: no more attempts run at once,
-- and no slot is lost or given back twice, whatever fails or is cancelled.
pub slots_conserved :
    {E : Type 0} {policy : Policy E} {override : E → Option E} (c : Config)
    (sessions : ℕ → Session E) (s : State E) (n : ℕ) {v : World E}
    → new_state c sessions ≡ some s
    → Reach policy override (record { state = s; phases = replicate n idle }) v
    → v.state.free_slots + total_held v.phases ≡ c.max_concurrency
slots_conserved c sessions s n made reached =
    omega (arith, Reach-slots reached, total_held-idle n, new_state-free_slots c sessions s made)
