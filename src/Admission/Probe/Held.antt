-- ===== src/Admission/Probe/Held.antt =====
-- Each reaction of the admission controller, and who holds the probe after it.
use agentic_model_gateway.Base.{
  update, ℕ, ◌+◌, ◌-◌, ◌≡◌, ap, Bool, true, false, not, ◌&&◌, Option, none, some, arith,
}
use agentic_model_gateway.Admission.State.{Policy, Permit, Episode, State, same_generation}
use agentic_model_gateway.Admission.Gate.{
  gate, wake, cancel_wait, abandon_waiting_leader, abandon_probe_permit, matching_probe,
}
use agentic_model_gateway.Admission.Attempt.{
  Attempt, new_attempt, Draws, succeeded, retry_immediately, retry, aclose, close_episode,
  attempt_corrected, attempt_failed, failed_with_budget, failed_without_budget, exhaust_episode,
}
use agentic_model_gateway.Admission.System.{
  Phase, idle, at_gate, waiting, sleeping, at_limiter, at_semaphore, running, pass_limiter,
  after_gate, after_wake, take_slot,
}

abbrev pub is_probe_of : ℕ → Permit → Bool
is_probe_of g p = p.probe && same_generation g p.generation

-- The execution has the permit for the probe of the generation, and has not reported its end.
abbrev pub holds_probe : ℕ → Phase → Bool
holds_probe g (at_limiter p) = is_probe_of g p
holds_probe g (at_semaphore p) = is_probe_of g p
holds_probe g (running a) = not a.resolved && is_probe_of g a.permit
holds_probe g _ = false

abbrev pub leader_holds : (ℕ → Phase) → Option ℕ → ℕ → Bool
leader_holds phase none g = false
leader_holds phase (some i) g = holds_probe g (phase i)

-- While a probe is active, the episode has a leader, and it holds the probe's permit.
abbrev pub ProbeHeld : {E : Type 0} → Option (Episode E) → (ℕ → Phase) → Type 0
ProbeHeld none phase = Unit
ProbeHeld (some ep) phase =
    ep.probe_active ≡ true → leader_holds phase ep.leader ep.generation ≡ true

module _ {E : Type 0} (phase : ℕ → Phase) (i : ℕ) where
  pub gate-ProbeHeld :
      (now : ℕ) (s : State E)
      → phase i ≡ at_gate
      → ProbeHeld s.episode phase
      → ProbeHeld (gate i now s).1.episode (update phase i (after_gate (gate i now s).0))
  unfolding gate
  gate-ProbeHeld now s e h = ground arith

  pub wake-ProbeHeld :
      (g : ℕ) (s : State E)
      → phase i ≡ sleeping g
      → ProbeHeld s.episode phase
      → ProbeHeld (wake i g s).1.episode (update phase i (after_wake (wake i g s).0))
  unfolding wake
  wake-ProbeHeld g s e h = ground arith

  -- An execution that stops holding the probe gives it up first.
  pub abandon_probe_permit-ProbeHeld :
      (now : ℕ) (p : Permit) (after : Phase) (s : State E)
      → ((g : ℕ) → holds_probe g (phase i) ≡ is_probe_of g p)
      → ProbeHeld s.episode phase
      → ProbeHeld (abandon_probe_permit i now p s).episode (update phase i after)
  unfolding abandon_probe_permit
  abandon_probe_permit-ProbeHeld now p after s e h = grind arith

  -- Where the episode stays, the execution may go on if it still holds what it held.
  pub kept-ProbeHeld :
      (after : Phase) (o : Option (Episode E))
      → ((g : ℕ) → holds_probe g (phase i) ≡ true → holds_probe g after ≡ true)
      → ProbeHeld o phase
      → ProbeHeld o (update phase i after)
  kept-ProbeHeld after none e h = tt
  kept-ProbeHeld after (some ep) e h = ground (arith, e ep.generation)

  pub cancel_wait-ProbeHeld :
      (g : Option ℕ) (s : State E)
      → phase i ≡ waiting g
      → ProbeHeld s.episode phase
      → ProbeHeld (cancel_wait i g s).episode (update phase i idle)
  unfolding cancel_wait
  cancel_wait-ProbeHeld g s e h = ground arith

  pub abandon_waiting_leader-ProbeHeld :
      (g : ℕ) (s : State E)
      → phase i ≡ sleeping g
      → ProbeHeld s.episode phase
      → ProbeHeld (abandon_waiting_leader i g s).episode (update phase i idle)
  unfolding abandon_waiting_leader
  abandon_waiting_leader-ProbeHeld g s e h = ground arith

  pub pass_limiter-ProbeHeld :
      (now : ℕ) (p : Permit) (s : State E)
      → phase i ≡ at_limiter p
      → ProbeHeld s.episode phase
      → ProbeHeld (pass_limiter i now p s).1.episode (update phase i (pass_limiter i now p s).0)
  unfolding pass_limiter
  pass_limiter-ProbeHeld now p s e h = ground (
    arith,
    kept-ProbeHeld (at_semaphore p) s.episode
        (λ (g : ℕ) (k : holds_probe g (phase i) ≡ true). rw e at k) h,
    abandon_probe_permit-ProbeHeld now p at_gate s (λ (g : ℕ). ap (holds_probe g) e) h,
  )

  pub take_slot-ProbeHeld :
      (now : ℕ) (p : Permit) (s : State E)
      → phase i ≡ at_semaphore p
      → ProbeHeld s.episode phase
      → ProbeHeld (take_slot i now p s).1.episode (update phase i (take_slot i now p s).0)
  unfolding take_slot
  take_slot-ProbeHeld now p s e h =
      let freed = record s { free_slots = s.free_slots - 1 + 1 } in
      ground (
        arith,
        kept-ProbeHeld (running (new_attempt p)) s.episode
            (λ (g : ℕ) (k : holds_probe g (phase i) ≡ true). rw e at k) h,
        abandon_probe_permit-ProbeHeld now p at_gate freed (λ (g : ℕ). ap (holds_probe g) e) h,
        abandon_probe_permit-ProbeHeld now p idle freed (λ (g : ℕ). ap (holds_probe g) e) h,
      )

  pub succeeded-ProbeHeld :
      (a : Attempt) (s : State E)
      → phase i ≡ running a
      → ProbeHeld s.episode phase
      → ProbeHeld (succeeded i a s).1.episode (update phase i (running (succeeded i a s).0))
  unfolding succeeded close_episode matching_probe
  succeeded-ProbeHeld a s e h = ground arith

  pub retry_immediately-ProbeHeld :
      (now : ℕ) (a : Attempt) (s : State E)
      → phase i ≡ running a
      → ProbeHeld s.episode phase
      → ProbeHeld
          (retry_immediately i now a s).1.episode
          (update phase i (running (retry_immediately i now a s).0))
  unfolding retry_immediately attempt_corrected matching_probe
  retry_immediately-ProbeHeld now a s e h = ground arith

  -- After a failure the reporting execution holds no probe, and another's is as it was.
  pub attempt_failed-ProbeHeld :
      (policy : Policy E) (a : Attempt) (after : Phase) (error : E) (d : Draws) (s : State E)
      → phase i ≡ running a
      → a.resolved ≡ false
      → ProbeHeld s.episode phase
      → ProbeHeld (attempt_failed policy i a.permit error d s).1.episode (update phase i after)
  unfolding attempt_failed failed_with_budget failed_without_budget exhaust_episode matching_probe
  attempt_failed-ProbeHeld policy a after error d s e fresh h = ground arith

  pub retry-ProbeHeld :
      (policy : Policy E) (override : E → Option E) (a : Attempt) (error : E) (d : Draws)
      (s : State E)
      → phase i ≡ running a
      → ProbeHeld s.episode phase
      → ProbeHeld
          (retry policy override i a error d s).2.episode
          (update phase i (running (retry policy override i a error d s).1))
  unfolding retry close_episode matching_probe
  retry-ProbeHeld policy override a error d s e h = ground (
    arith,
    attempt_failed-ProbeHeld policy a
        (running (record a { resolved = true; failure_retryable = some true })) error d s e,
  )

  pub aclose-ProbeHeld :
      (now : ℕ) (a : Attempt) (s : State E)
      → phase i ≡ running a
      → a.closed ≡ false
      → ProbeHeld s.episode phase
      → ProbeHeld (aclose i now a s).1.episode (update phase i idle)
  unfolding aclose abandon_probe_permit matching_probe
  aclose-ProbeHeld now a s e opened h = ground arith
