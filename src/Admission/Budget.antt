-- ===== src/Admission/Budget.antt =====
-- The upstream attempts that a session may start, over every history.
use agentic_model_gateway.Base.{
  update, ℕ, ◌+◌, ◌≤◌, ◌≡◌, refl, Option, some, List, [], ◌∷◌, ◌==◌, if◌then◌else◌, inl, inr,
  Option-cases, arith,
}
use agentic_model_gateway.Admission.State.{
  Policy, Permit, Session, Episode, State, claim_attempt, fail_waiters, fail_recovery, retry_delay,
}
use agentic_model_gateway.Admission.Gate.{
  gate, wake, cancel_wait, abandon_waiting_leader, abandon_probe_permit,
}
use agentic_model_gateway.Admission.Attempt.{
  Draws, succeeded, retry_immediately, retry, aclose, close_episode, attempt_corrected,
  attempt_failed, failed_with_budget, failed_without_budget, exhaust_episode,
}
use agentic_model_gateway.Admission.System.{
  Phase, idle, at_gate, waiting, sleeping, at_limiter, at_semaphore, running, Action, opens,
  notified, awake, enters, cancelled, limited, takes_slot, corrects, closes, succeeds, fails, act,
  pass_limiter, take_slot, World, step, Reach, here, next,
}

-- The step in which an execution starts an upstream attempt.
abbrev pub begins : Phase → Phase → ℕ
begins (at_semaphore p) (running a) = 1
begins _ _ = 0

-- The attempts that execution `j` starts in a history.
pub starts :
    {E : Type 0} {policy : Policy E} {override : E → Option E} {u v : World E}
    → Reach policy override u v
    → ℕ
    → ℕ
starts here j = 0
starts (next r (step i action at after s found acted)) j =
    (if i == j then begins at after else 0) + starts r j

-- What failing a set of sessions leaves of a budget.
fail_waiters-budget :
    {E : Type 0} (e : E) (ws : List ℕ) (sessions : ℕ → Session E) (j : ℕ)
    → ((fail_waiters e ws sessions j).attempts_started ≡ (sessions j).attempts_started)
      × ((fail_waiters e ws sessions j).max_attempts ≡ (sessions j).max_attempts)
unfolding fail_waiters
fail_waiters-budget e [] sessions j = (refl, refl)
fail_waiters-budget e (i ∷ ws) sessions j =
    ground (arith, fail_waiters-budget e ws (update sessions i (fail_recovery e (sessions i))) j)

-- The session has used `n` more attempts, and stays within its budget.
abbrev Spends : {E : Type 0} → ℕ → Session E → Session E → Type 0
Spends n old new =
    (new.attempts_started ≡ old.attempts_started + n)
    × (new.max_attempts ≡ old.max_attempts)
    × (old.attempts_started ≤ old.max_attempts → new.attempts_started ≤ new.max_attempts)

module _ {E : Type 0} (policy : Policy E) (override : E → Option E) where
  failed_with_budget-Spends :
      (i j : ℕ) (p : Permit) (error : E) (d : Draws) (s : State E)
      → Spends 0 (s.sessions j) ((failed_with_budget policy i p error d s).sessions j)
  unfolding failed_with_budget
  failed_with_budget-Spends i j p error d s = ground arith

  exhaust_episode-Spends :
      (until j : ℕ) (error : E) (ep : Episode E) (s : State E)
      → Spends 0 (s.sessions j) ((exhaust_episode until error ep s).sessions j)
  unfolding exhaust_episode
  exhaust_episode-Spends until j error ep s =
      omega (arith, fail_waiters-budget error ep.waiters s.sessions j)

  failed_without_budget-Spends :
      (i j : ℕ) (p : Permit) (error : E) (d : Draws) (s : State E)
      → Spends 0 (s.sessions j) ((failed_without_budget policy i p error d s).sessions j)
  unfolding failed_without_budget
  failed_without_budget-Spends i j p error d s =
      let delay = retry_delay policy s.config d.second error (s.sessions i).attempts_started in
      elim (Option-cases s.episode) [
        | inl quiet ↦ ground arith
        | inr (ep, e) ↦ ground (arith, exhaust_episode-Spends (d.now + delay) j error ep s)
      ]

  attempt_failed-Spends :
      (i j : ℕ) (p : Permit) (error : E) (d : Draws) (s : State E)
      → Spends 0 (s.sessions j) ((attempt_failed policy i p error d s).1.sessions j)
  unfolding attempt_failed
  attempt_failed-Spends i j p error d s = ground (
    arith,
    failed_with_budget-Spends i j p error d s,
    failed_without_budget-Spends i j p error d s,
  )

  act-Spends :
      (action : Action E) (i j : ℕ) (at after : Phase) (s s' : State E)
      → act policy override action i at s ≡ some (after, s')
      → Spends (if i == j then begins at after else 0) (s.sessions j) (s'.sessions j)
  unfolding act gate wake pass_limiter take_slot claim_attempt abandon_probe_permit cancel_wait
      abandon_waiting_leader succeeded close_episode retry_immediately attempt_corrected retry
      aclose
  act-Spends opens i j idle after s s' e = ground arith
  act-Spends (enters now) i j at_gate after s s' e = ground arith
  act-Spends notified i j (waiting g) after s s' e = ground arith
  act-Spends awake i j (sleeping g) after s s' e = ground arith
  act-Spends (limited now) i j (at_limiter p) after s s' e = ground arith
  act-Spends (takes_slot now) i j (at_semaphore p) after s s' e = ground arith
  act-Spends succeeds i j (running t) after s s' e = ground arith
  act-Spends (corrects now) i j (running t) after s s' e = ground arith
  act-Spends (fails error d) i j (running t) after s s' e =
      ground (arith, attempt_failed-Spends i j t.permit error d s)
  act-Spends (closes now) i j (running t) after s s' e = ground arith
  act-Spends (cancelled now) i j (waiting g) after s s' e = ground arith
  act-Spends (cancelled now) i j (sleeping g) after s s' e = ground arith
  act-Spends (cancelled now) i j (at_limiter p) after s s' e = ground arith
  act-Spends (cancelled now) i j (at_semaphore p) after s s' e = ground arith
  act-Spends _ i j _ after s s' e = absurd (cc)

module _ {E : Type 0} {policy : Policy E} {override : E → Option E} where
  starts-Spends :
      {u v : World E} (r : Reach policy override u v) (j : ℕ)
      → Spends (starts r j) (u.state.sessions j) (v.state.sessions j)
  unfolding starts
  starts-Spends here j = omega arith
  starts-Spends (next r (step i action at after s found acted)) j =
      let old = starts-Spends r j in
      let new = act-Spends policy override action i j at after _ s acted in
      (omega (arith, old.0, new.0), omega (arith, old.1, new.1), λ fits. new.2 (old.2 fits))

  -- In any history from a world in which session `j` has started nothing yet, its execution starts at
  -- most `max_attempts` upstream attempts, however retries, probes, corrections and other executions
  -- mix: the count that the session keeps is the number of attempts that were started.
  pub starts-le-max_attempts :
      {u v : World E} (r : Reach policy override u v) (j : ℕ)
      → (u.state.sessions j).attempts_started ≡ 0
      → ((v.state.sessions j).attempts_started ≡ starts r j)
        × (starts r j ≤ (u.state.sessions j).max_attempts)
  starts-le-max_attempts r j unused =
      let spent = starts-Spends r j in
      (omega (arith, spent.0), omega (arith, spent.0, spent.1, spent.2 (omega arith)))
