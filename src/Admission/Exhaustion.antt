-- ===== src/Admission/Exhaustion.antt =====
-- What the end of a recovery episode means for everybody else, and how long a retry waits.
use agentic_model_gateway.Base.{
  update, contains, ℕ, ◌+◌, ◌-◌, ◌*◌, ◌^◌, ◌≤◌, ◌≡◌, refl, false, ◌||◌, Option, none, some, List,
  [], ◌∷◌, ltb, max, if◌then◌else◌, inl, inr, Option-cases, arith,
}
use native.Mathlib.Nat.{pow-le-pow_right, mul-le-mul_left}
use agentic_model_gateway.Admission.State.{
  Policy, Permit, Session, Config, Episode, State, probe_permit, can_attempt, fail_waiters,
  fail_recovery, retry_delay,
}
use agentic_model_gateway.Admission.Gate.{exhausted, admitted, gate, matching_probe}
use agentic_model_gateway.Admission.Attempt.{
  Draws, attempt_failed, failed_without_budget, exhaust_episode,
}

-- Exactly the sessions of the set are failed.
fail_waiters_lem :
    {E : Type 0} (e : E) (ws : List ℕ) (sessions : ℕ → Session E) (j : ℕ)
    → (fail_waiters e ws sessions j).terminal_error
      ≡ (if contains j ws then some e else (sessions j).terminal_error)
unfolding fail_waiters contains
fail_waiters_lem e [] sessions j = refl
fail_waiters_lem e (i ∷ ws) sessions j =
    ground (arith, fail_waiters_lem e ws (update sessions i (fail_recovery e (sessions i))) j)

-- `retry_after or 0.0`
abbrev pub or_zero : Option ℕ → ℕ
or_zero none = 0
or_zero (some seconds) = seconds

module _ {E : Type 0} (policy : Policy E) where
  -- When the probe of an episode fails and its session has no attempt left, the execution may not
  -- retry; the sessions that wait for the episode fail with the probe's error whenever they look at
  -- the gate again; any other session without an error of its own is refused with that error until the
  -- delay is over, and then opens a new episode, of which it is the leader with the probe's permit.
  pub exhausted_probe :
      (i j later : ℕ) (permit : Permit) (error : E) (d : Draws) (s : State E) (ep : Episode E)
      → s.episode ≡ some ep
      → matching_probe i permit s ≡ some ep
      → can_attempt (s.sessions i) ≡ false
      → (s.sessions j).terminal_error ≡ none
      → let (may_retry, after) = attempt_failed policy i permit error d s in
        let delay = retry_delay policy s.config d.second error (s.sessions i).attempts_started in
        (may_retry ≡ false)
        × ((gate j later after).0 ≡ (
            if contains j ep.waiters || ltb later (d.now + delay)
            then exhausted error
            else admitted (probe_permit s.next_generation)))
  unfolding attempt_failed failed_without_budget exhaust_episode gate
  exhausted_probe i j later permit error d s ep open_episode probing spent untold =
      ground (arith, fail_waiters_lem error ep.waiters s.sessions j)

  doubled_mono :
      (base attempt later : ℕ) → attempt ≤ later → base * 2 ^ (attempt - 1) ≤ base * 2 ^ (later - 1)
  doubled_mono base attempt later order =
      mul-le-mul_left base (pow-le-pow_right {n = 2} (omega arith) (omega arith))

  -- The delay before the next probe is at least what the upstream's Retry-After asks, at most the
  -- larger of that and `max_delay` with the jitter on top, and with the same draw it never falls from
  -- one attempt to a later one.
  pub retry_delay_bounds :
      (c : Config) (draw attempt later : ℕ) (error : E)
      → attempt ≤ later
      → (or_zero (policy.retry_after error) ≤ retry_delay policy c draw error attempt)
        × (retry_delay policy c draw error attempt
            ≤ max (c.max_delay + draw) (or_zero (policy.retry_after error)))
        × (retry_delay policy c draw error attempt ≤ retry_delay policy c draw error later)
  unfolding retry_delay
  retry_delay_bounds c draw attempt later error order =
      let mono = doubled_mono c.base_delay attempt later order in
      elim (Option-cases (policy.retry_after error)) [
        | inl e ↦ rw (e, retry_delay) (omega (arith, mono))
        | inr (seconds, e) ↦ rw (e, retry_delay) (omega (arith, mono))
      ]
