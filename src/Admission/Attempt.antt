-- ===== src/Admission/Attempt.antt =====
-- providers/admission.py: class ProviderAttempt and the controller's reactions to its end.
use agentic_model_gateway.Base.{
  update, add, ℕ, ◌+◌, Bool, true, false, Option, none, some, [], if◌then◌else◌,
}
use agentic_model_gateway.Admission.State.{
  Policy, Permit, Episode, State, can_attempt, fail_recovery, fail_waiters, start_recovery_episode,
  retry_delay,
}
use agentic_model_gateway.Admission.Gate.{matching_probe, abandon_probe_permit}

pub record Attempt : Type 0 where
  pub permit : Permit
  pub resolved : Bool
  pub accepted : Bool
  pub failure_retryable : Option Bool
  pub closed : Bool

abbrev pub new_attempt : Permit → Attempt
new_attempt permit = record {
  permit = permit;
  resolved = false;
  accepted = false;
  failure_retryable = none;
  closed = false;
}

-- What one failure reads from outside: the clock, and `random.uniform` for each call of `_retry_delay`.
pub record Draws : Type 0 where
  pub now : ℕ
  pub first : ℕ
  pub second : ℕ

module _ {E : Type 0} where
  -- `_attempt_succeeded`, and `_attempt_rejected`, which has the same body.
  unfoldable pub close_episode : ℕ → Permit → State E → State E
  close_episode i permit s = elim (matching_probe i permit s) [
    | none ↦ s
    | some episode ↦ record s { episode = none }
  ]

  unfoldable pub attempt_corrected : ℕ → ℕ → Permit → State E → State E
  attempt_corrected i now permit s = elim (matching_probe i permit s) [
    | none ↦ s
    | some episode ↦ record s {
      episode = some (record episode { probe_active = false; ready_at = now });
    }
  ]

  -- `_attempt_failed` while the session may go on.
  unfoldable pub failed_with_budget : Policy E → ℕ → Permit → E → Draws → State E → State E
  unfolding start_recovery_episode add
  failed_with_budget policy i permit error d s =
      let delay = retry_delay policy s.config d.first error (s.sessions i).attempts_started in
      elim s.episode [
        | none ↦ (start_recovery_episode (some i) (d.now + delay) error s).1
        | some episode ↦ elim (matching_probe i permit s) [
          | some probe ↦ record s {
            episode = some (record episode {
              last_error = error;
              probe_active = false;
              ready_at = d.now + delay;
            });
          }
          | none ↦ elim episode.terminal_until [
            | some until ↦ record s {
              sessions = update s.sessions i (fail_recovery episode.last_error (s.sessions i));
            }
            | none ↦ record s {
              episode = some (record episode { waiters = add i episode.waiters });
            }
          ]
        ]
      ]

  -- The end of an episode whose probe has used up its session.
  unfoldable pub exhaust_episode : ℕ → E → Episode E → State E → State E
  unfolding fail_waiters
  exhaust_episode until error episode s = record s {
    episode = some (record episode {
      last_error = error;
      leader = none;
      probe_active = false;
      terminal_until = some until;
      waiters = [];
    });
    sessions = fail_waiters error episode.waiters s.sessions;
  }

  -- `_attempt_failed` at the end of the session's budget.
  unfoldable pub failed_without_budget : Policy E → ℕ → Permit → E → Draws → State E → State E
  unfolding start_recovery_episode exhaust_episode
  failed_without_budget policy i permit error d s =
      let until =
        d.now + retry_delay policy s.config d.second error (s.sessions i).attempts_started in
      elim s.episode [
        | none ↦
            let (episode, s') = start_recovery_episode none d.now error s in
            exhaust_episode until error episode s'
        | some episode ↦ elim (matching_probe i permit s) [
          | none ↦ s
          | some probe ↦ exhaust_episode until error episode s
        ]
      ]

  -- The answer says whether this execution may retry.
  unfoldable pub attempt_failed : Policy E → ℕ → Permit → E → Draws → State E → Bool × State E
  attempt_failed policy i permit error d s =
      if can_attempt (s.sessions i)
      then (true, failed_with_budget policy i permit error d s)
      else (false, failed_without_budget policy i permit error d s)

  unfoldable pub succeeded : ℕ → Attempt → State E → Attempt × State E
  succeeded i a s =
      if a.resolved
      then (a, s)
      else (record a { resolved = true; accepted = true }, close_episode i a.permit s)

  unfoldable pub retry_immediately : ℕ → ℕ → Attempt → State E → Attempt × State E
  retry_immediately i now a s =
      if a.resolved
      then (a, s)
      else (record a { resolved = true }, attempt_corrected i now a.permit s)

  -- `provider_failure_override(error)`, or the error itself.
  abbrev pub effective_error : (E → Option E) → E → E
  effective_error override error = elim (override error) [ none ↦ error | some e ↦ e ]

  -- `override` is `provider_failure_override`, with `λ e. none` where the caller gives none. It
  -- decides what is retryable, and the error itself is what the episode keeps.
  unfoldable pub retry :
      Policy E → (E → Option E) → ℕ → Attempt → E → Draws → State E → Bool × Attempt × State E
  retry policy override i a error d s =
      if a.resolved
      then (false, a, s)
      else if policy.retryable (effective_error override error)
      then (let (may_retry, s') = attempt_failed policy i a.permit error d s in
          (may_retry, record a { resolved = true; failure_retryable = some true }, s'))
      else (
        false,
        record a { resolved = true; failure_retryable = some false },
        close_episode i a.permit s,
      )

  abbrev pub release_concurrency : State E → State E
  release_concurrency s = record s { free_slots = s.free_slots + 1 }

  unfoldable pub aclose : ℕ → ℕ → Attempt → State E → Attempt × State E
  aclose i now a s = if a.closed then (a, s) else (
    record a { closed = true },
    release_concurrency (if a.resolved then s else abandon_probe_permit i now a.permit s),
  )
