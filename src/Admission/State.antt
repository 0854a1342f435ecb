-- ===== src/Admission/State.antt =====
-- providers/admission.py: the sessions, the recovery episode and the controller's state.
-- A session is an object that several callers share, so it lives in a store under a number. Times are
-- whole ticks. Log lines and trace events are left out.
use agentic_model_gateway.Base.{
  update, ℕ, ◌+◌, ◌-◌, ◌*◌, ◌^◌, min, max, Bool, true, false, ◌||◌, Option, none, some, List, [],
  ◌∷◌, ltb, ◌==◌, if◌then◌else◌,
}

-- What the controller asks of providers/failure_policy.py and of `_retry_after_seconds`.
pub record Policy (E : Type 0) : Type 0 where
  pub retryable : E → Bool
  pub retry_after : E → Option ℕ

pub record Session (E : Type 0) : Type 0 where
  pub max_attempts : ℕ
  pub attempts_started : ℕ
  pub terminal_error : Option E

-- `generation` is `none` in a permit that is no probe.
pub record Permit : Type 0 where
  pub generation : Option ℕ
  pub probe : Bool

abbrev pub plain_permit : Permit
plain_permit = record { generation = none; probe = false }

abbrev pub probe_permit : ℕ → Permit
probe_permit g = record { generation = some g; probe = true }

pub record Episode (E : Type 0) : Type 0 where
  pub generation : ℕ
  pub leader : Option ℕ
  pub ready_at : ℕ
  pub last_error : E
  pub waiters : List ℕ
  pub probe_active : Bool
  pub terminal_until : Option ℕ

pub record Config : Type 0 where
  pub max_concurrency : ℕ
  pub max_attempts : ℕ
  pub base_delay : ℕ
  pub max_delay : ℕ
  pub jitter : ℕ

pub record State (E : Type 0) : Type 0 where
  pub config : Config
  -- The value of the semaphore.
  pub free_slots : ℕ
  pub episode : Option (Episode E)
  pub next_generation : ℕ
  pub sessions : ℕ → Session E

-- The checks of the constructor; `none` is its ValueError. A tick count is never negative.
unfoldable pub new_state : {E : Type 0} → Config → (ℕ → Session E) → Option (State E)
new_state c sessions =
    if c.max_concurrency == 0 || c.max_attempts == 0 || ltb c.max_delay c.base_delay
    then none
    else some (record {
      config = c;
      free_slots = c.max_concurrency;
      episode = none;
      next_generation = 1;
      sessions = sessions;
    })

unfoldable pub new_retry_session : {E : Type 0} → Config → Session E
new_retry_session c = record {
  max_attempts = c.max_attempts;
  attempts_started = 0;
  terminal_error = none;
}

abbrev pub can_attempt : {E : Type 0} → Session E → Bool
can_attempt s = ltb s.attempts_started s.max_attempts

-- `none` is the RuntimeError of an exhausted session.
unfoldable pub claim_attempt : {E : Type 0} → Session E → Option (Session E)
claim_attempt s =
    if can_attempt s then some (record s { attempts_started = s.attempts_started + 1 }) else none

abbrev pub fail_recovery : {E : Type 0} → E → Session E → Session E
fail_recovery e s = record s { terminal_error = some e }

-- `for waiter in episode.waiters: waiter._fail_recovery(error)`
unfoldable pub fail_waiters : {E : Type 0} → E → List ℕ → (ℕ → Session E) → ℕ → Session E
fail_waiters e [] sessions = sessions
fail_waiters e (i ∷ waiters) sessions =
    fail_waiters e waiters (update sessions i (fail_recovery e (sessions i)))

module _ {E : Type 0} where
  unfoldable pub start_recovery_episode : Option ℕ → ℕ → E → State E → Episode E × State E
  start_recovery_episode leader ready_at last_error s =
      let episode : Episode E = record {
        generation = s.next_generation;
        leader = leader;
        ready_at = ready_at;
        last_error = last_error;
        waiters = [];
        probe_active = false;
        terminal_until = none;
      } in
      (episode, record s { next_generation = s.next_generation + 1; episode = some episode })

  -- `draw` is what `random.uniform(0, jitter)` returns.
  unfoldable pub retry_delay : Policy E → Config → ℕ → E → ℕ → ℕ
  retry_delay policy c draw error attempt =
      let backoff = min (c.base_delay * 2 ^ (attempt - 1)) c.max_delay + draw in
      elim (policy.retry_after error) [ none ↦ backoff | some seconds ↦ max backoff seconds ]

abbrev pub leads : ℕ → Option ℕ → Bool
leads i none = false
leads i (some j) = j == i

abbrev pub same_generation : ℕ → Option ℕ → Bool
same_generation g none = false
same_generation g (some h) = h == g
