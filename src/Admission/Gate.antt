-- ===== src/Admission/Gate.antt =====
-- providers/admission.py: `_wait_for_gate`, a critical section at a time, and the checks of a permit.
-- The clock is read once in a critical section.
use agentic_model_gateway.Base.{
  add, discard, ℕ, ◌-◌, Bool, true, false, not, ◌&&◌, ◌||◌, Option, none, some, ltb, leb, ◌==◌,
  if◌then◌else◌, is_none,
}
use agentic_model_gateway.Admission.State.{
  Permit, plain_permit, probe_permit, Episode, State, start_recovery_episode, leads,
  same_generation,
}

-- How one pass through the loop's first critical section ends.
pub data GateOutcome (E : Type 0) : Type 0 where
  -- ProviderRecoveryExhausted
  exhausted : E → GateOutcome E
  admitted : Permit → GateOutcome E
  -- On the condition, as a waiter of the generation or as the leader (`none`).
  waits : Option ℕ → GateOutcome E
  sleeps : (delay generation : ℕ) → GateOutcome E

module _ {E : Type 0} where
  abbrev store_episode : Episode E → State E → State E
  store_episode episode s = record s { episode = some episode }

  -- `if episode.leader is None: …`
  unfoldable pub elect : ℕ → Episode E → Episode E
  elect i episode = elim episode.leader [
    | none ↦ record episode { leader = some i; waiters = discard i episode.waiters }
    | some j ↦ episode
  ]

  -- The leader claims the probe, sleeps until it is due, or waits; any other session is a waiter.
  unfoldable pub take_role : ℕ → ℕ → Episode E → State E → GateOutcome E × State E
  unfolding add
  take_role i now episode s =
      if leads i episode.leader
      then (if episode.probe_active
          then (waits none, store_episode episode s)
          else if leb episode.ready_at now
          then (
            admitted (probe_permit episode.generation),
            store_episode (record episode { probe_active = true }) s,
          )
          else (sleeps (episode.ready_at - now) episode.generation, store_episode episode s))
      else (
        waits (some episode.generation),
        store_episode (record episode { waiters = add i episode.waiters }) s,
      )

  -- A terminal episode refuses until its time is over, and is then followed by a new one.
  unfoldable pub enter_episode : ℕ → ℕ → Option (Episode E) → State E → GateOutcome E × State E
  unfolding elect take_role start_recovery_episode
  enter_episode i now none s = (admitted plain_permit, s)
  enter_episode i now (some episode) s = elim episode.terminal_until [
    | none ↦ take_role i now (elect i episode) s
    | some until ↦
        if ltb now until
        then (exhausted episode.last_error, s)
        else let (fresh, s') = start_recovery_episode (some i) now episode.last_error s in
          take_role i now (elect i fresh) s'
  ]

  unfoldable pub gate : ℕ → ℕ → State E → GateOutcome E × State E
  unfolding enter_episode
  gate i now s = elim (s.sessions i).terminal_error [
    | some error ↦ (exhausted error, s)
    | none ↦ enter_episode i now s.episode s
  ]

  -- The critical section after the leader's sleep: `none` sends it back to the loop's start.
  unfoldable pub wake : ℕ → ℕ → State E → Option Permit × State E
  wake i generation s = elim s.episode [
    | none ↦ (none, s)
    | some episode ↦
        if (episode.generation == generation)
          && (is_none episode.terminal_until
              && (leads i episode.leader && not episode.probe_active))
        then (
          some (probe_permit episode.generation),
          store_episode (record episode { probe_active = true }) s,
        )
        else (none, s)
  ]

  -- A waiter that is cancelled leaves the episode in which it began to wait.
  unfoldable pub cancel_wait : ℕ → Option ℕ → State E → State E
  unfolding discard
  cancel_wait i none s = s
  cancel_wait i (some generation) s = elim s.episode [
    | none ↦ s
    | some episode ↦
        if episode.generation == generation
        then store_episode (record episode { waiters = discard i episode.waiters }) s
        else s
  ]

  -- `_abandon_waiting_leader`
  unfoldable pub abandon_waiting_leader : ℕ → ℕ → State E → State E
  abandon_waiting_leader i generation s = elim s.episode [
    | none ↦ s
    | some episode ↦
        if (not (episode.generation == generation))
          || (not (leads i episode.leader) || episode.probe_active)
        then s
        else store_episode (record episode { leader = none }) s
  ]

  unfoldable pub permit_is_current : ℕ → Permit → State E → Bool
  permit_is_current i permit s = if not permit.probe then is_none s.episode else elim s.episode [
    | none ↦ false
    | some episode ↦
        (same_generation episode.generation permit.generation)
        && (is_none episode.terminal_until && (leads i episode.leader && episode.probe_active))
  ]

  unfoldable pub matching_probe : ℕ → Permit → State E → Option (Episode E)
  matching_probe i permit s = elim s.episode [
    | none ↦ none
    | some episode ↦
        if (not permit.probe)
          || (not (same_generation episode.generation permit.generation)
              || (not (leads i episode.leader) || not episode.probe_active))
        then none
        else some episode
  ]

  -- `_abandon_probe_permit`, and `_attempt_abandoned`, which has the same body.
  unfoldable pub abandon_probe_permit : ℕ → ℕ → Permit → State E → State E
  unfolding matching_probe
  abandon_probe_permit i now permit s = elim (matching_probe i permit s) [
    | none ↦ s
    | some episode ↦
        store_episode (record episode { leader = none; probe_active = false; ready_at = now }) s
  ]
