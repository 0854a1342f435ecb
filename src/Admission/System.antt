-- ===== src/Admission/System.antt =====
-- providers/admission.py: `open_attempt` and the attempt that it returns, as interleaved steps of many
-- executions. A step is what one task does between two awaits. Each session belongs to one execution,
-- at most one of whose calls is pending, so an execution is known by its session's number.
use agentic_model_gateway.Base.{
  update, ℕ, ◌-◌, ◌≡◌, Bool, Option, none, some, List, ◌==◌, if◌then◌else◌, get_elem?, set,
}
use agentic_model_gateway.Admission.State.{Policy, Permit, State, can_attempt, claim_attempt}
use agentic_model_gateway.Admission.Gate.{
  GateOutcome, exhausted, admitted, waits, sleeps, gate, wake, cancel_wait, abandon_waiting_leader,
  permit_is_current, abandon_probe_permit,
}
use agentic_model_gateway.Admission.Attempt.{
  Attempt, new_attempt, Draws, succeeded, retry_immediately, retry, aclose, release_concurrency,
}

-- Where an execution stands: what it awaits, or the attempt that it holds.
pub data Phase : Type 0 where
  idle at_gate : Phase
  waiting : Option ℕ → Phase
  sleeping : ℕ → Phase
  at_limiter at_semaphore : Permit → Phase
  running : Attempt → Phase

pub data Action (E : Type 0) : Type 0 where
  opens notified awake : Action E
  enters cancelled limited takes_slot corrects closes : (now : ℕ) → Action E
  succeeds : Action E
  fails : E → Draws → Action E

abbrev pub after_wake : Option Permit → Phase
after_wake none = at_gate
after_wake (some p) = at_limiter p

module _ {E : Type 0} where
  abbrev pub after_gate : GateOutcome E → Phase
  after_gate (exhausted e) = idle
  after_gate (admitted p) = at_limiter p
  after_gate (waits g) = waiting g
  after_gate (sleeps d g) = sleeping g

  -- The callback of `acquire_if`, and what follows its answer.
  unfoldable pub pass_limiter : ℕ → ℕ → Permit → State E → Phase × State E
  pass_limiter i now permit s =
      if permit_is_current i permit s
      then (at_semaphore permit, s)
      else (at_gate, abandon_probe_permit i now permit s)

  -- From the acquired semaphore to the attempt, or back to the gate.
  unfoldable pub take_slot : ℕ → ℕ → Permit → State E → Phase × State E
  take_slot i now permit s =
      let held = record s { free_slots = s.free_slots - 1 } in
      if permit_is_current i permit held
      then elim (claim_attempt (s.sessions i)) [
        | some session ↦
            (running (new_attempt permit), record held { sessions = update s.sessions i session })
        | none ↦ (idle, abandon_probe_permit i now permit (release_concurrency held))
      ]
      else (at_gate, abandon_probe_permit i now permit (release_concurrency held))

  abbrev pub after_attempt : Attempt × State E → Phase × State E
  after_attempt (a, s) = (running a, s)

  abbrev pub after_retry : Bool × Attempt × State E → Phase × State E
  after_retry (answer, a, s) = (running a, s)

  abbrev pub after_aclose : Attempt × State E → Phase × State E
  after_aclose (a, s) = (idle, s)

  -- `none`: the execution is not where it could do this.
  unfoldable pub act :
      Policy E → (E → Option E) → Action E → ℕ → Phase → State E → Option (Phase × State E)
  unfolding pass_limiter take_slot
  act policy override opens i idle s =
      if can_attempt (s.sessions i) then some (at_gate, s) else none
  act policy override (enters now) i at_gate s =
      let (outcome, s') = gate i now s in some (after_gate outcome, s')
  act policy override notified i (waiting g) s = some (at_gate, s)
  act policy override awake i (sleeping g) s =
      let (permit, s') = wake i g s in some (after_wake permit, s')
  act policy override (limited now) i (at_limiter p) s = some (pass_limiter i now p s)
  act policy override (takes_slot now) i (at_semaphore p) s =
      if s.free_slots == 0 then none else some (take_slot i now p s)
  act policy override succeeds i (running a) s = some (after_attempt (succeeded i a s))
  act policy override (corrects now) i (running a) s =
      some (after_attempt (retry_immediately i now a s))
  act policy override (fails error d) i (running a) s =
      some (after_retry (retry policy override i a error d s))
  act policy override (closes now) i (running a) s = some (after_aclose (aclose i now a s))
  act policy override (cancelled now) i (waiting g) s = some (idle, cancel_wait i g s)
  act policy override (cancelled now) i (sleeping g) s = some (idle, abandon_waiting_leader i g s)
  act policy override (cancelled now) i (at_limiter p) s =
      some (idle, abandon_probe_permit i now p s)
  act policy override (cancelled now) i (at_semaphore p) s =
      some (idle, abandon_probe_permit i now p s)
  act policy override _ i _ s = none

-- The phase of each execution, by its number.
pub record World (E : Type 0) : Type 0 where
  pub state : State E
  pub phases : List Phase

pub data Step {E : Type 0} (policy : Policy E) (override : E → Option E)
    : World E → World E → Type 0 where
  step :
      {w : World E} (i : ℕ) (action : Action E) (phase after : Phase) (s : State E)
      → get_elem? w.phases i ≡ some phase
      → act policy override action i phase w.state ≡ some (after, s)
      → Step policy override w (record { state = s; phases = set w.phases i after })

pub data Reach {E : Type 0} (policy : Policy E) (override : E → Option E) (w : World E)
    : World E → Type 0 where
  here : Reach policy override w w
  next :
      {u v : World E}
      → Reach policy override w u
      → Step policy override u v
      → Reach policy override w v
