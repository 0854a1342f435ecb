-- ===== src/Admission/Run.antt =====
-- providers/admission.py: `open_attempt` and `run_with_retry` as one execution goes through them. The
-- steps are those of `Admission.System`, taken one after the other.
pub mod Alone
use agentic_model_gateway.Base.{
  ℕ, zero, suc, ◌+◌, Bool, true, false, Option, none, some, List, [], ◌∷◌, if◌then◌else◌,
}
use agentic_model_gateway.Admission.State.{Policy, State}
use agentic_model_gateway.Admission.Attempt.{Attempt, Draws, succeeded, retry, aclose}
use agentic_model_gateway.Admission.System.{
  Phase, idle, at_gate, waiting, sleeping, at_limiter, at_semaphore, running, Action, opens,
  notified, awake, enters, limited, takes_slot, act,
}

-- How `open_attempt` ends: with an attempt, with an exception of its own, or not yet (it waits for
-- another execution, or the fuel is used up).
pub data Opened : Type 0 where
  opened : Attempt → Opened
  exception pending : Opened

-- The step that an execution takes by itself.
abbrev pub own_step : {E : Type 0} → ℕ → Phase → Option (Action E)
own_step now idle = some opens
own_step now at_gate = some (enters now)
own_step now (waiting g) = none
own_step now (sleeping g) = some awake
own_step now (at_limiter p) = some (limited now)
own_step now (at_semaphore p) = some (takes_slot now)
own_step now (running a) = none

-- From a phase on; an execution that is idle again has raised.
module _ {E : Type 0} (policy : Policy E) (override : E → Option E) (i : ℕ) (clock : ℕ → ℕ) where
  unfoldable pub continue_open : ℕ → Phase → State E → Opened × State E
  continue_open zero phase s = (pending, s)
  continue_open (suc fuel) (running a) s = (opened a, s)
  continue_open (suc fuel) idle s = (exception, s)
  continue_open (suc fuel) phase s = elim (own_step (clock fuel) phase) [
    | none ↦ (pending, s)
    | some action ↦ elim (act policy override action i phase s) [
      | none ↦ (pending, s)
      | some (after, s') ↦ continue_open fuel after s'
    ]
  ]

  -- An exhausted session raises at once.
  unfoldable pub open_attempt : ℕ → State E → Opened × State E
  unfolding continue_open
  open_attempt fuel s = elim (act policy override opens i idle s) [
    | none ↦ (exception, s)
    | some (after, s') ↦ continue_open fuel after s'
  ]

pub data Outcome (T E : Type 0) : Type 0 where
  value : T → Outcome T E
  failure : E → Outcome T E

-- One call of `fn`, with the clock and the draws around it.
pub record Call (T E : Type 0) : Type 0 where
  pub outcome : Outcome T E
  pub clock : ℕ → ℕ
  pub draws : Draws
  pub closed_at : ℕ

pub data Finish (T E : Type 0) : Type 0 where
  returned : T → Finish T E
  raised : E → Finish T E
  not_opened unfinished : Finish T E

-- More than the steps from the call of `open_attempt` to its attempt.
abbrev pub open_fuel : ℕ
open_fuel = 8

module _ {T E : Type 0} (policy : Policy E) (override : E → Option E) (i : ℕ) where
  -- From the call's outcome to the end of the loop's body; `again` is the next round.
  unfoldable pub after_call :
      Outcome T E
      → ℕ
      → Draws
      → Attempt
      → State E
      → (State E → Finish T E × State E)
      → Finish T E × State E
  after_call (value v) closed_at d a s again =
      let (a', s') = succeeded i a s in (returned v, (aclose i closed_at a' s').1)
  after_call (failure error) closed_at d a s again =
      let (may_retry, a', s') = retry policy override i a error d s in
      let s'' = (aclose i closed_at a' s').1 in
      let rest = again s'' in if may_retry then rest else (raised error, s'')

  -- The loop, with what each call of `fn` will do; `unfinished` where the list ends first.
  unfoldable pub run_with_retry : List (Call T E) → State E → Finish T E × State E
  unfolding after_call
  run_with_retry [] s = (unfinished, s)
  run_with_retry (c ∷ cs) s =
      let (result, s') = open_attempt policy override i c.clock open_fuel s in
      elim result [
        | opened a ↦ after_call c.outcome c.closed_at c.draws a s' (run_with_retry cs)
        | exception ↦ (not_opened, s')
        | pending ↦ (unfinished, s')
      ]
