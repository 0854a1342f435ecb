-- ===== src/Admission/Run/Alone.antt =====
-- An execution with no other beside it: `run_with_retry` calls `fn` as often as the budget allows.
use agentic_model_gateway.Base.{
  ℕ, zero, suc, ◌+◌, ◌≤◌, ◌<◌, ◌≡◌, refl, true, false, not, ◌&&◌, Option, none, some, List, [], ◌∷◌,
  ◌==◌, if◌then◌else◌, inl, inr, Bool-cases, arith, ==_ne,
}
use agentic_model_gateway.Admission.State.{Policy, Permit, Episode, State, claim_attempt}
use agentic_model_gateway.Admission.Gate.{gate, wake, permit_is_current, matching_probe}
use agentic_model_gateway.Admission.Attempt.{
  Attempt, Draws, effective_error, retry, aclose, attempt_failed, failed_with_budget,
}
use agentic_model_gateway.Admission.System.{
  Phase, idle, at_gate, waiting, sleeping, at_limiter, at_semaphore, running, opens, awake, enters,
  limited, takes_slot, act, pass_limiter, take_slot,
}
use agentic_model_gateway.Admission.Run.{
  Opened, opened, exception, pending, open_attempt, after_call, continue_open, open_fuel, Outcome,
  value, failure, Call, Finish, returned, raised, not_opened, unfinished, run_with_retry,
}

abbrev episode_generation : {E : Type 0} → Option (Episode E) → Option ℕ
episode_generation none = none
episode_generation (some ep) = some ep.generation

-- The recovery episode of a lone execution: none, or one that it leads, between two probes.
abbrev pub Led : {E : Type 0} → ℕ → Option (Episode E) → Type 0
Led i none = Unit
Led i (some ep) = (ep.leader ≡ some i) × (ep.probe_active ≡ false) × (ep.terminal_until ≡ none)

pub record Solo {E : Type 0} (i left : ℕ) (s : State E) : Type 0 where
  pub budget : (s.sessions i).attempts_started + left ≡ (s.sessions i).max_attempts
  pub untold : (s.sessions i).terminal_error ≡ none
  pub room : 0 < s.free_slots
  pub led : Led i s.episode

-- While the attempt is under way.
record Underway {E : Type 0} (i left : ℕ) (p : Permit) (s : State E) : Type 0 where
  pub budget : (s.sessions i).attempts_started + left ≡ (s.sessions i).max_attempts
  pub untold : (s.sessions i).terminal_error ≡ none
  current : permit_is_current i p s ≡ true

-- On the way to an attempt: what holds in each phase, and how many steps are left at most.
abbrev OnTheWay : {E : Type 0} → ℕ → ℕ → Phase → State E → Type 0
OnTheWay i left idle s = ⊥
OnTheWay i left at_gate s = Solo i (suc left) s
OnTheWay i left (waiting g) s = ⊥
OnTheWay i left (sleeping g) s = Solo i (suc left) s × (episode_generation s.episode ≡ some g)
OnTheWay i left (at_limiter p) s = Underway i (suc left) p s × (0 < s.free_slots)
OnTheWay i left (at_semaphore p) s = Underway i (suc left) p s × (0 < s.free_slots)
OnTheWay i left (running a) s =
    (a.resolved ≡ false) × (a.closed ≡ false) × Underway i left a.permit s

abbrev rank : Phase → ℕ
rank at_gate = 5
rank (sleeping g) = 4
rank (at_limiter p) = 3
rank (at_semaphore p) = 2
rank _ = 1

rank_pos : (phase : Phase) → rank phase ≤ 0 → ⊥
rank_pos idle h = omega arith
rank_pos _ h = omega arith

abbrev Advances : {E : Type 0} → ℕ → ℕ → ℕ → Option (Phase × State E) → Type 0
Advances i left steps none = ⊥
Advances i left steps (some (after, s)) = OnTheWay i left after s × (rank after < steps)

module _ {E : Type 0} (policy : Policy E) (override : E → Option E) (i : ℕ) where
  gate-Advances :
      (now left : ℕ) (s : State E)
      → Solo i (suc left) s
      → Advances i left 5 (act policy override (enters now) i at_gate s)
  unfolding act gate permit_is_current
  gate-Advances now left s solo = ground arith

  wake-Advances :
      (g left : ℕ) (s : State E)
      → OnTheWay i left (sleeping g) s
      → Advances i left 4 (act policy override awake i (sleeping g) s)
  unfolding act wake permit_is_current
  wake-Advances g left s h = ground arith

  limiter-Advances :
      (now left : ℕ) (p : Permit) (s : State E)
      → OnTheWay i left (at_limiter p) s
      → Advances i left 3 (act policy override (limited now) i (at_limiter p) s)
  unfolding act pass_limiter
  limiter-Advances now left p s h = ground arith

  semaphore-Advances :
      (now left : ℕ) (p : Permit) (s : State E)
      → OnTheWay i left (at_semaphore p) s
      → Advances i left 2 (act policy override (takes_slot now) i (at_semaphore p) s)
  unfolding act take_slot permit_is_current claim_attempt
  semaphore-Advances now left p s h = ground arith

abbrev OpensWell : {E : Type 0} → ℕ → ℕ → Opened × State E → Type 0
OpensWell i left (opened a, s) = OnTheWay i left (running a) s
OpensWell i left (exception, s) = ⊥
OpensWell i left (pending, s) = ⊥

module _ {E : Type 0} (policy : Policy E) (override : E → Option E) (i : ℕ) (clock : ℕ → ℕ) where
  -- What the loop makes of a step that advances.
  resume :
      (left steps fuel : ℕ) (s : State E) (o : Option (Phase × State E))
      → ((after : Phase) (s' : State E)
          → OnTheWay i left after s'
          → rank after ≤ fuel
          → OpensWell i left (continue_open policy override i clock fuel after s'))
      → Advances i left steps o
      → steps ≤ suc fuel
      → let result : Opened × State E = elim o [
        | none ↦ (pending, s)
        | some (after, s') ↦ continue_open policy override i clock fuel after s'
      ] in
        OpensWell i left result
  resume left steps fuel s none again h fits = absurd h
  resume left steps fuel s (some (after, s')) again h fits = again after s' h.0 (omega arith)

  continue_open-OpensWell :
      (left fuel : ℕ) (phase : Phase) (s : State E)
      → OnTheWay i left phase s
      → rank phase ≤ fuel
      → OpensWell i left (continue_open policy override i clock fuel phase s)
  unfolding continue_open
  continue_open-OpensWell left zero phase s h fits = absurd (rank_pos phase fits)
  continue_open-OpensWell left (suc fuel) idle s h fits = absurd h
  continue_open-OpensWell left (suc fuel) (waiting g) s h fits = absurd h
  continue_open-OpensWell left (suc fuel) (running a) s h fits = h
  continue_open-OpensWell left (suc fuel) at_gate s h fits =
      resume left 5 fuel s _ (continue_open-OpensWell left fuel)
        (gate-Advances policy override i (clock fuel) left s h) fits
  continue_open-OpensWell left (suc fuel) (sleeping g) s h fits =
      resume left 4 fuel s _ (continue_open-OpensWell left fuel)
        (wake-Advances policy override i g left s h) fits
  continue_open-OpensWell left (suc fuel) (at_limiter p) s h fits =
      resume left 3 fuel s _ (continue_open-OpensWell left fuel)
        (limiter-Advances policy override i (clock fuel) left p s h) fits
  continue_open-OpensWell left (suc fuel) (at_semaphore p) s h fits =
      resume left 2 fuel s _ (continue_open-OpensWell left fuel)
        (semaphore-Advances policy override i (clock fuel) left p s h) fits

  opens_gate :
      (left : ℕ) (s : State E)
      → Solo i (suc left) s
      → act policy override opens i idle s ≡ some (at_gate, s)
  unfolding act
  opens_gate left s solo = ground arith

  open_attempt-OpensWell :
      (left : ℕ) (s : State E)
      → Solo i (suc left) s
      → OpensWell i left (open_attempt policy override i clock open_fuel s)
  unfolding open_attempt
  open_attempt-OpensWell left s solo =
      rw (opens_gate left s solo, open_attempt)
        (continue_open-OpensWell left open_fuel at_gate s solo (omega arith))

-- What a failed attempt does to the lone execution's state, and how it ends.
module _ {E : Type 0} (policy : Policy E) (i left : ℕ) where
  attempt_failed-Solo :
      (p : Permit) (error : E) (d : Draws) (s : State E)
      → Underway i (suc left) p s
      → let (may_retry, s') = attempt_failed policy i p error d s in
        (may_retry ≡ true)
        × ((s'.sessions i) ≡ (s.sessions i))
        × Led i s'.episode
        × (s'.free_slots ≡ s.free_slots)
  unfolding attempt_failed failed_with_budget matching_probe permit_is_current
  attempt_failed-Solo p error d s h = ground arith

-- The specification: `left` calls of `fn` at most, until one returns or fails for good.
abbrev pub conclude :
    {T E : Type 0} → Policy E → (E → Option E) → ℕ → Outcome T E → Finish T E → Finish T E
conclude policy override left (value v) rest = returned v
conclude policy override left (failure error) rest =
    if policy.retryable (effective_error override error) && not (left == 0)
    then rest
    else raised error

unfoldable pub expected :
    {T E : Type 0} → Policy E → (E → Option E) → ℕ → List (Call T E) → Finish T E
expected policy override left [] = unfinished
expected policy override zero (c ∷ cs) = not_opened
expected policy override (suc left) (c ∷ cs) =
    conclude policy override left c.outcome (expected policy override left cs)

module _ {E : Type 0} (policy : Policy E) (override : E → Option E) (i : ℕ) where
  -- A failure with attempts left hands a state on in which the execution is alone again.
  after_failure :
      (left closed_at : ℕ) (error : E) (a : Attempt) (d : Draws) (s : State E)
      → OnTheWay i (suc left) (running a) s
      → policy.retryable (effective_error override error) ≡ true
      → let (may_retry, a', s') = retry policy override i a error d s in
        (may_retry ≡ true) × Solo i (suc left) (aclose i closed_at a' s').1
  unfolding retry aclose
  after_failure left closed_at error a d s h again =
      let (may_retry, same, led, slots) =
        attempt_failed-Solo policy i left a.permit error d s h.2 in
      ground arith

  last_failure :
      (error : E) (a : Attempt) (d : Draws) (s : State E)
      → OnTheWay i 0 (running a) s
      → (retry policy override i a error d s).0 ≡ false
  unfolding retry attempt_failed
  last_failure error a d s h = ground arith

  final_failure :
      (left : ℕ) (error : E) (a : Attempt) (d : Draws) (s : State E)
      → OnTheWay i left (running a) s
      → policy.retryable (effective_error override error) ≡ false
      → (retry policy override i a error d s).0 ≡ false
  unfolding retry
  final_failure left error a d s h again = ground arith

module _ {T E : Type 0} (policy : Policy E) (override : E → Option E) (i : ℕ) where
  -- The rest of the loop agrees with the specification in every state that a retry leaves.
  abbrev Continues : ℕ → List (Call T E) → Type 0
  Continues zero cs = Unit
  Continues (suc left) cs =
      (s : State E)
      → Solo i (suc left) s
      → (run_with_retry policy override i cs s).0 ≡ expected policy override (suc left) cs

  after_call-expected :
      (left closed_at : ℕ) (o : Outcome T E) (d : Draws) (cs : List (Call T E)) (a : Attempt)
      (s : State E)
      → OnTheWay i left (running a) s
      → Continues left cs
      → (after_call policy override i o closed_at d a s (run_with_retry policy override i cs)).0
        ≡ conclude policy override left o (expected policy override left cs)
  unfolding after_call
  after_call-expected left closed_at (value v) d cs a s h again = refl
  after_call-expected zero closed_at (failure error) d cs a s h again =
      ground (arith, last_failure policy override i error a d s h)
  after_call-expected (suc left) closed_at (failure error) d cs a s h again =
      elim (Bool-cases (policy.retryable (effective_error override error))) [
        | inl yes_retry ↦
            let (may_retry, solo) =
              after_failure policy override i left closed_at error a d s h yes_retry in
            rw (may_retry, yes_retry, ==_ne (suc left) 0 (omega arith)) (again _ solo)
        | inr no_retry ↦
            rw (final_failure policy override i (suc left) error a d s h no_retry, no_retry)
      ]

  opened-expected :
      (left : ℕ) (c : Call T E) (cs : List (Call T E)) (r : Opened × State E)
      → OpensWell i left r
      → Continues left cs
      → let finish : Finish T E × State E = elim r.0 [
        | opened a ↦
            after_call policy override i c.outcome c.closed_at c.draws a r.1
              (run_with_retry policy override i cs)
        | exception ↦ (not_opened, r.1)
        | pending ↦ (unfinished, r.1)
      ] in
        finish.0 ≡ conclude policy override left c.outcome (expected policy override left cs)
  opened-expected left c cs (opened a, s) h again =
      after_call-expected left c.closed_at c.outcome c.draws cs a s h again
  opened-expected left c cs (exception, s) h again = absurd h
  opened-expected left c cs (pending, s) h again = absurd h

  run-Continues : (left : ℕ) (cs : List (Call T E)) → Continues left cs
  unfolding run_with_retry expected
  run-Continues zero cs = tt
  run-Continues (suc left) [] = λ s solo. refl
  run-Continues (suc left) (c ∷ cs) = λ s solo.
      opened-expected left c cs (open_attempt policy override i c.clock open_fuel s)
        (open_attempt-OpensWell policy override i c.clock left s solo) (run-Continues left cs)

  -- An execution alone, whose session has `left` attempts, and no recovery episode but its own: the
  -- loop calls `fn` until it returns, until it fails with what is not retryable, or for the `left`-th
  -- time; the value, or the last call's own error, is its result, and it never waits for another.
  pub run_with_retry_alone :
      (left : ℕ) (cs : List (Call T E)) (s : State E)
      → 0 < left
      → Solo i left s
      → (run_with_retry policy override i cs s).0 ≡ expected policy override left cs
  run_with_retry_alone zero cs s h solo = absurd (omega arith)
  run_with_retry_alone (suc left) cs s h solo = run-Continues (suc left) cs s solo
