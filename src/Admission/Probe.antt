-- ===== src/Admission/Probe.antt =====
-- An active probe always has a holder, and only the leader of its episode holds one.
pub mod Held
use agentic_model_gateway.Base.{
  update, ℕ, zero, suc, ◌+◌, ◌-◌, ◌≤◌, ◌<◌, ◌≡◌, refl, ◌∙◌, subst, fun_ext, sym, ap, inl, inr, Bool,
  true, false, not, ◌&&◌, Option, none, some, List, [], ◌∷◌, ◌==◌, if◌then◌else◌, get_elem?, set,
  replicate, arith, Bool-cases, Option-cases,
}
use agentic_model_gateway.Admission.State.{
  Policy, Permit, Session, Episode, Config, State, new_state, claim_attempt, start_recovery_episode,
  same_generation, leads,
}
use agentic_model_gateway.Admission.Gate.{
  gate, wake, cancel_wait, abandon_waiting_leader, permit_is_current, abandon_probe_permit,
  matching_probe, elect, take_role, enter_episode,
}
use agentic_model_gateway.Admission.Attempt.{
  Attempt, new_attempt, Draws, succeeded, retry_immediately, retry, aclose, close_episode,
  attempt_corrected, attempt_failed, failed_with_budget, failed_without_budget, exhaust_episode,
}
use agentic_model_gateway.Admission.System.{
  Phase, idle, at_gate, waiting, sleeping, at_limiter, at_semaphore, running, Action, opens,
  notified, awake, enters, cancelled, limited, takes_slot, corrects, closes, succeeds, fails, act,
  pass_limiter, after_gate, after_wake, take_slot, World, Step, step, Reach, here, next,
}
use agentic_model_gateway.Admission.Phases.{
  phase_of, phase_of-get_elem?, phase_of-set, phase_of-idle,
}
use Held.{
  is_probe_of, holds_probe, leader_holds, ProbeHeld, gate-ProbeHeld, wake-ProbeHeld,
  abandon_probe_permit-ProbeHeld, kept-ProbeHeld, cancel_wait-ProbeHeld,
  abandon_waiting_leader-ProbeHeld, pass_limiter-ProbeHeld, take_slot-ProbeHeld,
  succeeded-ProbeHeld, retry_immediately-ProbeHeld, retry-ProbeHeld, aclose-ProbeHeld,
}

-- Attempts that run are not closed.
abbrev pub IsOpen : Phase → Type 0
IsOpen (running a) = a.closed ≡ false
IsOpen _ = Unit

module _ {E : Type 0} (policy : Policy E) (override : E → Option E) (phase : ℕ → Phase) where
  act-ProbeHeld :
      (action : Action E) (i : ℕ) (now after : Phase) (s s' : State E)
      → phase i ≡ now
      → IsOpen now
      → act policy override action i now s ≡ some (after, s')
      → ProbeHeld s.episode phase
      → ProbeHeld s'.episode (update phase i after)
  unfolding act
  act-ProbeHeld opens i idle after s s' e o a h = ground (
    arith,
    kept-ProbeHeld phase i at_gate s.episode
        (λ (g : ℕ) (k : holds_probe g (phase i) ≡ true). absurd (cc)) h,
  )
  act-ProbeHeld (enters now) i at_gate after s s' e o a h =
      ground (arith, gate-ProbeHeld phase i now s e h)
  act-ProbeHeld notified i (waiting g) after s s' e o a h = ground (
    arith,
    kept-ProbeHeld phase i at_gate s.episode
        (λ (g : ℕ) (k : holds_probe g (phase i) ≡ true). absurd (cc)) h,
  )
  act-ProbeHeld awake i (sleeping g) after s s' e o a h =
      ground (arith, wake-ProbeHeld phase i g s e h)
  act-ProbeHeld (limited now) i (at_limiter p) after s s' e o a h =
      ground (arith, pass_limiter-ProbeHeld phase i now p s e h)
  act-ProbeHeld (takes_slot now) i (at_semaphore p) after s s' e o a h =
      ground (arith, take_slot-ProbeHeld phase i now p s e h)
  act-ProbeHeld succeeds i (running t) after s s' e o a h =
      ground (arith, succeeded-ProbeHeld phase i t s e h)
  act-ProbeHeld (corrects now) i (running t) after s s' e o a h =
      ground (arith, retry_immediately-ProbeHeld phase i now t s e h)
  act-ProbeHeld (fails error d) i (running t) after s s' e o a h =
      ground (arith, retry-ProbeHeld phase i policy override t error d s e h)
  act-ProbeHeld (closes now) i (running t) after s s' e o a h =
      ground (arith, aclose-ProbeHeld phase i now t s e o h)
  act-ProbeHeld (cancelled now) i (waiting g) after s s' e o a h =
      ground (arith, cancel_wait-ProbeHeld phase i g s e h)
  act-ProbeHeld (cancelled now) i (sleeping g) after s s' e o a h =
      ground (arith, abandon_waiting_leader-ProbeHeld phase i g s e h)
  act-ProbeHeld (cancelled now) i (at_limiter p) after s s' e o a h = ground (
    arith,
    abandon_probe_permit-ProbeHeld phase i now p idle s (λ (g : ℕ). ap (holds_probe g) e) h,
  )
  act-ProbeHeld (cancelled now) i (at_semaphore p) after s s' e o a h = ground (
    arith,
    abandon_probe_permit-ProbeHeld phase i now p idle s (λ (g : ℕ). ap (holds_probe g) e) h,
  )
  act-ProbeHeld _ i _ after s s' e o a h = absurd (cc)

  act-IsOpen :
      (action : Action E) (i : ℕ) (now after : Phase) (s s' : State E)
      → IsOpen now
      → act policy override action i now s ≡ some (after, s')
      → IsOpen after
  unfolding act gate wake pass_limiter take_slot succeeded retry_immediately retry
  act-IsOpen opens i idle after s s' o a = ground arith
  act-IsOpen (enters now) i at_gate after s s' o a = ground arith
  act-IsOpen notified i (waiting g) after s s' o a = ground arith
  act-IsOpen awake i (sleeping g) after s s' o a = ground arith
  act-IsOpen (limited now) i (at_limiter p) after s s' o a = ground arith
  act-IsOpen (takes_slot now) i (at_semaphore p) after s s' o a = ground arith
  act-IsOpen succeeds i (running t) after s s' o a = ground arith
  act-IsOpen (corrects now) i (running t) after s s' o a = ground arith
  act-IsOpen (fails error d) i (running t) after s s' o a = ground arith
  act-IsOpen (closes now) i (running t) after s s' o a = ground arith
  act-IsOpen (cancelled now) i (waiting g) after s s' o a = ground arith
  act-IsOpen (cancelled now) i (sleeping g) after s s' o a = ground arith
  act-IsOpen (cancelled now) i (at_limiter p) after s s' o a = ground arith
  act-IsOpen (cancelled now) i (at_semaphore p) after s s' o a = ground arith
  act-IsOpen _ i _ after s s' o a = absurd (cc)

-- What every reachable world satisfies.
record Coordinated {E : Type 0} (w : World E) : Type 0 where
  held : ProbeHeld w.state.episode (phase_of w.phases)
  unclosed : (i : ℕ) → IsOpen (phase_of w.phases i)

update-IsOpen :
    (phase : ℕ → Phase) (i j : ℕ) (after : Phase)
    → IsOpen after
    → IsOpen (phase j)
    → IsOpen (update phase i after j)
update-IsOpen phase i j after new old = elim (Bool-cases (i == j)) [
  | inl e ↦ rw e new
  | inr e ↦ rw e old
]

leader_of :
    (phase : ℕ → Phase) (leader : Option ℕ) (g : ℕ)
    → leader_holds phase leader g ≡ true
    → (i : ℕ) × (leader ≡ some i) × (holds_probe g (phase i) ≡ true)
leader_of phase none g h = absurd (cc)
leader_of phase (some i) g h = (i, refl, h)

init-Coordinated :
    {E : Type 0} (s : State E) (n : ℕ)
    → s.episode ≡ none
    → Coordinated (record { state = s; phases = replicate n idle })
init-Coordinated s n quiet = record {
  held = rw quiet tt;
  unclosed = λ i. rw (phase_of-idle n i) tt;
}

module _ {E : Type 0} {policy : Policy E} {override : E → Option E} where
  Step-Coordinated : {u v : World E} → Step policy override u v → Coordinated u → Coordinated v
  Step-Coordinated {u} (step i action now after s found acted) c =
      let at = phase_of-get_elem? u.phases i now found in
      let moved = fun_ext (λ j. phase_of-set u.phases i j now after found) in
      let unclosed = subst IsOpen at (c.unclosed i) in
      record {
        held = subst (ProbeHeld s.episode) (sym moved) (
            act-ProbeHeld policy override (phase_of u.phases) action i now after u.state s at
              unclosed acted c.held);
        unclosed = λ j.
            subst (λ (f : ℕ → Phase). IsOpen (f j)) (sym moved)
              (update-IsOpen (phase_of u.phases) i j after
                (act-IsOpen policy override (phase_of u.phases) action i now after u.state s
                  unclosed acted)
                (c.unclosed j));
      }

  Reach-Coordinated : {u v : World E} → Reach policy override u v → Coordinated u → Coordinated v
  Reach-Coordinated here c = c
  Reach-Coordinated (next r st) c = Step-Coordinated st (Reach-Coordinated r c)

  -- In every world that can be reached from a controller without an episode and from idle executions:
  -- while a probe is active, there is a leader, and it holds the permit of that probe and has not
  -- reported the attempt's end, whatever was cancelled. Nothing is said of an episode without an active
  -- probe.
  pub active_probe_has_holder :
      (s : State E) (n : ℕ) {v : World E} (ep : Episode E)
      → s.episode ≡ none
      → Reach policy override (record { state = s; phases = replicate n idle }) v
      → v.state.episode ≡ some ep
      → ep.probe_active ≡ true
      → (i : ℕ) × (ep.leader ≡ some i) × (holds_probe ep.generation (phase_of v.phases i) ≡ true)
  active_probe_has_holder s n {v} ep quiet reached open_episode active =
      leader_of (phase_of v.phases) ep.leader ep.generation (
        subst (λ o. ProbeHeld o (phase_of v.phases)) open_episode
          (Reach-Coordinated reached (init-Coordinated s n quiet)).held active)
