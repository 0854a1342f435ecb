-- ===== src/Admission/Exclusive.antt =====
-- Mutual exclusion of the probes: generations are never used twice, and the permit of the current
-- episode's probe is with its leader alone.
pub mod Steps
use agentic_model_gateway.Base.{
  update, ℕ, zero, suc, ◌+◌, ◌-◌, ◌≤◌, ◌<◌, ◌≡◌, ◌≢◌, refl, ◌∙◌, subst, fun_ext, sym, ap, inl, inr,
  Bool, true, false, not, ◌&&◌, Option, none, some, List, [], ◌∷◌, ◌==◌, if◌then◌else◌, get_elem?,
  set, replicate, arith, Bool-cases, Option-cases, is_none, ℕ_discrete, ==_refl, ==_ne,
}
use agentic_model_gateway.Admission.State.{
  Policy, Permit, Session, Episode, Config, State, new_state, claim_attempt, start_recovery_episode,
  same_generation, leads,
}
use agentic_model_gateway.Admission.Gate.{
  gate, wake, cancel_wait, abandon_waiting_leader, permit_is_current, abandon_probe_permit,
  matching_probe, elect, take_role, enter_episode,
}
use agentic_model_gateway.Admission.Attempt.{
  Attempt, new_attempt, Draws, succeeded, retry_immediately, retry, aclose, close_episode,
  attempt_corrected, attempt_failed, failed_with_budget, failed_without_budget, exhaust_episode,
}
use agentic_model_gateway.Admission.System.{
  Phase, idle, at_gate, waiting, sleeping, at_limiter, at_semaphore, running, Action, opens,
  notified, awake, enters, cancelled, limited, takes_slot, corrects, closes, succeeds, fails, act,
  pass_limiter, after_gate, after_wake, take_slot, World, Step, step, Reach, here, next,
}
use agentic_model_gateway.Admission.Phases.{
  phase_of, phase_of-get_elem?, phase_of-set, phase_of-idle,
}
use Steps.{probe_of, Backed, Entitled, IsFresh, act-IsFresh, act-Entitled_self, act-Entitled_other}

record Exclusive {E : Type 0} (w : World E) : Type 0 where
  fresh : IsFresh w.state.episode w.state.next_generation
  entitled : (i : ℕ) → Entitled w.state i (probe_of (phase_of w.phases i))

init-Exclusive :
    {E : Type 0} (s : State E) (n : ℕ)
    → s.episode ≡ none
    → Exclusive (record { state = s; phases = replicate n idle })
init-Exclusive s n quiet = record { fresh = rw quiet tt; entitled = λ i. rw (phase_of-idle n i) tt }

others-Entitled :
    {E : Type 0} (policy : Policy E) (override : E → Option E) (action : Action E) (i j : ℕ)
    (o : Option ℕ) (at after : Phase) (s s' : State E)
    → act policy override action i at s ≡ some (after, s')
    → IsFresh s.episode s.next_generation
    → j ≢ i
    → Entitled s j o
    → Entitled s' j o
others-Entitled policy override action i j none at after s s' acted fresh ne h = tt
others-Entitled policy override action i j (some g) at after s s' acted fresh ne h =
    act-Entitled_other policy override action i j g at after s s' acted fresh ne h

-- After a step of `i`, by whether `j` is `i`.
Step-Entitled :
    {E : Type 0} (policy : Policy E) (override : E → Option E) (u : World E) (i j : ℕ)
    (action : Action E) (at after : Phase) (s : State E)
    → get_elem? u.phases i ≡ some at
    → act policy override action i at u.state ≡ some (after, s)
    → Exclusive u
    → Entitled s j (probe_of (update (phase_of u.phases) i after j))
Step-Entitled policy override u i j action at after s found acted x =
    let here_at = phase_of-get_elem? u.phases i at found in
    elim (ℕ_discrete i j) [
      | yes e ↦
          subst (λ k. Entitled s k (probe_of (update (phase_of u.phases) i after k))) e
            (rw (==_refl i) (
              act-Entitled_self policy override action i at after u.state s acted x.fresh
                (subst (λ p. Entitled u.state i (probe_of p)) here_at (x.entitled i))))
      | no ne ↦ rw (==_ne i j ne) (
          others-Entitled policy override action i j (probe_of (phase_of u.phases j)) at after
            u.state s acted x.fresh (λ e. ne (sym e)) (x.entitled j))
    ]

module _ {E : Type 0} {policy : Policy E} {override : E → Option E} where
  Step-Exclusive : {u v : World E} → Step policy override u v → Exclusive u → Exclusive v
  Step-Exclusive {u} (step i action at after s found acted) x = record {
    fresh = act-IsFresh policy override action i at after u.state s acted x.fresh;
    entitled = λ j.
        rw (phase_of-set u.phases i j at after found)
          (Step-Entitled policy override u i j action at after s found acted x);
  }

  Reach-Exclusive : {u v : World E} → Reach policy override u v → Exclusive u → Exclusive v
  Reach-Exclusive here x = x
  Reach-Exclusive (next r st) x = Step-Exclusive st (Reach-Exclusive r x)

same_leader : (i j : ℕ) (leader : Option ℕ) → leads i leader ≡ true → leads j leader ≡ true → i ≡ j
same_leader i j leader h k = ground arith

Entitled-leads :
    {E : Type 0} (s : State E) (j : ℕ) (o : Option ℕ) (ep : Episode E)
    → Entitled s j o
    → s.episode ≡ some ep
    → o ≡ some ep.generation
    → (leads j ep.leader ≡ true) × (ep.probe_active ≡ true)
Entitled-leads {E} s j o ep h open_episode holds =
    let fact = subst (Entitled s j) holds h in
    subst (λ (e : Option (Episode E)). Backed e j ep.generation) open_episode fact.1 refl

-- In every world that can be reached from a controller without an episode and from idle executions,
-- two executions that both have the probe of the current episode ahead of them or under way are one
-- execution, the leader: the recovery is probed once at a time, across cancellations, corrections,
-- failures and new episodes.
pub one_probe :
    {E : Type 0} {policy : Policy E} {override : E → Option E} (s : State E) (n : ℕ) {v : World E}
    (ep : Episode E) (i j : ℕ)
    → s.episode ≡ none
    → Reach policy override (record { state = s; phases = replicate n idle }) v
    → v.state.episode ≡ some ep
    → probe_of (phase_of v.phases i) ≡ some ep.generation
    → probe_of (phase_of v.phases j) ≡ some ep.generation
    → (i ≡ j) × (leads i ep.leader ≡ true) × (ep.probe_active ≡ true)
one_probe s n {v} ep i j quiet reached open_episode first second =
    let x = Reach-Exclusive reached (init-Exclusive s n quiet) in
    let (leads_i, active) = Entitled-leads v.state i _ ep (x.entitled i) open_episode first in
    let (leads_j, _) = Entitled-leads v.state j _ ep (x.entitled j) open_episode second in
    (same_leader i j ep.leader leads_i leads_j, leads_i, active)
