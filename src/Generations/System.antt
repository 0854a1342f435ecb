-- ===== src/Generations/System.antt =====
-- runtime/provider_manager.py: the manager with the leases that its callers and its refreshes hold. A
-- refresh may begin on any generation that is not closed: which refreshes the manager schedules and
-- cancels is left open.
use agentic_model_gateway.Base.{
  ltb, subst, arith, Option-cases, inl, inr, ℕ, ◌≡◌, Bool, true, false, not, ◌&&◌, Option, none,
  some, List, [], ◌∷◌, ◌++◌, if◌then◌else◌, get_elem?, set,
}
use agentic_model_gateway.Generations.{
  Manager, new_manager, acquire, open_refresh, release, publish, cleanup_unpublished, end_cleanup,
  begin_close, sweep, end_close,
}

-- class ProviderGenerationLease, and the lease that a refresh returns when it ends.
pub record Lease : Type 0 where
  pub generation : ℕ
  pub released : Bool
  pub of_refresh : Bool

abbrev pub new_lease : ℕ → Bool → Lease
new_lease g of_refresh = record { generation = g; released = false; of_refresh = of_refresh }

pub record World : Type 0 where
  pub manager : Manager
  pub leases : List Lease

abbrev pub new_world : ℕ → World
new_world runtime = record { manager = new_manager runtime; leases = [] }

pub data Action : Type 0 where
  acquires begins_close sweeps ends_close : Action
  refreshes releases : ℕ → Action
  publishes : (runtime : ℕ) → Action
  cleans_unpublished : (runtime : ℕ) → (succeeded : Bool) → Action
  ends_cleanup : (generation : ℕ) → (succeeded : Bool) → Action

abbrev with_lease : List Lease → ℕ → Bool → Manager → World
with_lease leases g of_refresh m = record {
  manager = m;
  leases = leases ++ new_lease g of_refresh ∷ [];
}

-- `ProviderGenerationLease.release`: only the first call returns the lease.
unfoldable pub release_lease : ℕ → Lease → World → World
unfolding release
release_lease k lease w = if lease.released then w else record {
  manager = release lease.generation w.manager;
  leases = set w.leases k (record lease { released = true });
}

abbrev pub on_manager : World → Option Manager → Option World
on_manager w none = none
on_manager w (some m) = some (record w { manager = m })

abbrev pub acquired : World → Option (ℕ × Manager) → Option World
acquired w none = none
acquired w (some (g, m)) = some (with_lease w.leases g false m)

abbrev pub refreshed : World → ℕ → Option Manager → Option World
refreshed w g none = none
refreshed w g (some m) = some (with_lease w.leases g true m)

abbrev pub published : World → Option (ℕ × Manager) → Option World
published w none = none
published w (some (g, m)) = some (record w { manager = m })

-- Whether a generation of that id has been published.
abbrev pub exists_generation : ℕ → Manager → Bool
exists_generation g m = ltb 0 g && ltb g m.next_generation_id

abbrev pub released_at : World → ℕ → Option Lease → Option World
unfolding release_lease
released_at w k none = none
released_at w k (some lease) = some (release_lease k lease w)

-- `none` where the call raises, or what the action waits for has not come about.
unfoldable pub act : Action → World → Option World
unfolding acquire open_refresh publish cleanup_unpublished end_cleanup begin_close sweep end_close
    release_lease
act acquires w = acquired w (acquire w.manager)
act (refreshes g) w =
    if exists_generation g w.manager then refreshed w g (open_refresh g w.manager) else none
act (releases k) w = released_at w k (get_elem? w.leases k)
act (publishes runtime) w = published w (publish runtime w.manager)
act (cleans_unpublished runtime ok) w =
    some (record w { manager = cleanup_unpublished runtime ok w.manager })
act (ends_cleanup g ok) w =
    if (w.manager.generations g).has_cleanup_task && not (w.manager.generations g).closed
    then some (record w { manager = end_cleanup g ok w.manager })
    else none
act begins_close w = on_manager w (begin_close w.manager)
act sweeps w = on_manager w (sweep w.manager)
act ends_close w = on_manager w (end_close w.manager)

pub data Reach (runtime : ℕ) : World → Type 0 where
  start : Reach runtime (new_world runtime)
  next :
      (w w' : World) (action : Action) → Reach runtime w → act action w ≡ some w' → Reach runtime w'

-- A schedule, with `none` where one of its actions is not possible.
unfoldable pub play : List Action → World → Option World
unfolding act
play [] w = some w
play (action ∷ actions) w = elim (act action w) [ none ↦ none | some w' ↦ play actions w' ]

pub play-Reach :
    {runtime : ℕ} (actions : List Action) (w w' : World)
    → Reach runtime w
    → play actions w ≡ some w'
    → Reach runtime w'
unfolding play
play-Reach {runtime} [] w w' r e = let same : w ≡ w' = cc in subst (Reach runtime) same r
play-Reach (action ∷ actions) w w' r e = elim (Option-cases (act action w)) [
  | inl stuck ↦ absurd (ground (arith, stuck, e))
  | inr (w'', acted) ↦
      play-Reach actions w'' w' (next w w'' action r acted) (ground (arith, acted, e))
]
