-- ===== src/Generations/Open.antt =====
-- A generation that a caller has leased stays open.
use agentic_model_gateway.Base.{
  ℕ, ◌<◌, ◌≡◌, refl, subst, true, false, not, ◌&&◌, ◌||◌, some, List, [], ◌∷◌, ◌==◌, get_elem?, set,
  total, get_elem?-le-total, arith, add, discard, either, contains, contains-add, Holds,
  Option-cases, inl, inr,
}
use agentic_model_gateway.Generations.{
  Manager, change, acquire, open_refresh, start_cleanup, returned, release, publish,
  cleanup_unpublished, begin_close, start_cleanups, sweep, all_drained, all_closed, no_unpublished,
  end_close,
}
use agentic_model_gateway.Generations.System.{
  Lease, World, new_world, Action, acquires, begins_close, sweeps, ends_close, refreshes, releases,
  publishes, cleans_unpublished, ends_cleanup, release_lease, on_manager, acquired, refreshed,
  published, act, exists_generation, Reach, start, next,
}
use agentic_model_gateway.Generations.Counted.{
  Inv, held_on, open_on, start_cleanup-Inv, leased-Inv, returned-Inv, end_cleanup-Inv,
  succeeded-Inv, shut-Inv, reshut-Inv, other_fields-Inv,
}

abbrev pub WorldInv : World → Type 0
WorldInv w = Inv w.manager w.leases

new_world-Inv : (runtime : ℕ) → WorldInv (new_world runtime)
unfolding total contains
new_world-Inv runtime = record {
  counted = λ g. refl;
  kept = λ g e. refl;
  retired_first = λ g e. ground (arith, e);
  current_open = λ e. refl;
  positive = omega arith;
  older = omega arith;
  listed = λ g e. (ground (arith, e), ground (arith, e));
  unborn = λ g le. refl;
}

start_cleanup-retired :
    (g i : ℕ) (m : Manager)
    → ((start_cleanup g m).generations i).retired ≡ (m.generations i).retired
unfolding start_cleanup
start_cleanup-retired g i m = ground arith

start_cleanups-Inv :
    (gs : List ℕ) (m : Manager) (leases : List Lease)
    → ((i : ℕ) → contains i gs ≡ true → (m.generations i).retired ≡ true)
    → Inv m leases
    → Inv (start_cleanups gs m) leases
unfolding start_cleanups contains
start_cleanups-Inv [] m leases r h = h
start_cleanups-Inv (g ∷ gs) m leases r h =
    start_cleanups-Inv gs (start_cleanup g m) leases
      (λ i e. ground (arith, start_cleanup-retired g i m, r i, e))
      (start_cleanup-Inv g m leases (ground (arith, r g)) h)

release-Inv :
    (k : ℕ) (lease : Lease) (m : Manager) (leases : List Lease)
    → get_elem? leases k ≡ some lease
    → lease.released ≡ false
    → Inv m leases
    → Inv (release lease.generation m) (set leases k (record lease { released = true }))
unfolding release
release-Inv k lease m leases found fresh h =
    let g = lease.generation in
    let m' = change g returned m in
    let h' = returned-Inv k lease m leases found fresh h in
    let after = set leases k (record lease { released = true }) in
    either (λ x. Inv x after) ((m.generations g).active_leases == 0)
      (λ e. absurd (
        ground (arith, h.counted g, get_elem?-le-total (open_on g) leases k lease found, fresh, e)))
      (λ e.
        either (λ x. Inv x after)
          ((m'.generations g).active_leases == 0 && ((m'.generations g).retired && not m'.closing))
          (λ last. start_cleanup-Inv g m' after (ground (arith, last)) h') (λ more. h'))

publish-Inv :
    (runtime : ℕ) (w : World)
    → WorldInv w
    → Holds WorldInv (published w (publish runtime w.manager))
unfolding publish
publish-Inv runtime w h =
    either (λ o. Holds WorldInv (published w o)) (w.manager.closing || w.manager.closed) (λ e. tt)
      (λ e.
        start_cleanup-Inv w.manager.current _ w.leases (ground (arith, h.older))
          (succeeded-Inv runtime w.manager w.leases h))

begin_close-Inv : (w : World) → WorldInv w → Holds WorldInv (on_manager w (begin_close w.manager))
unfolding begin_close
begin_close-Inv w h =
    either (λ o. Holds WorldInv (on_manager w o)) w.manager.closed (λ e. tt)
      (λ e.
        either (λ m. Inv (record m { closing_generations = m.retired_ids }) w.leases)
          (w.manager.generations w.manager.current).retired (λ r. reshut-Inv w.manager w.leases h)
          (λ r.
            shut-Inv (add w.manager.current w.manager.retired_ids) w.manager w.leases
              (λ g here.
                ground (arith, here, contains-add w.manager.current g w.manager.retired_ids))
              h))

act-Inv : (action : Action) (w : World) → WorldInv w → Holds WorldInv (act action w)
unfolding act acquire open_refresh cleanup_unpublished sweep end_close release_lease
act-Inv acquires w h =
    either (λ o. Holds WorldInv (acquired w o)) (w.manager.closing || w.manager.closed) (λ e. tt)
      (λ e.
        leased-Inv w.manager.current false w.manager w.leases h.older
          (λ f. ground (arith, h.current_open, h.retired_first w.manager.current, e)) h)
act-Inv (refreshes g) w h =
    either (Holds WorldInv) (exists_generation g w.manager)
      (λ e.
        either (λ o. Holds WorldInv (refreshed w g o)) (w.manager.generations g).closed (λ c. tt)
          (λ c.
            leased-Inv g true w.manager w.leases (ground (arith, e)) (λ f. ground (arith, f)) h))
      (λ e. tt)
act-Inv (releases k) w h = elim (Option-cases (get_elem? w.leases k)) [
  | inl missing ↦ rw missing tt
  | inr (lease, found) ↦ rw found (
      either WorldInv lease.released (λ e. h)
        (λ fresh. release-Inv k lease w.manager w.leases found fresh h))
]
act-Inv (publishes runtime) w h = publish-Inv runtime w h
act-Inv (cleans_unpublished runtime true) w h =
    other_fields-Inv (discard runtime w.manager.unpublished) w.manager.closed w.manager w.leases h
act-Inv (cleans_unpublished runtime false) w h =
    other_fields-Inv (add runtime w.manager.unpublished) w.manager.closed w.manager w.leases h
act-Inv (ends_cleanup g ok) w h =
    either (Holds WorldInv)
      ((w.manager.generations g).has_cleanup_task && not (w.manager.generations g).closed)
      (λ e. end_cleanup-Inv g ok w.manager w.leases (ground (arith, e)) h) (λ e. tt)
act-Inv begins_close w h = begin_close-Inv w h
act-Inv sweeps w h =
    either (λ o. Holds WorldInv (on_manager w o))
      (w.manager.closing && all_drained w.manager.closing_generations w.manager.generations)
      (λ e.
        start_cleanups-Inv w.manager.closing_generations w.manager w.leases
          (λ g here. (h.listed g (ground (arith, here))).0) h)
      (λ e. tt)
act-Inv ends_close w h =
    either (λ o. Holds WorldInv (on_manager w o))
      (w.manager.closing
        && (all_closed w.manager.closing_generations w.manager.generations
            && no_unpublished w.manager.unpublished))
      (λ e. other_fields-Inv w.manager.unpublished true w.manager w.leases h) (λ e. tt)

pub Reach-Inv : {runtime : ℕ} {w : World} → Reach runtime w → WorldInv w
Reach-Inv {runtime} start = new_world-Inv runtime
Reach-Inv (next w w' action r e) = subst (Holds WorldInv) e (act-Inv action w (Reach-Inv r))

-- In every world that is reached, the generation of a lease that a caller has acquired and not
-- released is not closed, has no task that closes its runtime, and counts the lease.
pub leased_generation_open :
    {runtime : ℕ} {w : World} (k : ℕ) (lease : Lease)
    → Reach runtime w
    → get_elem? w.leases k ≡ some lease
    → lease.released ≡ false
    → lease.of_refresh ≡ false
    → let gen = w.manager.generations lease.generation in
      (gen.closed ≡ false) × (gen.has_cleanup_task ≡ false) × (0 < gen.active_leases)
leased_generation_open {w = w} k lease r found fresh mine =
    let h = Reach-Inv r in
    let held = get_elem?-le-total (held_on lease.generation) w.leases k lease found in
    let opened = get_elem?-le-total (open_on lease.generation) w.leases k lease found in
    (
      ground (arith, h.kept lease.generation, held, fresh, mine),
      ground (arith, h.kept lease.generation, held, fresh, mine),
      ground (arith, h.counted lease.generation, opened, fresh),
    )

-- In every world that is reached, the counter of a generation is the number of the leases on it that
-- callers and refreshes have not returned.
pub leases_counted :
    {runtime : ℕ} {w : World} (g : ℕ)
    → Reach runtime w
    → (w.manager.generations g).active_leases ≡ total (open_on g) w.leases
leases_counted g r = (Reach-Inv r).counted g
