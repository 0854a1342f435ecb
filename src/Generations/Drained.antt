-- ===== src/Generations/Drained.antt =====
-- A manager that is closed has closed every generation.
use agentic_model_gateway.Base.{
  ℕ, ◌<◌, ◌≡◌, ◌≢◌, refl, subst, Bool, true, false, not, ◌&&◌, ◌||◌, List, [], ◌∷◌, ◌==◌, get_elem?,
  total, arith, update, add, discard, contains, contains-add, contains-discard, either, Holds,
  ℕ_discrete, Option-cases, inl, inr,
}
use agentic_model_gateway.Generations.{
  Generation, Manager, change, leased, cleaned, uncleaned, succeeded_by, acquire, open_refresh,
  start_cleanup, end_cleanup, returned, release, publish, cleanup_unpublished, begin_close,
  start_cleanups, sweep, all_drained, all_closed, no_unpublished, end_close,
}
use agentic_model_gateway.Generations.System.{
  World, new_world, Action, acquires, begins_close, sweeps, ends_close, refreshes, releases,
  publishes, cleans_unpublished, ends_cleanup, release_lease, on_manager, acquired, refreshed,
  published, act, exists_generation, Reach, start, next,
}
use agentic_model_gateway.Generations.Counted.{held_on}
use agentic_model_gateway.Generations.Open.{Reach-Inv}

-- Every generation but the current one is retired; a retired one is listed until it is closed, and a
-- shutdown waits for all that are not closed.
record Listed (m : Manager) : Type 0 where
  current_born : (0 < m.current) × (m.current < m.next_generation_id)
  past :
      (g : ℕ) → 0 < g → g < m.next_generation_id → g ≢ m.current → (m.generations g).retired ≡ true
  kept_listed :
      (g : ℕ)
      → 0 < g
      → g < m.next_generation_id
      → (m.generations g).retired ≡ true
      → ((m.generations g).closed || contains g m.retired_ids) ≡ true
  awaited :
      m.closing ≡ true
      → (g : ℕ) → 0 < g
      → g < m.next_generation_id
      → ((m.generations g).closed || contains g m.closing_generations) ≡ true
  all_ended :
      m.closed ≡ true
      → (m.closing ≡ true)
        × ((g : ℕ) → 0 < g → g < m.next_generation_id → (m.generations g).closed ≡ true)

abbrev WorldListed : World → Type 0
WorldListed w = Listed w.manager

-- A change of one generation that leaves it retired and closed as it is.
change-Listed :
    (g : ℕ) (f : Generation → Generation) (m : Manager)
    → ((gen : Generation) → ((f gen).retired ≡ gen.retired) × ((f gen).closed ≡ gen.closed))
    → Listed m
    → Listed (change g f m)
change-Listed g f m same h =
    let gen = m.generations g in
    record {
      current_born = h.current_born;
      past = λ i p b ne. ground (arith, same gen, h.past i);
      kept_listed = λ i p b r. ground (arith, same gen, h.kept_listed i);
      awaited = λ c i p b. ground (arith, same gen, h.awaited c i);
      all_ended = λ c. ((h.all_ended c).0, λ i p b. ground (arith, same gen, (h.all_ended c).1 i));
    }

start_cleanup-Listed : (g : ℕ) (m : Manager) → Listed m → Listed (start_cleanup g m)
unfolding start_cleanup
start_cleanup-Listed g m h =
    either Listed ((m.generations g).closed || not ((m.generations g).active_leases == 0)) (λ e. h)
      (λ e. change-Listed g cleaned m (λ gen. (refl, refl)) h)

start_cleanups-Listed : (gs : List ℕ) (m : Manager) → Listed m → Listed (start_cleanups gs m)
unfolding start_cleanups
start_cleanups-Listed [] m h = h
start_cleanups-Listed (g ∷ gs) m h =
    start_cleanups-Listed gs (start_cleanup g m) (start_cleanup-Listed g m h)

release-Listed : (g : ℕ) (m : Manager) → Listed m → Listed (release g m)
unfolding release
release-Listed g m h =
    let m' = change g returned m in
    let h' = change-Listed g returned m (λ gen. (refl, refl)) h in
    either Listed ((m.generations g).active_leases == 0) (λ e. h)
      (λ e.
        either Listed
          ((m'.generations g).active_leases == 0 && ((m'.generations g).retired && not m'.closing))
          (λ last. start_cleanup-Listed g m' h') (λ more. h'))

end_cleanup-Listed : (g : ℕ) (ok : Bool) (m : Manager) → Listed m → Listed (end_cleanup g ok m)
unfolding end_cleanup
end_cleanup-Listed g false m h = change-Listed g uncleaned m (λ gen. (refl, refl)) h
end_cleanup-Listed g true m h = record {
  current_born = h.current_born;
  past = λ i p b ne. ground (arith, h.past i);
  kept_listed = λ i p b r. ground (arith, h.kept_listed i, contains-discard g i m.retired_ids);
  awaited = λ c i p b. ground (arith, h.awaited c i);
  all_ended = λ c. ((h.all_ended c).0, λ i p b. ground (arith, (h.all_ended c).1 i));
}

publish-Listed :
    (runtime : ℕ) (w : World)
    → Listed w.manager
    → Holds WorldListed (published w (publish runtime w.manager))
unfolding publish
publish-Listed runtime w h =
    let m = w.manager in
    either (λ o. Holds WorldListed (published w o)) (m.closing || m.closed) (λ e. tt)
      (λ e. start_cleanup-Listed m.current (succeeded_by runtime m) (record {
        current_born = ground (arith, h.current_born);
        past = λ i p b ne. ground (arith, h.past i);
        kept_listed =
            λ i p b r. ground (arith, h.kept_listed i, contains-add m.current i m.retired_ids);
        awaited = λ c. absurd (ground (arith, e, c));
        all_ended = λ c. absurd (ground (arith, e, c));
      }))

all_retired :
    (m : Manager)
    → Listed m
    → (m.generations m.current).retired ≡ true
    → (i : ℕ) → 0 < i
    → i < m.next_generation_id
    → (m.generations i).retired ≡ true
all_retired m h r i p b = elim (ℕ_discrete i m.current) [
  | yes same ↦ ground (arith, same, r)
  | no other ↦ h.past i p b other
]

shut_awaited :
    (m : Manager)
    → Listed m
    → (i : ℕ) → 0 < i
    → i < m.next_generation_id
    → ((update m.generations m.current
          (record (m.generations m.current) { retired = true })
          i).closed
        || contains i (add m.current m.retired_ids))
      ≡ true
shut_awaited m h i p b = elim (ℕ_discrete i m.current) [
  | yes same ↦ ground (arith, same, contains-add m.current i m.retired_ids)
  | no other ↦
      let old = h.kept_listed i p b (h.past i p b other) in
      ground (arith, other, old, contains-add m.current i m.retired_ids)
]

begin_close-Listed :
    (w : World) → Listed w.manager → Holds WorldListed (on_manager w (begin_close w.manager))
unfolding begin_close
begin_close-Listed w h =
    let m = w.manager in
    either (λ o. Holds WorldListed (on_manager w o)) m.closed (λ e. tt)
      (λ e.
        either (λ m'. Listed (record m' { closing_generations = m'.retired_ids }))
          (m.generations m.current).retired
          (λ r. record {
            current_born = h.current_born;
            past = h.past;
            kept_listed = h.kept_listed;
            awaited = λ c i p b. h.kept_listed i p b (all_retired m h r i p b);
            all_ended = λ c. absurd (ground (arith, e, c));
          })
          (λ r. record {
            current_born = h.current_born;
            past = λ i p b ne. ground (arith, h.past i);
            kept_listed =
                λ i p b q. ground (arith, h.kept_listed i, contains-add m.current i m.retired_ids);
            awaited = λ c i p b. shut_awaited m h i p b;
            all_ended = λ c. absurd (ground (arith, e, c));
          }))

closed_of_all :
    (gs : List ℕ) (generations : ℕ → Generation) (g : ℕ)
    → all_closed gs generations ≡ true
    → contains g gs ≡ true
    → (generations g).closed ≡ true
unfolding all_closed contains
closed_of_all [] generations g e here = ground (arith, here)
closed_of_all (x ∷ gs) generations g e here =
    ground (arith, closed_of_all gs generations g, e, here)

end_close-Listed :
    (w : World) → Listed w.manager → Holds WorldListed (on_manager w (end_close w.manager))
unfolding end_close
end_close-Listed w h =
    let m = w.manager in
    either (λ o. Holds WorldListed (on_manager w o))
      (m.closing
        && (all_closed m.closing_generations m.generations && no_unpublished m.unpublished))
      (λ e. record {
        current_born = h.current_born;
        past = h.past;
        kept_listed = h.kept_listed;
        awaited = h.awaited;
        all_ended = λ c. (
          ground (arith, e),
          λ i p b. ground (
            arith,
            e,
            h.awaited (ground (arith, e)) i p b,
            closed_of_all m.closing_generations m.generations i,
          ),
        );
      })
      (λ e. tt)

other_fields-Listed :
    (unpublished : List ℕ) (m : Manager)
    → Listed m
    → Listed (record m { unpublished = unpublished })
other_fields-Listed unpublished m h = record {
  current_born = h.current_born;
  past = h.past;
  kept_listed = h.kept_listed;
  awaited = h.awaited;
  all_ended = h.all_ended;
}

act-Listed : (action : Action) (w : World) → Listed w.manager → Holds WorldListed (act action w)
unfolding act acquire open_refresh cleanup_unpublished sweep release_lease
act-Listed acquires w h =
    either (λ o. Holds WorldListed (acquired w o)) (w.manager.closing || w.manager.closed) (λ e. tt)
      (λ e. change-Listed w.manager.current leased w.manager (λ gen. (refl, refl)) h)
act-Listed (refreshes g) w h =
    either (Holds WorldListed) (exists_generation g w.manager)
      (λ e.
        either (λ o. Holds WorldListed (refreshed w g o)) (w.manager.generations g).closed (λ c. tt)
          (λ c. change-Listed g leased w.manager (λ gen. (refl, refl)) h))
      (λ e. tt)
act-Listed (releases k) w h = elim (Option-cases (get_elem? w.leases k)) [
  | inl missing ↦ rw missing tt
  | inr (lease, found) ↦ rw found (
      either WorldListed lease.released (λ e. h)
        (λ fresh. release-Listed lease.generation w.manager h))
]
act-Listed (publishes runtime) w h = publish-Listed runtime w h
act-Listed (cleans_unpublished runtime true) w h =
    other_fields-Listed (discard runtime w.manager.unpublished) w.manager h
act-Listed (cleans_unpublished runtime false) w h =
    other_fields-Listed (add runtime w.manager.unpublished) w.manager h
act-Listed (ends_cleanup g ok) w h =
    either (Holds WorldListed)
      ((w.manager.generations g).has_cleanup_task && not (w.manager.generations g).closed)
      (λ e. end_cleanup-Listed g ok w.manager h) (λ e. tt)
act-Listed begins_close w h = begin_close-Listed w h
act-Listed sweeps w h =
    either (λ o. Holds WorldListed (on_manager w o))
      (w.manager.closing && all_drained w.manager.closing_generations w.manager.generations)
      (λ e. start_cleanups-Listed w.manager.closing_generations w.manager h) (λ e. tt)
act-Listed ends_close w h = end_close-Listed w h

new_world-Listed : (runtime : ℕ) → Listed (new_world runtime).manager
new_world-Listed runtime = record {
  current_born = (omega arith, omega arith);
  past = λ i p b ne. absurd (ground (arith, p, b, ne));
  kept_listed = λ i p b r. ground (arith, r);
  awaited = λ c. ground (arith, c);
  all_ended = λ c. ground (arith, c);
}

Reach-Listed : {runtime : ℕ} {w : World} → Reach runtime w → Listed w.manager
Reach-Listed {runtime} start = new_world-Listed runtime
Reach-Listed (next w w' action r e) =
    subst (Holds WorldListed) e (act-Listed action w (Reach-Listed r))

-- In every world that is reached and whose manager is closed, every generation that was ever published
-- is closed, and no caller holds a lease on it.
pub closed_manager_drained :
    {runtime : ℕ} {w : World} (g : ℕ)
    → Reach runtime w
    → w.manager.closed ≡ true
    → 0 < g
    → g < w.manager.next_generation_id
    → ((w.manager.generations g).closed ≡ true) × (total (held_on g) w.leases ≡ 0)
closed_manager_drained g r c p b =
    let ended = ((Reach-Listed r).all_ended c).1 g p b in
    (ended, (Reach-Inv r).kept g (ground (arith, ended)))
