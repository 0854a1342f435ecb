-- ===== src/Generations/Tests.antt =====
-- The manager's theorems at a replacement while a request runs, and at a shutdown.
use agentic_model_gateway.Base.{
  ◌<◌, ◌≡◌, refl, true, false, Option, none, some, List, [], ◌∷◌, total, arith, get_elem?,
}
use agentic_model_gateway.Generations.System.{
  new_lease, World, new_world, Action, acquires, begins_close, sweeps, ends_close, releases,
  publishes, ends_cleanup, play, play-Reach, Reach, start,
}
use agentic_model_gateway.Generations.Counted.{open_on, held_on}
use agentic_model_gateway.Generations.Open.{leased_generation_open, leases_counted}
use agentic_model_gateway.Generations.Drained.{closed_manager_drained}

abbrev or_new : Option World → World
or_new none = new_world 0
or_new (some w) = w

-- A request runs on the first generation when the second is published.
abbrev replaced : List Action
replaced = acquires ∷ publishes 8 ∷ acquires ∷ []

unfoldable during : World
unfolding play
during = or_new (play replaced (new_world 7))

during-Reach : Reach 7 during
unfolding during play
during-Reach = play-Reach replaced (new_world 7) during start refl

first_lease : get_elem? during.leases 0 ≡ some (new_lease 1 false)
unfolding during play
first_lease = refl

leased_generation_open_example :
    ((during.manager.generations 1).closed ≡ false)
    × ((during.manager.generations 1).has_cleanup_task ≡ false)
    × (0 < (during.manager.generations 1).active_leases)
leased_generation_open_example =
    leased_generation_open 0 (new_lease 1 false) during-Reach first_lease refl refl

leases_counted_example :
    (during.manager.generations 1).active_leases ≡ total (open_on 1) during.leases
leases_counted_example = leases_counted 1 during-Reach

-- The requests end, the old generation is closed, and then the manager.
abbrev shut_down : List Action
shut_down =
    releases 0
    ∷ ends_cleanup 1 true
    ∷ begins_close
    ∷ releases 1
    ∷ sweeps
    ∷ ends_cleanup 2 true
    ∷ ends_close
    ∷ []

unfoldable after : World
unfolding play
after = or_new (play shut_down during)

after-Reach : Reach 7 after
unfolding during after play
after-Reach = play-Reach shut_down during after during-Reach refl

after_closed : after.manager.closed ≡ true
unfolding during after play
after_closed = refl

ids : after.manager.next_generation_id ≡ 3
unfolding during after play
ids = refl

closed_manager_drained_example :
    ((after.manager.generations 2).closed ≡ true) × (total (held_on 2) after.leases ≡ 0)
closed_manager_drained_example =
    closed_manager_drained 2 after-Reach after_closed (omega arith) (omega (arith, ids))
