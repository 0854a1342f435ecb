-- ===== src/Generations.antt =====
-- runtime/provider_manager.py: the generations of provider runtimes that class ProviderRuntimeManager
-- owns, and the leases that keep them open. A generation is an object that leases share, so it lives in
-- a store under its id. An operation here is what runs between two awaits. The model cache, the catalog
-- publisher and the discovery of models are left out, as are the traces.
use agentic_model_gateway.Base.{
  ℕ, ◌+◌, ◌-◌, Bool, true, false, not, ◌&&◌, ◌||◌, Option, none, some, List, [], ◌∷◌, ◌==◌,
  if◌then◌else◌, add, discard, update,
}
pub mod System
pub mod Counted
pub mod Open
pub mod Drained
mod Tests

pub record Generation : Type 0 where
  pub runtime : ℕ
  pub active_leases : ℕ
  pub retired : Bool
  pub closed : Bool
  pub drained : Bool
  -- Whether `cleanup_task` is set: the task that closes the generation's runtime.
  pub has_cleanup_task : Bool

abbrev pub new_generation : ℕ → Generation
new_generation runtime = record {
  runtime = runtime;
  active_leases = 0;
  retired = false;
  closed = false;
  drained = true;
  has_cleanup_task = false;
}

-- `closing_generations` is the local variable of `close` between its awaits.
pub record Manager : Type 0 where
  pub current : ℕ
  pub next_generation_id : ℕ
  pub generations : ℕ → Generation
  pub retired_ids : List ℕ
  pub unpublished : List ℕ
  pub closing : Bool
  pub closed : Bool
  pub closing_generations : List ℕ

abbrev pub new_manager : ℕ → Manager
new_manager runtime = record {
  current = 1;
  next_generation_id = 2;
  generations = λ g. new_generation runtime;
  retired_ids = [];
  unpublished = [];
  closing = false;
  closed = false;
  closing_generations = [];
}

abbrev pub change : ℕ → (Generation → Generation) → Manager → Manager
change g f m = record m { generations = update m.generations g (f (m.generations g)) }

abbrev pub leased : Generation → Generation
leased gen = record gen { active_leases = gen.active_leases + 1; drained = false }

-- `acquire`, with `none` for ApplicationUnavailableError.
unfoldable pub acquire : Manager → Option (ℕ × Manager)
acquire m = if m.closing || m.closed then none else some (m.current, change m.current leased m)

-- The start of `_refresh_generation`: a closed generation is not refreshed.
unfoldable pub open_refresh : ℕ → Manager → Option Manager
open_refresh g m = if (m.generations g).closed then none else some (change g leased m)

abbrev pub cleaned : Generation → Generation
cleaned gen = record gen { has_cleanup_task = true }

-- `_close_generation` up to its await, where the generation has no cleanup task or gets one.
unfoldable pub start_cleanup : ℕ → Manager → Manager
start_cleanup g m =
    if (m.generations g).closed || not ((m.generations g).active_leases == 0)
    then m
    else change g cleaned m

abbrev pub uncleaned : Generation → Generation
uncleaned gen = record gen { has_cleanup_task = false }

-- `_run_generation_cleanup` behind the runtime's cleanup, which has succeeded or raised.
unfoldable pub end_cleanup : ℕ → (succeeded : Bool) → Manager → Manager
end_cleanup g true m = record (change g (λ gen. record gen { closed = true }) m) {
  retired_ids = discard g m.retired_ids;
}
end_cleanup g false m = change g uncleaned m

abbrev pub returned : Generation → Generation
returned gen = record gen {
  active_leases = gen.active_leases - 1;
  drained = gen.active_leases - 1 == 0 || gen.drained;
}

-- `_release`
unfoldable pub release : ℕ → Manager → Manager
unfolding start_cleanup
release g m =
    if (m.generations g).active_leases == 0
    then m
    else (let m' = change g returned m in
        if (m'.generations g).active_leases == 0 && ((m'.generations g).retired && not m'.closing)
        then start_cleanup g m'
        else m')

abbrev pub retire_current : Manager → Manager
retire_current m = record (change m.current (λ gen. record gen { retired = true }) m) {
  retired_ids = add m.current m.retired_ids;
}

-- The successor of the current generation, with the next id.
abbrev pub succeeded_by : ℕ → Manager → Manager
succeeded_by runtime m =
    let m' = retire_current m in
    record m' {
      current = m.next_generation_id;
      next_generation_id = m.next_generation_id + 1;
      generations = update m'.generations m.next_generation_id (new_generation runtime);
    }

-- `replace` once the new runtime is there and the configuration is committed. The lock excludes
-- another `replace`, and a `close` that has not begun.
unfoldable pub publish : ℕ → Manager → Option (ℕ × Manager)
unfolding start_cleanup add
publish runtime m =
    if m.closing || m.closed
    then none
    else some (m.next_generation_id, start_cleanup m.current (succeeded_by runtime m))

-- `_cleanup_unpublished`, with how the cleanup ended.
unfoldable pub cleanup_unpublished : ℕ → (succeeded : Bool) → Manager → Manager
unfolding add discard
cleanup_unpublished runtime true m = record m { unpublished = discard runtime m.unpublished }
cleanup_unpublished runtime false m = record m { unpublished = add runtime m.unpublished }

-- `close` under the replacement's lock, with `none` where the manager is closed already.
unfoldable pub begin_close : Manager → Option Manager
unfolding add
begin_close m =
    if m.closed
    then none
    else (let m' = record m { closing = true } in
        let m'' = (if (m.generations m.current).retired then m' else retire_current m') in
        some (record m'' { closing_generations = m''.retired_ids }))

unfoldable pub all_drained : List ℕ → (ℕ → Generation) → Bool
all_drained [] generations = true
all_drained (g ∷ gs) generations = (generations g).drained && all_drained gs generations

unfoldable pub start_cleanups : List ℕ → Manager → Manager
unfolding start_cleanup
start_cleanups [] m = m
start_cleanups (g ∷ gs) m = start_cleanups gs (start_cleanup g m)

-- `close` behind its wait for the generations, with `none` while one of them is not drained.
unfoldable pub sweep : Manager → Option Manager
unfolding all_drained start_cleanups
sweep m =
    if m.closing && all_drained m.closing_generations m.generations
    then some (start_cleanups m.closing_generations m)
    else none

unfoldable pub all_closed : List ℕ → (ℕ → Generation) → Bool
all_closed [] generations = true
all_closed (g ∷ gs) generations = (generations g).closed && all_closed gs generations

abbrev pub no_unpublished : List ℕ → Bool
no_unpublished [] = true
no_unpublished (r ∷ rs) = false

-- The end of `close`, with `none` where it raises.
unfoldable pub end_close : Manager → Option Manager
unfolding all_closed
end_close m =
    if m.closing && (all_closed m.closing_generations m.generations && no_unpublished m.unpublished)
    then some (record m { closed = true })
    else none
