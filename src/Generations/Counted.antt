-- ===== src/Generations/Counted.antt =====
-- The invariant of the manager and its leases.
use agentic_model_gateway.Base.{
  ℕ, ◌≤◌, ◌<◌, ◌≡◌, Bool, true, false, not, ◌&&◌, ◌||◌, some, List, [], ◌∷◌, ◌++◌, ◌==◌,
  if◌then◌else◌, get_elem?, set, total, total-append, total-set, arith, contains, contains-add,
  contains-discard, ◌⊎◌,
}
use agentic_model_gateway.Generations.{
  Generation, Manager, change, leased, start_cleanup, end_cleanup, returned, succeeded_by,
}
use agentic_model_gateway.Generations.System.{Lease, new_lease}

-- A lease of the generation that has not been returned.
abbrev pub open_on : ℕ → Lease → ℕ
open_on g lease = if lease.generation == g && not lease.released then 1 else 0

-- And that a caller holds.
abbrev pub held_on : ℕ → Lease → ℕ
held_on g lease = if lease.of_refresh then 0 else open_on g lease

abbrev pub ends : Generation → Bool
ends gen = gen.closed || gen.has_cleanup_task

pub record Inv (m : Manager) (leases : List Lease) : Type 0 where
  pub counted : (g : ℕ) → (m.generations g).active_leases ≡ total (open_on g) leases
  pub kept : (g : ℕ) → ends (m.generations g) ≡ true → total (held_on g) leases ≡ 0
  pub retired_first : (g : ℕ) → ends (m.generations g) ≡ true → (m.generations g).retired ≡ true
  pub current_open : m.closing ≡ false → (m.generations m.current).retired ≡ false
  pub positive : 0 < m.current
  pub older : m.current < m.next_generation_id
  pub listed :
      (g : ℕ)
      → (contains g m.retired_ids || contains g m.closing_generations) ≡ true
      → ((m.generations g).retired ≡ true) × (g < m.next_generation_id)
  pub unborn : (g : ℕ) → m.next_generation_id ≤ g → (m.generations g).active_leases ≡ 0

held_on-le-open_on :
    (g : ℕ) (leases : List Lease) → total (held_on g) leases ≤ total (open_on g) leases
unfolding total
held_on-le-open_on g [] = omega arith
held_on-le-open_on g (lease ∷ leases) = ground (arith, held_on-le-open_on g leases)

pub start_cleanup-Inv :
    (g : ℕ) (m : Manager) (leases : List Lease)
    → (m.generations g).retired ≡ true
    → Inv m leases
    → Inv (start_cleanup g m) leases
unfolding start_cleanup
start_cleanup-Inv g m leases r h = record {
  counted = λ i. ground (arith, h.counted i);
  kept = λ i e. ground (arith, h.kept i, h.counted i, held_on-le-open_on i leases);
  retired_first = λ i e. ground (arith, h.retired_first i);
  current_open = λ e. ground (arith, h.current_open);
  positive = ground (arith, h.positive);
  older = ground (arith, h.older);
  listed = λ i e. (ground (arith, e, h.listed i), ground (arith, e, h.listed i));
  unborn = λ i le. ground (arith, h.unborn i);
}

-- A lease more on a generation, whose holder is a refresh or finds the generation open.
pub leased-Inv :
    (g : ℕ) (of_refresh : Bool) (m : Manager) (leases : List Lease)
    → g < m.next_generation_id
    → (of_refresh ≡ false → ends (m.generations g) ≡ false)
    → Inv m leases
    → Inv (change g leased m) (leases ++ new_lease g of_refresh ∷ [])
leased-Inv g of_refresh m leases born open_first h = record {
  counted =
      λ i. ground (arith, h.counted i, total-append (open_on i) leases (new_lease g of_refresh));
  kept = λ i e.
      ground
        (arith, open_first, h.kept i, total-append (held_on i) leases (new_lease g of_refresh));
  retired_first = λ i e. ground (arith, h.retired_first i);
  current_open = λ e. ground (arith, h.current_open);
  positive = h.positive;
  older = h.older;
  listed = λ i e. (ground (arith, e, h.listed i), ground (arith, e, h.listed i));
  unborn = λ i le. ground (arith, h.unborn i);
}

-- A lease that is returned, before the generation's cleanup.
pub returned-Inv :
    (k : ℕ) (lease : Lease) (m : Manager) (leases : List Lease)
    → get_elem? leases k ≡ some lease
    → lease.released ≡ false
    → Inv m leases
    → Inv (change lease.generation returned m) (set leases k (record lease { released = true }))
returned-Inv k lease m leases found fresh h =
    let after = record lease { released = true } in
    record {
      counted =
          λ i. ground (arith, h.counted i, total-set (open_on i) leases k lease after found, fresh);
      kept =
          λ i e. ground (arith, h.kept i, total-set (held_on i) leases k lease after found, fresh);
      retired_first = λ i e. ground (arith, h.retired_first i);
      current_open = λ e. ground (arith, h.current_open);
      positive = h.positive;
      older = h.older;
      listed = λ i e. (ground (arith, e, h.listed i), ground (arith, e, h.listed i));
      unborn = λ i le. ground (arith, h.unborn i);
    }

pub end_cleanup-Inv :
    (g : ℕ) (succeeded : Bool) (m : Manager) (leases : List Lease)
    → (m.generations g).has_cleanup_task ≡ true
    → Inv m leases
    → Inv (end_cleanup g succeeded m) leases
unfolding end_cleanup
end_cleanup-Inv g true m leases started h = record {
  counted = λ i. ground (arith, h.counted i);
  kept = λ i e. ground (arith, h.kept i);
  retired_first = λ i e. ground (arith, h.retired_first i);
  current_open = λ e. ground (arith, h.current_open);
  positive = h.positive;
  older = h.older;
  listed = λ i e. (
    ground (arith, h.listed i, contains-discard g i m.retired_ids),
    ground (arith, h.listed i, contains-discard g i m.retired_ids),
  );
  unborn = λ i le. ground (arith, h.unborn i);
}
end_cleanup-Inv g false m leases started h = record {
  counted = λ i. ground (arith, h.counted i);
  kept = λ i e. ground (arith, h.kept i);
  retired_first = λ i e. ground (arith, h.retired_first i);
  current_open = λ e. ground (arith, h.current_open);
  positive = h.positive;
  older = h.older;
  listed = λ i e. (
    ground (arith, h.listed i, contains-discard g i m.retired_ids),
    ground (arith, h.listed i, contains-discard g i m.retired_ids),
  );
  unborn = λ i le. ground (arith, h.unborn i);
}

-- The retirement of the current generation, with its successor or at the shutdown.
pub succeeded-Inv :
    (runtime : ℕ) (m : Manager) (leases : List Lease)
    → Inv m leases
    → Inv (succeeded_by runtime m) leases
succeeded-Inv runtime m leases h = record {
  counted = λ i. ground (arith, h.counted i, h.unborn i);
  kept = λ i e. ground (arith, h.kept i);
  retired_first = λ i e. ground (arith, h.retired_first i);
  current_open = λ e. ground arith;
  positive = omega (arith, h.positive, h.older);
  older = omega arith;
  listed = λ i e. (
    ground (arith, e, h.listed i, h.older, contains-add m.current i m.retired_ids),
    ground (arith, e, h.listed i, h.older, contains-add m.current i m.retired_ids),
  );
  unborn = λ i le. ground (arith, h.unborn i, h.older);
}

pub shut-Inv :
    (ids : List ℕ) (m : Manager) (leases : List Lease)
    → ((g : ℕ) → contains g ids ≡ true → (g ≡ m.current) ⊎ (contains g m.retired_ids ≡ true))
    → Inv m leases
    → Inv
        (record (change m.current (λ gen. record gen { retired = true }) m) {
          closing = true;
          retired_ids = ids;
          closing_generations = ids;
        })
        leases
shut-Inv ids m leases within h = record {
  counted = λ i. ground (arith, h.counted i);
  kept = λ i e. ground (arith, h.kept i);
  retired_first = λ i e. ground (arith, h.retired_first i);
  current_open = λ e. ground (arith, e);
  positive = h.positive;
  older = h.older;
  listed = λ i e. (
    ground (arith, e, within i, h.listed i, h.older),
    ground (arith, e, within i, h.listed i, h.older),
  );
  unborn = λ i le. ground (arith, h.unborn i);
}

-- Another call of `close` once the current generation is retired.
pub reshut-Inv :
    (m : Manager) (leases : List Lease)
    → Inv m leases
    → Inv (record m { closing = true; closing_generations = m.retired_ids }) leases
reshut-Inv m leases h = record {
  counted = h.counted;
  kept = h.kept;
  retired_first = h.retired_first;
  current_open = λ e. ground (arith, e);
  positive = h.positive;
  older = h.older;
  listed = λ i e. (ground (arith, e, h.listed i), ground (arith, e, h.listed i));
  unborn = h.unborn;
}

-- The fields that no lease depends on.
pub other_fields-Inv :
    (unpublished : List ℕ) (closed : Bool) (m : Manager) (leases : List Lease)
    → Inv m leases
    → Inv (record m { unpublished = unpublished; closed = closed }) leases
other_fields-Inv unpublished closed m leases h = record {
  counted = h.counted;
  kept = h.kept;
  retired_first = h.retired_first;
  current_open = h.current_open;
  positive = h.positive;
  older = h.older;
  listed = h.listed;
  unborn = h.unborn;
}
