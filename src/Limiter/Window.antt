-- ===== src/Limiter/Window.antt =====
-- The guarantee of the limiter's class comment, over every history of rounds.
use agentic_model_gateway.Base.{
  ℕ, ◌+◌, ◌≤◌, ◌<◌, ◌≡◌, refl, inl, inr, some, List, [], sym, subst, not, ◌∙◌, Bool-cases, ◌∷◌,
  ◌++◌, ltb, leb, ◌&&◌, if◌then◌else◌, length, arith,
}
use agentic_model_gateway.Limiter.{
  is_refusal, wait_time, Limiter, Reading, waits, prune, acquire_round, run, log_round, acquire,
}

-- How many stamps lie in the interval of the given length that starts at `start`.
pub count_in : ℕ → ℕ → List ℕ → ℕ
count_in start window [] = 0
count_in start window (t ∷ times) =
    (if leb start t && ltb t (start + window) then 1 else 0) + count_in start window times

count_in-append :
    (start window : ℕ) (xs ys : List ℕ)
    → count_in start window (xs ++ ys) ≡ count_in start window xs + count_in start window ys
unfolding count_in
count_in-append start window [] ys = omega arith
count_in-append start window (x ∷ xs) ys = omega (arith, count_in-append start window xs ys)

count_in-le-length : (start window : ℕ) (xs : List ℕ) → count_in start window xs ≤ length xs
unfolding count_in
count_in-le-length start window [] = omega arith
count_in-le-length start window (x ∷ xs) = ground (arith, count_in-le-length start window xs)

-- Pruning drops only stamps that no interval reaching `now` or later can hold.
prune-count_in :
    (start window now : ℕ) (xs : List ℕ)
    → now < start + window
    → count_in start window (prune window now xs) ≡ count_in start window xs
unfolding count_in prune
prune-count_in start window now [] h = refl
prune-count_in start window now (x ∷ xs) h = ground (arith, prune-count_in start window now xs h)

-- The clock never runs backwards: each reading is at or after the last stamp.
abbrev pub Clocked : ℕ → List Reading → Type 0
Clocked last [] = Unit
Clocked last (r ∷ rs) = (last ≤ r.now) × (r.now ≤ r.stamp) × Clocked r.stamp rs

-- Every interval holds at most `rate_limit` stamps of the log, and an interval that reaches beyond
-- `last` holds no stamp that the limiter forgot.
record Inv (last : ℕ) (l : Limiter) (log : List ℕ) : Type 0 where
  bounded : (start : ℕ) → count_in start l.rate_window log ≤ l.rate_limit
  kept :
      (start : ℕ)
      → last < start + l.rate_window
      → count_in start l.rate_window log ≡ count_in start l.rate_window l.times

module _ (last : ℕ) (l : Limiter) (log : List ℕ) (inv : Inv last l log) (r : Reading)
    (after : last ≤ r.now) (forward : r.now ≤ r.stamp) where
  -- What a round leaves in the window stands for the log wherever an interval reaches beyond `now`.
  pruned :
      (start : ℕ)
      → r.now < start + l.rate_window
      → count_in start l.rate_window log
        ≡ count_in start l.rate_window (prune l.rate_window r.now l.times)
  pruned start h =
      inv.kept start (omega arith) ∙ sym (prune-count_in start l.rate_window r.now l.times h)

  stamped_bounded :
      (start : ℕ)
      → length (prune l.rate_window r.now l.times) < l.rate_limit
      → count_in start l.rate_window (log ++ r.stamp ∷ []) ≤ l.rate_limit
  unfolding count_in
  stamped_bounded start room = ground (
    arith,
    count_in-append start l.rate_window log (r.stamp ∷ []),
    inv.bounded start,
    pruned start,
    count_in-le-length start l.rate_window (prune l.rate_window r.now l.times),
  )

  stamped_kept :
      (start : ℕ)
      → r.stamp < start + l.rate_window
      → count_in start l.rate_window (log ++ r.stamp ∷ [])
        ≡ count_in start l.rate_window (prune l.rate_window r.now l.times ++ r.stamp ∷ [])
  stamped_kept start h = rw (count_in-append start l.rate_window log (r.stamp ∷ [])) (
      rw (count_in-append start l.rate_window (prune l.rate_window r.now l.times) (r.stamp ∷ []))
        (omega (arith, pruned start)))

  round-Inv : let (round, l') = acquire_round l r in Inv r.stamp l' (log_round round r.stamp log)
  unfolding acquire_round log_round
  round-Inv = elim (Bool-cases (ltb (length (prune l.rate_window r.now l.times)) l.rate_limit)) [
    | inl room ↦ rw room (elim (Bool-cases (is_refusal r.allowed)) [
      | inl e ↦
          rw e (record { bounded = inv.bounded; kept = λ start h. pruned start (omega arith) })
      | inr e ↦
          rw e (record {
            bounded = λ start. stamped_bounded start (ground arith);
            kept = stamped_kept;
          })
    ])
    | inr full ↦
        rw full (record { bounded = inv.bounded; kept = λ start h. pruned start (omega arith) })
  ]

run-Inv :
    (last : ℕ) (rs : List Reading) (l : Limiter) (log : List ℕ)
    → Clocked last rs
    → Inv last l log
    → (end : ℕ) × Inv end (run rs (l, log)).0 (run rs (l, log)).1
unfolding run
run-Inv last [] l log c inv = (last, inv)
run-Inv last (r ∷ rs) l log c inv =
    let (round, l') = acquire_round l r in
    run-Inv r.stamp rs l' (log_round round r.stamp log) c.2 (round-Inv last l log inv r c.0 c.1)

round-rate_limit :
    (l : Limiter) (r : Reading)
    → ((acquire_round l r).1.rate_limit ≡ l.rate_limit)
      × ((acquire_round l r).1.rate_window ≡ l.rate_window)
unfolding acquire_round
round-rate_limit l r = ground arith

run-rate_limit :
    (rs : List Reading) (l : Limiter) (log : List ℕ)
    → ((run rs (l, log)).0.rate_limit ≡ l.rate_limit)
      × ((run rs (l, log)).0.rate_window ≡ l.rate_window)
unfolding run
run-rate_limit [] l log = (refl, refl)
run-rate_limit (r ∷ rs) l log =
    let (round, l') = acquire_round l r in
    let (same_limit, same_window) = run-rate_limit rs l' (log_round round r.stamp log) in
    let (limit, window) = round-rate_limit l r in (same_limit ∙ limit, same_window ∙ window)

-- From a limiter with no acquisition yet, whatever the callers do and whatever their callbacks
-- answer, every interval of length `rate_window` holds at most `rate_limit` acquisitions, if the
-- clock never runs backwards.
pub run_rate_bound :
    (start : ℕ) (rs : List Reading) (l : Limiter)
    → l.times ≡ []
    → Clocked 0 rs
    → count_in start l.rate_window (run rs (l, [])).1 ≤ l.rate_limit
unfolding count_in
run_rate_bound start rs l fresh c =
    let (end, inv) =
      run-Inv 0 rs l [] c (record { bounded = λ _. omega arith; kept = λ _ _. rw fresh }) in
    let (limit, window) = run-rate_limit rs l [] in
    subst (λ w. count_in start w (run rs (l, [])).1 ≤ l.rate_limit) window
      (subst (λ k. count_in start (run rs (l, [])).0.rate_window (run rs (l, [])).1 ≤ k) limit
        (inv.bounded start))

length-prune-le : (window now : ℕ) (xs : List ℕ) → length (prune window now xs) ≤ length xs
unfolding prune
length-prune-le window now [] = omega arith
length-prune-le window now (x ∷ xs) = ground (arith, length-prune-le window now xs)

-- Where the window is full, the oldest stamp is gone once the wait is over.
room_after_wait :
    (l : Limiter) (now later : ℕ) (kept : List ℕ)
    → 0 < l.rate_limit
    → length kept ≤ l.rate_limit
    → l.rate_limit ≤ length kept
    → now + wait_time l kept now ≤ later
    → length (prune l.rate_window later kept) < l.rate_limit
unfolding prune wait_time
room_after_wait l now later [] positive full some_kept h = absurd (omega arith)
room_after_wait l now later (x ∷ kept) positive full some_kept h =
    ground (arith, length-prune-le l.rate_window later kept)

admitted :
    (l : Limiter) (s : Reading)
    → length (prune l.rate_window s.now l.times) < l.rate_limit
    → acquire l (s ∷ []) ≡ some (not (is_refusal s.allowed))
unfolding acquire
admitted l s room = ground arith

-- A caller that waits at least as long as its round told it to, where no other caller has a round in
-- between, does not wait in its next round: it is admitted, unless its callback refuses. The limit is
-- positive, and the limiter holds at most that many stamps.
pub waits_once :
    (l : Limiter) (r s : Reading) (t : ℕ)
    → 0 < l.rate_limit
    → length l.times ≤ l.rate_limit
    → (acquire_round l r).0 ≡ waits t
    → r.now + t ≤ s.now
    → acquire l (r ∷ s ∷ []) ≡ some (not (is_refusal s.allowed))
unfolding acquire
waits_once l r s t positive full e later = ground (
  arith,
  length-prune-le l.rate_window r.now l.times,
  room_after_wait l r.now s.now (prune l.rate_window r.now l.times) positive,
  admitted (record l { times = prune l.rate_window r.now l.times }) s,
)
