-- ===== src/Tree/Queue/Laws.antt =====
-- The queue is a list without repetitions, and its index holds exactly the items of the list.
use agentic_model_gateway.Base.{
  NoRepeats, ℕ, ◌≡◌, refl, sym, ap, subst, ◌∙◌, false, not, ◌&&◌, Option, none, some, List, [], ◌∷◌,
  ◌++◌, if◌then◌else◌, contains, ◌==◌, discard, arith, contains-append, contains-add,
  contains-discard, Bool-cases, inl, inr,
}
use agentic_model_gateway.Tree.Queue.{Queue, put, pop, remove, drain, put_all, new_queue, empty}

pub record IsIndexed (q : Queue) : Type 0 where
  pub distinct : NoRepeats q.deque
  pub mirrors : (i : ℕ) → contains i q.set ≡ contains i q.deque

NoRepeats-append :
    (i : ℕ) (xs : List ℕ) → contains i xs ≡ false → NoRepeats xs → NoRepeats (xs ++ i ∷ [])
unfolding contains
NoRepeats-append i [] h d = (refl, tt)
NoRepeats-append i (x ∷ xs) h d =
    (ground (arith, contains-append x xs (i ∷ [])), NoRepeats-append i xs (ground arith) d.1)

NoRepeats-discard : (i : ℕ) (xs : List ℕ) → NoRepeats xs → NoRepeats (discard i xs)
unfolding discard
NoRepeats-discard i [] d = tt
NoRepeats-discard i (x ∷ xs) d = ground (arith, NoRepeats-discard i xs d.1, contains-discard i x xs)

discard-absent : (i : ℕ) (xs : List ℕ) → contains i xs ≡ false → discard i xs ≡ xs
unfolding discard contains
discard-absent i [] h = refl
discard-absent i (x ∷ xs) h = ground (arith, discard-absent i xs)

-- `put` appends an item that is not in the queue and reports it, and changes nothing otherwise.
pub put_lem :
    (i : ℕ) (q : Queue)
    → IsIndexed q
    → IsIndexed (put i q).1
      × ((put i q).0 ≡ not (contains i q.deque))
      × ((put i q).1.deque ≡ (if contains i q.deque then q.deque else q.deque ++ i ∷ []))
unfolding put contains
put_lem i q h = elim (Bool-cases (contains i q.set)) [
  | inl old ↦ rw (old, (sym (h.mirrors i) ∙ old)) (h, refl, refl)
  | inr new ↦
      let absent = sym (h.mirrors i) ∙ new in
      rw (new, absent)
        (
          record {
            distinct = NoRepeats-append i q.deque absent h.distinct;
            mirrors = λ j.
                ground
                  (arith, contains-add i j q.set, contains-append j q.deque (i ∷ []), h.mirrors j);
          },
          refl,
          refl,
        )
]

pub pop_lem :
    (i : ℕ) (rest : List ℕ) (q : Queue)
    → IsIndexed q
    → q.deque ≡ i ∷ rest
    → IsIndexed (pop q).1 × ((pop q).0 ≡ some i) × ((pop q).1.deque ≡ rest)
unfolding pop contains
pop_lem i rest q h e =
    let distinct = subst NoRepeats e h.distinct in
    rw e (
      record {
        distinct = distinct.1;
        mirrors = λ j.
            let listed = subst (λ d. contains j q.set ≡ contains j d) e (h.mirrors j) in
            ground (arith, contains-discard i j q.set);
      },
      refl,
      refl,
    )

abbrev pub oldest : List ℕ → Option ℕ
oldest [] = none
oldest (x ∷ xs) = some x

abbrev pub younger : List ℕ → List ℕ
younger [] = []
younger (x ∷ xs) = xs

pub pop_any :
    (q : Queue) (xs : List ℕ)
    → IsIndexed q
    → q.deque ≡ xs
    → IsIndexed (pop q).1 × ((pop q).0 ≡ oldest xs) × ((pop q).1.deque ≡ younger xs)
unfolding pop
pop_any q [] h e = rw e (
  record {
    distinct = tt;
    mirrors = λ j. subst (λ d. contains j q.set ≡ contains j d) e (h.mirrors j);
  },
  refl,
  refl,
)
pop_any q (x ∷ xs) h e = pop_lem x xs q h e

pub remove_lem :
    (i : ℕ) (q : Queue)
    → IsIndexed q
    → IsIndexed (remove i q).1
      × ((remove i q).0 ≡ contains i q.deque)
      × ((remove i q).1.deque ≡ discard i q.deque)
unfolding remove
remove_lem i q h = elim (Bool-cases (contains i q.set)) [
  | inl old ↦
      rw (old, (sym (h.mirrors i) ∙ old))
        (
          record {
            distinct = NoRepeats-discard i q.deque h.distinct;
            mirrors = λ j.
                contains-discard i j q.set
                ∙ (ap (λ b. not (i == j) && b) (h.mirrors j) ∙ sym (contains-discard i j q.deque));
          },
          refl,
          refl,
        )
  | inr new ↦
      let absent = sym (h.mirrors i) ∙ new in
      rw (new, absent) (h, refl, sym (discard-absent i q.deque absent))
]

put_all-IsIndexed : (xs : List ℕ) (q : Queue) → IsIndexed q → IsIndexed (put_all xs q)
unfolding put_all
put_all-IsIndexed [] q h = h
put_all-IsIndexed (x ∷ xs) q h = put_all-IsIndexed xs (put x q).1 (put_lem x q h).0

-- A new queue is well formed, whatever it is filled with, and stays so: `put` appends an item that is
-- not in it and says whether it did, `pop` takes the oldest item, `remove` takes out exactly the item,
-- if it is there, and says whether it was, and `drain` returns every item in order and empties it.
pub queue_refines_list :
    (initial : List ℕ) (i : ℕ) (q : Queue)
    → IsIndexed q
    → IsIndexed (new_queue initial)
      × (IsIndexed (put i q).1
          × ((put i q).0 ≡ not (contains i q.deque))
          × ((put i q).1.deque ≡ (if contains i q.deque then q.deque else q.deque ++ i ∷ [])))
      × (IsIndexed (pop q).1 × ((pop q).0 ≡ oldest q.deque) × ((pop q).1.deque ≡ younger q.deque))
      × (IsIndexed (remove i q).1
          × ((remove i q).0 ≡ contains i q.deque)
          × ((remove i q).1.deque ≡ discard i q.deque))
      × (IsIndexed (drain q).1 × ((drain q).0 ≡ q.deque) × ((drain q).1.deque ≡ []))
unfolding new_queue drain
queue_refines_list initial i q h = (
  put_all-IsIndexed initial empty (record { distinct = tt; mirrors = λ j. refl }),
  put_lem i q h,
  pop_any q q.deque h refl,
  remove_lem i q h,
  (record { distinct = tt; mirrors = λ j. refl }, refl, refl),
)
