-- ===== src/Tree/Runtime/Claims.antt =====
-- Admission and release of claims: the queue is kept, and the oldest queued node is served.
use agentic_model_gateway.Base.{
  NoRepeats, ℕ, zero, suc, ◌≤◌, ◌≡◌, ◌≢◌, refl, subst, true, false, Option, none, some, List, [],
  ◌∷◌, length, contains, inl, inr, arith, Bool-cases, Option-cases, contains-append, ==_ne,
}
use agentic_model_gateway.Tree.Node.{MessageNode, in_progress, is_pending, update_state}
use agentic_model_gateway.Tree.Queue.{Queue, put, pop, qsize}
use agentic_model_gateway.Tree.Queue.Laws.{IsIndexed, pop_any, put_lem}
use agentic_model_gateway.Tree.Graph.{Graph, get_node, modify_node}
use agentic_model_gateway.Tree.Runtime.State.{
  NodeClaim, ActiveClaim, Tree, QueueEntry, ◌>>=◌, ui_target, queue_entries, claim_node, is_active,
}
use agentic_model_gateway.Tree.Runtime.Admit.{
  admit_pending, enqueue_or_claim, claim_next, serve, serve_node, finish_and_claim_next,
}
use agentic_model_gateway.Tree.Runtime.Invariant.{
  pending_at, AllPending, Inv, AllPending-modify_node, AllPending-append,
}

-- What a claim leaves: the queue as it was, and some active claim.
claim_node_parts :
    (fresh id : ℕ) (node : MessageNode) (t : Tree) (claim : NodeClaim) (t' : Tree)
    → claim_node fresh id node t ≡ some (claim, t')
    → (t'.queue ≡ t.queue)
      × (t'.graph ≡ modify_node id (update_state in_progress none) t.graph)
      × (t'.active ≡ some (record { claim = claim; cancellation_requested = false }))
      × (claim.claim_id ≡ fresh)
      × (claim.node.node_id ≡ node.node_id)
unfolding claim_node ui_target
claim_node_parts fresh id node t claim t' e = ground arith

claim_node-Inv :
    (fresh id : ℕ) (node : MessageNode) (t : Tree) (claim : NodeClaim) (t' : Tree)
    → IsIndexed t.queue
    → AllPending t.graph t.queue.deque
    → contains id t.queue.deque ≡ false
    → contains 0 t.queue.deque ≡ false
    → claim_node fresh id node t ≡ some (claim, t')
    → Inv t'
claim_node-Inv fresh id node t claim t' indexed queued out proper e =
    let (queue, graph, active, _, _) = claim_node_parts fresh id node t claim t' e in
    record {
      indexed = rw queue indexed;
      idle_empty = λ quiet. absurd (cc);
      queued =
          rw (queue, graph)
            (AllPending-modify_node id (update_state in_progress none) t.graph t.queue.deque out
              queued);
      proper = rw queue proper;
    }

-- Where a method does not raise, it keeps the invariant.
abbrev pub Keeps : {A : Type 0} → Option (A × Tree) → Type 0
Keeps none = Unit
Keeps (some (a, t')) = Inv t'

pub Keeps-some :
    {A : Type 0} (o : Option (A × Tree)) (a : A) (t' : Tree) → Keeps o → o ≡ some (a, t') → Inv t'
Keeps-some none a t' k e = absurd (cc)
Keeps-some (some (b, u)) a t' k e = let same : u ≡ t' = cc in subst Inv same k

claim_then-Keeps :
    {A : Type 0} (answer : NodeClaim → Tree → A) (o : Option (NodeClaim × Tree))
    → Keeps o
    → Keeps (o >>= λ (claim, t'). some (answer claim t', t'))
claim_then-Keeps answer none k = tt
claim_then-Keeps answer (some (claim, t')) k = k

claim_node-Keeps :
    (fresh id : ℕ) (node : MessageNode) (t : Tree) (o : Option (NodeClaim × Tree))
    → IsIndexed t.queue
    → AllPending t.graph t.queue.deque
    → contains id t.queue.deque ≡ false
    → contains 0 t.queue.deque ≡ false
    → claim_node fresh id node t ≡ o
    → Keeps o
claim_node-Keeps fresh id node t none indexed queued out proper e = tt
claim_node-Keeps fresh id node t (some (claim, t')) indexed queued out proper e =
    claim_node-Inv fresh id node t claim t' indexed queued out proper e

put-AllPending :
    (id : ℕ) (g : Graph) (q : Queue)
    → IsIndexed q
    → AllPending g q.deque
    → pending_at g id ≡ true
    → AllPending g (put id q).1.deque
put-AllPending id g q indexed queued waiting =
    let (_, _, deque) = put_lem id q indexed in
    rw deque (elim (Bool-cases (contains id q.deque)) [
      | inl old ↦ rw old queued
      | inr new ↦ rw new (AllPending-append g q.deque id queued waiting)
    ])

put-Inv :
    (id : ℕ) (t : Tree) (a : ActiveClaim)
    → Inv t
    → pending_at t.graph id ≡ true
    → t.active ≡ some a
    → id ≢ 0
    → Inv (record t { queue = (put id t.queue).1 })
unfolding contains
put-Inv id t a inv waiting busy named = record {
  indexed = (put_lem id t.queue inv.indexed).0;
  idle_empty = λ quiet. absurd (cc);
  queued = put-AllPending id t.graph t.queue inv.indexed inv.queued waiting;
  proper =
      let (_, _, deque) = put_lem id t.queue inv.indexed in
      ground (arith, contains-append 0 t.queue.deque (id ∷ []));
}

admit_pending-Keeps :
    (fresh id : ℕ) (node : MessageNode) (t : Tree)
    → Inv t
    → pending_at t.graph id ≡ true
    → id ≢ 0
    → Keeps (admit_pending fresh id node t)
unfolding admit_pending
admit_pending-Keeps fresh id node t inv waiting named = elim (Option-cases t.active) [
  | inl quiet ↦
      rw (quiet, admit_pending)
        (claim_then-Keeps _ (claim_node fresh id node t) (
          claim_node-Keeps fresh id node t _ inv.indexed inv.queued (rw (inv.idle_empty quiet) refl)
            inv.proper refl))
  | inr (a, busy) ↦
      let kept = put-Inv id t a inv waiting busy named in
      elim (Bool-cases (put id t.queue).0) [
        | inl new ↦ rw (busy, admit_pending) (rw new kept)
        | inr old ↦ rw (busy, admit_pending) (rw old inv)
      ]
]

pending_here :
    (id : ℕ) (node : MessageNode) (t : Tree)
    → get_node id t.graph ≡ some node
    → is_pending node.state ≡ true
    → pending_at t.graph id ≡ true
unfolding pending_at
pending_here id node t e p = rw e p

pub enqueue_or_claim-Keeps :
    (fresh id : ℕ) (t : Tree) → id ≢ 0 → Inv t → Keeps (enqueue_or_claim fresh id t)
unfolding enqueue_or_claim
enqueue_or_claim-Keeps fresh id t named inv = elim (Option-cases (get_node id t.graph)) [
  | inl absent ↦ rw (absent, enqueue_or_claim) inv
  | inr (node, e) ↦ elim (Bool-cases (is_pending node.state)) [
    | inl p ↦
        rw (e, enqueue_or_claim)
          (rw p (admit_pending-Keeps fresh id node t inv (pending_here id node t e p) named))
    | inr p ↦ rw (e, enqueue_or_claim) (rw p inv)
  ]
]

-- A pending node is there.
pending_found :
    (id : ℕ) (t : Tree)
    → pending_at t.graph id ≡ true
    → (node : MessageNode) × (get_node id t.graph ≡ some node) × (is_pending node.state ≡ true)
unfolding pending_at
pending_found id t p = ground arith

popped_out :
    (id : ℕ) (rest : List ℕ) (q : Queue)
    → IsIndexed q
    → q.deque ≡ id ∷ rest
    → contains id rest ≡ false
popped_out id rest q indexed e = (subst NoRepeats e indexed.distinct).0

pub head_proper : (id : ℕ) (rest : List ℕ) → id ≡ 0 → contains 0 (id ∷ rest) ≡ false → ⊥
unfolding contains
head_proper id rest z h = ground arith

tail_proper : (id : ℕ) (rest : List ℕ) → contains 0 (id ∷ rest) ≡ false → contains 0 rest ≡ false
unfolding contains
tail_proper id rest h = ground arith

-- The successor's loop: from a tree without a claim, the oldest item is claimed.
claim_next-Keeps :
    (fuel fresh : ℕ) (t : Tree) (xs : List ℕ)
    → t.queue.deque ≡ xs
    → length xs ≤ fuel
    → IsIndexed t.queue
    → AllPending t.graph xs
    → contains 0 xs ≡ false
    → Keeps (claim_next fuel fresh t)
unfolding claim_next serve serve_node
claim_next-Keeps zero fresh t [] e enough indexed queued proper = record {
  indexed = indexed;
  idle_empty = λ _. e;
  queued = rw e tt;
  proper = rw e proper;
}
claim_next-Keeps zero fresh t (x ∷ xs) e enough indexed queued proper = absurd (omega arith)
claim_next-Keeps (suc fuel) fresh t [] e enough indexed queued proper =
    let (kept, item, deque) = pop_any t.queue [] indexed e in
    rw (item, claim_next, serve)
      (record {
        indexed = kept;
        idle_empty = λ _. deque;
        queued = rw deque tt;
        proper = rw deque proper;
      })
claim_next-Keeps (suc fuel) fresh t (id ∷ rest) e enough indexed queued proper =
    let (kept, item, deque) = pop_any t.queue (id ∷ rest) indexed e in
    let (node, found, p) = pending_found id t queued.0 in
    rw (item, claim_next, serve)
      (rw (==_ne id 0 (λ z. head_proper id rest z proper), found, p)
        (claim_then-Keeps _ _ (
          claim_node-Keeps fresh id node (record t { queue = (pop t.queue).1 }) _ kept
            (rw deque queued.1) (rw deque (popped_out id rest t.queue indexed e))
            (rw deque (tail_proper id rest proper)) refl)))

entries_then-Keeps :
    {A B : Type 0} (answer : A → List QueueEntry → B) (o : Option (A × Tree))
    → Keeps o
    → Keeps (o >>= λ (a, t'). queue_entries t' >>= λ entries. some (answer a entries, t'))
entries_then-Keeps answer none k = tt
entries_then-Keeps answer (some (a, t')) k = elim (Option-cases (queue_entries t')) [
  | inl e ↦ rw e tt
  | inr (entries, e) ↦ rw e k
]

pub finish_and_claim_next-Keeps :
    (fresh claim_id : ℕ) (t : Tree) → Inv t → Keeps (finish_and_claim_next fresh claim_id t)
unfolding finish_and_claim_next
finish_and_claim_next-Keeps fresh claim_id t inv = elim (Bool-cases (is_active t.active claim_id)) [
  | inl own ↦ rw own (
      entries_then-Keeps _ (claim_next (qsize t.queue) fresh (record t { active = none })) (
        claim_next-Keeps (qsize t.queue) fresh (record t { active = none }) t.queue.deque refl
          (unfold qsize in omega arith) inv.indexed inv.queued inv.proper))
  | inr other ↦
      rw other
        (elim (Option-cases (queue_entries t)) [ inl e ↦ rw e tt | inr (entries, e) ↦ rw e inv ])
]
