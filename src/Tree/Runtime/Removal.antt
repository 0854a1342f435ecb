-- ===== src/Tree/Runtime/Removal.antt =====
-- The removal of a reply subtree: the removed nodes are out of the queue before they leave the graph.
use agentic_model_gateway.Base.{
  ℕ, ◌≡◌, refl, ap, ◌∙◌, true, false, not, ◌&&◌, subst, Option, none, some, List, [], ◌∷◌, ◌==◌,
  contains, discard, contains-add, contains-discard, erase, lookup-erase, inl, inr, arith,
  Bool-cases, Option-cases, ==_refl,
}
use agentic_model_gateway.Tree.Node.{
  MessageNode, MessageReferenceKind, prompt, status, clear_node_status,
}
use agentic_model_gateway.Tree.Queue.{remove}
use agentic_model_gateway.Tree.Queue.Laws.{remove_lem}
use agentic_model_gateway.Tree.Graph.{
  Graph, get_node, remove_node, remove_nodes, clear_status, unlink, drop_child, forget_status,
  resolve_reference, get_reference_descendants,
}
use agentic_model_gateway.Tree.Runtime.State.{NodeClaim, Tree, ◌>>=◌}
use agentic_model_gateway.Tree.Runtime.Cancel.{
  cancel_affected, cancelled_target, cancelled_graph, claims, with_owner, cleared, known_nodes,
  nothing_removed, remove_resolved, remove_message_subtree, request_among, active_among,
  updated_queue,
}
use agentic_model_gateway.Tree.Runtime.Invariant.{
  AllPending, Inv, pending_at, get_node-modify_node, AllPending-contains, AllPending-modify_node,
}
use agentic_model_gateway.Tree.Runtime.Claims.{Keeps}
use agentic_model_gateway.Tree.Runtime.Stops.{cancelled-AllPending, request_quiet}

unlink-pending_at :
    (parent : Option ℕ) (id i : ℕ) (g : Graph)
    → pending_at g i ≡ true
    → pending_at (unlink parent id g) i ≡ true
unfolding pending_at
unlink-pending_at none id i g p = p
unlink-pending_at (some parent) id i g p =
    ground (arith, get_node-modify_node parent i (drop_child id) g)

forget_status-pending_at :
    (s : Option ℕ) (i : ℕ) (g : Graph) → pending_at (forget_status s g) i ≡ pending_at g i
unfolding pending_at get_node
forget_status-pending_at none i g = refl
forget_status-pending_at (some s) i g = refl

erased-pending_at :
    (id i : ℕ) (g : Graph)
    → id == i ≡ false
    → pending_at g i ≡ true
    → pending_at (record g { nodes = erase id g.nodes }) i ≡ true
unfolding pending_at get_node
erased-pending_at id i g other p = ground (arith, lookup-erase id i g.nodes)

forgotten-AllPending :
    (s : Option ℕ) (g : Graph) (queued : List ℕ)
    → AllPending g queued
    → AllPending (forget_status s g) queued
forgotten-AllPending s g [] h = tt
forgotten-AllPending s g (i ∷ queued) h =
    (forget_status-pending_at s i g ∙ h.0, forgotten-AllPending s g queued h.1)

remove_node-pending_at :
    (id i : ℕ) (g : Graph)
    → id == i ≡ false
    → pending_at g i ≡ true
    → pending_at (remove_node id g) i ≡ true
unfolding remove_node
remove_node-pending_at id i g other p = elim (Option-cases (get_node id g)) [
  | inl absent ↦ rw (absent, remove_node) p
  | inr (node, found) ↦
      rw (found, remove_node)
        (erased-pending_at id i (forget_status node.status_message_id (unlink node.parent_id id g))
          other
          (forget_status-pending_at node.status_message_id i (unlink node.parent_id id g)
            ∙ unlink-pending_at node.parent_id id i g p))
]

-- A node that is not in the queue may lose its status.
cleared-AllPending :
    (kind : MessageReferenceKind) (owner : ℕ) (g : Graph) (queued : List ℕ)
    → (kind ≡ status → contains owner queued ≡ false)
    → AllPending g queued
    → AllPending (cleared kind owner g) queued
unfolding clear_status
cleared-AllPending prompt owner g queued out h = h
cleared-AllPending status owner g queued out h = elim (Option-cases (get_node owner g)) [
  | inl absent ↦ rw (absent, clear_status) h
  | inr (node, found) ↦ elim (Option-cases node.status_message_id) [
    | inl hidden ↦ rw (found, clear_status) (rw hidden h)
    | inr (s, shown) ↦
        rw (found, clear_status)
          (rw shown (
            AllPending-modify_node owner clear_node_status (forget_status (some s) g) queued
              (out refl) (forgotten-AllPending (some s) g queued h)))
  ]
]

remove_node-AllPending :
    (id : ℕ) (g : Graph) (queued : List ℕ)
    → contains id queued ≡ false
    → AllPending g queued
    → AllPending (remove_node id g) queued
unfolding contains
remove_node-AllPending id g [] out h = tt
remove_node-AllPending id g (i ∷ queued) out h = (
  remove_node-pending_at id i g (ground (arith, out)) h.0,
  remove_node-AllPending id g queued (ground (arith, out)) h.1,
)

remove_nodes-AllPending :
    (ids : List ℕ) (g : Graph) (queued : List ℕ)
    → ((i : ℕ) → contains i ids ≡ true → contains i queued ≡ false)
    → AllPending g queued
    → AllPending (remove_nodes ids g) queued
unfolding remove_nodes contains
remove_nodes-AllPending [] g queued out h = h
remove_nodes-AllPending (id ∷ ids) g queued out h =
    remove_nodes-AllPending ids (remove_node id g) queued
      (λ i within. out i (ground (arith, within)))
      (remove_node-AllPending id g queued (out id (ground (arith, ==_refl id))) h)

-- After a loop over `ids`: the queue lost items only, and has none of `ids` left.
record Cleared (ids : List ℕ) (t t' : Tree) : Type 0 where
  inv : Inv t'
  fewer : (i : ℕ) → contains i t.queue.deque ≡ false → contains i t'.queue.deque ≡ false
  out : (i : ℕ) → contains i ids ≡ true → contains i t'.queue.deque ≡ false

abbrev Clears : {A : Type 0} → List ℕ → Tree → Option (A × Tree) → Type 0
Clears ids t none = Unit
Clears ids t (some (a, t')) = Cleared ids t t'

then-Clears :
    {A B C : Type 0} (answer : A → B → C) (first : Option A) (later : Option (B × Tree))
    (ids : List ℕ) (t : Tree)
    → Clears ids t later
    → Clears ids t (first >>= λ a. later >>= λ rest. some (answer a rest.0, rest.1))
then-Clears answer none later ids t h = tt
then-Clears answer (some a) none ids t h = tt
then-Clears answer (some a) (some (b, t')) ids t h = h

-- A first item that is out of the queue.
more-Clears :
    {A : Type 0} (id : ℕ) (ids : List ℕ) (t u : Tree) (o : Option (A × Tree))
    → ((i : ℕ) → contains i t.queue.deque ≡ false → contains i u.queue.deque ≡ false)
    → contains id u.queue.deque ≡ false
    → Clears ids u o
    → Clears (id ∷ ids) t o
unfolding contains
more-Clears id ids t u none less gone h = tt
more-Clears id ids t u (some (a, t')) less gone h = record {
  inv = h.inv;
  fewer = λ i absent. h.fewer i (less i absent);
  out = λ i within. elim (Bool-cases (contains i ids)) [
    | inl later ↦ h.out i later
    | inr now ↦
        let same : id ≡ i = ground (arith, within, now) in
        subst (λ j. contains j t'.queue.deque ≡ false) same (h.fewer id gone)
  ];
}

absent_unqueued :
    (id : ℕ) (t : Tree) → Inv t → get_node id t.graph ≡ none → contains id t.queue.deque ≡ false
unfolding pending_at
absent_unqueued id t inv absent =
    AllPending-contains t.graph id t.queue.deque inv.queued (rw absent refl)

-- A node that is cancelled and taken from the queue.
taken : ℕ → MessageNode → Tree → Tree
taken id node t = record t {
  queue = (remove id t.queue).1;
  graph = cancelled_graph id node t.graph;
}

taken-Inv : (id : ℕ) (node : MessageNode) (t : Tree) → Inv t → Inv (taken id node t)
unfolding discard contains taken
taken-Inv id node t inv =
    let (indexed, _, deque) = remove_lem id t.queue inv.indexed in
    record {
      indexed = indexed;
      idle_empty = λ quiet. deque ∙ ap (discard id) (inv.idle_empty quiet);
      queued = rw deque (cancelled-AllPending id node t.graph t.queue.deque inv.queued);
      proper = rw deque (ground (arith, contains-discard id 0 t.queue.deque, inv.proper));
    }

taken_out :
    (id i : ℕ) (node : MessageNode) (t : Tree)
    → Inv t
    → contains i (taken id node t).queue.deque ≡ (not (id == i) && contains i t.queue.deque)
unfolding taken
taken_out id i node t inv =
    let (_, _, deque) = remove_lem id t.queue inv.indexed in
    rw deque (contains-discard id i t.queue.deque)

cancel_affected-Clears :
    (active_claim : Option NodeClaim) (ids : List ℕ) (t : Tree)
    → Inv t
    → Clears ids t (cancel_affected active_claim ids t)
unfolding cancel_affected contains taken
cancel_affected-Clears active_claim [] t inv = record {
  inv = inv;
  fewer = λ i h. h;
  out = λ i h. absurd (ground (arith, h));
}
cancel_affected-Clears active_claim (id ∷ ids) t inv = elim (Option-cases (get_node id t.graph)) [
  | inl absent ↦
      rw (absent, cancel_affected)
        (more-Clears id ids t t _ (λ i h. h) (absent_unqueued id t inv absent)
          (cancel_affected-Clears active_claim ids t inv))
  | inr (node, found) ↦
      rw (found, cancel_affected)
        (then-Clears _ (cancelled_target node (claims active_claim id))
          (cancel_affected active_claim ids (taken id node t)) (id ∷ ids) t
          (more-Clears id ids t (taken id node t) _
            (λ i h. ground (arith, h, taken_out id i node t inv))
            (ground (arith, taken_out id id node t inv, ==_refl id))
            (cancel_affected-Clears active_claim ids (taken id node t) (taken-Inv id node t inv))))
]

-- A cancellation that is asked of the active claim leaves the rest as it is.
asked-Inv :
    (ids : List ℕ) (t : Tree) → Inv t → Inv (record t { active = request_among t.active ids })
asked-Inv ids t inv = record {
  indexed = inv.indexed;
  idle_empty = λ quiet. inv.idle_empty (request_quiet t.active ids quiet);
  queued = inv.queued;
  proper = inv.proper;
}

owner_within :
    (kind : MessageReferenceKind) (owner : ℕ) (ids : List ℕ)
    → kind ≡ status
    → contains owner (with_owner kind owner ids) ≡ true
owner_within prompt owner ids e = absurd (ground (arith, e))
owner_within status owner ids e = ground (arith, contains-add owner owner ids, ==_refl owner)

removed_within :
    (kind : MessageReferenceKind) (owner i : ℕ) (ids : List ℕ)
    → contains i ids ≡ true
    → contains i (with_owner kind owner ids) ≡ true
removed_within prompt owner i ids h = h
removed_within status owner i ids h = ground (arith, contains-add owner i ids, h)

removed-Inv :
    (kind : MessageReferenceKind) (owner : ℕ) (removed : List ℕ) (t t' : Tree)
    → Cleared (with_owner kind owner removed) t t'
    → Inv (record t' { graph = remove_nodes removed (cleared kind owner t'.graph) })
removed-Inv kind owner removed t t' c = record {
  indexed = c.inv.indexed;
  idle_empty = c.inv.idle_empty;
  queued =
      remove_nodes-AllPending removed (cleared kind owner t'.graph) t'.queue.deque
        (λ i within. c.out i (removed_within kind owner i removed within))
        (cleared-AllPending kind owner t'.graph t'.queue.deque
          (λ e. c.out owner (owner_within kind owner removed e)) c.inv.queued);
  proper = c.inv.proper;
}

-- The answer and the tree that follow a loop which cleared the queue.
after-Keeps :
    {A B C : Type 0} (answer : A → B → C) (after : Tree → Tree) (update : A → Tree → Option B)
    (ids : List ℕ) (t : Tree) (o : Option (A × Tree))
    → Clears ids t o
    → ((t' : Tree) → Cleared ids t t' → Inv (after t'))
    → Keeps (o >>= λ (a, t'). update a (after t') >>= λ b. some (answer a b, after t'))
after-Keeps answer after update ids t none h k = tt
after-Keeps answer after update ids t (some (a, t')) h k =
    elim (Option-cases (update a (after t'))) [ inl e ↦ rw e tt | inr (b, e) ↦ rw e (k t' h) ]

remove_resolved-Keeps :
    (references : List ℕ) (owner : MessageNode) (kind : MessageReferenceKind) (t : Tree)
    → Inv t
    → Keeps (remove_resolved references owner kind t)
unfolding remove_resolved
remove_resolved-Keeps references owner kind t inv =
    let removed : List ℕ = known_nodes t.graph references in
    let affected : List ℕ = with_owner kind owner.node_id removed in
    let asked : Tree = record t { active = request_among t.active affected } in
    after-Keeps _
      (λ t'. record t' { graph = remove_nodes removed (cleared kind owner.node_id t'.graph) })
      (λ cancelled t'. updated_queue cancelled.1 t') affected asked
      (cancel_affected (active_among t.active affected) affected asked)
      (cancel_affected-Clears (active_among t.active affected) affected asked
        (asked-Inv affected t inv))
      (λ t' c. removed-Inv kind owner.node_id removed asked t' c)

pub remove_message_subtree-Keeps :
    (fuel reference : ℕ) (t : Tree) → Inv t → Keeps (remove_message_subtree fuel reference t)
unfolding remove_message_subtree
remove_message_subtree-Keeps fuel reference t inv =
    elim (Option-cases (get_reference_descendants fuel reference t.graph)) [
      | inl spent ↦ rw (spent, remove_message_subtree) tt
      | inr (references, walked) ↦ elim (Option-cases (resolve_reference reference t.graph)) [
        | inl unknown ↦ rw (walked, remove_message_subtree) (rw unknown inv)
        | inr ((owner, kind), known) ↦
            rw (walked, remove_message_subtree) (rw known (at_references references owner kind))
      ]
    ]
  where
    at_references :
        (references : List ℕ) (owner : MessageNode) (kind : MessageReferenceKind)
        → Keeps (elim references [
          | [] ↦ some (nothing_removed, t)
          | id ∷ ids ↦ remove_resolved (id ∷ ids) owner kind t
        ])
    at_references [] owner kind = inv
    at_references (id ∷ ids) owner kind = remove_resolved-Keeps (id ∷ ids) owner kind t inv
