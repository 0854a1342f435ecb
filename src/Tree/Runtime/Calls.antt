-- ===== src/Tree/Runtime/Calls.antt =====
-- Methods of the tree as calls, and the invariant over sequences of them that raise nothing.
use agentic_model_gateway.Base.{
  ℕ, ◌≡◌, ◌≢◌, refl, subst, Bool, true, false, Option, none, some, List, [], ◌∷◌, inl, inr, arith,
  Bool-cases, Option-cases, lookup, insert, lookup-insert,
}
use agentic_model_gateway.Tree.Node.{
  MessageNode, MessageState, in_progress, completed, is_pending, update_state,
}
use agentic_model_gateway.Tree.Graph.{
  Graph, get_node, modify_node, Reply, add_node, append_child, may_add, reply_node,
}
use agentic_model_gateway.Tree.Runtime.State.{ActiveClaim, Tree}
use agentic_model_gateway.Tree.Runtime.Admit.{
  enqueue_or_claim, add_and_enqueue, finish_and_claim_next,
}
use agentic_model_gateway.Tree.Runtime.Cancel.{cancel_node, cancel_all, remove_message_subtree}
use agentic_model_gateway.Tree.Runtime.Report.{
  record_session, complete_claim, recorded, on_node, on_claim, is_live, is_in_progress,
  may_complete,
}
use agentic_model_gateway.Tree.Runtime.Invariant.{
  pending_at, get_node-modify_node, AllPending, Inv, AllPending-modify_node, AllPending-contains,
}
use agentic_model_gateway.Tree.Runtime.Claims.{
  Keeps, enqueue_or_claim-Keeps, finish_and_claim_next-Keeps,
}
use agentic_model_gateway.Tree.Runtime.Removal.{remove_message_subtree-Keeps}
use agentic_model_gateway.Tree.Runtime.Stops.{cancel_node-Keeps, cancel_all-Keeps}

pub data Call : Type 0 where
  admits : (fresh id : ℕ) → Call
  replies : (fresh : ℕ) → Reply → Call
  finishes : (fresh claim_id : ℕ) → Call
  cancels : (id : ℕ) → Call
  cancels_all : Call
  removes : (fuel reference : ℕ) → Call
  records : (claim_id session_id : ℕ) → Call
  completes : (claim_id : ℕ) → Option ℕ → Call

abbrev tree_of : {A : Type 0} → Option (A × Tree) → Option Tree
tree_of none = none
tree_of (some (a, t)) = some t

-- The tree after a call; `none` where the call raises.
unfoldable pub apply : Call → Tree → Option Tree
apply (admits fresh id) t = tree_of (enqueue_or_claim fresh id t)
apply (replies fresh r) t = tree_of (add_and_enqueue fresh r t)
apply (finishes fresh claim_id) t = tree_of (finish_and_claim_next fresh claim_id t)
apply (cancels id) t = tree_of (cancel_node id t)
apply cancels_all t = tree_of (cancel_all t)
apply (removes fuel reference) t = tree_of (remove_message_subtree fuel reference t)
apply (records claim_id session_id) t = some (record_session claim_id session_id t).1
apply (completes claim_id session_id) t = some (complete_claim claim_id session_id t).1

unfoldable pub apply_all : List Call → Tree → Option Tree
unfolding apply
apply_all [] t = some t
apply_all (call ∷ calls) t = elim (apply call t) [ none ↦ none | some t' ↦ apply_all calls t' ]

-- The platform names its messages, and no name is empty.
abbrev pub IsNamed : Call → Type 0
IsNamed (admits fresh id) = id ≢ 0
IsNamed (replies fresh r) = r.node_id ≢ 0
IsNamed _ = Unit

tree_of-Inv :
    {A : Type 0} (o : Option (A × Tree)) (t' : Tree) → Keeps o → tree_of o ≡ some t' → Inv t'
tree_of-Inv none t' k e = absurd (cc)
tree_of-Inv (some (a, u)) t' k e = let same : u ≡ t' = cc in subst Inv same k

-- A change of a node that is not pending.
recorded-Inv :
    (test : Bool) (id : ℕ) (f : MessageNode → MessageNode) (t : Tree)
    → Inv t
    → (test ≡ true → pending_at t.graph id ≡ false)
    → Inv (recorded test id f t).1
recorded-Inv false id f t inv out = inv
recorded-Inv true id f t inv out = record {
  indexed = inv.indexed;
  idle_empty = inv.idle_empty;
  queued =
      AllPending-modify_node id f t.graph t.queue.deque
        (AllPending-contains t.graph id t.queue.deque inv.queued (out refl)) inv.queued;
  proper = inv.proper;
}

not_pending :
    (id : ℕ) (node : MessageNode) (g : Graph)
    → get_node id g ≡ some node
    → is_pending node.state ≡ false
    → pending_at g id ≡ false
unfolding pending_at
not_pending id node g found out = rw found out

in_progress_not_pending : (s : MessageState) → is_in_progress s ≡ true → is_pending s ≡ false
in_progress_not_pending s h = ground arith

may_complete_not_pending : (s : MessageState) → may_complete s ≡ true → is_pending s ≡ false
may_complete_not_pending s h = ground arith

on_node-Inv :
    (o : Option MessageNode) (id : ℕ) (accepts : MessageState → Bool)
    (f : MessageNode → MessageNode) (t : Tree)
    → ((s : MessageState) → accepts s ≡ true → is_pending s ≡ false)
    → get_node id t.graph ≡ o
    → Inv t
    → Inv (on_node o id accepts f t).1
on_node-Inv none id accepts f t sound found inv = inv
on_node-Inv (some node) id accepts f t sound found inv =
    recorded-Inv (accepts node.state) id f t inv
      (λ h. not_pending id node t.graph found (sound node.state h))

on_claim-Inv :
    (active : Option ActiveClaim) (accepts : MessageState → Bool) (f : MessageNode → MessageNode)
    (t : Tree)
    → ((s : MessageState) → accepts s ≡ true → is_pending s ≡ false)
    → Inv t
    → Inv (on_claim active accepts f t).1
unfolding on_claim
on_claim-Inv none accepts f t sound inv = inv
on_claim-Inv (some a) accepts f t sound inv =
    on_node-Inv (get_node a.claim.node.node_id t.graph) a.claim.node.node_id accepts f t sound refl
      inv

record_session-Inv :
    (claim_id session_id : ℕ) (t : Tree) → Inv t → Inv (record_session claim_id session_id t).1
unfolding record_session
record_session-Inv claim_id session_id t inv = elim (Bool-cases (is_live t.active claim_id)) [
  | inr dead ↦ rw dead inv
  | inl live ↦ rw live (
      on_claim-Inv t.active is_in_progress (update_state in_progress (some session_id)) t
        in_progress_not_pending inv)
]

complete_claim-Inv :
    (claim_id : ℕ) (session_id : Option ℕ) (t : Tree)
    → Inv t
    → Inv (complete_claim claim_id session_id t).1
unfolding complete_claim
complete_claim-Inv claim_id session_id t inv = elim (Bool-cases (is_live t.active claim_id)) [
  | inr dead ↦ rw dead inv
  | inl live ↦ rw live (
      on_claim-Inv t.active may_complete (update_state completed session_id) t
        may_complete_not_pending inv)
]

may_add-fresh : (r : Reply) (g : Graph) → may_add r g ≡ true → lookup r.node_id g.nodes ≡ none
unfolding may_add
may_add-fresh r g h = ground arith

-- The graph that `add_node` makes.
abbrev inserted : Reply → Graph → Graph
inserted r g = record g {
  nodes = insert r.node_id (reply_node r) g.nodes;
  status_to_node = insert r.status_message_id r.node_id g.status_to_node;
}

inserted-pending_at :
    (r : Reply) (g : Graph) (i : ℕ)
    → lookup r.node_id g.nodes ≡ none
    → pending_at g i ≡ true
    → pending_at (modify_node r.parent_id (append_child r.node_id) (inserted r g)) i ≡ true
unfolding pending_at get_node
inserted-pending_at r g i absent p = ground (
  arith,
  get_node-modify_node r.parent_id i (append_child r.node_id) (inserted r g),
  lookup-insert r.node_id i (reply_node r) g.nodes,
)

-- A new reply is a new key, and its parent stays as pending as it was.
add_node-pending_at :
    (r : Reply) (g g' : Graph) (i : ℕ)
    → add_node r g ≡ some g'
    → pending_at g i ≡ true
    → pending_at g' i ≡ true
unfolding add_node
add_node-pending_at r g g' i e p = elim (Bool-cases (may_add r g)) [
  | inl may ↦
      let made : modify_node r.parent_id (append_child r.node_id) (inserted r g) ≡ g' =
        ground arith in
      subst (λ h. pending_at h i ≡ true) made (inserted-pending_at r g i (may_add-fresh r g may) p)
  | inr not_allowed ↦ absurd (ground arith)
]

add_node-AllPending :
    (r : Reply) (g g' : Graph) (ids : List ℕ)
    → add_node r g ≡ some g'
    → AllPending g ids
    → AllPending g' ids
add_node-AllPending r g g' [] e h = tt
add_node-AllPending r g g' (i ∷ ids) e h =
    (add_node-pending_at r g g' i e h.0, add_node-AllPending r g g' ids e h.1)

add_and_enqueue-Keeps :
    (fresh : ℕ) (r : Reply) (t : Tree) → r.node_id ≢ 0 → Inv t → Keeps (add_and_enqueue fresh r t)
unfolding add_and_enqueue
add_and_enqueue-Keeps fresh r t named inv = elim (Option-cases (add_node r t.graph)) [
  | inl refused ↦ rw refused tt
  | inr (g, made) ↦ rw made (
      enqueue_or_claim-Keeps fresh r.node_id (record t { graph = g }) named
        (record {
          indexed = inv.indexed;
          idle_empty = inv.idle_empty;
          queued = add_node-AllPending r t.graph g t.queue.deque made inv.queued;
          proper = inv.proper;
        }))
]

apply-Inv : (call : Call) (t t' : Tree) → IsNamed call → Inv t → apply call t ≡ some t' → Inv t'
unfolding apply
apply-Inv (admits fresh id) t t' named inv e =
    tree_of-Inv (enqueue_or_claim fresh id t) t' (enqueue_or_claim-Keeps fresh id t named inv) e
apply-Inv (replies fresh r) t t' named inv e =
    tree_of-Inv (add_and_enqueue fresh r t) t' (add_and_enqueue-Keeps fresh r t named inv) e
apply-Inv (finishes fresh claim_id) t t' named inv e =
    tree_of-Inv (finish_and_claim_next fresh claim_id t) t'
      (finish_and_claim_next-Keeps fresh claim_id t inv) e
apply-Inv (cancels id) t t' named inv e =
    tree_of-Inv (cancel_node id t) t' (cancel_node-Keeps id t inv) e
apply-Inv cancels_all t t' named inv e = tree_of-Inv (cancel_all t) t' (cancel_all-Keeps t) e
apply-Inv (removes fuel reference) t t' named inv e =
    tree_of-Inv (remove_message_subtree fuel reference t) t'
      (remove_message_subtree-Keeps fuel reference t inv) e
apply-Inv (records claim_id session_id) t t' named inv e =
    let same : (record_session claim_id session_id t).1 ≡ t' = cc in
    subst Inv same (record_session-Inv claim_id session_id t inv)
apply-Inv (completes claim_id session_id) t t' named inv e =
    let same : (complete_claim claim_id session_id t).1 ≡ t' = cc in
    subst Inv same (complete_claim-Inv claim_id session_id t inv)

abbrev pub AllNamed : List Call → Type 0
AllNamed [] = Unit
AllNamed (call ∷ calls) = IsNamed call × AllNamed calls

-- After any sequence of calls of enqueue_or_claim, add_and_enqueue, finish_and_claim_next, cancel_node,
-- cancel_all, remove_message_subtree, record_session and complete_claim of which none raises, and none
-- uses up its walk's fuel, from a well-formed tree and with no empty message name: the queue has no
-- repetitions and agrees with its index, every queued identifier is that of a PENDING node, and nothing
-- is queued while no claim is active.
pub apply_all-Inv :
    (calls : List Call) (t t' : Tree)
    → AllNamed calls
    → Inv t
    → apply_all calls t ≡ some t'
    → Inv t'
unfolding apply_all
apply_all-Inv [] t t' named inv e = let same : t ≡ t' = cc in subst Inv same inv
apply_all-Inv (call ∷ calls) t t' named inv e = elim (Option-cases (apply call t)) [
  | inl raised ↦ absurd (ground arith)
  | inr (u, once) ↦
      apply_all-Inv calls u t' named.1 (apply-Inv call t u named.0 inv once) (ground arith)
]
