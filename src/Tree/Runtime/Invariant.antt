-- ===== src/Tree/Runtime/Invariant.antt =====
-- An invariant of the tree: the queue is well formed, holds pending nodes only, none under the
-- empty identifier, and is empty while nothing is claimed.
use agentic_model_gateway.Base.{
  ℕ, ◌≡◌, refl, Bool, true, false, Option, none, some, List, [], ◌∷◌, ◌++◌, ◌==◌, if◌then◌else◌,
  contains, discard, inl, inr, arith, Option-cases, lookup, lookup-insert,
}
use agentic_model_gateway.Tree.Node.{MessageNode, is_pending}
use agentic_model_gateway.Tree.Queue.Laws.{IsIndexed}
use agentic_model_gateway.Tree.Graph.{Graph, get_node, modify_node}
use agentic_model_gateway.Tree.Runtime.State.{Tree}

abbrev pub pending_node : Option MessageNode → Bool
pending_node none = false
pending_node (some node) = is_pending node.state

unfoldable pub pending_at : Graph → ℕ → Bool
unfolding get_node
pending_at g i = pending_node (get_node i g)

abbrev pub changed_node : (MessageNode → MessageNode) → Option MessageNode → Option MessageNode
changed_node f none = none
changed_node f (some node) = some (f node)

pub get_node-modify_node :
    (k i : ℕ) (f : MessageNode → MessageNode) (g : Graph)
    → get_node i (modify_node k f g)
      ≡ (if k == i then changed_node f (get_node i g) else get_node i g)
unfolding get_node modify_node
get_node-modify_node k i f g = elim (Option-cases (lookup k g.nodes)) [
  | inl e ↦ ground arith
  | inr (node, e) ↦ rw (e, modify_node) (ground (arith, lookup-insert k i (f node) g.nodes))
]

-- A change that leaves no pending node pending.
pub pending_at-modify_node :
    (k i : ℕ) (f : MessageNode → MessageNode) (g : Graph)
    → pending_at (modify_node k f g) i
      ≡ (if k == i then pending_node (changed_node f (get_node i g)) else pending_at g i)
unfolding pending_at
pending_at-modify_node k i f g = ground (arith, get_node-modify_node k i f g)

-- The queue's items are pending nodes.
abbrev pub AllPending : Graph → List ℕ → Type 0
AllPending g [] = Unit
AllPending g (i ∷ ids) = (pending_at g i ≡ true) × AllPending g ids

pub record Inv (t : Tree) : Type 0 where
  pub indexed : IsIndexed t.queue
  pub idle_empty : t.active ≡ none → t.queue.deque ≡ []
  pub queued : AllPending t.graph t.queue.deque
  pub proper : contains 0 t.queue.deque ≡ false

-- A node outside the list may change at will.
pub AllPending-modify_node :
    (k : ℕ) (f : MessageNode → MessageNode) (g : Graph) (ids : List ℕ)
    → contains k ids ≡ false
    → AllPending g ids
    → AllPending (modify_node k f g) ids
unfolding contains
AllPending-modify_node k f g [] out h = tt
AllPending-modify_node k f g (i ∷ ids) out h =
    ground (arith, pending_at-modify_node k i f g, AllPending-modify_node k f g ids)

pub AllPending-append :
    (g : Graph) (ids : List ℕ) (i : ℕ)
    → AllPending g ids
    → pending_at g i ≡ true
    → AllPending g (ids ++ i ∷ [])
AllPending-append g [] i h p = (p, tt)
AllPending-append g (x ∷ ids) i h p = (h.0, AllPending-append g ids i h.1 p)

pub AllPending-discard :
    (g : Graph) (i : ℕ) (ids : List ℕ) → AllPending g ids → AllPending g (discard i ids)
unfolding discard
AllPending-discard g i [] h = tt
AllPending-discard g i (x ∷ ids) h = ground (arith, AllPending-discard g i ids h.1)

-- A node that is not pending is not in the queue.
pub AllPending-contains :
    (g : Graph) (i : ℕ) (ids : List ℕ)
    → AllPending g ids
    → pending_at g i ≡ false
    → contains i ids ≡ false
unfolding contains
AllPending-contains g i [] h out = refl
AllPending-contains g i (x ∷ ids) h out = ground (arith, AllPending-contains g i ids h.1)
