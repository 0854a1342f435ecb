-- ===== src/Tree/Queue.antt =====
-- messaging/trees/queue.py: class MessageNodeQueue. An identifier is a string, of which the trees only
-- test equality and emptiness; a number stands for it, and zero for the empty string.
pub mod Laws
use agentic_model_gateway.Base.{
  ℕ, Bool, true, false, Option, none, some, List, [], ◌∷◌, ◌++◌, if◌then◌else◌, contains, add,
  discard, length,
}

pub record Queue : Type 0 where
  pub deque : List ℕ
  -- The index of the deque, for membership tests.
  pub set : List ℕ

abbrev pub empty : Queue
empty = record { deque = []; set = [] }

unfoldable pub put : ℕ → Queue → Bool × Queue
unfolding contains add
put item q =
    if contains item q.set
    then (false, q)
    else (true, record { deque = q.deque ++ item ∷ []; set = add item q.set })

pop_from : List ℕ → List ℕ → Option ℕ × Queue
pop_from [] set = (none, record { deque = []; set = set })
pop_from (item ∷ deque) set = (some item, record { deque = deque; set = discard item set })

unfoldable pub pop : Queue → Option ℕ × Queue
unfolding pop_from
pop q = pop_from q.deque q.set

unfoldable pub qsize : Queue → ℕ
qsize q = length q.deque

unfoldable pub items : Queue → List ℕ
items q = q.deque

unfoldable pub remove : ℕ → Queue → Bool × Queue
unfolding contains discard
remove item q =
    if contains item q.set
    then (true, record { deque = discard item q.deque; set = discard item q.set })
    else (false, q)

unfoldable pub drain : Queue → List ℕ × Queue
drain q = (q.deque, record { deque = []; set = [] })

unfoldable pub put_all : List ℕ → Queue → Queue
put_all [] q = q
put_all (item ∷ rest) q = put_all rest (put item q).1

-- The constructor.
unfoldable pub new_queue : List ℕ → Queue
unfolding put_all
new_queue initial = put_all initial empty
