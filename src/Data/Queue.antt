-- ===== src/Data/Queue.antt =====
-- src/data/queue.c: a queue as a linked list. Nodes live in a store by address, 0 is NULL, and
-- `fresh` is the address that `malloc` returns. A `queue_t` lives outside the store, so a function
-- that updates one returns the new value.
pub mod Chain
pub mod Fifo
mod Tests
use beaveros.Base.{ℕ, Option, none, some, ◌==◌, if◌then◌else◌}
use beaveros.Base.Run.{Run, ok, fault, ◌>>=◌}

-- `queue_item_t`
pub record Node : Type 0 where
  pub head : ℕ
  pub tail : ℕ

abbrev pub node : ℕ → ℕ → Node
node e p = record { head = e; tail = p }

-- `queue_t`
pub record Queue : Type 0 where
  pub head : ℕ
  pub tail : ℕ

abbrev pub queue : ℕ → ℕ → Queue
queue h t = record { head = h; tail = t }

-- The nodes that are allocated.
abbrev pub Nodes : Type 0
Nodes = ℕ → Option Node

abbrev pub update : Nodes → ℕ → Option Node → Nodes
update s a c b = if b == a then c else s b

-- An access through a pointer to no node is a fault.
abbrev pub or_fault : Option Node → Run Node
or_fault none = fault
or_fault (some n) = ok n

unfoldable pub enqueue : (fresh : ℕ) → Nodes → Queue → ℕ → Run (Queue × Nodes)
enqueue fresh s q e =
    let s' = update s fresh (some (node e 0)) in
    if q.head == 0 then ok (queue fresh fresh, s') else (do
      last ← or_fault (s' q.tail)
      ok (queue q.head fresh, update s' q.tail (some (node last.head fresh))))

-- The first result is the item, 0 for NULL.
unfoldable pub dequeue : Nodes → Queue → Run (ℕ × Queue × Nodes)
dequeue s q = if q.head == 0 then ok (0, q, s) else (do
  cell ← or_fault (s q.head)
  ok (cell.head, queue cell.tail q.tail, update s q.head none))
