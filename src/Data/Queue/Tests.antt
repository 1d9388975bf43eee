-- ===== src/Data/Queue/Tests.antt =====
-- Runs of src/data/queue.c, and its theorems at a queue of two items.
use beaveros.Base.{ℕ, ◌≡◌, refl, none, some, [], ◌∷◌, arith}
use beaveros.Base.Run.{Run, ok, ◌>>=◌, Returns}
use beaveros.Data.Queue.{node, Nodes, update, Queue, queue, enqueue, dequeue}
use beaveros.Data.Queue.Chain.{Cells, items}
use beaveros.Data.Queue.Fifo.{IsQueue, enqueue_correct, dequeue_correct}

abbrev nodes : Nodes
nodes = update (update (λ _. none) 16 (some (node 7 32))) 32 (some (node 9 0))

abbrev two_items : Queue
two_items = queue 16 32

abbrev cells : Cells
cells = (16, 7) ∷ (32, 9) ∷ []

two_items-IsQueue : IsQueue nodes two_items cells
two_items-IsQueue = record { starts = refl; chain = ground arith; ends = refl }

session : Run (ℕ × ℕ × ℕ)
unfolding enqueue dequeue
session = do
  (q, s) ← enqueue 48 nodes two_items 5
  (a, q, s) ← dequeue s q
  (b, q, s) ← dequeue s q
  (c, q, s) ← dequeue s q
  ok (a, b, c)

session_result : session ≡ ok (7, 9, 5)
unfolding session
session_result = refl

enqueue_correct_example :
    Returns
      (λ (q', s'). (ys : Cells) × IsQueue s' q' ys × (items ys ≡ 7 ∷ 9 ∷ 5 ∷ []))
      (enqueue 48 nodes two_items 5)
enqueue_correct_example =
    enqueue_correct 48 nodes two_items 5 cells two_items-IsQueue (omega arith) refl

dequeue_correct_example :
    Returns
      (λ (r, q', s'). (r ≡ 7) × IsQueue s' q' ((32, 9) ∷ []) × (s' 16 ≡ none))
      (dequeue nodes two_items)
dequeue_correct_example = dequeue_correct nodes two_items 16 7 ((32, 9) ∷ []) two_items-IsQueue
