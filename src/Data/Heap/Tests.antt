-- ===== src/Data/Heap/Tests.antt =====
-- Runs of src/data/heap.c on small heaps, and its theorems there.
use beaveros.Base.{ℕ, ◌≡◌, refl, arith}
use beaveros.Base.Int.{ℤ, pos, ◌-ℤ◌}
use beaveros.Base.Memory.{store}
use beaveros.Base.Run.{Run, ok, ◌>>=◌, Returns}
use beaveros.Data.Heap.{MinHeap, Allocator, make_heap, heap_push, heap_pop}
use beaveros.Data.Heap.Order.{ComparesBy, IsValid}
use beaveros.Data.Heap.Ops.{Pushed, Popped, heap_push_correct, heap_pop_correct}

-- An item is its own key here.
abbrev cmp : ℕ → ℕ → ℤ
cmp a b = pos a -ℤ pos b

abbrev key : ℕ → ℕ
key a = a

cmp-key : ComparesBy cmp key
unfolding ◌-ℤ◌
cmp-key a b = ground arith

abbrev alloc : Allocator
alloc = record { realloc = λ m old new. m; realloc_keeps = λ m old new i p q. refl }

abbrev pair : MinHeap
pair = record { data_block = store (store (λ _. 0) 0 3) 1 5; size = 2; capacity = 2 }

pair-IsValid : IsValid key pair
pair-IsValid = record {
  ordered = λ c p q. ground arith;
  fits = omega arith;
  room = omega arith;
  bounded = omega arith;
}

-- Three pushes and three pops, in ascending order.
session : Run (ℕ × ℕ × ℕ)
unfolding make_heap heap_push heap_pop ◌-ℤ◌
session = do
  h ← heap_push cmp alloc (make_heap (λ _. 0)) 7
  h ← heap_push cmp alloc h 2
  h ← heap_push cmp alloc h 5
  (a, h) ← heap_pop cmp h
  (b, h) ← heap_pop cmp h
  (c, h) ← heap_pop cmp h
  ok (a, b, c)

session_result : session ≡ ok (2, 5, 7)
unfolding session
session_result = refl

heap_push_correct_example : Returns (Pushed cmp key cmp-key pair 1) (heap_push cmp alloc pair 1)
heap_push_correct_example =
    heap_push_correct cmp key cmp-key alloc pair 1 pair-IsValid (omega arith)

heap_pop_correct_example : Returns (Popped cmp key cmp-key pair) (heap_pop cmp pair)
heap_pop_correct_example = heap_pop_correct cmp key cmp-key pair pair-IsValid (omega arith)
