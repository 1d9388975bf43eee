-- ===== src/Data/Heap.antt =====
-- src/data/heap.c: a binary heap in an array. The children of cell i are the cells 2 * i and
-- 2 * i + 1, so the root 0 has the one child 1. An item is its address; every access to the array
-- is checked against its capacity. `realloc` is the allocator's, and a section parameter.
pub mod Order
pub mod Items
pub mod Sift
pub mod Down
pub mod Up
pub mod Ops
pub mod Misses
mod Tests
use beaveros.Base.{
  ℕ, zero, suc, ◌+◌, ◌-◌, ◌*◌, ◌/◌, ◌^◌, ◌<◌, ◌≡◌, Bool, false, ◌&&◌, ltb, if◌then◌else◌, u64,
}
use beaveros.Base.Int.{ℤ, is_neg}
use beaveros.Base.Memory.{Memory, store}
use beaveros.Base.Run.{Run, ok, fault, out_of_fuel, ◌>>=◌}

-- `min_heap_t`, but for its comparison, which is a parameter below.
pub record MinHeap : Type 0 where
  pub data_block : Memory
  pub size : ℕ
  pub capacity : ℕ

-- The allocator's `realloc` on an array of `old` cells: the cells that it had are kept.
pub record Allocator : Type 0 where
  pub realloc : Memory → (old new : ℕ) → Memory
  pub realloc_keeps : (m : Memory) (old new i : ℕ) → i < old → i < new → realloc m old new i ≡ m i

-- `fresh` is what stands in the new array.
unfoldable pub make_heap : (fresh : Memory) → MinHeap
make_heap fresh = record { data_block = fresh; size = 0; capacity = 1 }

unfoldable pub load : MinHeap → ℕ → Run ℕ
load h i = if ltb i h.capacity then ok (h.data_block i) else fault

unfoldable pub write : MinHeap → ℕ → ℕ → Run MinHeap
write h i v =
    if ltb i h.capacity then ok (record h { data_block = store h.data_block i v }) else fault

-- `void *t = data[i]; data[i] = data[j]; data[j] = t;`
unfoldable pub swap : MinHeap → ℕ → ℕ → Run MinHeap
unfolding load write
swap h i j = do t ← load h i; u ← load h j; h ← write h i u; write h j t

module _ (cmp : ℕ → ℕ → ℤ) where
  -- `h->cmp(h->data[i], h->data[j]) < 0`
  unfoldable pub less : MinHeap → ℕ → ℕ → Run Bool
  unfolding load
  less h i j = do a ← load h i; b ← load h j; ok (is_neg (cmp a b))

  -- `item * 2 + 1 < h->size && h->cmp(h->data[item * 2 + 1], h->data[item * 2]) < 0`
  unfoldable pub right_is_less : MinHeap → ℕ → Run Bool
  unfolding less
  right_is_less h item =
      if ltb (item * 2 + 1) h.size then less h (item * 2 + 1) (item * 2) else ok false

  -- The two branches of the loop differ in the child alone.
  unfoldable pub sift_down : ℕ → MinHeap → ℕ → Run MinHeap
  unfolding swap less right_is_less
  sift_down zero h item = out_of_fuel
  sift_down (suc k) h item =
      let round = do
        right ← right_is_less h item
        let child = if right then item * 2 + 1 else item * 2
        lower ← less h child item
        let next = (do h' ← swap h item child; sift_down k h' child)
        if lower then next else ok h
      in if ltb (item * 2) h.size then round else ok h

  unfoldable pub sift_up : ℕ → MinHeap → ℕ → Run MinHeap
  unfolding swap less
  sift_up zero h item = out_of_fuel
  sift_up (suc k) h item = do
    lower ← less h item (item / 2)
    let next = (do h' ← swap h item (item / 2); sift_up k h' (item / 2))
    if lower then next else ok h

  -- `--(h->size)` wraps at 0.
  unfoldable pub heap_pop : MinHeap → Run (ℕ × MinHeap)
  unfolding load write sift_down
  heap_pop h = do
    ret ← load h 0
    let size = u64 (h.size + (2 ^ 64 - 1))
    last ← load h size
    h' ← write (record h { size = size }) 0 last
    h'' ← sift_down (size + 1) h' 0
    ok (ret, h'')

  unfoldable pub heap_push : Allocator → MinHeap → ℕ → Run MinHeap
  unfolding write sift_up
  heap_push alloc h item = do
    let grown =
        (if ltb h.capacity (h.size + 1)
          then record h {
            capacity = u64 (h.capacity * 2);
            data_block = alloc.realloc h.data_block h.capacity (u64 (h.capacity * 2));
          }
          else h)
    h' ← write grown h.size item
    sift_up (h.size + 1) (record h' { size = h.size + 1 }) h.size
