-- ===== src/Data/Heap/Items.antt =====
-- The items of a heap as a multiset, and what the accesses of src/data/heap.c do to it.
use native.Mathlib.Decide.{ℕ_discrete}
use beaveros.Base.{ℕ, zero, suc, ◌+◌, ◌<◌, ◌≤◌, ◌≡◌, refl, arith, ◌==◌, if◌then◌else◌, lt→ltb}
use beaveros.Base.Memory.{Memory, store}
use beaveros.Base.Run.{ok}
use beaveros.Data.Heap.{MinHeap, load, write, swap}

-- How often the item `x` stands in the first `n` cells.
unfoldable pub count : Memory → ℕ → ℕ → ℕ
count d zero x = 0
count d (suc n) x = count d n x + (if d n == x then 1 else 0)

-- 1 for the item itself.
abbrev pub one_if : ℕ → ℕ → ℕ
one_if y x = if y == x then 1 else 0

pub count-store_above : (d : Memory) (i v n x : ℕ) → n ≤ i → count (store d i v) n x ≡ count d n x
unfolding count
count-store_above d i v zero x h = refl
count-store_above d i v (suc n) x h = ground (arith, count-store_above d i v n x)

pub count-store :
    (d : Memory) (i v n x : ℕ)
    → i < n
    → count (store d i v) n x + one_if (d i) x ≡ count d n x + one_if v x
unfolding count
count-store d i v zero x h = absurd (omega arith)
count-store d i v (suc n) x h = elim (ℕ_discrete i n) [
  | yes same ↦ ground (arith, count-store_above d i v n x)
  | no differ ↦ ground (arith, count-store d i v n x)
]

-- The cells after `swap`.
abbrev pub swapped : Memory → ℕ → ℕ → Memory
swapped d i j = store (store d i (d j)) j (d i)

pub count-swapped :
    (d : Memory) (i j n x : ℕ) → i < n → j < n → count (swapped d i j) n x ≡ count d n x
count-swapped d i j n x hi hj =
    ground (arith, count-store d i (d j) n x hi, count-store (store d i (d j)) j (d i) n x hj)

pub count-eq : (d e : Memory) (n x : ℕ) → ((i : ℕ) → i < n → d i ≡ e i) → count d n x ≡ count e n x
unfolding count
count-eq d e zero x h = refl
count-eq d e (suc n) x h = rw (h n (omega arith), count-eq d e n x λ i lt. h i (omega arith)) refl

pub load-ok : (h : MinHeap) (i : ℕ) → i < h.capacity → load h i ≡ ok (h.data_block i)
unfolding load
load-ok h i p = ground arith

pub write-ok :
    (h : MinHeap) (i v : ℕ)
    → i < h.capacity
    → write h i v ≡ ok (record h { data_block = store h.data_block i v })
unfolding write
write-ok h i v p = rw (lt→ltb i h.capacity p)

pub swap-ok :
    (h : MinHeap) (i j : ℕ)
    → i < h.capacity
    → j < h.capacity
    → swap h i j ≡ ok (record h { data_block = swapped h.data_block i j })
unfolding swap
swap-ok h i j p q = rw (
  load-ok h i p,
  load-ok h j q,
  write-ok h i (h.data_block j) p,
  write-ok (record h { data_block = store h.data_block i (h.data_block j) }) j (h.data_block i) q,
)

-- An item that is counted stands in a cell, and the item of a cell is counted.
pub count-found : (d : Memory) (n x : ℕ) → 0 < count d n x → (i : ℕ) × (i < n) × (d i ≡ x)
unfolding count
count-found d zero x h = absurd (omega arith)
count-found d (suc n) x h = elim (ℕ_discrete (d n) x) [
  | yes here ↦ (n, omega arith, here)
  | no other ↦ let (i, below, at) = count-found d n x (ground arith) in (i, omega arith, at)
]

pub count-here : (d : Memory) (n i : ℕ) → i < n → 0 < count d n (d i)
unfolding count
count-here d zero i h = absurd (omega arith)
count-here d (suc n) i h = elim (ℕ_discrete i n) [
  | yes same ↦ ground arith
  | no other ↦ ground (arith, count-here d n i)
]
