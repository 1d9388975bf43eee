-- ===== src/Data/Heap/Order.antt =====
-- The heap order of src/data/heap.c.
use beaveros.Base.{ℕ, zero, suc, ◌/◌, ◌<◌, ◌≤◌, ◌≡◌, ◌^◌, arith, ltb}
use beaveros.Base.Int.{ℤ, is_neg}
use beaveros.Base.Memory.{Memory}
use beaveros.Base.Run.{ok}
use beaveros.Data.Heap.{MinHeap, less}
use beaveros.Data.Heap.Items.{load-ok}

-- What the code relies on: the comparison orders the items by a key.
abbrev pub ComparesBy : (ℕ → ℕ → ℤ) → (ℕ → ℕ) → Type 0
ComparesBy cmp key = (a b : ℕ) → is_neg (cmp a b) ≡ ltb (key a) (key b)

module _ (key : ℕ → ℕ) where
  -- Every cell but the root is no less than its parent, among the first `n`.
  abbrev pub IsHeap : Memory → ℕ → Type 0
  IsHeap d n = (c : ℕ) → 0 < c → c < n → key (d (c / 2)) ≤ key (d c)

  -- A heap whose items are in order, and whose array holds them.
  pub record IsValid (h : MinHeap) : Type 0 where
    pub ordered : IsHeap h.data_block h.size
    pub fits : h.size ≤ h.capacity
    pub room : 0 < h.capacity
    pub bounded : h.capacity < 2 ^ 63

  root_least_below :
      (k : ℕ) (d : Memory) (n i : ℕ) → IsHeap d n → i < k → i < n → key (d 0) ≤ key (d i)
  root_least_below zero d n i h f p = absurd (omega arith)
  root_least_below (suc k) d n i h f p = ground (arith, h i, root_least_below k d n (i / 2) h)

  pub root_least : (d : Memory) (n i : ℕ) → IsHeap d n → i < n → key (d 0) ≤ key (d i)
  root_least d n i h p = root_least_below (suc i) d n i h (omega arith) p

pub less-ok :
    (cmp : ℕ → ℕ → ℤ) (key : ℕ → ℕ)
    → ComparesBy cmp key
    → (h : MinHeap) (i j : ℕ) → i < h.capacity
    → j < h.capacity
    → less cmp h i j ≡ ok (ltb (key (h.data_block i)) (key (h.data_block j)))
unfolding less
less-ok cmp key by h i j p q =
    rw (load-ok h i p, load-ok h j q, by (h.data_block i) (h.data_block j))
