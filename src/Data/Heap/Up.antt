-- ===== src/Data/Heap/Up.antt =====
-- `sift_up` of src/data/heap.c repairs an array with one item too low in the tree.
use beaveros.Base.{ℕ, zero, suc, ◌/◌, ◌<◌, ◌≤◌, ◌≡◌, ◌≢◌, arith, ltb, if◌then◌else◌, ltb→lt}
use beaveros.Base.Int.{ℤ}
use beaveros.Base.Memory.{Memory}
use beaveros.Base.Run.{Run, ok, ◌>>=◌, Returns, returns, Returns-map, Returns-if}
use beaveros.Data.Heap.{MinHeap, less, swap, sift_up}
use beaveros.Data.Heap.Items.{swapped, swap-ok}
use beaveros.Data.Heap.Order.{ComparesBy, less-ok}
use beaveros.Data.Heap.Sift.{Sifted, Sifted-swapped, unmoved}

module _ (cmp : ℕ → ℕ → ℤ) (key : ℕ → ℕ) (by : ComparesBy cmp key) where
  -- Only the edge above `i` may be out of order.
  pub record UpInv (d : Memory) (n i : ℕ) : Type 0 where
    pub edges : (c : ℕ) → 0 < c → c < n → c ≢ i → key (d (c / 2)) ≤ key (d c)
    pub bridged : (c : ℕ) → 0 < c → c < n → c / 2 ≡ i → 0 < i → key (d (i / 2)) ≤ key (d c)

  swapped-UpInv :
      (d : Memory) (n i : ℕ)
      → i < n
      → UpInv d n i
      → key (d i) < key (d (i / 2))
      → UpInv (swapped d i (i / 2)) n (i / 2)
  swapped-UpInv d n i inside v lower = record {
    edges = λ c p q r. ground (arith, v.edges c, v.edges i, v.bridged c);
    bridged = λ c p q r t. ground (arith, v.edges c, v.edges (i / 2), v.edges i);
  }

  sift_up-round :
      (h : MinHeap) (i : ℕ) (rest : MinHeap → Run MinHeap)
      → i < h.size
      → h.size ≤ h.capacity
      → UpInv h.data_block h.size i
      → (i / 2 < i
          → UpInv (swapped h.data_block i (i / 2)) h.size (i / 2)
          → Returns
              (Sifted cmp key by (record h { data_block = swapped h.data_block i (i / 2) }))
              (rest (record h { data_block = swapped h.data_block i (i / 2) })))
      → Returns (Sifted cmp key by h) (
          less cmp h i (i / 2) >>= λ lower.
          if lower then (swap h i (i / 2) >>= λ h'. rest h') else ok h)
  sift_up-round h i rest inside fits v run =
      rw (less-ok cmp key by h i (i / 2) (omega arith) (omega arith)) (
        Returns-if (ltb (key (h.data_block i)) (key (h.data_block (i / 2))))
          (λ lower.
            let lt = ltb→lt (key (h.data_block i)) (key (h.data_block (i / 2))) lower in
            let apart : i / 2 ≢ i = (λ e. absurd (ground arith)) in
            rw (swap-ok h i (i / 2) (omega arith) (omega arith)) (
              Returns-map
                (run (omega (arith, apart)) (swapped-UpInv h.data_block h.size i inside v lt))
                λ h' r. Sifted-swapped cmp key by h h' i (i / 2) inside (omega arith) r))
          (λ settled. returns (unmoved cmp key by h (λ c p q. ground (arith, v.edges c)))))

  -- `sift_up` ends within a round for each cell up to `item`, and restores the order.
  pub sift_up_restores :
      (k : ℕ) (h : MinHeap) (i : ℕ)
      → i < k
      → i < h.size
      → h.size ≤ h.capacity
      → UpInv h.data_block h.size i
      → Returns (Sifted cmp key by h) (sift_up cmp k h i)
  unfolding sift_up
  sift_up_restores zero h i f inside fits v = absurd (omega arith)
  sift_up_restores (suc k) h i f inside fits v =
      sift_up-round h i (λ h'. sift_up cmp k h' (i / 2)) inside fits v
        λ higher v'.
          sift_up_restores k (record h { data_block = swapped h.data_block i (i / 2) }) (i / 2)
            (omega arith) (omega arith) fits v'
