-- ===== src/Data/Heap/Down.antt =====
-- `sift_down` of src/data/heap.c repairs an array with one item too high in the tree.
use native.Mathlib.Decide.{ℕ_discrete, dec_lt}
use beaveros.Base.{
  ℕ, zero, suc, ◌+◌, ◌*◌, ◌/◌, ◌<◌, ◌≤◌, ◌≡◌, ◌≢◌, arith, ltb, if◌then◌else◌, ltb→lt, lt→ltb,
  not-lt→ltb,
}
use beaveros.Base.Int.{ℤ}
use beaveros.Base.Memory.{Memory}
use beaveros.Base.Run.{Run, ok, ◌>>=◌, Returns, returns, Returns-bind, Returns-map, Returns-if}
use beaveros.Data.Heap.{MinHeap, less, swap, right_is_less, sift_down}
use beaveros.Data.Heap.Items.{swapped, swap-ok}
use beaveros.Data.Heap.Order.{ComparesBy, IsHeap, less-ok}
use beaveros.Data.Heap.Sift.{Sifted, Sifted-swapped, unmoved}

module _ (cmp : ℕ → ℕ → ℤ) (key : ℕ → ℕ) (by : ComparesBy cmp key) where
  -- Only the edges below `i` may be out of order.
  pub record DownInv (d : Memory) (n i : ℕ) : Type 0 where
    pub edges : (c : ℕ) → 0 < c → c < n → c / 2 ≢ i → key (d (c / 2)) ≤ key (d c)
    pub bridged : (c : ℕ) → 0 < c → c < n → c / 2 ≡ i → 0 < i → key (d (i / 2)) ≤ key (d c)

  -- `m` is a least child of `i`, or the root itself where that is no greater than its child.
  record IsLeastChild (d : Memory) (n i m : ℕ) : Type 0 where
    inside : m < n
    below : m / 2 ≡ i
    least : (c : ℕ) → 0 < c → c < n → c / 2 ≡ i → key (d m) ≤ key (d c)

  swapped-DownInv :
      (d : Memory) (n i m : ℕ)
      → DownInv d n i
      → IsLeastChild d n i m
      → key (d m) < key (d i)
      → DownInv (swapped d i m) n m
  swapped-DownInv d n i m v s lower = record {
    edges = λ c p q r. ground (arith, v.edges c, v.bridged m, s.least c, s.below, s.inside);
    bridged = λ c p q r t. ground (arith, v.edges c, v.edges m, s.below, s.inside);
  }

  -- A cell of which `i` is the parent is one of two.
  child-cases : (P : ℕ → Type 0) (i c : ℕ) → c / 2 ≡ i → P (i * 2) → P (i * 2 + 1) → P c
  child-cases P i c e left right = elim (ℕ_discrete c (i * 2)) [
    | yes p ↦ rw p left
    | no p ↦ let odd : c ≡ i * 2 + 1 = omega arith in rw odd right
  ]

  left-IsLeastChild :
      (d : Memory) (n i : ℕ)
      → i * 2 < n
      → (i * 2 + 1 < n → key (d (i * 2)) ≤ key (d (i * 2 + 1)))
      → IsLeastChild d n i (i * 2)
  left-IsLeastChild d n i inside le = record {
    inside = inside;
    below = omega arith;
    least = λ c p q r.
        child-cases (λ c. c < n → key (d (i * 2)) ≤ key (d c)) i c r (λ _. omega arith) le q;
  }

  right-IsLeastChild :
      (d : Memory) (n i : ℕ)
      → i * 2 + 1 < n
      → key (d (i * 2 + 1)) < key (d (i * 2))
      → IsLeastChild d n i (i * 2 + 1)
  right-IsLeastChild d n i inside lower = record {
    inside = inside;
    below = omega arith;
    least = λ c p q r.
        child-cases (λ c. key (d (i * 2 + 1)) ≤ key (d c)) i c r (omega arith) (omega arith);
  }

  right_is_less-ok :
      (h : MinHeap) (i : ℕ)
      → h.size ≤ h.capacity
      → i * 2 < h.size
      → Returns
          (λ right. IsLeastChild h.data_block h.size i (if right then i * 2 + 1 else i * 2))
          (right_is_less cmp h i)
  unfolding right_is_less
  right_is_less-ok h i fits inside =
      Returns-if (ltb (i * 2 + 1) h.size)
        (λ two.
          rw (less-ok cmp key by h (i * 2 + 1) (i * 2) (ground arith) (omega arith))
            (returns (two_children (ltb→lt _ _ two))))
        (λ one.
          returns (left-IsLeastChild h.data_block h.size i inside (λ p. absurd (ground arith))))
    where
      two_children :
          i * 2 + 1 < h.size
          → IsLeastChild h.data_block h.size i (
              if ltb (key (h.data_block (i * 2 + 1))) (key (h.data_block (i * 2)))
              then i * 2 + 1
              else i * 2)
      two_children p = elim (dec_lt (key (h.data_block (i * 2 + 1))) (key (h.data_block (i * 2)))) [
        | yes lower ↦
            rw (lt→ltb (key (h.data_block (i * 2 + 1))) (key (h.data_block (i * 2))) lower)
              (right-IsLeastChild h.data_block h.size i p lower)
        | no higher ↦
            rw (not-lt→ltb (key (h.data_block (i * 2 + 1))) (key (h.data_block (i * 2))) higher)
              (left-IsLeastChild h.data_block h.size i inside (λ _. omega arith))
      ]

  settled-IsHeap :
      (d : Memory) (n i m : ℕ)
      → DownInv d n i
      → IsLeastChild d n i m
      → key (d i) ≤ key (d m)
      → IsHeap key d n
  settled-IsHeap d n i m v s le c p q = elim (ℕ_discrete (c / 2) i) [
    | yes e ↦ rw e (omega (arith, s.least c p q e))
    | no e ↦ v.edges c p q e
  ]

  -- One round at `i` with its least child `m`: the rest of the loop runs on the swapped cells.
  sift_down-round :
      (h : MinHeap) (i m : ℕ) (rest : MinHeap → Run MinHeap)
      → h.size ≤ h.capacity
      → DownInv h.data_block h.size i
      → IsLeastChild h.data_block h.size i m
      → (i < m
          → DownInv (swapped h.data_block i m) h.size m
          → Returns
              (Sifted cmp key by (record h { data_block = swapped h.data_block i m }))
              (rest (record h { data_block = swapped h.data_block i m })))
      → Returns
          (Sifted cmp key by h)
          (less cmp h m i >>= λ lower. if lower then (swap h i m >>= λ h'. rest h') else ok h)
  sift_down-round h i m rest fits v s run =
      let inside : i < h.size = omega (arith, s.inside, s.below) in
      rw (less-ok cmp key by h m i (omega (arith, s.inside)) (omega arith)) (
        Returns-if (ltb (key (h.data_block m)) (key (h.data_block i)))
          (λ lower.
            let lt = ltb→lt (key (h.data_block m)) (key (h.data_block i)) lower in
            let apart : m ≢ i = (λ e. absurd (ground arith)) in
            rw (swap-ok h i m (omega arith) (omega (arith, s.inside))) (
              Returns-map
                (run (omega (arith, s.below, apart))
                  (swapped-DownInv h.data_block h.size i m v s lt))
                λ h' r. Sifted-swapped cmp key by h h' i m inside s.inside r))
          (λ settled.
            returns
              (unmoved cmp key by h (settled-IsHeap h.data_block h.size i m v s (ground arith)))))

  -- `sift_down` ends within a round for each cell from `item` on, and restores the order.
  pub sift_down_restores :
      (k : ℕ) (h : MinHeap) (i : ℕ)
      → h.size < k + i
      → i ≤ h.size
      → h.size ≤ h.capacity
      → DownInv h.data_block h.size i
      → Returns (Sifted cmp key by h) (sift_down cmp k h i)
  unfolding sift_down
  sift_down_restores zero h i f le fits v = absurd (omega arith)
  sift_down_restores (suc k) h i f le fits v =
      Returns-if (ltb (i * 2) h.size)
        (λ more. Returns-bind (right_is_less-ok h i fits (ltb→lt _ _ more)) λ right s.
          let m = if right then i * 2 + 1 else i * 2 in
          sift_down-round h i m (λ h'. sift_down cmp k h' m) fits v s
            λ deeper v'.
              sift_down_restores k (record h { data_block = swapped h.data_block i m }) m
                (omega arith) (omega (arith, s.inside)) fits v')
        (λ leaf. returns (unmoved cmp key by h (λ c p q. ground (arith, v.edges c))))
