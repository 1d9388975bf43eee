-- ===== src/Data/Heap/Sift.antt =====
-- What the sift loops of src/data/heap.c are to leave.
use beaveros.Base.{ℕ, ◌<◌, ◌≡◌, ◌∙◌, refl}
use beaveros.Base.Int.{ℤ}
use beaveros.Data.Heap.{MinHeap}
use beaveros.Data.Heap.Items.{count, swapped, count-swapped}
use beaveros.Data.Heap.Order.{ComparesBy, IsHeap}

module _ (cmp : ℕ → ℕ → ℤ) (key : ℕ → ℕ) (by : ComparesBy cmp key) where
  -- The result is in order, with the items and the sizes of `h`.
  pub record Sifted (h h' : MinHeap) : Type 0 where
    pub ordered : IsHeap key h'.data_block h'.size
    pub same_size : h'.size ≡ h.size
    pub same_capacity : h'.capacity ≡ h.capacity
    pub same_items : (x : ℕ) → count h'.data_block h'.size x ≡ count h.data_block h.size x

  pub Sifted-swapped :
      (h h' : MinHeap) (i j : ℕ)
      → i < h.size
      → j < h.size
      → Sifted (record h { data_block = swapped h.data_block i j }) h'
      → Sifted h h'
  Sifted-swapped h h' i j p q s = record {
    ordered = s.ordered;
    same_size = s.same_size;
    same_capacity = s.same_capacity;
    same_items = λ x. s.same_items x ∙ count-swapped h.data_block i j h.size x p q;
  }

  pub unmoved : (h : MinHeap) → IsHeap key h.data_block h.size → Sifted h h
  unmoved h heap = record {
    ordered = heap;
    same_size = refl;
    same_capacity = refl;
    same_items = λ x. refl;
  }
