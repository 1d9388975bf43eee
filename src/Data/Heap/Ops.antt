-- ===== src/Data/Heap/Ops.antt =====
-- `make_heap`, `heap_push` and `heap_pop` of src/data/heap.c as a priority queue.
use native.Mathlib.Numerals.{add-one}
use native.Mathlib.Decide.{dec_lt}
use beaveros.Base.{
  ℕ, zero, suc, ◌+◌, ◌-◌, ◌*◌, ◌/◌, ◌<◌, ◌≤◌, ◌≡◌, ◌^◌, ◌∙◌, arith, refl, lt→ltb, not-lt→ltb, u64,
  ap,
}
use beaveros.Base.Int.{ℤ}
use beaveros.Base.Memory.{Memory, store}
use beaveros.Base.Run.{fault, Returns, returns, Returns-bind, Returns-map}
use beaveros.Data.Heap.{
  MinHeap, Allocator, make_heap, load, sift_down, heap_pop, heap_push, sift_up,
}
use beaveros.Data.Heap.Items.{
  count, one_if, count-store, count-store_above, count-eq, load-ok, write-ok,
}
use beaveros.Data.Heap.Order.{ComparesBy, IsHeap, IsValid, root_least}
use beaveros.Data.Heap.Sift.{Sifted}
use beaveros.Data.Heap.Down.{DownInv, sift_down_restores}
use beaveros.Data.Heap.Up.{UpInv, sift_up_restores}

-- A new heap is valid and empty, whatever stands in its array.
pub make_heap-IsValid : (key : ℕ → ℕ) (fresh : Memory) → IsValid key (make_heap fresh)
unfolding make_heap
make_heap-IsValid key fresh = record {
  ordered = λ c p q. absurd (omega arith);
  fits = omega arith;
  room = omega arith;
  bounded = omega arith;
}

removed-items :
    (d : Memory) (n x : ℕ) → count (store d 0 (d n)) n x + one_if (d 0) x ≡ count d (suc n) x
unfolding count
removed-items d zero x = refl
removed-items d (suc n) x = ground (arith, count-store d 0 (d (suc n)) (suc n) x)

added-items : (d : Memory) (n v x : ℕ) → count (store d n v) (n + 1) x ≡ count d n x + one_if v x
unfolding count
added-items d n v x = rw add-one (ground (arith, count-store_above d n v n x))

module _ (cmp : ℕ → ℕ → ℤ) (key : ℕ → ℕ) (by : ComparesBy cmp key) where
  -- What `heap_push` leaves: a valid heap with one item more.
  pub record Pushed (h : MinHeap) (item : ℕ) (h' : MinHeap) : Type 0 where
    pub valid : IsValid key h'
    pub size : h'.size ≡ h.size + 1
    pub items :
        (x : ℕ) → count h'.data_block h'.size x ≡ count h.data_block h.size x + one_if item x

  -- What `heap_pop` returns: a least item, and a valid heap of the others.
  pub record Popped (h : MinHeap) (r : ℕ × MinHeap) : Type 0 where
    pub valid : IsValid key r.1
    pub size : r.1.size + 1 ≡ h.size
    pub items :
        (x : ℕ) → count r.1.data_block r.1.size x + one_if r.0 x ≡ count h.data_block h.size x
    pub least : (i : ℕ) → i < h.size → key r.0 ≤ key (h.data_block i)

  popped-DownInv :
      (d : Memory) (n : ℕ) → IsHeap key d (suc n) → DownInv cmp key by (store d 0 (d n)) n 0
  popped-DownInv d n heap = record {
    edges = λ c p q r. ground (arith, heap c);
    bridged = λ c p q r t. absurd (omega arith);
  }

  popped-items :
      (h : MinHeap) (n : ℕ) (h' : MinHeap)
      → h.size ≡ suc n
      → Sifted cmp key by
          (record h { size = n; data_block = store h.data_block 0 (h.data_block n) })
          h'
      → (x : ℕ)
      → count h'.data_block h'.size x + one_if (h.data_block 0) x ≡ count h.data_block h.size x
  popped-items h n h' e s x = rw (e, s.same_items x) (removed-items h.data_block n x)

  -- The last item replaces the root: the rest of `heap_pop` on `n + 1` items.
  pop_rest :
      (h : MinHeap) (n : ℕ)
      → IsValid key h
      → h.size ≡ suc n
      → Returns
          (λ h'. Popped h (h.data_block 0, h'))
          (sift_down cmp
            (n + 1)
            (record h { size = n; data_block = store h.data_block 0 (h.data_block n) })
            0)
  pop_rest h n v e =
      Returns-map
        (sift_down_restores cmp key by (n + 1)
          (record h { size = n; data_block = store h.data_block 0 (h.data_block n) }) 0
          (omega arith) (omega arith) (omega (arith, v.fits))
          (popped-DownInv h.data_block n (rw e at v.ordered)))
        λ h' s. record {
          valid = record {
            ordered = s.ordered;
            fits = omega (arith, s.same_size, s.same_capacity, v.fits);
            room = omega (arith, s.same_capacity, v.room);
            bounded = omega (arith, s.same_capacity, v.bounded);
          };
          size = omega (arith, s.same_size);
          items = λ x. popped-items h n h' e s x;
          least = λ i p. root_least key h.data_block h.size i v.ordered p;
        }

  -- `heap_pop` of a valid heap that is not empty returns a least item, and leaves a valid heap of
  -- exactly the other items.
  pub heap_pop_correct :
      (h : MinHeap) → IsValid key h → 0 < h.size → Returns (Popped h) (heap_pop cmp h)
  unfolding heap_pop
  heap_pop_correct h v p =
      let n = h.size - 1 in
      let size : u64 (h.size + (2 ^ 64 - 1)) ≡ n = omega (arith, v.fits, v.bounded) in
      rw
        (
          load-ok h 0 v.room,
          size,
          load-ok h n (omega (arith, v.fits)),
          write-ok (record h { size = n }) 0 (h.data_block n) v.room,
        )
        (Returns-bind (pop_rest h n v (omega arith)) λ h' s. returns s)

  -- `heap_pop` of an empty heap does not report it: the size wraps around, and the access to the
  -- last item lies outside the array.
  pub heap_pop-empty : (h : MinHeap) → IsValid key h → h.size ≡ 0 → heap_pop cmp h ≡ fault
  unfolding heap_pop load
  heap_pop-empty h v e = ground (arith, v.room, v.bounded)

  pushed-UpInv :
      (d : Memory) (n item : ℕ) → IsHeap key d n → UpInv cmp key by (store d n item) (n + 1) n
  pushed-UpInv d n item heap = record {
    edges = λ c p q r. ground (arith, heap c);
    bridged = λ c p q r t. absurd (omega arith);
  }

  push_rest :
      (h : MinHeap) (d : Memory) (cap item : ℕ)
      → IsValid key h
      → ((i : ℕ) → i < h.size → d i ≡ h.data_block i)
      → h.size < cap
      → cap < 2 ^ 63
      → Returns (Pushed h item) (
          sift_up cmp
            (h.size + 1)
            (record { data_block = store d h.size item; size = h.size + 1; capacity = cap })
            h.size)
  push_rest h d cap item v same room bound =
      Returns-map
        (sift_up_restores cmp key by (h.size + 1)
          (record { data_block = store d h.size item; size = h.size + 1; capacity = cap }) h.size
          (omega arith) (omega arith) (omega arith)
          (pushed-UpInv d h.size item λ c p q. ground (arith, v.ordered c, same c, same (c / 2))))
        λ h' s. record {
          valid = record {
            ordered = s.ordered;
            fits = omega (arith, s.same_size, s.same_capacity);
            room = omega (arith, s.same_capacity);
            bounded = omega (arith, s.same_capacity);
          };
          size = s.same_size;
          items = λ x.
              s.same_items x
              ∙ added-items d h.size item x
              ∙ ap (λ (t : ℕ). t + one_if item x) (count-eq d h.data_block h.size x same);
        }

  -- `heap_push` on a valid heap adds exactly the item, growing the array where it is full, and
  -- leaves a valid heap.
  pub heap_push_correct :
      (alloc : Allocator) (h : MinHeap) (item : ℕ)
      → IsValid key h
      → h.capacity < 2 ^ 62
      → Returns (Pushed h item) (heap_push cmp alloc h item)
  unfolding heap_push
  heap_push_correct alloc h item v small = elim (dec_lt h.capacity (h.size + 1)) [
    | yes full ↦
        let doubled : u64 (h.capacity * 2) ≡ h.capacity * 2 = omega arith in
        rw
          (
            lt→ltb h.capacity (h.size + 1) full,
            doubled,
            write-ok
                (record h {
                  capacity = h.capacity * 2;
                  data_block = alloc.realloc h.data_block h.capacity (h.capacity * 2);
                })
                h.size item (omega (arith, v.room, v.fits)),
          )
          (push_rest h (alloc.realloc h.data_block h.capacity (h.capacity * 2)) (h.capacity * 2)
            item v
            (λ i p.
              alloc.realloc_keeps h.data_block h.capacity (h.capacity * 2) i (omega (arith, v.fits))
                (omega (arith, v.fits)))
            (omega (arith, v.room, v.fits)) (omega arith))
    | no room ↦
        rw (not-lt→ltb h.capacity (h.size + 1) room, write-ok h h.size item (omega arith))
          (push_rest h h.data_block h.capacity item v (λ i p. refl) (omega arith) v.bounded)
  ]
