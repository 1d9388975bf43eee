-- ===== src/Data/Heap/Misses.antt =====
-- An item that is in no cell of a heap: no operation of src/data/heap.c brings it back, whatever the
-- comparison does.
use native.Mathlib.Decide.{dec_lt}
use beaveros.Base.{
  ℕ, zero, suc, ◌+◌, ◌-◌, ◌*◌, ◌/◌, ◌^◌, ◌<◌, ◌≤◌, ◌≡◌, ◌≢◌, refl, ◌∙◌, arith, Bool, true, false,
  Bool-cases, ltb, if◌then◌else◌, u64, ltb→lt, inl, inr,
}
use beaveros.Base.Int.{ℤ}
use beaveros.Base.Memory.{store}
use beaveros.Base.Run.{
  Run, ok, panic, fault, out_of_fuel, ◌>>=◌, Ensures, ensures, in_fault, in_panic, no_end,
  Ensures-any, Ensures-bind, Ensures-map, Ensures-if,
}
use beaveros.Data.Heap.{
  MinHeap, Allocator, load, write, swap, less, right_is_less, sift_down, sift_up, heap_pop,
  heap_push,
}

-- The item `x` is in none of the cells of the heap.
abbrev pub Misses : ℕ → MinHeap → Type 0
Misses x h = (i : ℕ) → i < h.size → h.data_block i ≢ x

child-lt :
    (right : Bool) (n i : ℕ)
    → ((right ≡ true) → i * 2 + 1 < n)
    → i * 2 < n
    → (if right then i * 2 + 1 else i * 2) < n
child-lt true n i inside p = inside refl
child-lt false n i inside p = p

-- The array is a word's number of cells and holds the items.
abbrev pub IsSound : MinHeap → Type 0
IsSound h = (h.size ≤ h.capacity) × (h.capacity < 2 ^ 64)

-- The heap has the size and the capacity of another one, and misses the item too.
abbrev pub Keeps : ℕ → MinHeap → MinHeap → Type 0
Keeps x h h' = Misses x h' × (h'.size ≡ h.size) × (h'.capacity ≡ h.capacity)

module _ (x : ℕ) where
  load-Ensures : (h : MinHeap) (i : ℕ) → Misses x h → i < h.size → Ensures (λ v. v ≢ x) (load h i)
  unfolding load
  load-Ensures h i misses p =
      Ensures-if (ltb i h.capacity) (λ _. ensures (misses i p)) (λ _. in_fault)

  write-Ensures : (h : MinHeap) (i v : ℕ) → Misses x h → v ≢ x → Ensures (Keeps x h) (write h i v)
  unfolding write
  write-Ensures h i v misses other =
      Ensures-if (ltb i h.capacity)
        (λ _. ensures ((λ j p. ground (arith, misses j p, other)), refl, refl)) (λ _. in_fault)

  Keeps-trans : (h h1 h2 : MinHeap) → Keeps x h h1 → Keeps x h1 h2 → Keeps x h h2
  Keeps-trans h h1 h2 k l = (l.0, l.1 ∙ k.1, l.2 ∙ k.2)

  Ensures-then :
      (h h1 : MinHeap) {call : Run MinHeap}
      → Keeps x h h1
      → Ensures (Keeps x h1) call
      → Ensures (Keeps x h) call
  Ensures-then h h1 k (ensures l) = ensures (Keeps-trans h h1 _ k l)
  Ensures-then h h1 k in_fault = in_fault
  Ensures-then h h1 k in_panic = in_panic
  Ensures-then h h1 k no_end = no_end

  swap-Ensures :
      (h : MinHeap) (i j : ℕ)
      → Misses x h
      → i < h.size
      → j < h.size
      → Ensures (Keeps x h) (swap h i j)
  unfolding swap
  swap-Ensures h i j misses p q = Ensures-bind (load-Ensures h i misses p) λ t not_t.
      Ensures-bind (load-Ensures h j misses q) λ u not_u.
        Ensures-bind (write-Ensures h i u misses not_u)
          λ h1 k. Ensures-then h h1 k (write-Ensures h1 j t (k.0) not_t)

  module _ (cmp : ℕ → ℕ → ℤ) where
    -- The right child is taken only if there is one.
    right_is_less-Ensures :
        (h : MinHeap) (i : ℕ)
        → Ensures (λ right. (right ≡ true) → i * 2 + 1 < h.size) (right_is_less cmp h i)
    unfolding right_is_less
    right_is_less-Ensures h i =
        Ensures-if (ltb (i * 2 + 1) h.size)
          (λ inside. all_if (ltb→lt _ _ inside) (less cmp h (i * 2 + 1) (i * 2)))
          (λ _. ensures (λ e. cc))
      where
        all_if : {P : Type 0} → P → (call : Run Bool) → Ensures (λ right. (right ≡ true) → P) call
        all_if p (ok v) = ensures (λ _. p)
        all_if p panic = in_panic
        all_if p fault = in_fault
        all_if p out_of_fuel = no_end

    sift_down-Ensures :
        (k : ℕ) (h : MinHeap) (i : ℕ) → Misses x h → Ensures (Keeps x h) (sift_down cmp k h i)
    unfolding sift_down
    sift_down-Ensures zero h i misses = no_end
    sift_down-Ensures (suc k) h i misses =
        Ensures-if (ltb (i * 2) h.size)
          (λ more. Ensures-bind (right_is_less-Ensures h i) λ right inside.
            let p : i < h.size = omega (arith, ltb→lt _ _ more) in
            let child = if right then i * 2 + 1 else i * 2 in
            let below : child < h.size = child-lt right h.size i inside (ltb→lt _ _ more) in
            Ensures-bind (Ensures-any (less cmp h child i)) λ lower _.
              Ensures-if lower
                (λ _.
                  Ensures-bind (swap-Ensures h i child misses p below)
                    λ h1 kept. Ensures-then h h1 kept (sift_down-Ensures k h1 child (kept.0)))
                (λ _. ensures (misses, refl, refl)))
          (λ _. ensures (misses, refl, refl))

    sift_up-Ensures :
        (k : ℕ) (h : MinHeap) (i : ℕ)
        → Misses x h
        → i < h.size
        → Ensures (Keeps x h) (sift_up cmp k h i)
    unfolding sift_up
    sift_up-Ensures zero h i misses p = no_end
    sift_up-Ensures (suc k) h i misses p =
        Ensures-bind (Ensures-any (less cmp h i (i / 2))) λ lower _.
          Ensures-if lower
            (λ _. Ensures-bind (swap-Ensures h i (i / 2) misses p (omega arith)) λ h1 kept.
              Ensures-then h h1 kept
                (sift_up-Ensures k h1 (i / 2) (kept.0) (omega (arith, kept.1))))
            (λ _. ensures (misses, refl, refl))

    outside_rest :
        (h : MinHeap) (ret n : ℕ)
        → ltb n h.capacity ≡ false
        → Ensures
            (λ (r, h'). (r ≢ x) × Misses x h' × IsSound h')
            (do
              last ← load h n
              h' ← write (record h { size = n }) 0 last
              h'' ← sift_down cmp (n + 1) h' 0
              ok (ret, h''))
    unfolding load
    outside_rest h ret n outside = rw outside in_fault

    pop_rest :
        (h : MinHeap) (ret last : ℕ)
        → Misses x h
        → IsSound h
        → 0 < h.size
        → ret ≢ x
        → last ≢ x
        → Ensures
            (λ (r, h'). (r ≢ x) × Misses x h' × IsSound h')
            (do
              h' ← write (record h { size = h.size - 1 }) 0 last
              h'' ← sift_down cmp (h.size - 1 + 1) h' 0
              ok (ret, h''))
    pop_rest h ret last misses sound some_item not_ret not_last =
        let misses' : Misses x (record h { size = h.size - 1 }) =
          λ i p. misses i (omega (arith, p)) in
        Ensures-bind (write-Ensures (record h { size = h.size - 1 }) 0 last misses' not_last)
          λ h1 k. Ensures-bind (sift_down-Ensures (h.size - 1 + 1) h1 0 (k.0)) λ h2 l.
            ensures (not_ret, l.0, (omega (arith, k.1, k.2, l.1, l.2), omega (arith, k.2, l.2)))

    -- `heap_pop` returns another item, if it returns.
    pub heap_pop-Ensures :
        (h : MinHeap)
        → Misses x h
        → IsSound h
        → Ensures (λ (r, h'). (r ≢ x) × Misses x h' × IsSound h') (heap_pop cmp h)
    unfolding heap_pop
    heap_pop-Ensures h misses sound = elim (dec_lt 0 h.size) [
      | yes some_item ↦
          let less_one : u64 (h.size + (2 ^ 64 - 1)) ≡ h.size - 1 =
            omega (arith, sound.0, sound.1) in
          rw less_one (
            Ensures-bind (load-Ensures h 0 misses some_item) λ ret not_ret.
              Ensures-bind (load-Ensures h (h.size - 1) misses (omega arith))
                λ last not_last. pop_rest h ret last misses sound some_item not_ret not_last)
      | no empty ↦
          let wrapped : u64 (h.size + (2 ^ 64 - 1)) ≡ 2 ^ 64 - 1 = omega arith in
          let outside : ltb (2 ^ 64 - 1) h.capacity ≡ false = ground (arith, sound.1) in
          rw wrapped
            (Ensures-bind (Ensures-any (load h 0)) λ ret _. outside_rest h ret (2 ^ 64 - 1) outside)
    ]

    push_rest :
        (g : MinHeap) (item : ℕ)
        → (g.size < g.capacity → Misses x g)
        → g.capacity < 2 ^ 64
        → item ≢ x
        → Ensures
            (λ h'. Misses x h' × IsSound h')
            (do
              h' ← write g g.size item
              sift_up cmp (g.size + 1) (record h' { size = g.size + 1 }) g.size)
    unfolding write
    push_rest g item misses word other = elim (Bool-cases (ltb g.size g.capacity)) [
      | inl inside ↦
          let room : g.size < g.capacity = ltb→lt _ _ inside in
          let added = record g { data_block = store g.data_block g.size item; size = g.size + 1 } in
          let misses' : Misses x added = λ i p. ground (arith, misses room i) in
          rw inside (
            Ensures-map (sift_up-Ensures (g.size + 1) added g.size misses' (omega arith))
              λ h' k. (k.0, (omega (arith, k.1, k.2), omega (arith, k.2))))
      | inr outside ↦ rw outside in_fault
    ]

    -- `heap_push` of another item.
    pub heap_push-Ensures :
        (alloc : Allocator) (h : MinHeap) (item : ℕ)
        → Misses x h
        → IsSound h
        → item ≢ x
        → Ensures (λ h'. Misses x h' × IsSound h') (heap_push cmp alloc h item)
    unfolding heap_push
    heap_push-Ensures alloc h item misses sound other =
        elim (Bool-cases (ltb h.capacity (h.size + 1))) [
          | inl full ↦
              let g = record h {
                capacity = u64 (h.capacity * 2);
                data_block = alloc.realloc h.data_block h.capacity (u64 (h.capacity * 2));
              } in
              let misses' : h.size < u64 (h.capacity * 2) → Misses x g = λ room i p.
                rw
                  (alloc.realloc_keeps h.data_block h.capacity (u64 (h.capacity * 2)) i
                    (omega (arith, sound.0)) (omega arith))
                  (misses i p) in
              rw full (push_rest g item misses' (omega arith) other)
          | inr enough ↦ rw enough (push_rest h item (λ _. misses) (sound.1) other)
        ]
