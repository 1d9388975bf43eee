-- ===== src/Kernel/Mapper/Pages.antt =====
-- `alloc_page` of src/memory/mapper.c against the stack of free pages, in the `memory` of the
-- state: without the entries of the window, which Kernel/Mapper/Physical adds.
use native.Mathlib.Nat.{add-zero}
use beaveros.Base.{
  ℕ, zero, suc, ◌+◌, ◌-◌, ◌/◌, ◌^◌, ◌<◌, ◌≡◌, ◌≢◌, refl, false, arith, [], ◌∷◌, ◌==◌, u64,
}
use beaveros.Base.Memory.{store}
use beaveros.Base.Run.{ok, panic, Returns, returns}
use beaveros.Kernel.Mapper.{Mapper, add_phys_mem, alloc_page}
use beaveros.Kernel.Mapper.Window.{IsPage, addr_of_page}
use beaveros.Kernel.Mapper.FreeList.{Blocks, FreeList, free_pages, AreFree-frame, Apart-part}
use beaveros.Kernel.Mapper.Freeing.{SameOutside, with_header, add_phys_mem-eq}

-- What `alloc_page` leaves of the free list.
abbrev pub rest_of : ℕ → ℕ → Blocks → Blocks
rest_of s zero bs = bs
rest_of s (suc zero) bs = bs
rest_of s (suc (suc n)) bs = (s + 4096, suc n) ∷ bs

pub record Allocated (m : Mapper) (s n : ℕ) (bs : Blocks) (r : ℕ × Mapper) : Type 0 where
  pub first : r.0 ≡ s
  pub free : FreeList r.1 (rest_of s n bs)
  pub pages : free_pages ((s, n) ∷ bs) ≡ r.0 ∷ free_pages (rest_of s n bs)
  pub same : SameOutside s n m r.1
  -- The page itself is not written.
  pub untouched : (i : ℕ) → i < 4096 → r.1.memory (s + i) ≡ m.memory (s + i)
  pub tables : r.1.pml4 ≡ m.pml4

-- The two ways of `alloc_page` to go on, at an aligned page.
alloc_page-one :
    (m : Mapper)
    → IsPage m.first_free_block
    → m.first_free_block ≢ 0
    → m.memory m.first_free_block ≡ 1
    → alloc_page m
      ≡ ok (
        m.first_free_block,
        record m {
          window = m.first_free_block;
          phys_window = 0;
          first_free_block = m.memory (m.first_free_block + 8);
        },
      )
unfolding alloc_page
alloc_page-one m page ne one =
    let p = m.first_free_block in
    let some_block : (p == 0) ≡ false = ground arith in
    let here : p - p ≡ 0 = omega arith in
    rw (some_block, addr_of_page p page, here, add-zero p, one)

alloc_page-more :
    (m : Mapper) (k : ℕ)
    → IsPage (m.first_free_block + 4096)
    → m.first_free_block ≢ 0
    → m.memory m.first_free_block ≡ k
    → k ≢ 1
    → alloc_page m
      ≡ ok (
        m.first_free_block,
        record (with_header m
            (m.first_free_block + 4096)
            (u64 (k + (2 ^ 64 - 1)))
            (m.memory (m.first_free_block + 8))) { first_free_block = m.first_free_block + 4096 },
      )
unfolding alloc_page
alloc_page-more m k page ne size not_one =
    let p = m.first_free_block in
    let some_block : (p == 0) ≡ false = ground arith in
    let several : (k == 1) ≡ false = ground arith in
    let here : p - p ≡ 0 = omega arith in
    let there : p + 4096 - (p + 4096) ≡ 0 = omega arith in
    rw (
      some_block,
      addr_of_page p (omega arith),
      addr_of_page (p + 4096) page,
      here,
      there,
      add-zero p,
      add-zero (p + 4096),
      size,
      several,
    )

module _ (m : Mapper) (s : ℕ) (bs : Blocks) where
  Allocated-one : FreeList m ((s, 1) ∷ bs) → Returns (Allocated m s 1 bs) (alloc_page m)
  Allocated-one free =
      let (block, size, next, apart, others) = free.linked in
      let at = free.starts in
      rw (alloc_page-one m (omega arith) (omega arith) (rw at size), at)
        (returns (record {
          first = refl;
          free = record { starts = next; linked = others };
          pages = refl;
          same = λ a out. refl;
          untouched = λ i p. refl;
          tables = refl;
        }))

  Allocated-more :
      (n : ℕ)
      → FreeList m ((s, suc (suc n)) ∷ bs)
      → Returns (Allocated m s (suc (suc n)) bs) (alloc_page m)
  Allocated-more n free =
      let (block, size, next, apart, others) = free.linked in
      let at = free.starts in
      let mem = store (store m.memory (s + 4096) (suc n)) (s + 4096 + 8) (m.memory (s + 8)) in
      let less : u64 (suc (suc n) + (2 ^ 64 - 1)) ≡ suc n = omega arith in
      rw
        (
          alloc_page-more m (suc (suc n)) (omega arith) (omega arith) (rw at size) (omega arith),
          at,
          less,
        )
        (returns (record {
          first = refl;
          free = record {
            starts = refl;
            linked = (
              omega arith,
              ground arith,
              ground (arith, next),
              Apart-part s (suc (suc n)) (s + 4096) (suc n) bs (omega arith) (omega arith) apart,
              AreFree-frame m.memory mem s (suc (suc n)) bs apart (λ a out. ground arith) others,
            );
          };
          pages = refl;
          same = λ a out. ground arith;
          untouched = λ i p. ground arith;
          tables = refl;
        }))

-- `alloc_page` takes the first of the free pages, whose contents stay, and leaves the others free
-- in their order. Of `memory` it writes only words of the block that the page belongs to.
pub alloc_page_correct :
    (m : Mapper) (s n : ℕ) (bs : Blocks)
    → FreeList m ((s, n) ∷ bs)
    → Returns (Allocated m s n bs) (alloc_page m)
alloc_page_correct m s zero bs free = absurd (omega (arith, free.linked.0.2))
alloc_page_correct m s (suc zero) bs free = Allocated-one m s bs free
alloc_page_correct m s (suc (suc n)) bs free = Allocated-more m s bs n free

-- `alloc_page` panics if no page is free.
pub alloc_page-empty : (m : Mapper) → FreeList m [] → alloc_page m ≡ panic
unfolding alloc_page
alloc_page-empty m free = ground (arith, free.starts)

-- A range shorter than a page counts as a block of 0 pages: `alloc_page` then hands out its
-- start, and claims that 2 ^ 64 - 1 pages are left behind it.
pub add_phys_mem-short :
    (m : Mapper) (start length : ℕ)
    → IsPage start
    → IsPage (start + 4096)
    → start ≢ 0
    → length < 4096
    → Returns
        (λ (p, m').
          (p ≡ start)
          × (m'.first_free_block ≡ start + 4096)
          × (m'.memory (start + 4096) ≡ 2 ^ 64 - 1))
        (alloc_page (add_phys_mem start length m))
add_phys_mem-short m start length page page' ne short =
    let empty : length / 4096 ≡ 0 = omega arith in
    let m0 = record (with_header m start 0 m.first_free_block) { first_free_block = start } in
    rw
      (
        add_phys_mem-eq start length m page,
        empty,
        alloc_page-more m0 0 page' ne (ground arith) (omega arith),
      )
      (returns (refl, refl, ground arith))
