-- ===== src/Kernel/Mapper/Physical.antt =====
-- The physical memory of src/memory/mapper.c with the entries of the window, which `phys_look`
-- stores, and the free list in it.
--
-- `phys_look` stores `phys_window_size` entries, which is 4 by src/linker.ld, at the end of the
-- page table `phys_window_pt`: they lead to the four pages from `window` on, so that the field
-- `window` of the state determines them. `table` is the physical address of that page table. Where
-- it lies and that the processor uses it for the window are the loader's work.
pub mod Space
pub mod Entries
mod Tests
use beaveros.Base.{
  ℕ, zero, suc, ◌+◌, ◌-◌, ◌*◌, ◌/◌, ◌%◌, ◌^◌, ◌<◌, ◌≤◌, ◌≡◌, ◌⊎◌, ◌∙◌, refl, sym, arith, List, ◌∷◌,
  ltb, leb, ◌&&◌, if◌then◌else◌, bit_or, bit_and,
}
use beaveros.Base.Memory.{Memory, store}
use beaveros.Base.Run.{Returns, Returns-map}
use beaveros.Kernel.Mapper.{
  Mapper, page_p_bit, page_addr_bits, phys_look, add_phys_mem, alloc_page, free_page,
}
use beaveros.Kernel.Mapper.FreeList.{Blocks, Apart, IsBlock, FreeList, free_pages, AreFree-frame}
use beaveros.Kernel.Mapper.Freeing.{free_page_correct, add_phys_mem_correct}
use beaveros.Kernel.Mapper.Pages.{Allocated, rest_of, alloc_page_correct}

-- The entry of the window for its page `i`: present and writable.
unfoldable pub window_entry : (window i : ℕ) → ℕ
window_entry window i = bit_or (bit_or (window + i * 2 ^ 12) page_p_bit) 2

-- The memory as `phys_look` leaves it: the last four entries of `table` are those of the window.
unfoldable pub physical : (table : ℕ) → Mapper → Memory
unfolding window_entry
physical table m a =
    if leb (table + 8 * 508) a && ltb a (table + 8 * 512)
    then window_entry m.window ((a - (table + 8 * 508)) / 8)
    else m.memory a

-- The loop of `phys_look`, for its first `n` entries: each is stored in the table.
unfoldable pub store_window : (n : ℕ) → (table aligned_phys : ℕ) → Memory → Memory
unfolding window_entry
store_window zero table aligned_phys mem = mem
store_window (suc i) table aligned_phys mem =
    store (store_window i table aligned_phys mem) (table + 8 * (512 - 4 + i))
      (window_entry aligned_phys i)

-- The address is not that of an entry of the window.
abbrev pub NotWindow : (table a : ℕ) → Type 0
NotWindow table a = (a < table + 8 * 508) ⊎ (table + 8 * 512 ≤ a)

pub physical_lem :
    (table : ℕ) (m : Mapper) (a : ℕ) → NotWindow table a → physical table m a ≡ m.memory a
unfolding physical
physical_lem table m a out = ground arith

-- `phys_look` changes the physical memory by the stores of its loop: after it, each word is the
-- one that the four stores leave, and the window stands where they lead to.
pub physical-phys_look :
    (table phys a : ℕ) (m : Mapper)
    → table % 8 ≡ 0
    → a % 8 ≡ 0
    → physical table (phys_look phys m) a
      ≡ store_window 4 table (bit_and phys page_addr_bits) (physical table m) a
unfolding physical store_window phys_look
physical-phys_look table phys a m aligned word = ground arith

-- The state with that memory.
abbrev pub seen : (table : ℕ) → Mapper → Mapper
seen table m = record m { memory = physical table m }

-- A free list that does not meet the window's table is one of both memories.
module _ (table : ℕ) (m : Mapper) (bs : Blocks) (apart : Apart table 1 bs) where
  pub FreeList-seen : FreeList m bs → FreeList (seen table m) bs
  FreeList-seen free = record {
    starts = free.starts;
    linked =
        AreFree-frame m.memory (physical table m) table 1 bs apart
          (λ a out. physical_lem table m a (omega arith)) free.linked;
  }

  seen-FreeList : FreeList (seen table m) bs → FreeList m bs
  seen-FreeList free = record {
    starts = free.starts;
    linked =
        AreFree-frame (physical table m) m.memory table 1 bs apart
          (λ a out. sym (physical_lem table m a (omega arith))) free.linked;
  }

-- The physical memories are the same outside the block and the entries of the window.
abbrev pub SamePhysical : (table s n : ℕ) → Mapper → Mapper → Type 0
SamePhysical table s n m m' =
    (a : ℕ)
    → (a < s) ⊎ (s + 4096 * n ≤ a)
    → NotWindow table a
    → physical table m' a ≡ physical table m a

pub physical-same :
    (table : ℕ) (m m' : Mapper) (a : ℕ)
    → NotWindow table a
    → m'.memory a ≡ m.memory a
    → physical table m' a ≡ physical table m a
physical-same table m m' a out same =
    physical_lem table m' a out ∙ same ∙ sym (physical_lem table m a out)

Apart-rest :
    (table s n : ℕ) (bs : Blocks) → Apart table 1 ((s, n) ∷ bs) → Apart table 1 (rest_of s n bs)
Apart-rest table s zero bs apart = apart.1
Apart-rest table s (suc zero) bs apart = apart.1
Apart-rest table s (suc (suc n)) bs apart = (omega (arith, apart.0), apart.1)

-- What `alloc_page` leaves.
pub record Taken (table : ℕ) (m : Mapper) (s n : ℕ) (bs : Blocks) (r : ℕ × Mapper) : Type 0 where
  pub first : r.0 ≡ s
  pub free : FreeList (seen table r.1) (rest_of s n bs)
  pub pages : free_pages ((s, n) ∷ bs) ≡ r.0 ∷ free_pages (rest_of s n bs)
  pub same : SamePhysical table s n m r.1
  pub untouched : (i : ℕ) → i < 4096 → physical table r.1 (s + i) ≡ physical table m (s + i)
  pub tables : r.1.pml4 ≡ m.pml4

-- Where no free block meets the window's table, `alloc_page` takes the first of the free pages,
-- whose contents stay, and leaves the others free in their order. It writes only inside the block
-- that the page belongs to and the four entries of the window.
pub alloc_page-physical :
    (table : ℕ) (m : Mapper) (s n : ℕ) (bs : Blocks)
    → Apart table 1 ((s, n) ∷ bs)
    → FreeList (seen table m) ((s, n) ∷ bs)
    → Returns (Taken table m s n bs) (alloc_page m)
alloc_page-physical table m s n bs apart free =
    let before = seen-FreeList table m ((s, n) ∷ bs) apart free in
    Returns-map (alloc_page_correct m s n bs before) (λ r a. record {
      first = a.first;
      free = FreeList-seen table r.1 (rest_of s n bs) (Apart-rest table s n bs apart) a.free;
      pages = a.pages;
      same = λ b out not_window. physical-same table m r.1 b not_window (a.same b out);
      untouched = λ i h.
          physical-same table m r.1 (s + i) (omega (arith, apart.0, before.linked.0))
            (a.untouched i h);
      tables = a.tables;
    })

-- For a page that is not 0 and lies below 2 ^ 52, where neither it nor a free block meets another
-- free block or the window's table, `free_page` puts the page on top of the free pages, and writes
-- nowhere but in the page and the four entries of the window.
pub free_page-physical :
    (table : ℕ) (m : Mapper) (p : ℕ) (bs : Blocks)
    → IsBlock p 1
    → Apart p 1 bs
    → Apart table 1 ((p, 1) ∷ bs)
    → FreeList (seen table m) bs
    → FreeList (seen table (free_page p m)) ((p, 1) ∷ bs)
      × (free_pages ((p, 1) ∷ bs) ≡ p ∷ free_pages bs)
      × SamePhysical table p 1 m (free_page p m)
free_page-physical table m p bs block apart away free =
    let (free', pages, same) =
      free_page_correct m p bs block apart (seen-FreeList table m bs away.1 free) in
    (
      FreeList-seen table (free_page p m) ((p, 1) ∷ bs) away free',
      pages,
      λ a out not_window. physical-same table m (free_page p m) a not_window (same a out),
    )

-- For the whole pages of an aligned range that has at least one, does not begin at 0 and lies below
-- 2 ^ 52, where neither they nor a free block meet another free block or the window's table,
-- `add_phys_mem` puts these pages on top of the free pages, in ascending order, and writes nowhere
-- but in them and the four entries of the window.
pub add_phys_mem-physical :
    (table : ℕ) (m : Mapper) (start length : ℕ) (bs : Blocks)
    → IsBlock start (length / 4096)
    → Apart start (length / 4096) bs
    → Apart table 1 ((start, length / 4096) ∷ bs)
    → FreeList (seen table m) bs
    → FreeList (seen table (add_phys_mem start length m)) ((start, length / 4096) ∷ bs)
      × SamePhysical table start (length / 4096) m (add_phys_mem start length m)
add_phys_mem-physical table m start length bs block apart away free =
    let (free', same) =
      add_phys_mem_correct m start length bs block apart (seen-FreeList table m bs away.1 free) in
    (
      FreeList-seen table (add_phys_mem start length m) ((start, length / 4096) ∷ bs) away free',
      λ a out not_window.
          physical-same table m (add_phys_mem start length m) a not_window (same a out),
    )
