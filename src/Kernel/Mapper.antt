-- ===== src/Kernel/Mapper.antt =====
-- src/memory/mapper.c: the physical window, the free list of pages, and the page tables.
--
-- The physical memory is a store of 64-bit words by physical byte address. The kernel reaches it
-- through a window of virtual pages; `window` is the physical address at which the window begins
-- and `phys_window` the offset of `_phys_window` in it, so a C pointer into the window is an offset
-- here, and what it points to changes with every `phys_look`. The header of a free block is the two
-- words at its start, its size in pages and the address of the next block.
--
-- `memory` holds every word but four: the entries that `phys_look` stores at the end of the page
-- table `phys_window_pt`, one for each page of the window. `window` determines them, and
-- Kernel/Mapper/Physical puts both together. An access to these four words through the window
-- itself, as in a call of `map_page` for a page of the window, is not modelled. `invalidated` has
-- the pages that `map_page` flushes, not those of the window, which `phys_look` flushes.
pub mod Window
pub mod FreeList
pub mod Freeing
pub mod Pages
pub mod Tables
pub mod Walk
pub mod Leaf
pub mod Mapped
pub mod Map
pub mod Unmap
pub mod Space
pub mod Physical
mod Tests
use beaveros.Base.{
  ℕ, zero, suc, ◌+◌, ◌-◌, ◌*◌, ◌/◌, ◌^◌, Bool, not, ◌&&◌, ◌||◌, List, ◌∷◌, ◌==◌, if◌then◌else◌,
  bit_and, bit_or, u64,
}
use beaveros.Base.Memory.{Memory, store}
use beaveros.Base.Run.{Run, ok, panic, ◌>>=◌}

abbrev pub page_p_bit : ℕ
page_p_bit = 1

-- Free on unmap.
abbrev pub page_f_bit : ℕ
page_f_bit = 2 ^ 9

abbrev pub page_addr_bits : ℕ
page_addr_bits = 0x000f_ffff_ffff_f000

abbrev pub pml4_flags_mask : ℕ
pml4_flags_mask = 0xfff0_0000_0000_0e3f

abbrev pub pdp_flags_mask : ℕ
pdp_flags_mask = 0xfff0_0000_0000_0e3f

abbrev pub pd_flags_mask : ℕ
pd_flags_mask = 0xfff0_0000_0000_0e3f

abbrev pub pt_flags_mask : ℕ
pt_flags_mask = 0xfff0_0000_0000_0fff

abbrev pub page_size : ℕ
page_size = 4096

-- The phys argument that asks for a new page.
abbrev pub map_anon : ℕ
map_anon = 0

-- `BITS(X, L, H)`
abbrev pub bits : ℕ → ℕ → ℕ → ℕ
bits x l h = bit_and (x / 2 ^ l) (2 ^ (h - l) - 1)

-- `w & BIT`, as a condition.
abbrev pub has : ℕ → ℕ → Bool
has w b = not (bit_and w b == 0)

pub record Mapper : Type 0 where
  pub memory : Memory
  pub window : ℕ
  pub phys_window : ℕ
  pub pml4 : ℕ
  pub first_free_block : ℕ
  -- The pages for which `map_page` has executed `invlpg`.
  pub invalidated : List ℕ

-- The entries of the window follow `window`, see `physical` in Kernel/Mapper/Physical.
unfoldable pub phys_look : ℕ → Mapper → Mapper
phys_look phys m =
    let aligned_phys = bit_and phys page_addr_bits in
    record m { window = aligned_phys; phys_window = phys - aligned_phys }

-- A read and a write through a pointer into the window.
abbrev pub peek : Mapper → ℕ → ℕ
peek m p = m.memory (m.window + p)

abbrev pub poke : Mapper → ℕ → ℕ → Mapper
poke m p v = record m { memory = store m.memory (m.window + p) v }

abbrev pub set_header : Mapper → (size next : ℕ) → Mapper
set_header m size next = poke (poke m m.phys_window size) (m.phys_window + 8) next

unfoldable pub mapper_init : (cr3 : ℕ) → Mapper → Mapper
mapper_init cr3 m = record m { pml4 = cr3 }

unfoldable pub add_phys_mem : (phys_mem_start length : ℕ) → Mapper → Mapper
unfolding phys_look
add_phys_mem start length m =
    let m' = phys_look start m in
    record (set_header m' (length / page_size) m'.first_free_block) { first_free_block = start }

unfoldable pub free_page : ℕ → Mapper → Mapper
unfolding phys_look
free_page page m =
    let m' = phys_look page m in
    record (set_header m' 1 m'.first_free_block) { first_free_block = page }

unfoldable pub alloc_page : Mapper → Run (ℕ × Mapper)
unfolding phys_look
alloc_page m =
    let ret = m.first_free_block in
    let m1 = phys_look ret m in
    let size = peek m1 m1.phys_window in
    let next = peek m1 (m1.phys_window + 8) in
    let m2 = phys_look (ret + page_size) m1 in
    if ret == 0
    then panic
    else if size == 1
    then ok (ret, record m1 { first_free_block = next })
    else ok (
      ret,
      record (set_header m2 (u64 (size + (2 ^ 64 - 1))) next) {
        first_free_block = ret + page_size;
      },
    )

-- `memset(p, 0, 8 * n)` through the window, by words.
unfoldable pub clear_words : ℕ → ℕ → Mapper → Mapper
clear_words p zero m = m
clear_words p (suc n) m = clear_words p n (poke m (p + 8 * n) 0)

unfoldable pub calloc_page : Mapper → Run (ℕ × Mapper)
calloc_page m = do
  (ret, m1) ← alloc_page m
  let m2 = phys_look ret m1
  ok (ret, clear_words m2.phys_window 512 m2)

-- The walk of `unmap_page` stops at an entry that is not present. Below, `pte` is a pointer into
-- the window at `pt`, and `free_page` moves the window before `*pte &= ~PAGE_P_BIT` writes to it.
unfoldable pub unmap_entry : (pt virt : ℕ) → Mapper → Mapper
unmap_entry pt virt m =
    let m1 = phys_look pt m in
    let pte = m1.phys_window + 8 * bits virt 12 21 in
    let entry = peek m1 pte in
    let m2 = (if has entry page_f_bit then free_page (bit_and entry page_addr_bits) m1 else m1) in
    if has entry page_p_bit
    then poke m2 pte (bit_and (peek m2 pte) (2 ^ 64 - 1 - page_p_bit))
    else m1

unfoldable pub unmap_page : (virt : ℕ) → Mapper → Mapper
unmap_page virt m =
    let m1 = phys_look m.pml4 m in
    let pml4e = peek m1 (m1.phys_window + 8 * bits virt 39 48) in
    let m2 = phys_look (bit_and pml4e page_addr_bits) m1 in
    let pdpe = peek m2 (m2.phys_window + 8 * bits virt 30 39) in
    let m3 = phys_look (bit_and pdpe page_addr_bits) m2 in
    let pde = peek m3 (m3.phys_window + 8 * bits virt 21 30) in
    if not (has pml4e page_p_bit)
    then m1
    else if not (has pdpe page_p_bit)
    then m2
    else if not (has pde page_p_bit)
    then m3
    else unmap_entry (bit_and pde page_addr_bits) virt m3

-- One level of the walk of `map_page`: the entry takes the flags, and if it is not present then it
-- becomes a new page. The result is the address of the next table. `*pe = calloc_page()` writes
-- through the old pointer after the call has moved the window.
unfoldable pub descend : (table index flags : ℕ) → Mapper → Run (ℕ × Mapper)
unfolding phys_look calloc_page
descend table index flags m =
    let m1 = phys_look table m in
    let pe = m1.phys_window + 8 * index in
    let m2 = poke m1 pe (bit_or (peek m1 pe) flags) in
    if has (peek m2 pe) page_p_bit then ok (bit_and (peek m2 pe) page_addr_bits, m2) else (do
      (page, m3) ← calloc_page m2
      let m4 = poke m3 pe page
      ok (bit_and (peek m4 pe) page_addr_bits, m4))

-- The page to map: a new one or the one that is mapped for `MAP_ANON`, and else the argument,
-- where a page that is mapped now is freed if it is to be.
unfoldable pub choose_page : (phys entry : ℕ) → Mapper → Run (ℕ × Mapper)
unfolding alloc_page free_page
choose_page phys entry m =
    if phys == map_anon
    then (if has entry page_p_bit then ok (bit_and entry page_addr_bits, m) else alloc_page m)
    else if not (phys == bit_and entry page_addr_bits) && has entry page_f_bit
    then ok (phys, free_page (bit_and entry page_addr_bits) m)
    else ok (phys, m)

unfoldable pub map_entry : (pt virt phys flags : ℕ) → Mapper → Run Mapper
unfolding phys_look choose_page
map_entry pt virt phys flags m = do
  let m1 = phys_look pt m
  let pte = m1.phys_window + 8 * bits virt 12 21
  (page, m2) ← choose_page phys (peek m1 pte) m1
  let m3 = phys_look pt m2
  let m4 = poke m3 pte (bit_and flags pt_flags_mask)
  ok (poke m4 pte (bit_or (peek m4 pte) page))

abbrev pub invlpg : ℕ → Mapper → Mapper
invlpg virt m = record m { invalidated = virt ∷ m.invalidated }

-- The three `ASSERT`s of `map_page`.
abbrev pub arguments_ok : (virt phys : ℕ) → Bool
arguments_ok virt phys =
    (bits virt 47 64 == 0 || bits virt 47 64 == 0x1ffff)
    && bit_and virt (page_size - 1) == 0
    && bit_and phys (2 ^ 64 - 1 - page_addr_bits) == 0

unfoldable pub map_present : (virt phys flags : ℕ) → Mapper → Run Mapper
map_present virt phys flags m = do
  (pdp, m1) ← descend m.pml4 (bits virt 39 48) (bit_and flags pml4_flags_mask) m
  (pd, m2) ← descend pdp (bits virt 30 39) (bit_and flags pdp_flags_mask) m1
  (pt, m3) ← descend pd (bits virt 21 30) (bit_and flags pd_flags_mask) m2
  m4 ← map_entry pt virt phys flags m3
  ok (invlpg virt m4)

unfoldable pub map_page : (virt phys flags : ℕ) → Mapper → Run Mapper
map_page virt phys flags m =
    if not (arguments_ok virt phys)
    then panic
    else if not (has flags page_p_bit)
    then ok (invlpg virt (unmap_page virt m))
    else map_present virt phys flags m
