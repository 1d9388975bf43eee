-- ===== src/Kernel/Mapper/Tests.antt =====
-- The page tables and the free list of src/memory/mapper.c on small memories.
use beaveros.Base.{ℕ, ◌≡◌, ◌-◌, ◌^◌, refl, [], arith, bit_and}
use beaveros.Base.Memory.{Memory, store}
use beaveros.Base.Run.{Run, ok, ◌>>=◌, Returns}
use beaveros.Kernel.Mapper.{
  Mapper, pml4_flags_mask, add_phys_mem, alloc_page, unmap_page, descend, map_present, map_page,
  map_entry,
}
use beaveros.Kernel.Mapper.Pages.{add_phys_mem-short}
use beaveros.Kernel.Mapper.Tables.{descend_never_allocates}
use beaveros.Kernel.Mapper.Walk.{Walk}
use beaveros.Kernel.Mapper.Unmap.{UpperPresent, StillMapped, unmap_page-freed}

abbrev with_memory : Memory → Mapper
with_memory mem = record {
  memory = mem;
  window = 0;
  phys_window = 0;
  pml4 = 0x1000;
  first_free_block = 0;
  invalidated = [];
}

-- Tables at 0x1000, 0x2000, 0x3000 and 0x4000 for the addresses from 0 on.
abbrev tables_at : ℕ → Mapper
tables_at entry =
    with_memory (
      store (store (store (store (λ _. 0) 0x1000 0x2001) 0x2000 0x3001) 0x3000 0x4001) 0x4028 entry)

abbrev virt : ℕ
virt = 0x5000

walk : (entry : ℕ) → Walk (tables_at entry).memory virt 0x1000 0x2000 0x3000 0x4000
walk entry = record { level4 = refl; level3 = refl; level2 = refl }

upper : (entry : ℕ) → UpperPresent (tables_at entry).memory virt 0x1000 0x2000 0x3000
upper entry = (refl, refl, refl)

-- The entry that a run of `map_page` writes.
mapped_entry : Run ℕ
unfolding map_page map_present descend map_entry
mapped_entry = map_page virt 0x7000 3 (tables_at 0) >>= λ m. ok (m.memory 0x4028)

mapped_entry_run : mapped_entry ≡ ok 0x7003
unfolding mapped_entry
mapped_entry_run = refl

unmap_page-freed_example :
    StillMapped (tables_at 0x7203) 0x4028 5 (unmap_page virt (tables_at 0x7203))
unmap_page-freed_example =
    unmap_page-freed (tables_at 0x7203) virt 0x2000 0x3000 0x4000 (omega arith) (walk 0x7203)
      (upper 0x7203) refl (omega arith) refl

-- An entry that is not present leads to the page at 0.
descend_never_allocates_example :
    descend 0x1000 1 (bit_and 3 pml4_flags_mask) (tables_at 0)
    ≡ ok (0, record (tables_at 0) { memory = store (tables_at 0).memory 0x1008 3; window = 0x1000 })
descend_never_allocates_example =
    descend_never_allocates (tables_at 0) 0x1000 1 3 (omega arith) refl

-- A free block of two pages at 0x8000.
abbrev two_pages : Mapper
two_pages = record (with_memory (store (λ _. 0) 0x8000 2)) { first_free_block = 0x8000 }

add_phys_mem-short_example :
    Returns
      (λ (p, m').
        (p ≡ 0x10000) × (m'.first_free_block ≡ 0x11000) × (m'.memory 0x11000 ≡ 2 ^ 64 - 1))
      (alloc_page (add_phys_mem 0x10000 100 two_pages))
add_phys_mem-short_example =
    add_phys_mem-short two_pages 0x10000 100 (omega arith) (omega arith) (omega arith) (omega arith)
