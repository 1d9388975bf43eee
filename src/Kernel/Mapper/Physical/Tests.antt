-- ===== src/Kernel/Mapper/Physical/Tests.antt =====
-- src/memory/mapper.c on four linked tables, and on a free list, with the entries of the window.
use beaveros.Base.{
  ℕ, suc, ◌∷◌, ◌+◌, ◌*◌, ◌%◌, ◌<◌, ◌≤◌, ◌≡◌, ◌⊎◌, sym, ap, refl, arith, false, some, none, inl, inr,
  [],
}
use mathlib.Core.Path.{subst}
use beaveros.Base.Memory.{Memory, store}
use beaveros.Base.Run.{Returns, ok}
use beaveros.Kernel.Mapper.{
  Mapper, has, page_p_bit, page_f_bit, map_page, unmap_page, add_phys_mem, alloc_page, free_page,
}
use beaveros.Kernel.Mapper.Tables.{target}
use beaveros.Kernel.Mapper.Leaf.{leaf}
use beaveros.Kernel.Mapper.FreeList.{FreeList, free_pages}
use beaveros.Kernel.Mapper.Physical.{
  physical, physical_lem, seen, FreeList-seen, SamePhysical, Taken, alloc_page-physical,
  free_page-physical, add_phys_mem-physical,
}
use beaveros.Kernel.Mapper.Walk.{Tables, Walk}
use beaveros.Kernel.Mapper.Physical.Entries.{Installed, map_page-Installed}
use beaveros.Kernel.Mapper.Physical.Space.{
  OutsideWindow, IsTree-agree, Translated, map_page-physical, unmap_page-physical,
}
use beaveros.Paging.Layout.{Layout, IsTree}
use beaveros.Paging.Steps.{LeadsDown}

-- Tables at 0x1000, 0x2000, 0x3000 and 0x4000, the address 0x5000, and an entry for it.
abbrev linked : (entry : ℕ) → Memory
linked entry =
    store (store (store (store (λ _. 0) 0x1000 0x2001) 0x2000 0x3001) 0x3000 0x4001) 0x4028 entry

abbrev four_tables : Layout
four_tables = record {
  level = store (store (store (store (λ _. 4) 0x1000 3) 0x2000 2) 0x3000 1) 0x4000 0;
  prefix = λ _. 0;
}

abbrev mapper : (entry : ℕ) → Mapper
mapper entry = record {
  memory = linked entry;
  window = 0;
  phys_window = 0;
  pml4 = 0x1000;
  first_free_block = 0;
  invalidated = [];
}

inside_four : (t : ℕ) → four_tables.level t < 4 → (t % 4096 ≡ 0) × (t + 4096 ≤ 0x5000)
inside_four t h = ground arith

module _ (entry t i k : ℕ) (at : four_tables.level t ≡ suc k) (small : suc k < 4)
    (hi : i < 512) where
  -- The entries above the last table.
  which :
      (((t ≡ 0x1000) × (i ≡ 0) × (k ≡ 2))
        ⊎ ((t ≡ 0x2000) × (i ≡ 0) × (k ≡ 1))
        ⊎ ((t ≡ 0x3000) × (i ≡ 0) × (k ≡ 0)))
      ⊎ (linked entry (t + 8 * i) ≡ 0)
  which = ground arith

at_slot :
    (entry t i k u n : ℕ)
    → t ≡ u
    → i ≡ 0
    → k ≡ n
    → LeadsDown four_tables u 0 n (target (linked entry (u + 8 * 0)))
    → LeadsDown four_tables t i k (target (linked entry (t + 8 * i)))
at_slot entry t i k u n here first level down =
    subst (λ (x : ℕ). LeadsDown four_tables x i k (target (linked entry (x + 8 * i)))) (sym here)
      (subst (λ (x : ℕ). LeadsDown four_tables u x k (target (linked entry (u + 8 * x))))
        (sym first)
        (subst (λ (x : ℕ). LeadsDown four_tables u 0 x (target (linked entry (u + 8 * 0))))
          (sym level) down))

linked-IsTree : (entry : ℕ) → IsTree four_tables 0x1000 0x5000 (linked entry)
linked-IsTree entry = record {
  top = (refl, refl);
  inside = inside_four;
  child = λ t i k at small hi on. elim (which entry t i k at small hi) [
    | inr clear ↦
        let off : has (linked entry (t + 8 * i)) page_p_bit ≡ false =
          ap (λ (w : ℕ). has w page_p_bit) clear in
        absurd (ground arith)
    | inl (inl h) ↦ at_slot entry t i k 0x1000 2 h.0 h.1 h.2 (refl, refl)
    | inl (inr (inl h)) ↦ at_slot entry t i k 0x2000 1 h.0 h.1 h.2 (refl, refl)
    | inl (inr (inr h)) ↦ at_slot entry t i k 0x3000 0 h.0 h.1 h.2 (refl, refl)
  ];
}

-- The last table has the entries of the window.
abbrev window_table : ℕ
window_table = 0x4000

seen-IsTree : (entry : ℕ) → IsTree four_tables 0x1000 0x5000 (physical window_table (mapper entry))
seen-IsTree entry =
    IsTree-agree four_tables 0x1000 0x5000 window_table (linked entry)
      (physical window_table (mapper entry)) (linked-IsTree entry) refl
      (physical_lem window_table (mapper entry))

outside : OutsideWindow four_tables window_table 0x5000
outside same = omega arith

map_page-physical_example :
    Returns
      (Translated four_tables 0x5000 0x4000 0x5000 (some (leaf 0x7000 3)) (mapper 0))
      (map_page 0x5000 0x7000 3 (mapper 0))
map_page-physical_example =
    map_page-physical four_tables 0x5000 0x4000 0x5000 0x7000 3 (mapper 0) (seen-IsTree 0) refl
      outside (omega arith) (refl, refl, refl) refl refl (omega arith) (omega arith) refl

unmap_page-physical_example :
    Translated four_tables 0x5000 0x4000 0x5000 none
      (mapper 0x7003)
      (unmap_page 0x5000 (mapper 0x7003))
unmap_page-physical_example =
    unmap_page-physical four_tables 0x5000 0x4000 0x5000 (mapper 0x7003) (seen-IsTree 0x7003) refl
      outside (omega arith) (refl, refl, refl) refl refl

-- A free block of two pages at 0x8000, and the window's table at 0x4000.
abbrev two_pages : Mapper
two_pages = record {
  memory = store (λ _. 0) 0x8000 2;
  window = 0;
  phys_window = 0;
  pml4 = 0;
  first_free_block = 0x8000;
  invalidated = [];
}

two_pages-FreeList : FreeList (seen 0x4000 two_pages) ((0x8000, 2) ∷ [])
two_pages-FreeList =
    FreeList-seen 0x4000 two_pages ((0x8000, 2) ∷ []) (omega arith)
      (record { starts = refl; linked = ground arith })

alloc_page-physical_example : Returns (Taken 0x4000 two_pages 0x8000 2 []) (alloc_page two_pages)
alloc_page-physical_example =
    alloc_page-physical 0x4000 two_pages 0x8000 2 [] (omega arith) two_pages-FreeList

free_page-physical_example :
    FreeList (seen 0x4000 (free_page 0x6000 two_pages)) ((0x6000, 1) ∷ (0x8000, 2) ∷ [])
    × (free_pages ((0x6000, 1) ∷ (0x8000, 2) ∷ []) ≡ 0x6000 ∷ 0x8000 ∷ 0x9000 ∷ [])
    × SamePhysical 0x4000 0x6000 1 two_pages (free_page 0x6000 two_pages)
free_page-physical_example =
    free_page-physical 0x4000 two_pages 0x6000 ((0x8000, 2) ∷ []) (omega arith) (omega arith)
      (omega arith) two_pages-FreeList

add_phys_mem-physical_example :
    FreeList (seen 0x4000 (add_phys_mem 0x10000 0x3800 two_pages)) ((0x10000, 3) ∷ (0x8000, 2) ∷ [])
    × SamePhysical 0x4000 0x10000 3 two_pages (add_phys_mem 0x10000 0x3800 two_pages)
add_phys_mem-physical_example =
    add_phys_mem-physical 0x4000 two_pages 0x10000 0x3800 ((0x8000, 2) ∷ []) (omega arith)
      (omega arith) (omega arith) two_pages-FreeList

four-Tables : Tables 0x1000 0x2000 0x3000 0x4000
four-Tables = record {
  pages = omega arith;
  differ4 = omega arith;
  differ3 = omega arith;
  differ2 = omega arith;
}

seen-Walk : Walk (physical 0x4000 (mapper 0)) 0x5000 0x1000 0x2000 0x3000 0x4000
unfolding physical
seen-Walk = record { level4 = refl; level3 = refl; level2 = refl }

plain_entry : has (physical 0x4000 (mapper 0) 0x4028) page_f_bit ≡ false
unfolding physical
plain_entry = refl

map_page-Installed_example :
    (m' : Mapper) × (map_page 0x5000 0x7000 3 (mapper 0) ≡ ok m')
    × Installed 0x4000 (mapper 0) 0x5000 0x7000 3 0x2000 0x3000 0x4000 m'
map_page-Installed_example =
    map_page-Installed 0x4000 (mapper 0) 0x5000 0x7000 3 0x2000 0x3000 0x4000 (omega arith)
      four-Tables seen-Walk refl refl (omega arith) (omega arith) plain_entry
