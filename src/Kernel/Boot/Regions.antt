-- ===== src/Kernel/Boot/Regions.antt =====
-- The memory that `early_main` of src/boot/main.c gives to the mapper.
use mathlib.Core.Path.{subst}
use beaveros.Base.{
  ℕ, zero, suc, ◌+◌, ◌-◌, ◌*◌, ◌/◌, ◌^◌, ◌<◌, ◌≤◌, ◌≡◌, ◌∙◌, sym, not, ap, arith, Bool, true, false,
  ◌&&◌, ◌==◌, if◌then◌else◌, ltb, List, [], ◌∷◌, length, inl, inr, Bool-cases, u64, if-true,
  if-false,
}
use beaveros.Base.Memory.{Memory}
use beaveros.Base.Run.{Returns, Returns-if, returns}
use beaveros.Kernel.Mapper.{Mapper, add_phys_mem}
use beaveros.Kernel.Mapper.FreeList.{Blocks, Apart, IsBlock, FreeList}
use beaveros.Kernel.Mapper.Freeing.{add_phys_mem_correct}
use beaveros.Kernel.Multiboot.{Multiboot2MemoryMapEntry, memory_map_at, map_entry_at}
use beaveros.Kernel.Boot.{ulmax, add_entry, add_entries, add_memory_map}

-- A range of the map that is usable: its kind is 1, and it ends behind the memory in use.
abbrev pub is_usable : (used_mem : ℕ) → Multiboot2MemoryMapEntry → Bool
is_usable used_mem e = (e.type == 1) && ltb used_mem (e.base_addr + e.length)

-- The first free address of the range, and the whole pages from there to its end.
abbrev pub free_start : (used_mem : ℕ) → Multiboot2MemoryMapEntry → ℕ
free_start used_mem e = if ltb used_mem e.base_addr then e.base_addr else used_mem

abbrev pub free_count : (used_mem : ℕ) → Multiboot2MemoryMapEntry → ℕ
free_count used_mem e = (e.base_addr + e.length - free_start used_mem e) / 4096

-- The blocks of usable memory, each on top of those before it.
abbrev pub add_block : (used_mem : ℕ) → Multiboot2MemoryMapEntry → Blocks → Blocks
add_block used_mem e bs =
    if is_usable used_mem e then (free_start used_mem e, free_count used_mem e) ∷ bs else bs

abbrev pub blocks_of : (used_mem : ℕ) → List Multiboot2MemoryMapEntry → Blocks → Blocks
blocks_of used_mem [] bs = bs
blocks_of used_mem (e ∷ es) bs = blocks_of used_mem es (add_block used_mem e bs)

-- The ranges end in the address space, and those that are usable hold whole aligned pages that
-- meet no other free block.
abbrev pub AreDisjoint : (used_mem : ℕ) → List Multiboot2MemoryMapEntry → Blocks → Type 0
AreDisjoint used_mem [] bs = Unit {0}
AreDisjoint used_mem (e ∷ es) bs =
    (e.base_addr + e.length < 2 ^ 64)
    × (is_usable used_mem e ≡ true
        → IsBlock (free_start used_mem e) (free_count used_mem e)
          × Apart (free_start used_mem e) (free_count used_mem e) bs)
    × AreDisjoint used_mem es (add_block used_mem e bs)

-- From number `i` on, the entries of the map at `tag`.
abbrev pub HasEntries : Memory → (tag i : ℕ) → List Multiboot2MemoryMapEntry → Type 0
HasEntries info tag i [] = (memory_map_at info tag).size ≤ 16 + i * 24
HasEntries info tag i (e ∷ es) =
    (16 + i * 24 < (memory_map_at info tag).size)
    × (map_entry_at info (tag + 16 + 24 * i) ≡ e)
    × HasEntries info tag (i + 1) es

add_entry-usable :
    (used_mem : ℕ) (e : Multiboot2MemoryMapEntry) (m : Mapper)
    → used_mem < 2 ^ 64
    → e.base_addr + e.length < 2 ^ 64
    → is_usable used_mem e ≡ true
    → add_entry used_mem e m
      ≡ add_phys_mem (free_start used_mem e) (e.base_addr + e.length - free_start used_mem e) m
unfolding add_entry ulmax
add_entry-usable used_mem e m w fits usable =
    let kind : (e.type == 1) ≡ true = ground arith in
    let behind : ltb used_mem (u64 (e.base_addr + e.length)) ≡ true = ground arith in
    let start = free_start used_mem e in
    let count : u64 (e.base_addr + e.length + (2 ^ 64 - start)) ≡ e.base_addr + e.length - start =
      ground arith in
    if-true _ _ (e.type == 1) kind
    ∙ if-true _ _ (ltb used_mem (u64 (e.base_addr + e.length))) behind
    ∙ ap (λ (n : ℕ). add_phys_mem start n m) count

add_entry-taken :
    (used_mem : ℕ) (e : Multiboot2MemoryMapEntry) (m : Mapper)
    → e.base_addr + e.length < 2 ^ 64
    → is_usable used_mem e ≡ false
    → add_entry used_mem e m ≡ m
unfolding add_entry ulmax
add_entry-taken used_mem e m fits taken = elim (Bool-cases (e.type == 1)) [
  | inl usual ↦
      let before : ltb used_mem (u64 (e.base_addr + e.length)) ≡ false = ground arith in
      if-true _ _ (e.type == 1) usual
      ∙ if-false _ _ (ltb used_mem (u64 (e.base_addr + e.length))) before
  | inr other ↦ if-false _ _ (e.type == 1) other
]

add_entry-FreeList :
    (used_mem : ℕ) (e : Multiboot2MemoryMapEntry) (m : Mapper) (bs : Blocks)
    → used_mem < 2 ^ 64
    → e.base_addr + e.length < 2 ^ 64
    → (is_usable used_mem e ≡ true
        → IsBlock (free_start used_mem e) (free_count used_mem e)
          × Apart (free_start used_mem e) (free_count used_mem e) bs)
    → FreeList m bs
    → FreeList (add_entry used_mem e m) (add_block used_mem e bs)
add_entry-FreeList used_mem e m bs w fits block free = elim (Bool-cases (is_usable used_mem e)) [
  | inl usable ↦
      let (whole, apart) = block usable in
      let r =
        add_phys_mem_correct m (free_start used_mem e)
          (e.base_addr + e.length - free_start used_mem e) bs whole apart free in
      rw (add_entry-usable used_mem e m w fits usable, usable) r.0
  | inr taken ↦ rw (add_entry-taken used_mem e m fits taken, taken) free
]

add_entries-FreeList :
    (k : ℕ) (info : Memory) (used_mem tag i : ℕ) (es : List Multiboot2MemoryMapEntry) (m : Mapper)
    (bs : Blocks)
    → used_mem < 2 ^ 64
    → HasEntries info tag i es
    → length es < k
    → AreDisjoint used_mem es bs
    → FreeList m bs
    → Returns (λ m'. FreeList m' (blocks_of used_mem es bs)) (add_entries k info used_mem tag i m)
unfolding add_entries
add_entries-FreeList zero info used_mem tag i es m bs w has enough apart free = absurd (omega arith)
add_entries-FreeList (suc k) info used_mem tag i [] m bs w has enough apart free =
    Returns-if (ltb (16 + i * 24) (memory_map_at info tag).size) (λ more. absurd (ground arith))
      (λ done. returns free)
add_entries-FreeList (suc k) info used_mem tag i (e ∷ es) m bs w (here, at, has) enough
      (fits, block, apart) free =
    let added = add_entry-FreeList used_mem e m bs w fits block free in
    let rest =
      add_entries-FreeList k info used_mem tag (i + 1) es (add_entry used_mem e m)
        (add_block used_mem e bs) w has (omega arith) apart added in
    Returns-if (ltb (16 + i * 24) (memory_map_at info tag).size)
      (λ more.
        subst
          (λ x.
            Returns (λ m'. FreeList m' (blocks_of used_mem es (add_block used_mem e bs)))
              (add_entries k info used_mem tag (i + 1) (add_entry used_mem x m)))
          (sym at) rest)
      (λ done. absurd (ground arith))

-- `add_memory_map` on a map in the format of version 0 gives the whole pages of the usable ranges
-- behind the memory in use to the mapper: they are on top of the free list, each range on top of
-- those before it. Every range ends in the address space, and a usable one begins, cut off at the
-- memory in use, at a page, holds at least one, and meets no other free block.
pub add_memory_map_correct :
    (k : ℕ) (info : Memory) (used_mem tag : ℕ) (es : List Multiboot2MemoryMapEntry) (m : Mapper)
    (bs : Blocks)
    → (memory_map_at info tag).entry_size ≡ 24
    → (memory_map_at info tag).entry_version ≡ 0
    → HasEntries info tag 0 es
    → length es < k
    → used_mem < 2 ^ 64
    → AreDisjoint used_mem es bs
    → FreeList m bs
    → Returns (λ m'. FreeList m' (blocks_of used_mem es bs)) (add_memory_map k info used_mem tag m)
unfolding add_memory_map
add_memory_map_correct k info used_mem tag es m bs size version has enough w apart free =
    Returns-if (not ((memory_map_at info tag).entry_size == 24)) (λ bad. absurd (ground arith))
      (λ good.
        Returns-if (not ((memory_map_at info tag).entry_version == 0))
          (λ bad. absurd (ground arith))
          (λ fine. add_entries-FreeList k info used_mem tag 0 es m bs w has enough apart free))
