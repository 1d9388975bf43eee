-- ===== src/Kernel/Boot.antt =====
-- src/boot/main.c: what `early_main` gives to the mapper, and what `main` maps and unmaps. The
-- multiboot structures are read from a memory of bytes of their own, `info`: they lie below
-- `used_mem`, where the mapper does not write. What is printed is left out.
pub mod Regions
mod Tests
use beaveros.Base.{ℕ, zero, suc, ◌+◌, ◌-◌, ◌*◌, ◌/◌, ◌^◌, Bool, not, ◌==◌, if◌then◌else◌, ltb, u64}
use beaveros.Base.Memory.{Memory}
use beaveros.Base.Run.{Run, ok, panic, out_of_fuel, ◌>>=◌}
use beaveros.Kernel.Mapper.{Mapper, page_p_bit, map_anon, mapper_init, add_phys_mem, map_page}
use beaveros.Kernel.Multiboot.{
  multiboot2_end_tag, multiboot2_memory_map_tag, Multiboot2MemoryMapEntry, tag_at, memory_map_at,
  map_entry_at, multiboot2_next_tag,
}

-- `ulmax` of src/include/math.h
unfoldable pub ulmax : ℕ → ℕ → ℕ
ulmax a b = if ltb b a then a else b

-- `PAGE_P_BIT | PAGE_RW_BIT | PAGE_G_BIT`
abbrev pub kernel_page : ℕ
kernel_page = 1 + 2 ^ 1 + 2 ^ 8

-- The end of an entry's range.
abbrev pub end_of : Multiboot2MemoryMapEntry → ℕ
end_of e = u64 (e.base_addr + e.length)

-- The part of an entry's range behind `used_mem` goes to the mapper.
unfoldable pub add_entry : (used_mem : ℕ) → Multiboot2MemoryMapEntry → Mapper → Mapper
unfolding ulmax add_phys_mem
add_entry used_mem e m =
    let start = ulmax e.base_addr used_mem in
    let length = u64 (e.base_addr + e.length + (2 ^ 64 - start)) in
    if e.type == 1 then if ltb used_mem (end_of e) then add_phys_mem start length m else m else m

-- The loop over the entries of the map at `tag`, from number `i` on.
unfoldable pub add_entries : (fuel : ℕ) → (info : Memory) (used_mem tag i : ℕ) → Mapper → Run Mapper
unfolding memory_map_at map_entry_at add_entry
add_entries zero info used_mem tag i m = out_of_fuel
add_entries (suc k) info used_mem tag i m =
    let rest =
      add_entries k info used_mem tag (i + 1)
        (add_entry used_mem (map_entry_at info (tag + 16 + 24 * i)) m) in
    if ltb (16 + i * 24) (memory_map_at info tag).size then rest else ok m

unfoldable pub add_memory_map :
    (fuel : ℕ) → (info : Memory) (used_mem tag : ℕ) → Mapper → Run Mapper
unfolding memory_map_at add_entries
add_memory_map k info used_mem tag m =
    if not ((memory_map_at info tag).entry_size == 24)
    then panic
    else if not ((memory_map_at info tag).entry_version == 0)
    then panic
    else add_entries k info used_mem tag 0 m

-- The loop over the tags.
unfoldable pub read_tags :
    (fuel entries : ℕ) → (info : Memory) (used_mem tag : ℕ) → Mapper → Run Mapper
unfolding tag_at add_memory_map multiboot2_next_tag
read_tags zero entries info used_mem tag m = out_of_fuel
read_tags (suc k) entries info used_mem tag m =
    if (tag_at info tag).type == multiboot2_end_tag then ok m else (do
      m' ←
          if (tag_at info tag).type == multiboot2_memory_map_tag
          then add_memory_map entries info used_mem tag m
          else ok m
      read_tags k entries info used_mem (multiboot2_next_tag 64 info tag) m')

-- `cr3` is the register that `mapper_init` reads.
unfoldable pub early_main :
    (fuel entries : ℕ)
    → (info : Memory) (multiboot used_mem cr3 kernel_stack_bottom : ℕ) → Mapper
    → Run Mapper
unfolding mapper_init read_tags map_page
early_main k entries info multiboot used_mem cr3 kernel_stack_bottom m = do
  m' ← read_tags k entries info used_mem (multiboot + 8) (mapper_init cr3 m)
  map_page kernel_stack_bottom map_anon kernel_page m'

-- The first loop of `main`: the first MiB of the physical memory, `left` pages of it from `pg` on.
unfoldable pub map_first_mb : (left : ℕ) → (first_mb pg : ℕ) → Mapper → Run Mapper
unfolding map_page
map_first_mb zero first_mb pg m = ok m
map_first_mb (suc k) first_mb pg m = do
  m' ← map_page (u64 (first_mb + pg)) pg kernel_page m
  map_first_mb k first_mb (pg + 0x1000) m'

-- The second loop of `main`: the identity mapping goes, `left` pages of it from `pg` on.
unfoldable pub unmap_identity : (left : ℕ) → (pg : ℕ) → Mapper → Run Mapper
unfolding map_page
unmap_identity zero pg m = ok m
unmap_identity (suc k) pg m = do m' ← map_page pg map_anon 0 m; unmap_identity k (pg + 0x1000) m'

-- The changes that `main` makes to the page tables; 256 pages are one MiB.
unfoldable pub remap : (first_mb used_mem : ℕ) → Mapper → Run Mapper
unfolding map_first_mb unmap_identity
remap first_mb used_mem m = do
  m' ← map_first_mb 256 first_mb 0 m
  unmap_identity ((used_mem + 0xfff) / 0x1000) 0 m'
