-- ===== src/Kernel/Boot/Tests.antt =====
-- src/boot/main.c on a small memory map.
use beaveros.Base.{◌≡◌, refl, arith, [], ◌∷◌}
use beaveros.Base.Memory.{Memory, store}
use beaveros.Base.Bytes.{load}
use beaveros.Base.Run.{Returns}
use beaveros.Kernel.Mapper.{Mapper}
use beaveros.Kernel.Mapper.FreeList.{FreeList}
use beaveros.Kernel.Multiboot.{Multiboot2MemoryMapEntry, memory_map_at, map_entry_at}
use beaveros.Kernel.Boot.{add_memory_map}
use beaveros.Kernel.Boot.Regions.{AreDisjoint, HasEntries, blocks_of, add_memory_map_correct}

abbrev nothing_free : Mapper
nothing_free = record {
  memory = λ _. 0;
  window = 0;
  phys_window = 0;
  pml4 = 0;
  first_free_block = 0;
  invalidated = [];
}

-- A map of one usable range, from 0x1000 to 0x4000.
abbrev info : Memory
info = store (store (store (store (λ _. 0) 4 40) 8 24) 17 0x10) 25 0x30

abbrev usable : Memory
usable = store info 32 1

abbrev range : Multiboot2MemoryMapEntry
range = record { base_addr = 0x1000; length = 0x3000; type = 1; reserved = 0 }

format : ((memory_map_at usable 0).entry_size ≡ 24) × ((memory_map_at usable 0).entry_version ≡ 0)
unfolding memory_map_at load
format = (refl, refl)

one_range : HasEntries usable 0 0 (range ∷ [])
unfolding memory_map_at map_entry_at load
one_range = (omega arith, refl, omega arith)

range-AreDisjoint : AreDisjoint 0x2000 (range ∷ []) []
range-AreDisjoint = (omega arith, (λ _. (omega arith, tt)), tt)

nothing_free-FreeList : FreeList nothing_free []
nothing_free-FreeList = record { starts = refl; linked = tt }

add_memory_map_correct_example :
    Returns
      (λ m. FreeList m (blocks_of 0x2000 (range ∷ []) []))
      (add_memory_map 2 usable 0x2000 0 nothing_free)
add_memory_map_correct_example =
    add_memory_map_correct 2 usable 0x2000 0 (range ∷ []) nothing_free [] format.0 format.1
      one_range (omega arith) (omega arith) range-AreDisjoint nothing_free-FreeList

blocks : blocks_of 0x2000 (range ∷ []) [] ≡ (0x2000, 2) ∷ []
blocks = refl
