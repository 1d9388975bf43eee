-- ===== src/Loader/Paging/Tests.antt =====
-- src/loader/paging.c on an empty address space.
use beaveros.Base.{◌^◌, refl, arith, bit_or}
use beaveros.Base.Run.{Returns}
use beaveros.Kernel.Mapper.{page_p_bit}
use beaveros.Kernel.Mapper.Leaf.{leaf}
use beaveros.Loader.Paging.{Loader, rw_global, map_page, setup_identity_paging}
use beaveros.Loader.Paging.Open.{IsSpace}
use beaveros.Loader.Paging.Space.{Mapped, map_page_refines}
use beaveros.Loader.Paging.First.{one_table, IsSpace-one, FirstMapped, map_page_first}
use beaveros.Loader.Paging.Identity.{IdentityMapped, setup_identity_paging_correct}

-- A clear root table at 0x1000.
abbrev empty : Loader
empty = record { memory = λ _. 0; used_memory = 0x2000; pml4 = 0x1000; kernel_entry = 0 }

empty-IsSpace : IsSpace (one_table 0x1000) empty
empty-IsSpace = IsSpace-one empty (λ a. omega arith) refl (omega arith) (λ a lo hi. refl)

map_page_refines_example :
    Returns
      (Mapped (one_table 0x1000) 0x5000 (leaf 0x7000 (bit_or rw_global page_p_bit)) empty)
      (map_page 0x5000 0x7000 rw_global empty)
map_page_refines_example =
    map_page_refines (one_table 0x1000) 0x5000 0x7000 rw_global empty empty-IsSpace
      (record { page = refl; room = omega arith }) (omega arith) (omega arith) refl

setup_identity_paging_correct_example :
    Returns (IdentityMapped empty) (setup_identity_paging (2 ^ 20) empty)
setup_identity_paging_correct_example =
    setup_identity_paging_correct (one_table 0x1000) empty (2 ^ 20) empty-IsSpace refl (omega arith)
      (omega arith) (omega arith)

-- No root table yet.
abbrev bare : Loader
bare = record { memory = λ _. 0; used_memory = 0x2000; pml4 = 0; kernel_entry = 0 }

map_page_first_example :
    Returns
      (FirstMapped 0x5000 (leaf 0x7000 (bit_or rw_global page_p_bit)) bare)
      (map_page 0x5000 0x7000 rw_global bare)
map_page_first_example =
    map_page_first 0x5000 0x7000 rw_global bare refl (record { page = refl; room = omega arith })
      (omega arith) (λ a. omega arith) (omega arith) refl
