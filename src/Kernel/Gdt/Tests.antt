-- ===== src/Kernel/Gdt/Tests.antt =====
-- src/gdt/gdt.c on a small memory.
use beaveros.Base.{◌≡◌, refl, arith, []}
use beaveros.Base.Memory.{store}
use beaveros.Base.Run.{Run, ok, Returns}
use beaveros.Kernel.Mapper.{Mapper, map_anon, map_page, map_present, descend, map_entry}
use beaveros.Kernel.Boot.{kernel_page}
use beaveros.Kernel.Gdt.{Gdt, gdt_init}
use beaveros.Kernel.Gdt.Init.{Initialised, gdt_init_correct}

-- The page at 0x5000 is mapped to 0x7000 already, by tables at 0x1000, 0x2000, 0x3000 and 0x4000.
abbrev mapper : Mapper
mapper = record {
  memory =
      store (store (store (store (λ _. 0) 0x1000 0x2001) 0x2000 0x3001) 0x3000 0x4001) 0x4028
        0x7003;
  window = 0;
  phys_window = 0;
  pml4 = 0x1000;
  first_free_block = 0;
  invalidated = [];
}

abbrev gdt : Gdt
gdt = record { memory = λ _. 0; descs = 0x5000; limit = 0; offset = 0; mapper = mapper }

abbrev value : Run Mapper → Mapper
value (ok m) = m
value r = mapper

page_mapped :
    map_page 0x5000 map_anon kernel_page mapper
    ≡ ok (value (map_page 0x5000 map_anon kernel_page mapper))
unfolding map_page map_present descend map_entry
page_mapped = refl

gdt_init_correct_example :
    Returns
      (Initialised 0x5000 0xffff_8000_0000_9000
        (value (map_page 0x5000 map_anon kernel_page mapper)))
      (gdt_init 0x5000 0xffff_8000_0000_9000 gdt)
gdt_init_correct_example =
    gdt_init_correct 0x5000 0xffff_8000_0000_9000
      (value (map_page 0x5000 map_anon kernel_page mapper)) gdt refl (omega arith) (omega arith)
      page_mapped
