-- ===== src/Loader/Elf/Segment/Tests.antt =====
-- The loop over the pages of a segment in src/loader/elf64.c, on a segment of two pages of which
-- 0x100 bytes are in the file.
use beaveros.Base.Memory.{Memory, store}
use beaveros.Loader.Paging.{Loader}
use beaveros.Loader.Elf.{Elf64Phdr}

-- The file at 0x3000, with a program header at 0x3040.
abbrev file : Memory
file =
    store (store (store (store (store (λ _. 0) 0x3049 0x10) 0x3052 0x40) 0x3061 0x1) 0x3069 0x11)
      0x4000 7

abbrev header : Elf64Phdr
header = record {
  p_type = 0;
  p_flags = 0;
  p_offset = 0x1000;
  p_vaddr = 0x400000;
  p_paddr = 0;
  p_filesz = 0x100;
  p_memsz = 0x1100;
  p_align = 0;
}

abbrev two_pages : Loader
two_pages = record { memory = file; used_memory = 0x5000; pml4 = 0x1000; kernel_entry = 0 }
