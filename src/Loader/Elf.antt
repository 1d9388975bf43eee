-- ===== src/Loader/Elf.antt =====
-- src/loader/elf64.c: the kernel's file in the loader's memory, and what of it is loaded where. The
-- structures are those of src/loader/include/elf64.h. A pointer is a 32-bit word, so sums of a
-- pointer and a 64-bit offset are taken modulo 2 ^ 32.
pub mod Load
pub mod Segment
pub mod Header
pub mod Symbols
mod Tests
use beaveros.Base.{
  ℕ, zero, suc, ◌+◌, ◌-◌, ◌*◌, Bool, true, false, not, ◌&&◌, ◌||◌, Option, none, some, ◌==◌,
  if◌then◌else◌, ltb, u32, u64,
}
use beaveros.Base.Int.{ℤ, pos, eq_ℤ}
use beaveros.Base.Memory.{Memory}
use beaveros.Base.Bytes.{load}
use beaveros.Base.Run.{Run, fault, ok, out_of_fuel, ◌>>=◌}
use beaveros.Strings.{strcmp, memset}
use beaveros.Kernel.Mapper.{page_size}
use beaveros.Loader.Div.{udivdi3}
use beaveros.Loader.Paging.{Loader, rw_global, new_phys_zero_page, map_page}

pub record Elf64Ehdr : Type 0 where
  pub e_ident : ℕ → ℕ
  pub e_type : ℕ
  pub e_machine : ℕ
  pub e_version : ℕ
  pub e_entry : ℕ
  pub e_phoff : ℕ
  pub e_shoff : ℕ
  pub e_flags : ℕ
  pub e_ehsize : ℕ
  pub e_phentsize : ℕ
  pub e_phnum : ℕ
  pub e_shentsize : ℕ
  pub e_shnum : ℕ
  pub e_shstrndx : ℕ

pub record Elf64Shdr : Type 0 where
  pub sh_name : ℕ
  pub sh_type : ℕ
  pub sh_flags : ℕ
  pub sh_addr : ℕ
  pub sh_offset : ℕ
  pub sh_size : ℕ
  pub sh_link : ℕ
  pub sh_info : ℕ
  pub sh_addralign : ℕ
  pub sh_entsize : ℕ

pub record Elf64Sym : Type 0 where
  pub st_name : ℕ
  pub st_info : ℕ
  pub st_other : ℕ
  pub st_shndx : ℕ
  pub st_value : ℕ
  pub st_size : ℕ

pub record Elf64Phdr : Type 0 where
  pub p_type : ℕ
  pub p_flags : ℕ
  pub p_offset : ℕ
  pub p_vaddr : ℕ
  pub p_paddr : ℕ
  pub p_filesz : ℕ
  pub p_memsz : ℕ
  pub p_align : ℕ

-- The structures as they lie in memory.
unfoldable pub ehdr_at : Memory → ℕ → Elf64Ehdr
unfolding load
ehdr_at m a = record {
  e_ident = λ i. m (a + i);
  e_type = load 2 m (a + 16);
  e_machine = load 2 m (a + 18);
  e_version = load 4 m (a + 20);
  e_entry = load 8 m (a + 24);
  e_phoff = load 8 m (a + 32);
  e_shoff = load 8 m (a + 40);
  e_flags = load 4 m (a + 48);
  e_ehsize = load 2 m (a + 52);
  e_phentsize = load 2 m (a + 54);
  e_phnum = load 2 m (a + 56);
  e_shentsize = load 2 m (a + 58);
  e_shnum = load 2 m (a + 60);
  e_shstrndx = load 2 m (a + 62);
}

unfoldable pub shdr_at : Memory → ℕ → Elf64Shdr
unfolding load
shdr_at m a = record {
  sh_name = load 4 m a;
  sh_type = load 4 m (a + 4);
  sh_flags = load 8 m (a + 8);
  sh_addr = load 8 m (a + 16);
  sh_offset = load 8 m (a + 24);
  sh_size = load 8 m (a + 32);
  sh_link = load 4 m (a + 40);
  sh_info = load 4 m (a + 44);
  sh_addralign = load 8 m (a + 48);
  sh_entsize = load 8 m (a + 56);
}

unfoldable pub sym_at : Memory → ℕ → Elf64Sym
unfolding load
sym_at m a = record {
  st_name = load 4 m a;
  st_info = m (a + 4);
  st_other = m (a + 5);
  st_shndx = load 2 m (a + 6);
  st_value = load 8 m (a + 8);
  st_size = load 8 m (a + 16);
}

unfoldable pub phdr_at : Memory → ℕ → Elf64Phdr
unfolding load
phdr_at m a = record {
  p_type = load 4 m a;
  p_flags = load 4 m (a + 4);
  p_offset = load 8 m (a + 8);
  p_vaddr = load 8 m (a + 16);
  p_paddr = load 8 m (a + 24);
  p_filesz = load 8 m (a + 32);
  p_memsz = load 8 m (a + 40);
  p_align = load 8 m (a + 48);
}

abbrev pub pt_load : ℕ
pt_load = 1

abbrev pub et_exec : ℕ
et_exec = 2

abbrev pub elfclass64 : ℕ
elfclass64 = 2

abbrev pub elfdata2lsb : ℕ
elfdata2lsb = 1

-- What `load_kernel` reports before it returns false, by the text that it prints, and `loaded` for
-- true.
pub data Outcome : Type 0 where
  identification_incorrect expected_64_bit_little_endian expected_elf_version_1 : Outcome
  expected_system_v_abi expected_executable : Outcome
  strtab_not_found symtab_not_found : Outcome
  window_pages_not_found window_size_not_found window_pt_not_found : Outcome
  loaded : Outcome

-- The value that `load_kernel` returns.
unfoldable pub is_loaded : Outcome → Bool
is_loaded loaded = true
is_loaded why = false

-- The checks of the file header, from the first on.
unfoldable pub check_ehdr : Elf64Ehdr → Outcome
check_ehdr e =
    if not (e.e_ident 0 == 0x7f)
      || not (e.e_ident 1 == b'E')
      || not (e.e_ident 2 == b'L')
      || not (e.e_ident 3 == b'F')
    then identification_incorrect
    else if not (e.e_ident 4 == elfclass64) || not (e.e_ident 5 == elfdata2lsb)
    then expected_64_bit_little_endian
    else if not (e.e_ident 6 == 1)
    then expected_elf_version_1
    else if not (e.e_ident 7 == 0) || not (e.e_ident 8 == 0)
    then expected_system_v_abi
    else if not (e.e_type == et_exec)
    then expected_executable
    else loaded
