-- ===== src/Kernel/Multiboot.antt =====
-- src/multiboot2.c and the structures of src/include/multiboot2.h that the boot code reads.
pub mod Tag
mod Tests
use beaveros.Base.{ℕ, ◌+◌, ◌-◌, ◌%◌, ◌^◌, bit_and, u64}
use beaveros.Base.Memory.{Memory}
use beaveros.Base.Bytes.{load}

abbrev pub multiboot2_end_tag : ℕ
multiboot2_end_tag = 0

abbrev pub multiboot2_module_tag : ℕ
multiboot2_module_tag = 3

abbrev pub multiboot2_memory_map_tag : ℕ
multiboot2_memory_map_tag = 6

pub record Multiboot2TagHeader : Type 0 where
  pub type : ℕ
  pub size : ℕ

pub record Multiboot2MemoryMap : Type 0 where
  pub type : ℕ
  pub size : ℕ
  pub entry_size : ℕ
  pub entry_version : ℕ

pub record Multiboot2MemoryMapEntry : Type 0 where
  pub base_addr : ℕ
  pub length : ℕ
  pub type : ℕ
  pub reserved : ℕ

pub record Multiboot2ModuleTag : Type 0 where
  pub type : ℕ
  pub size : ℕ
  pub mod_start : ℕ
  pub mod_end : ℕ

-- The structures as they lie in memory. The entries of a map begin at offset 16, the string of a
-- module too.
unfoldable pub tag_at : Memory → ℕ → Multiboot2TagHeader
unfolding load
tag_at m a = record { type = load 4 m a; size = load 4 m (a + 4) }

unfoldable pub memory_map_at : Memory → ℕ → Multiboot2MemoryMap
unfolding load
memory_map_at m a = record {
  type = load 4 m a;
  size = load 4 m (a + 4);
  entry_size = load 4 m (a + 8);
  entry_version = load 4 m (a + 12);
}

unfoldable pub map_entry_at : Memory → ℕ → Multiboot2MemoryMapEntry
unfolding load
map_entry_at m a = record {
  base_addr = load 8 m a;
  length = load 8 m (a + 8);
  type = load 4 m (a + 16);
  reserved = load 4 m (a + 20);
}

unfoldable pub module_tag_at : Memory → ℕ → Multiboot2ModuleTag
unfolding load
module_tag_at m a = record {
  type = load 4 m a;
  size = load 4 m (a + 4);
  mod_start = load 4 m (a + 8);
  mod_end = load 4 m (a + 12);
}

-- `raw_ptr += 7; raw_ptr &= -8;`, on words below `2 ^ width`: the loader's pointers have 32 bits,
-- the kernel's 64.
unfoldable pub multiboot2_next_tag : (width : ℕ) → Memory → (tag : ℕ) → ℕ
unfolding tag_at
multiboot2_next_tag width m tag =
    bit_and ((tag + (tag_at m tag).size + 7) % 2 ^ width) (2 ^ width - 8)
