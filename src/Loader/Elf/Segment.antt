-- ===== src/Loader/Elf/Segment.antt =====
-- `load_kernel` of src/loader/elf64.c: what the loop over the pages of a segment does, seen through
-- the page tables.
pub mod Page
pub mod Step
pub mod Loop
mod Tests
use beaveros.Base.{
  ℕ, ◌+◌, ◌-◌, ◌*◌, ◌/◌, ◌%◌, ◌^◌, ◌<◌, ◌≤◌, ◌≡◌, ◌≢◌, ◌⊎◌, Option, none, some, if◌then◌else◌, ltb,
}
use beaveros.Base.Memory.{Memory}
use beaveros.Kernel.Mapper.Tables.{target}
use beaveros.Paging.{page_number, walk}
use beaveros.Paging.Layout.{Layout, page_of}
use beaveros.Loader.Paging.{Loader, entry_at}
use beaveros.Loader.Paging.Open.{IsSpace}
use beaveros.Loader.Elf.{Elf64Phdr, phdr_at}

-- The pages that a number of bytes takes.
abbrev pub round_up : ℕ → ℕ
round_up n = (n + 4095) / 4096 * 4096

-- The byte at a virtual address, by the entry that its walk ends at.
abbrev pub read_by : Memory → (virt : ℕ) → Option ℕ → Option ℕ
read_by m virt none = none
read_by m virt (some e) = some (m (target e + virt % 4096))

abbrev pub read_virt : Loader → (virt : ℕ) → Option ℕ
read_virt s virt = read_by s.memory virt (walk 3 (entry_at s) s.pml4 virt)

-- A segment that can be loaded: its pages in the file lie on pages of the memory in use that are no
-- tables, its addresses are canonical, its header stays as it is when the rest of its last page in
-- the file is cleared, and there is room for its pages and their tables.
pub record FitsSegment (l : Layout) (start phdr : ℕ) (p : Elf64Phdr) (s : Loader) : Type 0 where
  pub header : p ≡ phdr_at s.memory phdr
  pub file : (start + p.p_offset) % 4096 ≡ 0
  pub file_used : start + p.p_offset + round_up p.p_filesz ≤ s.used_memory
  pub file_free :
      (a : ℕ)
      → start + p.p_offset ≤ a
      → a < start + p.p_offset + round_up p.p_filesz
      → 4 ≤ l.level (page_of a)
  pub header_used : phdr + 56 ≤ s.used_memory
  pub header_free : (a : ℕ) → phdr ≤ a → a < phdr + 56 → 4 ≤ l.level (page_of a)
  pub header_apart :
      (phdr + 56 ≤ start + p.p_offset + p.p_filesz)
      ⊎ (start + p.p_offset + round_up p.p_filesz ≤ phdr)
  pub virt : p.p_vaddr % 4096 ≡ 0
  pub canonical :
      (p.p_vaddr + round_up p.p_memsz ≤ 2 ^ 47)
      ⊎ ((2 ^ 64 - 2 ^ 47 ≤ p.p_vaddr) × (p.p_vaddr + round_up p.p_memsz ≤ 2 ^ 64))
  pub page : s.used_memory % 4096 ≡ 0
  pub room : s.used_memory + 4 * round_up p.p_memsz + 4 * 4096 < 2 ^ 32
  pub root : s.pml4 ≢ 0

-- The bytes of a segment in memory: those in the file, and zeros behind them.
abbrev pub segment_byte : (start : ℕ) → Elf64Phdr → Memory → (j : ℕ) → ℕ
segment_byte start p m j = if ltb j p.p_filesz then m (start + p.p_offset + j) else 0

-- The state after the first `n` bytes of a segment were loaded, whole pages that is: the page tables
-- are a tree, the bytes can be read at their addresses, the walks for addresses of other pages end
-- where they ended, and no byte changes that was in use, outside the tables and outside the
-- cleared rest of the segment's last page in the file.
pub record LoadedSegment (l : Layout) (start n : ℕ) (p : Elf64Phdr) (s s' : Loader) : Type 0 where
  pub layout : Layout
  pub space : IsSpace layout s'
  pub root : s'.pml4 ≡ s.pml4
  pub used :
      (s'.used_memory % 4096 ≡ 0)
      × (s.used_memory ≤ s'.used_memory)
      × (s'.used_memory ≤ s.used_memory + 4 * round_up n)
  pub loaded :
      (j : ℕ) → j < n → read_virt s' (p.p_vaddr + j) ≡ some (segment_byte start p s.memory j)
  pub elsewhere :
      (v : ℕ)
      → ((j : ℕ) → j < n → page_number v ≢ page_number (p.p_vaddr + j))
      → walk 3 (entry_at s') s'.pml4 v ≡ walk 3 (entry_at s) s.pml4 v
  pub byte :
      (a : ℕ)
      → a < s.used_memory
      → 4 ≤ l.level (page_of a)
      → (a < start + p.p_offset + p.p_filesz) ⊎ (start + p.p_offset + round_up p.p_filesz ≤ a)
      → s'.memory a ≡ s.memory a
  pub free : (q : ℕ) → q < s.used_memory → 4 ≤ l.level q → 4 ≤ layout.level q
