-- ===== src/Loader/Elf/Tests.antt =====
-- src/loader/elf64.c on small memories.
use beaveros.Base.{ℕ, ◌≡◌, ◌≢◌, refl, arith, [], ◌∷◌}
use beaveros.Base.Memory.{Memory, store}
use beaveros.Base.Bytes.{load}
use beaveros.Base.Run.{ok}
use beaveros.Loader.Paging.{Loader}
use beaveros.Loader.Elf.{Outcome, loaded, ehdr_at, sym_at}
use beaveros.Loader.Elf.Load.{Literals, Sections, load_kernel, install_window, read_symbols}
use beaveros.Loader.Elf.Header.{IsSysvExecutable, load_kernel_rejects}
use beaveros.Loader.Elf.Symbols.{AreNamed, IsTable, no_symbols, values, read_symbols_correct}

abbrev with_memory : Memory → Loader
with_memory m = record { memory = m; used_memory = 0x1000; pml4 = 0; kernel_entry = 0 }

abbrev literals : Literals
literals = record {
  strtab = 0x50;
  symtab = 0x60;
  window_size = 0x10;
  window_pages = 0x20;
  window_pt = 0x30;
}

no_magic : (a : ℕ) → a ≡ 0 → a ≢ 0x7f
no_magic a zero e = absurd (omega arith)

blank_rejected : ¬ IsSysvExecutable (ehdr_at (λ _. 0) 0)
unfolding ehdr_at
blank_rejected executable = no_magic 0 refl executable.magic.0

load_kernel_rejects_example :
    (why : Outcome) × (why ≢ loaded)
    × (load_kernel 1 1 1 literals 0 (with_memory (λ _. 0)) ≡ ok (why, with_memory (λ _. 0)))
load_kernel_rejects_example =
    load_kernel_rejects 1 1 1 literals 0 (with_memory (λ _. 0)) blank_rejected

-- The names "s", "p" and "t" for the literals, and one symbol, "p" with the value 5.
abbrev small : Memory
small =
    store
      (store (store (store (store (store (λ _. 0) 0x10 115) 0x20 112) 0x30 116) 0x41 112) 0x98 1)
      0xa0 5

abbrev sections : Sections
sections = record { strtab = 0x40; symtab = 0x80; symtab_size = 2 }

small-AreNamed : AreNamed small literals (115 ∷ []) (112 ∷ []) (116 ∷ []) 9
small-AreNamed = record {
  size_text = (refl, omega arith, omega arith, refl);
  pages_text = (refl, omega arith, omega arith, refl);
  pt_text = (refl, omega arith, omega arith, refl);
  enough = (omega arith, omega arith, omega arith);
}

small-IsTable : IsTable small 0x40 0x80 1 ((112 ∷ [], 5) ∷ [])
unfolding sym_at load
small-IsTable = ((refl, omega arith, omega arith, refl), refl, tt)

read_symbols_correct_example :
    read_symbols 9 literals sections (with_memory small)
    ≡ install_window
        (values (115 ∷ []) (112 ∷ []) (116 ∷ []) ((112 ∷ [], 5) ∷ []) no_symbols)
        (with_memory small)
read_symbols_correct_example =
    read_symbols_correct 9 literals (115 ∷ []) (112 ∷ []) (116 ∷ []) sections (with_memory small)
      ((112 ∷ [], 5) ∷ []) small-AreNamed (omega arith) (omega arith) refl small-IsTable
