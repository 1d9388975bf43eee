-- ===== src/Loader/Paging/Entries.antt =====
-- The entries that `map_page` of src/loader/paging.c fills.
use mathlib.Core.Path.{subst}
use beaveros.Base.{
  ℕ, ◌+◌, ◌*◌, ◌%◌, ◌^◌, ◌<◌, ◌≤◌, ◌≡◌, ◌⊎◌, ◌∙◌, refl, sym, arith, false, inl, inr, if-false, u32,
}
use beaveros.Base.Bytes.{
  IsBytes, load-zeros, store_word-IsBytes, store_word-kept, store_word, load-same, load-store_word,
  load-store_word-apart,
}
use beaveros.Strings.{memset}
use beaveros.Strings.Blocks.{memset-kept, memset-zero, memset-IsBytes}
use beaveros.Kernel.Mapper.{has, page_p_bit}
use beaveros.Loader.Paging.{Loader, entry_at, new_phys_page, new_phys_zero_page, fill_entry}

-- There are `n` free pages behind the memory in use.
pub record HasRoom (s : Loader) (n : ℕ) : Type 0 where
  pub page : s.used_memory % 4096 ≡ 0
  pub room : s.used_memory + 4096 * n < 2 ^ 32

-- What is left where an entry was missing: it leads to the next page, which is clear.
pub record Filled (e : ℕ) (s s' : Loader) : Type 0 where
  pub entry : entry_at s' e ≡ s.used_memory
  pub clear : (a : ℕ) → s.used_memory ≤ a → a + 8 ≤ s.used_memory + 4096 → entry_at s' a ≡ 0
  pub used : s'.used_memory ≡ s.used_memory + 4096
  pub root : s'.pml4 ≡ s.pml4
  pub bytes : IsBytes s.memory → IsBytes s'.memory
  pub kept : (a : ℕ) → a < s.used_memory → (a < e) ⊎ (e + 8 ≤ a) → s'.memory a ≡ s.memory a
  pub same :
      (a : ℕ) → a + 8 ≤ s.used_memory → (a + 8 ≤ e) ⊎ (e + 8 ≤ a) → entry_at s' a ≡ entry_at s a

-- The state with the entry `e` filled.
abbrev filled : ℕ → Loader → Loader
filled e s = record s {
  memory = store_word 8 (memset s.memory s.used_memory 0 4096) e s.used_memory;
  used_memory = u32 (s.used_memory + 4096);
}

fill_entry-missing :
    (e : ℕ) (s : Loader) → has (entry_at s e) page_p_bit ≡ false → fill_entry e s ≡ filled e s
unfolding fill_entry new_phys_zero_page new_phys_page
fill_entry-missing e s missing = if-false _ _ (has (entry_at s e) page_p_bit) missing

filled-Filled : (e : ℕ) (s : Loader) → HasRoom s 1 → e + 8 ≤ s.used_memory → Filled e s (filled e s)
filled-Filled e s room below =
    let m = memset s.memory s.used_memory 0 4096 in
    record {
      entry = load-store_word 8 m e s.used_memory (omega arith);
      clear = λ a lo hi.
          load-store_word-apart 8 8 m e s.used_memory a (inr (omega arith))
          ∙ load-zeros 8 m a
              (λ b lo' hi'. memset-zero s.memory s.used_memory 4096 b (omega arith) (omega arith));
      used = omega arith;
      root = refl;
      bytes = λ b.
          store_word-IsBytes 8 m e s.used_memory (memset-IsBytes s.memory s.used_memory 4096 b);
      kept = λ a under apart.
          store_word-kept 8 m e s.used_memory a apart
          ∙ memset-kept s.memory s.used_memory 0 4096 a (inl under);
      same = λ a under apart.
          load-store_word-apart 8 8 m e s.used_memory a (ground arith)
          ∙ load-same 8 s.memory m a
              (λ b lo hi. memset-kept s.memory s.used_memory 0 4096 b (inl (omega arith)));
    }

-- An entry that is missing gets a new table, which is clear, and no other entry in the memory in
-- use changes.
pub fill_entry-Filled :
    (e : ℕ) (s : Loader)
    → HasRoom s 1
    → e + 8 ≤ s.used_memory
    → has (entry_at s e) page_p_bit ≡ false
    → Filled e s (fill_entry e s)
fill_entry-Filled e s room below missing =
    subst (λ s'. Filled e s s') (sym (fill_entry-missing e s missing))
      (filled-Filled e s room below)
