-- ===== src/Loader/Paging/Levels.antt =====
-- `map_page` of src/loader/paging.c by its levels.
use beaveros.Base.{ℕ, ◌+◌, ◌*◌, ◌≡◌, ◌≢◌, ◌∙◌, refl, ap, arith, if-false, false, u32, bit_or, ◌==◌}
use beaveros.Kernel.Mapper.{bits, page_p_bit}
use beaveros.Loader.Paging.{
  Loader, fill_entry, table_of, add_flags, ensure_pml4, map_rooted, map_checked,
}
use beaveros.Loader.Paging.Finish.{finish}

module _ (virt phys flags : ℕ) (s : Loader) where
  -- `map_page` from each of the levels on.
  abbrev flags' : ℕ
  flags' = bit_or flags page_p_bit

  abbrev from1 : (e4 e3 e2 e1 : ℕ) → Loader
  from1 e4 e3 e2 e1 =
      finish e4 e3 e2 e1 phys flags' (fill_entry e2 (fill_entry e3 (fill_entry e4 s)))

  abbrev from2 : (e4 e3 e2 : ℕ) → Loader
  from2 e4 e3 e2 =
      from1 e4 e3 e2
        (u32 (table_of (fill_entry e2 (fill_entry e3 (fill_entry e4 s))) e2 + 8 * bits virt 12 21))

  abbrev from3 : (e4 e3 : ℕ) → Loader
  from3 e4 e3 =
      from2 e4 e3 (u32 (table_of (fill_entry e3 (fill_entry e4 s)) e3 + 8 * bits virt 21 30))

  abbrev from4 : (e4 : ℕ) → Loader
  from4 e4 = from3 e4 (u32 (table_of (fill_entry e4 s) e4 + 8 * bits virt 30 39))

  ensured : s.pml4 ≢ 0 → ensure_pml4 s ≡ s
  unfolding ensure_pml4
  ensured ne = let there : (s.pml4 == 0) ≡ false = ground arith in if-false _ _ (s.pml4 == 0) there

  rooted : map_rooted virt phys flags s ≡ from4 (u32 (s.pml4 + 8 * bits virt 39 48))
  unfolding map_rooted add_flags
  rooted = refl

  -- The walk down, at the four entries that it comes to.
  pub map_checked-finish :
      (e4 e3 e2 e1 : ℕ)
      → s.pml4 ≢ 0
      → u32 (s.pml4 + 8 * bits virt 39 48) ≡ e4
      → u32 (table_of (fill_entry e4 s) e4 + 8 * bits virt 30 39) ≡ e3
      → u32 (table_of (fill_entry e3 (fill_entry e4 s)) e3 + 8 * bits virt 21 30) ≡ e2
      → u32 (table_of (fill_entry e2 (fill_entry e3 (fill_entry e4 s))) e2 + 8 * bits virt 12 21)
        ≡ e1
      → map_checked virt phys flags s
        ≡ finish e4 e3 e2 e1 phys flags' (fill_entry e2 (fill_entry e3 (fill_entry e4 s)))
  unfolding map_checked
  map_checked-finish e4 e3 e2 e1 ne at4 at3 at2 at1 =
      ap (map_rooted virt phys flags) (ensured ne)
      ∙ rooted
      ∙ ap from4 at4
      ∙ ap (from3 e4) at3
      ∙ ap (from2 e4 e3) at2
      ∙ ap (from1 e4 e3 e2) at1
