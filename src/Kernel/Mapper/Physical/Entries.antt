-- ===== src/Kernel/Mapper/Physical/Entries.antt =====
-- The entries that `map_page` of src/memory/mapper.c writes, in the physical memory with the
-- entries of the window.
use beaveros.Base.{ℕ, ◌^◌, ◌<◌, ◌≡◌, ◌≢◌, ◌∙◌, sym, ap, true, false, ◌∷◌}
use beaveros.Base.Run.{ok}
use beaveros.Kernel.Mapper.{Mapper, has, page_p_bit, page_f_bit, arguments_ok, map_page}
use beaveros.Kernel.Mapper.Leaf.{leaf}
use beaveros.Kernel.Mapper.Tables.{target, entry_after}
use beaveros.Kernel.Mapper.Walk.{slot4, slot3, slot2, slot1, Tables, Walk}
use beaveros.Kernel.Mapper.Mapped.{Mapped}
use beaveros.Kernel.Mapper.Map.{map_page_correct}
use beaveros.Kernel.Mapper.Physical.{NotWindow, physical, physical_lem, physical-same}

-- None of the four entries for the page is one of the window.
abbrev pub OutsideWindow4 : (table virt p4 p3 p2 p1 : ℕ) → Type 0
OutsideWindow4 table virt p4 p3 p2 p1 =
    NotWindow table (slot4 p4 virt)
    × NotWindow table (slot3 p3 virt)
    × NotWindow table (slot2 p2 virt)
    × NotWindow table (slot1 p1 virt)

-- What `map_page` leaves when it maps `phys` at `virt`.
pub record Installed (table : ℕ) (m : Mapper) (virt phys flags p3 p2 p1 : ℕ) (m' : Mapper)
    : Type 0 where
  pub root : m'.pml4 ≡ m.pml4
  pub walk : Walk (physical table m') virt m.pml4 p3 p2 p1
  pub upper :
      (physical table m' (slot4 m.pml4 virt)
        ≡ entry_after (physical table m (slot4 m.pml4 virt)) flags)
      × (physical table m' (slot3 p3 virt) ≡ entry_after (physical table m (slot3 p3 virt)) flags)
      × (physical table m' (slot2 p2 virt) ≡ entry_after (physical table m (slot2 p2 virt)) flags)
  pub entry : physical table m' (slot1 p1 virt) ≡ leaf phys flags
  pub leads : target (physical table m' (slot1 p1 virt)) ≡ phys
  pub no_page_taken : m'.first_free_block ≡ m.first_free_block
  pub same :
      (a : ℕ)
      → a ≢ slot4 m.pml4 virt
      → a ≢ slot3 p3 virt
      → a ≢ slot2 p2 virt
      → a ≢ slot1 p1 virt
      → NotWindow table a
      → physical table m' a ≡ physical table m a
  pub flushed : m'.invalidated ≡ virt ∷ m.invalidated

module _ (table : ℕ) (m : Mapper) (virt phys flags p3 p2 p1 : ℕ)
    (out : OutsideWindow4 table virt m.pml4 p3 p2 p1) where
  Walk-memory : Walk (physical table m) virt m.pml4 p3 p2 p1 → Walk m.memory virt m.pml4 p3 p2 p1
  Walk-memory walk = record {
    level4 = ap target (sym (physical_lem table m _ out.0)) ∙ walk.level4;
    level3 = ap target (sym (physical_lem table m _ out.1)) ∙ walk.level3;
    level2 = ap target (sym (physical_lem table m _ out.2)) ∙ walk.level2;
  }

  after :
      (m' : Mapper) (a : ℕ)
      → NotWindow table a
      → m'.memory a ≡ entry_after (m.memory a) flags
      → physical table m' a ≡ entry_after (physical table m a) flags
  after m' a not_window e =
      physical_lem table m' a not_window
      ∙ e
      ∙ ap (λ (w : ℕ). entry_after w flags) (sym (physical_lem table m a not_window))

  Mapped-Installed :
      (m' : Mapper)
      → Mapped m virt phys flags p3 p2 p1 m'
      → Installed table m virt phys flags p3 p2 p1 m'
  Mapped-Installed m' mapped =
      let e1 = physical_lem table m' (slot1 p1 virt) out.3 in
      record {
        root = mapped.root;
        walk = record {
          level4 = ap target (physical_lem table m' _ out.0) ∙ mapped.walk.level4;
          level3 = ap target (physical_lem table m' _ out.1) ∙ mapped.walk.level3;
          level2 = ap target (physical_lem table m' _ out.2) ∙ mapped.walk.level2;
        };
        upper = (
          after m' _ out.0 mapped.upper.0,
          after m' _ out.1 mapped.upper.1,
          after m' _ out.2 mapped.upper.2,
        );
        entry = e1 ∙ mapped.entry;
        leads = ap target e1 ∙ mapped.leads;
        no_page_taken = mapped.no_page_taken;
        same = λ a n4 n3 n2 n1 not_window.
            physical-same table m m' a not_window (mapped.same a n4 n3 n2 n1);
        flushed = mapped.flushed;
      }

-- `map_page` with the present flag, on a virtual page with four different tables at pages below
-- 2 ^ 52, none of whose four entries is one of the window, where the given physical page is a
-- 64-bit word and not 0, which asks for a new one, the arguments pass the assertions, and the leaf
-- entry does not ask to free a page: it returns, the same tables lead to the page, the flags are in
-- its entry, nothing else changes but the flags of the three entries above and the four entries of
-- the window, and the page is flushed from the translation cache.
pub map_page-Installed :
    (table : ℕ) (m : Mapper) (virt phys flags p3 p2 p1 : ℕ)
    → OutsideWindow4 table virt m.pml4 p3 p2 p1
    → Tables m.pml4 p3 p2 p1
    → Walk (physical table m) virt m.pml4 p3 p2 p1
    → arguments_ok virt phys ≡ true
    → has flags page_p_bit ≡ true
    → phys ≢ 0
    → phys < 2 ^ 64
    → has (physical table m (slot1 p1 virt)) page_f_bit ≡ false
    → (m' : Mapper) × (map_page virt phys flags m ≡ ok m')
      × Installed table m virt phys flags p3 p2 p1 m'
map_page-Installed table m virt phys flags p3 p2 p1 out tables walk fine p ne w keep =
    let keep' : has (m.memory (slot1 p1 virt)) page_f_bit ≡ false =
      ap (λ (e : ℕ). has e page_f_bit) (sym (physical_lem table m _ out.3)) ∙ keep in
    let (m', result, mapped) =
      map_page_correct m virt phys flags p3 p2 p1 tables
        (Walk-memory table m virt phys flags p3 p2 p1 out walk) fine p ne w keep' in
    (m', result, Mapped-Installed table m virt phys flags p3 p2 p1 out m' mapped)
