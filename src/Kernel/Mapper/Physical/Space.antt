-- ===== src/Kernel/Mapper/Physical/Space.antt =====
-- `map_page` and `unmap_page` of src/memory/mapper.c as changes of the map from pages to entries, in
-- the physical memory with the entries of the window, which are among the entries of the tables.
use mathlib.Core.Path.{subst}
use beaveros.Base.{
  ℕ, zero, suc, ◌+◌, ◌*◌, ◌^◌, ◌<◌, ◌≤◌, ◌≡◌, ◌≢◌, ◌⊎◌, ◌∙◌, inl, inr, sym, ap, refl, arith, true,
  false, Option, some, none, if◌then◌else◌,
}
use beaveros.Base.Memory.{Memory}
use beaveros.Base.Run.{Returns, Returns-map}
use beaveros.Kernel.Mapper.{Mapper, has, page_p_bit, page_f_bit, arguments_ok, map_page, unmap_page}
use beaveros.Kernel.Mapper.Leaf.{leaf}
use beaveros.Kernel.Mapper.Tables.{target}
use beaveros.Kernel.Mapper.Walk.{slot1}
use beaveros.Kernel.Mapper.Unmap.{UpperPresent}
use beaveros.Kernel.Mapper.Physical.{NotWindow, physical, physical_lem}
use beaveros.Kernel.Mapper.Space.{
  Changed, table1, table2, table3, map_page_translates, unmap_page_translates,
}
use beaveros.Paging.{index, index-lt, path, path-suc, page_number, walk}
use beaveros.Paging.Layout.{Layout, IsTree}
use beaveros.Paging.Kept.{present_or}

-- The address does not lie in one of the four pages of the window: its leaf entry is not one of
-- the last four of `table`.
abbrev pub OutsideWindow : Layout → (table virt : ℕ) → Type 0
OutsideWindow l table v = l.prefix table ≡ path 0 v → index 0 v < 508

-- Two memories that differ at most in the last four entries of a table of level 0.
module _ (l : Layout) (root used table : ℕ) (mem mem' : Memory) (tree : IsTree l root used mem)
    (last : l.level table ≡ 0) (agree : (a : ℕ) → NotWindow table a → mem' a ≡ mem a) where
  not_window :
      (t i : ℕ) → l.level t < 4 → i < 512 → (t ≡ table → i < 508) → NotWindow table (t + 8 * i)
  not_window t i ht hi out =
      let here = tree.inside t ht in
      let there = tree.inside table (omega arith) in
      let side : (t ≡ table) ⊎ (t ≢ table) = ground arith in
      elim side [ inl same ↦ omega (arith, out same) | inr other ↦ omega (arith, here.0, there.0) ]

  other_level : (t i k : ℕ) → l.level t ≡ suc k → t ≡ table → i < 508
  other_level t i k at same = absurd (omega (arith, ap l.level same))

  pub IsTree-agree : IsTree l root used mem'
  IsTree-agree = record {
    top = tree.top;
    inside = tree.inside;
    child = λ t i k at small hi on.
        let e = agree (t + 8 * i) (not_window t i (omega arith) hi (other_level t i k at)) in
        let down = tree.child t i k at small hi (ap (λ (w : ℕ). has w page_p_bit) (sym e) ∙ on) in
        subst (λ (w : ℕ). (l.level (target w) ≡ k) × (l.prefix (target w) ≡ l.prefix t * 512 + i))
          (sym e) down;
  }

  walk-agree :
      (k t v : ℕ)
      → OutsideWindow l table v
      → l.level t ≡ k
      → k < 4
      → l.prefix t ≡ path k v
      → walk k mem' t v ≡ walk k mem t v
  unfolding walk
  walk-agree zero t v out at small prefix_t =
      ap (λ (w : ℕ). if has w page_p_bit then some w else none)
        (agree (t + 8 * index 0 v) (
          not_window t (index 0 v) (omega arith) (index-lt 0 v)
            (λ same. out (ap l.prefix (sym same) ∙ prefix_t))))
  walk-agree (suc k) t v out at small prefix_t =
      let i = index (suc k) v in
      let w = mem (t + 8 * i) in
      let e =
        agree (t + 8 * i)
          (not_window t i (omega arith) (index-lt (suc k) v) (other_level t i k at)) in
      ap (λ (x : ℕ). if has x page_p_bit then walk k mem' (target x) v else none) e
      ∙ present_or (has w page_p_bit) (has w page_p_bit) _ _ refl (λ on.
        let (level_c, prefix_c) = tree.child t i k at small (index-lt (suc k) v) on in
        walk-agree k (target w) v out level_c (omega arith)
          (prefix_c ∙ ap (λ (x : ℕ). x * 512 + i) prefix_t ∙ sym (path-suc k v small)))

-- The page tables after a change of the entry for one page: still the same tree, the walk for the
-- page has the given end, and the walk for an address of any other page, but those of the window,
-- ends where it ended.
pub record Translated (l : Layout) (used table virt : ℕ) (e : Option ℕ) (m m' : Mapper)
    : Type 0 where
  pub tree : IsTree l m'.pml4 used (physical table m')
  pub root : m'.pml4 ≡ m.pml4
  pub here : walk 3 (physical table m') m'.pml4 virt ≡ e
  pub elsewhere :
      (v : ℕ)
      → page_number v ≢ page_number virt
      → OutsideWindow l table v
      → walk 3 (physical table m') m'.pml4 v ≡ walk 3 (physical table m) m.pml4 v

module _ (l : Layout) (used table : ℕ) (m : Mapper) (tree : IsTree l m.pml4 used (physical table m))
    (last : l.level table ≡ 0) where
  IsTree-below : IsTree l m.pml4 used m.memory
  IsTree-below =
      IsTree-agree l m.pml4 used table (physical table m) m.memory tree last
        (λ a out. sym (physical_lem table m a out))

  Changed-Translated :
      (virt : ℕ) (e : Option ℕ) (m' : Mapper)
      → OutsideWindow l table virt
      → Changed l used virt e m m'
      → Translated l used table virt e m m'
  Changed-Translated virt e m' out changed =
      let walks : (v : ℕ)
          → OutsideWindow l table v
          → walk 3 (physical table m') m'.pml4 v ≡ walk 3 m'.memory m'.pml4 v =
        λ v out_v.
          walk-agree l m'.pml4 used table m'.memory (physical table m') changed.tree last
            (physical_lem table m') 3 m'.pml4 v out_v changed.tree.top.0 (omega arith)
            changed.tree.top.1 in
      record {
        tree =
            IsTree-agree l m'.pml4 used table m'.memory (physical table m') changed.tree last
              (physical_lem table m');
        root = changed.root;
        here = walks virt out ∙ changed.here;
        elsewhere = λ v ne out_v.
            walks v out_v
            ∙ changed.elsewhere v ne
            ∙ sym (
                walk-agree l m.pml4 used table m.memory (physical table m) IsTree-below last
                  (physical_lem table m) 3 m.pml4 v out_v tree.top.0 (omega arith) tree.top.1);
      }

-- `map_page` with the present flag, where the page tables are a tree below 2 ^ 52 that has the
-- table of the window at level 0, the page is not one of the window, the given physical page is a
-- 64-bit word and not 0, which asks for a new one, the arguments pass the assertions, the three
-- entries above the page's are present, and the page's entry does not ask to free a page: it
-- returns, the tables are the same tree, the walk for the page ends at the entry with the physical
-- page and the flags, and the walk for an address of any other page, but the four of the window,
-- ends where it ended.
pub map_page-physical :
    (l : Layout) (used table virt phys flags : ℕ) (m : Mapper)
    → IsTree l m.pml4 used (physical table m)
    → l.level table ≡ 0
    → OutsideWindow l table virt
    → used ≤ 2 ^ 52
    → UpperPresent m.memory virt m.pml4 (table3 virt m) (table2 virt m)
    → arguments_ok virt phys ≡ true
    → has flags page_p_bit ≡ true
    → phys ≢ 0
    → phys < 2 ^ 64
    → has (m.memory (slot1 (table1 virt m) virt)) page_f_bit ≡ false
    → Returns (Translated l used table virt (some (leaf phys flags)) m) (map_page virt phys flags m)
map_page-physical l used table virt phys flags m tree last out bound upper fine on ne w keep =
    Returns-map
      (map_page_translates l used virt phys flags m (IsTree-below l used table m tree last) bound
        upper fine on ne w keep)
      (λ m' changed.
        Changed-Translated l used table m tree last virt (some (leaf phys flags)) m' out changed)

-- `unmap_page` on a page that is mapped, not marked to be freed, and not one of the window, where
-- the page tables are a tree below 2 ^ 52 that has the table of the window at level 0, and the
-- three entries above the page's are present: they are the same tree after it, the page is not
-- mapped any more, and the walk for an address of any other page, but the four of the window, ends
-- where it ended.
pub unmap_page-physical :
    (l : Layout) (used table virt : ℕ) (m : Mapper)
    → IsTree l m.pml4 used (physical table m)
    → l.level table ≡ 0
    → OutsideWindow l table virt
    → used ≤ 2 ^ 52
    → UpperPresent m.memory virt m.pml4 (table3 virt m) (table2 virt m)
    → has (m.memory (slot1 (table1 virt m) virt)) page_p_bit ≡ true
    → has (m.memory (slot1 (table1 virt m) virt)) page_f_bit ≡ false
    → Translated l used table virt none m (unmap_page virt m)
unmap_page-physical l used table virt m tree last out bound upper on keep =
    Changed-Translated l used table m tree last virt none (unmap_page virt m) out (
      unmap_page_translates l used virt m (IsTree-below l used table m tree last) bound upper on
        keep)
