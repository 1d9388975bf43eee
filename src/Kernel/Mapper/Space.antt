-- ===== src/Kernel/Mapper/Space.antt =====
-- `map_page` and `unmap_page` of src/memory/mapper.c in page tables that are a tree, as a map from
-- pages to entries, in the `memory` of the state: without the entries of the window, which
-- Kernel/Mapper/Physical adds.
use mathlib.Core.Path.{subst}
use beaveros.Base.{
  ℕ, ◌+◌, ◌*◌, ◌%◌, ◌^◌, ◌<◌, ◌≤◌, ◌≡◌, ◌≢◌, ◌∙◌, sym, ap, refl, arith, true, false, Option, some,
  none, inl,
}
use beaveros.Base.Run.{Returns, returns}
use beaveros.Kernel.Mapper.{Mapper, has, page_p_bit, page_f_bit, arguments_ok, map_page, unmap_page}
use beaveros.Kernel.Mapper.Window.{IsPage, has_p}
use beaveros.Kernel.Mapper.Tables.{target}
use beaveros.Kernel.Mapper.Leaf.{leaf}
use beaveros.Kernel.Mapper.Walk.{slot1, Tables, Walk}
use beaveros.Kernel.Mapper.Mapped.{Mapped}
use beaveros.Kernel.Mapper.Map.{map_page_correct}
use beaveros.Kernel.Mapper.Unmap.{UpperPresent, Unmapped, unmap_page_correct}
use beaveros.Paging.{index, index-lt, path-suc, page_number, walk}
use beaveros.Paging.Layout.{Layout, IsTree, slot_unique}
use beaveros.Paging.Steps.{SameElsewhere, IsTree-set}
use beaveros.Paging.Leaf.{walk-other, walk-missing}
use beaveros.Paging.Join.{Chain, Joined, IsTree-joined, walk-joined, walk-joined_other}

-- The page tables after a change of the entry for one page: still the same tree, the walk for the
-- page has the given end, and the walk for an address of any other page ends where it ended.
pub record Changed (l : Layout) (used virt : ℕ) (e : Option ℕ) (m m' : Mapper) : Type 0 where
  pub tree : IsTree l m'.pml4 used m'.memory
  pub root : m'.pml4 ≡ m.pml4
  pub here : walk 3 m'.memory m'.pml4 virt ≡ e
  pub elsewhere :
      (v : ℕ)
      → page_number v ≢ page_number virt
      → walk 3 m'.memory m'.pml4 v ≡ walk 3 m.memory m.pml4 v

-- The tables of an address under the root.
abbrev pub table3 : (virt : ℕ) → Mapper → ℕ
table3 virt m = target (m.memory (m.pml4 + 8 * index 3 virt))

abbrev pub table2 : (virt : ℕ) → Mapper → ℕ
table2 virt m = target (m.memory (table3 virt m + 8 * index 2 virt))

abbrev pub table1 : (virt : ℕ) → Mapper → ℕ
table1 virt m = target (m.memory (table2 virt m + 8 * index 1 virt))

module _ (l : Layout) (used virt : ℕ) (m : Mapper) (tree : IsTree l m.pml4 used m.memory)
    (bound : used ≤ 2 ^ 52) where
  abbrev p4 : ℕ
  p4 = m.pml4

  abbrev p3 : ℕ
  p3 = table3 virt m

  abbrev p2 : ℕ
  p2 = table2 virt m

  abbrev p1 : ℕ
  p1 = table1 virt m

  module _ (upper : UpperPresent m.memory virt p4 p3 p2) where
    chain : Chain l m.memory virt p4 p3 p2 p1
    chain =
        let (top, prefix4) = tree.top in
        let down3 = tree.child p4 (index 3 virt) 2 top (omega arith) (index-lt 3 virt) upper.0 in
        let down2 =
          tree.child p3 (index 2 virt) 1 down3.0 (omega arith) (index-lt 2 virt) upper.1 in
        let down1 =
          tree.child p2 (index 1 virt) 0 down2.0 (omega arith) (index-lt 1 virt) upper.2 in
        record {
          levels = (top, down3.0, down2.0, down1.0);
          prefix = omega (
            arith,
            down3.1,
            down2.1,
            down1.1,
            path-suc 0 virt (omega arith),
            path-suc 1 virt (omega arith),
            path-suc 2 virt (omega arith),
          );
          link4 = record { down = down3; ready = inl upper.0 };
          link3 = record { down = down2; ready = inl upper.1 };
          link2 = record { down = down1; ready = inl upper.2 };
          lead4 = refl;
          lead3 = refl;
          lead2 = refl;
        }

    IsPage-at : (t : ℕ) → l.level t < 4 → IsPage t
    IsPage-at t h = let (aligned, end) = tree.inside t h in (aligned, omega arith)

    tables : Tables p4 p3 p2 p1
    tables =
        let (at4, at3, at2, at1) = chain.levels in
        let ne : (t u : ℕ) → l.level t ≢ l.level u → t ≢ u = λ t u h e. h (ap l.level e) in
        record {
          pages = (
            IsPage-at p4 (omega arith),
            IsPage-at p3 (omega arith),
            IsPage-at p2 (omega arith),
            IsPage-at p1 (omega arith),
          );
          differ4 = (ne p4 p3 (omega arith), ne p4 p2 (omega arith), ne p4 p1 (omega arith));
          differ3 = (ne p3 p2 (omega arith), ne p3 p1 (omega arith));
          differ2 = ne p2 p1 (omega arith);
        }

    through : Walk m.memory virt p4 p3 p2 p1
    through = record { level4 = refl; level3 = refl; level2 = refl }

    map-Changed :
        (phys flags : ℕ) (m' : Mapper)
        → flags % 2 ≡ 1
        → Mapped m virt phys flags p3 p2 p1 m'
        → Changed l used virt (some (leaf phys flags)) m m'
    map-Changed phys flags m' odd mapped =
        let joined : Joined l m.memory m'.memory virt p4 p3 p2 p1 flags (leaf phys flags) = record {
          at4 = mapped.upper.0;
          at3 = mapped.upper.1;
          at2 = mapped.upper.2;
          at1 = mapped.entry;
          elsewhere = λ t i ht hi n4 n3 n2 n1. mapped.same (t + 8 * i) n4 n3 n2 n1;
        } in
        let at_root : (v : ℕ) → walk 3 m'.memory m'.pml4 v ≡ walk 3 m'.memory p4 v =
          λ v. ap (λ (x : ℕ). walk 3 m'.memory x v) mapped.root in
        let e = leaf phys flags in
        record {
          tree =
              subst (λ (x : ℕ). IsTree l x used m'.memory) (sym mapped.root)
                (IsTree-joined l used m.memory m'.memory virt p4 p3 p2 p1 flags e tree chain joined
                  odd);
          root = mapped.root;
          here =
              at_root virt
              ∙ walk-joined l used m.memory m'.memory virt p4 p3 p2 p1 flags e tree chain joined odd
                  (ap (λ (w : ℕ). has w page_p_bit) (sym mapped.entry) ∙ mapped.present.3);
          elsewhere = λ v ne.
              at_root v
              ∙ walk-joined_other l used m.memory m'.memory virt p4 p3 p2 p1 flags e tree chain
                  joined odd v ne;
        }

    unmap-Changed : (m' : Mapper) → Unmapped m (slot1 p1 virt) m' → Changed l used virt none m m'
    unmap-Changed m' un =
        let at_root : (v : ℕ) → walk 3 m'.memory m'.pml4 v ≡ walk 3 m'.memory p4 v =
          λ v. ap (λ (x : ℕ). walk 3 m'.memory x v) un.root in
        let (at4, at3, at2, at1) = chain.levels in
        let same : SameElsewhere l (p1 + 8 * index 0 virt) m.memory m'.memory =
          λ t i ht hi ne. un.same (t + 8 * i) ne in
        let kept : (t i : ℕ)
            → l.level t < 4
            → i < 512
            → l.level t ≢ 0
            → m'.memory (t + 8 * i) ≡ m.memory (t + 8 * i) =
          λ t i ht hi ne. same t i ht hi (λ e.
            let in_t = tree.inside t ht in
            let in_p1 = tree.inside p1 (omega arith) in
            let one = slot_unique t i p1 (index 0 virt) in_t.0 in_p1.0 hi (index-lt 0 virt) e in
            ne (ap l.level one.0 ∙ at1)) in
        record {
          tree =
              subst (λ (x : ℕ). IsTree l x used m'.memory) (sym un.root)
                (IsTree-set l p4 used m.memory m'.memory p1 (index 0 virt) 0 tree at1 (omega arith)
                  (index-lt 0 virt) same (λ k e. absurd (omega arith)));
          root = un.root;
          here =
              at_root virt
              ∙ walk-missing m'.memory p4 p3 p2 p1 virt
                  (ap target (kept p4 (index 3 virt) (omega arith) (index-lt 3 virt) (omega arith)))
                  (ap target (kept p3 (index 2 virt) (omega arith) (index-lt 2 virt) (omega arith)))
                  (ap target (kept p2 (index 1 virt) (omega arith) (index-lt 1 virt) (omega arith)))
                  un.absent;
          elsewhere = λ v ne.
              at_root v
              ∙ walk-other l p4 used m.memory m'.memory tree p1 virt at1 chain.prefix same 3 p4 v ne
                  at4 (omega arith) tree.top.1;
        }

-- `map_page` with the present flag, where the page tables are a tree, the three entries above the
-- page's are present, and the page's entry does not ask to free a page: it returns, the tables are
-- the same tree, the walk for the page ends at the entry with the physical page and the flags, and
-- the walk for an address of any other page ends where it ended.
pub map_page_translates :
    (l : Layout) (used virt phys flags : ℕ) (m : Mapper)
    → IsTree l m.pml4 used m.memory
    → used ≤ 2 ^ 52
    → UpperPresent m.memory virt m.pml4 (table3 virt m) (table2 virt m)
    → arguments_ok virt phys ≡ true
    → has flags page_p_bit ≡ true
    → phys ≢ 0
    → phys < 2 ^ 64
    → has (m.memory (slot1 (table1 virt m) virt)) page_f_bit ≡ false
    → Returns (Changed l used virt (some (leaf phys flags)) m) (map_page virt phys flags m)
map_page_translates l used virt phys flags m tree bound upper fine on ne w keep =
    let odd : flags % 2 ≡ 1 = ground (arith, has_p flags) in
    let (m', result, mapped) =
      map_page_correct m virt phys flags (table3 virt m) (table2 virt m) (table1 virt m)
        (tables l used virt m tree bound upper) (through l used virt m tree bound upper) fine on ne
        w keep in
    subst (λ c. Returns (Changed l used virt (some (leaf phys flags)) m) c) (sym result)
      (returns (map-Changed l used virt m tree bound upper phys flags m' odd mapped))

-- `unmap_page` on a page that is mapped and not marked to be freed, where the page tables are a
-- tree: they are the same tree after it, the page is not mapped any more, and the walk for an
-- address of any other page ends where it ended.
pub unmap_page_translates :
    (l : Layout) (used virt : ℕ) (m : Mapper)
    → IsTree l m.pml4 used m.memory
    → used ≤ 2 ^ 52
    → UpperPresent m.memory virt m.pml4 (table3 virt m) (table2 virt m)
    → has (m.memory (slot1 (table1 virt m) virt)) page_p_bit ≡ true
    → has (m.memory (slot1 (table1 virt m) virt)) page_f_bit ≡ false
    → Changed l used virt none m (unmap_page virt m)
unmap_page_translates l used virt m tree bound upper on keep =
    unmap-Changed l used virt m tree bound upper (unmap_page virt m) (
      unmap_page_correct m virt (table3 virt m) (table2 virt m) (table1 virt m)
        (IsPage-at l used virt m tree bound upper m.pml4 (omega (arith, tree.top)))
        (through l used virt m tree bound upper) upper on keep)
