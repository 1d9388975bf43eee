-- ===== src/Loader/Paging/Chain.antt =====
-- The walk down of `map_page` of src/loader/paging.c in page tables that are a tree: three levels
-- are opened one after the other, and the four tables of the address are linked.
use beaveros.Base.{ℕ, suc, ◌+◌, ◌*◌, ◌<◌, ◌≡◌, ◌≢◌, ◌∙◌, sym, ap, refl, arith, bit_or}
use beaveros.Kernel.Mapper.{has, page_p_bit}
use beaveros.Kernel.Mapper.Tables.{target}
use beaveros.Paging.{index, index-lt, path-suc}
use beaveros.Paging.Layout.{Layout, slot_unique}
use beaveros.Paging.Link.{Link, Link-kept}
use beaveros.Paging.Join.{Chain}
use beaveros.Loader.Paging.{Loader, entry_at, fill_entry, map_checked}
use beaveros.Loader.Paging.Entries.{HasRoom}
use beaveros.Loader.Paging.Levels.{map_checked-finish}
use beaveros.Loader.Paging.Finish.{finish}
use beaveros.Loader.Paging.Open.{IsSpace, Opened, fill_entry-Opened}

-- An entry of a table of another level, while a level is opened.
module _ (l l' : Layout) (t i k : ℕ) (s s' : Loader) (space : IsSpace l s)
    (opened : Opened l l' t i k s s') (x j n : ℕ) (at_t : l.level t < 4) (hi : i < 512)
    (at : l.level x ≡ suc n) (small : suc n < 4) (hj : j < 512) (ne : l.level x ≢ l.level t) where
  other_slot : x + 8 * j ≢ t + 8 * i
  other_slot here =
      let in_x = space.tree.inside x (omega arith) in
      let in_t = space.tree.inside t at_t in
      ne (ap l.level (slot_unique x j t i in_x.0 in_t.0 hj hi here).0)

  pub target-Opened : target (entry_at s' (x + 8 * j)) ≡ target (entry_at s (x + 8 * j))
  target-Opened = ap target (opened.elsewhere x j (omega arith) hj other_slot)

  pub Link-Opened : Link l (entry_at s) x j n → Link l' (entry_at s') x j n
  Link-Opened link =
      Link-kept l l' (entry_at s) (entry_at s') x j n (t + 8 * i) at small hj opened.more
        opened.elsewhere other_slot
        (λ y hy off here.
          opened.quiet ∙ ap (λ (a : ℕ). has (entry_at s a) page_p_bit) (sym here) ∙ off)
        link

module _ (l l1 l2 l3 : Layout) (virt : ℕ) (s t1 t2 t3 : Loader) (space : IsSpace l s) where
  abbrev p4 : ℕ
  p4 = s.pml4

  abbrev e4 : ℕ
  e4 = p4 + 8 * index 3 virt

  abbrev p3 : ℕ
  p3 = target (entry_at t1 e4)

  abbrev e3 : ℕ
  e3 = p3 + 8 * index 2 virt

  abbrev p2 : ℕ
  p2 = target (entry_at t2 e3)

  abbrev e2 : ℕ
  e2 = p2 + 8 * index 1 virt

  abbrev p1 : ℕ
  p1 = target (entry_at t3 e2)

  -- The tables of the address after the three levels were opened.
  pub Opened-Chain :
      Opened l l1 p4 (index 3 virt) 2 s t1
      → Opened l1 l2 p3 (index 2 virt) 1 t1 t2
      → Opened l2 l3 p2 (index 1 virt) 0 t2 t3
      → Chain l3 (entry_at t3) virt p4 p3 p2 p1
  Opened-Chain o1 o2 o3 =
      let i4 = index-lt 3 virt in
      let i3 = index-lt 2 virt in
      let i2 = index-lt 1 virt in
      let (top, top_prefix) = space.tree.top in
      let (at4, prefix4) = o1.more p4 (omega arith) in
      let (at3, prefix3) = o1.link.down in
      let (at4', prefix4') = o2.more p4 (omega arith) in
      let (at3', prefix3') = o2.more p3 (omega arith) in
      let (at2, prefix2) = o2.link.down in
      let (at4'', prefix4'') = o3.more p4 (omega arith) in
      let (at3'', prefix3'') = o3.more p3 (omega arith) in
      let (at2', prefix2') = o3.more p2 (omega arith) in
      let (at1, prefix1) = o3.link.down in
      let to4 =
        target-Opened l1 l2 p3 (index 2 virt) 1 t1 t2 o1.space o2 p4 (index 3 virt) 2 (omega arith)
          i3 (omega arith) (omega arith) i4 (omega arith) in
      let to4' =
        target-Opened l2 l3 p2 (index 1 virt) 0 t2 t3 o2.space o3 p4 (index 3 virt) 2 (omega arith)
          i2 (omega arith) (omega arith) i4 (omega arith) in
      let to3 =
        target-Opened l2 l3 p2 (index 1 virt) 0 t2 t3 o2.space o3 p3 (index 2 virt) 1 (omega arith)
          i2 (omega arith) (omega arith) i3 (omega arith) in
      let link4 =
        Link-Opened l1 l2 p3 (index 2 virt) 1 t1 t2 o1.space o2 p4 (index 3 virt) 2 (omega arith) i3
          (omega arith) (omega arith) i4 (omega arith) o1.link in
      record {
        levels = (omega arith, omega arith, omega arith, omega arith);
        prefix = omega (
          arith,
          path-suc 0 virt (omega arith),
          path-suc 1 virt (omega arith),
          path-suc 2 virt (omega arith),
        );
        link4 =
            Link-Opened l2 l3 p2 (index 1 virt) 0 t2 t3 o2.space o3 p4 (index 3 virt) 2
              (omega arith) i2 (omega arith) (omega arith) i4 (omega arith) link4;
        link3 =
            Link-Opened l2 l3 p2 (index 1 virt) 0 t2 t3 o2.space o3 p3 (index 2 virt) 1
              (omega arith) i2 (omega arith) (omega arith) i3 (omega arith) o2.link;
        link2 = o3.link;
        lead4 = to4' ∙ to4;
        lead3 = to3;
        lead2 = refl;
      }

-- The entries on the way, by the states before each of them was read.
abbrev pub entry4 : (virt : ℕ) → (s : Loader) → ℕ
entry4 virt s = s.pml4 + 8 * index 3 virt

abbrev pub entry3 : (virt : ℕ) → (s t1 : Loader) → ℕ
entry3 virt s t1 = target (entry_at t1 (entry4 virt s)) + 8 * index 2 virt

abbrev pub entry2 : (virt : ℕ) → (s t1 t2 : Loader) → ℕ
entry2 virt s t1 t2 = target (entry_at t2 (entry3 virt s t1)) + 8 * index 1 virt

abbrev pub entry1 : (virt : ℕ) → (s t1 t2 t3 : Loader) → ℕ
entry1 virt s t1 t2 t3 = target (entry_at t3 (entry2 virt s t1 t2)) + 8 * index 0 virt

-- The three levels opened.
pub record Descended (l : Layout) (virt : ℕ) (s t1 t2 t3 : Loader) : Type 0 where
  pub l1 : Layout
  pub l2 : Layout
  pub l3 : Layout
  pub first : Opened l l1 s.pml4 (index 3 virt) 2 s t1
  pub second : Opened l1 l2 (target (entry_at t1 (entry4 virt s))) (index 2 virt) 1 t1 t2
  pub third : Opened l2 l3 (target (entry_at t2 (entry3 virt s t1))) (index 1 virt) 0 t2 t3

module _ (l : Layout) (virt : ℕ) (s : Loader) (space : IsSpace l s) (room : HasRoom s 3) where
  abbrev t1 : Loader
  t1 = fill_entry (entry4 virt s) s

  abbrev t2 : Loader
  t2 = fill_entry (entry3 virt s t1) t1

  abbrev t3 : Loader
  t3 = fill_entry (entry2 virt s t1 t2) t2

  -- The loader goes down the three levels.
  pub fill_entry-Descended : Descended l virt s t1 t2 t3
  fill_entry-Descended =
      let (l1, o1) =
        fill_entry-Opened l s.pml4 (index 3 virt) 2 s space
          (record { page = room.page; room = omega (arith, room.room) }) space.tree.top.0
          (omega arith) (index-lt 3 virt) in
      let (l2, o2) =
        fill_entry-Opened l1 (target (entry_at t1 (entry4 virt s))) (index 2 virt) 1 t1 o1.space
          (record { page = o1.used.2; room = omega (arith, room.room, o1.used) }) o1.link.down.0
          (omega arith) (index-lt 2 virt) in
      let (l3, o3) =
        fill_entry-Opened l2 (target (entry_at t2 (entry3 virt s t1))) (index 1 virt) 0 t2 o2.space
          (record { page = o2.used.2; room = omega (arith, room.room, o1.used, o2.used) })
          o2.link.down.0 (omega arith) (index-lt 1 virt) in
      record { l1 = l1; l2 = l2; l3 = l3; first = o1; second = o2; third = o3 }

  pub map_checked-Descended :
      (phys flags : ℕ)
      → s.pml4 ≢ 0
      → map_checked virt phys flags s
        ≡ finish
            (entry4 virt s)
            (entry3 virt s t1)
            (entry2 virt s t1 t2)
            (entry1 virt s t1 t2 t3)
            phys
            (bit_or flags page_p_bit)
            t3
  map_checked-Descended phys flags ne =
      let d = fill_entry-Descended in
      let o1 = d.first in
      let o2 = d.second in
      let o3 = d.third in
      let top = space.tree.inside s.pml4 (omega (arith, space.tree.top)) in
      let in3 =
        o1.space.tree.inside (target (entry_at t1 (entry4 virt s))) (omega (arith, o1.link.down)) in
      let in2 =
        o2.space.tree.inside (target (entry_at t2 (entry3 virt s t1)))
          (omega (arith, o2.link.down)) in
      let in1 =
        o3.space.tree.inside (target (entry_at t3 (entry2 virt s t1 t2)))
          (omega (arith, o3.link.down)) in
      let bound = room.room in
      let used1 = o1.used in
      let used2 = o2.used in
      let used3 = o3.used in
      map_checked-finish virt phys flags s (entry4 virt s) (entry3 virt s t1) (entry2 virt s t1 t2)
        (entry1 virt s t1 t2 t3) ne (omega (arith, index-lt 3 virt))
        (omega (arith, index-lt 2 virt, o1.table)) (omega (arith, index-lt 1 virt, o2.table))
        (omega (arith, index-lt 0 virt, o3.table))
