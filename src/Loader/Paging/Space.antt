-- ===== src/Loader/Paging/Space.antt =====
-- `map_page` of src/loader/paging.c in page tables that are a tree, as a map from pages to entries.
use mathlib.Core.Path.{subst}
use beaveros.Base.{
  ℕ, ◌+◌, ◌*◌, ◌%◌, ◌^◌, ◌<◌, ◌≤◌, ◌≡◌, ◌≢◌, ◌⊎◌, ◌∙◌, sym, ap, refl, arith, true, some, bit_or,
  if-true,
}
use beaveros.Base.Bytes.{load-lt, store_word-kept}
use beaveros.Base.Run.{ok, Returns, returns}
use beaveros.Kernel.Mapper.{page_p_bit, arguments_ok}
use beaveros.Kernel.Mapper.Tables.{target, bit_or-odd}
use beaveros.Kernel.Mapper.Leaf.{arguments_ok-IsPage, leaf, leaf-present}
use beaveros.Paging.{index-lt, path, page_number, walk}
use beaveros.Paging.Layout.{Layout, IsTree, page_of, outside_tables}
use beaveros.Paging.Join.{Chain, Joined, IsTree-joined, walk-joined, walk-joined_other}
use beaveros.Loader.Paging.{Loader, entry_at, fill_entry, map_page}
use beaveros.Loader.Paging.Entries.{HasRoom}
use beaveros.Loader.Paging.Finish.{
  slots-IsApart, levels-IsApart, finish-IsBytes, finish, Finished, finish-Finished, IsApart,
}
use beaveros.Loader.Paging.Open.{IsSpace, KeepsPages}
use beaveros.Loader.Paging.Quiet.{fill_entries-present}
use beaveros.Loader.Paging.Chain.{
  Opened-Chain, entry4, entry3, entry2, entry1, Descended, fill_entry-Descended,
  map_checked-Descended,
}

-- The state after the page of `virt` was mapped by the entry `w`: the tables are a tree again, at
-- most three pages were taken for them, and none if a page under the same lowest table was mapped,
-- the walk for the address ends at the entry, and the walk for an address of any other page ends
-- where it ended, and no byte in use outside the tables changes.
pub record Mapped (l : Layout) (virt w : ℕ) (s s' : Loader) : Type 0 where
  pub layout : Layout
  pub space : IsSpace layout s'
  pub root : s'.pml4 ≡ s.pml4
  pub used :
      (s.used_memory ≤ s'.used_memory)
      × (s'.used_memory ≤ s.used_memory + 3 * 4096)
      × (s'.used_memory % 4096 ≡ 0)
  pub none_new :
      (v x : ℕ)
      → path 0 v ≡ path 0 virt
      → walk 3 (entry_at s) s.pml4 v ≡ some x
      → s'.used_memory ≡ s.used_memory
  pub keeps : KeepsPages l layout s s'
  pub here : walk 3 (entry_at s') s'.pml4 virt ≡ some w
  pub elsewhere :
      (v : ℕ)
      → page_number v ≢ page_number virt
      → walk 3 (entry_at s') s'.pml4 v ≡ walk 3 (entry_at s) s.pml4 v

module _ (l : Layout) (virt phys flags : ℕ) (s t1 t2 t3 : Loader) (space : IsSpace l s)
    (d : Descended l virt s t1 t2 t3) (q1 : t1 ≡ fill_entry (entry4 virt s) s)
    (q2 : t2 ≡ fill_entry (entry3 virt s t1) t1) (q3 : t3 ≡ fill_entry (entry2 virt s t1 t2) t2)
    (w : phys < 2 ^ 64) where
  abbrev p4 : ℕ
  p4 = s.pml4

  abbrev p3 : ℕ
  p3 = target (entry_at t1 (entry4 virt s))

  abbrev p2 : ℕ
  p2 = target (entry_at t2 (entry3 virt s t1))

  abbrev p1 : ℕ
  p1 = target (entry_at t3 (entry2 virt s t1 t2))

  abbrev e4 : ℕ
  e4 = entry4 virt s

  abbrev e3 : ℕ
  e3 = entry3 virt s t1

  abbrev e2 : ℕ
  e2 = entry2 virt s t1 t2

  abbrev e1 : ℕ
  e1 = entry1 virt s t1 t2 t3

  abbrev flags' : ℕ
  flags' = bit_or flags page_p_bit

  abbrev s' : Loader
  s' = finish e4 e3 e2 e1 phys flags' t3

  linked : Chain d.l3 (entry_at t3) virt p4 p3 p2 p1
  linked = Opened-Chain l d.l1 d.l2 d.l3 virt s t1 t2 t3 space d.first d.second d.third

  entry-lt : (a : ℕ) → entry_at t3 a < 2 ^ 64
  entry-lt a = load-lt 8 t3.memory a d.third.space.bytes

  same_root : t3.pml4 ≡ s.pml4
  same_root = d.third.root ∙ d.second.root ∙ d.first.root

  tree : IsTree d.l3 p4 t3.used_memory (entry_at t3)
  tree = subst (λ (x : ℕ). IsTree d.l3 x t3.used_memory (entry_at t3)) same_root d.third.space.tree

  -- Entries of the tables at different levels.
  two_levels :
      (t u i j : ℕ)
      → d.l3.level t < 4
      → d.l3.level u < 4
      → d.l3.level t ≢ d.l3.level u
      → i < 512
      → j < 512
      → IsApart (t + 8 * i) (u + 8 * j)
  two_levels t u i j ht hu ne hi hj =
      levels-IsApart d.l3 p4 t3.used_memory (entry_at t3) tree t u i j ht hu hi hj ne

  finished : Finished e4 e3 e2 e1 phys flags' t3 s'
  finished =
      let (at4, at3, at2, at1) = linked.levels in
      let i4 = index-lt 3 virt in
      let i3 = index-lt 2 virt in
      let i2 = index-lt 1 virt in
      let i1 = index-lt 0 virt in
      finish-Finished e4 e3 e2 e1 phys flags' t3
        (two_levels p4 p3 _ _ (omega arith) (omega arith) (omega arith) i4 i3)
        (two_levels p4 p2 _ _ (omega arith) (omega arith) (omega arith) i4 i2)
        (two_levels p4 p1 _ _ (omega arith) (omega arith) (omega arith) i4 i1)
        (two_levels p3 p2 _ _ (omega arith) (omega arith) (omega arith) i3 i2)
        (two_levels p3 p1 _ _ (omega arith) (omega arith) (omega arith) i3 i1)
        (two_levels p2 p1 _ _ (omega arith) (omega arith) (omega arith) i2 i1) (entry-lt e4)
        (entry-lt e3) (entry-lt e2) w

  joined : Joined d.l3 (entry_at t3) (entry_at s') virt p4 p3 p2 p1 flags' (leaf phys flags')
  joined =
      let (at4, at3, at2, at1) = linked.levels in
      let f = finished in
      let off : (t u i j : ℕ)
          → d.l3.level t < 4
          → d.l3.level u < 4
          → t + 8 * i ≢ u + 8 * j
          → IsApart (t + 8 * i) (u + 8 * j) =
        λ t u i j ht hu ne.
          slots-IsApart d.l3 p4 t3.used_memory (entry_at t3) tree t u i j ht hu ne in
      record {
        at4 = f.at4;
        at3 = f.at3;
        at2 = f.at2;
        at1 = f.at1;
        elsewhere = λ t i ht hi n4 n3 n2 n1.
            f.same (t + 8 * i) (off t p4 i _ ht (omega arith) n4) (off t p3 i _ ht (omega arith) n3)
              (off t p2 i _ ht (omega arith) n2) (off t p1 i _ ht (omega arith) n1);
      }

  odd : flags' % 2 ≡ 1
  odd = bit_or-odd flags page_p_bit (omega arith)

  -- The three levels change no walk.
  walk-Descended : (v : ℕ) → walk 3 (entry_at t3) p4 v ≡ walk 3 (entry_at s) p4 v
  walk-Descended v =
      ap (λ (x : ℕ). walk 3 (entry_at t3) x v) (sym same_root)
      ∙ d.third.walks v
      ∙ d.second.walks v
      ∙ d.first.walks v

  finish-byte :
      (a : ℕ)
      → (a < e4) ⊎ (e4 + 8 ≤ a)
      → (a < e3) ⊎ (e3 + 8 ≤ a)
      → (a < e2) ⊎ (e2 + 8 ≤ a)
      → (a < e1) ⊎ (e1 + 8 ≤ a)
      → s'.memory a ≡ t3.memory a
  finish-byte a o4 o3 o2 o1 =
      store_word-kept 8 _ e1 _ a o1
      ∙ store_word-kept 8 _ e1 _ a o1
      ∙ store_word-kept 8 _ e2 _ a o2
      ∙ store_word-kept 8 _ e3 _ a o3
      ∙ store_word-kept 8 t3.memory e4 _ a o4

  finish-keeps : KeepsPages l d.l3 s s'
  finish-keeps =
      let (at4, at3, at2, at1) = linked.levels in
      let used1 = d.first.used in
      let used2 = d.second.used in
      let k1 = d.first.keeps in
      let k2 = d.second.keeps in
      let k3 = d.third.keeps in
      let free : (p : ℕ) → p < s.used_memory → 4 ≤ l.level p → 4 ≤ d.l3.level p =
        λ p h out. k3.free p (omega arith) (k2.free p (omega arith) (k1.free p h out)) in
      record {
        byte = λ a h out.
            let page : page_of a < s.used_memory = omega arith in
            let out1 = k1.free (page_of a) page out in
            let out2 = k2.free (page_of a) (omega arith) out1 in
            let off : (t i : ℕ)
                → d.l3.level t < 4
                → i < 512
                → (a < t + 8 * i) ⊎ (t + 8 * i + 8 ≤ a) =
              λ t i ht hi.
                outside_tables d.l3 p4 t3.used_memory (entry_at t3) t i a tree ht hi
                  (free (page_of a) page out) in
            finish-byte a (off p4 _ (omega arith) (index-lt 3 virt))
              (off p3 _ (omega arith) (index-lt 2 virt)) (off p2 _ (omega arith) (index-lt 1 virt))
              (off p1 _ (omega arith) (index-lt 0 virt))
            ∙ k3.byte a (omega arith) out2
            ∙ k2.byte a (omega arith) out1
            ∙ k1.byte a h out;
        free = free;
      }

  finish-Mapped : arguments_ok virt phys ≡ true → Mapped l virt (leaf phys flags') s s'
  finish-Mapped fine =
      let used1 = d.first.used in
      let used2 = d.second.used in
      let used3 = d.third.used in
      let m = entry_at t3 in
      let m' = entry_at s' in
      let leaf' = leaf phys flags' in
      let u = t3.used_memory in
      let at_root : (v : ℕ) → walk 3 m' s'.pml4 v ≡ walk 3 m' p4 v =
        λ v. ap (λ (x : ℕ). walk 3 m' x v) same_root in
      record {
        layout = d.l3;
        space = record {
          tree =
              subst (λ (x : ℕ). IsTree d.l3 x u m') (sym same_root)
                (IsTree-joined d.l3 u m m' virt p4 p3 p2 p1 flags' leaf' tree linked joined odd);
          bytes = finish-IsBytes e4 e3 e2 e1 phys flags' t3 d.third.space.bytes;
        };
        root = same_root;
        used = (omega arith, omega arith, omega arith);
        none_new = λ v x under found.
            ap (λ (t : Loader). t.used_memory)
              (fill_entries-present v virt x s found under t1 t2 t3 q1 q2 q3);
        keeps = finish-keeps;
        here =
            at_root virt
            ∙ walk-joined d.l3 u m m' virt p4 p3 p2 p1 flags' leaf' tree linked joined odd
                (leaf-present phys flags' (arguments_ok-IsPage virt phys w fine) odd);
        elsewhere = λ v ne.
            at_root v
            ∙ walk-joined_other d.l3 u m m' virt p4 p3 p2 p1 flags' leaf' tree linked joined odd v
                ne
            ∙ walk-Descended v;
      }

-- `map_page` of the loader, as a map from pages to entries: where the arguments, of which the
-- physical address is a 64-bit word, pass the assertions of `map_page`, the page tables are a tree,
-- and three pages are free behind the memory in use, it returns with page tables that are a tree; it
-- takes at most three pages for new tables, and none if a page under the same lowest table is mapped
-- already; the walk of the tables for the address then ends at the entry with the page, the flags
-- and the present flag; the walk for an address of any other page ends where it ended before; and
-- no byte in use outside the tables changes.
pub map_page_refines :
    (l : Layout) (virt phys flags : ℕ) (s : Loader)
    → IsSpace l s
    → HasRoom s 3
    → s.pml4 ≢ 0
    → phys < 2 ^ 64
    → arguments_ok virt phys ≡ true
    → Returns (Mapped l virt (leaf phys (bit_or flags page_p_bit)) s) (map_page virt phys flags s)
unfolding map_page
map_page_refines l virt phys flags s space room ne w fine =
    let d = fill_entry-Descended l virt s space room in
    let result = map_checked-Descended l virt s space room phys flags ne in
    subst (λ r. Returns (Mapped l virt (leaf phys (bit_or flags page_p_bit)) s) r)
      (sym (if-true _ _ (arguments_ok virt phys) fine ∙ ap (λ (t : Loader). ok t) result))
      (returns (finish-Mapped l virt phys flags s _ _ _ space d refl refl refl w fine))
