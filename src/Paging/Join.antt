-- ===== src/Paging/Join.antt =====
-- A page that is mapped at the end of four linked tables.
use beaveros.Base.{ℕ, suc, ◌+◌, ◌*◌, ◌%◌, ◌<◌, ◌≡◌, ◌≢◌, ◌∙◌, sym, ap, refl, arith, true, some}
use beaveros.Base.Memory.{Memory, store, store_ne, store_self}
use beaveros.Kernel.Mapper.{has, page_p_bit}
use beaveros.Kernel.Mapper.Tables.{target, entry_after, target-entry_after, entry_after-present}
use beaveros.Paging.{index, index-lt, path, page_number, walk}
use beaveros.Paging.Layout.{Layout, IsTree, slot_unique}
use beaveros.Paging.Kept.{walk-Keeps}
use beaveros.Paging.Steps.{SameElsewhere, IsTree-set}
use beaveros.Paging.Link.{Link, Link-kept, IsTree-link, Keeps-link}
use beaveros.Paging.Leaf.{walk-other, walk-found}

-- The tables of a virtual address, and their links.
pub record Chain (l : Layout) (m : Memory) (virt p4 p3 p2 p1 : ℕ) : Type 0 where
  pub levels : (l.level p4 ≡ 3) × (l.level p3 ≡ 2) × (l.level p2 ≡ 1) × (l.level p1 ≡ 0)
  pub prefix : l.prefix p1 ≡ path 0 virt
  pub link4 : Link l m p4 (index 3 virt) 2
  pub link3 : Link l m p3 (index 2 virt) 1
  pub link2 : Link l m p2 (index 1 virt) 0
  pub lead4 : target (m (p4 + 8 * index 3 virt)) ≡ p3
  pub lead3 : target (m (p3 + 8 * index 2 virt)) ≡ p2
  pub lead2 : target (m (p2 + 8 * index 1 virt)) ≡ p1

-- The memory after the flags and the leaf were written.
pub record Joined (l : Layout) (m m' : Memory) (virt p4 p3 p2 p1 flags w : ℕ) : Type 0 where
  pub at4 : m' (p4 + 8 * index 3 virt) ≡ entry_after (m (p4 + 8 * index 3 virt)) flags
  pub at3 : m' (p3 + 8 * index 2 virt) ≡ entry_after (m (p3 + 8 * index 2 virt)) flags
  pub at2 : m' (p2 + 8 * index 1 virt) ≡ entry_after (m (p2 + 8 * index 1 virt)) flags
  pub at1 : m' (p1 + 8 * index 0 virt) ≡ w
  pub elsewhere :
      (t i : ℕ)
      → l.level t < 4
      → i < 512
      → t + 8 * i ≢ p4 + 8 * index 3 virt
      → t + 8 * i ≢ p3 + 8 * index 2 virt
      → t + 8 * i ≢ p2 + 8 * index 1 virt
      → t + 8 * i ≢ p1 + 8 * index 0 virt
      → m' (t + 8 * i) ≡ m (t + 8 * i)

module _ (l : Layout) (used : ℕ) (m m' : Memory) (virt p4 p3 p2 p1 flags w : ℕ)
    (tree : IsTree l p4 used m) (chain : Chain l m virt p4 p3 p2 p1)
    (joined : Joined l m m' virt p4 p3 p2 p1 flags w) (odd : flags % 2 ≡ 1) where
  abbrev e4 : ℕ
  e4 = p4 + 8 * index 3 virt

  abbrev e3 : ℕ
  e3 = p3 + 8 * index 2 virt

  abbrev e2 : ℕ
  e2 = p2 + 8 * index 1 virt

  abbrev e1 : ℕ
  e1 = p1 + 8 * index 0 virt

  -- The memories between.
  abbrev m4 : Memory
  m4 = store m e4 (entry_after (m e4) flags)

  abbrev m3 : Memory
  m3 = store m4 e3 (entry_after (m e3) flags)

  abbrev m2 : Memory
  m2 = store m3 e2 (entry_after (m e2) flags)

  -- Entries in tables of different levels are different.
  apart :
      (t u i j : ℕ)
      → l.level t < 4
      → l.level u < 4
      → i < 512
      → j < 512
      → l.level t ≢ l.level u
      → t + 8 * i ≢ u + 8 * j
  apart t u i j ht hu hi hj ne e =
      let (same_t, _) = slot_unique t i u j (tree.inside t ht).0 (tree.inside u hu).0 hi hj e in
      ne (ap l.level same_t)

  pub different : (e4 ≢ e3) × (e4 ≢ e2) × (e4 ≢ e1) × (e3 ≢ e2) × (e3 ≢ e1) × (e2 ≢ e1)
  different =
      let (l4, l3, l2, l1) = chain.levels in
      let i4 = index-lt 3 virt in
      let i3 = index-lt 2 virt in
      let i2 = index-lt 1 virt in
      let i1 = index-lt 0 virt in
      (
        apart p4 p3 _ _ (omega arith) (omega arith) i4 i3 (omega arith),
        apart p4 p2 _ _ (omega arith) (omega arith) i4 i2 (omega arith),
        apart p4 p1 _ _ (omega arith) (omega arith) i4 i1 (omega arith),
        apart p3 p2 _ _ (omega arith) (omega arith) i3 i2 (omega arith),
        apart p3 p1 _ _ (omega arith) (omega arith) i3 i1 (omega arith),
        apart p2 p1 _ _ (omega arith) (omega arith) i2 i1 (omega arith),
      )

  -- A store at an entry, as a change of the tables.
  stored : (n : Memory) (e v : ℕ) → SameElsewhere l e n (store n e v)
  stored n e v t i ht hi ne = store_ne n e v (t + 8 * i) ne

  -- A later link is not touched by a store at a higher level.
  later :
      (n : Memory) (t i k u j v : ℕ)
      → l.level t ≡ suc k
      → suc k < 4
      → i < 512
      → j < 512
      → l.level u < 4
      → suc k < l.level u
      → Link l n t i k
      → Link l (store n (u + 8 * j) v) t i k
  later n t i k u j v at small hi hj hu above link =
      Link-kept l l n (store n (u + 8 * j) v) t i k (u + 8 * j) at small hi (λ x h. (refl, refl))
        (stored n (u + 8 * j) v) (apart t u i j (omega arith) hu hi hj (omega arith))
        (λ x hx off here. absurd (
          apart (target (n (t + 8 * i))) u x j (omega (arith, link.down)) hu hx hj
            (omega (arith, link.down)) here))
        link

  -- What a store of an entry with the flags does to the entry.
  set_on : (n : Memory) (e v : ℕ) → has (store n e (entry_after v flags) e) page_p_bit ≡ true
  set_on n e v =
      ap (λ (x : ℕ). has x page_p_bit) (store_self n e (entry_after v flags))
      ∙ entry_after-present v flags odd

  set_leads :
      (n : Memory) (e v : ℕ) → n e ≡ v → target (store n e (entry_after v flags) e) ≡ target (n e)
  set_leads n e v at =
      ap target (store_self n e (entry_after v flags))
      ∙ target-entry_after v flags odd
      ∙ ap target (sym at)

  kept3 : m4 e3 ≡ m e3
  kept3 = store_ne m e4 _ e3 (λ e. different.0 (sym e))

  kept2 : m3 e2 ≡ m e2
  kept2 =
      store_ne m4 e3 _ e2 (λ e. different.3 (sym e)) ∙ store_ne m e4 _ e2 (λ e. different.1 (sym e))

  level4 : l.level p4 ≡ 3
  level4 = chain.levels.0

  level3 : l.level p3 ≡ 2
  level3 = chain.levels.1

  level2 : l.level p2 ≡ 1
  level2 = chain.levels.2

  level1 : l.level p1 ≡ 0
  level1 = chain.levels.3

  -- The links of levels 2 and 1 while the entries above them change.
  link3 : Link l m4 p3 (index 2 virt) 1
  link3 =
      later m p3 (index 2 virt) 1 p4 (index 3 virt) (entry_after (m e4) flags) level3 (omega arith)
        (index-lt 2 virt) (index-lt 3 virt) (omega (arith, level4)) (omega (arith, level4))
        chain.link3

  link2 : Link l m3 p2 (index 1 virt) 0
  link2 =
      later m4 p2 (index 1 virt) 0 p3 (index 2 virt) (entry_after (m e3) flags) level2 (omega arith)
        (index-lt 1 virt) (index-lt 2 virt) (omega (arith, level3)) (omega (arith, level3))
        (later m p2 (index 1 virt) 0 p4 (index 3 virt) (entry_after (m e4) flags) level2
          (omega arith) (index-lt 1 virt) (index-lt 3 virt) (omega (arith, level4))
          (omega (arith, level4)) chain.link2)

  tree4 : IsTree l p4 used m4
  tree4 =
      IsTree-link l p4 used m m4 p4 (index 3 virt) 2 tree level4 (omega arith) (index-lt 3 virt)
        (stored m e4 _) chain.link4 (set_on m e4 (m e4)) (set_leads m e4 (m e4) refl)

  tree3 : IsTree l p4 used m3
  tree3 =
      IsTree-link l p4 used m4 m3 p3 (index 2 virt) 1 tree4 level3 (omega arith) (index-lt 2 virt)
        (stored m4 e3 _) link3 (set_on m4 e3 (m e3)) (set_leads m4 e3 (m e3) kept3)

  tree2 : IsTree l p4 used m2
  tree2 =
      IsTree-link l p4 used m3 m2 p2 (index 1 virt) 0 tree3 level2 (omega arith) (index-lt 1 virt)
        (stored m3 e2 _) link2 (set_on m3 e2 (m e2)) (set_leads m3 e2 (m e2) kept2)

  -- The flags change no walk.
  walk-flags : (v : ℕ) → walk 3 m2 p4 v ≡ walk 3 m p4 v
  walk-flags v =
      walk-Keeps l p4 used m3 m2 tree3
        (Keeps-link l p4 used m3 m2 p2 (index 1 virt) 0 tree3 level2 (omega arith) (index-lt 1 virt)
          (stored m3 e2 _) link2 (set_on m3 e2 (m e2)) (set_leads m3 e2 (m e2) kept2))
        3 p4 v level4 (omega arith)
      ∙ walk-Keeps l p4 used m4 m3 tree4
          (Keeps-link l p4 used m4 m3 p3 (index 2 virt) 1 tree4 level3 (omega arith)
            (index-lt 2 virt) (stored m4 e3 _) link3 (set_on m4 e3 (m e3))
            (set_leads m4 e3 (m e3) kept3))
          3 p4 v level4 (omega arith)
      ∙ walk-Keeps l p4 used m m4 tree
          (Keeps-link l p4 used m m4 p4 (index 3 virt) 2 tree level4 (omega arith) (index-lt 3 virt)
            (stored m e4 _) chain.link4 (set_on m e4 (m e4)) (set_leads m e4 (m e4) refl))
          3 p4 v level4 (omega arith)

  -- The leaf is the last change.
  leaf_only : SameElsewhere l e1 m2 m'
  leaf_only t i ht hi ne =
      ground (arith, joined.elsewhere t i ht hi, joined.at4, joined.at3, joined.at2, different)

  pub IsTree-joined : IsTree l p4 used m'
  IsTree-joined =
      IsTree-set l p4 used m2 m' p1 (index 0 virt) 0 tree2 level1 (omega arith) (index-lt 0 virt)
        leaf_only (λ k e. absurd (omega arith))

  -- The walks for other pages end where they ended.
  pub walk-joined_other :
      (v : ℕ) → page_number v ≢ page_number virt → walk 3 m' p4 v ≡ walk 3 m p4 v
  walk-joined_other v ne =
      walk-other l p4 used m2 m' tree2 p1 virt level1 chain.prefix leaf_only 3 p4 v ne level4
        (omega arith) tree.top.1
      ∙ walk-flags v

  -- The walk for the page ends at the leaf.
  pub walk-joined : has w page_p_bit ≡ true → walk 3 m' p4 virt ≡ some w
  walk-joined on =
      let present : (e v : ℕ) → m' e ≡ entry_after v flags → has (m' e) page_p_bit ≡ true =
        λ e v at. ap (λ (x : ℕ). has x page_p_bit) at ∙ entry_after-present v flags odd in
      let leads : (e v p : ℕ) → m' e ≡ entry_after v flags → target v ≡ p → target (m' e) ≡ p =
        λ e v p at to. ap target at ∙ target-entry_after v flags odd ∙ to in
      walk-found m' p4 p3 p2 p1 virt (present e4 _ joined.at4) (present e3 _ joined.at3)
        (present e2 _ joined.at2) (ap (λ (x : ℕ). has x page_p_bit) joined.at1 ∙ on)
        (leads e4 _ p3 joined.at4 chain.lead4) (leads e3 _ p2 joined.at3 chain.lead3)
        (leads e2 _ p1 joined.at2 chain.lead2)
      ∙ ap some joined.at1
