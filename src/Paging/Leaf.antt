-- ===== src/Paging/Leaf.antt =====
-- A new leaf entry in page tables: what the walk for its page finds, and what all others find.
use beaveros.Base.{
  ℕ, zero, suc, ◌+◌, ◌*◌, ◌<◌, ◌≡◌, ◌≢◌, ◌∙◌, sym, ap, refl, arith, Bool, true, false, Option, none,
  some, if-true, if-false, if◌then◌else◌,
}
use beaveros.Base.Memory.{Memory}
use beaveros.Kernel.Mapper.{has, page_p_bit}
use beaveros.Kernel.Mapper.Tables.{target}
use beaveros.Paging.{index, index-lt, path, path-suc, page_number, page_number-path, walk}
use beaveros.Paging.Layout.{Layout, IsTree, slot_unique}
use beaveros.Paging.Steps.{SameElsewhere}
use beaveros.Paging.Kept.{present_or}

module _ (l : Layout) (root used : ℕ) (m m' : Memory) (tree : IsTree l root used m) (p1 virt : ℕ)
    (at : l.level p1 ≡ 0) (here : l.prefix p1 ≡ path 0 virt)
    (elsewhere : SameElsewhere l (p1 + 8 * index 0 virt) m m') where
  -- The entry for another page is another one.
  other_slot :
      (t k v : ℕ)
      → page_number v ≢ page_number virt
      → l.level t ≡ k
      → k < 4
      → l.prefix t ≡ path k v
      → t + 8 * index k v ≢ p1 + 8 * index 0 virt
  other_slot t k v ne level_t small prefix_t e =
      let (same_t, same_i) =
        slot_unique t (index k v) p1 (index 0 virt) (tree.inside t (omega arith)).0
          (tree.inside p1 (omega arith)).0 (index-lt k v) (index-lt 0 virt) e in
      let level_0 : k ≡ 0 = sym level_t ∙ ap l.level same_t ∙ at in
      let paths : path k v ≡ path 0 virt = sym prefix_t ∙ ap l.prefix same_t ∙ here in
      absurd (ne (same_page k v level_0 paths same_i))
    where
      same_page :
          (k v : ℕ)
          → k ≡ 0
          → path k v ≡ path 0 virt
          → index k v ≡ index 0 virt
          → page_number v ≡ page_number virt
      same_page zero v z p i = omega (arith, page_number-path v, page_number-path virt)
      same_page (suc k) v z p i = absurd (omega arith)

  -- The walks for the other pages end where they ended.
  pub walk-other :
      (k t v : ℕ)
      → page_number v ≢ page_number virt
      → l.level t ≡ k
      → k < 4
      → l.prefix t ≡ path k v
      → walk k m' t v ≡ walk k m t v
  unfolding walk
  walk-other zero t v ne level_t small prefix_t =
      ap (λ (w : ℕ). if has w page_p_bit then some w else none)
        (elsewhere t (index 0 v) (omega arith) (index-lt 0 v)
          (other_slot t 0 v ne level_t small prefix_t))
  walk-other (suc k) t v ne level_t small prefix_t =
      let i = index (suc k) v in
      let w = m (t + 8 * i) in
      let e =
        elsewhere t i (omega arith) (index-lt (suc k) v)
          (other_slot t (suc k) v ne level_t small prefix_t) in
      ap (λ (x : ℕ). if has x page_p_bit then walk k m' (target x) v else none) e
      ∙ present_or (has w page_p_bit) (has w page_p_bit) _ _ refl (λ on.
        let (level_c, prefix_c) = tree.child t i k level_t small (index-lt (suc k) v) on in
        walk-other k (target w) v ne level_c (omega arith)
          (prefix_c ∙ ap (λ (x : ℕ). x * 512 + i) prefix_t ∙ sym (path-suc k v small)))

-- A walk over four present entries.
pub walk-found :
    (m : Memory) (p4 p3 p2 p1 virt : ℕ)
    → has (m (p4 + 8 * index 3 virt)) page_p_bit ≡ true
    → has (m (p3 + 8 * index 2 virt)) page_p_bit ≡ true
    → has (m (p2 + 8 * index 1 virt)) page_p_bit ≡ true
    → has (m (p1 + 8 * index 0 virt)) page_p_bit ≡ true
    → target (m (p4 + 8 * index 3 virt)) ≡ p3
    → target (m (p3 + 8 * index 2 virt)) ≡ p2
    → target (m (p2 + 8 * index 1 virt)) ≡ p1
    → walk 3 m p4 virt ≡ some (m (p1 + 8 * index 0 virt))
unfolding walk
walk-found m p4 p3 p2 p1 virt h4 h3 h2 h1 e4 e3 e2 =
    if-true _ _ _ h4
    ∙ ap (λ (t : ℕ). walk 2 m t virt) e4
    ∙ if-true _ _ _ h3
    ∙ ap (λ (t : ℕ). walk 1 m t virt) e3
    ∙ if-true _ _ _ h2
    ∙ ap (λ (t : ℕ). walk 0 m t virt) e2
    ∙ if-true _ _ _ h1

none-either : (b : Bool) (x : Option ℕ) → x ≡ none → (if b then x else none) ≡ none
none-either true x e = e
none-either false x e = refl

-- A walk to an entry that is not present.
pub walk-missing :
    (m : Memory) (p4 p3 p2 p1 virt : ℕ)
    → target (m (p4 + 8 * index 3 virt)) ≡ p3
    → target (m (p3 + 8 * index 2 virt)) ≡ p2
    → target (m (p2 + 8 * index 1 virt)) ≡ p1
    → has (m (p1 + 8 * index 0 virt)) page_p_bit ≡ false
    → walk 3 m p4 virt ≡ none
unfolding walk
walk-missing m p4 p3 p2 p1 virt e4 e3 e2 off = none-either _ _ (
    ap (λ (t : ℕ). walk 2 m t virt) e4
    ∙ none-either _ _ (
        ap (λ (t : ℕ). walk 1 m t virt) e3
        ∙ none-either _ _ (ap (λ (t : ℕ). walk 0 m t virt) e2 ∙ if-false _ _ _ off)))
