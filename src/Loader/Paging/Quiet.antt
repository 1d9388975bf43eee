-- ===== src/Loader/Paging/Quiet.antt =====
-- `map_page` of src/loader/paging.c where the tables of the address are all there.
use mathlib.Core.Path.{subst}
use beaveros.Base.{ℕ, ◌+◌, ◌*◌, ◌≡◌, ◌∙◌, ap, true, some, if-true}
use beaveros.Kernel.Mapper.{has, page_p_bit}
use beaveros.Kernel.Mapper.Tables.{target}
use beaveros.Paging.{path, walk}
use beaveros.Paging.Same.{walk-present, same_path}
use beaveros.Loader.Paging.{Loader, entry_at, fill_entry}
use beaveros.Loader.Paging.Chain.{entry4, entry3, entry2}

pub fill_entry-present :
    (e : ℕ) (s : Loader) → has (entry_at s e) page_p_bit ≡ true → fill_entry e s ≡ s
unfolding fill_entry
fill_entry-present e s on = if-true _ _ (has (entry_at s e) page_p_bit) on

-- The entries above a page that a walk found.
module _ (v virt x : ℕ) (s : Loader) (found : walk 3 (entry_at s) s.pml4 v ≡ some x)
    (under : path 0 v ≡ path 0 virt) where
  abbrev m : ℕ → ℕ
  m = entry_at s

  present4 : has (m (entry4 virt s)) page_p_bit ≡ true
  present4 =
      let same = (same_path v virt under).0 in
      subst (λ (i : ℕ). has (m (s.pml4 + 8 * i)) page_p_bit ≡ true) same
        (walk-present 2 m s.pml4 v x found).0

  below4 : walk 2 m (target (m (entry4 virt s))) v ≡ some x
  below4 =
      let same = (same_path v virt under).0 in
      subst (λ (i : ℕ). walk 2 m (target (m (s.pml4 + 8 * i))) v ≡ some x) same
        (walk-present 2 m s.pml4 v x found).1

  present3 : has (m (entry3 virt s s)) page_p_bit ≡ true
  present3 =
      let same = (same_path v virt under).1 in
      let t = target (m (entry4 virt s)) in
      subst (λ (i : ℕ). has (m (t + 8 * i)) page_p_bit ≡ true) same
        (walk-present 1 m t v x below4).0

  below3 : walk 1 m (target (m (entry3 virt s s))) v ≡ some x
  below3 =
      let same = (same_path v virt under).1 in
      let t = target (m (entry4 virt s)) in
      subst (λ (i : ℕ). walk 1 m (target (m (t + 8 * i))) v ≡ some x) same
        (walk-present 1 m t v x below4).1

  present2 : has (m (entry2 virt s s s)) page_p_bit ≡ true
  present2 =
      let same = (same_path v virt under).2 in
      let t = target (m (entry3 virt s s)) in
      subst (λ (i : ℕ). has (m (t + 8 * i)) page_p_bit ≡ true) same
        (walk-present 0 m t v x below3).0

  pub fill_entries-present :
      (t1 t2 t3 : Loader)
      → t1 ≡ fill_entry (entry4 virt s) s
      → t2 ≡ fill_entry (entry3 virt s t1) t1
      → t3 ≡ fill_entry (entry2 virt s t1 t2) t2
      → t3 ≡ s
  fill_entries-present t1 t2 t3 q1 q2 q3 =
      let r1 : t1 ≡ s = q1 ∙ fill_entry-present (entry4 virt s) s present4 in
      let r2 : t2 ≡ s =
        q2
        ∙ ap (λ (t : Loader). fill_entry (entry3 virt s t) t) r1
        ∙ fill_entry-present _ s present3 in
      q3
      ∙ ap (λ (t : Loader). fill_entry (entry2 virt s t t2) t2) r1
      ∙ ap (λ (t : Loader). fill_entry (entry2 virt s s t) t) r2
      ∙ fill_entry-present _ s present2
