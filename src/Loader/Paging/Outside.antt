-- ===== src/Loader/Paging/Outside.antt =====
-- Writes of the loader outside its page tables, and new pages that are no tables.
use beaveros.Base.{ℕ, ◌+◌, ◌*◌, ◌<◌, ◌≤◌, ◌≡◌, ◌∙◌, sym, ap, arith, true}
use mathlib.Core.Path.{subst}
use beaveros.Base.Bytes.{IsBytes, load-same}
use beaveros.Kernel.Mapper.{has, page_p_bit}
use beaveros.Kernel.Mapper.Tables.{target}
use beaveros.Paging.{walk}
use beaveros.Paging.Layout.{Layout, IsTree, page_of}
use beaveros.Paging.Kept.{same, walk-Keeps}
use beaveros.Paging.Steps.{LeadsDown}
use beaveros.Loader.Paging.{Loader, entry_at}
use beaveros.Loader.Paging.Open.{IsSpace}

module _ (l : Layout) (s s' : Loader) (space : IsSpace l s) (root : s'.pml4 ≡ s.pml4)
    (used : s.used_memory ≤ s'.used_memory) (bytes : IsBytes s'.memory)
    (kept : (a : ℕ) → l.level (page_of a) < 4 → s'.memory a ≡ s.memory a) where
  outside-entry :
      (t i : ℕ) → l.level t < 4 → i < 512 → entry_at s' (t + 8 * i) ≡ entry_at s (t + 8 * i)
  outside-entry t i ht hi =
      let (aligned, end) = space.tree.inside t ht in
      load-same 8 s.memory s'.memory (t + 8 * i) (λ b lo hi'.
        let at : page_of b ≡ t = omega arith in
        kept b (subst (λ (x : ℕ). l.level x < 4) (sym at) ht))

  outside-IsTree : IsTree l s.pml4 s'.used_memory (entry_at s')
  outside-IsTree = record {
    top = space.tree.top;
    inside = λ t h. let (aligned, end) = space.tree.inside t h in (aligned, omega arith);
    child = λ t i k at small hi on.
        let e = outside-entry t i (omega arith) hi in
        subst (λ (w : ℕ). LeadsDown l t i k (target w)) (sym e)
          (space.tree.child t i k at small hi (subst (λ (w : ℕ). has w page_p_bit ≡ true) e on));
  }

  pub IsSpace-outside : IsSpace l s'
  IsSpace-outside = record {
    tree = subst (λ (x : ℕ). IsTree l x s'.used_memory (entry_at s')) (sym root) outside-IsTree;
    bytes = bytes;
  }

  pub walk-outside : (v : ℕ) → walk 3 (entry_at s') s'.pml4 v ≡ walk 3 (entry_at s) s.pml4 v
  walk-outside v =
      ap (λ (x : ℕ). walk 3 (entry_at s') x v) root
      ∙ walk-Keeps l s.pml4 s.used_memory (entry_at s) (entry_at s') space.tree
          (λ t i ht hi. same (outside-entry t i ht hi)) 3 s.pml4 v space.tree.top.0 (omega arith)
