-- ===== src/Paging/Steps.antt =====
-- The steps that build page tables: a new table, an entry that leads to a table, and a leaf entry.
use mathlib.Core.Path.{subst}
use native.Mathlib.Decide.{ℕ_discrete}
use beaveros.Base.{ℕ, suc, ◌+◌, ◌*◌, ◌%◌, ◌<◌, ◌≡◌, ◌≢◌, ◌∙◌, sym, ap, arith, Bool, true, false}
use beaveros.Base.Memory.{Memory, store, store_ne}
use beaveros.Kernel.Mapper.{has, page_p_bit}
use beaveros.Kernel.Mapper.Tables.{target}
use beaveros.Paging.Layout.{Layout, IsTree, IsBlank, slot_unique}

-- The entries of the tables are the same but for the one at `e`.
abbrev pub SameElsewhere : Layout → (e : ℕ) → Memory → Memory → Type 0
SameElsewhere l e m m' =
    (t i : ℕ) → l.level t < 4 → i < 512 → t + 8 * i ≢ e → m' (t + 8 * i) ≡ m (t + 8 * i)

-- Where an entry of a table leads to, as a tree wants it.
abbrev pub LeadsDown : Layout → (t i k c : ℕ) → Type 0
LeadsDown l t i k c = (l.level c ≡ k) × (l.prefix c ≡ l.prefix t * 512 + i)

moved :
    (l : Layout) (m : Memory) (k t u i j : ℕ)
    → t ≡ u
    → i ≡ j
    → LeadsDown l t i k (target (m (t + 8 * i)))
    → LeadsDown l u j k (target (m (u + 8 * j)))
moved l m k t u i j p q h =
    subst (λ (x : ℕ). LeadsDown l u x k (target (m (u + 8 * x)))) q
      (subst (λ (x : ℕ). LeadsDown l x i k (target (m (x + 8 * i)))) p h)

not_both : (b : Bool) → b ≡ true → b ≡ false → ⊥
not_both true p q = absurd (ground arith)
not_both false p q = absurd (ground arith)

-- A changed entry that leads down, or that lies in a table of level 0, keeps the tree.
pub IsTree-set :
    (l : Layout) (root used : ℕ) (m m' : Memory) (t i n : ℕ)
    → IsTree l root used m
    → l.level t ≡ n
    → n < 4
    → i < 512
    → SameElsewhere l (t + 8 * i) m m'
    → ((k : ℕ) → n ≡ suc k → LeadsDown l t i k (target (m' (t + 8 * i))))
    → IsTree l root used m'
IsTree-set l root used m m' t i n tree at small hi elsewhere down = record {
  top = tree.top;
  inside = tree.inside;
  child = λ u j k level_u hk hj on. elim (ℕ_discrete (u + 8 * j) (t + 8 * i)) [
    | yes here ↦
        let (same_t, same_i) =
          slot_unique u j t i (tree.inside u (omega arith)).0 (tree.inside t (omega arith)).0 hj hi
            here in
        let level_t : n ≡ suc k = sym at ∙ ap l.level (sym same_t) ∙ level_u in
        moved l m' k t u i j (sym same_t) (sym same_i) (down k level_t)
    | no other ↦
        let e = elsewhere u j (omega arith) hj other in
        subst (λ (w : ℕ). LeadsDown l u j k (target w)) (sym e)
          (tree.child u j k level_u hk hj (subst (λ (w : ℕ). has w page_p_bit ≡ true) e on))
  ];
}

-- One more table.
abbrev pub add_table : Layout → (u k p : ℕ) → Layout
add_table l u k p = record { level = store l.level u k; prefix = store l.prefix u p }

module _ (l : Layout) (root u : ℕ) (m m' : Memory) (tree : IsTree l root u m) (k p : ℕ)
    (page : u % 4096 ≡ 0) where
  -- A new page is no table, and the tables there were stay what they are.
  pub new_page : (t : ℕ) → l.level t < 4 → t ≢ u
  new_page t h at = let end = (tree.inside t h).1 in absurd (omega arith)

  pub old_level : (t : ℕ) → l.level t < 4 → (add_table l u k p).level t ≡ l.level t
  old_level t h = store_ne l.level u k t (new_page t h)

  pub old_prefix : (t : ℕ) → l.level t < 4 → (add_table l u k p).prefix t ≡ l.prefix t
  old_prefix t h = store_ne l.prefix u p t (new_page t h)

  -- A blank table more, and present entries only where they were.
  pub IsTree-grow :
      k < 4
      → IsBlank m' u
      → ((t i : ℕ)
          → l.level t < 4
          → i < 512
          → has (m' (t + 8 * i)) page_p_bit ≡ true
          → m' (t + 8 * i) ≡ m (t + 8 * i))
      → IsTree (add_table l u k p) root (u + 4096) m'
  IsTree-grow small blank old = record {
    top = (
      old_level root (omega (arith, tree.top)) ∙ tree.top.0,
      old_prefix root (omega (arith, tree.top)) ∙ tree.top.1,
    );
    inside = λ t h. elim (ℕ_discrete t u) [
      | yes new ↦ omega arith
      | no other ↦
          let kept = store_ne l.level u k t other in
          let (aligned, end) = tree.inside t (omega arith) in (aligned, omega arith)
    ];
    child = λ t i j level_t hj hi on. elim (ℕ_discrete t u) [
      | yes new ↦ absurd (
          not_both _ on
            (subst (λ (x : ℕ). has (m' (x + 8 * i)) page_p_bit ≡ false) (sym new) (blank i hi)))
      | no other ↦
          let level_old = sym (store_ne l.level u k t other) ∙ level_t in
          let e = old t i (omega arith) hi on in
          let (level_c, prefix_c) =
            tree.child t i j level_old hj hi (subst (λ (w : ℕ). has w page_p_bit ≡ true) e on) in
          let c = target (m (t + 8 * i)) in
          let table_c : l.level c < 4 = omega arith in
          subst (λ (w : ℕ). LeadsDown (add_table l u k p) t i j (target w)) (sym e)
            (
              old_level c table_c ∙ level_c,
              old_prefix c table_c
                  ∙ prefix_c
                  ∙ ap (λ (x : ℕ). x * 512 + i) (sym (store_ne l.prefix u p t other)),
            )
    ];
  }
