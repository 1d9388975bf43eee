-- ===== src/Paging/Link.antt =====
-- Entries that lead down, present or not yet.
use mathlib.Core.Path.{subst}
use native.Mathlib.Decide.{ℕ_discrete}
use beaveros.Base.{ℕ, suc, ◌+◌, ◌*◌, ◌<◌, ◌≡◌, ◌≢◌, ◌⊎◌, ◌∙◌, sym, ap, arith, true, false, inl, inr}
use beaveros.Base.Memory.{Memory}
use beaveros.Kernel.Mapper.{has, page_p_bit}
use beaveros.Kernel.Mapper.Tables.{target}
use beaveros.Paging.Layout.{Layout, IsTree, IsBlank, slot_unique}
use beaveros.Paging.Kept.{Keeps, same, same_target, blank_child}
use beaveros.Paging.Steps.{SameElsewhere, LeadsDown, IsTree-set}

-- The entry leads to the table below; it is present, or the table is blank.
pub record Link (l : Layout) (m : Memory) (t i k : ℕ) : Type 0 where
  pub down : LeadsDown l t i k (target (m (t + 8 * i)))
  pub ready :
      (has (m (t + 8 * i)) page_p_bit ≡ true)
      ⊎ ((has (m (t + 8 * i)) page_p_bit ≡ false) × IsBlank m (target (m (t + 8 * i))))

-- The tables of a layout are those of another one too.
abbrev pub Extends : Layout → Layout → Type 0
Extends l l' = (t : ℕ) → l.level t < 4 → (l'.level t ≡ l.level t) × (l'.prefix t ≡ l.prefix t)

-- A link stays where another entry changes that does not become present in a blank table.
pub Link-kept :
    (l l' : Layout) (m m' : Memory) (t i k e : ℕ)
    → l.level t ≡ suc k
    → suc k < 4
    → i < 512
    → Extends l l'
    → SameElsewhere l e m m'
    → t + 8 * i ≢ e
    → ((j : ℕ)
        → j < 512
        → has (m (target (m (t + 8 * i)) + 8 * j)) page_p_bit ≡ false
        → target (m (t + 8 * i)) + 8 * j ≡ e
        → has (m' e) page_p_bit ≡ false)
    → Link l m t i k
    → Link l' m' t i k
Link-kept l l' m m' t i k e at small hi more elsewhere other unset link =
    let c = target (m (t + 8 * i)) in
    let (level_c, prefix_c) = link.down in
    let kept = elsewhere t i (omega arith) hi other in
    let blank : IsBlank m c → IsBlank m' c = λ b j hj. elim (ℕ_discrete (c + 8 * j) e) [
      | yes here ↦
          subst (λ (x : ℕ). has (m' x) page_p_bit ≡ false) (sym here) (unset j hj (b j hj) here)
      | no apart ↦ ap (λ (w : ℕ). has w page_p_bit) (elsewhere c j (omega arith) hj apart) ∙ b j hj
    ] in
    record {
      down =
          subst (λ (w : ℕ). LeadsDown l' t i k (target w)) (sym kept)
            (
              (more c (omega arith)).0 ∙ level_c,
              (more c (omega arith)).1
                  ∙ prefix_c
                  ∙ ap (λ (x : ℕ). x * 512 + i) (sym (more t (omega arith)).1),
            );
      ready = still link.ready kept blank;
    }
  where
    still :
        (has (m (t + 8 * i)) page_p_bit ≡ true)
          ⊎ ((has (m (t + 8 * i)) page_p_bit ≡ false) × IsBlank m (target (m (t + 8 * i))))
        → m' (t + 8 * i) ≡ m (t + 8 * i)
        → (IsBlank m (target (m (t + 8 * i))) → IsBlank m' (target (m (t + 8 * i))))
        → (has (m' (t + 8 * i)) page_p_bit ≡ true)
          ⊎ ((has (m' (t + 8 * i)) page_p_bit ≡ false) × IsBlank m' (target (m' (t + 8 * i))))
    still (inl on) kept blank = inl (ap (λ (w : ℕ). has w page_p_bit) kept ∙ on)
    still (inr (off, b)) kept blank = inr (
      ap (λ (w : ℕ). has w page_p_bit) kept ∙ off,
      subst (λ (w : ℕ). IsBlank m' (target w)) (sym kept) (blank b),
    )

-- A link that becomes present.
module _ (l : Layout) (root used : ℕ) (m m' : Memory) (t i k : ℕ) (tree : IsTree l root used m)
    (at : l.level t ≡ suc k) (small : suc k < 4) (hi : i < 512)
    (elsewhere : SameElsewhere l (t + 8 * i) m m') (link : Link l m t i k)
    (on : has (m' (t + 8 * i)) page_p_bit ≡ true)
    (leads : target (m' (t + 8 * i)) ≡ target (m (t + 8 * i))) where
  pub IsTree-link : IsTree l root used m'
  IsTree-link = IsTree-set l root used m m' t i (suc k) tree at small hi elsewhere (λ j same_level.
      subst (λ (n : ℕ). LeadsDown l t i n (target (m' (t + 8 * i)))) (omega arith)
        (subst (λ (c : ℕ). LeadsDown l t i k c) (sym leads) link.down))

  at_link :
      (has (m (t + 8 * i)) page_p_bit ≡ true)
        ⊎ ((has (m (t + 8 * i)) page_p_bit ≡ false) × IsBlank m (target (m (t + 8 * i))))
      → Keeps m m' (suc k) (t + 8 * i)
  at_link (inl before) = same_target (omega arith) (on ∙ sym before) leads
  at_link (inr (before, blank)) = blank_child (omega arith) before (
      subst (λ (c : ℕ). IsBlank m' c) (sym leads)
        (λ j hj.
          let c = target (m (t + 8 * i)) in
          let apart : c + 8 * j ≢ t + 8 * i = λ e.
            let (same_t, _) =
              slot_unique c j t i (tree.inside c (omega (arith, link.down))).0
                (tree.inside t (omega arith)).0 hj hi e in
            omega (arith, ap l.level same_t, link.down) in
          ap (λ (w : ℕ). has w page_p_bit) (elsewhere c j (omega (arith, link.down)) hj apart)
          ∙ blank j hj))

  pub Keeps-link : (u j : ℕ) → l.level u < 4 → j < 512 → Keeps m m' (l.level u) (u + 8 * j)
  Keeps-link u j hu hj = elim (ℕ_discrete (u + 8 * j) (t + 8 * i)) [
    | yes here ↦
        let (same_t, same_i) =
          slot_unique u j t i (tree.inside u hu).0 (tree.inside t (omega arith)).0 hj hi here in
        subst (λ (n : ℕ). Keeps m m' n (u + 8 * j)) (sym (ap l.level same_t ∙ at))
          (subst (λ (a : ℕ). Keeps m m' (suc k) a) (sym here) (at_link link.ready))
    | no other ↦ same (elsewhere u j hu hj other)
  ]
