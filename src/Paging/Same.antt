-- ===== src/Paging/Same.antt =====
-- Walks that share their path.
use beaveros.Base.{
  ℕ, zero, suc, ◌+◌, ◌*◌, ◌<◌, ◌≡◌, ◌∙◌, sym, ap, arith, true, inl, inr, Bool-cases, if◌then◌else◌,
  if-true, if-false, none, some,
}
use beaveros.Base.Memory.{Memory}
use beaveros.Kernel.Mapper.{has, page_p_bit}
use beaveros.Kernel.Mapper.Tables.{target}
use beaveros.Paging.{index, index-lt, path, page_number, page_number-path, walk}
use beaveros.Paging.Kept.{present_or}

-- A walk that finds an entry went through a present one.
pub walk-present :
    (k : ℕ) (m : Memory) (t virt w : ℕ)
    → walk (suc k) m t virt ≡ some w
    → (has (m (t + 8 * index (suc k) virt)) page_p_bit ≡ true)
      × (walk k m (target (m (t + 8 * index (suc k) virt))) virt ≡ some w)
unfolding walk
walk-present k m t virt w found =
    elim (Bool-cases (has (m (t + 8 * index (suc k) virt)) page_p_bit)) [
      | inl on ↦ (on, sym (if-true _ _ _ on) ∙ found)
      | inr off ↦
          let missing : none ≡ some w = sym (if-false _ _ _ off) ∙ found in absurd (ground arith)
    ]

-- Addresses under the same lowest table have the same indices above it.
pub same_path :
    (v virt : ℕ)
    → path 0 v ≡ path 0 virt
    → (index 3 v ≡ index 3 virt) × (index 2 v ≡ index 2 virt) × (index 1 v ≡ index 1 virt)
same_path v virt e =
    let a3 = index-lt 3 v in
    let a2 = index-lt 2 v in
    let a1 = index-lt 1 v in
    let b3 = index-lt 3 virt in
    let b2 = index-lt 2 virt in let b1 = index-lt 1 virt in (omega arith, omega arith, omega arith)

-- The walk reads the address by its indices.
walk-index :
    (k : ℕ) (m : Memory) (t v virt : ℕ)
    → ((j : ℕ) → j < suc k → index j v ≡ index j virt)
    → walk k m t v ≡ walk k m t virt
unfolding walk
walk-index zero m t v virt e =
    ap (λ (i : ℕ). if has (m (t + 8 * i)) page_p_bit then some (m (t + 8 * i)) else none)
      (e 0 (omega arith))
walk-index (suc k) m t v virt e =
    present_or _ _ _ _ (ap (λ (i : ℕ). has (m (t + 8 * i)) page_p_bit) (e (suc k) (omega arith)))
      (λ on.
        walk-index k m (target (m (t + 8 * index (suc k) v))) v virt (λ j h. e j (omega arith))
        ∙ ap (λ (i : ℕ). walk k m (target (m (t + 8 * i))) virt) (e (suc k) (omega arith)))

-- The walk is that of the page.
pub walk-page :
    (m : Memory) (p v virt : ℕ) → page_number v ≡ page_number virt → walk 3 m p v ≡ walk 3 m p virt
walk-page m p v virt e =
    let a = page_number-path v in
    let b = page_number-path virt in
    let c0 = index-lt 0 v in
    let d0 = index-lt 0 virt in
    let same = same_path v virt (omega arith) in walk-index 3 m p v virt (pick same (omega arith))
  where
    pick :
        (index 3 v ≡ index 3 virt) × (index 2 v ≡ index 2 virt) × (index 1 v ≡ index 1 virt)
        → index 0 v ≡ index 0 virt
        → (j : ℕ) → j < 4
        → index j v ≡ index j virt
    pick same e0 zero h = e0
    pick same e0 (suc zero) h = same.2
    pick same e0 (suc (suc zero)) h = same.1
    pick same e0 (suc (suc (suc zero))) h = same.0
    pick same e0 (suc (suc (suc (suc j)))) h = absurd (omega arith)
