-- ===== src/Paging/Kept.antt =====
-- Changes of page tables that no walk notices.
use mathlib.Core.Path.{subst}
use beaveros.Base.{
  ℕ, zero, suc, ◌+◌, ◌*◌, ◌<◌, ◌≡◌, ◌≢◌, ◌∙◌, sym, ap, refl, arith, Bool, true, false, none, some,
  if-false, if◌then◌else◌, Option,
}
use beaveros.Base.Memory.{Memory}
use beaveros.Kernel.Mapper.{has, page_p_bit}
use beaveros.Kernel.Mapper.Tables.{target}
use beaveros.Paging.{index, index-lt, walk}
use beaveros.Paging.Layout.{Layout, IsTree, IsBlank}

-- An entry stays, or leads where it led, or is missing still, or leads from now on to a table
-- without present entries.
pub data Keeps (m m' : Memory) (level a : ℕ) : Type 0 where
  same : m' a ≡ m a → Keeps m m' level a
  same_target :
      level ≢ 0
      → has (m' a) page_p_bit ≡ has (m a) page_p_bit
      → target (m' a) ≡ target (m a)
      → Keeps m m' level a
  still_missing : has (m a) page_p_bit ≡ false → has (m' a) page_p_bit ≡ false → Keeps m m' level a
  blank_child :
      level ≢ 0 → has (m a) page_p_bit ≡ false → IsBlank m' (target (m' a)) → Keeps m m' level a

-- Nothing is found from a blank table.
pub walk-IsBlank : (k : ℕ) (m : Memory) (t virt : ℕ) → IsBlank m t → walk k m t virt ≡ none
unfolding walk
walk-IsBlank zero m t virt blank = if-false _ _ _ (blank (index 0 virt) (index-lt 0 virt))
walk-IsBlank (suc k) m t virt blank =
    if-false _ _ _ (blank (index (suc k) virt) (index-lt (suc k) virt))

pub present_or :
    (b c : Bool) (x y : Option ℕ)
    → b ≡ c
    → (c ≡ true → x ≡ y)
    → (if b then x else none) ≡ (if c then y else none)
present_or true true x y e h = h refl
present_or false false x y e h = refl
present_or true false x y e h = absurd (ground arith)
present_or false true x y e h = absurd (ground arith)

if-none : (b : Bool) (x : Option ℕ) → x ≡ none → (if b then x else none) ≡ none
if-none true x e = e
if-none false x e = refl

-- One step of the walk, at level 0 and above.
kept_leaf :
    (m m' : Memory) (a : ℕ)
    → Keeps m m' 0 a
    → (if has (m' a) page_p_bit then some (m' a) else none)
      ≡ (if has (m a) page_p_bit then some (m a) else none)
kept_leaf m m' a (same e) = ap (λ (w : ℕ). if has w page_p_bit then some w else none) e
kept_leaf m m' a (same_target ne p q) = absurd (ne refl)
kept_leaf m m' a (still_missing p q) = if-false _ _ _ q ∙ sym (if-false _ _ _ p)
kept_leaf m m' a (blank_child ne p q) = absurd (ne refl)

kept_step :
    (k : ℕ) (m m' : Memory) (a virt : ℕ)
    → Keeps m m' (suc k) a
    → (has (m a) page_p_bit ≡ true → walk k m' (target (m a)) virt ≡ walk k m (target (m a)) virt)
    → (if has (m' a) page_p_bit then walk k m' (target (m' a)) virt else none)
      ≡ (if has (m a) page_p_bit then walk k m (target (m a)) virt else none)
kept_step k m m' a virt (same e) below =
    ap (λ (w : ℕ). if has w page_p_bit then walk k m' (target w) virt else none) e
    ∙ present_or (has (m a) page_p_bit) (has (m a) page_p_bit) _ _ refl below
kept_step k m m' a virt (same_target ne p q) below =
    present_or _ _ _ _ p (λ on. ap (λ (c : ℕ). walk k m' c virt) q ∙ below on)
kept_step k m m' a virt (still_missing p q) below = if-false _ _ _ q ∙ sym (if-false _ _ _ p)
kept_step k m m' a virt (blank_child ne p q) below =
    if-none _ _ (walk-IsBlank k m' (target (m' a)) virt q) ∙ sym (if-false _ _ _ p)

module _ (l : Layout) (root used : ℕ) (m m' : Memory) (tree : IsTree l root used m)
    (keeps : (t i : ℕ) → l.level t < 4 → i < 512 → Keeps m m' (l.level t) (t + 8 * i)) where
  pub walk-Keeps : (k t virt : ℕ) → l.level t ≡ k → k < 4 → walk k m' t virt ≡ walk k m t virt
  unfolding walk
  walk-Keeps zero t virt at h = kept_leaf m m' (t + 8 * index 0 virt) (
      subst (λ (n : ℕ). Keeps m m' n (t + 8 * index 0 virt)) at
        (keeps t (index 0 virt) (omega arith) (index-lt 0 virt)))
  walk-Keeps (suc k) t virt at h =
      let i = index (suc k) virt in
      kept_step k m m' (t + 8 * i) virt
        (subst (λ (n : ℕ). Keeps m m' n (t + 8 * i)) at
          (keeps t i (omega arith) (index-lt (suc k) virt)))
        (λ on.
          walk-Keeps k (target (m (t + 8 * i))) virt
            (tree.child t i k at h (index-lt (suc k) virt) on).0 (omega arith))
