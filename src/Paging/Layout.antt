-- ===== src/Paging/Layout.antt =====
-- What makes page tables a tree, and the slots of its entries.
use beaveros.Base.{ℕ, suc, ◌+◌, ◌*◌, ◌/◌, ◌%◌, ◌<◌, ◌≤◌, ◌≡◌, ◌≢◌, ◌⊎◌, ap, arith, true, false}
use beaveros.Base.Memory.{Memory}
use beaveros.Kernel.Mapper.{has, page_p_bit}
use beaveros.Kernel.Mapper.Tables.{target}

-- For each address the level of the table that is there, which is 4 or more if there is none, and
-- the path to it.
pub record Layout : Type 0 where
  pub level : ℕ → ℕ
  pub prefix : ℕ → ℕ

-- Every table is a page of the memory in use, and a present entry above level 0 leads to the table
-- of the level below for its index.
pub record IsTree (l : Layout) (root used : ℕ) (m : Memory) : Type 0 where
  pub top : (l.level root ≡ 3) × (l.prefix root ≡ 0)
  pub inside : (t : ℕ) → l.level t < 4 → (t % 4096 ≡ 0) × (t + 4096 ≤ used)
  pub child :
      (t i k : ℕ)
      → l.level t ≡ suc k
      → suc k < 4
      → i < 512
      → has (m (t + 8 * i)) page_p_bit ≡ true
      → (l.level (target (m (t + 8 * i))) ≡ k)
        × (l.prefix (target (m (t + 8 * i))) ≡ l.prefix t * 512 + i)

-- Different entries of the tables of a tree lie at different addresses.
pub slot_unique :
    (t i u j : ℕ)
    → t % 4096 ≡ 0
    → u % 4096 ≡ 0
    → i < 512
    → j < 512
    → t + 8 * i ≡ u + 8 * j
    → (t ≡ u) × (i ≡ j)
slot_unique t i u j ht hu hi hj e = omega arith

-- No entry of the table is present.
abbrev pub IsBlank : Memory → (table : ℕ) → Type 0
IsBlank m t = (i : ℕ) → i < 512 → has (m (t + 8 * i)) page_p_bit ≡ false

-- The page of an address.
abbrev pub page_of : ℕ → ℕ
page_of a = a / 4096 * 4096

-- An address outside the tables is not in an entry.
pub outside_tables :
    (l : Layout) (root used : ℕ) (m : Memory) (t i a : ℕ)
    → IsTree l root used m
    → l.level t < 4
    → i < 512
    → 4 ≤ l.level (page_of a)
    → (a < t + 8 * i) ⊎ (t + 8 * i + 8 ≤ a)
outside_tables l root used m t i a tree ht hi out =
    let (aligned, end) = tree.inside t ht in
    let ne : t ≢ page_of a = λ e. let same = ap l.level e in omega arith in ground arith
