-- ===== src/Kernel/Mapper/Walk.antt =====
-- The walk of the page tables that src/memory/mapper.c keeps.
use beaveros.Base.{ℕ, ◌+◌, ◌*◌, ◌/◌, ◌^◌, ◌<◌, ◌≡◌, ◌≢◌, arith, bit_and}
use beaveros.Base.Memory.{Memory}
use beaveros.Base.Bits.{bit_and-lt}
use beaveros.Kernel.Mapper.{bits}
use beaveros.Kernel.Mapper.Window.{IsPage}
use beaveros.Kernel.Mapper.Tables.{target}

-- The address of the entry for `virt` in a table, at each of the four levels.
abbrev pub slot4 : ℕ → ℕ → ℕ
slot4 table virt = table + 8 * bits virt 39 48

abbrev pub slot3 : ℕ → ℕ → ℕ
slot3 table virt = table + 8 * bits virt 30 39

abbrev pub slot2 : ℕ → ℕ → ℕ
slot2 table virt = table + 8 * bits virt 21 30

abbrev pub slot1 : ℕ → ℕ → ℕ
slot1 table virt = table + 8 * bits virt 12 21

pub index-lt : (x l : ℕ) → bit_and (x / 2 ^ l) 511 < 512
index-lt x l = bit_and-lt 9 (x / 2 ^ l) 511 (omega arith)

-- The four tables of a walk are different pages.
pub record Tables (p4 p3 p2 p1 : ℕ) : Type 0 where
  pub pages : IsPage p4 × IsPage p3 × IsPage p2 × IsPage p1
  pub differ4 : (p4 ≢ p3) × (p4 ≢ p2) × (p4 ≢ p1)
  pub differ3 : (p3 ≢ p2) × (p3 ≢ p1)
  pub differ2 : p2 ≢ p1

-- From the root, the entries for `virt` lead through these tables.
pub record Walk (mem : Memory) (virt p4 p3 p2 p1 : ℕ) : Type 0 where
  pub level4 : target (mem (slot4 p4 virt)) ≡ p3
  pub level3 : target (mem (slot3 p3 virt)) ≡ p2
  pub level2 : target (mem (slot2 p2 virt)) ≡ p1

pub slots-differ :
    (p q i j : ℕ) → IsPage p → IsPage q → p ≢ q → i < 512 → j < 512 → p + 8 * i ≢ q + 8 * j
slots-differ p q i j hp hq ne hi hj e = absurd (omega arith)
