-- ===== src/Paging.antt =====
-- The page tables of the processor, which src/memory/mapper.c and src/loader/paging.c build: four
-- levels of tables of 512 entries, numbered from 3, the root, to 0. A memory is read here by
-- entries, at their addresses.
pub mod Layout
pub mod Kept
pub mod Same
pub mod Steps
pub mod Leaf
pub mod Link
pub mod Join
use beaveros.Base.{
  ℕ, zero, suc, ◌+◌, ◌*◌, ◌/◌, ◌%◌, ◌^◌, ◌<◌, ◌≡◌, ◌∙◌, refl, arith, Option, none, some,
  if◌then◌else◌, bit_and,
}
use beaveros.Base.Memory.{Memory}
use beaveros.Base.Bits.{bit_and-mask}
use beaveros.Kernel.Mapper.{bits, has, page_p_bit}
use beaveros.Kernel.Mapper.Tables.{target}

-- The index of an address in the tables of a level.
abbrev pub index : (level virt : ℕ) → ℕ
index zero virt = bits virt 12 21
index (suc zero) virt = bits virt 21 30
index (suc (suc zero)) virt = bits virt 30 39
index (suc (suc (suc k))) virt = bits virt 39 48

pub index-lt : (level virt : ℕ) → index level virt < 512
index-lt zero virt = omega (arith, bit_and-mask 9 (virt / 2 ^ 12))
index-lt (suc zero) virt = omega (arith, bit_and-mask 9 (virt / 2 ^ 21))
index-lt (suc (suc zero)) virt = omega (arith, bit_and-mask 9 (virt / 2 ^ 30))
index-lt (suc (suc (suc k))) virt = omega (arith, bit_and-mask 9 (virt / 2 ^ 39))

-- The indices above a level, as one number: it tells the tables of the level apart.
abbrev pub path : (level virt : ℕ) → ℕ
path zero virt = (bits virt 39 48 * 512 + bits virt 30 39) * 512 + bits virt 21 30
path (suc zero) virt = bits virt 39 48 * 512 + bits virt 30 39
path (suc (suc zero)) virt = bits virt 39 48
path (suc (suc (suc k))) virt = 0

pub path-suc : (k virt : ℕ) → suc k < 4 → path k virt ≡ path (suc k) virt * 512 + index (suc k) virt
path-suc zero virt h = refl
path-suc (suc zero) virt h = refl
path-suc (suc (suc zero)) virt h = omega arith
path-suc (suc (suc (suc k))) virt h = absurd (omega arith)

-- The page that an address lies in.
abbrev pub page_number : ℕ → ℕ
page_number virt = virt / 2 ^ 12 % 2 ^ 36

pub page_number-path : (virt : ℕ) → page_number virt ≡ path 0 virt * 512 + index 0 virt
page_number-path virt = omega (
  arith,
  bit_and-mask 9 (virt / 2 ^ 12),
  bit_and-mask 9 (virt / 2 ^ 21),
  bit_and-mask 9 (virt / 2 ^ 30),
  bit_and-mask 9 (virt / 2 ^ 39),
)

-- The entry for the page of an address that the walk from a table of a level ends at, if every
-- entry on the way is present.
unfoldable pub walk : (level : ℕ) → Memory → (table virt : ℕ) → Option ℕ
walk zero m table virt =
    let e = m (table + 8 * index 0 virt) in if has e page_p_bit then some e else none
walk (suc k) m table virt =
    let e = m (table + 8 * index (suc k) virt) in
    let rest = walk k m (target e) virt in if has e page_p_bit then rest else none
