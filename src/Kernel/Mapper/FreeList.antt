-- ===== src/Kernel/Mapper/FreeList.antt =====
-- What the free list of src/memory/mapper.c stands for: the pages that are free, in the order in
-- which they are handed out.
use beaveros.Base.{
  ℕ, zero, suc, ◌+◌, ◌*◌, ◌%◌, ◌^◌, ◌<◌, ◌≤◌, ◌≡◌, ◌≢◌, ◌⊎◌, arith, List, [], ◌∷◌, ◌++◌,
}
use beaveros.Base.Memory.{Memory}
use beaveros.Kernel.Mapper.{Mapper}

-- First page and number of pages of each free block.
abbrev pub Blocks : Type 0
Blocks = List (ℕ × ℕ)

abbrev pub first_block : Blocks → ℕ
first_block [] = 0
first_block ((s, n) ∷ bs) = s

-- The block of `n` pages at `s` meets none of the blocks.
abbrev pub Apart : ℕ → ℕ → Blocks → Type 0
Apart s n [] = Unit {0}
Apart s n ((t, k) ∷ bs) = ((s + 4096 * n ≤ t) ⊎ (t + 4096 * k ≤ s)) × Apart s n bs

abbrev pub IsBlock : ℕ → ℕ → Type 0
IsBlock s n = (s ≢ 0) × (s % 4096 ≡ 0) × (0 < n) × (s + 4096 * n ≤ 2 ^ 52)

-- The headers in the memory link the blocks, which do not overlap.
abbrev pub AreFree : Memory → Blocks → Type 0
AreFree mem [] = Unit {0}
AreFree mem ((s, n) ∷ bs) =
    IsBlock s n × (mem s ≡ n) × (mem (s + 8) ≡ first_block bs) × Apart s n bs × AreFree mem bs

pub record FreeList (m : Mapper) (bs : Blocks) : Type 0 where
  pub starts : m.first_free_block ≡ first_block bs
  pub linked : AreFree m.memory bs

-- The pages of a block, and of all blocks.
abbrev pub block_pages : ℕ → ℕ → List ℕ
block_pages s zero = []
block_pages s (suc n) = s ∷ block_pages (s + 4096) n

abbrev pub free_pages : Blocks → List ℕ
free_pages [] = []
free_pages ((s, n) ∷ bs) = block_pages s n ++ free_pages bs

-- A change inside a block leaves the headers of those that it does not meet.
pub AreFree-frame :
    (mem mem' : Memory) (s n : ℕ) (bs : Blocks)
    → Apart s n bs
    → ((a : ℕ) → (a < s) ⊎ (s + 4096 * n ≤ a) → mem' a ≡ mem a)
    → AreFree mem bs
    → AreFree mem' bs
AreFree-frame mem mem' s n [] apart same free = tt
AreFree-frame mem mem' s n ((t, k) ∷ bs) apart same (block, size, next, others, free) = (
  block,
  ground (arith, same t),
  ground (arith, same (t + 8)),
  others,
  AreFree-frame mem mem' s n bs apart.1 same free,
)

-- A part of a block meets no more than the block.
pub Apart-part :
    (s n t k : ℕ) (bs : Blocks) → s ≤ t → t + 4096 * k ≤ s + 4096 * n → Apart s n bs → Apart t k bs
Apart-part s n t k [] p q apart = tt
Apart-part s n t k ((u, j) ∷ bs) p q apart = (omega arith, Apart-part s n t k bs p q apart.1)
