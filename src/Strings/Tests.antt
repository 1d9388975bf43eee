-- ===== src/Strings/Tests.antt =====
-- Runs of src/string.c, and its theorems at concrete memories.
use beaveros.Base.{ℕ, ◌<◌, ◌≤◌, ◌⊎◌, ◌≡◌, refl, some, arith}
use beaveros.Base.Int.{pos, negsuc}
use beaveros.Base.Memory.{Memory, store}
use beaveros.Strings.{strcmp, strchr, memmove}
use beaveros.Strings.Blocks.{memmove_overlap}

-- "AB" at 10 and "AC" at 20.
abbrev texts : Memory
texts = store (store (store (store (λ _. 0) 10 65) 11 66) 20 65) 21 67

strcmp_run : strcmp 5 texts 10 20 ≡ some (negsuc 0)
unfolding strcmp
strcmp_run = refl

strchr_run : (strchr 5 texts 10 (pos 66) ≡ some 11) × (strchr 5 texts 10 (pos 0) ≡ some 0)
unfolding strchr
strchr_run = (refl, refl)

-- A move by one cell downwards repeats the last byte: 3 bytes from 11 to 10 give 0, 0, 0.
memmove_run : memmove texts 10 11 3 10 ≡ 0
unfolding memmove
memmove_run = refl

-- "ABC" at 10: moved by one cell downwards, the "C" stands twice at 10.
abbrev letters : Memory
letters = store texts 12 67

memmove_overlap_example :
    (memmove letters 10 11 2 10 ≡ letters 12)
    × ((a : ℕ) → (a < 10) ⊎ (12 ≤ a) → memmove letters 10 11 2 a ≡ letters a)
memmove_overlap_example =
    memmove_overlap letters 10 1 2 1 0 (omega arith) (omega arith) (omega arith)
