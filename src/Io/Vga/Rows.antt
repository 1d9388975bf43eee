-- ===== src/Io/Vga/Rows.antt =====
-- The loops of src/io/vga.c over the cells of a row and over rows of 80 cells.
use native.Mathlib.Decide.{dec_lt}
use beaveros.Base.{ℕ, zero, suc, ◌+◌, ◌*◌, ◌<◌, ◌≤◌, ◌≡◌, ◌⊎◌, inl, inr, refl, ◌∙◌, ap, arith}
use beaveros.Base.Memory.{Memory, store}
use beaveros.Io.Vga.{copy_row, fill_row, copy_rows, fill_rows}

copy_row-kept :
    (b : Memory) (to from x left a : ℕ)
    → (a < to + x) ⊎ (to + x + left ≤ a)
    → copy_row b to from x left a ≡ b a
unfolding copy_row
copy_row-kept b to from x zero a out = refl
copy_row-kept b to from x (suc left) a out =
    ground (arith, copy_row-kept (store b (to + x) (b (from + x))) to from (x + 1) left a)

-- The source is above the destination, so each cell is read before it is written.
copy_row-copied :
    (b : Memory) (to d x left a : ℕ)
    → 0 < d
    → to + x ≤ a
    → a < to + x + left
    → copy_row b to (to + d) x left a ≡ b (a + d)
unfolding copy_row
copy_row-copied b to d x zero a pos low high = absurd (omega arith)
copy_row-copied b to d x (suc left) a pos low high =
    let b' = store b (to + x) (b (to + d + x)) in
    elim (dec_lt a (to + x + 1)) [
      | yes at ↦
          let from : to + d + x ≡ a + d = omega arith in
          copy_row-kept b' to (to + d) (x + 1) left a (inl (omega arith))
          ∙ ground (arith, ap b from)
      | no later ↦
          copy_row-copied b' to d (x + 1) left a pos (omega arith) (omega arith) ∙ ground arith
    ]

fill_row-kept :
    (b : Memory) (to cell x left a : ℕ)
    → (a < to + x) ⊎ (to + x + left ≤ a)
    → fill_row b to cell x left a ≡ b a
unfolding fill_row
fill_row-kept b to cell x zero a out = refl
fill_row-kept b to cell x (suc left) a out =
    ground (arith, fill_row-kept (store b (to + x) cell) to cell (x + 1) left a)

fill_row-filled :
    (b : Memory) (to cell x left a : ℕ)
    → to + x ≤ a
    → a < to + x + left
    → fill_row b to cell x left a ≡ cell
unfolding fill_row
fill_row-filled b to cell x zero a low high = absurd (omega arith)
fill_row-filled b to cell x (suc left) a low high =
    let b' = store b (to + x) cell in
    elim (dec_lt a (to + x + 1)) [
      | yes at ↦ fill_row-kept b' to cell (x + 1) left a (inl (omega arith)) ∙ ground arith
      | no later ↦ fill_row-filled b' to cell (x + 1) left a (omega arith) (omega arith)
    ]

pub copy_rows-kept :
    (b : Memory) (y left a : ℕ)
    → (a < 80 * y) ⊎ (80 * (y + left) ≤ a)
    → copy_rows b 80 y (y + 1) left a ≡ b a
unfolding copy_rows
copy_rows-kept b y zero a out = refl
copy_rows-kept b y (suc left) a out =
    copy_rows-kept (copy_row b (80 * y) (80 * (y + 1)) 0 80) (y + 1) left a (ground arith)
    ∙ copy_row-kept b (80 * y) (80 * (y + 1)) 0 80 a (ground arith)

pub copy_rows-copied :
    (b : Memory) (y left a : ℕ)
    → 80 * y ≤ a
    → a < 80 * (y + left)
    → copy_rows b 80 y (y + 1) left a ≡ b (a + 80)
unfolding copy_rows
copy_rows-copied b y zero a low high = absurd (omega arith)
copy_rows-copied b y (suc left) a low high =
    let from : 80 * (y + 1) ≡ 80 * y + 80 = omega arith in
    let b' = copy_row b (80 * y) (80 * (y + 1)) 0 80 in
    elim (dec_lt a (80 * (y + 1))) [
      | yes here ↦
          copy_rows-kept b' (y + 1) left a (inl here)
          ∙ rw from (copy_row-copied b (80 * y) 80 0 80 a (omega arith) (omega arith) (omega arith))
      | no later ↦
          copy_rows-copied b' (y + 1) left a (omega arith) (omega arith)
          ∙ copy_row-kept b (80 * y) (80 * (y + 1)) 0 80 (a + 80) (inr (omega arith))
    ]

pub fill_rows-kept :
    (b : Memory) (cell y left a : ℕ)
    → (a < 80 * y) ⊎ (80 * (y + left) ≤ a)
    → fill_rows b 80 cell y left a ≡ b a
unfolding fill_rows
fill_rows-kept b cell y zero a out = refl
fill_rows-kept b cell y (suc left) a out =
    fill_rows-kept (fill_row b (80 * y) cell 0 80) cell (y + 1) left a (ground arith)
    ∙ fill_row-kept b (80 * y) cell 0 80 a (ground arith)

pub fill_rows-filled :
    (b : Memory) (cell y left a : ℕ)
    → 80 * y ≤ a
    → a < 80 * (y + left)
    → fill_rows b 80 cell y left a ≡ cell
unfolding fill_rows
fill_rows-filled b cell y zero a low high = absurd (omega arith)
fill_rows-filled b cell y (suc left) a low high =
    let b' = fill_row b (80 * y) cell 0 80 in
    elim (dec_lt a (80 * (y + 1))) [
      | yes here ↦
          fill_rows-kept b' cell (y + 1) left a (inl here)
          ∙ fill_row-filled b (80 * y) cell 0 80 a (omega arith) (omega arith)
      | no later ↦ fill_rows-filled b' cell (y + 1) left a (omega arith) (omega arith)
    ]
