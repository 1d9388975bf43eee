-- ===== src/Io/Vga/Cursor.antt =====
-- vga_putc and vga_puts of src/io/vga.c: they return, with the cursor on the screen.
use native.Mathlib.Decide.{dec_lt}
use beaveros.Base.{
  u8, u16, ◌^◌, sym, ==_iff, ℕ, zero, suc, ◌+◌, ◌-◌, ◌*◌, ◌/◌, ◌%◌, ◌<◌, ◌≤◌, ◌≡◌, ◌⊎◌, inl, inr,
  refl, ◌∙◌, arith, ltb, leb, ◌==◌, if◌then◌else◌, Bool, true, false, bit_and, ◌&&◌, ◌∷◌,
}
use beaveros.Base.Bits.{bit_and-mask}
use beaveros.Base.Memory.{Memory, store_ne}
use beaveros.Base.Run.{Returns, returns, Returns-map, Returns-bind, Returns-if}
use beaveros.Io.Vga.{
  Vga, put_char, end_putc, tab_loop, vga_putc, vga_init, vga_set_color, vga_clear, vga_move_cursor,
  vga_update_cursor,
}
use beaveros.Io.Vga.Scroll.{
  IsScreen, KeepsRest, IsWritten, end_putc-IsScreen, end_putc-position, end_putc-IsScrolled,
  position,
}

-- The states that a run may reach from `s`.
abbrev pub StaysIn : Vga → Vga → Type 0
StaysIn s s' = IsScreen s' × KeepsRest s s'

-- The branches of `put_char` change the cells and the cursor only.
moved-IsWritten :
    (s : Vga) (b : Memory) (x' y' : ℕ)
    → IsScreen s
    → x' ≤ 80
    → y' ≤ 25
    → (x' < 80) ⊎ (y' < 25)
    → IsWritten (record s { vga_buffer = b; vga_x = x'; vga_y = y' })
moved-IsWritten s b x' y' h x_fits y_fits one_fits = record {
  width = h.width;
  height = h.height;
  x_fits = x_fits;
  y_fits = y_fits;
  one_fits = one_fits;
}

screen-IsWritten : (s : Vga) → IsScreen s → IsWritten s
screen-IsWritten s h =
    let x = h.x_fits in
    let y = h.y_fits in
    moved-IsWritten s s.vga_buffer s.vga_x s.vga_y h (omega arith) (omega arith) (inl x)

if_holds : (P : Vga → Type 0) {s s' : Vga} (b : Bool) → P s → P s' → P (if b then s else s')
if_holds P true h h' = h
if_holds P false h h' = h'

abbrev WritesFrom : Vga → Vga → Type 0
WritesFrom s s' = IsWritten s' × KeepsRest s s'

pub put_char-IsWritten : (s : Vga) (c : ℕ) → IsScreen s → WritesFrom s (put_char s c)
unfolding put_char
put_char-IsWritten s c h =
    let x = h.x_fits in
    let y = h.y_fits in
    let size = h.width in
    let inside : s.vga_x + s.vga_width * s.vga_y < 2000 = rw size (omega arith) in
    let moved = moved-IsWritten s s.vga_buffer in
    let same : WritesFrom s s =
      (moved s.vga_x s.vga_y h (omega arith) (omega arith) (inl x), λ a p. refl) in
    let column : (x' : ℕ) → x' < 80 → WritesFrom s (record s { vga_x = x' }) =
      λ x' f. (moved x' s.vga_y h (omega arith) (omega arith) (inl f), λ a p. refl) in
    if_holds (WritesFrom s) (c == 8)
      (if_holds (WritesFrom s) (ltb 0 s.vga_x) (column (s.vga_x - 1) (omega arith)) same)
      (if_holds (WritesFrom s) (c == 13) (column 0 (omega arith)) (
        if_holds (WritesFrom s) (c == 10)
          (moved 0 _ h (omega arith) (omega arith) (inl (omega arith)), λ a p. refl)
          (if_holds (WritesFrom s) (leb 32 c && ltb c 128)
            (
              moved-IsWritten s _ _ s.vga_y h (omega arith) (omega arith) (inr y),
              λ a p. store_ne s.vga_buffer _ _ a (omega arith),
            )
            same)))

plain-StaysIn : (s : Vga) (c : ℕ) → IsScreen s → StaysIn s (end_putc (put_char s c))
plain-StaysIn s c h =
    let put = put_char-IsWritten s c h in
    let ended = end_putc-IsScreen (put_char s c) put.0 in (ended.0, λ a p. ended.1 a p ∙ put.1 a p)

-- A space moves the cursor to the next column, or behind the last one to the column 0.
space-position :
    (s : Vga) → IsScreen s → position (end_putc (put_char s 32)) % 80 ≡ (s.vga_x + 1) % 80
unfolding put_char
space-position s h =
    let x = h.x_fits in
    let y = h.y_fits in
    let put = put_char-IsWritten s 32 h in
    elim (dec_lt (80 * s.vga_y + s.vga_x + 1) 2000) [
      | yes on ↦ omega (arith, (end_putc-position (put_char s 32) put.0 (omega arith)).1)
      | no last ↦ omega (arith, (end_putc-IsScrolled (put_char s 32) put.0 (omega arith)).1)
    ]

space-column : (s : Vga) → IsScreen s → (end_putc (put_char s 32)).vga_x ≡ (s.vga_x + 1) % 80
space-column s h = let fits = (plain-StaysIn s 32 h).0.x_fits in omega (arith, space-position s h)

-- The loop ends in as many rounds as there are columns to the next tab stop.
tab_loop-Returns :
    (k : ℕ) (s : Vga)
    → IsScreen s
    → 8 ≤ k + s.vga_x % 8
    → Returns (λ s'. StaysIn s s' × (s'.vga_x % 8 ≡ 0)) (tab_loop k s)
unfolding tab_loop
tab_loop-Returns zero s h enough = absurd (omega arith)
tab_loop-Returns (suc k) s h enough =
    let s1 = end_putc (put_char s 32) in
    let x = h.x_fits in
    let step = plain-StaysIn s 32 h in
    let column = space-column s h in
    let low : bit_and s1.vga_x 7 ≡ s1.vga_x % 8 = bit_and-mask 3 s1.vga_x in
    Returns-if (bit_and s1.vga_x 7 == 0) (λ stop. returns (step, sym low ∙ (==_iff _ _).0 stop))
      (λ more.
        Returns-map (tab_loop-Returns k s1 step.0 (ground arith))
          λ s' rest. ((rest.0.0, λ a p. rest.0.1 a p ∙ step.1 a p), rest.1))

-- vga_putc returns for every character on a screen whose cursor is on it, and then it is on it
-- again; no cell behind the screen's 2000 cells is written.
pub vga_putc_stays : (s : Vga) (c : ℕ) → IsScreen s → Returns (StaysIn s) (vga_putc s c)
unfolding vga_putc
vga_putc_stays s c h =
    Returns-if (c == 9)
      (λ tab. Returns-bind (tab_loop-Returns 8 s h (omega arith)) λ s' t.
        let ended = end_putc-IsScreen s' (screen-IsWritten s' t.0.0) in
        returns (ended.0, λ a p. ended.1 a p ∙ t.0.1 a p))
      (λ other. returns (plain-StaysIn s c h))

-- On a screen, vga_putc of a tab returns with the cursor at a column that is a multiple of 8.
pub vga_putc_tab : (s : Vga) → IsScreen s → Returns (λ s'. s'.vga_x % 8 ≡ 0) (vga_putc s 9)
unfolding vga_putc
vga_putc_tab s h = Returns-bind (tab_loop-Returns 8 s h (omega arith)) λ s' t.
    let screen = t.0.0 in
    let x = screen.x_fits in
    let y = screen.y_fits in
    let written = screen-IsWritten s' screen in
    let ended = end_putc-IsScreen s' written in
    let x' = ended.0.x_fits in
    returns (omega (arith, t.1, (end_putc-position s' written (omega arith)).1))

-- After vga_init, the cursor is on a screen of 25 rows of 80 cells, in every state.
pub vga_init-IsScreen : (s : Vga) → IsScreen (vga_init s)
unfolding vga_init vga_set_color vga_clear vga_move_cursor vga_update_cursor
vga_init-IsScreen s = record {
  width = refl;
  height = refl;
  x_fits = omega arith;
  y_fits = omega arith;
}

-- On a screen, vga_update_cursor sends the number of the cell at the cursor to the registers 14 and
-- 15 of the controller, the high byte first.
pub vga_update_cursor_sends :
    (s : Vga)
    → IsScreen s
    → (vga_update_cursor s).port_writes
      ≡ (0x3D5, position s % 256)
        ∷ (0x3D4, 15)
        ∷ (0x3D5, position s / 256)
        ∷ (0x3D4, 14)
        ∷ s.port_writes
unfolding vga_update_cursor
vga_update_cursor_sends s h =
    let x = h.x_fits in
    let y = h.y_fits in
    let cell : u16 (s.vga_x + 80 * s.vga_y) ≡ position s = omega arith in
    let high : u8 (position s / 2 ^ 8) ≡ position s / 256 = omega arith in
    rw (h.width) (rw cell (rw high refl))
