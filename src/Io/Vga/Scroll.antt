-- ===== src/Io/Vga/Scroll.antt =====
-- vga_scroll and vga_putc of src/io/vga.c: the cursor stays on the screen, and the cells move up.
use native.Mathlib.Decide.{dec_lt}
use beaveros.Base.{
  ℕ, ◌+◌, ◌*◌, ◌<◌, ◌≤◌, ◌≡◌, ◌⊎◌, inl, inr, refl, ◌∙◌, sym, ap, arith, leb, if◌then◌else◌, Bool,
  true, false, Bool-cases,
}
use beaveros.Base.Memory.{Memory}
use beaveros.Io.Vga.{
  Vga, vga_update_cursor, vga_scroll, copy_rows, fill_rows, blank, next_line, end_putc,
}
use beaveros.Io.Vga.Rows.{copy_rows-kept, copy_rows-copied, fill_rows-kept, fill_rows-filled}

-- The cursor is on a screen of 25 rows of 80 cells.
pub record IsScreen (s : Vga) : Type 0 where
  pub width : s.vga_width ≡ 80
  pub height : s.vga_height ≡ 25
  pub x_fits : s.vga_x < 80
  pub y_fits : s.vga_y < 25

-- No cell behind the screen changes.
abbrev pub KeepsRest : Vga → Vga → Type 0
KeepsRest s s' = (a : ℕ) → 2000 ≤ a → s'.vga_buffer a ≡ s.vga_buffer a

-- The screen is one row up, and its last row is blank.
pub record IsScrolled (color : ℕ) (b b' : Memory) : Type 0 where
  pub moved : (a : ℕ) → a < 1920 → b' a ≡ b (a + 80)
  pub blanked : (a : ℕ) → 1920 ≤ a → a < 2000 → b' a ≡ blank color
  pub kept : (a : ℕ) → 2000 ≤ a → b' a ≡ b a

IsScrolled-rows :
    (b : Memory) (color : ℕ)
    → IsScrolled color b (fill_rows (copy_rows b 80 0 1 24) 80 (blank color) 24 1)
IsScrolled-rows b color =
    let b' = copy_rows b 80 0 1 24 in
    record {
      moved = λ a h.
          fill_rows-kept b' (blank color) 24 1 a (inl (omega arith))
          ∙ copy_rows-copied b 0 24 a (omega arith) (omega arith);
      blanked = λ a low high. fill_rows-filled b' (blank color) 24 1 a (omega arith) (omega arith);
      kept = λ a h.
          fill_rows-kept b' (blank color) 24 1 a (inr (omega arith))
          ∙ copy_rows-kept b 0 24 a (inr (omega arith));
    }

-- Below the last row, vga_scroll moves the screen up by one row, blanks the last row in the current
-- colour, writes nowhere else, and puts the cursor at the start of the last row.
pub vga_scroll_correct :
    (s : Vga)
    → s.vga_width ≡ 80
    → s.vga_height ≡ 25
    → s.vga_y ≡ 25
    → IsScrolled s.vga_color s.vga_buffer (vga_scroll s).vga_buffer
      × ((vga_scroll s).vga_x ≡ 0)
      × ((vga_scroll s).vga_y ≡ 24)
unfolding vga_scroll vga_update_cursor
vga_scroll_correct s w h y = rw (w, h, y) (IsScrolled-rows s.vga_buffer s.vga_color, refl, refl)

-- On the screen, vga_scroll changes no cell and not the cursor.
vga_scroll-idle :
    (s : Vga)
    → s.vga_height ≡ 25
    → s.vga_y < 25
    → ((vga_scroll s).vga_buffer ≡ s.vga_buffer)
      × ((vga_scroll s).vga_x ≡ s.vga_x)
      × ((vga_scroll s).vga_y ≡ s.vga_y)
unfolding vga_scroll vga_update_cursor
vga_scroll-idle s h y =
    let on : leb 25 s.vga_y ≡ false = ground arith in rw (h, on) (refl, refl, refl)

vga_scroll-size :
    (s : Vga)
    → ((vga_scroll s).vga_width ≡ s.vga_width) × ((vga_scroll s).vga_height ≡ s.vga_height)
unfolding vga_scroll vga_update_cursor
vga_scroll-size s = elim (Bool-cases (leb s.vga_height s.vga_y)) [
  | inl below ↦ rw below (refl, refl)
  | inr on ↦ rw on (refl, refl)
]

-- What the branches of `vga_putc` leave: the cursor may be behind the end of its row, or, at the
-- start of a row, below the last row.
pub record IsWritten (s : Vga) : Type 0 where
  pub width : s.vga_width ≡ 80
  pub height : s.vga_height ≡ 25
  pub x_fits : s.vga_x ≤ 80
  pub y_fits : s.vga_y ≤ 25
  pub one_fits : (s.vga_x < 80) ⊎ (s.vga_y < 25)

-- The cursor is at most one row below the screen.
record IsWrapped (s : Vga) : Type 0 where
  width : s.vga_width ≡ 80
  height : s.vga_height ≡ 25
  x_fits : s.vga_x < 80
  y_fits : s.vga_y ≤ 25

vga_scroll-IsScreen : (s : Vga) → IsWrapped s → IsScreen (vga_scroll s) × KeepsRest s (vga_scroll s)
vga_scroll-IsScreen s r =
    let size = vga_scroll-size s in
    elim (dec_lt s.vga_y 25) [
      | yes on ↦
          let same = vga_scroll-idle s r.height on in
          (
            record {
              width = size.0 ∙ r.width;
              height = size.1 ∙ r.height;
              x_fits = omega (arith, same.1, r.x_fits);
              y_fits = omega (arith, same.2);
            },
            λ a h. ap (λ b. b a) same.0,
          )
      | no below ↦
          let up = vga_scroll_correct s r.width r.height (omega (arith, r.y_fits)) in
          (
            record {
              width = size.0 ∙ r.width;
              height = size.1 ∙ r.height;
              x_fits = omega (arith, up.1);
              y_fits = omega (arith, up.2);
            },
            up.0.kept,
          )
    ]

-- `vga_update_cursor` changes only the port writes.
vga_update_cursor-IsScreen :
    (s s' : Vga)
    → IsScreen s' × KeepsRest s s'
    → IsScreen (vga_update_cursor s') × KeepsRest s (vga_update_cursor s')
unfolding vga_update_cursor
vga_update_cursor-IsScreen s s' (h, k) =
    (record { width = h.width; height = h.height; x_fits = h.x_fits; y_fits = h.y_fits }, k)

wrap-IsWrapped :
    (s : Vga)
    → IsWritten s
    → (b : Bool) → leb 80 s.vga_x ≡ b
    → IsWrapped (if b then next_line s else s)
wrap-IsWrapped s w true over = record {
  width = w.width;
  height = w.height;
  x_fits = omega arith;
  y_fits = ground (arith, w.one_fits, w.y_fits);
}
wrap-IsWrapped s w false within = record {
  width = w.width;
  height = w.height;
  x_fits = ground arith;
  y_fits = w.y_fits;
}

wrap-KeepsRest : (s : Vga) (b : Bool) → (if b then next_line s else s).vga_buffer ≡ s.vga_buffer
wrap-KeepsRest s true = refl
wrap-KeepsRest s false = refl

pub end_putc-IsScreen : (s : Vga) → IsWritten s → IsScreen (end_putc s) × KeepsRest s (end_putc s)
unfolding end_putc
end_putc-IsScreen s w =
    let scrolled =
      vga_scroll-IsScreen _ (wrap-IsWrapped s w _ (ap (λ n. leb n s.vga_x) (sym w.width))) in
    let same = wrap-KeepsRest s (leb s.vga_width s.vga_x) in
    vga_update_cursor-IsScreen s _ (scrolled.0, λ a h. scrolled.1 a h ∙ ap (λ b. b a) same)

-- The number of the cell at the cursor.
abbrev pub position : Vga → ℕ
position s = 80 * s.vga_y + s.vga_x

end_putc-by :
    (s : Vga) (b : Bool)
    → IsWritten s
    → leb 80 s.vga_x ≡ b
    → position s < 2000
    → let s' = vga_scroll (if b then next_line s else s) in
      (s'.vga_buffer ≡ s.vga_buffer) × (position s' ≡ position s) × (s'.vga_x < 80)
end_putc-by s false w within fits =
    let y = w.y_fits in
    let idle = vga_scroll-idle s w.height (omega arith) in
    (idle.0, omega (arith, idle.1, idle.2), ground (arith, idle.1))
end_putc-by s true w over fits =
    let x = w.x_fits in
    let idle = vga_scroll-idle (next_line s) w.height (ground arith) in
    (idle.0, ground (arith, idle.1, idle.2), omega (arith, idle.1))

-- While the position is on the screen, the end of `vga_putc` only writes it as a row and a column.
pub end_putc-position :
    (s : Vga)
    → IsWritten s
    → position s < 2000
    → ((end_putc s).vga_buffer ≡ s.vga_buffer) × (position (end_putc s) ≡ position s)
unfolding end_putc vga_update_cursor
end_putc-position s w fits =
    let by = end_putc-by s _ w (ap (λ n. leb n s.vga_x) (sym w.width)) fits in (by.0, by.1)

end_putc-last :
    (s : Vga) (b : Bool)
    → IsWritten s
    → leb 80 s.vga_x ≡ b
    → position s ≡ 2000
    → let s' = vga_scroll (if b then next_line s else s) in
      IsScrolled s.vga_color s.vga_buffer s'.vga_buffer × (position s' ≡ 1920)
end_putc-last s false w within at =
    let y = w.y_fits in
    let up = vga_scroll_correct s w.width w.height (ground arith) in
    (up.0, omega (arith, up.1, up.2))
end_putc-last s true w over at =
    let x = w.x_fits in
    let up = vga_scroll_correct (next_line s) w.width w.height (ground arith) in
    (up.0, omega (arith, up.1, up.2))

-- Behind the last cell, the end of `vga_putc` scrolls.
pub end_putc-IsScrolled :
    (s : Vga)
    → IsWritten s
    → position s ≡ 2000
    → IsScrolled s.vga_color s.vga_buffer (end_putc s).vga_buffer × (position (end_putc s) ≡ 1920)
unfolding end_putc vga_update_cursor
end_putc-IsScrolled s w at = end_putc-last s _ w (ap (λ n. leb n s.vga_x) (sym w.width)) at
