-- ===== src/Io/Vga.antt =====
-- src/io/vga.c: the text screen. The frame buffer is a store of 16-bit cells, and the port writes of
-- `outb` are kept as a list, the last one first. A loop with a known number of rounds recurs on the
-- rounds that are left; the loop for a tab takes fuel, and `vga_putc` gives it 8 rounds.
pub mod Rows
pub mod Scroll
pub mod Cursor
pub mod Text
pub mod Color
mod Tests
use beaveros.Base.{
  ℕ, zero, suc, ◌+◌, ◌-◌, ◌*◌, ◌/◌, ◌^◌, ◌&&◌, not, List, ◌∷◌, ltb, leb, ◌==◌, if◌then◌else◌, u8,
  u16, bit_and, bit_or,
}
use beaveros.Base.Memory.{Memory, store}
use beaveros.Base.Run.{Run, ok, out_of_fuel, ◌>>=◌}

pub record Vga : Type 0 where
  pub vga_buffer : Memory
  pub vga_width : ℕ
  pub vga_height : ℕ
  pub vga_x : ℕ
  pub vga_y : ℕ
  pub vga_color : ℕ
  -- The port and the byte of each `outb`.
  pub port_writes : List (ℕ × ℕ)

abbrev pub outb : ℕ → ℕ → Vga → Vga
outb port value s = record s { port_writes = (port, u8 value) ∷ s.port_writes }

unfoldable pub vga_update_cursor : Vga → Vga
vga_update_cursor s =
    let cursor = u16 (s.vga_x + s.vga_width * s.vga_y) in
    outb 0x3D5 cursor (outb 0x3D4 15 (outb 0x3D5 (cursor / 2 ^ 8) (outb 0x3D4 14 s)))

-- A space in the current colour.
abbrev pub blank : ℕ → ℕ
blank color = bit_or (u16 (color * 2 ^ 8)) 32

-- `for (; left; ++x) vga_buffer[to + x] = vga_buffer[from + x]`
unfoldable pub copy_row : Memory → (to from x left : ℕ) → Memory
copy_row b to from x zero = b
copy_row b to from x (suc left) = copy_row (store b (to + x) (b (from + x))) to from (x + 1) left

-- `for (; left; ++x) vga_buffer[to + x] = cell`
unfoldable pub fill_row : Memory → (to cell x left : ℕ) → Memory
fill_row b to cell x zero = b
fill_row b to cell x (suc left) = fill_row (store b (to + x) cell) to cell (x + 1) left

-- The rows from `y_from` go up to `y_to`.
unfoldable pub copy_rows : Memory → (width y_to y_from left : ℕ) → Memory
unfolding copy_row
copy_rows b w y_to y_from zero = b
copy_rows b w y_to y_from (suc left) =
    copy_rows (copy_row b (w * y_to) (w * y_from) 0 w) w (y_to + 1) (y_from + 1) left

-- The rows from `y_to` are blanked.
unfoldable pub fill_rows : Memory → (width cell y_to left : ℕ) → Memory
unfolding fill_row
fill_rows b w cell y_to zero = b
fill_rows b w cell y_to (suc left) =
    fill_rows (fill_row b (w * y_to) cell 0 w) w cell (y_to + 1) left

unfoldable pub vga_scroll : Vga → Vga
unfolding vga_update_cursor copy_rows fill_rows
vga_scroll s =
    let y_from = u16 (s.vga_y - s.vga_height + 1) in
    let y_to = s.vga_height - y_from in
    let moved = copy_rows s.vga_buffer s.vga_width 0 y_from y_to in
    let filled = fill_rows moved s.vga_width (blank s.vga_color) y_to (s.vga_height - y_to) in
    vga_update_cursor (
      if leb s.vga_height s.vga_y
      then record s { vga_buffer = filled; vga_x = 0; vga_y = y_to }
      else s)

-- `++vga_x`, or the start of the next line.
abbrev pub next_line : Vga → Vga
next_line s = record s { vga_x = 0; vga_y = u16 (s.vga_y + 1) }

-- The branches of `vga_putc` but for the tab. A byte of 128 or more is a negative `char`.
unfoldable pub put_char : Vga → ℕ → Vga
put_char s c =
    if c == 8
    then (if ltb 0 s.vga_x then record s { vga_x = s.vga_x - 1 } else s)
    else if c == 13
    then record s { vga_x = 0 }
    else if c == 10
    then next_line s
    else if leb 32 c && ltb c 128
    then record s {
      vga_buffer =
          store s.vga_buffer (s.vga_x + s.vga_width * s.vga_y)
            (bit_or c (u16 (s.vga_color * 2 ^ 8)));
      vga_x = u16 (s.vga_x + 1);
    }
    else s

-- The end of `vga_putc`, which every branch reaches.
unfoldable pub end_putc : Vga → Vga
unfolding vga_scroll vga_update_cursor
end_putc s = vga_update_cursor (vga_scroll (if leb s.vga_width s.vga_x then next_line s else s))

-- `do vga_putc(' '); while (vga_x & 7)`
unfoldable pub tab_loop : ℕ → Vga → Run Vga
unfolding put_char end_putc
tab_loop zero s = out_of_fuel
tab_loop (suc k) s =
    let s' = end_putc (put_char s 32) in
    let rest = tab_loop k s' in if bit_and s'.vga_x 7 == 0 then ok s' else rest

unfoldable pub vga_putc : Vga → ℕ → Run Vga
unfolding put_char end_putc tab_loop
vga_putc s c =
    let tabbed = tab_loop 8 s in
    if c == 9 then (do s' ← tabbed; ok (end_putc s')) else ok (end_putc (put_char s c))

unfoldable pub vga_move_cursor : Vga → (x y : ℕ) → Vga
unfolding vga_update_cursor
vga_move_cursor s x y = vga_update_cursor (record s { vga_x = u16 x; vga_y = u16 y })

unfoldable pub vga_clear : Vga → Vga
unfolding vga_update_cursor fill_row
vga_clear s =
    let cells = fill_row s.vga_buffer 0 (blank s.vga_color) 0 (s.vga_width * s.vga_height) in
    vga_update_cursor (record s { vga_buffer = cells; vga_x = 0; vga_y = 0 })

unfoldable pub vga_set_color : Vga → ℕ → Vga
vga_set_color s color = record s { vga_color = u8 color }

-- `COLOR_BLACK << 4 | COLOR_WHITE` is 15. The buffer is the store that the state already holds.
unfoldable pub vga_init : Vga → Vga
unfolding vga_set_color vga_clear vga_move_cursor
vga_init s =
    let sized = record s { vga_width = 80; vga_height = 25 } in
    vga_move_cursor (vga_clear (vga_set_color sized 15)) 0 0

unfoldable pub vga_set_foreground : Vga → ℕ → Vga
vga_set_foreground s color = record s { vga_color = bit_or (bit_and s.vga_color 0xf0) color }

unfoldable pub vga_set_background : Vga → ℕ → Vga
vga_set_background s color = record s {
  vga_color = u8 (bit_or (bit_and s.vga_color 0x0f) (color * 2 ^ 4));
}

-- The loop of `vga_puts`.
unfoldable pub puts_loop : ℕ → Memory → (str ret : ℕ) → Vga → Run (ℕ × Vga)
unfolding vga_putc
puts_loop zero m str ret s = out_of_fuel
puts_loop (suc k) m str ret s =
    let rest = vga_putc s (m str) >>= puts_loop k m (str + 1) (ret + 1) in
    if m str == 0 then ok (ret, s) else rest

unfoldable pub vga_puts : ℕ → Memory → (str : ℕ) → Vga → Run (ℕ × Vga)
unfolding puts_loop
vga_puts k m str s = puts_loop k m str 0 s

-- The loop of `vga_putns`, which recurs on the length.
unfoldable pub putns_loop : (length : ℕ) → Memory → (str ret : ℕ) → Vga → Run (ℕ × Vga)
unfolding vga_putc
putns_loop zero m str ret s = ok (ret, s)
putns_loop (suc n) m str ret s =
    let rest = vga_putc s (m str) >>= putns_loop n m (str + 1) (ret + 1) in
    if m str == 0 then ok (ret, s) else rest

unfoldable pub vga_putns : (length : ℕ) → Memory → (str : ℕ) → Vga → Run (ℕ × Vga)
unfolding putns_loop
vga_putns n m str s = putns_loop n m str 0 s
