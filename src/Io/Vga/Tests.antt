-- ===== src/Io/Vga/Tests.antt =====
-- Runs of src/io/vga.c, and its theorems at a fresh screen.
use beaveros.Base.{ℕ, ◌≡◌, refl, [], arith}
use beaveros.Base.Memory.{Memory, store}
use beaveros.Base.Run.{Run, ok, ◌>>=◌, Returns}
use beaveros.Io.Vga.{Vga, vga_init, vga_putc, vga_puts, vga_scroll}
use beaveros.Io.Vga.Scroll.{IsScreen, IsScrolled, vga_scroll_correct}
use beaveros.Io.Vga.Cursor.{StaysIn, vga_putc_stays}
use beaveros.Io.Vga.Text.{IsShown, vga_putc_shows}

abbrev at_row : ℕ → Vga
at_row y = record {
  vga_buffer = λ a. a;
  vga_width = 80;
  vga_height = 25;
  vga_x = 77;
  vga_y = y;
  vga_color = 0x1f;
  port_writes = [];
}

at_row-IsScreen : IsScreen (at_row 24)
at_row-IsScreen = record { width = refl; height = refl; x_fits = omega arith; y_fits = omega arith }

-- "Hi" at the address 3
abbrev greeting : Memory
greeting = store (store (λ _. 0) 3 72) 4 105

fresh : Vga
unfolding vga_init
fresh = vga_init (at_row 24)

-- After vga_init, "Hi" stands in the first two cells, in white on black.
greeted : Run (ℕ × ℕ × ℕ × ℕ)
unfolding vga_puts fresh
greeted = do (n, s) ← vga_puts 3 greeting 3 fresh; ok (n, s.vga_buffer 0, s.vga_buffer 1, s.vga_x)

greeted_result : greeted ≡ ok (2, 0x0f48, 0x0f69, 2)
unfolding greeted
greeted_result = refl

vga_scroll_correct_example :
    IsScrolled 0x1f (λ a. a) (vga_scroll (at_row 25)).vga_buffer
    × ((vga_scroll (at_row 25)).vga_x ≡ 0)
    × ((vga_scroll (at_row 25)).vga_y ≡ 24)
vga_scroll_correct_example = vga_scroll_correct (at_row 25) refl refl refl

vga_putc_stays_example : Returns (StaysIn (at_row 24)) (vga_putc (at_row 24) 9)
vga_putc_stays_example = vga_putc_stays (at_row 24) 9 at_row-IsScreen

vga_putc_shows_example : Returns (IsShown 65 (at_row 24)) (vga_putc (at_row 24) 65)
vga_putc_shows_example = vga_putc_shows (at_row 24) 65 at_row-IsScreen (omega arith) (omega arith)
