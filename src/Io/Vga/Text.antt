-- ===== src/Io/Vga/Text.antt =====
-- What vga_putc and vga_puts of src/io/vga.c show.
use native.Mathlib.Decide.{dec_lt}
use beaveros.Base.{
  ℕ, zero, suc, ◌+◌, ◌*◌, ◌<◌, ◌≤◌, ◌≡◌, refl, ◌∙◌, ap, arith, ltb, leb, ◌==◌, ◌^◌, ◌&&◌, true,
  false, List, [], ◌∷◌, length, u16, bit_or,
}
use beaveros.Base.Memory.{Memory, store}
use beaveros.Base.Run.{Returns, returns, Returns-map, Returns-bind}
use beaveros.Strings.{IsString}
use beaveros.Io.Vga.{Vga, blank, put_char, vga_putc, puts_loop, vga_puts}
use beaveros.Io.Vga.Scroll.{IsScreen, IsScrolled, end_putc-position, end_putc-IsScrolled, position}
use beaveros.Io.Vga.Cursor.{StaysIn, put_char-IsWritten, vga_putc_stays}

-- The cell of a character in a colour.
abbrev pub shown : ℕ → ℕ → ℕ
shown c color = bit_or c (u16 (color * 2 ^ 8))

-- The screen after a printable character: it stands in the cell at the cursor, and the cursor is at
-- the next one; behind the last cell, the screen has then moved up by a row.
pub data IsShown (c : ℕ) (s s' : Vga) : Type 0 where
  inside :
      (s'.vga_buffer ≡ store s.vga_buffer (position s) (shown c s.vga_color))
      → (position s' ≡ position s + 1)
      → IsShown c s s'
  at_end :
      (position s ≡ 1999)
      → IsScrolled s.vga_color (store s.vga_buffer 1999 (shown c s.vga_color)) s'.vga_buffer
      → (position s' ≡ 1920)
      → IsShown c s s'

printed :
    (s : Vga) (c : ℕ)
    → IsScreen s
    → 32 ≤ c
    → c < 128
    → ((put_char s c).vga_buffer ≡ store s.vga_buffer (position s) (shown c s.vga_color))
      × (position (put_char s c) ≡ position s + 1)
      × ((put_char s c).vga_color ≡ s.vga_color)
unfolding put_char
printed s c h low high =
    let b : (c == 8) ≡ false = ground arith in
    let r : (c == 13) ≡ false = ground arith in
    let n : (c == 10) ≡ false = ground arith in
    let p : (leb 32 c && ltb c 128) ≡ true = ground arith in
    let x = h.x_fits in
    let at : s.vga_x + 80 * s.vga_y ≡ position s = omega arith in
    rw (b, r, n, p)
      (rw (h.width) (ap (λ a. store s.vga_buffer a (shown c s.vga_color)) at), omega arith, refl)

IsScrolled-from :
    {color color' : ℕ} {b old new : Memory}
    → IsScrolled color' b new
    → color' ≡ color
    → b ≡ old
    → IsScrolled color old new
IsScrolled-from s color old = record {
  moved = λ a h. s.moved a h ∙ ap (λ b. b (a + 80)) old;
  blanked = λ a low high. s.blanked a low high ∙ ap blank color;
  kept = λ a h. s.kept a h ∙ ap (λ b. b a) old;
}

-- On a screen, vga_putc of a printable character puts it in the cell at the cursor and goes on to the
-- next cell; behind the last cell, the screen then moves up by a row and the cursor is at the start
-- of the last row.
pub vga_putc_shows :
    (s : Vga) (c : ℕ) → IsScreen s → 32 ≤ c → c < 128 → Returns (IsShown c s) (vga_putc s c)
unfolding vga_putc
vga_putc_shows s c h low high =
    let t : (c == 9) ≡ false = ground arith in
    let p = printed s c h low high in
    let w = (put_char-IsWritten s c h).0 in
    let x = h.x_fits in
    let y = h.y_fits in
    rw t (
      returns (elim (dec_lt (position s) 1999) [
        | yes before ↦
            let e = end_putc-position (put_char s c) w (omega (arith, p.1)) in
            inside (e.0 ∙ p.0) (e.1 ∙ p.1)
        | no last ↦
            let at : position s ≡ 1999 = omega arith in
            let e = end_putc-IsScrolled (put_char s c) w (omega (arith, p.1)) in
            at_end at
              (IsScrolled-from e.0 p.2
                (p.0 ∙ ap (λ a. store s.vga_buffer a (shown c s.vga_color)) at))
              (e.1)
      ]))

puts_loop-Returns :
    (xs : List ℕ) (k : ℕ) (m : Memory) (a ret : ℕ) (s : Vga)
    → IsString m a xs
    → length xs < k
    → IsScreen s
    → Returns (λ (r, s'). (r ≡ ret + length xs) × StaysIn s s') (puts_loop k m a ret s)
unfolding puts_loop
puts_loop-Returns xs zero m a ret s string fuel h = absurd (omega arith)
puts_loop-Returns [] (suc k) m a ret s string fuel h =
    rw string (returns (ground arith, (h, λ a p. refl)))
puts_loop-Returns (x ∷ xs) (suc k) m a ret s (here, other, byte, string) fuel h =
    let first : (x == 0) ≡ false = ground arith in
    rw (here, first)
      (Returns-bind (vga_putc_stays s x h) λ s' put.
        Returns-map (puts_loop-Returns xs k m (a + 1) (ret + 1) s' string (omega arith) put.0)
          λ v end. (omega (arith, end.0), (end.1.0, λ b p. end.1.1 b p ∙ put.1 b p)))

-- On a screen, vga_puts returns the length of the string, with the cursor on the screen and no cell behind the
-- screen written, in as many rounds as the string has bytes and one more.
pub vga_puts_correct :
    (xs : List ℕ) (k : ℕ) (m : Memory) (a : ℕ) (s : Vga)
    → IsString m a xs
    → length xs < k
    → IsScreen s
    → Returns (λ (r, s'). (r ≡ length xs) × StaysIn s s') (vga_puts k m a s)
unfolding vga_puts
vga_puts_correct xs k m a s string fuel h =
    Returns-map (puts_loop-Returns xs k m a 0 s string fuel h)
      λ v end. (omega (arith, end.0), end.1)
