-- ===== src/Io/Vga/Color.antt =====
-- The colour byte of src/io/vga.c: the background is its high half and the foreground its low half.
use beaveros.Base.{ap, ℕ, ◌+◌, ◌*◌, ◌%◌, ◌^◌, ◌<◌, ◌≡◌, refl, ◌∙◌, arith, bit_and, bit_or}
use beaveros.Base.Bits.{
  bit_and-fields, bit_or-fields, bit_or-zero, zero-bit_or, bit_and-zero, bit_and-mask,
}
use beaveros.Io.Vga.{Vga, vga_set_foreground, vga_set_background}

mask_high : (b l : ℕ) → b < 16 → l < 16 → bit_and (b * 2 ^ 4 + l) 0xf0 ≡ b * 2 ^ 4 + 0
mask_high b l hb hl =
    bit_and-fields 4 b l 15 0 hl (omega arith) ∙ rw (bit_and-mask 4 b, bit_and-zero l) (omega arith)

mask_low : (b l : ℕ) → l < 16 → bit_and (b * 2 ^ 4 + l) 0x0f ≡ 0 * 2 ^ 4 + l
mask_low b l hl =
    bit_and-fields 4 b l 0 15 hl (omega arith) ∙ rw (bit_and-zero b, bit_and-mask 4 l) (omega arith)

-- vga_set_foreground with a colour below 16 sets the low half of the colour byte and keeps the high
-- half.
pub set_foreground_half :
    (s : Vga) (background foreground color : ℕ)
    → background < 16
    → foreground < 16
    → color < 16
    → s.vga_color ≡ background * 2 ^ 4 + foreground
    → (vga_set_foreground s color).vga_color ≡ background * 2 ^ 4 + color
unfolding vga_set_foreground
set_foreground_half s b f c hb hf hc e =
    let joined : bit_or (b * 2 ^ 4 + 0) (0 * 2 ^ 4 + c) ≡ b * 2 ^ 4 + c =
      bit_or-fields 4 b 0 0 c (omega arith) hc ∙ rw (bit_or-zero b, zero-bit_or c) refl in
    let same : c ≡ 0 * 2 ^ 4 + c = omega arith in
    rw (e, mask_high b f hb hf) (ap (λ n. bit_or (b * 2 ^ 4 + 0) n) same ∙ joined)

-- If the low half of the colour byte is the foreground, vga_set_background sets its high half to the
-- low half of the argument and keeps the foreground.
pub set_background_half :
    (s : Vga) (background foreground color : ℕ)
    → foreground < 16
    → s.vga_color ≡ background * 2 ^ 4 + foreground
    → (vga_set_background s color).vga_color ≡ color % 16 * 2 ^ 4 + foreground
unfolding vga_set_background
set_background_half s b f c hf e =
    let joined : bit_or (0 * 2 ^ 4 + f) (c * 2 ^ 4 + 0) ≡ c * 2 ^ 4 + f =
      bit_or-fields 4 0 f c 0 hf (omega arith) ∙ rw (zero-bit_or c, bit_or-zero f) in
    let same : c * 2 ^ 4 ≡ c * 2 ^ 4 + 0 = omega arith in
    rw (e, mask_low b f hf, same) (omega (arith, joined))
