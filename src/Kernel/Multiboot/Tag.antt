-- ===== src/Kernel/Multiboot/Tag.antt =====
-- `multiboot2_next_tag` of src/multiboot2.c.
use native.Mathlib.Nat.{pow-suc, mod-eq_of_lt}
use beaveros.Base.{ℕ, suc, ◌+◌, ◌-◌, ◌*◌, ◌/◌, ◌%◌, ◌^◌, ◌<◌, ◌≤◌, ◌≡◌, ◌∙◌, ap, arith, bit_and}
use beaveros.Base.Memory.{Memory}
use beaveros.Base.Bits.{bit_and-middle}
use beaveros.Kernel.Multiboot.{tag_at, multiboot2_next_tag}

width-eq : (n : ℕ) → 2 ^ suc (suc (suc n)) ≡ 2 ^ n * 8
width-eq n = omega (arith, pow-suc 2 n, pow-suc 2 (suc n), pow-suc 2 (suc (suc n)))

-- `w & -8`.
round_down :
    (n w : ℕ) → w < 2 ^ suc (suc (suc n)) → bit_and w (2 ^ suc (suc (suc n)) - 8) ≡ w / 8 * 8
round_down n w h =
    let fits : w / 8 < 2 ^ n = omega (arith, width-eq n) in
    let parts : w ≡ w / 8 * 2 ^ 3 + w % 8 = omega arith in
    let mask : 2 ^ suc (suc (suc n)) - 8 ≡ (2 ^ n - 1) * 2 ^ 3 + 0 = omega (arith, width-eq n) in
    ap (λ (x : ℕ). bit_and x (2 ^ suc (suc (suc n)) - 8)) parts
    ∙ ap (λ (x : ℕ). bit_and (w / 8 * 2 ^ 3 + w % 8) x) mask
    ∙ bit_and-middle 3 n (w / 8) (w % 8) (omega arith) (omega arith)
    ∙ rw (mod-eq_of_lt fits) (omega arith)

-- The next tag begins at the first multiple of 8 at or behind the end of the tag, if the words, of at
-- least 3 bits, reach there.
pub multiboot2_next_tag_correct :
    (n : ℕ) (m : Memory) (tag : ℕ)
    → tag + (tag_at m tag).size + 7 < 2 ^ suc (suc (suc n))
    → let next = multiboot2_next_tag (suc (suc (suc n))) m tag in
      (next % 8 ≡ 0) × (tag + (tag_at m tag).size ≤ next) × (next < tag + (tag_at m tag).size + 8)
unfolding multiboot2_next_tag
multiboot2_next_tag_correct n m tag fits =
    let past = tag + (tag_at m tag).size + 7 in
    rw (mod-eq_of_lt fits, round_down n past fits) (omega arith)
