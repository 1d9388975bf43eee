-- ===== src/Loader/Div/Signed.antt =====
-- The signed routines of src/loader/divdi3.c against division that rounds towards 0.
use native.Mathlib.Nat.{mod-lt, div-le_self, div-lt_iff_lt-mul}
use beaveros.Base.{
  ℕ, suc, ◌-◌, ◌*◌, ◌/◌, ◌%◌, ◌^◌, ◌≤◌, ◌<◌, ◌≡◌, refl, sym, ap, ◌∙◌, some, arith, Bool, true,
  false, not, ◌≢◌, if◌then◌else◌, neg64,
}
use beaveros.Base.Int.{ℤ, pos, negsuc, signed64, is_neg, sub_ℕ}
use beaveros.Loader.Div.{magnitude, toggle, udivmoddi4, divdi3, moddi3}
use beaveros.Loader.Div.Unsigned.{udivmoddi4_correct}

abbrev pub abs : ℤ → ℕ
abs (pos n) = n
abs (negsuc n) = suc n

-- `n`, or `-n` if the flag is set.
abbrev pub with_sign : Bool → ℕ → ℤ
with_sign neg n = if neg then sub_ℕ 0 n else pos n

-- Whether the signs of two integers differ.
abbrev pub signs_differ : ℤ → ℤ → Bool
signs_differ (pos a) (pos b) = false
signs_differ (pos a) (negsuc b) = true
signs_differ (negsuc a) (pos b) = true
signs_differ (negsuc a) (negsuc b) = false

magnitude-abs : (x : ℕ) → x < 2 ^ 64 → magnitude x ≡ abs (signed64 x)
unfolding magnitude
magnitude-abs x h = ground arith

toggle-signs : (x y : ℕ) → toggle y (toggle x false) ≡ signs_differ (signed64 x) (signed64 y)
unfolding toggle
toggle-signs x y = ground arith

abs-le : (x : ℕ) → x < 2 ^ 64 → abs (signed64 x) ≤ 2 ^ 63
abs-le x h = ground arith

abs-lt : (x : ℕ) → x < 2 ^ 64 → abs (signed64 x) < 2 ^ 64
abs-lt x h = ground arith

abs-pos : (x : ℕ) → 0 < x → x < 2 ^ 64 → 0 < abs (signed64 x)
abs-pos x p h = ground arith

-- A magnitude with a sign, as a pattern, stands for the signed magnitude.
signed64-neg64 :
    (neg : Bool) (v : ℕ)
    → v ≤ 2 ^ 63
    → (neg ≡ false → v < 2 ^ 63)
    → signed64 (if neg then neg64 v else v) ≡ with_sign neg v
signed64-neg64 true v h k = ground arith
signed64-neg64 false v h k = ground (arith, k refl)

signs-negative :
    (x y : ℕ)
    → 2 ^ 63 ≤ y
    → y < 2 ^ 64
    → signs_differ (signed64 x) (signed64 y) ≡ not (is_neg (signed64 x))
signs-negative x y h w = ground arith

with_sign-ne : (b : Bool) (v : ℕ) → v ≢ 0 → with_sign (not b) v ≢ with_sign b v
with_sign-ne true v h e = ground arith
with_sign-ne false v h e = ground arith

module _ (num den : ℕ) (hn : num < 2 ^ 64) (p : 0 < den) (hd : den < 2 ^ 64) where
  -- The integers that the two patterns stand for, and their magnitudes divided.
  abbrev n : ℤ
  n = signed64 num

  abbrev d : ℤ
  d = signed64 den

  udivmoddi4-magnitude :
      udivmoddi4 (magnitude num) (magnitude den) ≡ some (abs n / abs d, abs n % abs d)
  udivmoddi4-magnitude =
      rw (magnitude-abs num hn, magnitude-abs den hd)
        (udivmoddi4_correct (abs n) (abs d) (abs-lt num hn) (abs-pos den p hd) (abs-lt den hd))

  quotient-le : abs n / abs d ≤ 2 ^ 63
  quotient-le = omega (arith, div-le_self (abs n) (abs d), abs-le num hn)

  remainder-lt : abs n % abs d < 2 ^ 63
  remainder-lt = omega (arith, mod-lt (abs n) (abs-pos den p hd), abs-le den hd)

  magnitudes : (num ≡ 2 ^ 63 → den ≢ 2 ^ 64 - 1) → signs_differ n d ≡ false → abs n < 2 ^ 63 * abs d
  magnitudes fits same = ground (arith, abs-pos den p hd)

  -- Only -2 ^ 63 / -1 leaves the range of a signed word.
  quotient-lt :
      (num ≡ 2 ^ 63 → den ≢ 2 ^ 64 - 1) → signs_differ n d ≡ false → abs n / abs d < 2 ^ 63
  quotient-lt fits same = (div-lt_iff_lt-mul (abs-pos den p hd)).1 (magnitudes fits same)

  -- `__divdi3` returns the quotient rounded towards 0, with the sign of a division, for every
  -- divisor that is not 0 except in -2 ^ 63 / -1.
  pub divdi3_correct :
      (num ≡ 2 ^ 63 → den ≢ 2 ^ 64 - 1)
      → (v : ℕ) × (divdi3 num den ≡ some v)
        × (signed64 v ≡ with_sign (signs_differ n d) (abs n / abs d))
  unfolding divdi3
  divdi3_correct fits = (
    _,
    rw (udivmoddi4-magnitude, toggle-signs num den),
    signed64-neg64 (signs_differ n d) (abs n / abs d) quotient-le (quotient-lt fits),
  )

  moddi3-some :
      moddi3 num den ≡ some (if signs_differ n d then neg64 (abs n % abs d) else abs n % abs d)
  unfolding moddi3
  moddi3-some = rw (udivmoddi4-magnitude, toggle-signs num den)

  -- `__moddi3` returns the remainder with the sign of the dividend if the divisor is positive.
  pub moddi3_positive :
      den < 2 ^ 63
      → (v : ℕ) × (moddi3 num den ≡ some v) × (signed64 v ≡ with_sign (is_neg n) (abs n % abs d))
  moddi3_positive h = (
    _,
    moddi3-some,
    signed64-neg64 (signs_differ n d) (abs n % abs d) (omega (arith, remainder-lt))
          (λ _. remainder-lt)
        ∙ ap (λ (b : Bool). with_sign b (abs n % abs d)) (ground arith),
  )

  -- If the divisor is negative and does not divide, `__moddi3` returns a remainder of the wrong
  -- sign: not that of the dividend.
  pub moddi3_negative :
      2 ^ 63 ≤ den
      → abs n % abs d ≢ 0
      → (v : ℕ) × (moddi3 num den ≡ some v)
        × (signed64 v ≡ with_sign (not (is_neg n)) (abs n % abs d))
        × (signed64 v ≢ with_sign (is_neg n) (abs n % abs d))
  moddi3_negative neg inexact =
      let value =
        signed64-neg64 (signs_differ n d) (abs n % abs d) (omega (arith, remainder-lt))
          (λ _. remainder-lt)
        ∙ ap (λ (b : Bool). with_sign b (abs n % abs d)) (signs-negative num den neg hd) in
      (_, moddi3-some, value, λ e. with_sign-ne (is_neg n) (abs n % abs d) inexact (sym value ∙ e))
