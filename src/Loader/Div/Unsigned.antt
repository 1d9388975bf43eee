-- ===== src/Loader/Div/Unsigned.antt =====
-- The unsigned routines of src/loader/divdi3.c against the division of the natural numbers.
use native.Mathlib.Nat.{pow-suc, one-le-pow, pow-le-pow_right}
use native.Mathlib.Decide.{dec_lt}
use beaveros.Base.{
  ℕ, zero, suc, ◌+◌, ◌-◌, ◌*◌, ◌/◌, ◌%◌, ◌^◌, ◌≤◌, ◌<◌, ◌≡◌, refl, ap, ◌∙◌, Option, none, some,
  arith, u64,
}
use beaveros.Loader.Div.{align, subtract_loop, rounds, udivmoddi4, udivdi3, umoddi3}

-- The quotient and the remainder are determined by their defining equation.
div-mod_unique : (d q r n : ℕ) → r < d → n ≡ q * d + r → (n / d ≡ q) × (n % d ≡ r)
div-mod_unique d q r n h e = grind arith

-- The first loop shifts both words left by the same `k`, and stops with the top bit of `den` set.
record Aligned (den : ℕ) (r : Option (ℕ × ℕ)) : Type 0 where
  shift : ℕ
  small : shift < 64
  returns : r ≡ some (den * 2 ^ shift, 2 ^ shift)
  top : (2 ^ 63 ≤ den * 2 ^ shift) × (den * 2 ^ shift < 2 ^ 64)

shift-lt : (k den : ℕ) → 0 < den → den * 2 ^ k < 2 ^ 64 → k < 64
shift-lt k den p h = elim (dec_lt k 64) [
  | yes q ↦ q
  | no q ↦
      let wide : 2 ^ 64 ≤ 2 ^ k =
        pow-le-pow_right {n = 2} (omega arith) {i = 64} {j = k} (omega arith) in
      let more : 1 * 2 ^ k ≤ den * 2 ^ k = grind arith in absurd (omega arith)
]

mul-pow-suc : (den k : ℕ) → den * 2 ^ suc k ≡ den * 2 ^ k * 2
mul-pow-suc den k = grind (arith, pow-suc 2 k)

align-shift :
    (f den qbit : ℕ)
    → den < 2 ^ 63
    → qbit < 2 ^ 63
    → align (suc f) den qbit ≡ align f (den * 2) (qbit * 2)
unfolding align
align-shift f den qbit h g = ground arith

align-stop :
    (f den qbit : ℕ) → 2 ^ 63 ≤ den → den < 2 ^ 64 → align (suc f) den qbit ≡ some (den, qbit)
unfolding align
align-stop f den qbit h g = ground arith

align-Aligned :
    (f k den : ℕ)
    → den * 2 ^ k < 2 ^ 64
    → 0 < den
    → k + f ≡ 64
    → Aligned den (align (suc f) (den * 2 ^ k) (2 ^ k))
align-Aligned zero k den h p e = absurd (omega (arith, shift-lt k den p h))
align-Aligned (suc f) k den h p e = elim (dec_lt (den * 2 ^ k) (2 ^ 63)) [
  | yes below ↦
      let le : 1 * 2 ^ k ≤ den * 2 ^ k = grind arith in
      let next = mul-pow-suc den k in
      let bit = mul-pow-suc 1 k in
      rw (align-shift (suc f) (den * 2 ^ k) (2 ^ k) below (omega arith), ← next, ← pow-suc 2 k)
        (align-Aligned f (suc k) den (omega arith) p (omega arith))
  | no above ↦ record {
    shift = k;
    small = shift-lt k den p h;
    returns = align-stop (suc f) (den * 2 ^ k) (2 ^ k) (omega arith) h;
    top = (omega arith, h);
  }
]

-- What the second loop leaves: `num` divided by `den`, added to the quotient so far.
abbrev Divided : (num den quot : ℕ) → Option (ℕ × ℕ) → Type 0
Divided num den quot r = (q m : ℕ) × (r ≡ some (quot + q, m)) × (num ≡ q * den + m) × (m < den)

module _ (f num den quot qbit : ℕ) (p : 0 < qbit) where
  subtract-fits :
      den ≤ num
      → quot + qbit < 2 ^ 64
      → subtract_loop (suc f) num den quot qbit
        ≡ subtract_loop f (num - den) (den / 2) (quot + qbit) (qbit / 2)
  unfolding subtract_loop
  subtract-fits h w = ground arith

  subtract-skips :
      num < den
      → subtract_loop (suc f) num den quot qbit ≡ subtract_loop f num (den / 2) quot (qbit / 2)
  unfolding subtract_loop
  subtract-skips h = ground arith

-- One round more: the bit that it decides, and the bits of the rounds after it.
Divided-fits :
    (num den quot t : ℕ) (r : Option (ℕ × ℕ))
    → den * t ≤ num
    → Divided (num - den * t) den (quot + t) r
    → Divided num den quot r
Divided-fits num den quot t r h (q, m, e, s, l) =
    (t + q, m, e ∙ ap (λ (x : ℕ). some (x, m)) (omega arith), grind arith, l)

subtract_loop-Divided :
    (k f num den quot : ℕ)
    → k < f
    → num < den * 2 ^ suc k
    → quot + 2 ^ suc k ≤ 2 ^ 64
    → Divided num den quot (subtract_loop (suc f) num (den * 2 ^ k) quot (2 ^ k))
unfolding subtract_loop
subtract_loop-Divided k zero num den quot p h w = absurd (omega arith)
subtract_loop-Divided zero (suc f) num den quot p h w = elim (dec_lt num (den * 1)) [
  | yes small ↦ (0, num, ground arith, omega arith, omega arith)
  | no big ↦ (1, num - den, ground arith, omega arith, omega arith)
]
subtract_loop-Divided (suc k) (suc f) num den quot p h w =
    let next = mul-pow-suc den k in
    let bit = mul-pow-suc 1 k in
    let more = mul-pow-suc den (suc k) in
    let more_bit = mul-pow-suc 1 (suc k) in
    let pos = one-le-pow (suc k) 2 (omega arith) in
    let half_den : den * 2 ^ suc k / 2 ≡ den * 2 ^ k = omega arith in
    let half_bit : 2 ^ suc k / 2 ≡ 2 ^ k = omega arith in
    elim (dec_lt num (den * 2 ^ suc k)) [
      | yes small ↦
          rw
            (
              subtract-skips (suc f) num (den * 2 ^ suc k) quot (2 ^ suc k) pos small,
              half_den,
              half_bit,
            )
            (subtract_loop-Divided k f num den quot (omega arith) small (omega arith))
      | no big ↦
          rw
            (
              subtract-fits (suc f) num (den * 2 ^ suc k) quot (2 ^ suc k) pos (omega arith)
                  (omega arith),
              half_den,
              half_bit,
            )
            (Divided-fits num den quot (2 ^ suc k) _ (omega arith) (
              subtract_loop-Divided k f (num - den * 2 ^ suc k) den (quot + 2 ^ suc k) (omega arith)
                (omega arith) (omega arith)))
    ]

align-start : (den : ℕ) → 0 < den → den < 2 ^ 64 → Aligned den (align rounds den 1)
align-start den p h =
    let one : den * 1 ≡ den = omega arith in rw one at (align-Aligned 64 0 den (omega arith) p refl)

module _ (num den k : ℕ) (hn : num < 2 ^ 64) (small : k < 64) (top : 2 ^ 63 ≤ den * 2 ^ k) where
  subtract-start : Divided num den 0 (subtract_loop rounds num (den * 2 ^ k) 0 (2 ^ k))
  subtract-start =
      let fits = pow-le-pow_right {n = 2} (omega arith) {i = suc k} {j = 64} small in
      subtract_loop-Divided k 64 num den 0 small (omega (arith, mul-pow-suc den k)) (omega arith)

  udivmoddi4-shift :
      align rounds den 1 ≡ some (den * 2 ^ k, 2 ^ k)
      → udivmoddi4 num den ≡ some (num / den, num % den)
  unfolding udivmoddi4
  udivmoddi4-shift aligned =
      let (q, m, e, s, l) = subtract-start in
      let u = div-mod_unique den q m num l s in
      rw (aligned, e, u.0, u.1) (ap (λ (x : ℕ). some (x, m)) (omega arith))

-- For a divisor that is not 0, `__udivmoddi4` ends and returns the quotient and the remainder of
-- any two 64-bit words.
pub udivmoddi4_correct :
    (num den : ℕ)
    → num < 2 ^ 64
    → 0 < den
    → den < 2 ^ 64
    → udivmoddi4 num den ≡ some (num / den, num % den)
udivmoddi4_correct num den hn p hd =
    let a = align-start den p hd in udivmoddi4-shift num den a.shift hn a.small a.top.0 a.returns

-- The first loop of `__udivmoddi4` never ends for the divisor 0: no number of rounds is enough.
pub align-zero : (f qbit : ℕ) → align f 0 qbit ≡ none
unfolding align
align-zero zero qbit = refl
align-zero (suc f) qbit = align-zero f (u64 (qbit * 2))

-- For a divisor that is not 0, `__udivdi3` and `__umoddi3` return the quotient and the remainder.
pub udivdi3-umoddi3 :
    (num den : ℕ)
    → num < 2 ^ 64
    → 0 < den
    → den < 2 ^ 64
    → (udivdi3 num den ≡ some (num / den)) × (umoddi3 num den ≡ some (num % den))
unfolding udivdi3 umoddi3
udivdi3-umoddi3 num den hn p hd =
    (rw (udivmoddi4_correct num den hn p hd), rw (udivmoddi4_correct num den hn p hd))
