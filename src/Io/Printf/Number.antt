-- ===== src/Io/Printf/Number.antt =====
-- What an integer printer of src/io/printf.c prints, by its own base, prefix, sign and magnitude.
use native.Mathlib.Nat.{pow-suc, mod-eq_of_lt, pow-le-pow_right, mod-lt}
use native.Mathlib.Decide.{dec_lt}
use mathlib.Core.List.{append-nil}
use beaveros.Base.{
  ℕ, suc, ◌-◌, ◌%◌, ◌^◌, ◌<◌, ◌≤◌, ◌≡◌, ◌⊎◌, inl, inr, ap, ◌∙◌, arith, Bool, true, false, List, [],
  length, if◌then◌else◌,
}
use beaveros.Base.Run.{Returns, returns, Returns-bind}
use beaveros.Io.Ocdev.{Ocdev, put_all}
use beaveros.Io.Printf.{
  FormatSpecifier, has, flag_minus, flag_zero, flag_sharp, flag_precision_specified,
}
use beaveros.Io.Printf.Integer.{
  Printer, signed, unsigned, octal, hex, upper_hex, base, prefix, uppercase, negative, magnitude,
  sign_char, put_number, print_integer, max,
}
use beaveros.Io.Printf.Digits.{IsNumeral, digits_loop-Returns}
use beaveros.Io.Printf.Emitted.{body, padded, put_field_lem, length-padded}

-- The number with this sign, prefix and digits, and the field that it is padded to.
abbrev pub number_text : FormatSpecifier → (sign_c : ℕ) (pre digits : List ℕ) → List ℕ
number_text spec sign_c pre digits =
    body (if has spec.flags flag_precision_specified then spec.precision else 1) sign_c
      (if has spec.flags flag_sharp then pre else []) digits

abbrev pub printed : FormatSpecifier → (sign_c : ℕ) (pre digits : List ℕ) → List ℕ
printed spec sign_c pre digits =
    padded spec.width (if has spec.flags flag_zero then b'0' else b' ') (has spec.flags flag_minus)
      (number_text spec sign_c pre digits)

if-lt : (b : Bool) {x y n : ℕ} → x < n → y < n → (if b then x else y) < n
if-lt true p q = p
if-lt false p q = q

magnitude-lt : (p : Printer) (bits d : ℕ) → bits ≤ 64 → d < 2 ^ bits → magnitude p bits d < 2 ^ 64
unfolding magnitude
magnitude-lt p bits d small h =
    let word = pow-le-pow_right {n = 2} (omega arith) small in
    let pos : 0 < 2 ^ bits = omega arith in
    let wrapped = mod-lt (2 ^ bits - d) pos in
    let d' = if negative p bits d then (2 ^ bits - d) % 2 ^ bits else d in
    let d'-lt : d' < 2 ^ 64 = if-lt (negative p bits d) (omega arith) (omega arith) in
    if-lt (negative p bits d') (omega arith) d'-lt

fits_buffer : (p : Printer) (n : ℕ) → n < 2 ^ 64 → n < base p ^ 24
unfolding base
fits_buffer signed n h = omega arith
fits_buffer unsigned n h = omega arith
fits_buffer octal n h = omega arith
fits_buffer hex n h = omega arith
fits_buffer upper_hex n h = omega arith

base-gt-one : (p : Printer) → 1 < base p
unfolding base
base-gt-one signed = omega arith
base-gt-one unsigned = omega arith
base-gt-one octal = omega arith
base-gt-one hex = omega arith
base-gt-one upper_hex = omega arith

-- The printer with its own base, prefix, sign and magnitude.
pub print_integer_lem :
    {S : Type 0} (dev : Ocdev S) (p : Printer) (bits d : ℕ) (spec : FormatSpecifier) (st : S)
    → bits ≤ 64
    → d < 2 ^ bits
    → Returns
        (λ (n, st').
          (digits : List ℕ) × IsNumeral (uppercase p) (base p) (magnitude p bits d) digits
          × (n
              ≡ max spec.width
                  (length (number_text spec (sign_char p bits spec.flags d) (prefix p) digits)))
          × (st'
              ≡ put_all dev.putc
                  (printed spec (sign_char p bits spec.flags d) (prefix p) digits)
                  st))
        (print_integer p bits dev spec d st)
unfolding print_integer put_number
print_integer_lem dev p bits d spec st small h =
    let fits = fits_buffer p (magnitude p bits d) (magnitude-lt p bits d small h) in
    Returns-bind
      (digits_loop-Returns 24 (uppercase p) (base p) (magnitude p bits d) [] (base-gt-one p) fits)
      λ out (num, split, n).
        let same : out ≡ num = split ∙ append-nil num in
        let field = λ (digits : List ℕ).
          put_number dev spec (sign_char p bits spec.flags d)
            (if has spec.flags flag_sharp then prefix p else []) digits st in
        let all = ap field same ∙ put_field_lem dev _ _ _ _ _ _ num st in
        returns (
          num,
          n,
          ap (λ r. r.0) all ∙ length-padded _ _ (has spec.flags flag_minus) _,
          ap (λ r. r.1) all,
        )

-- The magnitude that a signed printer prints is the number, or its negation if it is negative; but
-- for the most negative number of the type it is 0.
pub magnitude_cases :
    (k d : ℕ)
    → d < 2 ^ suc k
    → ((d < 2 ^ k) × (magnitude signed (suc k) d ≡ d))
      ⊎ ((2 ^ k < d) × (magnitude signed (suc k) d ≡ 2 ^ suc k - d))
      ⊎ ((d ≡ 2 ^ k) × (magnitude signed (suc k) d ≡ 0))
unfolding magnitude
magnitude_cases k d h =
    let half : suc k - 1 ≡ k = omega arith in
    let twice = pow-suc 2 k in
    let whole = 2 ^ suc k in
    rw half (elim (dec_lt d (2 ^ k)) [
      | yes below ↦ inl (below, ground arith)
      | no above ↦
          let wrap : (whole - d) % whole ≡ whole - d = mod-eq_of_lt (omega arith) in
          elim (dec_lt (2 ^ k) d) [
            | yes beyond ↦ inr (inl (beyond, ground (arith, wrap)))
            | no at ↦ inr (inr (omega arith, ground (arith, wrap)))
          ]
    ])
