-- ===== src/Io/Printf/Conversion.antt =====
-- The conversions of the integer printers of src/io/printf.c, described by the integer that is
-- printed: its sign, the prefix of the base, and the digits of its absolute value.
use beaveros.Base.{
  ℕ, suc, ◌-◌, ◌^◌, ◌<◌, ◌≤◌, ◌≡◌, ◌≢◌, inl, inr, sym, refl, arith, Bool, true, false, List, [],
  ◌∷◌, length, if◌then◌else◌, ltb,
}
use beaveros.Base.Int.{ℤ, pos, negsuc}
use beaveros.Base.Run.{Returns, Returns-map}
use beaveros.Io.Ocdev.{Ocdev, put_all}
use beaveros.Io.Printf.{FormatSpecifier, has, flag_plus, flag_space}
use beaveros.Io.Printf.Integer.{
  Printer, signed, unsigned, octal, hex, upper_hex, base, prefix, uppercase, magnitude, sign_char,
  print_integer, max,
}
use beaveros.Io.Printf.Digits.{IsNumeral}
use beaveros.Io.Printf.Figures.{Written, IsNumeral-Written}
use beaveros.Io.Printf.Number.{number_text, printed, print_integer_lem, magnitude_cases}

-- The base of the numeral, its prefix, and whether its letters are capitals.
abbrev pub numeral_base : Printer → ℕ
numeral_base octal = 8
numeral_base hex = 16
numeral_base upper_hex = 16
numeral_base _ = 10

abbrev pub base_prefix : Printer → List ℕ
base_prefix octal = b'0' ∷ []
base_prefix hex = b'0' ∷ b'x' ∷ []
base_prefix upper_hex = b'0' ∷ b'X' ∷ []
base_prefix _ = []

abbrev pub capitals : Printer → Bool
capitals upper_hex = true
capitals _ = false

-- The integer that a pattern of `bits` bits stands for: two's complement for `signed`.
abbrev pub integer : Printer → (bits d : ℕ) → ℤ
integer signed bits d = if ltb d (2 ^ (bits - 1)) then pos d else negsuc (2 ^ bits - d - 1)
integer _ bits d = pos d

abbrev pub absolute : ℤ → ℕ
absolute (pos n) = n
absolute (negsuc n) = suc n

-- The sign of an integer, 0 for none: a minus for a negative one, and else by the flags.
abbrev pub sign_of : (flags : ℕ) → ℤ → ℕ
sign_of flags (negsuc n) = b'-'
sign_of flags (pos n) =
    if has flags flag_plus then b'+' else if has flags flag_space then b' ' else 0

base_lem : (p : Printer) → base p ≡ numeral_base p
unfolding base
base_lem signed = refl
base_lem unsigned = refl
base_lem octal = refl
base_lem hex = refl
base_lem upper_hex = refl

prefix_lem : (p : Printer) → prefix p ≡ base_prefix p
unfolding prefix
prefix_lem signed = refl
prefix_lem unsigned = refl
prefix_lem octal = refl
prefix_lem hex = refl
prefix_lem upper_hex = refl

uppercase_lem : (p : Printer) → uppercase p ≡ capitals p
unfolding uppercase
uppercase_lem signed = refl
uppercase_lem unsigned = refl
uppercase_lem octal = refl
uppercase_lem hex = refl
uppercase_lem upper_hex = refl

sign_char_lem :
    (p : Printer) (bits flags d : ℕ) → sign_char p bits flags d ≡ sign_of flags (integer p bits d)
unfolding sign_char
sign_char_lem signed bits flags d = ground arith
sign_char_lem unsigned bits flags d = refl
sign_char_lem octal bits flags d = refl
sign_char_lem hex bits flags d = refl
sign_char_lem upper_hex bits flags d = refl

-- A signed type has no positive counterpart of its most negative number.
magnitude_lem :
    (p : Printer) (k d : ℕ)
    → d < 2 ^ suc k
    → (p ≡ signed → d ≢ 2 ^ k)
    → magnitude p (suc k) d ≡ absolute (integer p (suc k) d)
unfolding magnitude
magnitude_lem signed k d h most = elim (magnitude_cases k d h) [
  | inl small ↦ ground (arith, small.1)
  | inr (inl large) ↦ ground (arith, large.1)
  | inr (inr at) ↦ absurd (most refl at.0)
]
magnitude_lem unsigned k d h most = refl
magnitude_lem octal k d h most = refl
magnitude_lem hex k d h most = refl
magnitude_lem upper_hex k d h most = refl

base-le : (p : Printer) → numeral_base p ≤ 16
base-le signed = omega arith
base-le unsigned = omega arith
base-le octal = omega arith
base-le hex = omega arith
base-le upper_hex = omega arith

print_integer-IsNumeral :
    {S : Type 0} (dev : Ocdev S) (p : Printer) (k d : ℕ) (spec : FormatSpecifier) (st : S)
    → suc k ≤ 64
    → d < 2 ^ suc k
    → (p ≡ signed → d ≢ 2 ^ k)
    → let i = integer p (suc k) d in
      Returns
        (λ (n, st').
          (digits : List ℕ) × IsNumeral (capitals p) (numeral_base p) (absolute i) digits
          × (n
              ≡ max spec.width
                  (length (number_text spec (sign_of spec.flags i) (base_prefix p) digits)))
          × (st'
              ≡ put_all dev.putc (printed spec (sign_of spec.flags i) (base_prefix p) digits) st))
        (print_integer p (suc k) dev spec d st)
print_integer-IsNumeral dev p k d spec st small h most =
    rw
      (
        sym (base_lem p),
        sym (prefix_lem p),
        sym (uppercase_lem p),
        sym (sign_char_lem p (suc k) spec.flags d),
        sym (magnitude_lem p k d h most),
      )
      (print_integer_lem dev p (suc k) d spec st small h)

-- For a type of `k + 1` bits, at most 64, and any integer of it but the most negative one of a
-- signed type, an integer printer never writes outside its buffer. It gives the device the padded
-- field with the sign of the integer, the prefix of the base if the flags ask for it, the zeros of
-- the precision, and the shortest numeral of the absolute value in base 10, 8 or 16, and returns
-- the width, or the length of the number if that is greater.
pub print_integer_correct :
    {S : Type 0} (dev : Ocdev S) (p : Printer) (k d : ℕ) (spec : FormatSpecifier) (st : S)
    → suc k ≤ 64
    → d < 2 ^ suc k
    → (p ≡ signed → d ≢ 2 ^ k)
    → let i = integer p (suc k) d in
      Returns
        (λ (n, st').
          (digits : List ℕ) × Written (capitals p) (numeral_base p) (absolute i) digits
          × (n
              ≡ max spec.width
                  (length (number_text spec (sign_of spec.flags i) (base_prefix p) digits)))
          × (st'
              ≡ put_all dev.putc (printed spec (sign_of spec.flags i) (base_prefix p) digits) st))
        (print_integer p (suc k) dev spec d st)
print_integer_correct dev p k d spec st small h most =
    Returns-map (print_integer-IsNumeral dev p k d spec st small h most)
      (λ (n, st') (digits, numeral, width, field). (
        digits,
        IsNumeral-Written (capitals p) (numeral_base p) (absolute (integer p (suc k) d)) digits
            (base-le p) numeral,
        width,
        field,
      ))
