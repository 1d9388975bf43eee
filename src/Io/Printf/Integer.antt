-- ===== src/Io/Printf/Integer.antt =====
-- The integer printers of src/io/printf.c, which one macro generates for each base and type.
use beaveros.Base.{
  ℕ, zero, suc, ◌+◌, ◌-◌, ◌/◌, ◌%◌, ◌^◌, Bool, true, false, ◌&&◌, List, [], ◌∷◌, length, ltb, leb,
  ◌==◌, if◌then◌else◌, u8, u16,
}
use beaveros.Base.Run.{Run, ok, fault, ◌>>=◌}
use beaveros.Io.Ocdev.{Ocdev}
use beaveros.Io.Printf.{
  FormatSpecifier, length_none, length_hh, length_h, length_l, length_ll, has, VaList, va_int,
  va_long, flag_plus, flag_minus, flag_space, flag_sharp, flag_zero, flag_precision_specified,
}

-- The arguments of GEN_PRINTERS: `s`, `u`, `o`, `h` and `H`.
pub data Printer : Type 0 where
  signed unsigned octal hex upper_hex : Printer

unfoldable pub base : Printer → ℕ
base signed = 10
base unsigned = 10
base octal = 8
base hex = 16
base upper_hex = 16

unfoldable pub prefix : Printer → List ℕ
prefix signed = []
prefix unsigned = []
prefix octal = b'0' ∷ []
prefix hex = b'0' ∷ b'x' ∷ []
prefix upper_hex = b'0' ∷ b'X' ∷ []

unfoldable pub is_signed : Printer → Bool
is_signed signed = true
is_signed _ = false

unfoldable pub uppercase : Printer → Bool
uppercase upper_hex = true
uppercase _ = false

-- `DIGITS[d]`
unfoldable pub digit : Bool → ℕ → ℕ
digit upper d = if ltb d 10 then b'0' + d else if upper then b'A' + (d - 10) else b'a' + (d - 10)

-- `while (d > 0)`, with `room` bytes left in front of `buf_writer`.
unfoldable pub digits_loop : (room : ℕ) → (upper : Bool) → (base d : ℕ) → List ℕ → Run (List ℕ)
unfolding digit
digits_loop zero upper base d buf = if d == 0 then ok buf else fault
digits_loop (suc room) upper base d buf =
    let rest = digits_loop room upper base (d / base) (digit upper (d % base) ∷ buf) in
    if d == 0 then ok buf else rest

-- `d < 0`, for a pattern of `bits` bits.
abbrev pub negative : Printer → (bits d : ℕ) → Bool
negative p bits d = is_signed p && leb (2 ^ (bits - 1)) d

-- SIGN_CHECKER and the flags: 0 for no sign.
unfoldable pub sign_char : Printer → (bits flags d : ℕ) → ℕ
unfolding is_signed
sign_char p bits flags d =
    if negative p bits d
    then b'-'
    else if has flags flag_plus
    then b'+'
    else if has flags flag_space
    then b' '
    else 0

-- `d = -d` of a negative number, which wraps; what the loop `while (d > 0)` then runs on.
unfoldable pub magnitude : Printer → (bits d : ℕ) → ℕ
unfolding is_signed
magnitude p bits d =
    let d' = if negative p bits d then (2 ^ bits - d) % 2 ^ bits else d in
    if negative p bits d' then 0 else d'

module _ {S : Type 0} (ocdev : Ocdev S) where
  -- `for (int i = ...; ...; ++i) ocdev.putc(c);` with `n` rounds.
  unfoldable pub repeat_putc : (n c : ℕ) → S → S
  repeat_putc zero c st = st
  repeat_putc (suc n) c st = repeat_putc n c (ocdev.putc c st)

-- `max(a, b)` of src/include/math.h
abbrev pub max : ℕ → ℕ → ℕ
max a b = if ltb b a then a else b

-- `umin(a, b)` of src/include/math.h
abbrev pub umin : ℕ → ℕ → ℕ
umin a b = if ltb a b then a else b

-- The lines from `digits` to the end of the printer: `buf` has the digits.
unfoldable pub put_field :
    {S : Type 0}
    → Ocdev S
    → (width precision width_padder : ℕ) → (minus : Bool) → (sign_c : ℕ) (pre buf : List ℕ) → S
    → ℕ × S
unfolding repeat_putc
put_field ocdev width precision width_padder minus sign_c pre buf st =
    let digits = length buf in
    let sign_len = if sign_c == 0 then 0 else 1 in
    let non_space_characters = sign_len + max precision digits + length pre in
    let padding = width - non_space_characters in
    let left = if minus then 0 else padding in
    let right = if minus then padding else 0 in
    let st1 = repeat_putc ocdev left width_padder st in
    let st2 = if sign_c == 0 then st1 else ocdev.putc sign_c st1 in
    let st3 = (ocdev.putns pre st2).1 in
    let st4 = repeat_putc ocdev (precision - digits) b'0' st3 in
    let (n, st5) = ocdev.puts buf st4 in
    (
      left + sign_len + length pre + (precision - digits) + n + right,
      repeat_putc ocdev right b' ' st5,
    )

-- The same with the fields of the format specifier.
unfoldable pub put_number :
    {S : Type 0} → Ocdev S → FormatSpecifier → (sign_c : ℕ) (pre buf : List ℕ) → S → ℕ × S
unfolding put_field
put_number ocdev spec sign_c pre buf st =
    let precision = if has spec.flags flag_precision_specified then spec.precision else 1 in
    let width_padder = if has spec.flags flag_zero then b'0' else b' ' in
    put_field ocdev spec.width precision width_padder (has spec.flags flag_minus) sign_c pre buf st

-- INTEGER_PRINTER for a type of `bits` bits.
unfoldable pub print_integer :
    {S : Type 0} → Printer → (bits : ℕ) → Ocdev S → FormatSpecifier → (d : ℕ) → S → Run (ℕ × S)
unfolding base prefix uppercase digits_loop sign_char magnitude put_number
print_integer p bits ocdev spec d st = do
  buf ← digits_loop 24 (uppercase p) (base p) (magnitude p bits d) []
  ok (
      put_number ocdev spec (sign_char p bits spec.flags d)
        (if has spec.flags flag_sharp then prefix p else []) buf st)

-- GEN_SUBROUTINE: the argument by the length, converted to the printer's type.
unfoldable pub printf_subroutine :
    {S : Type 0} → Printer → Ocdev S → FormatSpecifier → VaList → S → Run (ℕ × S × VaList)
unfolding va_int va_long print_integer
printf_subroutine p ocdev spec vs st = elim spec.length_modifier [
  | length_none ↦ do
    (d, vs) ← va_int vs
    (n, st) ← print_integer p 32 ocdev spec d st
    ok (n, st, vs)
  | length_hh ↦ do
    (d, vs) ← va_int vs
    (n, st) ← print_integer p 8 ocdev spec (u8 d) st
    ok (n, st, vs)
  | length_h ↦ do
    (d, vs) ← va_int vs
    (n, st) ← print_integer p 16 ocdev spec (u16 d) st
    ok (n, st, vs)
  | length_l ↦ do (d, vs) ← va_long vs; (n, st) ← print_integer p 64 ocdev spec d st; ok (n, st, vs)
  | length_ll ↦ do
    (d, vs) ← va_long vs
    (n, st) ← print_integer p 64 ocdev spec d st
    ok (n, st, vs)
]
