-- ===== src/Io/Printf.antt =====
-- src/io/printf.c as it is compiled for the kernel: an `int` has 32 bits, a `long` and a pointer 64.
-- The format and the strings stand in a memory of bytes. A va_list is the list of the argument
-- words, and taking one too many is a fault. The loops over the format take fuel; the digits are
-- written into a buffer of 25 bytes, and a write in front of it is a fault.
pub mod Integer
pub mod Vdprintf
pub mod Digits
pub mod Emitted
pub mod Number
pub mod Figures
pub mod Conversion
pub mod Text
mod Tests
use beaveros.Base.{
  ℕ, zero, suc, ◌+◌, ◌-◌, ◌*◌, ◌/◌, ◌%◌, ◌^◌, Bool, true, false, not, ◌&&◌, ◌||◌, List, [], ◌∷◌,
  length, ltb, leb, ◌==◌, if◌then◌else◌, u8, u16, u32, u64, bit_and, bit_or, none, some,
}
use beaveros.Base.Memory.{Memory}
use beaveros.Base.Run.{Run, ok, fault, out_of_fuel, ◌>>=◌}
use beaveros.Io.Ocdev.{Ocdev}
use beaveros.Strings.{strlen}

abbrev pub flag_plus : ℕ
flag_plus = 1

abbrev pub flag_minus : ℕ
flag_minus = 2

abbrev pub flag_space : ℕ
flag_space = 4

abbrev pub flag_sharp : ℕ
flag_sharp = 8

abbrev pub flag_zero : ℕ
flag_zero = 16

abbrev pub flag_precision_specified : ℕ
flag_precision_specified = 32

-- `LENGTH_none`, `LENGTH_hh`, `LENGTH_h`, `LENGTH_l`, `LENGTH_ll`
pub data Length : Type 0 where
  length_none length_hh length_h length_l length_ll : Length

-- `printf_format_specifier_t`
pub record FormatSpecifier : Type 0 where
  pub flags : ℕ
  pub specifier : ℕ
  pub width : ℕ
  pub precision : ℕ
  pub length_modifier : Length

-- `flags & FLAG`, as a condition.
abbrev pub has : ℕ → ℕ → Bool
has flags flag = not (bit_and flags flag == 0)

abbrev pub VaList : Type 0
VaList = List ℕ

-- `va_arg(vlist, int)` and `va_arg(vlist, long)`, as bit patterns.
unfoldable pub va_int : VaList → Run (ℕ × VaList)
va_int [] = fault
va_int (v ∷ vs) = ok (u32 v, vs)

unfoldable pub va_long : VaList → Run (ℕ × VaList)
va_long [] = fault
va_long (v ∷ vs) = ok (u64 v, vs)

abbrev pub is_digit : ℕ → Bool
is_digit c = leb b'0' c && leb c b'9'

-- The result is the number and the place behind it.
unfoldable pub atoi_loop : ℕ → Memory → (str ans : ℕ) → Run (ℕ × ℕ)
atoi_loop zero m str ans = out_of_fuel
atoi_loop (suc k) m str ans =
    let rest = atoi_loop k m (str + 1) (u16 (u16 (ans * 10) + (m str - b'0'))) in
    if is_digit (m str) then rest else ok (ans, str)

unfoldable pub atoi : ℕ → Memory → (str : ℕ) → Run (ℕ × ℕ)
unfolding atoi_loop
atoi k m str = atoi_loop k m str 0

-- The flag of a character, 0 for another character.
abbrev pub flag_of : ℕ → ℕ
flag_of c =
    if c == b'-'
    then flag_minus
    else if c == b'+'
    then flag_plus
    else if c == b' '
    then flag_space
    else if c == b'#'
    then flag_sharp
    else if c == b'0'
    then flag_zero
    else 0

unfoldable pub flags_loop : ℕ → Memory → (format flags : ℕ) → Run (ℕ × ℕ)
flags_loop zero m format flags = out_of_fuel
flags_loop (suc k) m format flags =
    let flag = flag_of (m (format + 1)) in
    let rest = flags_loop k m (format + 1) (bit_or flags flag) in
    if flag == 0 then ok (flags, format + 1) else rest

-- A number or `*`, for the width and the precision alike.
unfoldable pub parse_count : ℕ → Memory → (format : ℕ) → VaList → Run (ℕ × ℕ × VaList)
unfolding atoi va_int
parse_count k m format vs =
    if m format == b'*'
    then (do (n, vs') ← va_int vs; ok (u16 n, format + 1, vs'))
    else (do (n, format') ← atoi k m format; ok (n, format', vs))

-- The result is the flags, the precision, the place behind them and the rest of the arguments.
unfoldable pub parse_precision : ℕ → Memory → (format flags : ℕ) → VaList → Run (ℕ × ℕ × ℕ × VaList)
unfolding parse_count
parse_precision k m format flags vs =
    if m format == b'.'
    then (do
      (n, format', vs') ← parse_count k m (format + 1) vs
      ok (bit_or flags flag_precision_specified, n, format', vs'))
    else ok (flags, 0, format, vs)

unfoldable pub parse_length : Memory → (format : ℕ) → Length × ℕ
parse_length m format =
    let c = m format in
    if c == b'h'
    then (if m (format + 1) == b'h' then (length_hh, format + 2) else (length_h, format + 1))
    else if c == b'l'
    then (if m (format + 1) == b'l' then (length_ll, format + 2) else (length_l, format + 1))
    else if c == b'j'
    then (length_ll, format + 1)
    else if (c == b'z') || (c == b't')
    then (length_l, format + 1)
    else (length_none, format)

-- `p` is `x` with all the digits of a pointer.
unfoldable pub parse_specifier : FormatSpecifier → FormatSpecifier
parse_specifier ans =
    if ans.specifier == b'p'
    then record {
      flags = bit_or ans.flags flag_precision_specified;
      specifier = b'x';
      width = 0;
      precision = 16;
      length_modifier = length_l;
    }
    else ans

unfoldable pub parse_format_specifier :
    ℕ → Memory → (format : ℕ) → VaList → Run (FormatSpecifier × ℕ × VaList)
unfolding flags_loop parse_count parse_precision parse_length parse_specifier
parse_format_specifier k m format vs = do
  (flags, format) ← flags_loop k m format 0
  (width, format, vs) ← parse_count k m format vs
  (flags, precision, format, vs) ← parse_precision k m format flags vs
  let (length_modifier, format) = parse_length m format
  let ans = parse_specifier (record {
    flags = flags;
    specifier = m format;
    width = width;
    precision = precision;
    length_modifier = length_modifier;
  })
  ok (ans, format + 1, vs)
