-- ===== src/Io/Printf/Vdprintf.antt =====
-- vdprintf of src/io/printf.c and the subroutine for strings.
use beaveros.Base.{ℕ, zero, suc, ◌+◌, ◌-◌, List, [], ◌∷◌, ◌==◌, if◌then◌else◌, u8, u32, some, none}
use beaveros.Base.Memory.{Memory}
use beaveros.Base.Run.{Run, ok, out_of_fuel, ◌>>=◌}
use beaveros.Io.Ocdev.{Ocdev}
use beaveros.Io.Printf.{
  FormatSpecifier, VaList, has, va_int, va_long, flag_minus, flag_precision_specified,
  parse_format_specifier,
}
use beaveros.Io.Printf.Integer.{
  signed, unsigned, octal, hex, upper_hex, umin, repeat_putc, printf_subroutine,
}
use beaveros.Strings.{strlen}

-- The bytes at `a`.
abbrev pub text : Memory → (a n : ℕ) → List ℕ
text m a zero = []
text m a (suc n) = m a ∷ text m (a + 1) n

unfoldable pub measure : ℕ → Memory → (d : ℕ) → Run ℕ
unfolding strlen
measure k m d = elim (strlen k m d) [ some n ↦ ok n | none ↦ out_of_fuel ]

-- `printf_subroutine_s`
unfoldable pub put_string :
    {S : Type 0} → Ocdev S → FormatSpecifier → Memory → (d len : ℕ) → S → ℕ × S
unfolding repeat_putc
put_string ocdev spec m d len st =
    let chars = if has spec.flags flag_precision_specified then umin len spec.precision else len in
    let padding = spec.width - chars in
    let left = if has spec.flags flag_minus then 0 else padding in
    let right = if has spec.flags flag_minus then padding else 0 in
    let (n, st') = ocdev.putns (text m d chars) (repeat_putc ocdev left b' ' st) in
    (left + n + right, repeat_putc ocdev right b' ' st')

unfoldable pub printf_subroutine_s :
    {S : Type 0} → ℕ → Ocdev S → FormatSpecifier → Memory → VaList → S → Run (ℕ × S × VaList)
unfolding va_long measure put_string
printf_subroutine_s k ocdev spec m vs st = do
  (d, vs) ← va_long vs
  len ← measure k m d
  let (n, st) = put_string ocdev spec m d (u32 len) st
  ok (n, st, vs)

-- The `switch` of vdprintf. An unknown specifier prints nothing.
unfoldable pub run_specifier :
    {S : Type 0} → ℕ → Ocdev S → FormatSpecifier → Memory → VaList → S → Run (ℕ × S × VaList)
unfolding printf_subroutine printf_subroutine_s va_int
run_specifier k ocdev spec m vs st =
    let c = spec.specifier in
    if c == b'd'
    then printf_subroutine signed ocdev spec vs st
    else if c == b'i'
    then printf_subroutine signed ocdev spec vs st
    else if c == b'u'
    then printf_subroutine unsigned ocdev spec vs st
    else if c == b'o'
    then printf_subroutine octal ocdev spec vs st
    else if c == b'x'
    then printf_subroutine hex ocdev spec vs st
    else if c == b'X'
    then printf_subroutine upper_hex ocdev spec vs st
    else if c == b's'
    then printf_subroutine_s k ocdev spec m vs st
    else if c == b'c'
    then (do (v, vs) ← va_int vs; ok (1, ocdev.putc (u8 v) st, vs))
    else if c == b'%'
    then ok (1, ocdev.putc b'%' st, vs)
    else ok (0, st, vs)

unfoldable pub vdprintf_loop :
    {S : Type 0} → ℕ → Ocdev S → Memory → (format : ℕ) → VaList → (ret : ℕ) → S → Run (ℕ × S)
unfolding parse_format_specifier run_specifier
vdprintf_loop zero ocdev m format vs ret st = out_of_fuel
vdprintf_loop (suc k) ocdev m format vs ret st =
    let specified = do
      (spec, format, vs) ← parse_format_specifier k m format vs
      (n, st, vs) ← run_specifier k ocdev spec m vs st
      vdprintf_loop k ocdev m format vs (ret + n) st
    in let plain = vdprintf_loop k ocdev m (format + 1) vs (ret + 1) (ocdev.putc (m format) st) in
      if m format == 0 then ok (ret, st) else if m format == b'%' then specified else plain

unfoldable pub vdprintf :
    {S : Type 0} → ℕ → Ocdev S → Memory → (format : ℕ) → VaList → S → Run (ℕ × S)
unfolding vdprintf_loop
vdprintf k ocdev m format vs st = vdprintf_loop k ocdev m format vs 0 st
