-- ===== src/Io/Printf/Text.antt =====
-- The text of a format in src/io/printf.c: numbers that atoi reads, and characters that vdprintf
-- copies.
use mathlib.Core.List.{append-nil}
use beaveros.Base.{
  ℕ, zero, suc, ◌+◌, ◌-◌, ◌*◌, ◌^◌, ◌<◌, ◌≤◌, ◌≡◌, ◌≢◌, refl, ap, ◌∙◌, arith, true, false, List, [],
  ◌∷◌, length, map, ◌==◌, u16,
}
use beaveros.Base.Memory.{Memory}
use beaveros.Base.Run.{ok, Returns-value}
use beaveros.Strings.{IsString}
use beaveros.Io.Ocdev.{Ocdev, put_all}
use beaveros.Io.Printf.{is_digit, atoi, atoi_loop, VaList}
use beaveros.Io.Printf.Integer.{digit, digits_loop}
use beaveros.Io.Printf.Vdprintf.{vdprintf, vdprintf_loop}
use beaveros.Io.Printf.Digits.{numeral_from, AllBelow, digits_loop-Returns}

length-map : (ds : List ℕ) → length (map (digit false) ds) ≡ length ds
length-map [] = refl
length-map (x ∷ xs) = ap suc (length-map xs)

-- The bytes at `a`.
abbrev pub Holds : Memory → ℕ → List ℕ → Type 0
Holds m a [] = Unit {0}
Holds m a (x ∷ xs) = (m a ≡ x) × Holds m (a + 1) xs

numeral_from-ge : (acc : ℕ) (ds : List ℕ) → acc ≤ numeral_from 10 acc ds
numeral_from-ge acc [] = omega arith
numeral_from-ge acc (x ∷ xs) = omega (arith, numeral_from-ge (acc * 10 + x) xs)

-- While the number fits into 16 bits, no round wraps.
atoi_loop-digits :
    (ds : List ℕ) (k : ℕ) (m : Memory) (a acc : ℕ)
    → AllBelow 10 ds
    → Holds m a (map (digit false) ds)
    → is_digit (m (a + length ds)) ≡ false
    → length ds < k
    → numeral_from 10 acc ds < 2 ^ 16
    → atoi_loop k m a acc ≡ ok (numeral_from 10 acc ds, a + length ds)
unfolding atoi_loop digit
atoi_loop-digits ds zero m a acc all here stop fuel small = absurd (omega arith)
atoi_loop-digits [] (suc k) m a acc all here stop fuel small =
    let same : a + 0 ≡ a = omega arith in let no_digit = rw same at stop in rw (no_digit, same) refl
atoi_loop-digits (x ∷ xs) (suc k) m a acc all here stop fuel small =
    let ge = numeral_from-ge (acc * 10 + x) xs in
    let code : m a ≡ b'0' + x = here.0 ∙ ground (arith, all.0) in
    let is : is_digit (m a) ≡ true = ground (arith, all.0) in
    let step : u16 (u16 (acc * 10) + (m a - b'0')) ≡ acc * 10 + x = omega arith in
    let next : a + suc (length xs) ≡ a + 1 + length xs = omega arith in
    let no_digit = rw next at stop in
    let ih =
      atoi_loop-digits xs k m (a + 1) (acc * 10 + x) all.1 here.1 no_digit (omega arith) small in
    rw (is, step, next) ih

-- atoi reads back the decimal numeral that the printers write for a number below 2 ^ 16, if no digit
-- follows it: the result is the number and the place behind the numeral.
pub atoi-digits_loop :
    (n k : ℕ) (m : Memory) (a : ℕ) (num : List ℕ)
    → n < 2 ^ 16
    → digits_loop 24 false 10 n [] ≡ ok num
    → Holds m a num
    → is_digit (m (a + length num)) ≡ false
    → length num < k
    → atoi k m a ≡ ok (n, a + length num)
unfolding atoi
atoi-digits_loop n k m a num small printed here stop fuel =
    let returned =
      rw printed at (digits_loop-Returns 24 false 10 n [] (omega arith) (omega arith)) in
    let (out, split, i) = Returns-value returned in
    let written : num ≡ map (digit false) i.digits = split ∙ append-nil out ∙ i.written in
    let size : length num ≡ length i.digits = ap length written ∙ length-map i.digits in
    let read =
      atoi_loop-digits i.digits k m a 0 i.below (rw written at here) (rw size at stop) (omega arith)
        (omega (arith, i.value)) in
    rw size (read ∙ rw i.value refl)

abbrev pub IsPlain : List ℕ → Type 0
IsPlain [] = Unit {0}
IsPlain (x ∷ xs) = (x ≢ b'%') × IsPlain xs

vdprintf_loop-plain :
    {S : Type 0} (dev : Ocdev S) (xs : List ℕ) (k : ℕ) (m : Memory) (a : ℕ) (vs : VaList) (ret : ℕ)
    (st : S)
    → IsString m a xs
    → IsPlain xs
    → length xs < k
    → vdprintf_loop k dev m a vs ret st ≡ ok (ret + length xs, put_all dev.putc xs st)
unfolding vdprintf_loop
vdprintf_loop-plain dev xs zero m a vs ret st string plain fuel = absurd (omega arith)
vdprintf_loop-plain dev [] (suc k) m a vs ret st string plain fuel = rw string (ground arith)
vdprintf_loop-plain dev (x ∷ xs) (suc k) m a vs ret st (here, other, byte, string)
      (no_percent, plain) fuel =
    let nul : (x == 0) ≡ false = ground arith in
    let percent : (x == b'%') ≡ false = ground arith in
    rw (here, nul, percent)
      (vdprintf_loop-plain dev xs k m (a + 1) vs (ret + 1) (dev.putc x st) string plain
          (omega arith)
        ∙ ground arith)

-- vdprintf of a format with no `%` gives the format to the device and returns its length, in as many
-- rounds as it has bytes and one more; it takes no argument.
pub vdprintf_plain :
    {S : Type 0} (dev : Ocdev S) (xs : List ℕ) (k : ℕ) (m : Memory) (a : ℕ) (vs : VaList) (st : S)
    → IsString m a xs
    → IsPlain xs
    → length xs < k
    → vdprintf k dev m a vs st ≡ ok (length xs, put_all dev.putc xs st)
unfolding vdprintf
vdprintf_plain dev xs k m a vs st string plain fuel =
    vdprintf_loop-plain dev xs k m a vs 0 st string plain fuel ∙ ground arith
