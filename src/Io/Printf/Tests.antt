-- ===== src/Io/Printf/Tests.antt =====
-- Runs of src/io/printf.c on a device that keeps its characters, and its theorems at inputs.
use beaveros.Base.{ℕ, zero, suc, ◌-◌, ◌≡◌, ◌^◌, refl, arith, List, [], ◌∷◌, ◌++◌, length, false}
use beaveros.Base.Memory.{Memory}
use beaveros.Base.Run.{Run, ok, Returns}
use beaveros.Io.Ocdev.{Ocdev, put_all}
use beaveros.Io.Printf.{FormatSpecifier, VaList, length_none, atoi}
use beaveros.Io.Printf.Integer.{signed, print_integer, digits_loop, max}
use beaveros.Io.Printf.Vdprintf.{vdprintf}
use beaveros.Io.Printf.Figures.{Written}
use beaveros.Io.Printf.Number.{number_text, printed}
use beaveros.Io.Printf.Conversion.{print_integer_correct}
use beaveros.Io.Printf.Text.{atoi-digits_loop, vdprintf_plain}

abbrev keep : ℕ → List ℕ → List ℕ
keep c out = out ++ c ∷ []

abbrev recorder : Ocdev (List ℕ)
recorder = record {
  putc = keep;
  puts = λ str out. (length str, put_all keep str out);
  putns = λ str out. (length str, put_all keep str out);
  puts_lem = λ str out. refl;
  putns_lem = λ str out. refl;
}

-- The memory that holds these bytes from the address 0 on, and zeros behind them.
abbrev bytes_at : List ℕ → Memory
bytes_at [] a = 0
bytes_at (x ∷ xs) zero = x
bytes_at (x ∷ xs) (suc a) = bytes_at xs a

abbrev sprintf : List ℕ → VaList → Run (ℕ × List ℕ)
sprintf format vs = vdprintf 12 recorder (bytes_at format) 0 vs []

-- "%d %s" has the string at the address 6.
formatted : Run (ℕ × List ℕ)
unfolding vdprintf
formatted =
    sprintf (b'%' ∷ b'd' ∷ b' ' ∷ b'%' ∷ b's' ∷ 0 ∷ b'o' ∷ b'k' ∷ []) ((2 ^ 32 - 42) ∷ 6 ∷ [])

formatted_result : formatted ≡ ok (6, b'-' ∷ b'4' ∷ b'2' ∷ b' ' ∷ b'o' ∷ b'k' ∷ [])
unfolding formatted
formatted_result = refl

-- "%#.4x"
hexadecimal : Run (ℕ × List ℕ)
unfolding vdprintf
hexadecimal = sprintf (b'%' ∷ b'#' ∷ b'.' ∷ b'4' ∷ b'x' ∷ []) (0xab ∷ [])

hexadecimal_result : hexadecimal ≡ ok (6, b'0' ∷ b'x' ∷ b'0' ∷ b'0' ∷ b'a' ∷ b'b' ∷ [])
unfolding hexadecimal
hexadecimal_result = refl

-- "%05d": the zeros stand in front of the sign.
zero_padded : Run (ℕ × List ℕ)
unfolding vdprintf
zero_padded = sprintf (b'%' ∷ b'0' ∷ b'5' ∷ b'd' ∷ []) ((2 ^ 32 - 42) ∷ [])

zero_padded_result : zero_padded ≡ ok (5, b'0' ∷ b'0' ∷ b'-' ∷ b'4' ∷ b'2' ∷ [])
unfolding zero_padded
zero_padded_result = refl

-- "%d" of INT_MIN
most_negative : Run (ℕ × List ℕ)
unfolding vdprintf
most_negative = sprintf (b'%' ∷ b'd' ∷ []) (2 ^ 31 ∷ [])

most_negative_result : most_negative ≡ ok (2, b'-' ∷ b'0' ∷ [])
unfolding most_negative
most_negative_result = refl

abbrev wide : FormatSpecifier
wide = record {
  flags = 0;
  specifier = b'd';
  width = 6;
  precision = 0;
  length_modifier = length_none;
}

print_integer_correct_example :
    Returns
      (λ (n, st').
        (digits : List ℕ) × Written false 10 42 digits
        × (n ≡ max 6 (length (number_text wide b'-' [] digits)))
        × (st' ≡ put_all keep (printed wide b'-' [] digits) []))
      (print_integer signed 32 recorder wide (2 ^ 32 - 42) [])
print_integer_correct_example =
    print_integer_correct recorder signed 31 (2 ^ 32 - 42) wide [] (omega arith) (omega arith)
      (λ same. omega arith)

number_printed : digits_loop 24 false 10 640 [] ≡ ok (b'6' ∷ b'4' ∷ b'0' ∷ [])
unfolding digits_loop
number_printed = refl

atoi-digits_loop_example : atoi 4 (bytes_at (b'6' ∷ b'4' ∷ b'0' ∷ [])) 0 ≡ ok (640, 3)
atoi-digits_loop_example =
    atoi-digits_loop 640 4 (bytes_at (b'6' ∷ b'4' ∷ b'0' ∷ [])) 0 (b'6' ∷ b'4' ∷ b'0' ∷ [])
      (omega arith) number_printed (omega arith) refl (omega arith)

vdprintf_plain_example :
    vdprintf 3 recorder (bytes_at (b'o' ∷ b'k' ∷ [])) 0 [] [] ≡ ok (2, b'o' ∷ b'k' ∷ [])
vdprintf_plain_example =
    vdprintf_plain recorder (b'o' ∷ b'k' ∷ []) 3 (bytes_at (b'o' ∷ b'k' ∷ [])) 0 [] [] (omega arith)
      (omega arith) (omega arith)
