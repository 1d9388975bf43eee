-- ===== src/Io/Printf/Figures.antt =====
-- The numerals that the integer printers of src/io/printf.c write, with the characters of the
-- digits as two tables, in the places of the `DIGITS` that the code picks.
use beaveros.Base.{
  map, ℕ, zero, suc, ◌+◌, ◌<◌, ◌≤◌, ◌≡◌, ◌∙◌, sym, refl, ap, arith, Bool, true, false, List, [],
  ◌∷◌,
}
use beaveros.Io.Printf.Integer.{digit}
use beaveros.Io.Printf.Digits.{IsNumeral, AllBelow, IsCanonical, numeral_from}

abbrev pub figures : (capitals : Bool) → List ℕ
figures false =
    b'0' ∷ b'1' ∷ b'2' ∷ b'3' ∷ b'4' ∷ b'5' ∷ b'6' ∷ b'7' ∷ b'8' ∷ b'9' ∷ b'a' ∷ b'b' ∷ b'c' ∷ b'd'
    ∷ b'e' ∷ b'f' ∷ []
figures true =
    b'0' ∷ b'1' ∷ b'2' ∷ b'3' ∷ b'4' ∷ b'5' ∷ b'6' ∷ b'7' ∷ b'8' ∷ b'9' ∷ b'A' ∷ b'B' ∷ b'C' ∷ b'D'
    ∷ b'E' ∷ b'F' ∷ []

abbrev pub nth : List ℕ → ℕ → ℕ
nth [] i = 0
nth (x ∷ xs) zero = x
nth (x ∷ xs) (suc i) = nth xs i

-- `out` is the shortest numeral of `d` in the base, in these characters; that of 0 is empty.
pub record Written (capitals : Bool) (base d : ℕ) (out : List ℕ) : Type 0 where
  pub digits : List ℕ
  pub characters : out ≡ map (nth (figures capitals)) digits
  pub value : numeral_from base 0 digits ≡ d
  pub below : AllBelow base digits
  pub canonical : IsCanonical digits

abbrev counted : (first n : ℕ) → List ℕ
counted first zero = []
counted first (suc n) = first ∷ counted (suc first) n

nth-counted : (f : ℕ → ℕ) (first n i : ℕ) → i < n → nth (map f (counted first n)) i ≡ f (first + i)
nth-counted f first zero i h = absurd (omega arith)
nth-counted f first (suc n) zero h = ap f (omega arith)
nth-counted f first (suc n) (suc i) h =
    nth-counted f (suc first) n i (omega arith) ∙ ap f (omega arith)

digit-figures : (capitals : Bool) → map (digit capitals) (counted 0 16) ≡ figures capitals
unfolding digit
digit-figures false = refl
digit-figures true = refl

digit_lem : (capitals : Bool) (x : ℕ) → x < 16 → digit capitals x ≡ nth (figures capitals) x
digit_lem capitals x h =
    let at : x ≡ 0 + x = omega arith in
    ap (digit capitals) at
    ∙ sym (nth-counted (digit capitals) 0 16 x h)
    ∙ ap (λ (l : List ℕ). nth l x) (digit-figures capitals)

map-digit :
    (capitals : Bool) (base : ℕ) (ds : List ℕ)
    → base ≤ 16
    → AllBelow base ds
    → map (digit capitals) ds ≡ map (nth (figures capitals)) ds
map-digit capitals base [] small all = refl
map-digit capitals base (x ∷ xs) small all =
    rw (digit_lem capitals x (omega (arith, all.0)), map-digit capitals base xs small all.1) refl

pub IsNumeral-Written :
    (capitals : Bool) (base d : ℕ) (out : List ℕ)
    → base ≤ 16
    → IsNumeral capitals base d out
    → Written capitals base d out
IsNumeral-Written capitals base d out small n = record {
  digits = n.digits;
  characters = n.written ∙ map-digit capitals base n.digits small n.below;
  value = n.value;
  below = n.below;
  canonical = n.canonical;
}
