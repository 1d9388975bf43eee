-- ===== src/Io/Printf/Digits.antt =====
-- The digits that the integer printers of src/io/printf.c write into their buffer.
use native.Mathlib.Nat.{div-add-mod', div-lt_iff_lt-mul, mod-lt, pow-suc, pow-zero}
use mathlib.Core.List.{append_assoc, map-append}
use beaveros.Base.{
  ℕ, zero, suc, ◌+◌, ◌*◌, ◌/◌, ◌%◌, ◌^◌, ◌<◌, ◌≡◌, ◌≢◌, refl, sym, ap, ◌∙◌, arith, Bool, List, [],
  ◌∷◌, ◌++◌, map, ◌==◌, ==_iff,
}
use beaveros.Base.Run.{Returns, returns, Returns-map, Returns-if}
use beaveros.Io.Printf.Integer.{digit, digits_loop}

-- The number that a list of digits stands for, the first digit the highest, with `acc` in front.
abbrev pub numeral_from : (base acc : ℕ) → List ℕ → ℕ
numeral_from base acc [] = acc
numeral_from base acc (x ∷ xs) = numeral_from base (acc * base + x) xs

abbrev pub AllBelow : ℕ → List ℕ → Type 0
AllBelow b [] = Unit {0}
AllBelow b (x ∷ xs) = (x < b) × AllBelow b xs

-- No zero in front.
abbrev pub IsCanonical : List ℕ → Type 0
IsCanonical [] = Unit {0}
IsCanonical (x ∷ xs) = 0 < x

-- `out` is the shortest numeral of `d` in the base; that of 0 is empty.
pub record IsNumeral (upper : Bool) (base d : ℕ) (out : List ℕ) : Type 0 where
  pub digits : List ℕ
  pub written : out ≡ map (digit upper) digits
  pub value : numeral_from base 0 digits ≡ d
  pub below : AllBelow base digits
  pub canonical : IsCanonical digits

numeral_from-snoc :
    (base acc : ℕ) (xs : List ℕ) (x : ℕ)
    → numeral_from base acc (xs ++ x ∷ []) ≡ numeral_from base acc xs * base + x
numeral_from-snoc base acc [] x = refl
numeral_from-snoc base acc (y ∷ ys) x = numeral_from-snoc base (acc * base + y) ys x

AllBelow-snoc : (b : ℕ) (xs : List ℕ) (x : ℕ) → AllBelow b xs → x < b → AllBelow b (xs ++ x ∷ [])
AllBelow-snoc b [] x all h = (h, tt)
AllBelow-snoc b (y ∷ ys) x all h = (all.0, AllBelow-snoc b ys x all.1 h)

IsCanonical-snoc :
    (base d : ℕ) (xs : List ℕ)
    → d ≢ 0
    → numeral_from base 0 xs ≡ d / base
    → IsCanonical xs
    → IsCanonical (xs ++ (d % base) ∷ [])
IsCanonical-snoc base d (y ∷ ys) h value c = c
IsCanonical-snoc base d [] h value c =
    omega (arith, div-add-mod' d base, ap (λ (t : ℕ). t * base) value)

IsNumeral-zero : (upper : Bool) (base d : ℕ) → d ≡ 0 → IsNumeral upper base d []
IsNumeral-zero upper base d h = record {
  digits = [];
  written = refl;
  value = sym h;
  below = tt;
  canonical = tt;
}

IsNumeral-snoc :
    (upper : Bool) (base d : ℕ) (num : List ℕ)
    → 1 < base
    → d ≢ 0
    → IsNumeral upper base (d / base) num
    → IsNumeral upper base d (num ++ digit upper (d % base) ∷ [])
IsNumeral-snoc upper base d num b h n = record {
  digits = n.digits ++ (d % base) ∷ [];
  written = rw (n.written, map-append) refl;
  value =
      numeral_from-snoc base 0 n.digits (d % base)
      ∙ omega (arith, div-add-mod' d base, ap (λ (t : ℕ). t * base) n.value);
  below = AllBelow-snoc base n.digits (d % base) n.below (mod-lt d (omega arith));
  canonical = IsCanonical-snoc base d n.digits h n.value n.canonical;
}

-- The loop puts the numeral in front of what stands in the buffer, if it has the room.
pub digits_loop-Returns :
    (room : ℕ) (upper : Bool) (base d : ℕ) (buf : List ℕ)
    → 1 < base
    → d < base ^ room
    → Returns
        (λ out. (num : List ℕ) × (out ≡ num ++ buf) × IsNumeral upper base d num)
        (digits_loop room upper base d buf)
unfolding digits_loop
digits_loop-Returns zero upper base d buf b h =
    let z : d ≡ 0 = omega (arith, pow-zero base) in
    Returns-if (d == 0) (λ _. returns ([], refl, IsNumeral-zero upper base d z))
      (λ nz. ground arith)
digits_loop-Returns (suc room) upper base d buf b h =
    let smaller : d / base < base ^ room =
      (div-lt_iff_lt-mul (omega arith)).1 (omega (arith, pow-suc base room)) in
    let low = digit upper (d % base) in
    Returns-if (d == 0) (λ z. returns ([], refl, IsNumeral-zero upper base d ((==_iff d 0).0 z)))
      (λ nz.
        let other : d ≢ 0 = ground arith in
        Returns-map (digits_loop-Returns room upper base (d / base) (low ∷ buf) b smaller)
          λ out (num, split, n). (
            num ++ low ∷ [],
            split ∙ sym (append_assoc num (low ∷ []) buf),
            IsNumeral-snoc upper base d num b other n,
          ))
