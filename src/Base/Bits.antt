-- ===== src/Base/Bits.antt =====
-- `&` and `|` of words by fields: the operations act on the bits above and below a position.
use Prim.Native.Nat.{min, max, digits, bitwise, bit_and-bitwise, bit_or-bitwise}
use native.Mathlib.Nat.{le_refl, pow-suc, one-le-pow, mod-lt, div-add-mod'}
use Prim.Native.Nat.{ℕ, zero, suc, ◌+◌, ◌-◌, ◌*◌, ◌/◌, ◌%◌, ◌^◌, ◌<◌, ◌≤◌, bit_and, bit_or}
use mathlib.Core.Path.{◌≡◌, refl, ◌∙◌}
use native.Mathlib.Omega.{arith}

-- The recursion on binary digits that defines the operations, without its fuel.
module _ (edge : ℕ → ℕ) (digit : ℕ → ℕ → ℕ) where
  enough_digits :
      (fuel half a b : ℕ)
      → a ≤ half
      → a ≤ fuel
      → digits edge digit fuel a b ≡ digits edge digit half a b
  enough_digits (suc fuel) (suc half) (suc a) b h h' =
      let fits : suc a / 2 ≤ half = omega arith in
      let fits' : suc a / 2 ≤ fuel = omega arith in
      rw (enough_digits fuel half (suc a / 2) (b / 2) fits fits')
  enough_digits zero half (suc a) b h h' = absurd (omega arith)
  enough_digits (suc fuel) zero (suc a) b h h' = absurd (omega arith)
  enough_digits zero zero zero b h h' = refl
  enough_digits zero (suc half) zero b h h' = refl
  enough_digits (suc fuel) zero zero b h h' = refl
  enough_digits (suc fuel) (suc half) zero b h h' = refl

  lowest_digit :
      (a b : ℕ)
      → bitwise edge digit (suc a) b
        ≡ bitwise edge digit (suc a / 2) (b / 2) * 2 + digit (suc a % 2) (b % 2)
  lowest_digit a b =
      let half_le_a : suc a / 2 ≤ a = omega arith in
      omega (arith, enough_digits a (suc a / 2) (suc a / 2) (b / 2) (le_refl (suc a / 2)) half_le_a)

-- The operations distribute over the halves and the lowest digits of their arguments.
pub bit_or-half : (m n : ℕ) → bit_or m n ≡ bit_or (m / 2) (n / 2) * 2 + max (m % 2) (n % 2)
bit_or-half zero n = simp bit_or-bitwise (omega arith)
bit_or-half (suc m) n = simp bit_or-bitwise (lowest_digit (λ y. y) max m n)

pub bit_and-half : (m n : ℕ) → bit_and m n ≡ bit_and (m / 2) (n / 2) * 2 + min (m % 2) (n % 2)
bit_and-half zero n = simp bit_and-bitwise (omega arith)
bit_and-half (suc m) n = simp bit_and-bitwise (lowest_digit (λ y. 0) min m n)

double : (q k : ℕ) → q * 2 ^ suc k ≡ 2 * (q * 2 ^ k)
double q k = grind (arith, pow-suc 2 k)

-- An operation that acts digit by digit acts on two fields apart.
module _ (op f : ℕ → ℕ → ℕ) (half : (a b : ℕ) → op a b ≡ op (a / 2) (b / 2) * 2 + f (a % 2) (b % 2))
    (none : op 0 0 ≡ 0) where
  op-fields :
      (k a b c d : ℕ)
      → b < 2 ^ k
      → d < 2 ^ k
      → op (a * 2 ^ k + b) (c * 2 ^ k + d) ≡ op a c * 2 ^ k + op b d
  op-fields zero a b c d p q =
      let b0 : b ≡ 0 = omega arith in
      let d0 : d ≡ 0 = omega arith in
      let left : a * 1 + 0 ≡ a = omega arith in
      let right : c * 1 + 0 ≡ c = omega arith in rw (b0, d0, left, right, none) (omega arith)
  op-fields (suc k) a b c d p q =
      let e1 : (a * 2 ^ suc k + b) / 2 ≡ a * 2 ^ k + b / 2 = omega (arith, double a k) in
      let e2 : (c * 2 ^ suc k + d) / 2 ≡ c * 2 ^ k + d / 2 = omega (arith, double c k) in
      let e3 : (a * 2 ^ suc k + b) % 2 ≡ b % 2 = omega (arith, double a k) in
      let e4 : (c * 2 ^ suc k + d) % 2 ≡ d % 2 = omega (arith, double c k) in
      let ih =
        op-fields k a (b / 2) c (d / 2) (omega (arith, pow-suc 2 k)) (omega (arith, pow-suc 2 k)) in
      let whole = half (a * 2 ^ suc k + b) (c * 2 ^ suc k + d) in
      let low = half b d in whole ∙ rw (e1, e2, e3, e4, ih, low) (omega (arith, double (op a c) k))

pub bit_and-fields :
    (k a b c d : ℕ)
    → b < 2 ^ k
    → d < 2 ^ k
    → bit_and (a * 2 ^ k + b) (c * 2 ^ k + d) ≡ bit_and a c * 2 ^ k + bit_and b d
bit_and-fields = op-fields bit_and min bit_and-half refl

pub bit_or-fields :
    (k a b c d : ℕ)
    → b < 2 ^ k
    → d < 2 ^ k
    → bit_or (a * 2 ^ k + b) (c * 2 ^ k + d) ≡ bit_or a c * 2 ^ k + bit_or b d
bit_or-fields = op-fields bit_or max bit_or-half refl

bit_or-zero_under : (k a : ℕ) → a ≤ k → bit_or a 0 ≡ a
bit_or-zero_under k zero h = refl
bit_or-zero_under zero (suc a) h = absurd (omega arith)
bit_or-zero_under (suc k) (suc a) h =
    omega (arith, bit_or-half (suc a) 0, bit_or-zero_under k (suc a / 2) (omega arith))

pub bit_or-zero : (a : ℕ) → bit_or a 0 ≡ a
bit_or-zero a = bit_or-zero_under a a (le_refl a)

pub zero-bit_or : (a : ℕ) → bit_or 0 a ≡ a
zero-bit_or a = simp bit_or-bitwise refl

-- By strong recursion through a bound on the word.
bit_and-zero_under : (bound w : ℕ) → w ≤ bound → bit_and w 0 ≡ 0
bit_and-zero_under zero w h = let none : w ≡ 0 = omega arith in rw (none)
bit_and-zero_under (suc bound) w h =
    let half_fits : w / 2 ≤ bound = omega arith in
    omega (arith, bit_and-half w 0, bit_and-zero_under bound (w / 2) half_fits)

pub bit_and-zero : (w : ℕ) → bit_and w 0 ≡ 0
bit_and-zero w = bit_and-zero_under w w (le_refl w)

mod_unique : (d q r n : ℕ) → r < d → n ≡ q * d + r → n % d ≡ r
mod_unique d q r n h e = grind arith

mod-double : (a p : ℕ) → 0 < p → a % (p * 2) ≡ a / 2 % p * 2 + a % 2
mod-double a p h =
    mod_unique (p * 2) (a / 2 / p) (a / 2 % p * 2 + a % 2) a (omega (arith, mod-lt (a / 2) h))
      (omega (arith, div-add-mod' (a / 2) p))

-- A mask of `k` low bits is the remainder by `2 ^ k`.
pub bit_and-mask : (k a : ℕ) → bit_and a (2 ^ k - 1) ≡ a % 2 ^ k
bit_and-mask zero a = rw (bit_and-zero a) (omega arith)
bit_and-mask (suc k) a =
    let pos = one-le-pow k 2 (omega arith) in
    let twice = pow-suc 2 k in
    let upper : (2 ^ suc k - 1) / 2 ≡ 2 ^ k - 1 = omega arith in
    let odd : (2 ^ suc k - 1) % 2 ≡ 1 = omega arith in
    bit_and-half a (2 ^ suc k - 1)
    ∙ rw (upper, odd, bit_and-mask k (a / 2), twice, mod-double a (2 ^ k) pos) (omega arith)

-- A word in three fields: the bits 52 to 63, 12 to 51, and 0 to 11.
abbrev pub word : ℕ → ℕ → ℕ → ℕ
word t m l = (t * 2 ^ 40 + m) * 2 ^ 12 + l

module _ (t m l t' m' l' : ℕ) (hm : m < 2 ^ 40) (hl : l < 2 ^ 12) (hm' : m' < 2 ^ 40)
    (hl' : l' < 2 ^ 12) where
  pub bit_and-word :
      bit_and (word t m l) (word t' m' l') ≡ word (bit_and t t') (bit_and m m') (bit_and l l')
  bit_and-word =
      bit_and-fields 12 (t * 2 ^ 40 + m) l (t' * 2 ^ 40 + m') l' hl hl'
      ∙ rw (bit_and-fields 40 t m t' m' hm hm')

  pub bit_or-word :
      bit_or (word t m l) (word t' m' l') ≡ word (bit_or t t') (bit_or m m') (bit_or l l')
  bit_or-word =
      bit_or-fields 12 (t * 2 ^ 40 + m) l (t' * 2 ^ 40 + m') l' hl hl'
      ∙ rw (bit_or-fields 40 t m t' m' hm hm')

-- Every word is three fields.
pub word-fields : (w : ℕ) → w ≡ word (w / 2 ^ 52) (w / 2 ^ 12 % 2 ^ 40) (w % 2 ^ 12)
word-fields w = omega arith

pub bit_or-lt : (k a b : ℕ) → a < 2 ^ k → b < 2 ^ k → bit_or a b < 2 ^ k
bit_or-lt zero a b p q =
    let a0 : a ≡ 0 = omega arith in let b0 : b ≡ 0 = omega arith in rw (a0, b0) (omega arith)
bit_or-lt (suc k) a b p q =
    let twice = pow-suc 2 k in
    omega (arith, bit_or-half a b, bit_or-lt k (a / 2) (b / 2) (omega arith) (omega arith))

pub bit_and-lt : (k a b : ℕ) → b < 2 ^ k → bit_and a b < 2 ^ k
bit_and-lt zero a b q = let b0 : b ≡ 0 = omega arith in rw (b0, bit_and-zero a) (omega arith)
bit_and-lt (suc k) a b q =
    let twice = pow-suc 2 k in
    omega (arith, bit_and-half a b, bit_and-lt k (a / 2) (b / 2) (omega arith))

-- `w & (mask << k)`, for a word with the upper field `q` and a mask of `n` bits.
pub bit_and-middle :
    (k n q r : ℕ)
    → 0 < 2 ^ k
    → r < 2 ^ k
    → bit_and (q * 2 ^ k + r) ((2 ^ n - 1) * 2 ^ k + 0) ≡ q % 2 ^ n * 2 ^ k + 0
bit_and-middle k n q r pos h =
    bit_and-fields k q r (2 ^ n - 1) 0 h pos ∙ rw (bit_and-mask n q, bit_and-zero r) refl
