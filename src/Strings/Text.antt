-- ===== src/Strings/Text.antt =====
-- The string functions of src/string.c against the strings that stand in the memory.
use native.Mathlib.Decide.{ℕ_discrete}
use beaveros.Base.{
  ℕ, zero, suc, ◌+◌, ◌<◌, ◌≡◌, ◌↔◌, ◌^◌, refl, arith, if◌then◌else◌, u64, List, [], ◌∷◌, length,
  take, some,
}
use beaveros.Base.Int.{ℤ, pos, signed8, eq_ℤ, ◌-ℤ◌}
use beaveros.Base.Memory.{Memory}
use beaveros.Strings.{
  difference, strcmp, strncmp_loop, strncmp, strlen_loop, strlen, strchr, IsString,
}

strlen_loop_lem :
    (k : ℕ) (m : Memory) (a ans : ℕ) (xs : List ℕ)
    → IsString m a xs
    → length xs < k
    → ans + length xs < 2 ^ 64
    → strlen_loop k m a ans ≡ some (ans + length xs)
unfolding strlen_loop
strlen_loop_lem zero m a ans xs s f w = absurd (omega arith)
strlen_loop_lem (suc k) m a ans [] s f w = ground arith
strlen_loop_lem (suc k) m a ans (x ∷ xs) s f w =
    ground (arith, strlen_loop_lem k m (a + 1) (u64 (ans + 1)) xs s.3)

-- `strlen` returns the length of the string, in as many rounds as it has bytes and one more.
pub strlen_lem :
    (k : ℕ) (m : Memory) (str : ℕ) (xs : List ℕ)
    → IsString m str xs
    → length xs < k
    → length xs < 2 ^ 64
    → strlen k m str ≡ some (length xs)
unfolding strlen
strlen_lem k m a xs s f w = ground (arith, strlen_loop_lem k m a 0 xs s f)

-- Two bytes differ by 0 as signed chars only if they are equal.
difference-zero :
    (m : Memory) (a b : ℕ) → m a < 256 → m b < 256 → (difference m a b ≡ pos 0) ↔ (m a ≡ m b)
unfolding difference ◌-ℤ◌
difference-zero m a b p q = ground arith

IsString-lt : (m : Memory) (a : ℕ) (xs : List ℕ) → IsString m a xs → m a < 256
IsString-lt m a [] s = omega arith
IsString-lt m a (x ∷ xs) s = omega arith

-- `strcmp` returns 0 exactly for two equal strings, in as many rounds as the first has bytes and
-- one more.
pub strcmp_correct :
    (k : ℕ) (m : Memory) (str1 str2 : ℕ) (xs ys : List ℕ)
    → IsString m str1 xs
    → IsString m str2 ys
    → length xs < k
    → (d : ℤ) × (strcmp k m str1 str2 ≡ some d) × ((d ≡ pos 0) ↔ (xs ≡ ys))
unfolding strcmp
strcmp_correct zero m a b xs ys s t f = absurd (omega arith)
strcmp_correct (suc k) m a b [] [] s t f =
    (difference m a b, ground arith, ground (arith, difference-zero m a b))
strcmp_correct (suc k) m a b [] (y ∷ ys) s t f =
    (difference m a b, ground arith, ground (arith, difference-zero m a b))
strcmp_correct (suc k) m a b (x ∷ xs) [] s t f =
    (difference m a b, ground arith, ground (arith, difference-zero m a b))
strcmp_correct (suc k) m a b (x ∷ xs) (y ∷ ys) s t f = elim (ℕ_discrete x y) [
  | yes same ↦
      let (d, r, i) = strcmp_correct k m (a + 1) (b + 1) xs ys s.3 t.3 (omega arith) in
      (d, ground arith, (λ z. ground (arith, i.0 z), λ z. i.1 (ground arith)))
  | no differ ↦ (difference m a b, ground arith, ground (arith, difference-zero m a b))
]

strncmp_loop-zero :
    (n : ℕ) (m : Memory) (a b : ℕ) (xs ys : List ℕ)
    → IsString m a xs
    → IsString m b ys
    → (strncmp_loop n m a b ≡ pos 0) ↔ (take (suc n) xs ≡ take (suc n) ys)
unfolding strncmp_loop
strncmp_loop-zero zero m a b [] [] s t = ground (arith, difference-zero m a b)
strncmp_loop-zero zero m a b [] (y ∷ ys) s t = ground (arith, difference-zero m a b)
strncmp_loop-zero zero m a b (x ∷ xs) [] s t = ground (arith, difference-zero m a b)
strncmp_loop-zero zero m a b (x ∷ xs) (y ∷ ys) s t = ground (arith, difference-zero m a b)
strncmp_loop-zero (suc n) m a b [] [] s t = ground (arith, difference-zero m a b)
strncmp_loop-zero (suc n) m a b [] (y ∷ ys) s t = ground (arith, difference-zero m a b)
strncmp_loop-zero (suc n) m a b (x ∷ xs) [] s t = ground (arith, difference-zero m a b)
strncmp_loop-zero (suc n) m a b (x ∷ xs) (y ∷ ys) s t = elim (ℕ_discrete x y) [
  | yes same ↦
      let i = strncmp_loop-zero n m (a + 1) (b + 1) xs ys s.3 t.3 in
      (λ z. ground (arith, i.0 (ground arith)), λ z. ground (arith, i.1 (ground arith)))
  | no differ ↦ ground (arith, difference-zero m a b)
]

-- `strncmp` returns 0 exactly if the strings agree on their first `n` bytes.
pub strncmp_correct :
    (n : ℕ) (m : Memory) (str1 str2 : ℕ) (xs ys : List ℕ)
    → IsString m str1 xs
    → IsString m str2 ys
    → (strncmp m str1 str2 n ≡ pos 0) ↔ (take n xs ≡ take n ys)
unfolding strncmp
strncmp_correct zero m a b xs ys s t = (λ z. refl, λ z. refl)
strncmp_correct (suc n) m a b xs ys s t = strncmp_loop-zero n m a b xs ys s t

-- Where `strchr` stops: at the first byte that is the character, or at NULL.
unfoldable pub first_at : ℕ → ℤ → List ℕ → ℕ
first_at a c [] = 0
first_at a c (x ∷ xs) = if eq_ℤ (signed8 x) c then a else first_at (a + 1) c xs

-- `strchr` returns the address of the first byte that is the character, and NULL if there is none.
-- The NUL at the end is not found, also where it is the character looked for.
pub strchr_correct :
    (k : ℕ) (m : Memory) (str : ℕ) (c : ℤ) (xs : List ℕ)
    → IsString m str xs
    → length xs < k
    → strchr k m str c ≡ some (first_at str c xs)
unfolding strchr first_at
strchr_correct zero m a c xs s f = absurd (omega arith)
strchr_correct (suc k) m a c [] s f = ground arith
strchr_correct (suc k) m a c (x ∷ xs) s f = ground (arith, strchr_correct k m (a + 1) c xs s.3)
