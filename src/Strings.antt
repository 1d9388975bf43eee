-- ===== src/Strings.antt =====
-- src/string.c over a memory of bytes. `char` is signed, as gcc has it on x86. A loop that runs to
-- a NUL byte takes fuel, and `none` means that the fuel ran out; a counted loop recurs on its count.
pub mod Text
pub mod Blocks
mod Tests
use beaveros.Base.{
  ℕ, zero, suc, ◌+◌, ◌<◌, ◌≡◌, ◌≢◌, Bool, not, ◌&&◌, Option, none, some, List, [], ◌∷◌, ltb, ◌==◌,
  if◌then◌else◌, u8, u64,
}
use beaveros.Base.Int.{ℤ, pos, ◌-ℤ◌, signed8, eq_ℤ}
use beaveros.Base.Memory.{Memory, store}

-- `(int) *str1 - (int) *str2`
unfoldable pub difference : Memory → ℕ → ℕ → ℤ
unfolding ◌-ℤ◌
difference m a b = signed8 (m a) -ℤ signed8 (m b)

-- `*str1 && *str1 == *str2`
abbrev pub both_same : Memory → ℕ → ℕ → Bool
both_same m a b = not (m a == 0) && (m a == m b)

unfoldable pub strcmp : ℕ → Memory → (str1 str2 : ℕ) → Option ℤ
unfolding difference
strcmp zero m a b = none
strcmp (suc k) m a b =
    let rest = strcmp k m (a + 1) (b + 1) in
    if both_same m a b then rest else some (difference m a b)

-- The loop of `strncmp`, with the count after its first `--n`.
unfoldable pub strncmp_loop : ℕ → Memory → (str1 str2 : ℕ) → ℤ
unfolding difference
strncmp_loop zero m a b = difference m a b
strncmp_loop (suc n) m a b =
    let rest = strncmp_loop n m (a + 1) (b + 1) in
    if both_same m a b then rest else difference m a b

unfoldable pub strncmp : Memory → (str1 str2 : ℕ) → ℕ → ℤ
unfolding strncmp_loop
strncmp m a b zero = pos 0
strncmp m a b (suc n) = strncmp_loop n m a b

unfoldable pub strlen_loop : ℕ → Memory → (str ans : ℕ) → Option ℕ
strlen_loop zero m a ans = none
strlen_loop (suc k) m a ans =
    let rest = strlen_loop k m (a + 1) (u64 (ans + 1)) in if m a == 0 then some ans else rest

unfoldable pub strlen : ℕ → Memory → ℕ → Option ℕ
unfolding strlen_loop
strlen k m a = strlen_loop k m a 0

-- The result is an address, 0 for NULL. The promoted `char` is compared with the `int`.
unfoldable pub strchr : ℕ → Memory → (str : ℕ) (character : ℤ) → Option ℕ
strchr zero m a c = none
strchr (suc k) m a c =
    let rest = strchr k m (a + 1) c in
    if not (m a == 0) && not (eq_ℤ (signed8 (m a)) c)
    then rest
    else some (if m a == 0 then 0 else a)

-- The forward loop of `memcpy` and `memmove`.
unfoldable pub copy_forward : Memory → (dest src num : ℕ) → Memory
copy_forward m d s zero = m
copy_forward m d s (suc n) = copy_forward (store m d (m s)) (d + 1) (s + 1) n

-- The backward loop of `memmove`.
unfoldable pub copy_backward : Memory → (dest src num : ℕ) → Memory
copy_backward m d s zero = m
copy_backward m d s (suc n) = copy_backward (store m (d + n) (m (s + n))) d s n

unfoldable pub memcpy : Memory → (dest src num : ℕ) → Memory
unfolding copy_forward
memcpy m d s n = copy_forward m d s n

unfoldable pub memmove : Memory → (dest src num : ℕ) → Memory
unfolding copy_forward copy_backward
memmove m d s n =
    if ltb d s then copy_backward m d s n else if ltb s d then copy_forward m d s n else m

unfoldable pub memset : Memory → (ptr val num : ℕ) → Memory
memset m p v zero = m
memset m p v (suc n) = memset (store m (p + n) (u8 v)) p v n

-- At `a` stand the bytes `xs`, none of them NUL, and a NUL.
abbrev pub IsString : Memory → ℕ → List ℕ → Type 0
IsString m a [] = m a ≡ 0
IsString m a (x ∷ xs) = (m a ≡ x) × (x ≢ 0) × (x < 256) × IsString m (a + 1) xs
