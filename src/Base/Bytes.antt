-- ===== src/Base/Bytes.antt =====
-- Little-endian words in a memory of bytes.
use native.Mathlib.Nat.{pow-suc}
use Prim.Native.Nat.{ℕ, zero, suc, ◌+◌, ◌*◌, ◌/◌, ◌%◌, ◌^◌, ◌<◌, ◌≤◌}
use mathlib.Core.Path.{◌≡◌, refl, ◌∙◌}
use mathlib.Core.Logic.{◌⊎◌, inl}
use native.Mathlib.Omega.{arith}
use beaveros.Base.Words.{u8}
use beaveros.Base.Memory.{Memory, store}

-- The word in the `n` bytes at `a`.
unfoldable pub load : (n : ℕ) → Memory → (a : ℕ) → ℕ
load zero m a = 0
load (suc n) m a = m a + 256 * load n m (a + 1)

unfoldable pub store_word : (n : ℕ) → Memory → (a v : ℕ) → Memory
store_word zero m a v = m
store_word (suc n) m a v = store_word n (store m a (u8 v)) (a + 1) (v / 256)

pub store_word-kept :
    (n : ℕ) (m : Memory) (a v b : ℕ) → (b < a) ⊎ (a + n ≤ b) → store_word n m a v b ≡ m b
unfolding store_word
store_word-kept zero m a v b out = refl
store_word-kept (suc n) m a v b out =
    ground (arith, store_word-kept n (store m a (u8 v)) (a + 1) (v / 256) b)

-- Words in memories that agree on their bytes are the same.
pub load-same :
    (n : ℕ) (m m' : Memory) (a : ℕ)
    → ((b : ℕ) → a ≤ b → b < a + n → m' b ≡ m b)
    → load n m' a ≡ load n m a
unfolding load
load-same zero m m' a same = refl
load-same (suc n) m m' a same =
    let rest = load-same n m m' (a + 1) (λ b lo hi. same b (omega arith) (omega arith)) in
    rw (same a (omega arith) (omega arith), rest)

pub load-zeros :
    (n : ℕ) (m : Memory) (a : ℕ) → ((b : ℕ) → a ≤ b → b < a + n → m b ≡ 0) → load n m a ≡ 0
unfolding load
load-zeros zero m a none = refl
load-zeros (suc n) m a none = omega (
  arith,
  none a (omega arith) (omega arith),
  load-zeros n m (a + 1) (λ b lo hi. none b (omega arith) (omega arith)),
)

pub load-store_word :
    (n : ℕ) (m : Memory) (a v : ℕ) → v < 256 ^ n → load n (store_word n m a v) a ≡ v
unfolding load store_word
load-store_word zero m a v fits = omega arith
load-store_word (suc n) m a v fits =
    let first : store_word n (store m a (u8 v)) (a + 1) (v / 256) a ≡ v % 256 =
      store_word-kept n (store m a (u8 v)) (a + 1) (v / 256) a (inl (omega arith)) ∙ ground arith in
    let upper =
      load-store_word n (store m a (u8 v)) (a + 1) (v / 256) (omega (arith, pow-suc 256 n)) in
    rw (first, upper) (omega arith)

pub load-store_word-apart :
    (n k : ℕ) (m : Memory) (a v b : ℕ)
    → (b + k ≤ a) ⊎ (a + n ≤ b)
    → load k (store_word n m a v) b ≡ load k m b
load-store_word-apart n k m a v b out =
    load-same k m (store_word n m a v) b (λ c lo hi. store_word-kept n m a v c (ground arith))

-- Every cell is a byte.
abbrev pub IsBytes : Memory → Type 0
IsBytes m = (a : ℕ) → m a < 256

pub load-lt : (n : ℕ) (m : Memory) (a : ℕ) → IsBytes m → load n m a < 256 ^ n
unfolding load
load-lt zero m a bytes = omega arith
load-lt (suc n) m a bytes = omega (arith, bytes a, load-lt n m (a + 1) bytes, pow-suc 256 n)

pub store_word-IsBytes : (n : ℕ) (m : Memory) (a v : ℕ) → IsBytes m → IsBytes (store_word n m a v)
unfolding store_word
store_word-IsBytes zero m a v bytes = bytes
store_word-IsBytes (suc n) m a v bytes =
    store_word-IsBytes n (store m a (u8 v)) (a + 1) (v / 256) (λ b. ground (arith, bytes b))
