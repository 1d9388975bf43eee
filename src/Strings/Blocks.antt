-- ===== src/Strings/Blocks.antt =====
-- memcpy, memmove and memset of src/string.c: what they write, and that they write nowhere else.
use native.Mathlib.Decide.{dec_lt}
use native.Mathlib.Nat.{add-zero, mul-zero, mul-suc}
use beaveros.Base.{
  leb, ltb, ◌&&◌, if◌then◌else◌, ℕ, zero, suc, ◌+◌, ◌*◌, ◌<◌, ◌≤◌, ◌≡◌, ◌⊎◌, refl, arith, true,
  false, if-true, if-false, u8, inl, inr, ◌∙◌, lt→ltb, not-lt→ltb, sym,
}
use beaveros.Base.Memory.{Memory, store}
use beaveros.Base.Bytes.{IsBytes}
use beaveros.Strings.{copy_forward, copy_backward, memcpy, memmove, memset}

-- The bytes `[dest, dest + num)` of `m'` are those at `src` in `m`, and all others are unchanged.
pub record IsCopy (m : Memory) (dest src num : ℕ) (m' : Memory) : Type 0 where
  pub copied : (i : ℕ) → i < num → m' (dest + i) ≡ m (src + i)
  pub kept : (a : ℕ) → (a < dest) ⊎ (dest + num ≤ a) → m' a ≡ m a

-- The two blocks do not overlap.
abbrev pub Disjoint : (dest src num : ℕ) → Type 0
Disjoint d s n = (d + n ≤ s) ⊎ (s + n ≤ d)

copy_forward-kept :
    (m : Memory) (d s n a : ℕ) → (a < d) ⊎ (d + n ≤ a) → copy_forward m d s n a ≡ m a
unfolding copy_forward
copy_forward-kept m d s zero a out = refl
copy_forward-kept m d s (suc n) a out =
    ground (arith, copy_forward-kept (store m d (m s)) (d + 1) (s + 1) n a)

-- Reading the source backwards from overlapping blocks is the case that a forward copy gets right.
copy_forward-copied :
    (m : Memory) (d s n i : ℕ)
    → (d ≤ s) ⊎ (s + n ≤ d)
    → i < n
    → copy_forward m d s n (d + i) ≡ m (s + i)
unfolding copy_forward
copy_forward-copied m d s zero i h lt = absurd (omega arith)
copy_forward-copied m d s (suc n) zero h lt =
    rw (add-zero d, add-zero s)
      (copy_forward-kept (store m d (m s)) (d + 1) (s + 1) n d (inl (omega arith)) ∙ ground arith)
copy_forward-copied m d s (suc n) (suc i) h lt =
    let at_d : d + suc i ≡ d + 1 + i = omega arith in
    let at_s : s + suc i ≡ s + 1 + i = omega arith in
    rw (at_d, at_s)
      (copy_forward-copied (store m d (m s)) (d + 1) (s + 1) n i (omega arith) (omega arith)
        ∙ ground arith)

copy_backward-kept :
    (m : Memory) (d s n a : ℕ) → (a < d) ⊎ (d + n ≤ a) → copy_backward m d s n a ≡ m a
unfolding copy_backward
copy_backward-kept m d s zero a out = refl
copy_backward-kept m d s (suc n) a out =
    ground (arith, copy_backward-kept (store m (d + n) (m (s + n))) d s n a)

-- A byte is copied whose source the loop does not write.
copy_backward-copied :
    (m : Memory) (d s n i : ℕ)
    → (s + i < d) ⊎ (d + n ≤ s + i)
    → i < n
    → copy_backward m d s n (d + i) ≡ m (s + i)
unfolding copy_backward
copy_backward-copied m d s zero i h lt = absurd (omega arith)
copy_backward-copied m d s (suc n) i h lt = elim (dec_lt i n) [
  | yes below ↦
      copy_backward-copied (store m (d + n) (m (s + n))) d s n i (omega arith) below ∙ ground arith
  | no last ↦
      let top : i ≡ n = omega arith in
      rw top (
        copy_backward-kept (store m (d + n) (m (s + n))) d s n (d + n) (inr (omega arith))
        ∙ ground arith)
]

-- `memcpy` copies the block and writes nowhere else, if the blocks do not overlap or if the
-- destination is the lower one.
pub memcpy_correct :
    (m : Memory) (dest src num : ℕ)
    → (dest ≤ src) ⊎ (src + num ≤ dest)
    → IsCopy m dest src num (memcpy m dest src num)
unfolding memcpy
memcpy_correct m d s n h = record {
  copied = λ i lt. copy_forward-copied m d s n i h lt;
  kept = λ a out. copy_forward-kept m d s n a out;
}

-- `memmove` copies the block and writes nowhere else, if the blocks do not overlap.
pub memmove-Disjoint :
    (m : Memory) (dest src num : ℕ)
    → Disjoint dest src num
    → IsCopy m dest src num (memmove m dest src num)
unfolding memmove
memmove-Disjoint m d s n h = elim (dec_lt d s) [
  | yes p ↦ rw (lt→ltb d s p) (record {
    copied = λ i lt. copy_backward-copied m d s n i (omega arith) lt;
    kept = λ a out. copy_backward-kept m d s n a out;
  })
  | no p ↦ rw (not-lt→ltb d s p) (elim (dec_lt s d) [
    | yes q ↦ rw (lt→ltb s d q) (record {
      copied = λ i lt. copy_forward-copied m d s n i (omega arith) lt;
      kept = λ a out. copy_forward-kept m d s n a out;
    })
    | no q ↦
        let same : d ≡ s = omega arith in
        rw (not-lt→ltb s d q) (record { copied = λ i lt. rw same; kept = λ a out. refl })
  ])
]

copy_backward-overlap :
    (m : Memory) (d s n i : ℕ)
    → d < s
    → s + i < d + n
    → copy_backward m d s n (d + i) ≡ copy_backward m d s n (s + i)
unfolding copy_backward
copy_backward-overlap m d s zero i p h = absurd (omega arith)
copy_backward-overlap m d s (suc n) i p h = elim (dec_lt (s + i) (d + n)) [
  | yes below ↦ copy_backward-overlap (store m (d + n) (m (s + n))) d s n i p below
  | no last ↦
      copy_backward-copied (store m (d + n) (m (s + n))) d s n i (omega arith) (omega arith)
      ∙ sym (copy_backward-kept (store m (d + n) (m (s + n))) d s n (s + i) (inr (omega arith)))
]

-- `c` is the number of bytes that `q` steps of `k` bytes pass.
copy_backward-repeats :
    (m : Memory) (d k n q i c : ℕ)
    → 0 < k
    → c ≡ k * q
    → i + c < n
    → n ≤ i + c + k
    → copy_backward m d (d + k) n (d + i) ≡ m (d + k + (i + c))
copy_backward-repeats m d k n zero i c some_bytes at lo hi =
    let none : c ≡ 0 = at ∙ mul-zero k in
    let same : d + k + (i + c) ≡ d + k + i = omega arith in
    rw same (copy_backward-copied m d (d + k) n i (omega arith) (omega arith))
copy_backward-repeats m d k n (suc q) i c some_bytes at lo hi =
    let split : c ≡ k * q + k = at ∙ mul-suc k q in
    let next : d + k + i ≡ d + (i + k) = omega arith in
    let same : d + k + (i + c) ≡ d + k + (i + k + k * q) = omega arith in
    copy_backward-overlap m d (d + k) n i (omega arith) (omega arith)
    ∙ rw (next, same)
        (copy_backward-repeats m d k n q (i + k) (k * q) some_bytes refl (omega arith)
          (omega arith))

-- Where the destination is `k` bytes below the source, `k` not 0, `memmove` copies the wrong way
-- round: it writes nowhere outside the destination, and the byte at `i` of the destination is the
-- byte which the source held at the same place of its last `k` bytes, `q` steps of `k` bytes
-- further on. So the source's last bytes are repeated.
pub memmove_overlap :
    (m : Memory) (dest k num q i : ℕ)
    → 0 < k
    → i + k * q < num
    → num ≤ i + k * q + k
    → (memmove m dest (dest + k) num (dest + i) ≡ m (dest + k + (i + k * q)))
      × ((a : ℕ) → (a < dest) ⊎ (dest + num ≤ a) → memmove m dest (dest + k) num a ≡ m a)
unfolding memmove
memmove_overlap m d k n q i some_bytes lo hi = rw (lt→ltb d (d + k) (omega arith)) (
  copy_backward-repeats m d k n q i (k * q) some_bytes refl lo hi,
  λ a out. copy_backward-kept m d (d + k) n a out,
)

-- `memset` fills the block with the low byte of its value, and writes nowhere else.
pub memset_correct :
    (m : Memory) (ptr val num a : ℕ)
    → memset m ptr val num a ≡ (if leb ptr a && ltb a (ptr + num) then u8 val else m a)
unfolding memset
memset_correct m p v zero a = ground arith
memset_correct m p v (suc n) a = ground (arith, memset_correct (store m (p + n) (u8 v)) p v n a)

-- Cleared memory: zeros in it, and no change elsewhere.
pub memset-kept :
    (m : Memory) (ptr val num a : ℕ) → (a < ptr) ⊎ (ptr + num ≤ a) → memset m ptr val num a ≡ m a
memset-kept m p v n a out =
    let outside : (leb p a && ltb a (p + n)) ≡ false = ground arith in
    memset_correct m p v n a ∙ if-false (u8 v) (m a) _ outside

pub memset-zero : (m : Memory) (ptr num a : ℕ) → ptr ≤ a → a < ptr + num → memset m ptr 0 num a ≡ 0
memset-zero m p n a lo hi =
    let inside : (leb p a && ltb a (p + n)) ≡ true = ground arith in
    memset_correct m p 0 n a ∙ if-true 0 (m a) _ inside

pub memset-IsBytes : (m : Memory) (ptr num : ℕ) → IsBytes m → IsBytes (memset m ptr 0 num)
memset-IsBytes m p n bytes a = ground (arith, memset_correct m p 0 n a, bytes a)
