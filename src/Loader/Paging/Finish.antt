-- ===== src/Loader/Paging/Finish.antt =====
-- The entries that `map_page` of src/loader/paging.c writes at its end.
use mathlib.Core.Path.{subst}
use beaveros.Base.{
  ℕ, ◌+◌, ◌^◌, ◌<◌, ◌≤◌, ◌≡◌, ◌≢◌, ◌*◌, ◌⊎◌, ◌∙◌, sym, ap, arith, inl, inr, bit_and, bit_or,
}
use beaveros.Paging.Layout.{Layout, IsTree, slot_unique}
use beaveros.Base.Memory.{Memory}
use beaveros.Base.Bytes.{IsBytes, store_word-IsBytes, load-store_word, load-store_word-apart}
use beaveros.Base.Bits.{bit_and-lt, bit_or-lt}
use beaveros.Kernel.Mapper.{pml4_flags_mask, pt_flags_mask}
use beaveros.Kernel.Mapper.Tables.{entry_after}
use beaveros.Kernel.Mapper.Leaf.{leaf}
use beaveros.Loader.Paging.{Loader, entry_at, set_entry}

-- Two entries do not overlap.
abbrev pub IsApart : ℕ → ℕ → Type 0
IsApart a e = (a + 8 ≤ e) ⊎ (e + 8 ≤ a)

IsApart-sym : (a e : ℕ) → IsApart a e → IsApart e a
IsApart-sym a e (inl h) = inr h
IsApart-sym a e (inr h) = inl h

-- A write of an entry.
set_self : (e v : ℕ) (s : Loader) → v < 2 ^ 64 → entry_at (set_entry e v s) e ≡ v
set_self e v s w = load-store_word 8 s.memory e v (omega arith)

set_apart : (e v a : ℕ) (s : Loader) → IsApart a e → entry_at (set_entry e v s) a ≡ entry_at s a
set_apart e v a s out = load-store_word-apart 8 8 s.memory e v a (ground arith)

-- The end of `map_page`, with the four entries and the flags that it writes.
abbrev pub finish : (e4 e3 e2 e1 phys flags : ℕ) → Loader → Loader
finish e4 e3 e2 e1 phys flags s =
    let s4 = set_entry e4 (entry_after (entry_at s e4) flags) s in
    let s5 = set_entry e3 (entry_after (entry_at s4 e3) flags) s4 in
    let s6 = set_entry e2 (entry_after (entry_at s5 e2) flags) s5 in
    let s7 = set_entry e1 (bit_and flags pt_flags_mask) s6 in
    set_entry e1 (bit_or (entry_at s7 e1) phys) s7

entry_after-lt : (e f : ℕ) → e < 2 ^ 64 → entry_after e f < 2 ^ 64
entry_after-lt e f h =
    bit_or-lt 64 e (bit_and f pml4_flags_mask) h (bit_and-lt 64 f pml4_flags_mask (omega arith))

leaf-lt : (phys f : ℕ) → phys < 2 ^ 64 → leaf phys f < 2 ^ 64
leaf-lt phys f h =
    bit_or-lt 64 (bit_and f pt_flags_mask) phys (bit_and-lt 64 f pt_flags_mask (omega arith)) h

-- What the end leaves in the entries, and elsewhere.
pub record Finished (e4 e3 e2 e1 phys flags : ℕ) (s s' : Loader) : Type 0 where
  pub at4 : entry_at s' e4 ≡ entry_after (entry_at s e4) flags
  pub at3 : entry_at s' e3 ≡ entry_after (entry_at s e3) flags
  pub at2 : entry_at s' e2 ≡ entry_after (entry_at s e2) flags
  pub at1 : entry_at s' e1 ≡ leaf phys flags
  pub same :
      (a : ℕ)
      → IsApart a e4
      → IsApart a e3
      → IsApart a e2
      → IsApart a e1
      → entry_at s' a ≡ entry_at s a

module _ (e4 e3 e2 e1 phys flags : ℕ) (s : Loader) (a43 : IsApart e4 e3) (a42 : IsApart e4 e2)
    (a41 : IsApart e4 e1) (a32 : IsApart e3 e2) (a31 : IsApart e3 e1) (a21 : IsApart e2 e1)
    (w4 : entry_at s e4 < 2 ^ 64) (w3 : entry_at s e3 < 2 ^ 64) (w2 : entry_at s e2 < 2 ^ 64)
    (w1 : phys < 2 ^ 64) where
  abbrev v4 : ℕ
  v4 = entry_after (entry_at s e4) flags

  abbrev s4 : Loader
  s4 = set_entry e4 v4 s

  abbrev v3 : ℕ
  v3 = entry_after (entry_at s4 e3) flags

  abbrev s5 : Loader
  s5 = set_entry e3 v3 s4

  abbrev v2 : ℕ
  v2 = entry_after (entry_at s5 e2) flags

  abbrev s6 : Loader
  s6 = set_entry e2 v2 s5

  abbrev v1 : ℕ
  v1 = bit_and flags pt_flags_mask

  abbrev s7 : Loader
  s7 = set_entry e1 v1 s6

  abbrev s8 : Loader
  s8 = set_entry e1 (bit_or (entry_at s7 e1) phys) s7

  kept3 : entry_at s4 e3 ≡ entry_at s e3
  kept3 = set_apart e4 v4 e3 s (IsApart-sym e4 e3 a43)

  kept2 : entry_at s5 e2 ≡ entry_at s e2
  kept2 =
      set_apart e3 v3 e2 s4 (IsApart-sym e3 e2 a32) ∙ set_apart e4 v4 e2 s (IsApart-sym e4 e2 a42)

  low : entry_at s7 e1 ≡ v1
  low = set_self e1 v1 s6 (bit_and-lt 64 flags pt_flags_mask (omega arith))

  after_leaf : (a : ℕ) → IsApart a e1 → entry_at s8 a ≡ entry_at s6 a
  after_leaf a out = set_apart e1 _ a s7 out ∙ set_apart e1 v1 a s6 out

  pub finish-Finished : Finished e4 e3 e2 e1 phys flags s (finish e4 e3 e2 e1 phys flags s)
  finish-Finished = record {
    at4 =
        after_leaf e4 a41
        ∙ set_apart e2 v2 e4 s5 a42
        ∙ set_apart e3 v3 e4 s4 a43
        ∙ set_self e4 v4 s (entry_after-lt (entry_at s e4) flags w4);
    at3 =
        after_leaf e3 a31
        ∙ set_apart e2 v2 e3 s5 a32
        ∙ set_self e3 v3 s4 (entry_after-lt (entry_at s4 e3) flags (rw kept3 w3))
        ∙ ap (λ (w : ℕ). entry_after w flags) kept3;
    at2 =
        after_leaf e2 a21
        ∙ set_self e2 v2 s5 (entry_after-lt (entry_at s5 e2) flags (rw kept2 w2))
        ∙ ap (λ (w : ℕ). entry_after w flags) kept2;
    at1 =
        set_self e1 _ s7
          (subst (λ (w : ℕ). bit_or w phys < 2 ^ 64) (sym low) (leaf-lt phys flags w1))
        ∙ ap (λ (w : ℕ). bit_or w phys) low;
    same = λ a o4 o3 o2 o1.
        after_leaf a o1
        ∙ set_apart e2 v2 a s5 o2
        ∙ set_apart e3 v3 a s4 o3
        ∙ set_apart e4 v4 a s o4;
  }

-- Different entries of the tables do not overlap.
module _ (l : Layout) (root used : ℕ) (m : Memory) (tree : IsTree l root used m) (t u i j : ℕ)
    (ht : l.level t < 4) (hu : l.level u < 4) where
  pub slots-IsApart : t + 8 * i ≢ u + 8 * j → IsApart (t + 8 * i) (u + 8 * j)
  slots-IsApart ne = let in_t = tree.inside t ht in let in_u = tree.inside u hu in ground arith

  pub levels-IsApart : i < 512 → j < 512 → l.level t ≢ l.level u → IsApart (t + 8 * i) (u + 8 * j)
  levels-IsApart hi hj ne = slots-IsApart (λ e.
      ne (ap l.level (slot_unique t i u j (tree.inside t ht).0 (tree.inside u hu).0 hi hj e).0))

-- The end of `map_page` writes bytes, and takes no page.
pub finish-IsBytes :
    (e4 e3 e2 e1 phys flags : ℕ) (s : Loader)
    → IsBytes s.memory
    → IsBytes (finish e4 e3 e2 e1 phys flags s).memory
finish-IsBytes e4 e3 e2 e1 phys flags s bytes = store_word-IsBytes 8 _ e1 _ (
    store_word-IsBytes 8 _ e1 _ (
      store_word-IsBytes 8 _ e2 _
        (store_word-IsBytes 8 _ e3 _ (store_word-IsBytes 8 s.memory e4 _ bytes))))
