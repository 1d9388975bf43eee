-- ===== src/Kernel/Gdt/Contents.antt =====
-- The contents of the task state segment that `gdt_init` of src/gdt/gdt.c writes.
use mathlib.Core.Path.{subst}
use beaveros.Base.{
  ℕ, zero, suc, ◌+◌, ◌*◌, ◌/◌, ◌%◌, ◌^◌, ◌<◌, ◌≤◌, ◌≡◌, ◌⊎◌, ◌∙◌, refl, ap, arith, inl, u32,
  bit_and,
}
use beaveros.Base.Memory.{Memory}
use beaveros.Base.Bits.{bit_and-mask, bit_and-middle}
use beaveros.Base.Bytes.{
  load, store_word, store_word-kept, load-same, load-store_word, load-store_word-apart,
}
use beaveros.Strings.{memset}
use beaveros.Strings.Blocks.{memset-kept}
use beaveros.Kernel.Gdt.{sizeof_tss, put_stacks, put_tss}

-- The stack pointers lie one after the other, and nothing else changes.
put_stacks-kept :
    (k : ℕ) (top at : ℕ) (m : Memory) (b : ℕ)
    → (b < at) ⊎ (at + 8 * k ≤ b)
    → put_stacks k top at m b ≡ m b
unfolding put_stacks
put_stacks-kept zero top at m b out = refl
put_stacks-kept (suc k) top at m b out =
    let lower = u32 (bit_and top 0xffffffff) in
    let upper = u32 (bit_and top 0xffffffff00000000 / 2 ^ 32) in
    put_stacks-kept k top (at + 8) (store_word 4 (store_word 4 m at lower) (at + 4) upper) b
      (ground arith)
    ∙ store_word-kept 4 (store_word 4 m at lower) (at + 4) upper b (ground arith)
    ∙ store_word-kept 4 m at lower b (ground arith)

two_halves : (m : Memory) (a : ℕ) → load 8 m a ≡ load 4 m a + 2 ^ 32 * load 4 m (a + 4)
unfolding load
two_halves m a =
    let e0 : m (a + 1 + 1 + 1 + 1) ≡ m (a + 4) = ap m (omega arith) in
    let e1 : m (a + 1 + 1 + 1 + 1 + 1) ≡ m (a + 4 + 1) = ap m (omega arith) in
    let e2 : m (a + 1 + 1 + 1 + 1 + 1 + 1) ≡ m (a + 4 + 1 + 1) = ap m (omega arith) in
    let e3 : m (a + 1 + 1 + 1 + 1 + 1 + 1 + 1) ≡ m (a + 4 + 1 + 1 + 1) = ap m (omega arith) in
    omega arith

halves_of :
    (top : ℕ)
    → top < 2 ^ 64
    → u32 (bit_and top 0xffffffff) + 2 ^ 32 * u32 (bit_and top 0xffffffff00000000 / 2 ^ 32) ≡ top
halves_of top w =
    let at32 : top ≡ top / 2 ^ 32 * 2 ^ 32 + top % 2 ^ 32 = omega arith in
    let high : bit_and top 0xffffffff00000000 ≡ top / 2 ^ 32 % 2 ^ 32 * 2 ^ 32 + 0 =
      ap (λ x. bit_and x 0xffffffff00000000) at32
      ∙ bit_and-middle 32 32 (top / 2 ^ 32) (top % 2 ^ 32) (omega arith) (omega arith) in
    omega (arith, bit_and-mask 32 top, high)

put_stacks-load :
    (k : ℕ) (top at : ℕ) (m : Memory) (i : ℕ)
    → top < 2 ^ 64
    → i < k
    → load 8 (put_stacks k top at m) (at + 8 * i) ≡ top
unfolding put_stacks
put_stacks-load zero top at m i w h = absurd (omega arith)
put_stacks-load (suc k) top at m zero w h =
    let lower = u32 (bit_and top 0xffffffff) in
    let upper = u32 (bit_and top 0xffffffff00000000 / 2 ^ 32) in
    let m1 = store_word 4 m at lower in
    let m2 = store_word 4 m1 (at + 4) upper in
    let first : load 4 m2 at ≡ lower =
      load-store_word-apart 4 4 m1 (at + 4) upper at (inl (omega arith))
      ∙ load-store_word 4 m at lower (omega arith) in
    let second : load 4 m2 (at + 4) ≡ upper = load-store_word 4 m1 (at + 4) upper (omega arith) in
    load-same 8 m2 (put_stacks k top (at + 8) m2) (at + 8 * 0)
      (λ b lo hi. put_stacks-kept k top (at + 8) m2 b (inl (omega arith)))
    ∙ ap (load 8 m2) (omega arith)
    ∙ two_halves m2 at
    ∙ omega (arith, first, second, halves_of top w)
put_stacks-load (suc k) top at m (suc i) w h =
    let m2 =
      store_word 4 (store_word 4 m at (u32 (bit_and top 0xffffffff))) (at + 4)
        (u32 (bit_and top 0xffffffff00000000 / 2 ^ 32)) in
    subst (λ (a : ℕ). load 8 (put_stacks k top (at + 8) m2) a ≡ top) (omega arith)
      (put_stacks-load k top (at + 8) m2 i w (omega arith))

module _ (top tss : ℕ) (m : Memory) where
  abbrev cleared : Memory
  cleared =
      store_word 2 (memset (memset (store_word 4 m tss 0) (tss + 28) 0 8) (tss + 92) 0 8)
        (tss + 100) 0

  abbrev with_rsp : Memory
  with_rsp = put_stacks 3 top (tss + 4) cleared

  abbrev with_ist : Memory
  with_ist = put_stacks 7 top (tss + 36) with_rsp

  put_tss-stages : put_tss top tss m ≡ store_word 2 with_ist (tss + 102) sizeof_tss
  unfolding put_tss
  put_tss-stages = refl

  -- The segment is written inside its bytes.
  pub put_tss-kept : (b : ℕ) → (b < tss) ⊎ (tss + 104 ≤ b) → put_tss top tss m b ≡ m b
  put_tss-kept b out =
      ap (λ (n : Memory). n b) put_tss-stages
      ∙ store_word-kept 2 with_ist (tss + 102) sizeof_tss b (ground arith)
      ∙ put_stacks-kept 7 top (tss + 36) with_rsp b (ground arith)
      ∙ put_stacks-kept 3 top (tss + 4) cleared b (ground arith)
      ∙ store_word-kept 2 _ (tss + 100) 0 b (ground arith)
      ∙ memset-kept _ (tss + 92) 0 8 b (ground arith)
      ∙ memset-kept _ (tss + 28) 0 8 b (ground arith)
      ∙ store_word-kept 4 m tss 0 b (ground arith)

  pub put_tss-ist :
      (i : ℕ) → top < 2 ^ 64 → i < 7 → load 8 (put_tss top tss m) (tss + 36 + 8 * i) ≡ top
  put_tss-ist i w h =
      ap (λ (n : Memory). load 8 n (tss + 36 + 8 * i)) put_tss-stages
      ∙ load-store_word-apart 2 8 with_ist (tss + 102) sizeof_tss (tss + 36 + 8 * i)
          (inl (omega arith))
      ∙ put_stacks-load 7 top (tss + 36) with_rsp i w h

  pub put_tss-rsp :
      (i : ℕ) → top < 2 ^ 64 → i < 3 → load 8 (put_tss top tss m) (tss + 4 + 8 * i) ≡ top
  put_tss-rsp i w h =
      ap (λ (n : Memory). load 8 n (tss + 4 + 8 * i)) put_tss-stages
      ∙ load-store_word-apart 2 8 with_ist (tss + 102) sizeof_tss (tss + 4 + 8 * i)
          (inl (omega arith))
      ∙ load-same 8 with_rsp with_ist (tss + 4 + 8 * i)
          (λ b lo hi. put_stacks-kept 7 top (tss + 36) with_rsp b (inl (omega arith)))
      ∙ put_stacks-load 3 top (tss + 4) cleared i w h
