-- ===== src/Kernel/Gdt/Tss.antt =====
-- The task state segment that gdt_init of src/gdt/gdt.c describes.
use beaveros.Base.{ℕ, ◌+◌, ◌*◌, ◌/◌, ◌%◌, ◌^◌, ◌<◌, ◌≡◌, ◌∙◌, refl, ap, arith, bit_and}
use beaveros.Base.Bits.{bit_and-mask, bit_and-middle}
use beaveros.Kernel.Gdt.{TssDescriptor, tss_desc}

-- The base and the last byte that the processor reads from a descriptor. With the flag G the limit
-- counts pages.
abbrev pub base : TssDescriptor → ℕ
base d = d.base_1 + d.base_2 * 2 ^ 16 + d.base_3 * 2 ^ 24 + d.base_4 * 2 ^ 32

abbrev pub last_byte : TssDescriptor → ℕ
last_byte d = (d.limit_1 + d.limit_2 * 2 ^ 16) * (1 + 4095 * d.gr) + 4095 * d.gr

-- The descriptor of the task state segment holds its 64-bit address, and is a present available
-- segment. Its last byte is the byte 430,079, since its limit of 104 counts pages.
pub tss_desc_correct :
    (tss : ℕ)
    → tss < 2 ^ 64
    → (base (tss_desc tss) ≡ tss)
      × (last_byte (tss_desc tss) ≡ 430079)
      × ((tss_desc tss).type ≡ 9)
      × ((tss_desc tss).p ≡ 1)
unfolding tss_desc
tss_desc_correct tss h =
    let low : bit_and tss 0xffff ≡ tss % 2 ^ 16 = bit_and-mask 16 tss in
    let at16 : tss ≡ tss / 2 ^ 16 * 2 ^ 16 + tss % 2 ^ 16 = omega arith in
    let at24 : tss ≡ tss / 2 ^ 24 * 2 ^ 24 + tss % 2 ^ 24 = omega arith in
    let at32 : tss ≡ tss / 2 ^ 32 * 2 ^ 32 + tss % 2 ^ 32 = omega arith in
    let mid : bit_and tss 0xff0000 ≡ tss / 2 ^ 16 % 2 ^ 8 * 2 ^ 16 + 0 =
      ap (λ w. bit_and w 0xff0000) at16
      ∙ bit_and-middle 16 8 (tss / 2 ^ 16) (tss % 2 ^ 16) (omega arith) (omega arith) in
    let upper : bit_and tss 0xff000000 ≡ tss / 2 ^ 24 % 2 ^ 8 * 2 ^ 24 + 0 =
      ap (λ w. bit_and w 0xff000000) at24
      ∙ bit_and-middle 24 8 (tss / 2 ^ 24) (tss % 2 ^ 24) (omega arith) (omega arith) in
    let high : bit_and tss 0xffffffff00000000 ≡ tss / 2 ^ 32 % 2 ^ 32 * 2 ^ 32 + 0 =
      ap (λ w. bit_and w 0xffffffff00000000) at32
      ∙ bit_and-middle 32 32 (tss / 2 ^ 32) (tss % 2 ^ 32) (omega arith) (omega arith) in
    (omega (arith, low, mid, upper, high), refl, refl, refl)
