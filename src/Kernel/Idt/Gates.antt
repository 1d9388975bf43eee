-- ===== src/Kernel/Idt/Gates.antt =====
-- The table of gates that isr_init of src/isr/idt/idt.c installs.
use native.Mathlib.Decide.{dec_lt}
use beaveros.Base.{
  ℕ, zero, suc, ◌+◌, ◌*◌, ◌/◌, ◌%◌, ◌^◌, ◌<◌, ◌≤◌, ◌≡◌, refl, ◌∙◌, ap, arith, ==_iff, bit_and,
}
use beaveros.Base.Bits.{bit_and-middle, bit_and-mask}
use beaveros.Kernel.Idt.{
  InterruptDescriptor, IdtPage, Idt, asm_gate, install_asm_isr, install_loop, install_gates,
  isr_init, no_gate,
}
use beaveros.Base.Run.{ok, Returns, returns}
use beaveros.Kernel.Mapper.{Mapper, map_anon, map_page}
use beaveros.Kernel.Boot.{kernel_page}

-- The address that the processor puts together from the three parts of a gate.
abbrev pub target : InterruptDescriptor → ℕ
target g = g.offset_1 + g.offset_2 * 2 ^ 16 + g.offset_3 * 2 ^ 32

asm_gate-target : (isr : ℕ) → isr < 2 ^ 64 → target (asm_gate isr) ≡ isr
unfolding asm_gate
asm_gate-target isr h =
    let low : bit_and isr 0xffff ≡ isr % 2 ^ 16 = bit_and-mask 16 isr in
    let at16 : isr ≡ isr / 2 ^ 16 * 2 ^ 16 + isr % 2 ^ 16 = omega arith in
    let at32 : isr ≡ isr / 2 ^ 32 * 2 ^ 32 + isr % 2 ^ 32 = omega arith in
    let mid : bit_and isr 0xffff0000 ≡ isr / 2 ^ 16 % 2 ^ 16 * 2 ^ 16 + 0 =
      ap (λ w. bit_and w 0xffff0000) at16
      ∙ bit_and-middle 16 16 (isr / 2 ^ 16) (isr % 2 ^ 16) (omega arith) (omega arith) in
    let high : bit_and isr 0xffffffff00000000 ≡ isr / 2 ^ 32 % 2 ^ 32 * 2 ^ 32 + 0 =
      ap (λ w. bit_and w 0xffffffff00000000) at32
      ∙ bit_and-middle 32 32 (isr / 2 ^ 32) (isr % 2 ^ 32) (omega arith) (omega arith) in
    omega (arith, low, mid, high)

install_loop-kept :
    (table : ℕ → ℕ) (page : IdtPage) (i left v : ℕ)
    → v < i
    → install_loop table page i left v ≡ page v
unfolding install_loop install_asm_isr
install_loop-kept table page i zero v h = refl
install_loop-kept table page i (suc left) v h =
    install_loop-kept table (install_asm_isr page (table i) i) (i + 1) left v (omega arith)
    ∙ ground arith

install_loop-installed :
    (table : ℕ → ℕ) (page : IdtPage) (i left v : ℕ)
    → i ≤ v
    → v < i + left
    → install_loop table page i left v ≡ asm_gate (table v)
unfolding install_loop install_asm_isr
install_loop-installed table page i zero v low high = absurd (omega arith)
install_loop-installed table page i (suc left) v low high =
    let page' = install_asm_isr page (table i) i in
    elim (dec_lt i v) [
      | yes later ↦ install_loop-installed table page' (i + 1) left v (omega arith) (omega arith)
      | no at ↦
          let here : v ≡ i = omega arith in
          install_loop-kept table page' (i + 1) left v (omega arith)
          ∙ rw here (rw ((==_iff i i).1 refl) refl)
    ]

-- After isr_init has installed the gates, each of the 256 vectors has a present interrupt gate of
-- privilege 0 in the code segment 8, and the address in its three parts is the 64-bit entry of
-- _isr_table for it.
pub install_gates_correct :
    (table : ℕ → ℕ) (page : IdtPage) (v : ℕ)
    → v < 256
    → table v < 2 ^ 64
    → let g = install_gates table page v in
      (target g ≡ table v) × (g.seg_sel ≡ 8) × (g.type ≡ 14) × (g.present ≡ 1) × (g.dpl ≡ 0)
unfolding install_gates asm_gate
install_gates_correct table page v h fits =
    rw (install_loop-installed table page 0 256 v (omega arith) h)
      (asm_gate-target (table v) fits, refl, refl, refl, refl)

-- The gate of a vector, for the stub at `isr`.
abbrev pub IsGateTo : (isr : ℕ) → InterruptDescriptor → Type 0
IsGateTo isr g = (target g ≡ isr) × (g.seg_sel ≡ 8) × (g.type ≡ 14) × (g.present ≡ 1) × (g.dpl ≡ 0)

-- The state after `isr_init`: a gate for each vector, and the register that covers 256 gates of 16
-- bytes.
pub record HasGates (idt_page : ℕ) (table : ℕ → ℕ) (m : Mapper) (s : Idt) : Type 0 where
  pub gate : (v : ℕ) → v < 256 → table v < 2 ^ 64 → IsGateTo (table v) (s.gates v)
  pub register : (s.offset ≡ idt_page) × (s.limit + 1 ≡ 256 * 16)
  pub mapped : s.mapper ≡ m

-- `isr_init`, where the pages of the table and of the stack can be mapped: it returns with a present
-- interrupt gate of privilege 0 in the code segment 8 for each of the 256 vectors, whose three parts
-- hold the 64-bit address of the stub in _isr_table, and the limit in the register is the last byte
-- of the table.
pub isr_init_correct :
    (idt_page isr_stack_bottom : ℕ) (table : ℕ → ℕ) (s : Idt) (m1 m2 : Mapper)
    → map_page idt_page map_anon kernel_page s.mapper ≡ ok m1
    → map_page isr_stack_bottom map_anon kernel_page m1 ≡ ok m2
    → Returns (HasGates idt_page table m2) (isr_init idt_page isr_stack_bottom table s)
unfolding isr_init
isr_init_correct idt_page bottom table s m1 m2 first second =
    rw (first, second)
      (returns (record {
        gate = λ v h fits. install_gates_correct table (λ v. no_gate) v h fits;
        register = (refl, refl);
        mapped = refl;
      }))
