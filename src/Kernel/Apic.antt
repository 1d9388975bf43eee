-- ===== src/Kernel/Apic.antt =====
-- src/isr/apic.c: the local APIC, by its page of 32-bit registers or by model specific registers.
-- The answer of `cpuid` and the addresses of the page and of `spurious_isr` are arguments; writes
-- to ports are kept as a list, and handlers are addresses in `_c_isr_table`.
use beaveros.Base.{ℕ, ◌*◌, ◌/◌, ◌^◌, Bool, not, List, ◌∷◌, if◌then◌else◌, bit_and, bit_or, u32, u64}
use beaveros.Base.Memory.{Memory, store}
use beaveros.Base.Run.{Run, ok, panic, ◌>>=◌}
use beaveros.Kernel.Mapper.{Mapper, has, page_addr_bits, map_page}
use beaveros.Kernel.Boot.{kernel_page}

pub record Apic : Type 0 where
  pub x2apic : Bool
  -- The registers of the page, by index, and the model specific registers.
  pub page : Memory
  pub msr : Memory
  pub ports : List (ℕ × ℕ)
  pub c_isr_table : Memory
  pub mapper : Mapper

abbrev pub wrmsr : (number value : ℕ) → Apic → Apic
wrmsr number value s = record s { msr = store s.msr number (u64 value) }

abbrev pub wrapic : (number value : ℕ) → Apic → Apic
wrapic number value s = record s { page = store s.page (number / 4) (u32 value) }

abbrev pub rdapic : (number : ℕ) → Apic → ℕ
rdapic number s = s.page (number / 4)

abbrev pub outb : (port value : ℕ) → Apic → Apic
outb port value s = record s { ports = (port, value) ∷ s.ports }

-- `APIC_BASE_MSR`, `APIC_X2APIC_MODE_BIT` and `SPURIOUS_VECTOR`
abbrev pub apic_base_msr : ℕ
apic_base_msr = 0x1b

abbrev pub apic_x2apic_mode_bit : ℕ
apic_x2apic_mode_bit = 2 ^ 10

abbrev pub spurious_vector : ℕ
spurious_vector = 0x27

-- `APIC_TMR_LVT_DISABLE`, with the same bit for LINT0 and LINT1, and `APIC_PERF_LVT_NMI`
abbrev pub lvt_disable : ℕ
lvt_disable = 2 ^ 16

abbrev pub perf_lvt_nmi : ℕ
perf_lvt_nmi = 2 ^ 10

-- The last part of `apic_init` in x2APIC mode, and else.
unfoldable pub reset_x2apic : Apic → Apic
reset_x2apic s =
    let s1 = wrmsr 0x832 lvt_disable s in
    let s2 = wrmsr 0x834 perf_lvt_nmi s1 in
    let s3 = wrmsr 0x835 lvt_disable s2 in let s4 = wrmsr 0x836 lvt_disable s3 in wrmsr 0x808 0 s4

unfoldable pub reset_apic : Apic → Apic
reset_apic s =
    let s1 = wrapic 0x0e0 0xffff_ffff s in
    let ldr = rdapic 0x0d0 s1 in
    let s2 = wrapic 0x0d0 (bit_or (bit_and ldr 0x00ff_ffff) 0x01) s1 in
    let s3 = wrapic 0x320 lvt_disable s2 in
    let s4 = wrapic 0x340 perf_lvt_nmi s3 in
    let s5 = wrapic 0x350 lvt_disable s4 in
    let s6 = wrapic 0x360 lvt_disable s5 in wrapic 0x080 0 s6

-- `install_isr` of src/isr/idt/idt.c
abbrev pub install_isr : (isr vector : ℕ) → Apic → Apic
install_isr isr vector s = record s { c_isr_table = store s.c_isr_table vector isr }

-- The bits of `cpuid` 1 that tell of an APIC, in `edx`, and of the x2APIC mode, in `ecx`.
abbrev pub cpuid_1_edx_apic_bit : ℕ
cpuid_1_edx_apic_bit = 2 ^ 9

abbrev pub cpuid_1_ecx_x2apic_bit : ℕ
cpuid_1_ecx_x2apic_bit = 2 ^ 21

unfoldable pub apic_init : (ecx edx apic_page spurious_isr : ℕ) → Apic → Run Apic
unfolding map_page reset_x2apic reset_apic
apic_init ecx edx apic_page spurious_isr s =
    if not (has edx cpuid_1_edx_apic_bit) then panic else (do
      let s1 = record s { x2apic = has ecx cpuid_1_ecx_x2apic_bit }
      let s2 = outb 0xa1 0xff (outb 0x21 0xff s1)
      let base = s2.msr apic_base_msr
      let s3 = (if s2.x2apic then wrmsr apic_base_msr (bit_or base apic_x2apic_mode_bit) s2 else s2)
      m ← map_page apic_page (bit_and base page_addr_bits) kernel_page s3.mapper
      let s4 = record s3 { mapper = m }
      ok (
          install_isr spurious_isr spurious_vector
            (if s4.x2apic then reset_x2apic s4 else reset_apic s4)))

unfoldable pub apic_set_initial_count : (count : ℕ) → Apic → Apic
apic_set_initial_count count s = if s.x2apic then wrmsr 0x838 count s else wrapic 0x380 count s

-- In x2APIC mode the numbers are those of model specific registers, and yet index the page.
unfoldable pub apic_configure_timer : (isr periodic divider : ℕ) → Apic → Apic
apic_configure_timer isr periodic divider s =
    let lvt = bit_or isr (periodic * 2 ^ 17) in
    if s.x2apic
    then wrapic 0x83e divider (wrapic 0x832 lvt s)
    else wrapic 0x3e0 divider (wrapic 0x320 lvt s)

unfoldable pub apic_eoi : Apic → Apic
apic_eoi s = if s.x2apic then wrmsr 0x80b 0 s else wrapic 0x0b0 0 s
