-- ===== src/Kernel/Idt.antt =====
-- The interrupt descriptors of src/isr/idt/idt.c: a table of gates by vector. The assembly stubs of
-- `_isr_table` are an argument, their addresses by vector; `lidt` is left out, and the assertion of
-- the size of a descriptor, which the compiler decides.
pub mod Gates
pub mod Report
pub mod Names
mod Tests
use beaveros.Base.{ℕ, zero, suc, ◌+◌, ◌-◌, ◌/◌, ◌^◌, ◌==◌, if◌then◌else◌, u16, u32, bit_and}
use beaveros.Base.Run.{Run, ok, ◌>>=◌}
use beaveros.Kernel.Mapper.{Mapper, map_anon, map_page, page_size}
use beaveros.Kernel.Boot.{kernel_page}

-- `interrupt_descriptor_t`, but for the bits that must be zero.
pub record InterruptDescriptor : Type 0 where
  pub offset_1 : ℕ
  pub seg_sel : ℕ
  pub ist : ℕ
  pub type : ℕ
  pub dpl : ℕ
  pub present : ℕ
  pub offset_2 : ℕ
  pub offset_3 : ℕ

abbrev pub IdtPage : Type 0
IdtPage = ℕ → InterruptDescriptor

-- The descriptor that `install_asm_isr` puts together.
unfoldable pub asm_gate : (isr : ℕ) → InterruptDescriptor
asm_gate isr = record {
  offset_1 = u16 (bit_and isr 0xffff);
  seg_sel = 8;
  ist = 0;
  type = 0xE;
  dpl = 0;
  present = 1;
  offset_2 = u16 (bit_and isr 0xffff0000 / 2 ^ 16);
  offset_3 = u32 (bit_and isr 0xffffffff00000000 / 2 ^ 32);
}

unfoldable pub install_asm_isr : IdtPage → (isr vector : ℕ) → IdtPage
unfolding asm_gate
install_asm_isr page isr vector v = if v == vector then asm_gate isr else page v

-- The loop of `isr_init` from the vector `i`, with `left` rounds to go.
unfoldable pub install_loop : (_isr_table : ℕ → ℕ) → IdtPage → (i left : ℕ) → IdtPage
unfolding install_asm_isr
install_loop table page i zero = page
install_loop table page i (suc left) =
    install_loop table (install_asm_isr page (table i) i) (i + 1) left

-- The gates that `isr_init` installs, over the page that it has cleared.
unfoldable pub install_gates : (_isr_table : ℕ → ℕ) → IdtPage → IdtPage
unfolding install_loop
install_gates table page = install_loop table page 0 256

-- The table, the fields of `idtr`, and the mapper.
pub record Idt : Type 0 where
  pub gates : IdtPage
  pub limit : ℕ
  pub offset : ℕ
  pub mapper : Mapper

-- A descriptor of a cleared page.
abbrev pub no_gate : InterruptDescriptor
no_gate = record {
  offset_1 = 0;
  seg_sel = 0;
  ist = 0;
  type = 0;
  dpl = 0;
  present = 0;
  offset_2 = 0;
  offset_3 = 0;
}

unfoldable pub isr_init : (idt_page isr_stack_bottom : ℕ) (_isr_table : ℕ → ℕ) → Idt → Run Idt
unfolding map_page install_gates
isr_init idt_page isr_stack_bottom table s = do
  m1 ← map_page idt_page map_anon kernel_page s.mapper
  m2 ← map_page isr_stack_bottom map_anon kernel_page m1
  ok (record {
    gates = install_gates table (λ v. no_gate);
    limit = page_size - 1;
    offset = idt_page;
    mapper = m2;
  })

-- `interrupt_frame_t` of src/include/isr/idt.h, but for the fields that pad it.
pub record InterruptFrame : Type 0 where
  pub r15 : ℕ
  pub r14 : ℕ
  pub r13 : ℕ
  pub r12 : ℕ
  pub r11 : ℕ
  pub r10 : ℕ
  pub r9 : ℕ
  pub r8 : ℕ
  pub rbp : ℕ
  pub rsi : ℕ
  pub rdi : ℕ
  pub rdx : ℕ
  pub rcx : ℕ
  pub rbx : ℕ
  pub rax : ℕ
  pub error : ℕ
  pub vector : ℕ
  pub rip : ℕ
  pub cs : ℕ
  pub rflags : ℕ
  pub rsp : ℕ
  pub ss : ℕ

-- A frame of zeros.
abbrev pub zero_frame : InterruptFrame
zero_frame = record {
  r15 = 0;
  r14 = 0;
  r13 = 0;
  r12 = 0;
  r11 = 0;
  r10 = 0;
  r9 = 0;
  r8 = 0;
  rbp = 0;
  rsi = 0;
  rdi = 0;
  rdx = 0;
  rcx = 0;
  rbx = 0;
  rax = 0;
  error = 0;
  vector = 0;
  rip = 0;
  cs = 0;
  rflags = 0;
  rsp = 0;
  ss = 0;
}
