-- ===== src/Kernel/Sched/Main.antt =====
-- `main_loop` of src/sched.c: the control registers, the handlers and the timer, and the first task.
-- The addresses of the handlers and of the processor's local state are arguments; the count that a
-- task switch gives to the timer is kept in the scheduler.
use beaveros.Base.{ℕ, ◌^◌, Option, ◌==◌, if◌then◌else◌, bit_and, bit_or}
use beaveros.Base.Run.{Run, ok, ◌>>=◌}
use beaveros.Data.Heap.{Allocator}
use beaveros.Kernel.Idt.{InterruptFrame}
use beaveros.Kernel.Apic.{Apic, wrmsr, install_isr, apic_configure_timer, apic_eoi}
use beaveros.Kernel.Sched.{Sched, task_switch_isr}
use beaveros.Kernel.Sched.Tasks.{
  TaskMemory, Cpuid, cpuid_1_ecx_xsave_bit, choose_save_mode, start_scheduling,
}

-- The bits of `cr0` and `cr4`, and the register for the local state.
abbrev pub cr0_monitor_coprocessor : ℕ
cr0_monitor_coprocessor = 2 ^ 1

abbrev pub cr4_osfxsr : ℕ
cr4_osfxsr = 2 ^ 9

abbrev pub cr4_osxmmexcpt : ℕ
cr4_osxmmexcpt = 2 ^ 10

abbrev pub cr4_osxsave : ℕ
cr4_osxsave = 2 ^ 18

abbrev pub ia32_gs_base : ℕ
ia32_gs_base = 0xC0000101

abbrev pub nm_vector : ℕ
nm_vector = 7

abbrev pub yield_vector : ℕ
yield_vector = 0x42

abbrev pub apic_timer_vector : ℕ
apic_timer_vector = 0x43

-- `APIC_TMR_DIV_DIV16`
abbrev pub tmr_div_div16 : ℕ
tmr_div_div16 = 3

-- The scheduler, the registers that `main_loop` sets, and the local APIC.
pub record Processor : Type 0 where
  pub sched : Sched
  pub cr4 : ℕ
  pub xcr0 : ℕ
  pub apic : Apic

-- The addresses of the three handlers.
pub record Handlers : Type 0 where
  pub save_extended_state_isr : ℕ
  pub task_switch_isr : ℕ
  pub apic_timer_fired_isr : ℕ

-- The registers for the extended state.
unfoldable pub enable_extended_state : Cpuid → Processor → Processor
unfolding choose_save_mode
enable_extended_state c s =
    let cr4 = bit_or (bit_or s.cr4 cr4_osfxsr) cr4_osxmmexcpt in
    let sched =
      choose_save_mode c (record s.sched { cr0 = bit_or s.sched.cr0 cr0_monitor_coprocessor }) in
    if bit_and c.leaf_1_ecx cpuid_1_ecx_xsave_bit == 0
    then record s { sched = sched; cr4 = cr4 }
    else record s {
      sched = sched;
      cr4 = bit_or cr4 cr4_osxsave;
      xcr0 = sched.enabled_extended_states;
    }

-- The local state, the handlers and the timer.
unfoldable pub install_handlers : Handlers → (pls : ℕ) → Apic → Apic
unfolding apic_configure_timer
install_handlers h pls s =
    let s1 = wrmsr ia32_gs_base pls s in
    let s2 = install_isr h.save_extended_state_isr nm_vector s1 in
    let s3 = install_isr h.task_switch_isr yield_vector s2 in
    let s4 = install_isr h.apic_timer_fired_isr apic_timer_vector s3 in
    apic_configure_timer apic_timer_vector 0 tmr_div_div16 s4

-- The frame is what is loaded at the first switch to another task.
unfoldable pub main_loop :
    Allocator
    → Cpuid
    → Handlers
    → TaskMemory
    → (pls left_at started_at : ℕ) → InterruptFrame
    → Processor
    → Run (Option InterruptFrame × Processor)
unfolding enable_extended_state install_handlers start_scheduling
main_loop alloc c h a pls left_at started_at frame s = do
  let s1 = enable_extended_state c s
  let s2 = record s1 { apic = install_handlers h pls s1.apic }
  (loaded, sched) ← start_scheduling alloc a left_at started_at frame s2.sched
  ok (loaded, record s2 { sched = sched })

unfoldable pub apic_timer_fired_isr :
    Allocator
    → (left_at started_at : ℕ) → InterruptFrame
    → Processor
    → Run (InterruptFrame × Processor)
unfolding task_switch_isr apic_eoi
apic_timer_fired_isr alloc left_at started_at frame s = do
  (loaded, sched) ← task_switch_isr alloc left_at started_at frame s.sched
  ok (loaded, record s { sched = sched; apic = apic_eoi s.apic })
