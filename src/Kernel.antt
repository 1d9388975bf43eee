-- ===== src/Kernel.antt =====
-- The kernel: its memory management in src/memory, the descriptors of interrupts in src/isr and of
-- segments in src/gdt, and its tasks.
pub mod Mapper
pub mod Idt
pub mod Gdt
pub mod Sched
pub mod Mutex
pub mod Multiboot
pub mod Boot
pub mod Break
pub mod Acpi
pub mod Apic
pub mod Main
