-- ===== src/Kernel/Main.antt =====
-- `main` of src/boot/main.c: how the kernel puts its parts together. What is printed is left out,
-- and the loop that halts behind it. The ACPI structures are read from `phys`, the physical memory
-- by bytes, and the signatures "RSD PTR ", "APIC" and "MCFG" lie in it at addresses that are
-- arguments.
use beaveros.Base.{ℕ, ◌+◌, not, if◌then◌else◌, u64}
use beaveros.Base.Memory.{Memory}
use beaveros.Base.Run.{Run, ok, panic, ◌>>=◌}
use beaveros.Kernel.Mapper.{Mapper}
use beaveros.Kernel.Boot.{remap}
use beaveros.Kernel.Gdt.{Gdt, gdt_init}
use beaveros.Kernel.Idt.{Idt, isr_init}
use beaveros.Kernel.Apic.{Apic, apic_init}
use beaveros.Kernel.Acpi.{Acpi, Bases, find_sdt, find_madt, find_mcfg}

-- The statics of the kernel. Each part holds the mapper while it runs.
pub record Machine : Type 0 where
  pub mapper : Mapper
  pub vga_buffer : ℕ
  pub gdt : Gdt
  pub idt : Idt
  pub apic : Apic
  pub acpi : Acpi

-- The addresses that the linker lays out, the stubs, and the answer of `cpuid` 1.
pub record Image : Type 0 where
  pub first_mb : ℕ
  pub gdt_page : ℕ
  pub isr_stack_top : ℕ
  pub idt_page : ℕ
  pub isr_stack_bottom : ℕ
  pub isr_table : ℕ → ℕ
  pub apic_page : ℕ
  pub spurious_isr : ℕ
  pub ecx : ℕ
  pub edx : ℕ

-- The addresses of the three signatures.
pub record Signatures : Type 0 where
  pub rsd_ptr : ℕ
  pub apic : ℕ
  pub mcfg : ℕ

-- The mappings, the descriptors and the local APIC.
unfoldable pub prepare : Image → (used_mem : ℕ) → Machine → Run Machine
unfolding remap gdt_init isr_init apic_init
prepare i used_mem s = do
  m ← remap i.first_mb used_mem s.mapper
  g ← gdt_init i.gdt_page i.isr_stack_top (record s.gdt { mapper = m })
  t ← isr_init i.idt_page i.isr_stack_bottom i.isr_table (record s.idt { mapper = g.mapper })
  a ← apic_init i.ecx i.edx i.apic_page i.spurious_isr (record s.apic { mapper = t.mapper })
  ok (record s {
    mapper = a.mapper;
    vga_buffer = u64 (i.first_mb + 0xb8000);
    gdt = g;
    idt = t;
    apic = a;
  })

-- The search of the ACPI tables; the result are the structures of the MCFG, and their number.
unfoldable pub discover :
    Signatures → Memory → (no_bases : Bases) → Machine → Run (ℕ × Bases × Machine)
unfolding find_sdt find_madt find_mcfg
discover g phys no_bases s =
    let (found, acpi) = find_sdt phys g.rsd_ptr s.acpi in
    if not found then panic else (do
      madt ← find_madt acpi phys g.apic
      (count, bases, size) ← find_mcfg acpi phys g.mcfg no_bases 0
      ok (count, bases, record s { acpi = acpi }))

unfoldable pub main :
    Image
    → Signatures
    → Memory
    → (used_mem : ℕ) (no_bases : Bases) → Machine
    → Run (ℕ × Bases × Machine)
unfolding prepare discover
main i g phys used_mem no_bases s = do s' ← prepare i used_mem s; discover g phys no_bases s'
