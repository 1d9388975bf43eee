-- ===== src/Kernel/Acpi/Tests.antt =====
-- src/acpi on a small memory.
use beaveros.Base.{ℕ, ◌+◌, ◌≡◌, ◌<◌, refl, arith, false, [], ◌∷◌}
use beaveros.Base.Memory.{Memory, store}
use beaveros.Base.Bytes.{load}
use beaveros.Base.Run.{fault, Returns}
use beaveros.Strings.{strncmp}
use beaveros.Kernel.Acpi.{
  Acpi, Bases, no_pointers, address_in, table_entries, find_sdt, find_acpi_table, find_madt,
  find_mcfg, conf_base_addr_at,
}
use beaveros.Kernel.Acpi.Rsdp.{Answer, find_sdt_correct}
use beaveros.Kernel.Acpi.Table.{
  AreFound, MadtAnswer, signed_tables, find_acpi_table_correct, find_madt_correct,
}
use beaveros.Kernel.Acpi.Mcfg.{mcfg_count, find_mcfg_overruns}

-- The name "MCFG" at 0x10, an RSDT with one entry at 0x100, and an MCFG with one structure at 0x200.
abbrev named : ℕ → Memory → Memory
named a m = store (store (store (store m a 77) (a + 1) 67) (a + 2) 70) (a + 3) 71

abbrev one_table : Memory
one_table = store (store (store (named 0x10 (named 0x200 (λ _. 0))) 0x104 40) 0x125 2) 0x204 60

abbrev rsdt : Acpi
rsdt = record { xsdt = false; sdt = 0x100 }

only_table : signed_tables (table_entries rsdt one_table) rsdt one_table 0x10 0 ≡ 0x200 ∷ []
unfolding address_in load strncmp
only_table = refl

one_structure : 0 < mcfg_count one_table 0x200
unfolding load
one_structure = omega arith

abbrev no_bases : Bases
no_bases = record { bytes = 0; cells = conf_base_addr_at (λ _. 0) }

find_sdt_correct_example : Answer 65535 one_table 0x10 0 rsdt (find_sdt one_table 0x10 rsdt)
find_sdt_correct_example = find_sdt_correct one_table 0x10 rsdt

find_acpi_table_correct_example :
    Returns
      (AreFound (signed_tables (table_entries rsdt one_table) rsdt one_table 0x10 0))
      (find_acpi_table rsdt one_table 0x10 no_pointers)
find_acpi_table_correct_example = find_acpi_table_correct rsdt one_table 0x10

find_madt_correct_example :
    MadtAnswer
      (signed_tables (table_entries rsdt one_table) rsdt one_table 0x10 0)
      (find_madt rsdt one_table 0x10)
find_madt_correct_example = find_madt_correct rsdt one_table 0x10

find_mcfg_overruns_example : find_mcfg rsdt one_table 0x10 no_bases 0 ≡ fault
find_mcfg_overruns_example =
    find_mcfg_overruns rsdt one_table 0x10 0x200 no_bases only_table one_structure
