-- ===== src/Kernel/Idt/Tests.antt =====
-- The gate table of src/isr/idt/idt.c with stubs of 16 bytes, and a report.
use beaveros.Base.{ℕ, ◌+◌, ◌*◌, ◌^◌, ◌≡◌, refl, []}
use beaveros.Base.Memory.{store}
use beaveros.Base.Run.{Run, ok, Returns}
use beaveros.Kernel.Mapper.{Mapper, map_anon, map_page, map_present, descend, map_entry}
use beaveros.Kernel.Boot.{kernel_page}
use beaveros.Kernel.Idt.Report.{default_c_isr}
use beaveros.Kernel.Idt.Names.{nulls, bit, nulls-default_c_isr}
use beaveros.Kernel.Idt.{Idt, InterruptFrame, zero_frame, no_gate, install_gates, isr_init}
use beaveros.Kernel.Idt.Gates.{target, HasGates, isr_init_correct}

abbrev stubs : ℕ → ℕ
stubs v = 0xffff_8000_0010_0000 + v * 16

page_fault_target : target (install_gates stubs (λ v. no_gate) 14) ≡ 0xffff_8000_0010_00e0
unfolding install_gates
page_fault_target = refl

-- The pages at 0x5000 and 0x6000 are mapped already, by tables at 0x1000, 0x2000, 0x3000 and 0x4000.
abbrev mapper : Mapper
mapper = record {
  memory =
      store
        (store (store (store (store (λ _. 0) 0x1000 0x2001) 0x2000 0x3001) 0x3000 0x4001) 0x4028
          0x7003)
        0x4030 0x8003;
  window = 0;
  phys_window = 0;
  pml4 = 0x1000;
  first_free_block = 0;
  invalidated = [];
}

abbrev value : Run Mapper → Mapper
value (ok m) = m
value r = mapper

abbrev first_page : Mapper
first_page = value (map_page 0x5000 map_anon kernel_page mapper)

abbrev second_page : Mapper
second_page = value (map_page 0x6000 map_anon kernel_page first_page)

first_mapped : map_page 0x5000 map_anon kernel_page mapper ≡ ok first_page
unfolding map_page map_present descend map_entry
first_mapped = refl

second_mapped : map_page 0x6000 map_anon kernel_page first_page ≡ ok second_page
unfolding map_page map_present descend map_entry
second_mapped = refl

abbrev idt : Idt
idt = record { gates = λ v. no_gate; limit = 0; offset = 0; mapper = mapper }

isr_init_correct_example :
    Returns (HasGates 0x5000 stubs second_page) (isr_init 0x5000 0x6000 stubs idt)
isr_init_correct_example =
    isr_init_correct 0x5000 0x6000 stubs idt first_page second_page first_mapped second_mapped

-- An interrupt with the flags VIF and ID.
abbrev frame : InterruptFrame
frame = record zero_frame { vector = 14; error = 5; rflags = 2 ^ 19 + 2 ^ 21 + 2 ^ 9 }

nulls-default_c_isr_example :
    nulls (default_c_isr 0 frame)
    ≡ bit frame.rflags 18 + bit frame.rflags 19 + bit frame.rflags 20 + bit frame.rflags 21
nulls-default_c_isr_example = nulls-default_c_isr 0 frame

two_nulls : nulls (default_c_isr 0 frame) ≡ 2
two_nulls = nulls-default_c_isr 0 frame
