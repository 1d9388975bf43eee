-- ===== src/Kernel/Break/Tests.antt =====
-- src/memory/memory.c on a small heap.
use beaveros.Base.{◌≡◌, refl, arith, [], neg64, if◌then◌else◌, ltb}
use beaveros.Base.Run.{panic, ◌>>=◌}
use beaveros.Kernel.Boot.{kernel_page}
use beaveros.Kernel.Break.{Break, sbrk}
use beaveros.Kernel.Break.Pages.{pages_up, pages_down, map_each, answer, sbrk_correct}

-- A break one page above the start of the heap, at addresses as in linker.ld.
abbrev heap : Break
heap = record {
  prog_break = 0xffffff8000102000;
  mapper = record {
    memory = λ _. 0;
    window = 0;
    phys_window = 0;
    pml4 = 0;
    first_free_block = 0;
    invalidated = [];
  };
}

sbrk_correct_example :
    (sbrk 3 0xffffff8000101000 0xffffffffffef4000 4096 heap ≡ (
      if ltb 0xffffffffffef4000 0xffffff8000103000
      then panic
      else map_each kernel_page (pages_up 0xffffff8000102000 1) heap.mapper
        >>= answer 0xffffff8000102000 0xffffff8000103000))
    × (sbrk 3 0xffffff8000101000 0xffffffffffef4000 (neg64 4096) heap ≡ (
        if ltb 0xffffff8000102000 0xffffff8000102000
        then panic
        else map_each 0 (pages_down 0xffffff8000102000 1) heap.mapper
          >>= answer 0xffffff8000102000 0xffffff8000101000))
sbrk_correct_example =
    sbrk_correct 3 0xffffff8000101000 0xffffffffffef4000 4096 heap refl refl (omega arith)
      (omega arith) (omega arith) (omega arith) (omega arith) (omega arith) (omega arith)
