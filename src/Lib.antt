-- ===== src/Lib.antt =====
-- Beaver OS, a kernel for x86-64 with a 32-bit loader, as a model of its code and the theorems
-- that make its parts correct. Paths are those of the repository.
--
-- The loader (src/loader) is started by GRUB in 32-bit mode, loads the kernel's ELF file, builds
-- page tables and jumps to 64-bit mode. The kernel's early_main gives the physical memory to the
-- mapper (src/memory/mapper.c), and main sets up descriptors, interrupts and ACPI; main_loop,
-- which main does not call yet, starts the scheduler, whose run queue is the heap of
-- src/data/heap.c and whose mutexes keep their waiting tasks in the queue of src/data/queue.c.
--
-- - Base: the shared names. Base/Words has the machine words, numbers below 2 ^ w with the wrap-
--   around written out; Base/Int the integers that two's complement patterns stand for;
--   Base/Memory a store of cells by address; Base/Bytes little-endian words in one; Base/Run how a
--   call ends (a value, a PANIC, an access outside its block, the fuel running out); Base/Bits the
--   laws of & and | by fields.
--
-- - Kernel/Mapper: src/memory/mapper.c. The state is the physical memory as 64-bit words, where
--   the window onto it stands, the root table, the free list and the pages that map_page flushes
--   by invlpg. The memory holds every word but the four entries of the window, which phys_look
--   stores at the end of the page table phys_window_pt (phys_window_size is 4 by src/linker.ld):
--   the place of the window determines them, and Physical puts both together, with the loop that
--   stores them. An access to these four entries through the window itself, as in a call of
--   map_page for a page of the window, is not modelled, and neither are the flushes of phys_look.
--   A C pointer into the window is an offset, so a write through an old pointer after phys_look
--   goes where the hardware would send it. phys_look, mapper_init, add_phys_mem, free_page,
--   alloc_page, calloc_page, unmap_page and map_page have the names of their functions;
--   unmap_entry, descend, choose_page and map_entry are the parts of unmap_page and map_page for
--   one table. FreeList says what the free list stands for, Freeing and Pages treat the allocator,
--   Walk, Tables, Leaf, Mapped and Map the mapping, Unmap its removal, and Space what both do to
--   the map from pages to entries. Of these, the theorems are about the memory without the entries
--   of the window; Physical, Physical/Entries and Physical/Space state them of the allocator, of
--   the entries that map_page writes and of the map from pages to entries with the entries of the
--   window.
--
-- - Kernel/Idt: src/isr/idt/idt.c. The assembly stubs are an argument. Gates has isr_init, Report
--   the report of _default_c_isr as the list of its calls of printf, and Names the calls that get
--   NULL.
--
-- - Kernel/Gdt: src/gdt/gdt.c over the bytes of the page of the descriptors, whose address and the
--   top of the interrupt stack are arguments. A packed structure is written as one word. Tss has
--   the descriptor of the task state segment, Contents what the segment holds, Init the whole of
--   gdt_init.
--
-- - Data/Heap: src/data/heap.c. Items are addresses, the comparison is a parameter with the named
--   hypothesis that it orders the items by a key, and realloc is the interface Allocator, which
--   keeps the old cells. Each access is checked against the capacity of the array. sift_down takes
--   size + 1 rounds and sift_up as many as the item's place and one more; Down and Up show that
--   these suffice, Ops has heap_push and heap_pop.
--
-- - Data/Queue: src/data/queue.c over a store of nodes by address, where malloc's result is an
--   argument. Chain has the linked nodes, Fifo the operations.
--
-- - Io/Vga: src/io/vga.c. The frame buffer is a store of 16-bit cells, of which the screen takes
--   the first 2000; outb is kept as a list of writes. The loops over cells recur on the rounds
--   left; vga_putc gives the loop of a tab 8 rounds, which is enough as a tab stop is at most 8
--   columns away, and vga_puts takes one round for each byte and one more. Rows has the loops,
--   Scroll the screen moving up, Cursor where the cursor may be, Text what is shown, Color the two
--   halves of the colour byte.
--
-- - Io/Printf: src/io/printf.c for the kernel, over a device that is an interface (Io/Ocdev: putc,
--   puts and putns, with the law that the last two put one character after the other). The format
--   stands in a memory of bytes, a va_list is a list of words. Printf parses formats, Integer has
--   the printers, Vdprintf strings and whole formats; the loops over the format take fuel, one
--   round for each byte and one more, and the digits are written into the 24 bytes in front of the
--   NUL. Digits, Emitted and Number say what the printers put out, Figures and Conversion describe
--   it by the integer that is printed, and Text treats atoi and plain formats.
--
-- - Kernel/Sched: src/sched.c on one processor, where tasks live in a store by address and the
--   extended registers are one value. Order has the comparison, Switch and Choice the task switch,
--   Tasks the start and the end of tasks, Main the handlers and registers of main_loop. pick_task
--   takes one round for each task of the heap and one more.
--
-- - Kernel/Mutex: src/mutex.c. A round of mutex_lock ends with the mutex taken or with the caller
--   frozen, which then yields. Wake has mutex_unlock, Lost the steps of scheduler and mutexes
--   together.
--
-- - Strings: src/string.c over a memory of bytes; char is signed. A loop that stops at a NUL takes
--   fuel, one round for each byte and one more; a counted loop recurs on its count. Text has the
--   functions on strings, Blocks those on blocks.
--
-- - Kernel/Multiboot and Kernel/Boot: src/multiboot2.c, src/include/multiboot2.h and
--   src/boot/main.c. The structures are read from a memory of bytes that the mapper does not
--   write. The loops over tags and entries take fuel, for the entries one round more than there
--   are. Tag has the alignment of tags, Regions the memory that becomes free.
--
-- - Kernel/Break: src/memory/memory.c, sbrk over the mapper. A loop takes one round for each page
--   and one more. Pages has the calls of map_page, for a heap in the upper half of the address
--   space, where src/linker.ld puts it, or elsewhere.
--
-- - Kernel/Acpi: src/acpi over the physical memory by bytes. The search for the root pointer takes
--   the 65535 rounds of its loop. Rsdp has this search, Table the search by signature, Mcfg the
--   copy of the structures of the MCFG, whose stores are checked against the block.
--
-- - Kernel/Apic: src/isr/apic.c, whose page is a store of 32-bit registers by index, beside one of
--   model specific registers.
--
-- - Paging: the page tables of the processor, which both programs build, over a memory of entries,
--   and the walk that the processor does, as the abstract view: a map from pages to entries.
--   Layout says when tables are a tree, Kept which changes no walk notices, Same which walks are
--   the same, Steps, Link, Leaf and Join what the steps of map_page do to tree and walks.
--
-- - Loader/Paging and Loader/Elf: src/loader/paging.c and src/loader/elf64.c over the loader's
--   memory of bytes, with 32-bit pointers. Paging/Entries has the new tables, Paging/Finish the
--   entries that map_page writes last, Paging/Fresh map_page where the root table has no entry,
--   Paging/Levels, Open, Chain and Quiet its walk down, Space the whole call, First the call
--   without a root table, Outside writes to other pages, and Identity setup_identity_paging, for
--   whose loop 2 ^ 20 rounds are enough, one for each page of 4 GiB. Elf has the structures, Load
--   the function load_kernel, whose loops with bounds in memory take fuel, Header the checks,
--   Segment the pages of a segment and Symbols the symbol search. String literals lie at addresses
--   that are arguments. Loader/Boot is loader_main of src/loader/boot/main.c, with the answers of
--   the processor tests and the fuels of all its loops as a record of arguments.
--
-- - Kernel/Main: main of src/boot/main.c, which calls the parts one after the other; each part
--   holds the mapper while it runs.
--
-- - Loader/Div: src/loader/divdi3.c. Each of the two loops takes 65 rounds of fuel, one more than
--   a word has bits. Signed negation wraps at -2 ^ 63.
--
-- Addresses are natural numbers and do not wrap at the end of the address space. Not modelled: the
-- memory allocator src/memory/dlmalloc.c, which is a copy of another project; assembly and inline
-- assembly but for the flushes; what the kernel prints but for the report on an interrupt.
pub mod Base
pub mod Data
pub mod Io
pub mod Kernel
pub mod Loader
pub mod Paging
pub mod Strings
