-- ===== src/Loader/Elf/Load.antt =====
-- `load_kernel` of src/loader/elf64.c. The string literals lie somewhere in the loader's memory; a
-- loop whose bound is read from memory in each round takes fuel.
use beaveros.Base.{ℕ, zero, suc, ◌+◌, ◌-◌, ◌*◌, ◌^◌, Bool, ◌==◌, if◌then◌else◌, ltb, u32, u64}
use beaveros.Base.Int.{pos, eq_ℤ}
use beaveros.Base.Memory.{Memory}
use beaveros.Base.Run.{Run, ok, out_of_fuel, in_time, ◌>>=◌}
use beaveros.Strings.{strcmp, memset}
use beaveros.Kernel.Mapper.{page_size}
use beaveros.Loader.Div.{udivdi3}
use beaveros.Loader.Paging.{Loader, rw_global, new_phys_zero_page, map_page}
use beaveros.Loader.Elf.{
  Elf64Shdr, Elf64Sym, Elf64Phdr, ehdr_at, shdr_at, sym_at, phdr_at, pt_load, Outcome, loaded,
  is_loaded, strtab_not_found, symtab_not_found, window_pages_not_found, window_size_not_found,
  window_pt_not_found, check_ehdr,
}

-- The page at offset `i` of a segment: the one in the file, cleared behind the segment's contents,
-- or a new one.
unfoldable pub segment_page : (start : ℕ) → Elf64Phdr → (i : ℕ) → Loader → ℕ × Loader
unfolding new_phys_zero_page memset
segment_page start p i s =
    let page = u32 (start + p.p_offset + i) in
    let past = u64 (i + page_size) in
    let behind = u32 (page + p.p_filesz + (2 ^ 64 - i)) in
    let count = u32 (past + (2 ^ 64 - p.p_filesz)) in
    if ltb i p.p_filesz
    then if ltb p.p_filesz past
      then (page, record s { memory = memset s.memory behind 0 count })
      else (page, s)
    else new_phys_zero_page s

unfoldable pub load_page : (start phdr i : ℕ) → Loader → Run Loader
unfolding phdr_at segment_page map_page
load_page start phdr i s =
    let (page, s') = segment_page start (phdr_at s.memory phdr) i s in
    map_page (u64 ((phdr_at s'.memory phdr).p_vaddr + i)) page rw_global s'

-- The pages of a segment, from offset `i` on.
unfoldable pub load_segment : (fuel : ℕ) → (start phdr i : ℕ) → Loader → Run Loader
unfolding phdr_at load_page
load_segment zero start phdr i s = out_of_fuel
load_segment (suc k) start phdr i s =
    if ltb i (phdr_at s.memory phdr).p_memsz
    then (do s' ← load_page start phdr i s; load_segment k start phdr (u64 (i + page_size)) s')
    else ok s

-- The program headers, from number `pi` on.
unfoldable pub load_segments : (fuel pages : ℕ) → (start phdr pi : ℕ) → Loader → Run Loader
unfolding ehdr_at phdr_at load_segment
load_segments zero pages start phdr pi s = out_of_fuel
load_segments (suc k) pages start phdr pi s =
    let this = u32 (phdr + 56 * pi) in
    if ltb pi (ehdr_at s.memory start).e_phnum
    then (do
      s' ←
          if (phdr_at s.memory this).p_type == pt_load
          then load_segment pages start this 0 s
          else ok s
      load_segments k pages start phdr (pi + 1) s')
    else ok s

-- `!strcmp(name, str)`
unfoldable pub same_text : (fuel : ℕ) → Memory → (name str : ℕ) → Run Bool
unfolding strcmp
same_text fuel m name str = do d ← in_time (strcmp fuel m name str); ok (eq_ℤ d (pos 0))

-- Where the literals ".strtab", ".symtab", "_phys_window_size", "_phys_window_pages" and
-- "_phys_window_pt" lie.
pub record Literals : Type 0 where
  pub strtab : ℕ
  pub symtab : ℕ
  pub window_size : ℕ
  pub window_pages : ℕ
  pub window_pt : ℕ

-- `strtab`, `symtab` and `symtab_size` of `load_kernel`.
pub record Sections : Type 0 where
  pub strtab : ℕ
  pub symtab : ℕ
  pub symtab_size : ℕ

-- `shdr[si].sh_size / shdr[si].sh_entsize`, by the routine that the compiler calls.
unfoldable pub symbol_count : Elf64Shdr → Run ℕ
unfolding udivdi3
symbol_count h = do n ← in_time (udivdi3 h.sh_size h.sh_entsize); ok (u32 n)

unfoldable pub see_section :
    (fuel : ℕ) → Literals → Memory → (start shstr : ℕ) → Elf64Shdr → Sections → Run Sections
unfolding same_text symbol_count
see_section fuel l m start shstr h t = do
  is_strtab ← same_text fuel m l.strtab (u32 (shstr + h.sh_name))
  let t1 = record t { strtab = if is_strtab then u32 (start + h.sh_offset) else t.strtab }
  is_symtab ← same_text fuel m l.symtab (u32 (shstr + h.sh_name))
  if is_symtab
      then (do
        size ← symbol_count h
        ok (record t1 { symtab = u32 (start + h.sh_offset); symtab_size = size }))
      else ok t1

-- The section headers, `left` of them from number `si` on. The memory does not change here.
unfoldable pub find_sections :
    (left fuel : ℕ) → Literals → Memory → (start shdr shstr si : ℕ) → Sections → Run Sections
unfolding shdr_at see_section
find_sections zero fuel l m start shdr shstr si t = ok t
find_sections (suc k) fuel l m start shdr shstr si t = do
  t' ← see_section fuel l m start shstr (shdr_at m (u32 (shdr + 64 * si))) t
  find_sections k fuel l m start shdr shstr (si + 1) t'

-- `phys_window_pages`, `phys_window_size` and `phys_window_pt` of `load_kernel`.
pub record Symbols : Type 0 where
  pub window_pages : ℕ
  pub window_size : ℕ
  pub window_pt : ℕ

unfoldable pub see_symbol :
    (fuel : ℕ) → Literals → Memory → (strtab : ℕ) → Elf64Sym → Symbols → Run Symbols
unfolding same_text
see_symbol fuel l m strtab y v = do
  let name = u32 (strtab + y.st_name)
  is_size ← same_text fuel m l.window_size name
  let v1 = record v { window_size = if is_size then u32 y.st_value else v.window_size }
  is_pages ← same_text fuel m l.window_pages name
  let v2 = record v1 { window_pages = if is_pages then y.st_value else v1.window_pages }
  is_pt ← same_text fuel m l.window_pt name
  ok (record v2 { window_pt = if is_pt then y.st_value else v2.window_pt })

-- The symbols, `left` of them from number `si` on.
unfoldable pub find_symbols :
    (left fuel : ℕ) → Literals → Memory → (strtab symtab si : ℕ) → Symbols → Run Symbols
unfolding sym_at see_symbol
find_symbols zero fuel l m strtab symtab si v = ok v
find_symbols (suc k) fuel l m strtab symtab si v = do
  v' ← see_symbol fuel l m strtab (sym_at m (u32 (symtab + 24 * si))) v
  find_symbols k fuel l m strtab symtab (si + 1) v'

-- The pages of the physical window, `left` of them from number `wi` on.
unfoldable pub map_window : (left : ℕ) → (pages wi : ℕ) → Loader → Run Loader
unfolding map_page
map_window zero pages wi s = ok s
map_window (suc k) pages wi s = do
  s' ← map_page (u64 (pages + u32 (wi * 2 ^ 12))) 0 rw_global s
  map_window k pages (wi + 1) s'

-- The window, and the page table that `map_page` made last at its own place.
unfoldable pub install_window : Symbols → Loader → Run (Outcome × Loader)
unfolding map_window map_page
install_window v s =
    if v.window_pages == 0
    then ok (window_pages_not_found, s)
    else if v.window_size == 0
    then ok (window_size_not_found, s)
    else if v.window_pt == 0
    then ok (window_pt_not_found, s)
    else (do
      s1 ← map_window v.window_size v.window_pages 0 s
      s2 ← map_page v.window_pt (u32 (s1.used_memory + (2 ^ 32 - 0x1000))) rw_global s1
      ok (loaded, s2))

unfoldable pub read_symbols : (fuel : ℕ) → Literals → Sections → Loader → Run (Outcome × Loader)
unfolding find_symbols install_window
read_symbols fuel l t s =
    if t.strtab == 0
    then ok (strtab_not_found, s)
    else if t.symtab == 0
    then ok (symtab_not_found, s)
    else (do
      v ←
          find_symbols (t.symtab_size - 1) fuel l s.memory t.strtab t.symtab 1
            (record { window_pages = 0; window_size = 0; window_pt = 0 })
      install_window v s)

unfoldable pub read_sections : (fuel : ℕ) → Literals → (start : ℕ) → Loader → Run (Outcome × Loader)
unfolding ehdr_at shdr_at find_sections read_symbols
read_sections fuel l start s = do
  let e = ehdr_at s.memory start
  let shdr = u32 (start + e.e_shoff)
  let shstr = u32 (start + (shdr_at s.memory (u32 (shdr + 64 * e.e_shstrndx))).sh_offset)
  t ←
      find_sections e.e_shnum fuel l s.memory start shdr shstr 0
        (record { strtab = 0; symtab = 0; symtab_size = 0 })
  read_symbols fuel l t s

-- The fuels are for the program headers, the pages of a segment and the characters of a name.
unfoldable pub load_kernel :
    (headers pages chars : ℕ) → Literals → (start : ℕ) → Loader → Run (Outcome × Loader)
unfolding ehdr_at check_ehdr is_loaded load_segments read_sections
load_kernel headers pages chars l start s =
    let e = ehdr_at s.memory start in
    let why = check_ehdr e in
    if is_loaded why
    then (do
      s' ←
          load_segments headers pages start (u32 (start + e.e_phoff)) 0
            (record s { kernel_entry = e.e_entry })
      read_sections chars l start s')
    else ok (why, s)
