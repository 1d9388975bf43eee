-- ===== src/Loader/Elf/Segment/Loop.antt =====
-- `load_kernel` of src/loader/elf64.c: the loop over the pages of a segment.
use beaveros.Base.{ℕ, ◌+◌, u64}
use beaveros.Base.Run.{Run}
use beaveros.Paging.Layout.{Layout}
use beaveros.Loader.Paging.{Loader, rw_global, map_page}
use beaveros.Loader.Elf.{Elf64Phdr, phdr_at}
use beaveros.Loader.Elf.Load.{segment_page}

-- A page of the segment with a header, as `load_page` maps it.
abbrev page_of_header : (start phdr i : ℕ) → Loader → Elf64Phdr → Run Loader
page_of_header start phdr i s h =
    let (page, s1) = segment_page start h i s in
    map_page (u64 ((phdr_at s1.memory phdr).p_vaddr + i)) page rw_global s1
