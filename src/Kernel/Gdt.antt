-- ===== src/Kernel/Gdt.antt =====
-- src/gdt/gdt.c: the segment descriptors and the task state segment, in a page of bytes that the
-- linker lays out. Its address and the top of the interrupt stack are arguments; `_lgdt` is left
-- out.
pub mod Tss
pub mod Contents
pub mod Init
mod Tests
use beaveros.Base.{
  ℕ, zero, suc, ◌+◌, ◌-◌, ◌*◌, ◌/◌, ◌%◌, ◌^◌, if◌then◌else◌, leb, u8, u16, u32, bit_and,
}
use beaveros.Base.Memory.{Memory}
use beaveros.Base.Bytes.{store_word}
use beaveros.Base.Run.{Run, ok, panic, ◌>>=◌}
use beaveros.Strings.{memset}
use beaveros.Kernel.Mapper.{Mapper, map_anon, map_page, page_size}
use beaveros.Kernel.Boot.{kernel_page}

-- `tss_descriptor_t`
pub record TssDescriptor : Type 0 where
  pub limit_1 : ℕ
  pub base_1 : ℕ
  pub base_2 : ℕ
  pub type : ℕ
  pub mbz_1 : ℕ
  pub dpl : ℕ
  pub p : ℕ
  pub limit_2 : ℕ
  pub avl : ℕ
  pub mbz_2 : ℕ
  pub gr : ℕ
  pub base_3 : ℕ
  pub base_4 : ℕ
  pub mbz_3 : ℕ

-- `sizeof(tss_t)`: 25 words of 32 bits and two of 16.
abbrev pub sizeof_tss : ℕ
sizeof_tss = 104

-- The descriptor that `gdt_init` writes for the segment at `tss`.
unfoldable pub tss_desc : (tss : ℕ) → TssDescriptor
tss_desc tss = record {
  limit_1 = u16 (bit_and sizeof_tss 0xffff);
  limit_2 = bit_and sizeof_tss 0xf0000 / 2 ^ 16;
  base_1 = u16 (bit_and tss 0xffff);
  base_2 = u8 (bit_and tss 0xff0000 / 2 ^ 16);
  base_3 = u8 (bit_and tss 0xff000000 / 2 ^ 24);
  base_4 = u32 (bit_and tss 0xffffffff00000000 / 2 ^ 32);
  type = 9;
  mbz_1 = 0;
  mbz_2 = 0;
  mbz_3 = 0;
  dpl = 0;
  p = 1;
  avl = 0;
  gr = 1;
}

-- `segment_descriptor_t`
pub record SegmentDescriptor : Type 0 where
  pub limit_1 : ℕ
  pub base_1 : ℕ
  pub base_2 : ℕ
  pub accessed : ℕ
  pub rw : ℕ
  pub dc : ℕ
  pub ex : ℕ
  pub mbo : ℕ
  pub priv : ℕ
  pub p : ℕ
  pub limit_2 : ℕ
  pub avl : ℕ
  pub l : ℕ
  pub sz : ℕ
  pub gr : ℕ
  pub base_3 : ℕ

-- The two structures as the words that lie in memory: the fields from the lowest bit on.
abbrev pub segment_word : SegmentDescriptor → ℕ
segment_word d =
    d.limit_1
    + d.base_1 * 2 ^ 16
    + d.base_2 * 2 ^ 32
    + (d.accessed
        + d.rw * 2
        + d.dc * 2 ^ 2
        + d.ex * 2 ^ 3
        + d.mbo * 2 ^ 4
        + d.priv * 2 ^ 5
        + d.p * 2 ^ 7)
      * 2 ^ 40
    + (d.limit_2 + d.avl * 2 ^ 4 + d.l * 2 ^ 5 + d.sz * 2 ^ 6 + d.gr * 2 ^ 7) * 2 ^ 48
    + d.base_3 * 2 ^ 56

abbrev pub tss_word : TssDescriptor → ℕ
tss_word d =
    d.limit_1
    + d.base_1 * 2 ^ 16
    + d.base_2 * 2 ^ 32
    + (d.type + d.mbz_1 * 2 ^ 4 + d.dpl * 2 ^ 5 + d.p * 2 ^ 7) * 2 ^ 40
    + (d.limit_2 + d.avl * 2 ^ 4 + d.mbz_2 * 2 ^ 5 + d.gr * 2 ^ 7) * 2 ^ 48
    + d.base_3 * 2 ^ 56
    + d.base_4 * 2 ^ 64
    + d.mbz_3 * 2 ^ 96

-- The page of the descriptors by its bytes, the pointer `descs`, the fields of `gdtr`, and the
-- mapper.
pub record Gdt : Type 0 where
  pub memory : Memory
  pub descs : ℕ
  pub limit : ℕ
  pub offset : ℕ
  pub mapper : Mapper

-- The descriptor that `install_segment_descriptor` puts together; `code` and `priv` go into
-- fields of one bit and of two.
abbrev pub segment_descriptor : (code priv : ℕ) → SegmentDescriptor
segment_descriptor code priv = record {
  base_1 = 0;
  base_2 = 0;
  base_3 = 0;
  limit_1 = 0xffff;
  limit_2 = 0xf;
  accessed = 0;
  rw = 1;
  dc = 0;
  ex = code % 2;
  mbo = 1;
  priv = priv % 4;
  p = 1;
  avl = 0;
  l = code % 2;
  sz = (code + 1) % 2;
  gr = 1;
}

unfoldable pub install_segment_descriptor : (code priv : ℕ) → Gdt → Gdt
unfolding store_word
install_segment_descriptor code priv s = record s {
  memory = store_word 8 s.memory s.descs (segment_word (segment_descriptor code priv));
  descs = s.descs + 8;
}

-- The loops over `rsp` and `ist`: `left` stack pointers from `at` on.
unfoldable pub put_stacks : (left : ℕ) → (isr_stack_top at : ℕ) → Memory → Memory
unfolding store_word
put_stacks zero top at m = m
put_stacks (suc k) top at m =
    let lower = store_word 4 m at (u32 (bit_and top 0xffffffff)) in
    let both = store_word 4 lower (at + 4) (u32 (bit_and top 0xffffffff00000000 / 2 ^ 32)) in
    put_stacks k top (at + 8) both

-- The contents of the segment at `tss`.
unfoldable pub put_tss : (isr_stack_top tss : ℕ) → Memory → Memory
unfolding store_word memset put_stacks
put_tss top tss m =
    let m1 = store_word 4 m tss 0 in
    let m2 = memset m1 (tss + 28) 0 8 in
    let m3 = memset m2 (tss + 92) 0 8 in
    let m4 = store_word 2 m3 (tss + 100) 0 in
    let m5 = put_stacks 3 top (tss + 4) m4 in
    let m6 = put_stacks 7 top (tss + 36) m5 in store_word 2 m6 (tss + 102) sizeof_tss

-- The part of `gdt_init` behind the descriptors of code and data.
unfoldable pub install_tss : (gdt_page isr_stack_top : ℕ) → Gdt → Run Gdt
unfolding tss_desc store_word put_tss memset
install_tss gdt_page top s =
    let tss = s.descs + 16 in
    let m1 = store_word 16 s.memory s.descs (tss_word (tss_desc tss)) in
    let m2 = put_tss top tss m1 in
    let iomap = tss + sizeof_tss in
    let m3 = memset m2 iomap 0 32 in
    let length = iomap + 8 * 32 - gdt_page in
    if leb length page_size
    then ok (record s { memory = m3; offset = gdt_page; limit = u16 (length - 1) })
    else panic

unfoldable pub gdt_init : (gdt_page isr_stack_top : ℕ) → Gdt → Run Gdt
unfolding map_page memset install_segment_descriptor install_tss
gdt_init gdt_page top s = do
  m ← map_page gdt_page map_anon kernel_page s.mapper
  let s1 = record s { mapper = m; memory = memset s.memory s.descs 0 8; descs = s.descs + 8 }
  let s2 = install_segment_descriptor 1 0 s1
  let s3 = install_segment_descriptor 0 0 s2
  let s4 = install_segment_descriptor 1 3 s3
  let s5 = install_segment_descriptor 0 3 s4
  install_tss gdt_page top s5
