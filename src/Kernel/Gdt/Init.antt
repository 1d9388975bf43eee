-- ===== src/Kernel/Gdt/Init.antt =====
-- What `gdt_init` of src/gdt/gdt.c leaves in the page of the descriptors.
use mathlib.Core.Path.{subst}
use beaveros.Base.{
  ℕ, ◌+◌, ◌*◌, ◌^◌, ◌<◌, ◌≤◌, ◌≡◌, ◌∙◌, refl, sym, ap, arith, inl, u16, leb, ◌-◌, if◌then◌else◌,
}
use beaveros.Base.Memory.{Memory}
use beaveros.Base.Bytes.{
  load, store_word, load-same, load-store_word, load-store_word-apart, load-zeros,
}
use beaveros.Base.Run.{Run, ok, panic, Returns, returns, ◌>>=◌}
use beaveros.Strings.{memset}
use beaveros.Strings.Blocks.{memset-kept, memset-zero}
use beaveros.Kernel.Mapper.{Mapper, map_anon, map_page, page_size}
use beaveros.Kernel.Boot.{kernel_page}
use beaveros.Kernel.Gdt.Tss.{base, last_byte, tss_desc_correct}
use beaveros.Kernel.Gdt.{
  Gdt, segment_word, segment_descriptor, install_segment_descriptor, tss_word, tss_desc, put_tss,
  install_tss, gdt_init,
}
use beaveros.Kernel.Gdt.Contents.{put_tss-kept, put_tss-ist, put_tss-rsp}

-- The page after `gdt_init`: a null descriptor, the descriptors of code and data for the rings 0 and
-- 3, which are flat, and that of the task state segment behind them; every stack pointer of the
-- segment is the top of the interrupt stack; and the register holds the page and its last byte.
pub record Initialised (gdt_page top : ℕ) (m : Mapper) (s : Gdt) : Type 0 where
  pub null : load 8 s.memory gdt_page ≡ 0
  pub code_0 : load 8 s.memory (gdt_page + 8) ≡ 0x00af_9a00_0000_ffff
  pub data_0 : load 8 s.memory (gdt_page + 16) ≡ 0x00cf_9200_0000_ffff
  pub code_3 : load 8 s.memory (gdt_page + 24) ≡ 0x00af_fa00_0000_ffff
  pub data_3 : load 8 s.memory (gdt_page + 32) ≡ 0x00cf_f200_0000_ffff
  pub task : load 16 s.memory (gdt_page + 40) ≡ tss_word (tss_desc (gdt_page + 56))
  pub task_base : base (tss_desc (gdt_page + 56)) ≡ gdt_page + 56
  pub task_end : last_byte (tss_desc (gdt_page + 56)) ≡ 430079
  pub rsp : (i : ℕ) → i < 3 → load 8 s.memory (gdt_page + 56 + 4 + 8 * i) ≡ top
  pub ist : (i : ℕ) → i < 7 → load 8 s.memory (gdt_page + 56 + 36 + 8 * i) ≡ top
  pub register : (s.offset ≡ gdt_page) × (s.limit ≡ 415)
  pub mapped : s.mapper ≡ m

module _ (g top : ℕ) (m0 : Memory) where
  abbrev segment : (code priv : ℕ) → ℕ
  segment code priv = segment_word (segment_descriptor code priv)

  abbrev n1 : Memory
  n1 = memset m0 g 0 8

  abbrev n2 : Memory
  n2 = store_word 8 n1 (g + 8) (segment 1 0)

  abbrev n3 : Memory
  n3 = store_word 8 n2 (g + 16) (segment 0 0)

  abbrev n4 : Memory
  n4 = store_word 8 n3 (g + 24) (segment 1 3)

  abbrev n5 : Memory
  n5 = store_word 8 n4 (g + 32) (segment 0 3)

  abbrev n6 : Memory
  n6 = store_word 16 n5 (g + 40) (tss_word (tss_desc (g + 56)))

  abbrev n7 : Memory
  n7 = put_tss top (g + 56) n6

  abbrev n8 : Memory
  n8 = memset n7 (g + 160) 0 32

  -- The later writes are behind the descriptors.
  behind : (k a : ℕ) → a + k ≤ g + 160 → load k n8 a ≡ load k n7 a
  behind k a h =
      load-same k n7 n8 a (λ b lo hi. memset-kept n7 (g + 160) 0 32 b (inl (omega arith)))

  before_tss : (k a : ℕ) → a + k ≤ g + 56 → load k n8 a ≡ load k n6 a
  before_tss k a h =
      behind k a (omega arith)
      ∙ load-same k n6 n7 a (λ b lo hi. put_tss-kept top (g + 56) n6 b (inl (omega arith)))

  before_task : (k a : ℕ) → a + k ≤ g + 40 → load k n8 a ≡ load k n5 a
  before_task k a h =
      before_tss k a (omega arith) ∙ load-store_word-apart 16 k n5 (g + 40) _ a (inl (omega arith))

  at_data_3 : load 8 n8 (g + 32) ≡ segment 0 3
  at_data_3 =
      before_task 8 (g + 32) (omega arith)
      ∙ load-store_word 8 n4 (g + 32) (segment 0 3) (omega arith)

  before_data_3 : (a : ℕ) → a + 8 ≤ g + 32 → load 8 n8 a ≡ load 8 n4 a
  before_data_3 a h =
      before_task 8 a (omega arith) ∙ load-store_word-apart 8 8 n4 (g + 32) _ a (inl (omega arith))

  at_code_3 : load 8 n8 (g + 24) ≡ segment 1 3
  at_code_3 =
      before_data_3 (g + 24) (omega arith)
      ∙ load-store_word 8 n3 (g + 24) (segment 1 3) (omega arith)

  before_code_3 : (a : ℕ) → a + 8 ≤ g + 24 → load 8 n8 a ≡ load 8 n3 a
  before_code_3 a h =
      before_data_3 a (omega arith) ∙ load-store_word-apart 8 8 n3 (g + 24) _ a (inl (omega arith))

  at_data_0 : load 8 n8 (g + 16) ≡ segment 0 0
  at_data_0 =
      before_code_3 (g + 16) (omega arith)
      ∙ load-store_word 8 n2 (g + 16) (segment 0 0) (omega arith)

  before_data_0 : (a : ℕ) → a + 8 ≤ g + 16 → load 8 n8 a ≡ load 8 n2 a
  before_data_0 a h =
      before_code_3 a (omega arith) ∙ load-store_word-apart 8 8 n2 (g + 16) _ a (inl (omega arith))

  at_code_0 : load 8 n8 (g + 8) ≡ segment 1 0
  at_code_0 =
      before_data_0 (g + 8) (omega arith) ∙ load-store_word 8 n1 (g + 8) (segment 1 0) (omega arith)

  at_null : load 8 n8 g ≡ 0
  at_null =
      before_data_0 g (omega arith)
      ∙ load-store_word-apart 8 8 n1 (g + 8) _ g (inl (omega arith))
      ∙ load-zeros 8 n1 g (λ b lo hi. memset-zero m0 g 8 b (omega arith) (omega arith))

  at_task : load 16 n8 (g + 40) ≡ tss_word (tss_desc (g + 56))
  unfolding tss_desc
  at_task =
      before_tss 16 (g + 40) (omega arith)
      ∙ load-store_word 16 n5 (g + 40) (tss_word (tss_desc (g + 56))) (omega arith)

  written :
      (m : Mapper) (s : Gdt)
      → top < 2 ^ 64
      → g + 56 < 2 ^ 64
      → Initialised g top m (record s { memory = n8; offset = g; limit = 415; mapper = m })
  written m s w w' = record {
    null = at_null;
    code_0 = at_code_0;
    data_0 = at_data_0;
    code_3 = at_code_3;
    data_3 = at_data_3;
    task = at_task;
    task_base = (tss_desc_correct (g + 56) w').0;
    task_end = (tss_desc_correct (g + 56) w').1;
    rsp = λ i h. behind 8 (g + 56 + 4 + 8 * i) (omega arith) ∙ put_tss-rsp top (g + 56) n6 i w h;
    ist = λ i h. behind 8 (g + 56 + 36 + 8 * i) (omega arith) ∙ put_tss-ist top (g + 56) n6 i w h;
    register = (refl, refl);
    mapped = refl;
  }

module _ (g top : ℕ) (m : Mapper) (s : Gdt) where
  abbrev done : Gdt
  done = record s {
    memory = n8 g top s.memory;
    descs = g + 40;
    offset = g;
    limit = 415;
    mapper = m;
  }

  -- The state before the task state segment.
  abbrev with_segments : Gdt
  with_segments = record s { memory = n5 g top s.memory; descs = g + 40; mapper = m }

  -- `install_tss` with its addresses.
  abbrev tss_at : (descs tss iomap length : ℕ) → Gdt → Run Gdt
  tss_at descs tss iomap length t =
      if leb length page_size
      then ok (record t {
        memory =
            memset (put_tss top tss (store_word 16 t.memory descs (tss_word (tss_desc tss)))) iomap
              0 32;
        offset = g;
        limit = u16 (length - 1);
      })
      else panic

  install_tss-at :
      (t : Gdt)
      → install_tss g top t
        ≡ tss_at t.descs (t.descs + 16) (t.descs + 16 + 104) (t.descs + 16 + 104 + 256 - g) t
  unfolding install_tss
  install_tss-at t = refl

  install_tss-done : install_tss g top with_segments ≡ ok done
  install_tss-done =
      let tss : g + 40 + 16 ≡ g + 56 = omega arith in
      let iomap : g + 40 + 16 + 104 ≡ g + 160 = omega arith in
      let length : g + 40 + 16 + 104 + 256 - g ≡ 416 = omega arith in
      install_tss-at with_segments
      ∙ ap
          (λ (x : ℕ).
            tss_at (g + 40) x (g + 40 + 16 + 104) (g + 40 + 16 + 104 + 256 - g) with_segments)
          tss
      ∙ ap (λ (x : ℕ). tss_at (g + 40) (g + 56) x (g + 40 + 16 + 104 + 256 - g) with_segments) iomap
      ∙ ap (λ (x : ℕ). tss_at (g + 40) (g + 56) (g + 160) x with_segments) length

  -- The descriptors, from where `descs` points to.
  abbrev segments_at : (a b c d e f : ℕ) → Gdt
  segments_at a b c d e f = record s {
    memory =
        store_word 8
          (store_word 8
            (store_word 8 (store_word 8 (memset s.memory a 0 8) b (segment g top s.memory 1 0)) c
              (segment g top s.memory 0 0))
            d (segment g top s.memory 1 3))
          e (segment g top s.memory 0 3);
    descs = f;
    mapper = m;
  }

  gdt_init-at : gdt_init g top s ≡ (
      map_page g map_anon kernel_page s.mapper >>= λ m'.
      install_tss g top
        (record (segments_at s.descs
          (s.descs + 8)
          (s.descs + 8 + 8)
          (s.descs + 8 + 8 + 8)
          (s.descs + 8 + 8 + 8 + 8)
          (s.descs + 8 + 8 + 8 + 8 + 8)) { mapper = m' }))
  unfolding gdt_init install_segment_descriptor
  gdt_init-at = refl

  gdt_init-done :
      s.descs ≡ g → map_page g map_anon kernel_page s.mapper ≡ ok m → gdt_init g top s ≡ ok done
  gdt_init-done at mapped =
      let b : s.descs + 8 ≡ g + 8 = omega arith in
      let c : s.descs + 8 + 8 ≡ g + 16 = omega arith in
      let d : s.descs + 8 + 8 + 8 ≡ g + 24 = omega arith in
      let e : s.descs + 8 + 8 + 8 + 8 ≡ g + 32 = omega arith in
      let f : s.descs + 8 + 8 + 8 + 8 + 8 ≡ g + 40 = omega arith in
      gdt_init-at
      ∙ ap
          (λ (r : Run Mapper). r >>= λ m'.
            install_tss g top
              (record (segments_at s.descs (s.descs + 8) (s.descs + 8 + 8) (s.descs + 8 + 8 + 8)
                (s.descs + 8 + 8 + 8 + 8) (s.descs + 8 + 8 + 8 + 8 + 8)) { mapper = m' }))
          mapped
      ∙ ap (install_tss g top) (segments_same at b c d e f)
      ∙ install_tss-done
    where
      segments_same :
          {a b c d e f a' b' c' d' e' f' : ℕ}
          → a ≡ a'
          → b ≡ b'
          → c ≡ c'
          → d ≡ d'
          → e ≡ e'
          → f ≡ f'
          → segments_at a b c d e f ≡ segments_at a' b' c' d' e' f'
      segments_same p q r t u v = cc

-- `gdt_init`, called with `descs` at the page of the descriptors, where the page can be mapped:
-- it returns with the null descriptor, flat descriptors of code and data for the rings 0 and 3, and
-- the descriptor of the task state segment in the page, in this order; the base of that is the
-- address of the segment, and its last byte the byte 430,079, since its limit of 104 counts pages;
-- every stack pointer of the segment is the top of the interrupt stack; and the limit in the register ends behind the I/O map.
pub gdt_init_correct :
    (gdt_page top : ℕ) (m : Mapper) (s : Gdt)
    → s.descs ≡ gdt_page
    → top < 2 ^ 64
    → gdt_page + 4096 ≤ 2 ^ 64
    → map_page gdt_page map_anon kernel_page s.mapper ≡ ok m
    → Returns (Initialised gdt_page top m) (gdt_init gdt_page top s)
gdt_init_correct g top m s at w w' mapped =
    subst (λ r. Returns (Initialised g top m) r) (sym (gdt_init-done g top m s at mapped))
      (returns (written g top s.memory m (record s { descs = g + 40 }) w (omega arith)))
