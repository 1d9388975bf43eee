-- ===== src/Loader/Elf/Segment/Page.antt =====
-- `load_kernel` of src/loader/elf64.c: the page that is mapped at an offset of a segment.
use mathlib.Core.Path.{subst}
use beaveros.Base.{
  ℕ, ◌+◌, ◌%◌, ◌^◌, ◌-◌, ◌<◌, ◌≤◌, ◌≡◌, ◌≢◌, ◌⊎◌, ◌∙◌, sym, ap, refl, arith, Bool-cases, true,
  false, inl, inr, if◌then◌else◌, if-true, if-false, ltb, u32, u64,
}
use beaveros.Strings.{memset}
use beaveros.Paging.{walk}
use beaveros.Paging.Layout.{Layout, page_of}
use beaveros.Loader.Paging.{Loader, entry_at, new_phys_zero_page, new_phys_page}
use beaveros.Strings.Blocks.{memset-zero, memset-kept, memset-IsBytes}
use beaveros.Loader.Paging.Open.{IsSpace}
use beaveros.Loader.Paging.Outside.{IsSpace-outside, walk-outside}
use beaveros.Loader.Elf.{Elf64Phdr}
use beaveros.Loader.Elf.Load.{segment_page}
use beaveros.Loader.Elf.Segment.{round_up}

-- The page is filled, and is no table.
pub record Ready (l : Layout) (start i : ℕ) (p : Elf64Phdr) (s s' : Loader) (page : ℕ)
    : Type 0 where
  pub space : IsSpace l s'
  pub root : s'.pml4 ≡ s.pml4
  pub used :
      (s'.used_memory % 4096 ≡ 0)
      × (s.used_memory ≤ s'.used_memory)
      × (s'.used_memory ≤ s.used_memory + 4096)
  pub aligned : (page % 4096 ≡ 0) × (page + 4096 ≤ s'.used_memory)
  pub free : 4 ≤ l.level page
  pub origin :
      ((page ≡ start + p.p_offset + i) × (i < p.p_filesz))
      ⊎ ((page ≡ s.used_memory) × (p.p_filesz ≤ i))
  pub filled :
      (b : ℕ)
      → b < 4096
      → s'.memory (page + b) ≡ (if ltb (i + b) p.p_filesz then s.memory (page + b) else 0)
  pub other : (a : ℕ) → a < s.used_memory → page_of a ≢ page → s'.memory a ≡ s.memory a
  pub byte :
      (a : ℕ)
      → a < s.used_memory
      → (a < start + p.p_offset + p.p_filesz) ⊎ (start + p.p_offset + round_up p.p_filesz ≤ a)
      → s'.memory a ≡ s.memory a
  pub walks : (v : ℕ) → walk 3 (entry_at s') s'.pml4 v ≡ walk 3 (entry_at s) s.pml4 v

module _ (l : Layout) (start i : ℕ) (p : Elf64Phdr) (s : Loader) (space : IsSpace l s)
    (at : i % 4096 ≡ 0) (used : s.used_memory % 4096 ≡ 0)
    (room : s.used_memory + 4096 < 2 ^ 32) where
  -- No table lies behind the memory in use.
  beyond_free : (q : ℕ) → s.used_memory ≤ q → 4 ≤ l.level q
  beyond_free q h = elim (Bool-cases (ltb (l.level q) 4)) [
    | inl table ↦ let in_q = space.tree.inside q (ground arith) in absurd (omega arith)
    | inr free ↦ ground arith
  ]

  -- A new page.
  abbrev new : Loader
  new = record s {
    memory = memset s.memory s.used_memory 0 4096;
    used_memory = s.used_memory + 4096;
  }

  new-kept : (a : ℕ) → a < s.used_memory → new.memory a ≡ s.memory a
  new-kept a h = memset-kept s.memory s.used_memory 0 4096 a (inl h)

  new-table : (a : ℕ) → l.level (page_of a) < 4 → new.memory a ≡ s.memory a
  new-table a h = let (aligned, end) = space.tree.inside (page_of a) h in new-kept a (omega arith)

  new-Ready : p.p_filesz ≤ i → Ready l start i p s new s.used_memory
  new-Ready behind =
      let bytes = memset-IsBytes s.memory s.used_memory 4096 space.bytes in
      record {
        space = IsSpace-outside l s new space refl (omega arith) bytes new-table;
        root = refl;
        used = (omega arith, omega arith, omega arith);
        aligned = (used, omega arith);
        free = beyond_free s.used_memory (omega arith);
        origin = inr (refl, behind);
        filled = λ b h.
            memset-zero s.memory s.used_memory 4096 (s.used_memory + b) (omega arith) (omega arith)
            ∙ sym (if-false _ _ (ltb (i + b) p.p_filesz) (ground arith));
        other = λ a h ne. new-kept a h;
        byte = λ a h out. new-kept a h;
        walks = λ v. walk-outside l s new space refl (omega arith) bytes new-table v;
      }

  segment_page-new : p.p_filesz ≤ i → segment_page start p i s ≡ (s.used_memory, new)
  unfolding segment_page new_phys_zero_page new_phys_page
  segment_page-new behind =
      let past : ltb i p.p_filesz ≡ false = ground arith in
      let more : u32 (s.used_memory + 4096) ≡ s.used_memory + 4096 = omega arith in
      if-false _ _ (ltb i p.p_filesz) past
      ∙ ap (λ (x : ℕ). (s.used_memory, record new { used_memory = x })) more

  module _ (file : (start + p.p_offset) % 4096 ≡ 0)
      (file_used : start + p.p_offset + round_up p.p_filesz ≤ s.used_memory)
      (file_free : (a : ℕ)
        → start + p.p_offset ≤ a
        → a < start + p.p_offset + round_up p.p_filesz
        → 4 ≤ l.level (page_of a))
      (inside : i < p.p_filesz) where
    abbrev f : ℕ
    f = start + p.p_offset

    file_page_free : 4 ≤ l.level (f + i)
    file_page_free =
        let same : page_of (f + i) ≡ f + i = omega arith in
        subst (λ (x : ℕ). 4 ≤ l.level x) same (file_free (f + i) (omega arith) (omega arith))

    -- A page whose bytes are all in the file.
    whole-Ready : i + 4096 ≤ p.p_filesz → Ready l start i p s s (f + i)
    whole-Ready full = record {
      space = space;
      root = refl;
      used = (used, omega arith, omega arith);
      aligned = (omega arith, omega arith);
      free = file_page_free;
      origin = inl (refl, inside);
      filled = λ b h. sym (if-true _ _ (ltb (i + b) p.p_filesz) (ground arith));
      other = λ a h ne. refl;
      byte = λ a h out. refl;
      walks = λ v. refl;
    }

    abbrev cleared : (from count : ℕ) → Loader
    cleared from count = record s { memory = memset s.memory from 0 count }

    -- The last page in the file.
    abbrev last : Loader
    last = cleared (f + p.p_filesz) (i + 4096 - p.p_filesz)

    last-kept : (a : ℕ) → (a < f + p.p_filesz) ⊎ (f + i + 4096 ≤ a) → last.memory a ≡ s.memory a
    last-kept a out =
        memset-kept s.memory (f + p.p_filesz) 0 (i + 4096 - p.p_filesz) a (ground arith)

    last-table :
        p.p_filesz < i + 4096 → (a : ℕ) → l.level (page_of a) < 4 → last.memory a ≡ s.memory a
    last-table part a h = elim (Bool-cases (ltb a f)) [
      | inl before ↦ last-kept a (inl (ground arith))
      | inr from ↦ elim (Bool-cases (ltb a (f + i + 4096))) [
        | inr after ↦ last-kept a (inr (ground arith))
        | inl before ↦ let free = file_free a (ground arith) (ground arith) in absurd (omega arith)
      ]
    ]

    last-filled :
        p.p_filesz < i + 4096
        → (b : ℕ) → b < 4096
        → last.memory (f + i + b) ≡ (if ltb (i + b) p.p_filesz then s.memory (f + i + b) else 0)
    last-filled part b h = elim (Bool-cases (ltb (i + b) p.p_filesz)) [
      | inl in_file ↦
          last-kept (f + i + b) (inl (ground arith))
          ∙ sym (if-true _ _ (ltb (i + b) p.p_filesz) in_file)
      | inr behind ↦
          memset-zero s.memory (f + p.p_filesz) (i + 4096 - p.p_filesz) (f + i + b) (ground arith)
            (ground arith)
          ∙ sym (if-false _ _ (ltb (i + b) p.p_filesz) behind)
    ]

    last-Ready : p.p_filesz < i + 4096 → Ready l start i p s last (f + i)
    last-Ready part =
        let bytes = memset-IsBytes s.memory (f + p.p_filesz) (i + 4096 - p.p_filesz) space.bytes in
        record {
          space = IsSpace-outside l s last space refl (omega arith) bytes (last-table part);
          root = refl;
          used = (used, omega arith, omega arith);
          aligned = (omega arith, omega arith);
          free = file_page_free;
          origin = inl (refl, inside);
          filled = last-filled part;
          other = λ a h ne. last-kept a (ground arith);
          byte = λ a h out. last-kept a (ground arith);
          walks = λ v. walk-outside l s last space refl (omega arith) bytes (last-table part) v;
        }

    segment_page-whole : i + 4096 ≤ p.p_filesz → segment_page start p i s ≡ (f + i, s)
    unfolding segment_page
    segment_page-whole full =
        let in_file : ltb i p.p_filesz ≡ true = ground arith in
        let past : u64 (i + 4096) ≡ i + 4096 = omega arith in
        let all : ltb p.p_filesz (u64 (i + 4096)) ≡ false = ground arith in
        let page : u32 (start + p.p_offset + i) ≡ f + i = omega arith in
        if-true _ _ (ltb i p.p_filesz) in_file
        ∙ if-false _ _ (ltb p.p_filesz (u64 (i + 4096))) all
        ∙ ap (λ (x : ℕ). (x, s)) page

    segment_page-last : p.p_filesz < i + 4096 → segment_page start p i s ≡ (f + i, last)
    unfolding segment_page
    segment_page-last part =
        let in_file : ltb i p.p_filesz ≡ true = ground arith in
        let past : u64 (i + 4096) ≡ i + 4096 = omega arith in
        let some_left : ltb p.p_filesz (u64 (i + 4096)) ≡ true = ground arith in
        let page : u32 (start + p.p_offset + i) ≡ f + i = omega arith in
        let behind : u32 (u32 (start + p.p_offset + i) + p.p_filesz + (2 ^ 64 - i))
            ≡ f + p.p_filesz =
          omega arith in
        let count : u32 (u64 (i + 4096) + (2 ^ 64 - p.p_filesz)) ≡ i + 4096 - p.p_filesz =
          omega arith in
        if-true _ _ (ltb i p.p_filesz) in_file
        ∙ if-true _ _ (ltb p.p_filesz (u64 (i + 4096))) some_left
        ∙ ap
            (λ (x : ℕ). (
              u32 (start + p.p_offset + i),
              cleared x (u32 (u64 (i + 4096) + (2 ^ 64 - p.p_filesz))),
            ))
            behind
        ∙ ap (λ (x : ℕ). (u32 (start + p.p_offset + i), cleared (f + p.p_filesz) x)) count
        ∙ ap (λ (x : ℕ). (x, last)) page

    file_page-Ready : Ready l start i p s (segment_page start p i s).1 (segment_page start p i s).0
    file_page-Ready = elim (Bool-cases (ltb p.p_filesz (i + 4096))) [
      | inl part ↦
          subst (λ (r : ℕ × Loader). Ready l start i p s r.1 r.0)
            (sym (segment_page-last (ground arith))) (last-Ready (ground arith))
      | inr full ↦
          subst (λ (r : ℕ × Loader). Ready l start i p s r.1 r.0)
            (sym (segment_page-whole (ground arith))) (whole-Ready (ground arith))
    ]

-- The page for an offset.
pub segment_page-Ready :
    (l : Layout) (start i : ℕ) (p : Elf64Phdr) (s : Loader)
    → IsSpace l s
    → i % 4096 ≡ 0
    → s.used_memory % 4096 ≡ 0
    → s.used_memory + 4096 < 2 ^ 32
    → (start + p.p_offset) % 4096 ≡ 0
    → start + p.p_offset + round_up p.p_filesz ≤ s.used_memory
    → ((a : ℕ)
        → start + p.p_offset ≤ a
        → a < start + p.p_offset + round_up p.p_filesz
        → 4 ≤ l.level (page_of a))
    → Ready l start i p s (segment_page start p i s).1 (segment_page start p i s).0
segment_page-Ready l start i p s space at used room file file_used file_free =
    elim (Bool-cases (ltb i p.p_filesz)) [
      | inl inside ↦
          file_page-Ready l start i p s space at used room file file_used file_free (ground arith)
      | inr behind ↦
          subst (λ (r : ℕ × Loader). Ready l start i p s r.1 r.0)
            (sym (segment_page-new l start i p s space at used room (ground arith)))
            (new-Ready l start i p s space at used room (ground arith))
    ]
