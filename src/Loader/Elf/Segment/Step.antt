-- ===== src/Loader/Elf/Segment/Step.antt =====
-- `load_kernel` of src/loader/elf64.c: one page of a segment.
use mathlib.Core.Path.{subst}
use beaveros.Base.{
  ℕ, ◌+◌, ◌*◌, ◌%◌, ◌-◌, ◌<◌, ◌≤◌, ◌≡◌, ◌≢◌, ◌⊎◌, ◌∙◌, sym, ap, refl, arith, Bool-cases, inl, inr,
  if◌then◌else◌, if-true, if-false, ltb, some, bit_or,
}
use beaveros.Base.Memory.{Memory}
use beaveros.Base.Bytes.{load, load-same}
use beaveros.Kernel.Mapper.{page_p_bit}
use beaveros.Kernel.Mapper.Leaf.{leaf}
use beaveros.Paging.{page_number, walk}
use beaveros.Paging.Same.{walk-page}
use beaveros.Paging.Layout.{Layout, page_of}
use beaveros.Loader.Paging.{Loader, entry_at, rw_global}
use beaveros.Loader.Paging.Open.{IsSpace}
use beaveros.Loader.Paging.Space.{Mapped}
use beaveros.Loader.Elf.{Elf64Phdr, phdr_at}
use beaveros.Loader.Elf.Segment.{FitsSegment, round_up, segment_byte}
use beaveros.Loader.Elf.Segment.Page.{Ready}

-- A program header that lies in bytes that did not change.
phdr_at-same :
    (m m' : Memory) (a : ℕ)
    → ((b : ℕ) → a ≤ b → b < a + 56 → m' b ≡ m b)
    → phdr_at m' a ≡ phdr_at m a
unfolding phdr_at
phdr_at-same m m' a same =
    let at : (n o : ℕ) → o + n ≤ 56 → load n m' (a + o) ≡ load n m (a + o) =
      λ n o h. load-same n m m' (a + o) (λ b lo hi. same b (omega arith) (omega arith)) in
    let first : load 4 m' a ≡ load 4 m a =
      load-same 4 m m' a (λ b lo hi. same b (omega arith) (omega arith)) in
    rw
      (
        first,
        at 4 4 (omega arith),
        at 8 8 (omega arith),
        at 8 16 (omega arith),
        at 8 24 (omega arith),
        at 8 32 (omega arith),
        at 8 40 (omega arith),
        at 8 48 (omega arith),
      )
      refl

-- The flags of the pages.
abbrev pub page_flags : ℕ
page_flags = bit_or rw_global page_p_bit

-- Where a byte of the segment was put: on a page of the file, or on a new one, and on no table.
pub record Placed (start j : ℕ) (p : Elf64Phdr) (l : Layout) (s0 s : Loader) : Type 0 where
  pub page : ℕ
  pub aligned : (page % 4096 ≡ 0) × (page + 4096 ≤ s.used_memory)
  pub found : walk 3 (entry_at s) s.pml4 (p.p_vaddr + j) ≡ some (leaf page page_flags)
  pub free : 4 ≤ l.level page
  pub origin :
      ((page ≡ start + p.p_offset + page_of j) × (page_of j < p.p_filesz)) ⊎ (s0.used_memory ≤ page)
  pub byte : s.memory (page + j % 4096) ≡ segment_byte start p s0.memory j

-- The loop at the offset `i`.
pub record Loading (l : Layout) (start i : ℕ) (p : Elf64Phdr) (s0 s : Loader) : Type 0 where
  pub layout : Layout
  pub space : IsSpace layout s
  pub root : s.pml4 ≡ s0.pml4
  pub at : i % 4096 ≡ 0
  pub used :
      (s.used_memory % 4096 ≡ 0)
      × (s0.used_memory ≤ s.used_memory)
      × (s.used_memory ≤ s0.used_memory + 4 * i)
  pub placed : (j : ℕ) → j < i → Placed start j p layout s0 s
  pub elsewhere :
      (v : ℕ)
      → ((j : ℕ) → j < i → page_number v ≢ page_number (p.p_vaddr + j))
      → walk 3 (entry_at s) s.pml4 v ≡ walk 3 (entry_at s0) s0.pml4 v
  pub byte :
      (a : ℕ)
      → a < s0.used_memory
      → 4 ≤ l.level (page_of a)
      → (a < start + p.p_offset + p.p_filesz) ⊎ (start + p.p_offset + round_up p.p_filesz ≤ a)
      → s.memory a ≡ s0.memory a
  pub free : (q : ℕ) → q < s0.used_memory → 4 ≤ l.level q → 4 ≤ layout.level q

module _ (l : Layout) (start phdr : ℕ) (p : Elf64Phdr) (s0 : Loader)
    (fits : FitsSegment l start phdr p s0) where
  -- The header is read as it was at first.
  pub header_kept :
      (s : Loader)
      → ((a : ℕ)
          → a < s0.used_memory
          → 4 ≤ l.level (page_of a)
          → (a < start + p.p_offset + p.p_filesz) ⊎ (start + p.p_offset + round_up p.p_filesz ≤ a)
          → s.memory a ≡ s0.memory a)
      → phdr_at s.memory phdr ≡ p
  header_kept s byte =
      let used = fits.header_used in
      let apart = fits.header_apart in
      phdr_at-same s0.memory s.memory phdr
        (λ b lo hi. byte b (omega arith) (fits.header_free b lo hi) (ground arith))
      ∙ sym fits.header

  module _ (i : ℕ) (s s1 s2 : Loader) (page : ℕ) (g : Loading l start i p s0 s)
      (more : i < p.p_memsz) (r : Ready g.layout start i p s s1 page)
      (mapped : Mapped g.layout (p.p_vaddr + i) (leaf page page_flags) s1 s2) where
    -- A byte of a page before.
    Placed-before : (j : ℕ) → j < i → Placed start j p mapped.layout s0 s2
    Placed-before j h =
        let q = g.placed j h in
        let room = fits.room in
        let file = fits.file_used in
        let virt = fits.virt in
        let at = g.at in
        let used = r.used in
        let used2 = mapped.used in
        let ne : q.page ≢ page = λ e. ground (arith, q.origin, r.origin, q.aligned, g.used) in
        let here : page_of (q.page + j % 4096) ≡ q.page = omega (arith, q.aligned) in
        record {
          page = q.page;
          aligned = (q.aligned.0, omega (arith, q.aligned));
          found =
              mapped.elsewhere (p.p_vaddr + j) (λ e. omega arith)
              ∙ r.walks (p.p_vaddr + j)
              ∙ q.found;
          free = mapped.keeps.free q.page (omega (arith, q.aligned)) q.free;
          origin = q.origin;
          byte =
              mapped.keeps.byte (q.page + j % 4096) (omega (arith, q.aligned))
                (subst (λ (x : ℕ). 4 ≤ g.layout.level x) (sym here) q.free)
              ∙ r.other (q.page + j % 4096) (omega (arith, q.aligned)) (λ e. ne (sym here ∙ e))
              ∙ q.byte;
        }

    -- What the page holds.
    page_byte :
        (b : ℕ)
        → b < 4096
        → (if ltb (i + b) p.p_filesz then s.memory (page + b) else 0)
          ≡ segment_byte start p s0.memory (i + b)
    page_byte b h = elim (Bool-cases (ltb (i + b) p.p_filesz)) [
      | inr behind ↦
          if-false _ _ (ltb (i + b) p.p_filesz) behind
          ∙ sym (if-false _ _ (ltb (i + b) p.p_filesz) behind)
      | inl in_file ↦
          let file = fits.file_used in
          let at = g.at in
          let place : page ≡ start + p.p_offset + i = ground (arith, r.origin) in
          let a = start + p.p_offset + (i + b) in
          if-true _ _ (ltb (i + b) p.p_filesz) in_file
          ∙ ap s.memory (omega arith)
          ∙ g.byte a (ground arith) (fits.file_free a (omega arith) (ground arith))
              (inl (ground arith))
          ∙ sym (if-true _ _ (ltb (i + b) p.p_filesz) in_file)
    ]

    -- A byte of the page.
    Placed-here : (b : ℕ) → b < 4096 → Placed start (i + b) p mapped.layout s0 s2
    Placed-here b h =
        let virt = fits.virt in
        let at = g.at in
        let aligned = r.aligned in
        let used2 = mapped.used in
        let used0 = g.used in
        let rest : (i + b) % 4096 ≡ b = omega arith in
        let here : page_of (page + (i + b) % 4096) ≡ page = omega arith in
        let at_page : page + (i + b) % 4096 ≡ page + b = ap (λ (x : ℕ). page + x) rest in
        record {
          page = page;
          aligned = (aligned.0, omega arith);
          found =
              walk-page (entry_at s2) s2.pml4 (p.p_vaddr + (i + b)) (p.p_vaddr + i) (omega arith)
              ∙ mapped.here;
          free = mapped.keeps.free page (omega arith) r.free;
          origin = ground (arith, r.origin);
          byte =
              mapped.keeps.byte (page + (i + b) % 4096) (omega arith)
                (subst (λ (x : ℕ). 4 ≤ g.layout.level x) (sym here) r.free)
              ∙ ap s1.memory at_page
              ∙ r.filled b h
              ∙ page_byte b h;
        }

    Placed-after : (j : ℕ) → j < i + 4096 → Placed start j p mapped.layout s0 s2
    Placed-after j h = elim (Bool-cases (ltb j i)) [
      | inl before ↦ Placed-before j (ground arith)
      | inr from ↦
          let le : i ≤ j = ground arith in
          let sum : i + (j - i) ≡ j = omega arith in
          subst (λ (x : ℕ). Placed start x p mapped.layout s0 s2) sum
            (Placed-here (j - i) (omega arith))
    ]

    pub next : Loading l start (i + 4096) p s0 s2
    next =
        let used0 = g.used in
        let used1 = r.used in
        let used2 = mapped.used in
        record {
          layout = mapped.layout;
          space = mapped.space;
          root = mapped.root ∙ r.root ∙ g.root;
          at = omega (arith, g.at);
          used = (omega arith, omega arith, omega arith);
          placed = Placed-after;
          elsewhere = λ v off.
              mapped.elsewhere v (off i (omega arith))
              ∙ r.walks v
              ∙ g.elsewhere v (λ j h. off j (omega arith));
          byte = λ a h free out.
              mapped.keeps.byte a (omega arith) (g.free (page_of a) (omega arith) free)
              ∙ r.byte a (omega arith) out
              ∙ g.byte a h free out;
          free = λ q h free. mapped.keeps.free q (omega arith) (g.free q h free);
        }
