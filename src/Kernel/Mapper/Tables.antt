-- ===== src/Kernel/Mapper/Tables.antt =====
-- `map_page` of src/memory/mapper.c, level by level, and the walk of the page tables.
use beaveros.Base.{
  ℕ, ◌+◌, ◌-◌, ◌*◌, ◌/◌, ◌%◌, ◌^◌, ◌<◌, ◌≡◌, ◌∙◌, refl, ap, true, arith, ◌==◌, bit_and, bit_or,
}
use beaveros.Base.Memory.{store}
use beaveros.Base.Run.{ok}
use beaveros.Base.Bits.{
  bit_and-zero, bit_or-zero, word, bit_and-word, bit_or-word, word-fields, bit_or-half,
  bit_and-half, bit_or-lt, bit_and-lt,
}
use beaveros.Kernel.Mapper.{Mapper, has, page_p_bit, page_addr_bits, pml4_flags_mask, descend}
use beaveros.Kernel.Mapper.Window.{IsPage, addr_field, addr_of_page, has_p}

-- The table or page to which an entry leads.
abbrev pub target : ℕ → ℕ
target w = bit_and w page_addr_bits

-- Flags have an empty address field.
pub bit_and-flags :
    (f t l : ℕ)
    → l < 2 ^ 12
    → bit_and f (word t 0 l) ≡ word (bit_and (f / 2 ^ 52) t) 0 (bit_and (f % 2 ^ 12) l)
bit_and-flags f t l h =
    ap (λ (x : ℕ). bit_and x (word t 0 l)) (word-fields f)
    ∙ bit_and-word (f / 2 ^ 52) (f / 2 ^ 12 % 2 ^ 40) (f % 2 ^ 12) t 0 l (omega arith) (omega arith)
        (omega arith) h
    ∙ rw (bit_and-zero (f / 2 ^ 12 % 2 ^ 40))

pub bit_and-odd : (a b : ℕ) → a % 2 ≡ 1 → b % 2 ≡ 1 → bit_and a b % 2 ≡ 1
bit_and-odd a b p q = omega (arith, bit_and-half a b)

pub bit_or-odd : (a b : ℕ) → b % 2 ≡ 1 → bit_or a b % 2 ≡ 1
bit_or-odd a b q = omega (arith, bit_or-half a b)

bit_or-flags :
    (e t l : ℕ)
    → l < 2 ^ 12
    → bit_or e (word t 0 l)
      ≡ word (bit_or (e / 2 ^ 52) t) (e / 2 ^ 12 % 2 ^ 40) (bit_or (e % 2 ^ 12) l)
bit_or-flags e t l h =
    let m = e / 2 ^ 12 % 2 ^ 40 in
    ap (λ (x : ℕ). bit_or x (word t 0 l)) (word-fields e)
    ∙ bit_or-word (e / 2 ^ 52) m (e % 2 ^ 12) t 0 l (omega arith) (omega arith) (omega arith) h
    ∙ ap (λ (x : ℕ). word (bit_or (e / 2 ^ 52) t) x (bit_or (e % 2 ^ 12) l)) (bit_or-zero m)

-- An entry that takes flags leads where it led.
target-bit_or : (e t l : ℕ) → l < 2 ^ 12 → target (bit_or e (word t 0 l)) ≡ target e
target-bit_or e t l h = omega (
  arith,
  addr_field e,
  addr_field (bit_or e (word t 0 l)),
  bit_or-flags e t l h,
  bit_or-lt 12 (e % 2 ^ 12) l (omega arith) h,
)

-- The entry after `descend` with the flags `f & PML4_FLAGS_MASK`: where it leads, and that it is
-- present if the flags are.
abbrev pub entry_after : ℕ → ℕ → ℕ
entry_after e f = bit_or e (bit_and f pml4_flags_mask)

module _ (e f : ℕ) (odd : f % 2 ≡ 1) where
  pub target-entry_after : target (entry_after e f) ≡ target e
  target-entry_after = rw (bit_and-flags f 0xfff 0xe3f (omega arith)) (
      target-bit_or e (bit_and (f / 2 ^ 52) 0xfff) (bit_and (f % 2 ^ 12) 0xe3f)
        (bit_and-lt 12 (f % 2 ^ 12) 0xe3f (omega arith)))

  pub entry_after-present : has (entry_after e f) page_p_bit ≡ true
  entry_after-present = ground (
    arith,
    has_p (entry_after e f),
    bit_or-odd e (bit_and f pml4_flags_mask) (bit_and-odd f pml4_flags_mask odd refl),
  )

-- With the present flag, `descend` takes the flags into the entry, and follows it whether or not
-- it was present before: it never makes a new table.
pub descend_never_allocates :
    (m : Mapper) (table index f : ℕ)
    → IsPage table
    → f % 2 ≡ 1
    → let a = table + 8 * index in
      descend table index (bit_and f pml4_flags_mask) m
      ≡ ok (
        target (m.memory a),
        record m {
          memory = store m.memory a (entry_after (m.memory a) f);
          window = table;
          phys_window = 0;
        },
      )
unfolding descend
descend_never_allocates m table index f page odd =
    let a = table + 8 * index in
    let e = m.memory a in
    let here : table - table ≡ 0 = omega arith in
    let at : table + (0 + 8 * index) ≡ a = omega arith in
    let self : (a == a) ≡ true = ground arith in
    rw (
      addr_of_page table page,
      here,
      at,
      self,
      entry_after-present e f odd,
      target-entry_after e f odd,
    )
