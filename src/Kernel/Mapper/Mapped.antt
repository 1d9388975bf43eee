-- ===== src/Kernel/Mapper/Mapped.antt =====
-- What `map_page` of src/memory/mapper.c leaves, level by level.
use beaveros.Base.{ℕ, ◌%◌, ◌≡◌, ◌≢◌, ◌∙◌, refl, ap, sym, false, true, bit_and, ◌∷◌}
use beaveros.Base.Memory.{Memory, store, store_ne, store_self}
use beaveros.Base.Run.{ok}
use beaveros.Kernel.Mapper.{
  Mapper, has, bits, page_p_bit, page_f_bit, pml4_flags_mask, pt_flags_mask, descend, map_present,
}
use beaveros.Kernel.Mapper.Window.{IsPage}
use beaveros.Kernel.Mapper.Tables.{
  target, entry_after, target-entry_after, entry_after-present, descend_never_allocates,
}
use beaveros.Kernel.Mapper.Walk.{slot4, slot3, slot2, slot1, index-lt, Tables, Walk, slots-differ}
use beaveros.Kernel.Mapper.Leaf.{leaf, target-leaf, leaf-present, map_entry-plain}

-- What `map_page` leaves when it maps `phys` at `virt`.
pub record Mapped (m : Mapper) (virt phys flags p3 p2 p1 : ℕ) (m' : Mapper) : Type 0 where
  pub root : m'.pml4 ≡ m.pml4
  pub walk : Walk m'.memory virt m.pml4 p3 p2 p1
  pub present :
      (has (m'.memory (slot4 m.pml4 virt)) page_p_bit ≡ true)
      × (has (m'.memory (slot3 p3 virt)) page_p_bit ≡ true)
      × (has (m'.memory (slot2 p2 virt)) page_p_bit ≡ true)
      × (has (m'.memory (slot1 p1 virt)) page_p_bit ≡ true)
  pub upper :
      (m'.memory (slot4 m.pml4 virt) ≡ entry_after (m.memory (slot4 m.pml4 virt)) flags)
      × (m'.memory (slot3 p3 virt) ≡ entry_after (m.memory (slot3 p3 virt)) flags)
      × (m'.memory (slot2 p2 virt) ≡ entry_after (m.memory (slot2 p2 virt)) flags)
  pub entry : m'.memory (slot1 p1 virt) ≡ leaf phys flags
  pub leads : target (m'.memory (slot1 p1 virt)) ≡ phys
  pub no_page_taken : m'.first_free_block ≡ m.first_free_block
  pub same :
      (a : ℕ)
      → a ≢ slot4 m.pml4 virt
      → a ≢ slot3 p3 virt
      → a ≢ slot2 p2 virt
      → a ≢ slot1 p1 virt
      → m'.memory a ≡ m.memory a
  pub flushed : m'.invalidated ≡ virt ∷ m.invalidated

module _ (m : Mapper) (virt phys flags p3 p2 p1 : ℕ) (tables : Tables m.pml4 p3 p2 p1)
    (walk : Walk m.memory virt m.pml4 p3 p2 p1) where
  abbrev pub a4 : ℕ
  a4 = slot4 m.pml4 virt

  abbrev pub a3 : ℕ
  a3 = slot3 p3 virt

  abbrev pub a2 : ℕ
  a2 = slot2 p2 virt

  abbrev pub a1 : ℕ
  a1 = slot1 p1 virt

  Apart : Type 0
  Apart = (a4 ≢ a3) × (a4 ≢ a2) × (a4 ≢ a1) × (a3 ≢ a2) × (a3 ≢ a1) × (a2 ≢ a1)

  slots-Apart : Apart
  unfolding Apart
  slots-Apart =
      let i4 = index-lt virt 39 in
      let i3 = index-lt virt 30 in
      let i2 = index-lt virt 21 in
      let i1 = index-lt virt 12 in
      let (g4, g3, g2, g1) = tables.pages in
      let (d43, d42, d41) = tables.differ4 in
      let (d32, d31) = tables.differ3 in
      (
        slots-differ m.pml4 p3 _ _ g4 g3 d43 i4 i3,
        slots-differ m.pml4 p2 _ _ g4 g2 d42 i4 i2,
        slots-differ m.pml4 p1 _ _ g4 g1 d41 i4 i1,
        slots-differ p3 p2 _ _ g3 g2 d32 i3 i2,
        slots-differ p3 p1 _ _ g3 g1 d31 i3 i1,
        slots-differ p2 p1 _ _ g2 g1 tables.differ2 i2 i1,
      )

  -- The memory after each level.
  abbrev pub memory4 : Memory
  memory4 = store m.memory a4 (entry_after (m.memory a4) flags)

  abbrev pub memory3 : Memory
  memory3 = store memory4 a3 (entry_after (m.memory a3) flags)

  abbrev pub memory2 : Memory
  memory2 = store memory3 a2 (entry_after (m.memory a2) flags)

  abbrev pub mapper4 : Mapper
  mapper4 = record m { memory = memory4; window = m.pml4; phys_window = 0 }

  abbrev pub mapper3 : Mapper
  mapper3 = record m { memory = memory3; window = p3; phys_window = 0 }

  abbrev pub mapper2 : Mapper
  mapper2 = record m { memory = memory2; window = p2; phys_window = 0 }

  abbrev pub mapped : Mapper
  mapped = record m {
    memory = store (store memory2 a1 (bit_and flags pt_flags_mask)) a1 (leaf phys flags);
    window = p1;
    phys_window = 0;
    invalidated = virt ∷ m.invalidated;
  }

  -- What the memories hold at the entries that were not reached yet.
  kept3 : memory4 a3 ≡ m.memory a3
  unfolding Apart
  kept3 = store_ne m.memory a4 _ a3 (λ e. slots-Apart.0 (sym e))

  kept2 : memory3 a2 ≡ m.memory a2
  unfolding Apart
  kept2 =
      store_ne memory4 a3 _ a2 (λ e. slots-Apart.3 (sym e))
      ∙ store_ne m.memory a4 _ a2 (λ e. slots-Apart.1 (sym e))

  kept1 : memory2 a1 ≡ m.memory a1
  unfolding Apart
  kept1 =
      store_ne memory3 a2 _ a1 (λ e. slots-Apart.5 (sym e))
      ∙ store_ne memory4 a3 _ a1 (λ e. slots-Apart.4 (sym e))
      ∙ store_ne m.memory a4 _ a1 (λ e. slots-Apart.2 (sym e))

  module _ (odd : flags % 2 ≡ 1) where
    descend4 : descend m.pml4 (bits virt 39 48) (bit_and flags pml4_flags_mask) m ≡ ok (p3, mapper4)
    descend4 =
        descend_never_allocates m m.pml4 (bits virt 39 48) flags tables.pages.0 odd
        ∙ ap (λ (x : ℕ). ok (x, mapper4)) walk.level4

    descend3 :
        descend p3 (bits virt 30 39) (bit_and flags pml4_flags_mask) mapper4 ≡ ok (p2, mapper3)
    descend3 =
        descend_never_allocates mapper4 p3 (bits virt 30 39) flags tables.pages.1 odd
        ∙ rw (kept3, walk.level3) refl

    descend2 :
        descend p2 (bits virt 21 30) (bit_and flags pml4_flags_mask) mapper3 ≡ ok (p1, mapper2)
    descend2 =
        descend_never_allocates mapper3 p2 (bits virt 21 30) flags tables.pages.2 odd
        ∙ rw (kept2, walk.level2) refl

    pub map_present-eq :
        phys ≢ 0 → has (m.memory a1) page_f_bit ≡ false → map_present virt phys flags m ≡ ok mapped
    unfolding map_present
    map_present-eq ne keep =
        let plain : has (memory2 a1) page_f_bit ≡ false = rw kept1 keep in
        rw (
          descend4,
          descend3,
          descend2,
          map_entry-plain mapper2 p1 virt phys flags tables.pages.3 ne plain,
        )

    -- A write of the leaf does not change the other entries.
    kept_leaf : (a : ℕ) → a ≢ a1 → mapped.memory a ≡ memory2 a
    kept_leaf a ne =
        store_ne (store memory2 a1 (bit_and flags pt_flags_mask)) a1 (leaf phys flags) a ne
        ∙ store_ne memory2 a1 (bit_and flags pt_flags_mask) a ne

    at4 : mapped.memory a4 ≡ entry_after (m.memory a4) flags
    unfolding Apart
    at4 =
        kept_leaf a4 slots-Apart.2
        ∙ store_ne memory3 a2 _ a4 slots-Apart.1
        ∙ store_ne memory4 a3 _ a4 slots-Apart.0
        ∙ store_self m.memory a4 _

    at3 : mapped.memory a3 ≡ entry_after (m.memory a3) flags
    unfolding Apart
    at3 =
        kept_leaf a3 slots-Apart.4
        ∙ store_ne memory3 a2 _ a3 slots-Apart.3
        ∙ store_self memory4 a3 _

    at2 : mapped.memory a2 ≡ entry_after (m.memory a2) flags
    unfolding Apart
    at2 = kept_leaf a2 slots-Apart.5 ∙ store_self memory3 a2 _

    at1 : mapped.memory a1 ≡ leaf phys flags
    at1 = store_self (store memory2 a1 (bit_and flags pt_flags_mask)) a1 (leaf phys flags)

    present_after :
        (a e : ℕ) → mapped.memory a ≡ entry_after e flags → has (mapped.memory a) page_p_bit ≡ true
    present_after a e at = rw at (entry_after-present e flags odd)

    target_after :
        (a e : ℕ) → mapped.memory a ≡ entry_after e flags → target (mapped.memory a) ≡ target e
    target_after a e at = rw at (target-entry_after e flags odd)

    pub mapped-Mapped : IsPage phys → Mapped m virt phys flags p3 p2 p1 mapped
    mapped-Mapped page = record {
      root = refl;
      walk = record {
        level4 = target_after a4 _ at4 ∙ walk.level4;
        level3 = target_after a3 _ at3 ∙ walk.level3;
        level2 = target_after a2 _ at2 ∙ walk.level2;
      };
      present = (
        present_after a4 _ at4,
        present_after a3 _ at3,
        present_after a2 _ at2,
        rw at1 (leaf-present phys flags page odd),
      );
      upper = (at4, at3, at2);
      entry = at1;
      leads = rw at1 (target-leaf phys flags page);
      no_page_taken = refl;
      same = λ a n4 n3 n2 n1.
          kept_leaf a n1
          ∙ store_ne memory3 a2 _ a n2
          ∙ store_ne memory4 a3 _ a n3
          ∙ store_ne m.memory a4 _ a n4;
      flushed = refl;
    }
