-- ===== src/Kernel/Mapper/Unmap.antt =====
-- `unmap_page` of src/memory/mapper.c on a virtual page whose tables exist.
use beaveros.Base.{ℕ, ◌+◌, ◌-◌, ◌*◌, ◌^◌, ◌<◌, ◌≡◌, ◌≢◌, ◌∙◌, refl, ap, false, true, arith, bit_and}
use beaveros.Base.Memory.{Memory, store, store_ne, store_self}
use beaveros.Base.Bits.{bit_and-half}
use beaveros.Kernel.Mapper.{Mapper, has, bits, page_p_bit, page_f_bit, unmap_entry, unmap_page}
use beaveros.Kernel.Mapper.Window.{IsPage, addr_field-IsPage, has_p, look_page}
use beaveros.Kernel.Mapper.Freeing.{free_page-eq}
use beaveros.Kernel.Mapper.Tables.{target}
use beaveros.Kernel.Mapper.Walk.{slot4, slot3, slot2, slot1, index-lt, Walk, slots-differ}

-- The three upper entries are present.
abbrev pub UpperPresent : (mem : Memory) (virt p4 p3 p2 : ℕ) → Type 0
UpperPresent mem virt p4 p3 p2 =
    (has (mem (slot4 p4 virt)) page_p_bit ≡ true)
    × (has (mem (slot3 p3 virt)) page_p_bit ≡ true)
    × (has (mem (slot2 p2 virt)) page_p_bit ≡ true)

-- The entry without its present flag.
abbrev pub without_p : ℕ → ℕ
without_p e = bit_and e (2 ^ 64 - 1 - page_p_bit)

unmap_page-Walk :
    (m : Mapper) (virt p3 p2 p1 : ℕ)
    → IsPage m.pml4
    → Walk m.memory virt m.pml4 p3 p2 p1
    → UpperPresent m.memory virt m.pml4 p3 p2
    → unmap_page virt m ≡ unmap_entry p1 virt (record m { window = p2; phys_window = 0 })
unfolding unmap_page
unmap_page-Walk m virt p3 p2 p1 root walk here =
    let page3 : IsPage p3 = rw walk.level4 at (addr_field-IsPage (m.memory (slot4 m.pml4 virt))) in
    let page2 : IsPage p2 = rw walk.level3 at (addr_field-IsPage (m.memory (slot3 p3 virt))) in
    let e4 : m.pml4 + (0 + 8 * bits virt 39 48) ≡ slot4 m.pml4 virt = omega arith in
    let e3 : p3 + (0 + 8 * bits virt 30 39) ≡ slot3 p3 virt = omega arith in
    let e2 : p2 + (0 + 8 * bits virt 21 30) ≡ slot2 p2 virt = omega arith in
    rw
      (
        look_page m.pml4 m root,
        e4,
        walk.level4,
        here.0,
        look_page p3 (record m { window = m.pml4; phys_window = 0 }) page3,
        e3,
        walk.level3,
        here.1,
        look_page p2 (record m { window = p3; phys_window = 0 }) page2,
        e2,
        walk.level2,
        here.2,
      )
      refl

module _ (m : Mapper) (pt virt : ℕ) (page : IsPage pt)
    (there : has (m.memory (slot1 pt virt)) page_p_bit ≡ true) where
  abbrev entry : ℕ
  entry = m.memory (slot1 pt virt)

  unmap_entry-plain :
      has entry page_f_bit ≡ false
      → unmap_entry pt virt m ≡ record m {
        memory = store m.memory (slot1 pt virt) (without_p entry);
        window = pt;
        phys_window = 0;
      }
  unfolding unmap_entry
  unmap_entry-plain keep =
      let at : pt + (0 + 8 * bits virt 12 21) ≡ slot1 pt virt = omega arith in
      rw (look_page pt m page, at, keep, there, at)

  -- The word of the freed page at which the entry's pointer lands.
  abbrev hit : ℕ
  hit = target entry + 8 * bits virt 12 21

  -- The memory in which `free_page` has written the header of the freed page.
  abbrev freed_memory : Memory
  freed_memory = store (store m.memory (target entry) 1) (target entry + 8) m.first_free_block

  unmap_entry-free :
      has entry page_f_bit ≡ true
      → unmap_entry pt virt m ≡ record m {
        memory = store freed_memory hit (without_p (freed_memory hit));
        window = target entry;
        phys_window = 0;
        first_free_block = target entry;
      }
  unfolding unmap_entry
  unmap_entry-free free =
      let at : pt + (0 + 8 * bits virt 12 21) ≡ slot1 pt virt = omega arith in
      let at' : target entry + (0 + 8 * bits virt 12 21) ≡ hit = omega arith in
      let m1 = record m { window = pt; phys_window = 0 } in
      rw
        (
          look_page pt m page,
          at,
          free,
          there,
          free_page-eq (target entry) m1 (addr_field-IsPage entry),
          at',
        )
        refl

without_p-absent : (e : ℕ) → has (without_p e) page_p_bit ≡ false
without_p-absent e = ground (arith, has_p (without_p e), bit_and-half e (2 ^ 64 - 1 - page_p_bit))

cleared-header :
    (mem : Memory) (g next i : ℕ)
    → i ≡ 0
    → let f = store (store mem g 1) (g + 8) next in
      store f (g + 8 * i) (without_p (f (g + 8 * i))) g ≡ 0
cleared-header mem g next i first =
    let f = store (store mem g 1) (g + 8) next in
    let at : g + 8 * i ≡ g = omega arith in
    let apart : g ≢ g + 8 = (λ q. absurd (omega arith)) in
    let size : f g ≡ 1 = store_ne (store mem g 1) (g + 8) next g apart ∙ store_self mem g 1 in
    rw at (store_self f g (without_p (f g)) ∙ ap without_p size)

-- Past the two words of the header, the word keeps its other bits.
written-word :
    (mem : Memory) (g next i : ℕ)
    → 1 < i
    → let f = store (store mem g 1) (g + 8) next in
      store f (g + 8 * i) (without_p (f (g + 8 * i))) (g + 8 * i) ≡ without_p (mem (g + 8 * i))
written-word mem g next i beyond =
    let f = store (store mem g 1) (g + 8) next in
    let n0 : g + 8 * i ≢ g = (λ q. absurd (omega arith)) in
    let n1 : g + 8 * i ≢ g + 8 = (λ q. absurd (omega arith)) in
    store_self f (g + 8 * i) (without_p (f (g + 8 * i)))
    ∙ ap without_p
        (store_ne (store mem g 1) (g + 8) next (g + 8 * i) n1 ∙ store_ne mem g 1 (g + 8 * i) n0)

-- What `unmap_page` leaves of a page that is not to be freed.
pub record Unmapped (m : Mapper) (slot : ℕ) (m' : Mapper) : Type 0 where
  pub absent : has (m'.memory slot) page_p_bit ≡ false
  pub entry : m'.memory slot ≡ without_p (m.memory slot)
  pub same : (a : ℕ) → a ≢ slot → m'.memory a ≡ m.memory a
  pub free : m'.first_free_block ≡ m.first_free_block
  pub root : m'.pml4 ≡ m.pml4

-- What it leaves of a page that is to be freed: the entry is as it was, still present, though the
-- page is the first free block; and the write that was meant for the entry has hit the page.
pub record StillMapped (m : Mapper) (slot index : ℕ) (m' : Mapper) : Type 0 where
  pub entry : m'.memory slot ≡ m.memory slot
  pub freed : m'.first_free_block ≡ target (m.memory slot)
  pub cleared : has (m'.memory (target (m.memory slot) + 8 * index)) page_p_bit ≡ false
  pub written :
      1 < index
      → m'.memory (target (m.memory slot) + 8 * index)
        ≡ without_p (m.memory (target (m.memory slot) + 8 * index))
  pub broken_header : index ≡ 0 → m'.memory (target (m.memory slot)) ≡ 0

module _ (m : Mapper) (virt p3 p2 p1 : ℕ) (root : IsPage m.pml4)
    (walk : Walk m.memory virt m.pml4 p3 p2 p1) (upper : UpperPresent m.memory virt m.pml4 p3 p2)
    (there : has (m.memory (slot1 p1 virt)) page_p_bit ≡ true) where
  last_table : IsPage p1
  last_table = rw walk.level2 at (addr_field-IsPage (m.memory (slot2 p2 virt)))

  abbrev before : Mapper
  before = record m { window = p2; phys_window = 0 }

  -- `unmap_page` clears the present flag of the entry of a mapped page that is not marked to be
  -- freed, and changes nothing else of `memory`.
  pub unmap_page_correct :
      has (m.memory (slot1 p1 virt)) page_f_bit ≡ false
      → Unmapped m (slot1 p1 virt) (unmap_page virt m)
  unmap_page_correct keep =
      let a = slot1 p1 virt in
      let e = m.memory a in
      rw
        (
          unmap_page-Walk m virt p3 p2 p1 root walk upper,
          unmap_entry-plain before p1 virt last_table there keep,
        )
        record {
          absent = rw (store_self m.memory a (without_p e)) (without_p-absent e);
          entry = store_self m.memory a (without_p e);
          same = λ b ne. store_ne m.memory a (without_p e) b ne;
          free = refl;
          root = refl;
        }

  -- A mapped page that is marked to be freed, and that is not itself the table of its entry, is
  -- freed but stays mapped, in `memory`, which leaves out the entries of the window: `unmap_page`
  -- leaves the entry as it is, makes the page the first free block, and clears the present flag in
  -- the word of the freed page at the same place, which otherwise keeps its bits if it is past the
  -- header of the free block. If the entry is the first of its table, that word is the size in the
  -- header, which becomes 0.
  pub unmap_page-freed :
      p1 ≢ target (m.memory (slot1 p1 virt))
      → has (m.memory (slot1 p1 virt)) page_f_bit ≡ true
      → StillMapped m (slot1 p1 virt) (bits virt 12 21) (unmap_page virt m)
  unmap_page-freed ne free =
      let e = m.memory (slot1 p1 virt) in
      let g = target e in
      let apart = (λ (j : ℕ) (lt : j < 512).
        slots-differ p1 g (bits virt 12 21) j last_table (addr_field-IsPage e) ne (index-lt virt 12)
          lt) in
      let n0 : slot1 p1 virt ≢ g = (λ q. apart 0 (omega arith) (omega arith)) in
      let n1 : slot1 p1 virt ≢ g + 8 = (λ q. apart 1 (omega arith) (omega arith)) in
      rw
        (
          unmap_page-Walk m virt p3 p2 p1 root walk upper,
          unmap_entry-free before p1 virt last_table there free,
        )
        record {
          entry =
              store_ne (freed_memory before p1 virt last_table there)
                (hit before p1 virt last_table there) _ (slot1 p1 virt)
                (apart (bits virt 12 21) (index-lt virt 12))
              ∙ store_ne (store m.memory g 1) (g + 8) m.first_free_block (slot1 p1 virt) n1
              ∙ store_ne m.memory g 1 (slot1 p1 virt) n0;
          freed = refl;
          cleared =
              ap (λ (w : ℕ). has w page_p_bit)
                (store_self (freed_memory before p1 virt last_table there)
                  (hit before p1 virt last_table there) _)
              ∙ without_p-absent _;
          written = λ beyond. written-word m.memory g m.first_free_block (bits virt 12 21) beyond;
          broken_header =
              λ first. cleared-header m.memory g m.first_free_block (bits virt 12 21) first;
        }
