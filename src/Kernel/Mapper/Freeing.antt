-- ===== src/Kernel/Mapper/Freeing.antt =====
-- `free_page` and `add_phys_mem` of src/memory/mapper.c against the stack of free pages, in the
-- `memory` of the state: without the entries of the window, which Kernel/Mapper/Physical adds.
use native.Mathlib.Nat.{add-zero}
use beaveros.Base.{ℕ, ◌+◌, ◌*◌, ◌/◌, ◌<◌, ◌≤◌, ◌≡◌, ◌⊎◌, refl, ap, arith, ◌∷◌}
use beaveros.Base.Memory.{store}
use beaveros.Kernel.Mapper.{Mapper, phys_look, set_header, add_phys_mem, free_page}
use beaveros.Kernel.Mapper.Window.{IsPage, look_page}
use beaveros.Kernel.Mapper.FreeList.{Blocks, Apart, IsBlock, FreeList, free_pages, AreFree-frame}

-- The memory of `m'` differs from that of `m` at most in the block.
abbrev pub SameOutside : ℕ → ℕ → Mapper → Mapper → Type 0
SameOutside s n m m' = (a : ℕ) → (a < s) ⊎ (s + 4096 * n ≤ a) → m'.memory a ≡ m.memory a

add_block-FreeList :
    (m : Mapper) (s n : ℕ) (bs : Blocks)
    → IsBlock s n
    → Apart s n bs
    → FreeList m bs
    → FreeList
        (record m {
          memory = store (store m.memory s n) (s + 8) m.first_free_block;
          first_free_block = s;
        })
        ((s, n) ∷ bs)
add_block-FreeList m s n bs block apart free = record {
  starts = refl;
  linked = (
    block,
    ground arith,
    ground (arith, free.starts),
    apart,
    AreFree-frame m.memory (store (store m.memory s n) (s + 8) m.first_free_block) s n bs apart
        (λ a out. ground arith) free.linked,
  );
}

-- The state after a header was written at an aligned page through the window.
abbrev pub with_header : Mapper → (p size next : ℕ) → Mapper
with_header m p size next = record m {
  memory = store (store m.memory p size) (p + 8) next;
  window = p;
  phys_window = 0;
}

set_header-look :
    (m : Mapper) (p size next : ℕ)
    → IsPage p
    → set_header (phys_look p m) size next ≡ with_header m p size next
set_header-look m p size next h = rw (look_page p m h, add-zero p)

pub free_page-eq :
    (p : ℕ) (m : Mapper)
    → IsPage p
    → free_page p m ≡ record (with_header m p 1 m.first_free_block) { first_free_block = p }
unfolding free_page
free_page-eq p m h =
    ap (λ (t : Mapper). record t { first_free_block = p })
      (set_header-look m p 1 m.first_free_block h)

pub add_phys_mem-eq :
    (p length : ℕ) (m : Mapper)
    → IsPage p
    → add_phys_mem p length m
      ≡ record (with_header m p (length / 4096) m.first_free_block) { first_free_block = p }
unfolding add_phys_mem
add_phys_mem-eq p length m h =
    ap (λ (t : Mapper). record t { first_free_block = p })
      (set_header-look m p (length / 4096) m.first_free_block h)

-- What an operation that makes a block free leaves.
record Freed (m : Mapper) (s n : ℕ) (bs : Blocks) (m' : Mapper) : Type 0 where
  pub free : FreeList m' ((s, n) ∷ bs)
  pub same : SameOutside s n m m'

add_block-Freed :
    (m : Mapper) (s n : ℕ) (bs : Blocks)
    → IsBlock s n
    → Apart s n bs
    → FreeList m bs
    → Freed m s n bs (record (with_header m s n m.first_free_block) { first_free_block = s })
add_block-Freed m s n bs block apart free =
    let added = add_block-FreeList m s n bs block apart free in
    record { free = record { starts = refl; linked = added.linked }; same = λ a out. ground arith }

-- `free_page` puts a page on top of the free pages, and writes nothing else of `memory`.
pub free_page_correct :
    (m : Mapper) (p : ℕ) (bs : Blocks)
    → IsBlock p 1
    → Apart p 1 bs
    → FreeList m bs
    → FreeList (free_page p m) ((p, 1) ∷ bs)
      × (free_pages ((p, 1) ∷ bs) ≡ p ∷ free_pages bs)
      × SameOutside p 1 m (free_page p m)
free_page_correct m p bs block apart free =
    let r : Freed m p 1 bs (free_page p m) =
      rw (free_page-eq p m (omega arith)) (add_block-Freed m p 1 bs block apart free) in
    (r.free, refl, r.same)

-- `add_phys_mem` puts the whole pages of an aligned range, if it has one, on top of the free
-- pages, in ascending order, and writes nothing else of `memory`.
pub add_phys_mem_correct :
    (m : Mapper) (start length : ℕ) (bs : Blocks)
    → IsBlock start (length / 4096)
    → Apart start (length / 4096) bs
    → FreeList m bs
    → FreeList (add_phys_mem start length m) ((start, length / 4096) ∷ bs)
      × SameOutside start (length / 4096) m (add_phys_mem start length m)
add_phys_mem_correct m start length bs block apart free =
    let r : Freed m start (length / 4096) bs (add_phys_mem start length m) =
      rw (add_phys_mem-eq start length m (omega arith))
        (add_block-Freed m start (length / 4096) bs block apart free) in
    (r.free, r.same)
