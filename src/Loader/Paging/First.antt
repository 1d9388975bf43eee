-- ===== src/Loader/Paging/First.antt =====
-- src/loader/paging.c where the root table is new: the first call of `map_page`.
use mathlib.Core.Path.{subst}
use native.Mathlib.Decide.{ℕ_discrete}
use beaveros.Base.{
  ℕ, ◌+◌, ◌*◌, ◌%◌, ◌^◌, ◌<◌, ◌≤◌, ◌≡◌, ◌≢◌, ◌∙◌, sym, ap, refl, arith, true, false, some, none,
  inl, u32, ◌==◌, bit_or, if◌then◌else◌, if-true, if-false,
}
use beaveros.Base.Memory.{store, store_ne, store_self}
use beaveros.Base.Bytes.{IsBytes, load-zeros}
use beaveros.Base.Run.{ok, panic, Returns, Returns-map}
use beaveros.Strings.{memset}
use beaveros.Kernel.Mapper.{has, page_p_bit, arguments_ok}
use beaveros.Kernel.Mapper.Leaf.{leaf}
use beaveros.Paging.{page_number, walk}
use beaveros.Paging.Layout.{Layout, IsBlank, page_of}
use beaveros.Paging.Kept.{walk-IsBlank}
use beaveros.Loader.Paging.{
  Loader, entry_at, new_phys_zero_page, new_phys_page, ensure_pml4, map_rooted, map_checked,
  map_page,
}
use beaveros.Strings.Blocks.{memset-zero, memset-kept, memset-IsBytes}
use beaveros.Loader.Paging.Entries.{HasRoom}
use beaveros.Loader.Paging.Open.{IsSpace}
use beaveros.Loader.Paging.Space.{Mapped, map_page_refines}

-- The root table alone.
abbrev pub one_table : ℕ → Layout
one_table root = record { level = store (λ _. 4) root 3; prefix = λ _. 0 }

module _ (s : Loader) (bytes : IsBytes s.memory) (aligned : s.pml4 % 4096 ≡ 0)
    (used : s.pml4 + 4096 ≤ s.used_memory)
    (clear : (a : ℕ) → s.pml4 ≤ a → a < s.pml4 + 4096 → s.memory a ≡ 0) where
  one-IsBlank : IsBlank (entry_at s) s.pml4
  one-IsBlank i h =
      ap (λ (w : ℕ). has w page_p_bit)
        (load-zeros 8 s.memory (s.pml4 + 8 * i) (λ b lo hi. clear b (omega arith) (omega arith)))

  at_root : (t : ℕ) → (one_table s.pml4).level t < 4 → t ≡ s.pml4
  at_root t h = elim (ℕ_discrete t s.pml4) [
    | yes here ↦ here
    | no other ↦ let free = store_ne (λ _. 4) s.pml4 3 t other in absurd (omega arith)
  ]

  -- A clear root table is a tree.
  pub IsSpace-one : IsSpace (one_table s.pml4) s
  IsSpace-one = record {
    tree = record {
      top = (store_self (λ _. 4) s.pml4 3, refl);
      inside = λ t h. let here = at_root t h in (omega arith, omega arith);
      child = λ t i k at small hi on.
          let here = at_root t (omega arith) in
          let off : has (entry_at s (t + 8 * i)) page_p_bit ≡ false =
            ap (λ (x : ℕ). has (entry_at s (x + 8 * i)) page_p_bit) here ∙ one-IsBlank i hi in
          absurd (ground arith);
    };
    bytes = bytes;
  }

  -- It maps nothing.
  pub walk-one : (v : ℕ) → walk 3 (entry_at s) s.pml4 v ≡ none
  walk-one v = walk-IsBlank 3 (entry_at s) s.pml4 v one-IsBlank

-- The state after the first page was mapped: the page tables are a tree, at most four pages were
-- taken for them, none of the pages in use before is a table, no byte in use before changes, and the
-- page is the only one that is mapped.
pub record FirstMapped (virt w : ℕ) (s s' : Loader) : Type 0 where
  pub layout : Layout
  pub space : IsSpace layout s'
  pub root : s'.pml4 ≡ s.used_memory
  pub used :
      (s.used_memory + 4096 ≤ s'.used_memory)
      × (s'.used_memory ≤ s.used_memory + 4 * 4096)
      × (s'.used_memory % 4096 ≡ 0)
  pub free : (q : ℕ) → q < s.used_memory → 4 ≤ layout.level q
  pub byte : (a : ℕ) → a < s.used_memory → s'.memory a ≡ s.memory a
  pub here : walk 3 (entry_at s') s'.pml4 virt ≡ some w
  pub elsewhere : (v : ℕ) → page_number v ≢ page_number virt → walk 3 (entry_at s') s'.pml4 v ≡ none

module _ (s : Loader) (missing : s.pml4 ≡ 0) (room : HasRoom s 4) (some_used : s.used_memory ≢ 0)
    (bytes : IsBytes s.memory) where
  abbrev u : ℕ
  u = s.used_memory

  abbrev rooted : Loader
  rooted = record s { memory = memset s.memory u 0 4096; used_memory = u + 4096; pml4 = u }

  ensure_pml4-new : ensure_pml4 s ≡ rooted
  unfolding ensure_pml4 new_phys_zero_page new_phys_page
  ensure_pml4-new =
      let none_yet : (s.pml4 == 0) ≡ true = ground arith in
      let more : u32 (u + 4096) ≡ u + 4096 = omega (arith, room.room) in
      if-true _ _ (s.pml4 == 0) none_yet ∙ ap (λ (x : ℕ). record rooted { used_memory = x }) more

  ensure_pml4-there : ensure_pml4 rooted ≡ rooted
  unfolding ensure_pml4
  ensure_pml4-there = let there : (u == 0) ≡ false = ground arith in if-false _ _ (u == 0) there

  -- The first call is a call with the new root table.
  map_checked-rooted :
      (virt phys flags : ℕ) → map_checked virt phys flags s ≡ map_checked virt phys flags rooted
  unfolding map_checked
  map_checked-rooted virt phys flags =
      ap (map_rooted virt phys flags) (ensure_pml4-new ∙ sym ensure_pml4-there)

  map_page-rooted :
      (virt phys flags : ℕ) → map_page virt phys flags s ≡ map_page virt phys flags rooted
  unfolding map_page
  map_page-rooted virt phys flags =
      ap (λ (t : Loader). if arguments_ok virt phys then ok t else panic)
        (map_checked-rooted virt phys flags)

  rooted-IsSpace : IsSpace (one_table u) rooted
  rooted-IsSpace =
      IsSpace-one rooted (memset-IsBytes s.memory u 4096 bytes) room.page (omega arith)
        (memset-zero s.memory u 4096)

  rooted-Mapped :
      (virt w : ℕ) (s' : Loader) → Mapped (one_table u) virt w rooted s' → FirstMapped virt w s s'
  rooted-Mapped virt w s' mapped =
      let used = mapped.used in
      let free : (q : ℕ) → q < u → 4 ≤ (one_table u).level q =
        λ q h. rw (store_ne (λ _. 4) u 3 q (λ e. absurd (omega arith))) (omega arith) in
      record {
        layout = mapped.layout;
        space = mapped.space;
        root = mapped.root;
        used = (omega arith, omega arith, omega arith);
        free = λ q h. mapped.keeps.free q (omega arith) (free q h);
        byte = λ a h.
            mapped.keeps.byte a (omega arith) (free (page_of a) (omega arith))
            ∙ memset-kept s.memory u 0 4096 a (inl h);
        here = mapped.here;
        elsewhere = λ v ne.
            mapped.elsewhere v ne
            ∙ walk-one rooted (memset-IsBytes s.memory u 4096 bytes) room.page (omega arith)
                (memset-zero s.memory u 4096) v;
      }

-- The first call of `map_page`, without a root table: where the arguments, of which the physical
-- address is a 64-bit word, pass the assertions of `map_page`, and with room for four pages behind
-- the memory in use, which is not empty, it returns with page tables that are a tree and that map
-- the page, and no other one; none of the pages in use before is a table, and no byte of them
-- changes.
pub map_page_first :
    (virt phys flags : ℕ) (s : Loader)
    → s.pml4 ≡ 0
    → HasRoom s 4
    → s.used_memory ≢ 0
    → IsBytes s.memory
    → phys < 2 ^ 64
    → arguments_ok virt phys ≡ true
    → Returns
        (FirstMapped virt (leaf phys (bit_or flags page_p_bit)) s)
        (map_page virt phys flags s)
map_page_first virt phys flags s missing room some_used bytes w fine =
    let u = s.used_memory in
    let refined =
      map_page_refines (one_table u) virt phys flags (rooted s missing room some_used bytes)
        (rooted-IsSpace s missing room some_used bytes)
        (record { page = omega (arith, room.page); room = omega (arith, room.room) }) some_used w
        fine in
    subst (λ c. Returns (FirstMapped virt (leaf phys (bit_or flags page_p_bit)) s) c)
      (sym (map_page-rooted s missing room some_used bytes virt phys flags))
      (Returns-map refined
        (λ s' mapped. rooted-Mapped s missing room some_used bytes virt _ s' mapped))
