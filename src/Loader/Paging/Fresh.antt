-- ===== src/Loader/Paging/Fresh.antt =====
-- `map_page` of src/loader/paging.c where the root table has no entry for the address.
use mathlib.Core.Path.{subst}
use beaveros.Base.{
  ℕ, ◌+◌, ◌*◌, ◌%◌, ◌^◌, ◌<◌, ◌≤◌, ◌≡◌, ◌≢◌, ◌⊎◌, ◌∙◌, sym, ap, arith, true, false, inl, if-true,
  u32, bit_and, bit_or,
}
use beaveros.Kernel.Mapper.{bits, has, arguments_ok, page_p_bit, page_addr_bits}
use beaveros.Kernel.Mapper.Window.{IsPage, addr_of_page}
use beaveros.Kernel.Mapper.Tables.{target, entry_after, target-entry_after, bit_or-odd}
use beaveros.Kernel.Mapper.Walk.{index-lt}
use beaveros.Base.Run.{ok, Returns, returns}
use beaveros.Kernel.Mapper.Leaf.{arguments_ok-IsPage, leaf, target-leaf}
use beaveros.Loader.Paging.{Loader, entry_at, fill_entry, table_of, map_checked, map_page}
use beaveros.Loader.Paging.Entries.{HasRoom, Filled, fill_entry-Filled}
use beaveros.Loader.Paging.Levels.{map_checked-finish}
use beaveros.Loader.Paging.Finish.{finish, Finished, finish-Finished}

-- One level down from an entry that lies in a clear page: a new table.
record Level (e : ℕ) (s s' : Loader) : Type 0 where
  pub filled : Filled e s s'
  pub table : table_of s' e ≡ s.used_memory

level :
    (e : ℕ) (s : Loader)
    → HasRoom s 1
    → e + 8 ≤ s.used_memory
    → entry_at s e ≡ 0
    → Level e s (fill_entry e s)
unfolding table_of
level e s room below clear =
    let missing : has (entry_at s e) page_p_bit ≡ false = ap (λ (w : ℕ). has w page_p_bit) clear in
    let f = fill_entry-Filled e s room below missing in
    record {
      filled = f;
      table =
          ap (λ (w : ℕ). u32 (bit_and w page_addr_bits)) f.entry
          ∙ ap u32 (addr_of_page s.used_memory (omega (arith, room.page, room.room)))
          ∙ omega (arith, room.room);
    }

-- The end of the walk and the tables of it, when the root had no entry for the address.
pub record NewWalk (virt phys flags : ℕ) (s s' : Loader) : Type 0 where
  pub used : s'.used_memory ≡ s.used_memory + 3 * 4096
  pub root : s'.pml4 ≡ s.pml4
  pub level4 : target (entry_at s' (s.pml4 + 8 * bits virt 39 48)) ≡ s.used_memory
  pub level3 : target (entry_at s' (s.used_memory + 8 * bits virt 30 39)) ≡ s.used_memory + 4096
  pub level2 :
      target (entry_at s' (s.used_memory + 4096 + 8 * bits virt 21 30)) ≡ s.used_memory + 2 * 4096
  pub entry :
      entry_at s' (s.used_memory + 2 * 4096 + 8 * bits virt 12 21)
      ≡ leaf phys (bit_or flags page_p_bit)
  pub leads : target (entry_at s' (s.used_memory + 2 * 4096 + 8 * bits virt 12 21)) ≡ phys
  pub same :
      (a : ℕ)
      → a + 8 ≤ s.used_memory
      → (a + 8 ≤ s.pml4 + 8 * bits virt 39 48) ⊎ (s.pml4 + 8 * bits virt 39 48 + 8 ≤ a)
      → entry_at s' a ≡ entry_at s a

-- The three new tables, and the addresses of the entries that are filled.
record ThreeLevels (e4 : ℕ) (virt : ℕ) (s s3 : Loader) : Type 0 where
  pub used : s3.used_memory ≡ s.used_memory + 3 * 4096
  pub root : s3.pml4 ≡ s.pml4
  pub at4 : entry_at s3 e4 ≡ s.used_memory
  pub at3 : entry_at s3 (s.used_memory + 8 * bits virt 30 39) ≡ s.used_memory + 4096
  pub at2 : entry_at s3 (s.used_memory + 4096 + 8 * bits virt 21 30) ≡ s.used_memory + 2 * 4096
  pub same :
      (a : ℕ) → a + 8 ≤ s.used_memory → (a + 8 ≤ e4) ⊎ (e4 + 8 ≤ a) → entry_at s3 a ≡ entry_at s a

module _ (virt phys flags : ℕ) (s : Loader) (room : HasRoom s 3) (page : s.pml4 % 4096 ≡ 0)
    (here : s.pml4 + 4096 ≤ s.used_memory)
    (missing : entry_at s (s.pml4 + 8 * bits virt 39 48) ≡ 0) where
  abbrev u : ℕ
  u = s.used_memory

  abbrev a4 : ℕ
  a4 = s.pml4 + 8 * bits virt 39 48

  abbrev a3 : ℕ
  a3 = u + 8 * bits virt 30 39

  abbrev a2 : ℕ
  a2 = u + 4096 + 8 * bits virt 21 30

  abbrev a1 : ℕ
  a1 = u + 2 * 4096 + 8 * bits virt 12 21

  abbrev t1 : Loader
  t1 = fill_entry a4 s

  abbrev t2 : Loader
  t2 = fill_entry a3 t1

  abbrev t3 : Loader
  t3 = fill_entry a2 t2

  first : Level a4 s t1
  first =
      level a4 s (record { page = room.page; room = omega (arith, room.room) })
        (omega (arith, index-lt virt 39)) missing

  second : Level a3 t1 t2
  second =
      let used = first.filled.used in
      level a3 t1 (record { page = omega (arith, room.page); room = omega (arith, room.room) })
        (omega (arith, index-lt virt 30))
        (first.filled.clear a3 (omega arith) (omega (arith, index-lt virt 30)))

  third : Level a2 t2 t3
  third =
      let used = first.filled.used in
      let used' = second.filled.used in
      level a2 t2 (record { page = omega (arith, room.page); room = omega (arith, room.room) })
        (omega (arith, index-lt virt 21))
        (second.filled.clear a2 (omega arith) (omega (arith, index-lt virt 21)))

  tables : ThreeLevels a4 virt s t3
  tables =
      let used = first.filled.used in
      let used' = second.filled.used in
      let i4 = index-lt virt 39 in
      let i3 = index-lt virt 30 in
      record {
        used = omega (arith, third.filled.used);
        root = third.filled.root ∙ second.filled.root ∙ first.filled.root;
        at4 =
            third.filled.same a4 (omega arith) (inl (omega arith))
            ∙ second.filled.same a4 (omega arith) (inl (omega arith))
            ∙ first.filled.entry;
        at3 = third.filled.same a3 (omega arith) (inl (omega arith)) ∙ second.filled.entry ∙ used;
        at2 = third.filled.entry ∙ omega arith;
        same = λ a under out.
            third.filled.same a (omega arith) (inl (omega arith))
            ∙ second.filled.same a (omega arith) (inl (omega arith))
            ∙ first.filled.same a under out;
      }

  abbrev flags' : ℕ
  flags' = bit_or flags page_p_bit

  whole : s.pml4 ≢ 0 → map_checked virt phys flags s ≡ finish a4 a3 a2 a1 phys flags' t3
  whole ne =
      let used = first.filled.used in
      let used' = second.filled.used in
      let top = room.room in
      let i4 = index-lt virt 39 in
      let i3 = index-lt virt 30 in
      let i2 = index-lt virt 21 in
      let i1 = index-lt virt 12 in
      map_checked-finish virt phys flags s a4 a3 a2 a1 ne (omega arith) (omega (arith, first.table))
        (omega (arith, second.table)) (omega (arith, third.table))

  flags-odd : flags' % 2 ≡ 1
  flags-odd = bit_or-odd flags page_p_bit (omega arith)

  finished : phys < 2 ^ 64 → Finished a4 a3 a2 a1 phys flags' t3 (finish a4 a3 a2 a1 phys flags' t3)
  finished w =
      let top = room.room in
      let i4 = index-lt virt 39 in
      let i3 = index-lt virt 30 in
      let i2 = index-lt virt 21 in
      finish-Finished a4 a3 a2 a1 phys flags' t3 (inl (omega arith)) (inl (omega arith))
        (inl (omega arith)) (inl (omega arith)) (inl (omega arith)) (inl (omega arith))
        (omega (arith, tables.at4)) (omega (arith, tables.at3)) (omega (arith, tables.at2)) w

  -- An entry with the flags leads where it led.
  leads_to : (w p : ℕ) → w ≡ p → IsPage p → target (entry_after w flags') ≡ p
  leads_to w p at is_page =
      target-entry_after w flags' flags-odd ∙ ap target at ∙ addr_of_page p is_page

  new_walk :
      phys < 2 ^ 64 → IsPage phys → NewWalk virt phys flags s (finish a4 a3 a2 a1 phys flags' t3)
  new_walk w is_page =
      let f = finished w in
      let top = room.room in
      let aligned = room.page in
      let i4 = index-lt virt 39 in
      record {
        used = tables.used;
        root = tables.root;
        level4 = ap target f.at4 ∙ leads_to _ u tables.at4 (omega arith);
        level3 = ap target f.at3 ∙ leads_to _ (u + 4096) tables.at3 (omega arith);
        level2 = ap target f.at2 ∙ leads_to _ (u + 2 * 4096) tables.at2 (omega arith);
        entry = f.at1;
        leads = ap target f.at1 ∙ target-leaf phys flags' is_page;
        same = λ a under out.
            f.same a out (inl (omega arith)) (inl (omega arith)) (inl (omega arith))
            ∙ tables.same a under out;
      }

-- `map_page` of the loader on an address for which the root table has no entry, with room for
-- three pages behind the memory in use: it takes these three pages for the tables, the walk of the
-- tables leads through them to the page, whose entry has the flags and the present flag, and no
-- other entry in the memory that was in use changes. The last of the three is the lowest table.
pub map_page_new :
    (virt phys flags : ℕ) (s : Loader)
    → HasRoom s 3
    → s.pml4 ≢ 0
    → s.pml4 % 4096 ≡ 0
    → s.pml4 + 4096 ≤ s.used_memory
    → entry_at s (s.pml4 + 8 * bits virt 39 48) ≡ 0
    → phys < 2 ^ 64
    → arguments_ok virt phys ≡ true
    → Returns (NewWalk virt phys flags s) (map_page virt phys flags s)
unfolding map_page
map_page_new virt phys flags s room ne page here missing w fine =
    let is_page = arguments_ok-IsPage virt phys w fine in
    let result = whole virt phys flags s room page here missing ne in
    subst (λ r. Returns (NewWalk virt phys flags s) r)
      (sym (if-true _ _ (arguments_ok virt phys) fine ∙ ap (λ (t : Loader). ok t) result))
      (returns (new_walk virt phys flags s room page here missing w is_page))
