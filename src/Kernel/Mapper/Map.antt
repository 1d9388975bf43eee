-- ===== src/Kernel/Mapper/Map.antt =====
-- `map_page` of src/memory/mapper.c on a virtual page whose tables exist.
use beaveros.Base.{ℕ, ◌%◌, ◌^◌, ◌<◌, ◌≡◌, ◌≢◌, false, true, arith}
use beaveros.Base.Run.{ok}
use beaveros.Kernel.Mapper.{Mapper, has, page_p_bit, page_f_bit, arguments_ok, map_page}
use beaveros.Kernel.Mapper.Window.{has_p}
use beaveros.Kernel.Mapper.Walk.{slot1, Tables, Walk}
use beaveros.Kernel.Mapper.Leaf.{arguments_ok-IsPage}
use beaveros.Kernel.Mapper.Mapped.{Mapped, mapped, map_present-eq, mapped-Mapped}

-- `map_page` with the present flag, on a virtual page whose tables are there and whose leaf entry
-- does not ask to free a page: it returns, the walk of the tables leads to the page, the flags are
-- in its entry, nothing else of `memory` changes but the flags of the three entries above, and the page is
-- flushed from the translation cache.
pub map_page_correct :
    (m : Mapper) (virt phys flags p3 p2 p1 : ℕ)
    → Tables m.pml4 p3 p2 p1
    → Walk m.memory virt m.pml4 p3 p2 p1
    → arguments_ok virt phys ≡ true
    → has flags page_p_bit ≡ true
    → phys ≢ 0
    → phys < 2 ^ 64
    → has (m.memory (slot1 p1 virt)) page_f_bit ≡ false
    → (m' : Mapper) × (map_page virt phys flags m ≡ ok m') × Mapped m virt phys flags p3 p2 p1 m'
unfolding map_page
map_page_correct m virt phys flags p3 p2 p1 tables walk fine p ne w keep =
    let odd : flags % 2 ≡ 1 = ground (arith, has_p flags) in
    (
      mapped m virt phys flags p3 p2 p1 tables walk,
      rw (fine, p, map_present-eq m virt phys flags p3 p2 p1 tables walk odd ne keep),
      mapped-Mapped m virt phys flags p3 p2 p1 tables walk odd
          (arguments_ok-IsPage virt phys w fine),
    )
