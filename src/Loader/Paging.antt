-- ===== src/Loader/Paging.antt =====
-- src/loader/paging.c: the loader's page tables. The loader runs in 32-bit mode without paging, so
-- an address is physical; its memory is a memory of bytes, and an entry is a word of eight bytes.
-- The bits of an entry are those of src/include/memory/mapper.h, which both programs include.
pub mod Entries
pub mod Finish
pub mod Levels
pub mod Fresh
pub mod Open
pub mod Chain
pub mod Quiet
pub mod Space
pub mod Outside
pub mod First
pub mod Identity
mod Tests
use beaveros.Base.{
  ℕ, zero, suc, ◌+◌, ◌-◌, ◌*◌, ◌^◌, ◌==◌, if◌then◌else◌, ltb, bit_and, bit_or, u32, u64,
}
use beaveros.Base.Memory.{Memory}
use beaveros.Base.Bytes.{load, store_word}
use beaveros.Base.Run.{Run, ok, panic, out_of_fuel, ◌>>=◌}
use beaveros.Strings.{memset}
use beaveros.Kernel.Mapper.{
  bits, has, page_p_bit, page_addr_bits, pml4_flags_mask, pdp_flags_mask, pd_flags_mask,
  pt_flags_mask, page_size, arguments_ok,
}

-- `PAGE_RW_BIT | PAGE_G_BIT`
abbrev pub rw_global : ℕ
rw_global = 2 ^ 1 + 2 ^ 8

-- The statics of the loader, and the entry point that `load_kernel` stores for its caller. A
-- `pml4` of 0 is NULL.
pub record Loader : Type 0 where
  pub memory : Memory
  pub used_memory : ℕ
  pub pml4 : ℕ
  pub kernel_entry : ℕ

-- `ALIGN_TO_NEXT_PAGE`, on 32-bit words.
unfoldable pub align_to_next_page : ℕ → ℕ
align_to_next_page x = u32 (bit_and (u32 (x + (2 ^ 32 - 1))) (2 ^ 32 - page_size) + page_size)

unfoldable pub extend_used_memory : (new_addr : ℕ) → Loader → Loader
unfolding align_to_next_page
extend_used_memory new_addr s =
    let aligned = align_to_next_page new_addr in
    if ltb s.used_memory aligned then record s { used_memory = aligned } else s

unfoldable pub new_phys_page : Loader → ℕ × Loader
new_phys_page s = (s.used_memory, record s { used_memory = u32 (s.used_memory + page_size) })

unfoldable pub new_phys_zero_page : Loader → ℕ × Loader
unfolding new_phys_page
new_phys_zero_page s =
    let (ret, s') = new_phys_page s in
    (ret, record s' { memory = memset s'.memory ret 0 page_size })

-- An entry of a table.
abbrev pub entry_at : Loader → ℕ → ℕ
entry_at s a = load 8 s.memory a

abbrev pub set_entry : ℕ → ℕ → Loader → Loader
set_entry a v s = record s { memory = store_word 8 s.memory a v }

-- `if (!(*e & PAGE_P_BIT)) { *e = (uint32_t) new_phys_zero_page(); }`
unfoldable pub fill_entry : (e : ℕ) → Loader → Loader
unfolding new_phys_zero_page store_word load
fill_entry e s =
    let (page, s') = new_phys_zero_page s in
    if has (entry_at s e) page_p_bit then s else set_entry e page s'

-- The table that an entry leads to, as a 32-bit pointer.
unfoldable pub table_of : Loader → (e : ℕ) → ℕ
unfolding load
table_of s e = u32 (bit_and (entry_at s e) page_addr_bits)

-- `*e |= flags`
unfoldable pub add_flags : (e flags : ℕ) → Loader → Loader
unfolding load store_word
add_flags e flags s = set_entry e (bit_or (entry_at s e) flags) s

-- `if (!pml4) { pml4 = new_phys_zero_page(); }`
unfoldable pub ensure_pml4 : Loader → Loader
unfolding new_phys_zero_page
ensure_pml4 s =
    let (page, s') = new_phys_zero_page s in if s.pml4 == 0 then record s' { pml4 = page } else s

-- The part of `map_page` where the root table is there.
unfoldable pub map_rooted : (virt phys flags : ℕ) → Loader → Loader
unfolding fill_entry table_of add_flags store_word load
map_rooted virt phys flags s =
    let pml4e = u32 (s.pml4 + 8 * bits virt 39 48) in
    let s1 = fill_entry pml4e s in
    let pdpe = u32 (table_of s1 pml4e + 8 * bits virt 30 39) in
    let s2 = fill_entry pdpe s1 in
    let pde = u32 (table_of s2 pdpe + 8 * bits virt 21 30) in
    let s3 = fill_entry pde s2 in
    let pte = u32 (table_of s3 pde + 8 * bits virt 12 21) in
    let flags' = bit_or flags page_p_bit in
    let s4 = add_flags pml4e (bit_and flags' pml4_flags_mask) s3 in
    let s5 = add_flags pdpe (bit_and flags' pdp_flags_mask) s4 in
    let s6 = add_flags pde (bit_and flags' pd_flags_mask) s5 in
    let s7 = set_entry pte (bit_and flags' pt_flags_mask) s6 in
    set_entry pte (bit_or (entry_at s7 pte) phys) s7

-- The part of `map_page` that follows its assertions.
unfoldable pub map_checked : (virt phys flags : ℕ) → Loader → Loader
unfolding ensure_pml4 map_rooted
map_checked virt phys flags s = map_rooted virt phys flags (ensure_pml4 s)

unfoldable pub map_page : (virt phys flags : ℕ) → Loader → Run Loader
unfolding map_checked
map_page virt phys flags s =
    if arguments_ok virt phys then ok (map_checked virt phys flags s) else panic

-- The loop of `setup_identity_paging` from `i` on; its bound is read again in each round, since
-- `map_page` takes new pages.
unfoldable pub identity_loop : (fuel i : ℕ) → Loader → Run Loader
unfolding map_page
identity_loop zero i s = out_of_fuel
identity_loop (suc k) i s =
    if ltb i s.used_memory
    then (do s' ← map_page i i rw_global s; identity_loop k (u64 (i + page_size)) s')
    else ok s

unfoldable pub setup_identity_paging : (fuel : ℕ) → Loader → Run Loader
unfolding identity_loop
setup_identity_paging k s = identity_loop k 0 s
