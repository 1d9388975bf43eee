-- ===== src/Kernel/Break.antt =====
-- src/memory/memory.c: the break of the kernel's heap. A difference is a 64-bit pattern. The loops
-- call `map_page` for each page; they take fuel.
pub mod Pages
mod Tests
use beaveros.Base.{
  ℕ, zero, suc, ◌+◌, ◌-◌, ◌*◌, ◌/◌, ◌^◌, Bool, not, ◌&&◌, ◌||◌, ◌==◌, if◌then◌else◌, ltb, u64,
}
use beaveros.Base.Int.{signed64, is_neg}
use beaveros.Base.Run.{Run, ok, panic, out_of_fuel, ◌>>=◌}
use beaveros.Kernel.Mapper.{Mapper, map_anon, map_page}
use beaveros.Kernel.Boot.{kernel_page}

-- `prog_break`, and the page tables that go with it.
pub record Break : Type 0 where
  pub prog_break : ℕ
  pub mapper : Mapper

-- `((uint64_t) new_break + 4095) / 4096 * 4096`
unfoldable pub round_up : ℕ → ℕ
round_up a = u64 (u64 (a + 4095) / 4096 * 4096)

unfoldable pub grow_loop : (fuel : ℕ) → (new_break : ℕ) → Break → Run Break
unfolding map_page
grow_loop zero new_break s = out_of_fuel
grow_loop (suc k) new_break s =
    if ltb s.prog_break new_break
    then (do
      m ← map_page s.prog_break map_anon kernel_page s.mapper
      grow_loop k new_break (record { prog_break = u64 (s.prog_break + 4096); mapper = m }))
    else ok s

unfoldable pub shrink_loop : (fuel : ℕ) → (new_break : ℕ) → Break → Run Break
unfolding map_page
shrink_loop zero new_break s = out_of_fuel
shrink_loop (suc k) new_break s =
    let below = u64 (s.prog_break + (2 ^ 64 - 4096)) in
    if ltb new_break s.prog_break
    then (do
      m ← map_page below map_anon 0 s.mapper
      shrink_loop k new_break (record { prog_break = below; mapper = m }))
    else ok s

-- `prog_break_begin` and `prog_break_end` are the first two bounds. The result is the previous
-- break and the state.
unfoldable pub sbrk :
    (fuel : ℕ) → (prog_break_begin prog_break_end difference : ℕ) → Break → Run (ℕ × Break)
unfolding round_up grow_loop shrink_loop
sbrk k prog_break_begin prog_break_end difference s =
    let new_break = round_up (u64 (s.prog_break + difference)) in
    if ltb prog_break_end new_break || ltb new_break prog_break_begin
    then panic
    else if not (is_neg (signed64 difference)) && not (difference == 0)
    then (do s' ← grow_loop k new_break s; ok (s.prog_break, s'))
    else (do s' ← shrink_loop k new_break s; ok (s.prog_break, s'))
