-- ===== src/Kernel/Acpi/Mcfg.antt =====
-- `find_mcfg` of src/acpi/mcfg.c.
use mathlib.Core.Path.{subst}
use native.Mathlib.Decide.{dec_lt}
use beaveros.Base.{
  ℕ, zero, suc, ◌+◌, ◌-◌, ◌*◌, ◌/◌, ◌^◌, ◌<◌, ◌≤◌, ◌≡◌, ◌∙◌, refl, sym, ap, arith, false, not, ◌==◌,
  if◌then◌else◌, leb, [], ◌∷◌, u64, if-true, if-false,
}
use beaveros.Base.Memory.{Memory}
use beaveros.Base.Run.{Run, fault, ok, panic, ◌>>=◌, Returns, returns}
use beaveros.Kernel.Acpi.{
  Acpi, Pointers, no_pointers, Bases, conf_base_addr_at, table_length, mcfg_size, set_base,
  mcfg_loop, make_bases, table_entries, find_acpi_table, find_mcfg,
}
use beaveros.Kernel.Acpi.Table.{signed_tables, AreFound, find_acpi_table_correct}

set_base-over :
    (i : ℕ) (m : Memory) (addr : ℕ) (b : Bases)
    → b.bytes < 16 * (i + 1)
    → set_base i (conf_base_addr_at m addr) b ≡ fault
unfolding set_base
set_base-over i m addr b h = if-false _ _ (leb (16 * (i + 1)) b.bytes) (ground arith)

set_base-in :
    (i : ℕ) (m : Memory) (addr : ℕ) (b : Bases)
    → 16 * (i + 1) ≤ b.bytes
    → (b' : Bases) × (b'.bytes ≡ b.bytes) × (set_base i (conf_base_addr_at m addr) b ≡ ok b')
unfolding set_base
set_base-in i m addr b h = (_, refl, if-true _ _ (leb (16 * (i + 1)) b.bytes) (ground arith))

-- A loop whose last structure does not fit stores behind the block.
mcfg_loop-overruns :
    (k : ℕ) (m : Memory) (i addr : ℕ) (b : Bases)
    → b.bytes < 16 * (i + suc k)
    → mcfg_loop (suc k) m i addr b ≡ fault
unfolding mcfg_loop
mcfg_loop-overruns zero m i addr b h =
    ap (λ (r : Run Bases). r >>= mcfg_loop 0 m (i + 1) (addr + 16 + 16))
      (set_base-over i m addr b h)
mcfg_loop-overruns (suc k) m i addr b h = elim (dec_lt b.bytes (16 * (i + 1))) [
  | yes over ↦
      ap (λ (r : Run Bases). r >>= mcfg_loop (suc k) m (i + 1) (addr + 16 + 16))
        (set_base-over i m addr b over)
  | no fits ↦
      let (b', room, stored) = set_base-in i m addr b (omega arith) in
      ap (λ (r : Run Bases). r >>= mcfg_loop (suc k) m (i + 1) (addr + 16 + 16)) stored
      ∙ mcfg_loop-overruns k m (i + 1) (addr + 16 + 16) b' (omega arith)
]

-- A loop over `cnt` structures in a block of `cnt` bytes.
small_block :
    (cnt : ℕ) (m : Memory) (addr : ℕ) (b : Bases)
    → 0 < cnt
    → mcfg_loop cnt m 0 addr (record b { bytes = cnt }) ≡ fault
small_block zero m addr b h = absurd (omega arith)
small_block (suc k) m addr b h =
    mcfg_loop-overruns k m 0 addr (record b { bytes = suc k }) (omega arith)

-- The structures in the table, as `find_mcfg` counts them.
abbrev pub mcfg_count : Memory → (table : ℕ) → ℕ
mcfg_count m table = u64 (table_length m table + (2 ^ 64 - mcfg_size)) / 16

-- `find_mcfg` after the search.
abbrev after_search : Memory → Bases → ℕ × Pointers → Run (ℕ × Bases × ℕ)
after_search m b (_, p) =
    let table = p.ptrs 0 in
    let cnt = mcfg_count m table in
    if not (p.size == 1) then panic else (do
      (b', size') ← make_bases cnt 0 b
      b'' ← mcfg_loop cnt m 0 (table + mcfg_size) b'
      ok (cnt, b'', size'))

after_search-fault :
    (m : Memory) (table : ℕ) (b : Bases) (call : Run (ℕ × Pointers))
    → Returns (AreFound (table ∷ [])) call
    → 0 < mcfg_count m table
    → (call >>= after_search m b) ≡ fault
unfolding make_bases
after_search-fault m table b _ (returns {v = (count, p)} (number, room, (at, _))) some_cells =
    let cnt = mcfg_count m (p.ptrs 0) in
    let one : not (p.size == 1) ≡ false = ground arith in
    let here : 0 < cnt = subst (λ t. 0 < mcfg_count m t) (sym at) some_cells in
    if-false _ _ (not (p.size == 1)) one
    ∙ ap (λ (r : Run Bases). r >>= (λ b''. ok (cnt, b'', cnt)))
        (small_block cnt m (p.ptrs 0 + mcfg_size) b here)

-- With no block for the structures, which is how `main` calls it, and one MCFG that holds any,
-- `find_mcfg` stores behind the block that it allocates.
pub find_mcfg_overruns :
    (s : Acpi) (m : Memory) (sign table : ℕ) (b : Bases)
    → signed_tables (table_entries s m) s m sign 0 ≡ table ∷ []
    → 0 < mcfg_count m table
    → find_mcfg s m sign b 0 ≡ fault
unfolding find_mcfg
find_mcfg_overruns s m sign table b only some_cells =
    after_search-fault m table b (find_acpi_table s m sign no_pointers)
      (subst (λ xs. Returns (AreFound xs) (find_acpi_table s m sign no_pointers)) only
        (find_acpi_table_correct s m sign))
      some_cells
