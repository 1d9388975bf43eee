-- ===== src/Kernel/Acpi.antt =====
-- src/acpi: the search for the ACPI tables. The memory is the physical memory by bytes, where the
-- string literals lie too; what the kernel reads through the physical window behind `phys_look(a)`
-- is read at `a`. The allocator is taken to succeed, and `realloc` to keep what was stored.
pub mod Rsdp
pub mod Table
pub mod Mcfg
mod Tests
use beaveros.Base.{
  ℕ, zero, suc, ◌+◌, ◌-◌, ◌*◌, ◌/◌, ◌^◌, Bool, true, false, not, ◌&&◌, ◌==◌, if◌then◌else◌, ltb,
  leb, u8, u64,
}
use beaveros.Base.Int.{pos, eq_ℤ}
use beaveros.Base.Memory.{Memory, store}
use beaveros.Base.Bytes.{load}
use beaveros.Base.Run.{Run, fault, ok, panic, ◌>>=◌}
use beaveros.Strings.{strncmp}

pub record RsdpDescriptor : Type 0 where
  pub signature : ℕ → ℕ
  pub checksum_1 : ℕ
  pub oemid : ℕ → ℕ
  pub version : ℕ
  pub rsdt_address : ℕ
  pub length : ℕ
  pub xsdt_address : ℕ
  pub checksum_2 : ℕ
  pub mbz : ℕ → ℕ

unfoldable pub rsdp_at : Memory → ℕ → RsdpDescriptor
unfolding load
rsdp_at m a = record {
  signature = λ i. m (a + i);
  checksum_1 = m (a + 8);
  oemid = λ i. m (a + 9 + i);
  version = m (a + 15);
  rsdt_address = load 4 m (a + 16);
  length = load 4 m (a + 20);
  xsdt_address = load 8 m (a + 24);
  checksum_2 = m (a + 32);
  mbz = λ i. m (a + 33 + i);
}

-- `length` of `acpi_table_header_t`, and the size of this structure.
abbrev pub table_length : Memory → ℕ → ℕ
table_length m a = load 4 m (a + 4)

abbrev pub header_size : ℕ
header_size = 36

-- `xsdt` and `sdt`
pub record Acpi : Type 0 where
  pub xsdt : Bool
  pub sdt : ℕ

-- A `uint8_t` to which the bytes at `a` are added, `n` of them.
unfoldable pub sum_bytes : (n : ℕ) → Memory → (a sum : ℕ) → ℕ
sum_bytes zero m a sum = sum
sum_bytes (suc n) m a sum = sum_bytes n m (a + 1) (u8 (sum + m a))

-- The loop of `find_sdt`, `left` rounds of it from `i` on; `first_mb` is address 0, and the
-- signature "RSD PTR " lies at `rsd_ptr`.
unfoldable pub find_sdt_loop : (left : ℕ) → Memory → (rsd_ptr i : ℕ) → Acpi → Bool × Acpi
unfolding strncmp sum_bytes rsdp_at
find_sdt_loop zero m rsd_ptr i s = (false, s)
find_sdt_loop (suc k) m rsd_ptr i s =
    let next = find_sdt_loop k m rsd_ptr (i + 16) s in
    let rsdpd = rsdp_at m i in
    let old =
      if rsdpd.version == 0
      then (true, record { xsdt = false; sdt = rsdpd.rsdt_address })
      else next in
    if eq_ℤ (strncmp m i rsd_ptr 8) (pos 0)
    then if sum_bytes 20 m i 0 == 0
      then if rsdpd.version == 2
        then if sum_bytes 33 m i 0 == 0
          then (true, record { xsdt = true; sdt = rsdpd.xsdt_address })
          else old
        else old
      else next
    else next

-- `i` runs over the multiples of 16 below 0x100000 - 16.
unfoldable pub find_sdt : Memory → (rsd_ptr : ℕ) → Acpi → Bool × Acpi
unfolding find_sdt_loop
find_sdt m rsd_ptr s = find_sdt_loop 65535 m rsd_ptr 0 s

-- The array `*ptrs` of `*size` cells.
pub record Pointers : Type 0 where
  pub ptrs : ℕ → ℕ
  pub size : ℕ

-- `(*ptrs)[cur_size++] = addr`, with the room that is made for it.
unfoldable pub add_pointer : (addr cur_size : ℕ) → Pointers → Run Pointers
add_pointer addr cur_size p =
    let size =
      (if p.size == 0 then 1 else if cur_size == p.size then u64 (p.size * 2) else p.size) in
    if ltb cur_size size
    then ok (record { ptrs = store p.ptrs cur_size addr; size = size })
    else fault

abbrev pub entry_size : Acpi → ℕ
entry_size s = if s.xsdt then 8 else 4

-- The address in entry `i` of the table of tables.
unfoldable pub address_in : Acpi → Memory → (i : ℕ) → ℕ
unfolding load
address_in s m i = load (entry_size s) m (s.sdt + header_size + entry_size s * i)

-- The loop over the entries, `left` of them from `i` on.
unfoldable pub find_loop :
    (left : ℕ) → Acpi → Memory → (sign i cur_size : ℕ) → Pointers → Run (ℕ × Pointers)
unfolding address_in strncmp add_pointer
find_loop zero s m sign i cur_size p = ok (cur_size, p)
find_loop (suc k) s m sign i cur_size p =
    let addr = address_in s m i in
    let skip = find_loop k s m sign (i + 1) cur_size p in
    if eq_ℤ (strncmp m sign addr 4) (pos 0)
    then (do p' ← add_pointer addr cur_size p; find_loop k s m sign (i + 1) (cur_size + 1) p')
    else skip

abbrev pub table_entries : Acpi → Memory → ℕ
table_entries s m = u64 (table_length m s.sdt + (2 ^ 64 - header_size)) / entry_size s

unfoldable pub find_acpi_table : Acpi → Memory → (sign : ℕ) → Pointers → Run (ℕ × Pointers)
unfolding load find_loop
find_acpi_table s m sign p = find_loop (table_entries s m) s m sign 0 0 p

abbrev pub no_pointers : Pointers
no_pointers = record { ptrs = λ _. 0; size = 0 }

-- `find_madt`, where "APIC" lies at `sign`.
unfoldable pub find_madt : Acpi → Memory → (sign : ℕ) → Run (ℕ → ℕ)
unfolding find_acpi_table
find_madt s m sign = do
  (_, p) ← find_acpi_table s m sign no_pointers
  if not (p.size == 1) then panic else ok p.ptrs

pub record McfgConfBaseAddr : Type 0 where
  pub base : ℕ
  pub pci_group : ℕ
  pub start : ℕ
  pub end : ℕ
  pub reserved : ℕ

unfoldable pub conf_base_addr_at : Memory → ℕ → McfgConfBaseAddr
unfolding load
conf_base_addr_at m a = record {
  base = load 8 m a;
  pci_group = load 2 m (a + 8);
  start = m (a + 10);
  end = m (a + 11);
  reserved = load 4 m (a + 12);
}

-- The sizes of `mcfg_t` and of `mcfg_conf_base_addr_t`.
abbrev pub mcfg_size : ℕ
mcfg_size = 44

abbrev pub conf_base_addr_size : ℕ
conf_base_addr_size = 16

-- The block `*bases`: its bytes, and the structures that were stored in it, by index.
pub record Bases : Type 0 where
  pub bytes : ℕ
  pub cells : ℕ → McfgConfBaseAddr

-- `(*bases)[i] = base`
unfoldable pub set_base : (i : ℕ) → McfgConfBaseAddr → Bases → Run Bases
set_base i base b =
    if leb (conf_base_addr_size * (i + 1)) b.bytes
    then ok (record b { cells = λ j. if j == i then base else b.cells j })
    else fault

-- The loop of `find_mcfg`, `left` rounds of it from `i` on. Each moves `addr` twice.
unfoldable pub mcfg_loop : (left : ℕ) → Memory → (i addr : ℕ) → Bases → Run Bases
unfolding conf_base_addr_at set_base
mcfg_loop zero m i addr b = ok b
mcfg_loop (suc k) m i addr b = do
  b' ← set_base i (conf_base_addr_at m addr) b
  mcfg_loop k m (i + 1) (addr + conf_base_addr_size + conf_base_addr_size) b'

-- `*bases` for `cnt` structures: `malloc(cnt)` where there was no block. A block that is too small
-- is not the one that is passed to `realloc`, but the address of the caller's pointer to it.
unfoldable pub make_bases : (cnt size : ℕ) → Bases → Run (Bases × ℕ)
make_bases cnt size b =
    if size == 0
    then ok (record b { bytes = cnt }, cnt)
    else if ltb size cnt
    then fault
    else ok (b, size)

-- `find_mcfg`, where "MCFG" lies at `sign`; the result is `cnt`, `*bases` and `*size`.
unfoldable pub find_mcfg : Acpi → Memory → (sign : ℕ) → Bases → (size : ℕ) → Run (ℕ × Bases × ℕ)
unfolding load find_acpi_table mcfg_loop make_bases
find_mcfg s m sign b size = do
  (_, p) ← find_acpi_table s m sign no_pointers
  let table = p.ptrs 0
  let cnt = u64 (table_length m table + (2 ^ 64 - mcfg_size)) / conf_base_addr_size
  if not (p.size == 1) then panic else (do
    (b', size') ← make_bases cnt size b
    b'' ← mcfg_loop cnt m 0 (table + mcfg_size) b'
    ok (cnt, b'', size'))
