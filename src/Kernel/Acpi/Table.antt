-- ===== src/Kernel/Acpi/Table.antt =====
-- `find_acpi_table` of src/acpi/acpi.c, and `find_madt` of src/acpi/madt.c.
use mathlib.Core.Path.{subst}
use beaveros.Base.{
  ℕ, zero, suc, ◌+◌, ◌-◌, ◌*◌, ◌/◌, ◌^◌, ◌<◌, ◌≤◌, ◌≡◌, ◌≢◌, ◌⊎◌, ◌∙◌, refl, sym, ap, arith, Bool,
  true, false, not, ◌==◌, if◌then◌else◌, ltb, List, [], ◌∷◌, length, inl, inr, Bool-cases, u64,
  if-true, if-false,
}
use beaveros.Base.Int.{pos, eq_ℤ}
use beaveros.Base.Memory.{Memory, store, store_ne, store_self}
use beaveros.Base.Run.{
  Run, ok, panic, ◌>>=◌, Returns, returns, Returns-if, Returns-map, Returns-bind,
}
use beaveros.Base.Bytes.{load}
use beaveros.Strings.{strncmp}
use beaveros.Kernel.Acpi.{
  Acpi, Pointers, no_pointers, header_size, add_pointer, address_in, find_loop, table_entries,
  find_acpi_table, find_madt,
}

-- Whether the table at an address has the signature.
abbrev pub has_signature : Memory → (sign addr : ℕ) → Bool
has_signature m sign addr = eq_ℤ (strncmp m sign addr 4) (pos 0)

-- The tables with the signature among `n` entries from `i` on.
abbrev pub signed_tables : (n : ℕ) → Acpi → Memory → (sign i : ℕ) → List ℕ
signed_tables zero s m sign i = []
signed_tables (suc n) s m sign i =
    if has_signature m sign (address_in s m i)
    then address_in s m i ∷ signed_tables n s m sign (i + 1)
    else signed_tables n s m sign (i + 1)

-- From index `c` on, the array holds these.
abbrev pub Holds : (ℕ → ℕ) → (c : ℕ) → List ℕ → Type 0
Holds cells c [] = Unit {0}
Holds cells c (x ∷ xs) = (cells c ≡ x) × Holds cells (c + 1) xs

-- The room for `n` pointers: enough, and less than twice as much.
abbrev pub IsRoom : (n size : ℕ) → Type 0
IsRoom n size = (n ≤ size) × (size ≤ 2 * n - 1)

add_pointer-IsRoom :
    (addr n : ℕ) (p : Pointers)
    → IsRoom n p.size
    → n < 2 ^ 62
    → Returns
        (λ p'. (p'.ptrs ≡ store p.ptrs n addr) × IsRoom (n + 1) p'.size)
        (add_pointer addr n p)
unfolding add_pointer
add_pointer-IsRoom addr n p room h =
    Returns-if (ltb n (if p.size == 0 then 1 else if n == p.size then u64 (p.size * 2) else p.size))
      (λ fits. returns (refl, ground arith)) (λ over. absurd (ground arith))

-- What the loop leaves: the count, the room, the cells that were filled before, and the new ones.
abbrev pub Collected : (n : ℕ) → List ℕ → (ℕ → ℕ) → ℕ × Pointers → Type 0
Collected n xs cells (count, p) =
    (count ≡ n + length xs)
    × IsRoom count p.size
    × ((j : ℕ) → j < n → p.ptrs j ≡ cells j)
    × Holds p.ptrs n xs

either :
    (n addr : ℕ) (xs : List ℕ) (cells : ℕ → ℕ) (taken skipped : Run (ℕ × Pointers)) (b : Bool)
    → Returns (Collected n (addr ∷ xs) cells) taken
    → Returns (Collected n xs cells) skipped
    → Returns (Collected n (if b then addr ∷ xs else xs) cells) (if b then taken else skipped)
either n addr xs cells taken skipped true t f = t
either n addr xs cells taken skipped false t f = f

-- One more pointer was stored before the rest.
after_store :
    (n addr : ℕ) (xs : List ℕ) (cells : ℕ → ℕ) (p : Pointers) (r : ℕ × Pointers)
    → p.ptrs ≡ store cells n addr
    → Collected (n + 1) xs p.ptrs r
    → Collected n (addr ∷ xs) cells r
after_store n addr xs cells p r stored (count, room, same, holds) =
    let at : (j : ℕ) → p.ptrs j ≡ store cells n addr j = λ j. ap (λ (f : ℕ → ℕ). f j) stored in
    (
      omega arith,
      room,
      (λ j lt. same j (omega arith) ∙ at j ∙ store_ne cells n addr j (omega arith)),
      (same n (omega arith) ∙ at n ∙ store_self cells n addr, holds),
    )

find_loop-Collected :
    (k : ℕ) (s : Acpi) (m : Memory) (sign i n : ℕ) (p : Pointers)
    → IsRoom n p.size
    → n + k < 2 ^ 62
    → Returns (Collected n (signed_tables k s m sign i) p.ptrs) (find_loop k s m sign i n p)
unfolding find_loop
find_loop-Collected zero s m sign i n p room h = returns (omega arith, room, (λ j lt. refl), tt)
find_loop-Collected (suc k) s m sign i n p room h =
    let addr = address_in s m i in
    let xs = signed_tables k s m sign (i + 1) in
    either n addr xs p.ptrs _ _ (has_signature m sign addr)
      (Returns-bind (add_pointer-IsRoom addr n p room (omega arith)) (λ p' (stored, room').
        Returns-map (find_loop-Collected k s m sign (i + 1) (n + 1) p' room' (omega arith))
          (λ r collected. after_store n addr xs p.ptrs p' r stored collected)))
      (find_loop-Collected k s m sign (i + 1) n p room (omega arith))

entries-lt : (b : Bool) (w : ℕ) → w < 2 ^ 64 → w / (if b then 8 else 4) < 2 ^ 62
entries-lt true w h = omega arith
entries-lt false w h = omega arith

-- The pointers are these, and their number and room.
abbrev pub AreFound : List ℕ → ℕ × Pointers → Type 0
AreFound xs (count, p) = (count ≡ length xs) × IsRoom count p.size × Holds p.ptrs 0 xs

-- `find_acpi_table` from no pointers returns, with the tables that have the signature in the order
-- of their entries, their number, and room for them in the array, in which every store fell.
pub find_acpi_table_correct :
    (s : Acpi) (m : Memory) (sign : ℕ)
    → Returns
        (AreFound (signed_tables (table_entries s m) s m sign 0))
        (find_acpi_table s m sign no_pointers)
unfolding find_acpi_table
find_acpi_table_correct s m sign =
    let w = u64 (load 4 m (s.sdt + 4) + (2 ^ 64 - header_size)) in
    let few = entries-lt s.xsdt w (omega arith) in
    Returns-map
      (find_loop-Collected (table_entries s m) s m sign 0 0 no_pointers (omega arith) (omega arith))
      (λ r (count, room, same, holds). (omega arith, room, holds))

-- What `find_madt` makes of the tables that were found.
abbrev pub MadtAnswer : List ℕ → Run (ℕ → ℕ) → Type 0
MadtAnswer xs call =
    (Returns (λ cells. Holds cells 0 xs) call × (length xs ≡ 1))
    ⊎ ((call ≡ panic) × (length xs ≢ 1))

only_one :
    (xs : List ℕ) (call : Run (ℕ × Pointers))
    → Returns (AreFound xs) call
    → MadtAnswer xs (call >>= λ x. if not (x.1.size == 1) then panic else ok x.1.ptrs)
only_one xs _ (returns {v = (count, p)} (number, room, holds)) =
    elim (Bool-cases (not (p.size == 1))) [
      | inl several ↦ inr (if-true _ _ _ several, λ one. ground arith)
      | inr one ↦ inl (
        subst (Returns (λ cells. Holds cells 0 xs)) (sym (if-false _ _ _ one)) (returns holds),
        ground arith,
      )
    ]

-- `find_madt` finishes with the pointer to the table if there is one MADT, and panics if there is
-- none or more than one.
pub find_madt_correct :
    (s : Acpi) (m : Memory) (sign : ℕ)
    → MadtAnswer (signed_tables (table_entries s m) s m sign 0) (find_madt s m sign)
unfolding find_madt
find_madt_correct s m sign =
    only_one (signed_tables (table_entries s m) s m sign 0) (find_acpi_table s m sign no_pointers)
      (find_acpi_table_correct s m sign)
