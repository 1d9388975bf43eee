-- ===== src/Kernel/Acpi/Rsdp.antt =====
-- `find_sdt` of src/acpi/acpi.c.
use mathlib.Core.Path.{subst}
use beaveros.Base.{
  ℕ, zero, suc, ◌+◌, ◌*◌, ◌%◌, ◌<◌, ◌≡◌, ◌⊎◌, ◌∙◌, refl, sym, ap, arith, Bool, true, false, ◌&&◌,
  ◌||◌, ◌==◌, if◌then◌else◌, inl, inr,
}
use beaveros.Base.Int.{pos, eq_ℤ}
use beaveros.Base.Memory.{Memory}
use beaveros.Strings.{strncmp}
use beaveros.Kernel.Acpi.{Acpi, rsdp_at, sum_bytes, find_sdt_loop, find_sdt}

-- The sum of `n` bytes.
abbrev pub total : (n : ℕ) → Memory → (a : ℕ) → ℕ
total zero m a = 0
total (suc n) m a = m a + total n m (a + 1)

sum_bytes_lem :
    (n : ℕ) (m : Memory) (a sum : ℕ) → sum < 256 → sum_bytes n m a sum ≡ (sum + total n m a) % 256
unfolding sum_bytes
sum_bytes_lem zero m a sum h = omega arith
sum_bytes_lem (suc n) m a sum h =
    omega (arith, sum_bytes_lem n m (a + 1) ((sum + m a) % 256) (omega arith))

-- A descriptor at `i`: the signature, a checksum of 20 bytes, and the version 0 or the version 2
-- with a checksum of 33 bytes.
abbrev pub has_second : Memory → ℕ → Bool
has_second m i = ((rsdp_at m i).version == 2) && (total 33 m i % 256 == 0)

abbrev pub is_rsdp : Memory → (rsd_ptr i : ℕ) → Bool
is_rsdp m rsd_ptr i =
    eq_ℤ (strncmp m i rsd_ptr 8) (pos 0)
    && (total 20 m i % 256 == 0)
    && (has_second m i || ((rsdp_at m i).version == 0))

-- The tables that a descriptor names.
abbrev pub tables_of : Memory → ℕ → Acpi
tables_of m i =
    if has_second m i
    then record { xsdt = true; sdt = (rsdp_at m i).xsdt_address }
    else record { xsdt = false; sdt = (rsdp_at m i).rsdt_address }

-- The nested tests of the loop as one.
one_test :
    (sign first second new old : Bool) (x y : Acpi) (next : Bool × Acpi)
    → (if sign
        then if first
          then if new
            then if second then (true, x) else if old then (true, y) else next
            else if old
            then (true, y)
            else next
          else next
        else next)
      ≡ (if sign && first && ((new && second) || old)
          then (true, if new && second then x else y)
          else next)
one_test false first second new old x y next = refl
one_test true false second new old x y next = refl
one_test true true true true old x y next = refl
one_test true true false true true x y next = refl
one_test true true false true false x y next = refl
one_test true true second false true x y next = refl
one_test true true second false false x y next = refl

sum_bytes-total : (n : ℕ) (m : Memory) (a : ℕ) → sum_bytes n m a 0 ≡ total n m a % 256
sum_bytes-total n m a = omega (arith, sum_bytes_lem n m a 0 (omega arith))

same₂ {ℓ} : {A : Type ℓ} (f : ℕ → ℕ → A) {a b c d : ℕ} → a ≡ b → c ≡ d → f a c ≡ f b d
same₂ f p q = cc

step :
    (k : ℕ) (m : Memory) (rsd_ptr i : ℕ) (s : Acpi)
    → find_sdt_loop (suc k) m rsd_ptr i s ≡ (
        if is_rsdp m rsd_ptr i then (true, tables_of m i) else find_sdt_loop k m rsd_ptr (i + 16) s)
unfolding find_sdt_loop
step k m rsd_ptr i s =
    let sign = eq_ℤ (strncmp m i rsd_ptr 8) (pos 0) in
    let new = (rsdp_at m i).version == 2 in
    let old = (rsdp_at m i).version == 0 in
    let x : Acpi = record { xsdt = true; sdt = (rsdp_at m i).xsdt_address } in
    let y : Acpi = record { xsdt = false; sdt = (rsdp_at m i).rsdt_address } in
    let next = find_sdt_loop k m rsd_ptr (i + 16) s in
    one_test sign (sum_bytes 20 m i 0 == 0) (sum_bytes 33 m i 0 == 0) new old x y next
    ∙ same₂
        (λ (a b : ℕ).
          (if sign && (a == 0) && ((new && (b == 0)) || old)
            then (true, if new && (b == 0) then x else y)
            else next))
        (sum_bytes-total 20 m i) (sum_bytes-total 33 m i)

-- What the search returns from `i` on in `k` rounds.
abbrev pub Answer : (k : ℕ) → Memory → (rsd_ptr i : ℕ) → Acpi → Bool × Acpi → Type 0
Answer k m rsd_ptr i s (found, s') =
    ((found ≡ false) × (s' ≡ s) × ((j : ℕ) → j < k → is_rsdp m rsd_ptr (i + 16 * j) ≡ false))
    ⊎ ((found ≡ true)
        × ((j : ℕ) × (j < k)
            × (is_rsdp m rsd_ptr (i + 16 * j) ≡ true)
            × ((h : ℕ) → h < j → is_rsdp m rsd_ptr (i + 16 * h) ≡ false)
            × (s' ≡ tables_of m (i + 16 * j))))

shifted :
    (m : Memory) (rsd_ptr i j : ℕ) (b : Bool)
    → is_rsdp m rsd_ptr (i + 16 + 16 * j) ≡ b
    → is_rsdp m rsd_ptr (i + 16 * suc j) ≡ b
shifted m rsd_ptr i j b h =
    let same : i + 16 * suc j ≡ i + 16 + 16 * j = omega arith in
    ap (λ (a : ℕ). is_rsdp m rsd_ptr a) same ∙ h

-- None up to an index, if none at the first and none behind it.
none_before :
    (n : ℕ) (m : Memory) (rsd_ptr i : ℕ)
    → is_rsdp m rsd_ptr i ≡ false
    → ((j : ℕ) → j < n → is_rsdp m rsd_ptr (i + 16 + 16 * j) ≡ false)
    → (j : ℕ) → j < suc n
    → is_rsdp m rsd_ptr (i + 16 * j) ≡ false
none_before n m rsd_ptr i first others zero h =
    let here : i + 16 * 0 ≡ i = omega arith in ap (λ (a : ℕ). is_rsdp m rsd_ptr a) here ∙ first
none_before n m rsd_ptr i first others (suc j) h =
    shifted m rsd_ptr i j false (others j (omega arith))

extend :
    (k : ℕ) (m : Memory) (rsd_ptr i : ℕ) (s : Acpi) (r : Bool × Acpi) (b : Bool)
    → is_rsdp m rsd_ptr i ≡ b
    → Answer k m rsd_ptr (i + 16) s r
    → Answer (suc k) m rsd_ptr i s (if b then (true, tables_of m i) else r)
extend k m rsd_ptr i s r true first rest =
    let here : i + 16 * 0 ≡ i = omega arith in
    inr (
      refl,
      (
        0,
        omega arith,
        ap (λ (a : ℕ). is_rsdp m rsd_ptr a) here ∙ first,
        (λ h lt. absurd (omega arith)),
        ap (λ (a : ℕ). tables_of m a) (sym here),
      ),
    )
extend k m rsd_ptr i s r false first (inl (missing, same, others)) =
    inl (missing, same, none_before k m rsd_ptr i first others)
extend k m rsd_ptr i s r false first (inr (there, (j, lt, at, before, tables))) =
    let same : i + 16 + 16 * j ≡ i + 16 * suc j = omega arith in
    inr (
      there,
      (
        suc j,
        omega arith,
        shifted m rsd_ptr i j true at,
        none_before j m rsd_ptr i first before,
        tables ∙ ap (λ (a : ℕ). tables_of m a) same,
      ),
    )

no_rounds :
    (m : Memory) (rsd_ptr i : ℕ) (s : Acpi) → Answer 0 m rsd_ptr i s (find_sdt_loop 0 m rsd_ptr i s)
unfolding find_sdt_loop
no_rounds m rsd_ptr i s = inl (refl, refl, λ j h. absurd (omega arith))

find_sdt_loop-Answer :
    (k : ℕ) (m : Memory) (rsd_ptr i : ℕ) (s : Acpi)
    → Answer k m rsd_ptr i s (find_sdt_loop k m rsd_ptr i s)
find_sdt_loop-Answer zero m rsd_ptr i s = no_rounds m rsd_ptr i s
find_sdt_loop-Answer (suc k) m rsd_ptr i s =
    subst (λ r. Answer (suc k) m rsd_ptr i s r) (sym (step k m rsd_ptr i s))
      (extend k m rsd_ptr i s (find_sdt_loop k m rsd_ptr (i + 16) s) (is_rsdp m rsd_ptr i) refl
        (find_sdt_loop-Answer k m rsd_ptr (i + 16) s))

-- `find_sdt` finds the first descriptor at a multiple of 16 below 0x100000 - 16, and keeps what it
-- names: the XSDT of one of version 2, the RSDT of one of version 0. A descriptor has the
-- signature and a checksum of 20 bytes, and one of version 2 has a checksum of 33 bytes too. If
-- there is none, then the answer is false, and nothing changes.
pub find_sdt_correct :
    (m : Memory) (rsd_ptr : ℕ) (s : Acpi) → Answer 65535 m rsd_ptr 0 s (find_sdt m rsd_ptr s)
unfolding find_sdt
find_sdt_correct m rsd_ptr s = find_sdt_loop-Answer 65535 m rsd_ptr 0 s
