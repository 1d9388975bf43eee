-- ===== src/Kernel/Idt/Names.antt =====
-- The names that `_default_c_isr` of src/isr/idt/idt.c prints, and where it has none.
use Prim.Native.String.{String}
use beaveros.Base.{
  ℕ, zero, suc, ◌+◌, ◌*◌, ◌^◌, ◌<◌, ◌≤◌, ◌≡◌, ◌∙◌, refl, ap, arith, Bool, true, false, ◌==◌, ◌||◌,
  inl, inr, Bool-cases, if-true, if-false, if◌then◌else◌, ltb, List, [], ◌∷◌, ◌++◌, Option, none,
  some, bit_and, ◌/◌,
}
use beaveros.Kernel.Mapper.{has}
use beaveros.Kernel.Idt.{InterruptFrame}
use beaveros.Kernel.Idt.Report.{
  Print, entry, printf, print_bits, name_vector, describe_error, describe_registers, default_c_isr,
  rflags_mnemonics, selector_error_mnemonics, pf_error_mnemonics, ts_vector, np_vector, ss_vector,
  gp_vector, pf_vector, sx_vector,
}

-- The calls without a format.
abbrev null : Option String → ℕ
null none = 1
null (some s) = 0

abbrev pub nulls : List Print → ℕ
nulls [] = 0
nulls (p ∷ prints) = null p.format + nulls prints

nulls-append : (p q : List Print) → nulls (p ++ q) ≡ nulls p + nulls q
nulls-append [] q = omega arith
nulls-append (x ∷ p) q = omega (arith, nulls-append p q)

abbrev count : List String → ℕ
count [] = 0
count (s ∷ table) = suc (count table)

entry-null : (table : List String) (i : ℕ) → i < count table → null (entry table i) ≡ 0
entry-null [] i h = absurd (omega arith)
entry-null (s ∷ table) zero h = refl
entry-null (s ∷ table) (suc i) h = entry-null table i (omega arith)

-- A bit that is set, as a number.
abbrev pub bit : (value i : ℕ) → ℕ
bit value i = if has value (2 ^ i) then 1 else 0

-- The first of the bits.
by_bit :
    (b : Bool) (format : Option String) (rest : List Print)
    → nulls (if b then record { format = format; arguments = [] } ∷ rest else rest)
      ≡ (if b then 1 else 0) * null format + nulls rest
by_bit true format rest = omega arith
by_bit false format rest = omega arith

nulls-step :
    (left : ℕ) (table : List String) (value i : ℕ)
    → nulls (print_bits (suc left) table value i)
      ≡ bit value i * null (entry table i) + nulls (print_bits left table value (i + 1))
unfolding print_bits
nulls-step left table value i =
    by_bit (has value (2 ^ i)) (entry table i) (print_bits left table value (i + 1))

no_bits : (table : List String) (value i : ℕ) → nulls (print_bits 0 table value i) ≡ 0
unfolding print_bits
no_bits table value i = refl

-- The bits with names print no NULL.
nulls-names :
    (a b n : ℕ) (table : List String) (value i : ℕ)
    → n ≡ a + b
    → i + a ≤ count table
    → nulls (print_bits n table value i) ≡ nulls (print_bits b table value (i + a))
nulls-names zero b n table value i e h =
    let same : i ≡ i + 0 = omega arith in
    let all : n ≡ b = omega arith in
    ap (λ (x : ℕ). nulls (print_bits x table value i)) all
    ∙ ap (λ (x : ℕ). nulls (print_bits b table value x)) same
nulls-names (suc a) b zero table value i e h = absurd (omega arith)
nulls-names (suc a) b (suc n) table value i e h =
    let same : i + 1 + a ≡ i + suc a = omega arith in
    nulls-step n table value i
    ∙ ap (λ (x : ℕ). bit value i * x + nulls (print_bits n table value (i + 1)))
        (entry-null table i (omega arith))
    ∙ omega (
      arith,
      nulls-names a b n table value (i + 1) (omega arith) (omega arith),
      ap (λ (x : ℕ). nulls (print_bits b table value x)) same,
    )

all_named :
    (n : ℕ) (table : List String) (value : ℕ)
    → n ≤ count table
    → nulls (print_bits n table value 0) ≡ 0
unfolding print_bits
all_named n table value h =
    nulls-names n 0 n table value 0 (omega arith) (omega arith) ∙ no_bits table value (0 + n)

nulls-flags :
    (value : ℕ)
    → nulls (print_bits 22 rflags_mnemonics value 0)
      ≡ bit value 18 + bit value 19 + bit value 20 + bit value 21
nulls-flags value =
    nulls-names 18 4 22 rflags_mnemonics value 0 refl (omega arith)
    ∙ omega (
      arith,
      nulls-step 3 rflags_mnemonics value 18,
      nulls-step 2 rflags_mnemonics value 19,
      nulls-step 1 rflags_mnemonics value 20,
      nulls-step 0 rflags_mnemonics value 21,
      no_bits rflags_mnemonics value 22,
    )

nulls-name_vector : (v : ℕ) → nulls (name_vector v) ≡ 0
unfolding name_vector
nulls-name_vector v = elim (Bool-cases (ltb v 20)) [
  | inl named ↦ ap nulls (if-true _ _ (ltb v 20) named)
  | inr other ↦ elim (Bool-cases (v == sx_vector)) [
    | inl sx ↦ ap nulls (if-false _ _ (ltb v 20) other ∙ if-true _ _ (v == sx_vector) sx)
    | inr no_name ↦ ap nulls (if-false _ _ (ltb v 20) other ∙ if-false _ _ (v == sx_vector) no_name)
  ]
]

-- A line, named bits, and a line.
framed :
    (n : ℕ) (table : List String) (value : ℕ) (first last : String) (a b : List ℕ)
    → n ≤ count table
    → nulls (printf first a ∷ print_bits n table value 0 ++ printf last b ∷ []) ≡ 0
framed n table value first last a b h = omega (
  arith,
  nulls-append (print_bits n table value 0) (printf last b ∷ []),
  all_named n table value h,
)

nulls-describe_error : (cr2 : ℕ) (f : InterruptFrame) → nulls (describe_error cr2 f) ≡ 0
unfolding describe_error
nulls-describe_error cr2 f =
    by_vector
      (f.vector == ts_vector
        || f.vector == np_vector
        || f.vector == ss_vector
        || f.vector == gp_vector)
      (f.vector == pf_vector) _ _ _
      (framed 3 selector_error_mnemonics f.error "(%#.4x)\n" "\nselector = %#.16x\n" (f.error ∷ [])
        (f.error / 2 ^ 3 ∷ []) (omega arith))
      (framed 5 pf_error_mnemonics f.error "(%#.4x)\n" "\ncr2      = %#.16lx\n" (f.error ∷ [])
        (cr2 ∷ []) (omega arith))
      refl
  where
    by_vector :
        (b c : Bool) (x y z : List Print)
        → nulls x ≡ 0
        → nulls y ≡ 0
        → nulls z ≡ 0
        → nulls (if b then x else if c then y else z) ≡ 0
    by_vector true c x y z hx hy hz = hx
    by_vector false true x y z hx hy hz = hy
    by_vector false false x y z hx hy hz = hz

-- The parts of the report around the error.
abbrev opening : InterruptFrame → List Print
opening f =
    printf "hOI!!!!!! I'm dEFAuLT iSR!!\n" []
    ∷ printf "vector   = %#.2x" (f.vector ∷ [])
    ∷ name_vector f.vector

abbrev flags : InterruptFrame → List Print
flags f =
    printf "return   = %#.2x:%#.16lx\n" (f.cs ∷ f.rip ∷ [])
    ∷ printf "stack    = %#.2x:%#.16lx\n" (f.ss ∷ f.rsp ∷ [])
    ∷ printf "rflags   = %#.16lx\n" (f.rflags ∷ [])
    ∷ print_bits 22 rflags_mnemonics f.rflags 0

abbrev registers : InterruptFrame → List Print
registers f =
    printf "\niopl     = %ld\n" (bit_and (f.rflags / 2 ^ 12) 0x3 ∷ []) ∷ describe_registers f

default_c_isr-parts :
    (cr2 : ℕ) (f : InterruptFrame)
    → default_c_isr cr2 f ≡ ((opening f ++ describe_error cr2 f) ++ flags f) ++ registers f
unfolding default_c_isr
default_c_isr-parts cr2 f = refl

nulls-describe_registers : (f : InterruptFrame) → nulls (describe_registers f) ≡ 0
unfolding describe_registers
nulls-describe_registers f = refl

-- The report on an interrupt calls printf with a NULL format once for each of the flags AC, VIF, VIP
-- and ID, the bits 18 to 21, that is set in the saved rflags, and never otherwise.
pub nulls-default_c_isr :
    (cr2 : ℕ) (f : InterruptFrame)
    → nulls (default_c_isr cr2 f)
      ≡ bit f.rflags 18 + bit f.rflags 19 + bit f.rflags 20 + bit f.rflags 21
nulls-default_c_isr cr2 f =
    ap nulls (default_c_isr-parts cr2 f)
    ∙ omega (
      arith,
      nulls-append ((opening f ++ describe_error cr2 f) ++ flags f) (registers f),
      nulls-append (opening f ++ describe_error cr2 f) (flags f),
      nulls-append (opening f) (describe_error cr2 f),
      nulls-name_vector f.vector,
      nulls-describe_error cr2 f,
      nulls-flags f.rflags,
      nulls-describe_registers f,
    )
