-- ===== src/Kernel/Mapper/Leaf.antt =====
-- The last level of `map_page` of src/memory/mapper.c: the leaf entry.
use beaveros.Base.{
  ℕ, ◌+◌, ◌-◌, ◌*◌, ◌/◌, ◌%◌, ◌^◌, ◌<◌, ◌≤◌, ◌⊎◌, ◌≡◌, ◌≢◌, ◌∙◌, refl, ap, Bool, ◌&&◌, false, true,
  arith, ◌==◌, bit_and, bit_or,
}
use beaveros.Base.Memory.{store}
use beaveros.Base.Run.{ok}
use beaveros.Base.Bits.{
  bit_and-mask, zero-bit_or, bit_or-zero, word, bit_or-word, bit_and-lt, bit_or-half,
}
use beaveros.Kernel.Mapper.{
  Mapper, has, bits, page_p_bit, page_f_bit, pt_flags_mask, map_entry, arguments_ok,
}
use beaveros.Kernel.Mapper.Window.{IsPage, addr_field, addr_of_page, has_p}
use beaveros.Kernel.Mapper.Tables.{target, bit_and-flags, bit_and-odd}
use beaveros.Kernel.Mapper.Walk.{slot1}

bit_or-odd' : (a b : ℕ) → a % 2 ≡ 1 → bit_or a b % 2 ≡ 1
bit_or-odd' a b p = omega (arith, bit_or-half a b)

-- The leaf entry.
abbrev pub leaf : ℕ → ℕ → ℕ
leaf phys flags = bit_or (bit_and flags pt_flags_mask) phys

ap₃ : (f : ℕ → ℕ → ℕ → ℕ) {a b c d e g : ℕ} → a ≡ b → c ≡ d → e ≡ g → f a c e ≡ f b d g
ap₃ f p q r = cc

pub target-leaf : (phys flags : ℕ) → IsPage phys → target (leaf phys flags) ≡ phys
target-leaf phys flags page =
    let t = bit_and (flags / 2 ^ 52) 0xfff in
    let l = bit_and (flags % 2 ^ 12) 0xfff in
    let low = bit_and-lt 12 (flags % 2 ^ 12) 0xfff (omega arith) in
    let as_word : phys ≡ word 0 (phys / 2 ^ 12) 0 = omega arith in
    let sum =
      bit_or-word t 0 l 0 (phys / 2 ^ 12) 0 (omega arith) low (omega arith) (omega arith)
      ∙ ap₃ word (bit_or-zero t) (zero-bit_or (phys / 2 ^ 12)) (bit_or-zero l) in
    ap (λ (x : ℕ). target (bit_or x phys)) (bit_and-flags flags 0xfff 0xfff (omega arith))
    ∙ ap (λ (x : ℕ). target (bit_or (word t 0 l) x)) as_word
    ∙ ap target sum
    ∙ omega (arith, addr_field (word t (phys / 2 ^ 12) l))

pub leaf-present :
    (phys flags : ℕ) → IsPage phys → flags % 2 ≡ 1 → has (leaf phys flags) page_p_bit ≡ true
leaf-present phys flags page odd = ground (
  arith,
  has_p (leaf phys flags),
  bit_or-odd' (bit_and flags pt_flags_mask) phys (bit_and-odd flags pt_flags_mask odd refl),
)

and-false : (b : Bool) → (b && false) ≡ false
and-false true = refl
and-false false = refl

-- The page is mapped where the entry before does not ask to free a page.
pub map_entry-plain :
    (m : Mapper) (pt virt phys flags : ℕ)
    → IsPage pt
    → phys ≢ 0
    → has (m.memory (slot1 pt virt)) page_f_bit ≡ false
    → let a = slot1 pt virt in
      map_entry pt virt phys flags m
      ≡ ok (record m {
        memory = store (store m.memory a (bit_and flags pt_flags_mask)) a (leaf phys flags);
        window = pt;
        phys_window = 0;
      })
unfolding map_entry
map_entry-plain m pt virt phys flags page ne keep =
    let a = slot1 pt virt in
    let here : pt - pt ≡ 0 = omega arith in
    let at : pt + (0 + 8 * bits virt 12 21) ≡ a = omega arith in
    let self : (a == a) ≡ true = ground arith in
    let given : (phys == 0) ≡ false = ground arith in
    rw (addr_of_page pt page, here, at, given, keep, and-false, self)

-- What the assertions of `map_page` say of the physical address.
pub arguments_ok-IsPage :
    (virt phys : ℕ) → phys < 2 ^ 64 → arguments_ok virt phys ≡ true → IsPage phys
arguments_ok-IsPage virt phys w h =
    let clear : bit_and phys (word 0xfff 0 0xfff) ≡ 0 = ground arith in
    omega (
      arith,
      bit_and-flags phys 0xfff 0xfff (omega arith),
      bit_and-mask 12 (phys / 2 ^ 52),
      bit_and-mask 12 (phys % 2 ^ 12),
    )

-- Canonical aligned addresses and pages pass the assertions.
pub arguments_ok-canonical :
    (virt phys : ℕ)
    → virt % 4096 ≡ 0
    → virt < 2 ^ 64
    → (virt < 2 ^ 47) ⊎ (2 ^ 64 - 2 ^ 47 ≤ virt)
    → IsPage phys
    → arguments_ok virt phys ≡ true
arguments_ok-canonical virt phys aligned w canonical page =
    let a = bit_and-mask 17 (virt / 2 ^ 47) in
    let b = bit_and-mask 12 virt in
    let c = bit_and-flags phys 0xfff 0xfff (omega arith) in
    let c1 = bit_and-mask 12 (phys / 2 ^ 52) in
    let c2 = bit_and-mask 12 (phys % 2 ^ 12) in ground arith
