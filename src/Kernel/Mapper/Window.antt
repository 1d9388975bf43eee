-- ===== src/Kernel/Mapper/Window.antt =====
-- The fields of the page table entries of src/memory/mapper.c, and the window at an aligned page.
use beaveros.Base.{ℕ, ◌-◌, ◌*◌, ◌/◌, ◌%◌, ◌^◌, ◌<◌, ◌≡◌, ◌∙◌, arith, not, ◌==◌, bit_and, ap}
use beaveros.Base.Bits.{bit_and-mask, bit_and-zero, bit_and-word, word-fields}
use beaveros.Kernel.Mapper.{Mapper, phys_look, has, page_p_bit, page_addr_bits}

-- An aligned physical address of 52 bits.
abbrev pub IsPage : ℕ → Type 0
IsPage p = (p % 4096 ≡ 0) × (p < 2 ^ 52)

-- The address field of an entry.
pub addr_field : (w : ℕ) → bit_and w page_addr_bits ≡ w / 2 ^ 12 % 2 ^ 40 * 2 ^ 12
addr_field w =
    let t = w / 2 ^ 52 in
    let m = w / 2 ^ 12 % 2 ^ 40 in
    let l = w % 2 ^ 12 in
    ap (λ (x : ℕ). bit_and x page_addr_bits) (word-fields w)
    ∙ bit_and-word t m l 0 (2 ^ 40 - 1) 0 (omega arith) (omega arith) (omega arith) (omega arith)
    ∙ rw (bit_and-zero t, bit_and-mask 40 m, bit_and-zero l) (omega arith)

pub addr_field-IsPage : (w : ℕ) → IsPage (bit_and w page_addr_bits)
addr_field-IsPage w = omega (arith, addr_field w)

pub addr_of_page : (p : ℕ) → IsPage p → bit_and p page_addr_bits ≡ p
addr_of_page p h = omega (arith, addr_field p)

pub has_p : (w : ℕ) → has w page_p_bit ≡ not (w % 2 == 0)
has_p w = ap (λ (x : ℕ). not (x == 0)) (bit_and-mask 1 w)

pub look_page :
    (p : ℕ) (m : Mapper) → IsPage p → phys_look p m ≡ record m { window = p; phys_window = 0 }
unfolding phys_look
look_page p m h = ground (arith, addr_of_page p h)
