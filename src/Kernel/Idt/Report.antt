-- ===== src/Kernel/Idt/Report.antt =====
-- `_default_c_isr` of src/isr/idt/idt.c: the report on an interrupt without a handler, as the calls
-- of printf that it makes. `cr2` is the register that it reads for a page fault; after the report
-- it halts.
use Prim.Native.String.{String}
use beaveros.Base.{
  ℕ, zero, suc, ◌+◌, ◌/◌, ◌^◌, ◌==◌, ◌||◌, if◌then◌else◌, ltb, List, [], ◌∷◌, ◌++◌, Option, none,
  some, bit_and,
}
use beaveros.Kernel.Mapper.{has}
use beaveros.Kernel.Idt.{InterruptFrame}

-- An argument of printf: a word, or a string.
pub data Argument : Type 0 where
  word : ℕ → Argument
  string : String → Argument

-- A call of printf. The format is none where it is NULL.
pub record Print : Type 0 where
  pub format : Option String
  pub arguments : List Argument

-- The vectors of src/include/isr/idt.h that the report tells apart.
abbrev pub ts_vector : ℕ
ts_vector = 10

abbrev pub np_vector : ℕ
np_vector = 11

abbrev pub ss_vector : ℕ
ss_vector = 12

abbrev pub gp_vector : ℕ
gp_vector = 13

abbrev pub pf_vector : ℕ
pf_vector = 14

abbrev pub sx_vector : ℕ
sx_vector = 30

abbrev pub interrupt_mnemonic : List String
interrupt_mnemonic =
    "DE" ∷ "DB" ∷ "NMI" ∷ "BP" ∷ "OF" ∷ "BR" ∷ "UD" ∷ "NM" ∷ "DF" ∷ "" ∷ "TS" ∷ "NP" ∷ "SS" ∷ "GP"
    ∷ "PF" ∷ "" ∷ "MF" ∷ "AC" ∷ "MC" ∷ "XF" ∷ []

-- The strings of the table as C joins those without a comma between them; the rest of its 22
-- entries is NULL.
abbrev pub rflags_mnemonics : List String
rflags_mnemonics =
    "CF " ∷ "PF " ∷ "AF " ∷ "AF " ∷ "SF " ∷ "TF " ∷ "IF " ∷ "DF " ∷ "OF " ∷ "" ∷ "NT " ∷ "" ∷ "RT "
    ∷ "VM " ∷ "AC " ∷ "VIF " ∷ "VIP " ∷ "ID " ∷ []

abbrev pub selector_error_mnemonics : List String
selector_error_mnemonics = "EXT " ∷ "IDT " ∷ "TI " ∷ []

abbrev pub pf_error_mnemonics : List String
pf_error_mnemonics = "P " ∷ "R/W " ∷ "U/S " ∷ "RSV " ∷ "I/D " ∷ []

-- An entry of a table of strings.
abbrev pub entry : List String → ℕ → Option String
entry [] i = none
entry (s ∷ table) zero = some s
entry (s ∷ table) (suc i) = entry table i

-- `printf(format, ...)` with words.
abbrev pub printf : String → List ℕ → Print
printf format words = record { format = some format; arguments = as_words words }
  where
    as_words : List ℕ → List Argument
    as_words [] = []
    as_words (w ∷ words) = word w ∷ as_words words

-- A loop that prints the names of the bits that are set, from bit `i` on.
unfoldable pub print_bits : (left : ℕ) → List String → (value i : ℕ) → List Print
print_bits zero table value i = []
print_bits (suc left) table value i =
    let rest = print_bits left table value (i + 1) in
    if has value (2 ^ i) then record { format = entry table i; arguments = [] } ∷ rest else rest

-- The name of the vector.
unfoldable pub name_vector : ℕ → List Print
name_vector v =
    if ltb v 20
    then record { format = some " #%s"; arguments = as_string (entry interrupt_mnemonic v) } ∷ []
    else if v == sx_vector
    then printf " #SX" [] ∷ []
    else []
  where
    as_string : Option String → List Argument
    as_string none = []
    as_string (some s) = string s ∷ []

-- The `switch` over the vector.
unfoldable pub describe_error : (cr2 : ℕ) → InterruptFrame → List Print
unfolding print_bits
describe_error cr2 f =
    if f.vector == ts_vector
      || f.vector == np_vector
      || f.vector == ss_vector
      || f.vector == gp_vector
    then printf "(%#.4x)\n" (f.error ∷ []) ∷ print_bits 3 selector_error_mnemonics f.error 0
      ++ printf "\nselector = %#.16x\n" (f.error / 2 ^ 3 ∷ []) ∷ []
    else if f.vector == pf_vector
    then printf "(%#.4x)\n" (f.error ∷ []) ∷ print_bits 5 pf_error_mnemonics f.error 0
      ++ printf "\ncr2      = %#.16lx\n" (cr2 ∷ []) ∷ []
    else printf "\n" [] ∷ []

-- The registers of the frame.
unfoldable pub describe_registers : InterruptFrame → List Print
describe_registers f =
    printf "rax = %#.16lx, rbx = %#.16lx, rcx = %#.16lx\n" (f.rax ∷ f.rbx ∷ f.rcx ∷ [])
    ∷ printf "rdx = %#.16lx, rdi = %#.16lx, rsi = %#.16lx\n" (f.rdx ∷ f.rdi ∷ f.rsi ∷ [])
    ∷ printf "rbp = %#.16lx, r8  = %#.16lx, r9  = %#.16lx\n" (f.rbp ∷ f.r8 ∷ f.r9 ∷ [])
    ∷ printf "r10 = %#.16lx, r11 = %#.16lx, r12 = %#.16lx\n" (f.r10 ∷ f.r11 ∷ f.r12 ∷ [])
    ∷ printf "r13 = %#.16lx, r14 = %#.16lx, r15 = %#.16lx\n" (f.r13 ∷ f.r14 ∷ f.r15 ∷ [])
    ∷ []

unfoldable pub default_c_isr : (cr2 : ℕ) → InterruptFrame → List Print
unfolding name_vector describe_error print_bits describe_registers
default_c_isr cr2 f =
    printf "hOI!!!!!! I'm dEFAuLT iSR!!\n" []
      ∷ printf "vector   = %#.2x" (f.vector ∷ [])
      ∷ name_vector f.vector
    ++ describe_error cr2 f
    ++ printf "return   = %#.2x:%#.16lx\n" (f.cs ∷ f.rip ∷ [])
      ∷ printf "stack    = %#.2x:%#.16lx\n" (f.ss ∷ f.rsp ∷ [])
      ∷ printf "rflags   = %#.16lx\n" (f.rflags ∷ [])
      ∷ print_bits 22 rflags_mnemonics f.rflags 0
    ++ printf "\niopl     = %ld\n" (bit_and (f.rflags / 2 ^ 12) 0x3 ∷ []) ∷ describe_registers f
