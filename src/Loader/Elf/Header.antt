-- ===== src/Loader/Elf/Header.antt =====
-- The checks of the file header by `load_kernel` of src/loader/elf64.c.
use beaveros.Base.{ℕ, ◌≡◌, ◌≢◌, refl, arith, Bool-cases, if-false, inl, inr, true}
use beaveros.Base.Run.{ok}
use beaveros.Loader.Paging.{Loader}
use beaveros.Loader.Elf.{
  Elf64Ehdr, ehdr_at, et_exec, elfclass64, elfdata2lsb, Outcome, loaded, is_loaded, check_ehdr,
}
use beaveros.Loader.Elf.Load.{load_kernel, Literals}

-- An executable for 64 bits, little-endian, with the System V ABI.
pub record IsSysvExecutable (e : Elf64Ehdr) : Type 0 where
  pub magic :
      (e.e_ident 0 ≡ 0x7f) × (e.e_ident 1 ≡ b'E') × (e.e_ident 2 ≡ b'L') × (e.e_ident 3 ≡ b'F')
  pub word_size : e.e_ident 4 ≡ elfclass64
  pub byte_order : e.e_ident 5 ≡ elfdata2lsb
  pub version : e.e_ident 6 ≡ 1
  pub abi : (e.e_ident 7 ≡ 0) × (e.e_ident 8 ≡ 0)
  pub kind : e.e_type ≡ et_exec

check_ehdr-loaded : (e : Elf64Ehdr) → check_ehdr e ≡ loaded → IsSysvExecutable e
unfolding check_ehdr
check_ehdr-loaded e h = record {
  magic = ground arith;
  word_size = ground arith;
  byte_order = ground arith;
  version = ground arith;
  abi = ground arith;
  kind = ground arith;
}

is_loaded-loaded : (o : Outcome) → is_loaded o ≡ true → o ≡ loaded
unfolding is_loaded
is_loaded-loaded o h = ground arith

loaded-check_ehdr : (e : Elf64Ehdr) → IsSysvExecutable e → check_ehdr e ≡ loaded
unfolding check_ehdr
loaded-check_ehdr e h =
    let (a, b, c, d) = h.magic in
    let (f, g) = h.abi in rw (a, b, c, d, f, g, h.word_size, h.byte_order, h.version, h.kind) refl

-- A file whose header is not that of an executable for 64 bits with the System V ABI is rejected:
-- `load_kernel` returns false, and leaves the memory and the entry point of its caller alone.
pub load_kernel_rejects :
    (headers pages chars : ℕ) (l : Literals) (start : ℕ) (s : Loader)
    → ¬ IsSysvExecutable (ehdr_at s.memory start)
    → (why : Outcome) × (why ≢ loaded) × (load_kernel headers pages chars l start s ≡ ok (why, s))
unfolding load_kernel
load_kernel_rejects headers pages chars l start s bad =
    let e = ehdr_at s.memory start in
    elim (Bool-cases (is_loaded (check_ehdr e))) [
      | inl holds ↦ absurd (bad (check_ehdr-loaded e (is_loaded-loaded (check_ehdr e) holds)))
      | inr fails ↦ (
        check_ehdr e,
        (λ same. bad (check_ehdr-loaded e same)),
        if-false _ _ (is_loaded (check_ehdr e)) fails,
      )
    ]
