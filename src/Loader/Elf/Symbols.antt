-- ===== src/Loader/Elf/Symbols.antt =====
-- The search of `load_kernel` of src/loader/elf64.c in the symbol table of the kernel's file.
use beaveros.Base.{
  ℕ, suc, ◌+◌, ◌*◌, ◌<◌, ◌-◌, ◌≢◌, ◌≡◌, ◌↔◌, ◌∙◌, refl, sym, ap, if-false, arith, Bool, true, false,
  ◌&&◌, ◌==◌, if◌then◌else◌, List, [], ◌∷◌, length, u32,
}
use beaveros.Base.Int.{ℤ, pos, negsuc, eq_ℤ}
use beaveros.Base.Memory.{Memory}
use beaveros.Base.Run.{Run, ok, ◌>>=◌}
use beaveros.Strings.{IsString}
use beaveros.Strings.Text.{strcmp_correct}
use beaveros.Loader.Paging.{Loader}
use beaveros.Loader.Elf.{Elf64Sym, sym_at}
use beaveros.Loader.Elf.Load.{
  Literals, Symbols, Sections, same_text, see_symbol, find_symbols, install_window, read_symbols,
}

-- Whether two names are the same.
abbrev pub eq_name : List ℕ → List ℕ → Bool
eq_name [] [] = true
eq_name [] (y ∷ ys) = false
eq_name (x ∷ xs) [] = false
eq_name (x ∷ xs) (y ∷ ys) = (x == y) && eq_name xs ys

eq_name_self : (xs : List ℕ) → eq_name xs xs ≡ true
eq_name_self [] = refl
eq_name_self (x ∷ xs) = ground (arith, eq_name_self xs)

same-eq_name : (xs ys : List ℕ) → eq_name xs ys ≡ true → xs ≡ ys
same-eq_name [] [] h = refl
same-eq_name [] (y ∷ ys) h = absurd (ground arith)
same-eq_name (x ∷ xs) [] h = absurd (ground arith)
same-eq_name (x ∷ xs) (y ∷ ys) h = ground (arith, same-eq_name xs ys)

pub eq_name_iff : (xs ys : List ℕ) → (eq_name xs ys ≡ true) ↔ (xs ≡ ys)
eq_name_iff xs ys = (same-eq_name xs ys, λ h. rw h (eq_name_self ys))

same_tests : (b c : Bool) → (b ≡ true) ↔ (c ≡ true) → b ≡ c
same_tests true c h = sym (h.0 refl)
same_tests false true h = h.1 refl
same_tests false false h = refl

zero_iff : (d : ℤ) → (eq_ℤ d (pos 0) ≡ true) ↔ (d ≡ pos 0)
zero_iff (pos n) = ground arith
zero_iff (negsuc n) = ground arith

-- `same_text` compares names.
same_text-eq_name :
    (k : ℕ) (m : Memory) (a b : ℕ) (xs ys : List ℕ)
    → IsString m a xs
    → IsString m b ys
    → length xs < k
    → same_text k m a b ≡ ok (eq_name xs ys)
unfolding same_text
same_text-eq_name k m a b xs ys s t f =
    let (d, r, i) = strcmp_correct k m a b xs ys s t f in
    let (z, z') = zero_iff d in
    let (e, e') = eq_name_iff xs ys in
    rw (r, same_tests (eq_ℤ d (pos 0)) (eq_name xs ys) ((λ h. e' (i.0 (z h))), λ h. z' (i.1 (e h))))
      refl

-- A symbol's name and value.
abbrev pub Entry : Type 0
Entry = List ℕ × ℕ

-- From number `si` on, the symbol table holds these symbols.
abbrev pub IsTable : Memory → (strtab symtab si : ℕ) → List Entry → Type 0
IsTable m strtab symtab si [] = Unit
IsTable m strtab symtab si ((name, value) ∷ rest) =
    IsString m (u32 (strtab + (sym_at m (u32 (symtab + 24 * si))).st_name)) name
    × ((sym_at m (u32 (symtab + 24 * si))).st_value ≡ value)
    × IsTable m strtab symtab (si + 1) rest

-- What is kept of the value of the last symbol with a name, and a default where there is none.
abbrev pub last_value : (keep : ℕ → ℕ) (name : List ℕ) → List Entry → (default : ℕ) → ℕ
last_value keep name [] default = default
last_value keep name ((other, value) ∷ rest) default =
    last_value keep name rest (if eq_name name other then keep value else default)

-- The names of the literals.
pub record AreNamed (m : Memory) (l : Literals) (size pages pt : List ℕ) (fuel : ℕ) : Type 0 where
  pub size_text : IsString m l.window_size size
  pub pages_text : IsString m l.window_pages pages
  pub pt_text : IsString m l.window_pt pt
  pub enough : (length size < fuel) × (length pages < fuel) × (length pt < fuel)

-- What a table holds of the three names.
abbrev pub values : (size pages pt : List ℕ) → List Entry → Symbols → Symbols
values size pages pt ys v = record {
  window_size = last_value u32 size ys v.window_size;
  window_pages = last_value (λ n. n) pages ys v.window_pages;
  window_pt = last_value (λ n. n) pt ys v.window_pt;
}

module _ (fuel : ℕ) (m : Memory) (l : Literals) (size pages pt : List ℕ)
    (named : AreNamed m l size pages pt fuel) where
  see_symbol_lem :
      (strtab : ℕ) (y : Elf64Sym) (name : List ℕ) (v : Symbols)
      → IsString m (u32 (strtab + y.st_name)) name
      → see_symbol fuel l m strtab y v
        ≡ ok (record {
          window_size = if eq_name size name then u32 y.st_value else v.window_size;
          window_pages = if eq_name pages name then y.st_value else v.window_pages;
          window_pt = if eq_name pt name then y.st_value else v.window_pt;
        })
  unfolding see_symbol
  see_symbol_lem strtab y name v text =
      let at = u32 (strtab + y.st_name) in
      rw (
        same_text-eq_name fuel m l.window_size at size name named.size_text text named.enough.0,
        same_text-eq_name fuel m l.window_pages at pages name named.pages_text text named.enough.1,
        same_text-eq_name fuel m l.window_pt at pt name named.pt_text text named.enough.2,
      )

  find_symbols_lem :
      (strtab symtab si : ℕ) (ys : List Entry) (v : Symbols)
      → IsTable m strtab symtab si ys
      → find_symbols (length ys) fuel l m strtab symtab si v ≡ ok (values size pages pt ys v)
  unfolding find_symbols
  find_symbols_lem strtab symtab si [] v table = refl
  find_symbols_lem strtab symtab si ((name, value) ∷ ys) v (text, same, table) =
      rw (see_symbol_lem strtab (sym_at m (u32 (symtab + 24 * si))) name v text, same)
        (find_symbols_lem strtab symtab (si + 1) ys _ table)

abbrev pub no_symbols : Symbols
no_symbols = record { window_size = 0; window_pages = 0; window_pt = 0 }

-- With a symbol table and its names at hand, `load_kernel` goes on with the values of the last
-- symbols that are named as the three literals, and with 0 for a name that no symbol has. A window
-- size is kept modulo 2 ^ 32. Symbol 0 is passed over.
pub read_symbols_correct :
    (fuel : ℕ) (l : Literals) (size pages pt : List ℕ) (t : Sections) (s : Loader) (ys : List Entry)
    → AreNamed s.memory l size pages pt fuel
    → t.strtab ≢ 0
    → t.symtab ≢ 0
    → t.symtab_size ≡ suc (length ys)
    → IsTable s.memory t.strtab t.symtab 1 ys
    → read_symbols fuel l t s ≡ install_window (values size pages pt ys no_symbols) s
unfolding read_symbols
read_symbols_correct fuel l size pages pt t s ys named p q n table =
    let count : t.symtab_size - 1 ≡ length ys = omega arith in
    let has_strtab : (t.strtab == 0) ≡ false = ground arith in
    let has_symtab : (t.symtab == 0) ≡ false = ground arith in
    if-false _ _ (t.strtab == 0) has_strtab
    ∙ if-false _ _ (t.symtab == 0) has_symtab
    ∙ ap
        (λ (n : ℕ).
          find_symbols n fuel l s.memory t.strtab t.symtab 1 no_symbols
          >>= (λ v. install_window v s))
        count
    ∙ ap (λ (r : Run Symbols). r >>= (λ v. install_window v s))
        (find_symbols_lem fuel s.memory l size pages pt named t.strtab t.symtab 1 ys no_symbols
          table)
