-- ===== src/Io/Ocdev.antt =====
-- src/include/io/ocdev.h: an output device, by its functions on its state. A string is the list of
-- its bytes, and `putns` gets the bytes that its length leaves. The laws are what printf relies on.
use beaveros.Base.{ℕ, ◌≡◌, List, [], ◌∷◌, length}

-- A character after the other.
abbrev pub put_all {ℓ} : {S : Type ℓ} → (ℕ → S → S) → List ℕ → S → S
put_all putc [] s = s
put_all putc (c ∷ cs) s = put_all putc cs (putc c s)

pub record Ocdev (S : Type 0) : Type 0 where
  pub putc : ℕ → S → S
  pub puts : List ℕ → S → ℕ × S
  pub putns : List ℕ → S → ℕ × S
  pub puts_lem : (str : List ℕ) (s : S) → puts str s ≡ (length str, put_all putc str s)
  pub putns_lem : (str : List ℕ) (s : S) → putns str s ≡ (length str, put_all putc str s)
