-- ===== src/Io/Printf/Emitted.antt =====
-- What the printers of src/io/printf.c give to the device, as one list of bytes.
use beaveros.Base.{
  ℕ, zero, suc, ◌+◌, ◌-◌, ◌≡◌, refl, ap, ◌∙◌, arith, Bool, true, false, Bool-cases, List, [], ◌∷◌,
  ◌++◌, length, length-append, ◌==◌, if◌then◌else◌, inl, inr,
}
use beaveros.Io.Ocdev.{Ocdev, put_all}
use beaveros.Io.Printf.Integer.{repeat_putc, put_field, max}

abbrev pub replicate : ℕ → ℕ → List ℕ
replicate zero c = []
replicate (suc n) c = c ∷ replicate n c

pub length-replicate : (n c : ℕ) → length (replicate n c) ≡ n
length-replicate zero c = refl
length-replicate (suc n) c = ap suc (length-replicate n c)

pub put_all-append {ℓ} :
    {S : Type ℓ} (putc : ℕ → S → S) (xs ys : List ℕ) (st : S)
    → put_all putc (xs ++ ys) st ≡ put_all putc ys (put_all putc xs st)
put_all-append putc [] ys st = refl
put_all-append putc (x ∷ xs) ys st = put_all-append putc xs ys (putc x st)

pub repeat_putc_lem :
    {S : Type 0} (dev : Ocdev S) (n c : ℕ) (st : S)
    → repeat_putc dev n c st ≡ put_all dev.putc (replicate n c) st
unfolding repeat_putc
repeat_putc_lem dev zero c st = refl
repeat_putc_lem dev (suc n) c st = repeat_putc_lem dev n c (dev.putc c st)

abbrev pub sign : ℕ → List ℕ
sign c = if c == 0 then [] else c ∷ []

-- The number between the paddings.
abbrev pub body : (precision sign_c : ℕ) (pre buf : List ℕ) → List ℕ
body precision sign_c pre buf =
    sign sign_c ++ (pre ++ (replicate (precision - length buf) b'0' ++ buf))

-- The body, padded on the side that the flag `-` says.
abbrev pub padded : (width padder : ℕ) → (minus : Bool) → List ℕ → List ℕ
padded width padder true xs = xs ++ replicate (width - length xs) b' '
padded width padder false xs = replicate (width - length xs) padder ++ xs

pub length-padded :
    (width padder : ℕ) (minus : Bool) (xs : List ℕ)
    → length (padded width padder minus xs) ≡ max width (length xs)
length-padded width padder true xs = ground (
  arith,
  length-append xs (replicate (width - length xs) b' '),
  length-replicate (width - length xs) b' ',
)
length-padded width padder false xs = ground (
  arith,
  length-append (replicate (width - length xs) padder) xs,
  length-replicate (width - length xs) padder,
)

length-body :
    (precision c : ℕ) (pre buf : List ℕ)
    → length (body precision c pre buf)
      ≡ (if c == 0 then 0 else 1) + max precision (length buf) + length pre
length-body precision c pre buf =
    let zeros = replicate (precision - length buf) b'0' in
    ground (
      arith,
      length-append (sign c) (pre ++ (zeros ++ buf)),
      length-append pre (zeros ++ buf),
      length-append zeros buf,
      length-replicate (precision - length buf) b'0',
    )

put-sign :
    {S : Type 0} (dev : Ocdev S) (c : ℕ) (st : S)
    → (if c == 0 then st else dev.putc c st) ≡ put_all dev.putc (sign c) st
put-sign dev c st = elim (Bool-cases (c == 0)) [ inl z ↦ rw z refl | inr nz ↦ rw nz refl ]

put-body :
    {S : Type 0} (dev : Ocdev S) (precision c : ℕ) (pre buf : List ℕ) (st : S)
    → let st2 = if c == 0 then st else dev.putc c st in
      (dev.puts buf (repeat_putc dev (precision - length buf) b'0' (dev.putns pre st2).1)).1
      ≡ put_all dev.putc (body precision c pre buf) st
put-body dev precision c pre buf st =
    simp (put_all-append, repeat_putc_lem, dev.puts_lem, dev.putns_lem, put-sign)

pair : {A B : Type 0} {a a' : A} {b b' : B} → a ≡ a' → b ≡ b' → ◌≡◌ {A = A × B} (a, b) (a', b')
pair p q = λ i. (p i, q i)

pub put_field_lem :
    {S : Type 0} (dev : Ocdev S) (width precision padder : ℕ) (minus : Bool) (c : ℕ)
    (pre buf : List ℕ) (st : S)
    → let out = padded width padder minus (body precision c pre buf) in
      put_field dev width precision padder minus c pre buf st
      ≡ (length out, put_all dev.putc out st)
unfolding put_field
put_field_lem dev width precision padder true c pre buf st =
    let all = body precision c pre buf in
    let size = length-body precision c pre buf in
    let pad = width - ((if c == 0 then 0 else 1) + max precision (length buf) + length pre) in
    pair (rw (dev.puts_lem) (ground (arith, size, length-padded width padder true all))) (
      repeat_putc_lem dev pad b' ' _
      ∙ ap (put_all dev.putc (replicate pad b' ')) (put-body dev precision c pre buf st)
      ∙ simp (put_all-append, size))
put_field_lem dev width precision padder false c pre buf st =
    let all = body precision c pre buf in
    let size = length-body precision c pre buf in
    let pad = width - ((if c == 0 then 0 else 1) + max precision (length buf) + length pre) in
    pair (rw (dev.puts_lem) (ground (arith, size, length-padded width padder false all))) (
      put-body dev precision c pre buf (repeat_putc dev pad padder st)
      ∙ simp (put_all-append, repeat_putc_lem, size))
