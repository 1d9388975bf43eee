-- ===== src/Loader/Div.antt =====
-- The 64-bit division routines that the 32-bit loader links, src/loader/divdi3.c. A word is a
-- number below 2 ^ 64; a signed argument or result is its two's complement pattern. Each `while`
-- runs on fuel, and `none` means that the fuel ran out.
pub mod Unsigned
pub mod Signed
mod Tests
use beaveros.Base.{
  ℕ, zero, suc, ◌+◌, ◌-◌, ◌*◌, ◌/◌, Bool, false, not, Option, none, some, leb, ◌==◌, if◌then◌else◌,
  u64, neg64,
}
use beaveros.Base.Int.{signed64, is_neg}

infixl 5 ◌>>=◌
abbrev ◌>>=◌ : {A B : Type 0} → Option A → (A → Option B) → Option B
none >>= f = none
some a >>= f = f a

-- `while ((int64_t) den >= 0) { den <<= 1; qbit <<= 1; }`
unfoldable pub align : ℕ → (den qbit : ℕ) → Option (ℕ × ℕ)
align zero den qbit = none
align (suc k) den qbit =
    let rest = align k (u64 (den * 2)) (u64 (qbit * 2)) in
    if not (is_neg (signed64 den)) then rest else some (den, qbit)

-- `while (qbit) { ... }`; the result is the quotient and the remainder.
unfoldable pub subtract_loop : ℕ → (num den quot qbit : ℕ) → Option (ℕ × ℕ)
subtract_loop zero num den quot qbit = none
subtract_loop (suc k) num den quot qbit =
    let fits = leb den num in
    let rest =
      subtract_loop k (if fits then num - den else num) (den / 2)
        (if fits then u64 (quot + qbit) else quot) (qbit / 2) in
    if qbit == 0 then some (quot, num) else rest

-- Rounds that suffice for each of the loops on 64-bit words.
abbrev pub rounds : ℕ
rounds = 65

unfoldable pub udivmoddi4 : (num den : ℕ) → Option (ℕ × ℕ)
unfolding align subtract_loop
udivmoddi4 num den = do (den', qbit) ← align rounds den 1; subtract_loop rounds num den' 0 qbit

-- `if (x < 0) x = -x;` of the signed routines, and `neg ^= 1` beside it.
unfoldable pub magnitude : ℕ → ℕ
magnitude x = if is_neg (signed64 x) then neg64 x else x

unfoldable pub toggle : ℕ → Bool → Bool
toggle x neg = if is_neg (signed64 x) then not neg else neg

unfoldable pub divdi3 : (num den : ℕ) → Option ℕ
unfolding udivmoddi4 magnitude toggle
divdi3 num den = do
  (v, _) ← udivmoddi4 (magnitude num) (magnitude den)
  some (if toggle den (toggle num false) then neg64 v else v)

unfoldable pub moddi3 : (num den : ℕ) → Option ℕ
unfolding udivmoddi4 magnitude toggle
moddi3 num den = do
  (_, v) ← udivmoddi4 (magnitude num) (magnitude den)
  some (if toggle den (toggle num false) then neg64 v else v)

unfoldable pub udivdi3 : (num den : ℕ) → Option ℕ
unfolding udivmoddi4
udivdi3 num den = do (v, _) ← udivmoddi4 num den; some v

unfoldable pub umoddi3 : (num den : ℕ) → Option ℕ
unfolding udivmoddi4
umoddi3 num den = do (_, v) ← udivmoddi4 num den; some v
