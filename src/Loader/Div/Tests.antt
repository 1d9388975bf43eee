-- ===== src/Loader/Div/Tests.antt =====
-- Runs of the division routines of src/loader/divdi3.c, and their theorems at concrete words.
use beaveros.Base.{◌-◌, ◌^◌, ◌≡◌, refl, ℕ, some, arith}
use beaveros.Base.Int.{negsuc, signed64}
use beaveros.Loader.Div.{udivmoddi4, divdi3, moddi3}
use beaveros.Loader.Div.Unsigned.{udivmoddi4_correct}
use beaveros.Loader.Div.Signed.{divdi3_correct}

abbrev minus_seven : ℕ
minus_seven = 2 ^ 64 - 7

abbrev minus_two : ℕ
minus_two = 2 ^ 64 - 2

divide_run : udivmoddi4 1000 7 ≡ some (142, 6)
unfolding udivmoddi4
divide_run = refl

divdi3_run : divdi3 minus_seven 2 ≡ some (2 ^ 64 - 3)
unfolding divdi3
divdi3_run = refl

-- -7 % -2 is -1 in C.
moddi3_run : moddi3 minus_seven minus_two ≡ some 1
unfolding moddi3
moddi3_run = refl

udivmoddi4_correct_example : udivmoddi4 1000 7 ≡ some (142, 6)
udivmoddi4_correct_example = udivmoddi4_correct 1000 7 (omega arith) (omega arith) (omega arith)

divdi3_correct_example : (v : ℕ) × (divdi3 minus_seven 2 ≡ some v) × (signed64 v ≡ negsuc 2)
divdi3_correct_example =
    divdi3_correct minus_seven 2 (omega arith) (omega arith) (omega arith) (omega arith)
