-- ===== src/NextBigger/Tests.antt =====
-- The calls of `main` in next_bigger.c, the ends of the range, and the theorem at a number.
use chunxiao_code.Prelude.{ℕ, ◌≡◌, refl, some, none, arith}
use chunxiao_code.NextBigger.{snoob, next_greater}
use chunxiao_code.NextBigger.Ones.{ones}
use chunxiao_code.NextBigger.Next.{Next, results-Next}

snoob-of_main : snoob 156 ≡ 163
unfolding snoob
snoob-of_main = refl

next_greater-of_main : next_greater 12 ≡ some 17
unfolding next_greater
next_greater-of_main = refl

-- No greater number of 32 bits has two ones: the sum wraps.
snoob-of_last : snoob 0xc0000000 ≡ 0
unfolding snoob
snoob-of_last = refl

next_greater-of_zero : next_greater 0 ≡ none
unfolding next_greater
next_greater-of_zero = refl

results-Next_example : (r : ℕ) × (snoob 46 ≡ r) × (next_greater 46 ≡ some r) × Next 46 r
unfolding ones
results-Next_example = results-Next 46 51 (omega arith) (omega arith) (omega arith) refl
