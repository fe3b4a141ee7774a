-- ===== src/Happy/Tests.antt =====
-- The result for some numbers, and the theorem at one of them.
use native.Mathlib.Nat.{pow-succ'}
use chunxiao_code.Prelude.{ℕ, zero, suc, ◌+◌, ◌^◌, ◌≡◌, ◌≢◌, refl, none, some, arith}
use chunxiao_code.Happy.{add_squares, count_digits, search_one, Outcome, returned, happy}
use chunxiao_code.Happy.Orbit.{Answers}
use chunxiao_code.Happy.Bounds.{happy-Decides}

happy-of_145 : happy 145 ≡ some (returned 0)
unfolding happy search_one add_squares count_digits
happy-of_145 = refl

happy-of_130 : happy 130 ≡ some (returned 1)
unfolding happy search_one add_squares count_digits
happy-of_130 = refl

-- The number of `main`: the sum 145 has no cell in an array of 81.
happy-of_2 : happy 2 ≡ none
unfolding happy search_one add_squares count_digits
happy-of_2 = refl

-- The first sum is 243, and there are as many cells.
happy-of_999 : happy 999 ≡ none
unfolding happy search_one add_squares count_digits
happy-of_999 = refl

no_power : (k : ℕ) → 145 + 1 ≢ 10 ^ k
no_power zero e = absurd (omega arith)
no_power (suc k) e = absurd (omega (arith, pow-succ' 10 k))

happy-Decides_example : (r : Outcome) × (happy 145 ≡ some r) × Answers 145 r
happy-Decides_example = happy-Decides 145 (omega arith) no_power
