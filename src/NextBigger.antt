-- ===== src/NextBigger.antt =====
-- c-study/leetcode/next_bigger.c: the next number with as many ones in binary. A `uint32_t` wraps at 2 ^ 32;
-- what the second function prints is left out.
pub mod Digits
pub mod Ones
pub mod Shape
pub mod Values
pub mod Next
mod Tests
use Prim.Native.Nat.{bit_and, bit_or, bit_xor}
use chunxiao_code.Prelude.{ℕ, ◌+◌, ◌-◌, ◌/◌, ◌%◌, ◌^◌, Option, none, some, ◌==◌, if◌then◌else◌}

-- `snoob`; `-(signed)x` as an unsigned number.
unfoldable pub snoob : ℕ → ℕ
snoob x =
    if x == 0
    then 0
    else (let right_one = bit_and x ((2 ^ 32 - x) % 2 ^ 32) in
        let next_higher_one_bit = (x + right_one) % 2 ^ 32 in
        let right_ones_pattern = bit_xor x next_higher_one_bit / right_one / 4 in
        bit_or next_higher_one_bit right_ones_pattern)

-- `next_greater`; `none` is the division by zero, where no bit is set.
unfoldable pub next_greater : ℕ → Option ℕ
next_greater n =
    let a = (2 ^ 32 - 1 - n + 1) % 2 ^ 32 in
    let t = bit_and a n in
    let x = (n + t) % 2 ^ 32 in
    let y = bit_xor x n / t / 4 in if t == 0 then none else some ((x + y) % 2 ^ 32)
