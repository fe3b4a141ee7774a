-- ===== src/Happy.antt =====
-- c-study/leetcode/happy_num.c: is a number happy? The sums of the squares of the digits are marked in an
-- array, and a sum that is marked already ends the search. Numbers are not negative, and malloc
-- succeeds; an access outside the array is a fault, `none`.
pub mod Orbit
pub mod Bounds
mod Tests
use chunxiao_code.Prelude.{
  ℕ, zero, suc, ◌+◌, ◌*◌, ◌/◌, ◌%◌, List, Option, none, some, Bool, true, false, ◌==◌, get_elem?,
  set, replicate,
}
use chunxiao_code.Prelude.Fault.{◌>>=◌}

-- The loop that counts the digits.
unfoldable pub count_digits : ℕ → ℕ → ℕ → ℕ
count_digits zero b digits = digits
count_digits (suc f) b digits = elim (b == 0) [
  | true ↦ digits
  | false ↦ count_digits f (b / 10) (digits + 1)
]

-- The loop that adds the squares.
unfoldable pub add_squares : ℕ → ℕ → ℕ → ℕ
add_squares zero b sum = sum
add_squares (suc f) b sum = elim (b == 0) [
  | true ↦ sum
  | false ↦ add_squares f (b / 10) (sum + (b % 10) * (b % 10))
]

-- What `happy` comes to: its result, or no more fuel.
pub data Outcome : Type 0 where
  returned : ℕ → Outcome
  stuck : Outcome

-- `while (1)`
unfoldable pub search_one : ℕ → List ℕ → ℕ → Option Outcome
unfolding add_squares
search_one zero p a = some stuck
search_one (suc f) p a =
    let sum = add_squares a a 0 in
    elim (sum == 1) [
      | true ↦ some (returned 1)
      | false ↦ get_elem? p sum >>= λ c. elim (1 == c) [
        | true ↦ some (returned 0)
        | false ↦ search_one f (set p sum 1) sum
      ]
    ]

-- `happy`. A cell is marked in each round, so that one round more than there are cells is enough.
unfoldable pub happy : ℕ → Option Outcome
happy num = let size = count_digits num num 0 * 81 in search_one (suc size) (replicate size 0) num
