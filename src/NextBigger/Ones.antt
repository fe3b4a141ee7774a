-- ===== src/NextBigger/Ones.antt =====
-- How many ones a number has in binary.
use native.Mathlib.Nat.{pow-succ', one-le-pow}
use chunxiao_code.Prelude.{
  ℕ, zero, suc, ◌+◌, ◌-◌, ◌*◌, ◌/◌, ◌%◌, ◌^◌, ◌≤◌, ◌<◌, ◌≡◌, refl, ap, ◌∙◌, arith, dec_lt,
}
use chunxiao_code.NextBigger.Digits.{twice}

-- The ones of the lowest n digits.
abbrev ones_below : ℕ → ℕ → ℕ
ones_below zero x = 0
ones_below (suc n) x = x % 2 + ones_below n (x / 2)

-- A number has no more digits than itself.
unfoldable pub ones : ℕ → ℕ
ones x = ones_below x x

no_ones : ones 0 ≡ 0
unfolding ones
no_ones = refl

ones_below_enough : (n m x : ℕ) → x ≤ n → x ≤ m → ones_below n x ≡ ones_below m x
ones_below_enough zero zero x h h' = refl
ones_below_enough zero (suc m) x h h' =
    omega (arith, ones_below_enough zero m (x / 2) (omega arith) (omega arith))
ones_below_enough (suc n) zero x h h' =
    omega (arith, ones_below_enough n zero (x / 2) (omega arith) (omega arith))
ones_below_enough (suc n) (suc m) x h h' =
    omega (arith, ones_below_enough n m (x / 2) (omega arith) (omega arith))

pub ones-lowest : (x : ℕ) → ones x ≡ x % 2 + ones (x / 2)
unfolding ones
ones-lowest zero = refl
ones-lowest (suc x) =
    omega (arith, ones_below_enough x (suc x / 2) (suc x / 2) (omega arith) (omega arith))

pub ones-fields : (k a r : ℕ) → r < 2 ^ k → ones (a * 2 ^ k + r) ≡ ones a + ones r
ones-fields zero a r h =
    let e : a * 2 ^ 0 + r ≡ a = omega (arith, h) in
    let e' : r ≡ 0 = omega (arith, h) in ap ones e ∙ omega (arith, ap ones e', no_ones)
ones-fields (suc k) a r h =
    let x : ℕ = a * 2 ^ suc k + r in
    let high : x / 2 ≡ a * 2 ^ k + r / 2 = omega (arith, twice a k) in
    let low : x % 2 ≡ r % 2 = omega (arith, twice a k) in
    omega (
      arith,
      ones-lowest x,
      ap ones high,
      ones-fields k a (r / 2) (omega (arith, pow-succ' 2 k)),
      low,
      ones-lowest r,
    )

pub ones_pos : (n x : ℕ) → x ≤ n → 0 < x → 0 < ones x
ones_pos zero x h pos_x = absurd (omega arith)
ones_pos (suc n) x h pos_x = elim (dec_lt 0 (x % 2)) [
  | yes odd ↦ omega (arith, ones-lowest x, odd)
  | no even ↦ omega (arith, ones-lowest x, ones_pos n (x / 2) (omega arith) (omega (arith, even)))
]

pub ones-le : (j x : ℕ) → x < 2 ^ j → ones x ≤ j
ones-le zero x h = let e : x ≡ 0 = omega arith in omega (arith, ap ones e, no_ones)
ones-le (suc j) x h = omega (arith, ones-lowest x, ones-le j (x / 2) (omega (arith, pow-succ' 2 j)))

-- All ones, and fewer.
pub ones-full : (j : ℕ) → ones (2 ^ j - 1) ≡ j
ones-full zero = no_ones
ones-full (suc j) =
    let x : ℕ = 2 ^ suc j - 1 in
    let pos_j = one-le-pow j 2 (omega arith) in
    let high : x / 2 ≡ 2 ^ j - 1 = omega (arith, pow-succ' 2 j, pos_j) in
    omega (arith, ones-lowest x, ap ones high, ones-full j, pow-succ' 2 j, pos_j)

pub ones-lt : (j x : ℕ) → x + 1 < 2 ^ j → ones x < j
ones-lt zero x h = absurd (omega arith)
ones-lt (suc j) x h = elim (dec_lt (x / 2 + 1) (2 ^ j)) [
  | yes less ↦ omega (arith, ones-lowest x, ones-lt j (x / 2) less)
  | no more ↦
      omega (
        arith,
        ones-lowest x,
        ones-le j (x / 2) (omega (arith, pow-succ' 2 j)),
        pow-succ' 2 j,
        more,
      )
]
