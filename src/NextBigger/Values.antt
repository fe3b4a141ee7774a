-- ===== src/NextBigger/Values.antt =====
-- The two functions of next_bigger.c on a number with a block of ones.
use Prim.Native.Nat.{bit_and, bit_or, bit_xor}
use native.Mathlib.Nat.{add-mul, lt_of_mul-lt-mul_right}
use chunxiao_code.Prelude.{
  ℕ, suc, ◌+◌, ◌-◌, ◌*◌, ◌/◌, ◌%◌, ◌^◌, ◌≤◌, ◌<◌, ◌≡◌, refl, ap, ◌∙◌, some, false, ◌==◌, arith,
}
use chunxiao_code.NextBigger.Shape.{
  block, shape, raised, next_shape, power_pos, shape-raised, power_split, raised_field, right_small,
  lowest_one, lowest_one_back, pattern, pattern_back, or_right,
}
use chunxiao_code.NextBigger.{snoob, next_greater}

snoob_by :
    (x t h p : ℕ)
    → (x == 0) ≡ false
    → bit_and x ((2 ^ 32 - x) % 2 ^ 32) ≡ t
    → (x + t) % 2 ^ 32 ≡ h
    → bit_xor x h / t / 4 ≡ p
    → snoob x ≡ bit_or h p
unfolding snoob
snoob_by x t h p ne e₁ e₂ e₃ = rw (ne, e₁, e₂, e₃) refl

next_greater_by :
    (n a t x y : ℕ)
    → (2 ^ 32 - 1 - n + 1) % 2 ^ 32 ≡ a
    → bit_and a n ≡ t
    → (t == 0) ≡ false
    → (n + t) % 2 ^ 32 ≡ x
    → bit_xor x n / t / 4 ≡ y
    → next_greater n ≡ some ((x + y) % 2 ^ 32)
unfolding next_greater
next_greater_by n a t x y e₁ e₂ ne e₃ e₄ = rw (e₁, e₂, ne, e₃, e₄) refl

pub shape_pos : (hi m k : ℕ) → 2 ^ k ≤ shape hi m k
shape_pos hi m k =
    let b : ℕ = block hi m - 1 in
    let e : block hi m ≡ b + 1 = omega (arith, power_pos m) in
    let p : shape hi m k ≡ (b + 1) * 2 ^ k = ap (λ n. n * 2 ^ k) e in
    omega (arith, p, add-mul b 1 (2 ^ k))

module _ (hi m k : ℕ) (fits : raised hi m k < 2 ^ 32) where
  pub shape_below : shape hi m k < 2 ^ 32
  shape_below = omega (arith, fits, shape-raised hi m k)

  sum_below : (shape hi m k + 2 ^ k) % 2 ^ 32 ≡ raised hi m k
  sum_below = omega (arith, fits, shape-raised hi m k)

  -- The result does not leave 32 bits.
  pub next_below : next_shape hi m k < 2 ^ 32
  next_below =
      let field = raised_field hi m k fits in
      let whole : (hi * 2 + 1) * 2 ^ (suc m + k) ≡ hi * 2 * 2 ^ (suc m + k) + 1 * 2 ^ (suc m + k) =
        add-mul (hi * 2) 1 (2 ^ (suc m + k)) in
      let (j, e) = power_split (suc m + k) (omega (arith, fits, field, whole)) in
      let less : hi * 2 + 1 < 2 ^ suc j =
        lt_of_mul-lt-mul_right (2 ^ (suc m + k)) (omega (arith, fits, field, e)) in
      let d : ℕ = 2 ^ suc j - (hi * 2 + 2) in
      let sum : 2 ^ suc j ≡ hi * 2 + 1 + 1 + d = omega (arith, less) in
      let product : 2 ^ suc j * 2 ^ (suc m + k) ≡ (hi * 2 + 1 + 1 + d) * 2 ^ (suc m + k) =
        ap (λ n. n * 2 ^ (suc m + k)) sum in
      omega (
        arith,
        e,
        product,
        add-mul (hi * 2 + 1 + 1) d (2 ^ (suc m + k)),
        add-mul (hi * 2 + 1) 1 (2 ^ (suc m + k)),
        field,
        right_small hi m k fits,
      )

  pub snoob-shape : snoob (shape hi m k) ≡ next_shape hi m k
  snoob-shape =
      let x = shape hi m k in
      let big : 1 ≤ shape hi m k = omega (arith, power_pos k, shape_pos hi m k) in
      let minus : (2 ^ 32 - shape hi m k) % 2 ^ 32 ≡ 2 ^ 32 - shape hi m k = omega (arith, big) in
      snoob_by (shape hi m k) (2 ^ k) (raised hi m k) (2 ^ m - 1) (ground (arith, big))
        (ap (bit_and (shape hi m k)) minus ∙ lowest_one hi m k fits) sum_below (pattern hi m k fits)
      ∙ or_right hi m k fits

  pub next_greater-shape : next_greater (shape hi m k) ≡ some (next_shape hi m k)
  next_greater-shape =
      let big : 1 ≤ shape hi m k = omega (arith, power_pos k, shape_pos hi m k) in
      next_greater_by (shape hi m k) (2 ^ 32 - shape hi m k) (2 ^ k) (raised hi m k) (2 ^ m - 1)
        (omega (arith, big, shape_below)) (lowest_one_back hi m k fits)
        (ground (arith, power_pos k)) sum_below (pattern_back hi m k fits)
      ∙ ap some (omega (arith, next_below))
