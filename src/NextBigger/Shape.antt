-- ===== src/NextBigger/Shape.antt =====
-- What the two functions of next_bigger.c make of a number with a block of ones.
use Prim.Native.Nat.{bit_and, bit_or, bit_xor}
use mathlib.Core.Path.{ap₂}
use native.Mathlib.Nat.{
  pow-succ', pow-le-pow_right, one-le-pow, add-mul, mul_assoc, mul-div_cancel,
  lt_of_mul-lt-mul_right,
}
use chunxiao_code.Prelude.{
  ℕ, zero, suc, ◌+◌, ◌-◌, ◌*◌, ◌/◌, ◌%◌, ◌^◌, ◌≤◌, ◌<◌, ◌≡◌, refl, ap, sym, ◌∙◌, arith, dec_lt,
}
use chunxiao_code.NextBigger.Digits.{
  twice, and_fields, or_fields, xor_fields, or_zero, xor_zero, xor_same, zero_xor, zero_or,
  and_complement,
}

-- A multiple of 2 ^ k.
fields_up :
    (op : ℕ → ℕ → ℕ) (k a b : ℕ) → op (a * 2 ^ k + 0) (b * 2 ^ k + 0) ≡ op (a * 2 ^ k) (b * 2 ^ k)
fields_up op k a b = ap₂ op (omega arith) (omega arith)

-- The lowest one of an odd number.
and_odd : (j o : ℕ) → o < 2 ^ suc j → o % 2 ≡ 1 → bit_and o (2 ^ suc j - o) ≡ 1
and_odd j o small odd =
    let q : ℕ = o / 2 in
    let qs : q < 2 ^ j = omega (arith, pow-succ' 2 j) in
    let p : ℕ = 2 ^ j - 1 - q in
    let eo : o ≡ q * 2 ^ 1 + 1 = omega arith in
    let ep : 2 ^ suc j - o ≡ p * 2 ^ 1 + 1 = omega (arith, pow-succ' 2 j) in
    let one : bit_and 1 1 ≡ 1 = refl in
    ap₂ bit_and eo ep
    ∙ and_fields 1 q p 1 1 (omega arith) (omega arith)
    ∙ omega (arith, and_complement j q qs, one)

and_odd_back : (j o : ℕ) → o < 2 ^ suc j → o % 2 ≡ 1 → bit_and (2 ^ suc j - o) o ≡ 1
and_odd_back j o small odd =
    let o' : ℕ = 2 ^ suc j - o in
    let back : o ≡ 2 ^ suc j - o' = omega arith in
    ap (bit_and o') back ∙ and_odd j o' (omega arith) (omega (arith, pow-succ' 2 j))

-- m + 1 ones behind a zero, and what stands in front.
abbrev pub block : ℕ → ℕ → ℕ
block hi m = hi * 2 * 2 ^ suc m + (2 ^ suc m - 1)

-- The same with k zeros behind.
abbrev pub shape : ℕ → ℕ → ℕ → ℕ
shape hi m k = block hi m * 2 ^ k

-- The zero has become a one, and the block is gone.
abbrev pub raised : ℕ → ℕ → ℕ → ℕ
raised hi m k = (hi * 2 + 1) * 2 ^ suc m * 2 ^ k

-- All ones of the block but one are at the right.
abbrev pub next_shape : ℕ → ℕ → ℕ → ℕ
next_shape hi m k = raised hi m k + (2 ^ m - 1)

pub power_pos : (k : ℕ) → 1 ≤ 2 ^ k
power_pos k = one-le-pow k 2 (omega arith)

pub block-suc : (hi m : ℕ) → block hi m + 1 ≡ (hi * 2 + 1) * 2 ^ suc m
block-suc hi m = omega (arith, add-mul (hi * 2) 1 (2 ^ suc m), power_pos (suc m))

block_odd : (hi m : ℕ) → block hi m % 2 ≡ 1
block_odd hi m = omega (arith, twice (hi * 2) m, pow-succ' 2 m, power_pos m)

pub shape-raised : (hi m k : ℕ) → shape hi m k + 2 ^ k ≡ raised hi m k
shape-raised hi m k =
    omega (arith, add-mul (block hi m) 1 (2 ^ k)) ∙ ap (λ n. n * 2 ^ k) (block-suc hi m)

-- Both orders of the arguments, as a field of width m + 1 behind one of width 1.
xor_block : (hi m : ℕ) → bit_xor (block hi m) (block hi m + 1) ≡ 2 ^ suc (suc m) - 1
xor_block hi m =
    let e₀ : hi * 2 ≡ hi * 2 ^ 1 + 0 = omega arith in
    let e₁ : hi * 2 + 1 ≡ hi * 2 ^ 1 + 1 = omega arith in
    let one : bit_xor 0 1 ≡ 1 = refl in
    let top : bit_xor (hi * 2) (hi * 2 + 1) ≡ 1 =
      ap₂ bit_xor e₀ e₁
      ∙ xor_fields 1 hi hi 0 1 (omega arith) (omega arith)
      ∙ omega (arith, xor_same hi, one) in
    let e : block hi m + 1 ≡ (hi * 2 + 1) * 2 ^ suc m + 0 = omega (arith, block-suc hi m) in
    ap (bit_xor (block hi m)) e
    ∙ xor_fields (suc m) (hi * 2) (hi * 2 + 1) (2 ^ suc m - 1) 0 (omega (arith, power_pos (suc m)))
        (power_pos (suc m))
    ∙ ap (λ t. t * 2 ^ suc m + bit_xor (2 ^ suc m - 1) 0) top
    ∙ omega (arith, xor_zero (2 ^ suc m - 1), pow-succ' 2 (suc m), power_pos (suc m))

xor_block_back : (hi m : ℕ) → bit_xor (block hi m + 1) (block hi m) ≡ 2 ^ suc (suc m) - 1
xor_block_back hi m =
    let e₀ : hi * 2 ≡ hi * 2 ^ 1 + 0 = omega arith in
    let e₁ : hi * 2 + 1 ≡ hi * 2 ^ 1 + 1 = omega arith in
    let one : bit_xor 1 0 ≡ 1 = refl in
    let top : bit_xor (hi * 2 + 1) (hi * 2) ≡ 1 =
      ap₂ bit_xor e₁ e₀
      ∙ xor_fields 1 hi hi 1 0 (omega arith) (omega arith)
      ∙ omega (arith, xor_same hi, one) in
    let e : block hi m + 1 ≡ (hi * 2 + 1) * 2 ^ suc m + 0 = omega (arith, block-suc hi m) in
    let low : bit_xor 0 (2 ^ suc m - 1) ≡ 2 ^ suc m - 1 = zero_xor (2 ^ suc m - 1) in
    ap (λ n. bit_xor n (block hi m)) e
    ∙ xor_fields (suc m) (hi * 2 + 1) (hi * 2) 0 (2 ^ suc m - 1) (power_pos (suc m))
        (omega (arith, power_pos (suc m)))
    ∙ ap (λ t. t * 2 ^ suc m + bit_xor 0 (2 ^ suc m - 1)) top
    ∙ omega (arith, low, pow-succ' 2 (suc m), power_pos (suc m))

-- The block, moved to the right: divided by its lowest one and by 4.
pattern_left : (m k : ℕ) → (2 ^ suc (suc m) - 1) * 2 ^ k / 2 ^ k / 4 ≡ 2 ^ m - 1
pattern_left m k =
    ap (λ n. n / 4) (mul-div_cancel (2 ^ suc (suc m) - 1) (power_pos k))
    ∙ omega (arith, pow-succ' 2 (suc m), pow-succ' 2 m, power_pos m)

xor_up : (a b c k : ℕ) → bit_xor a b ≡ c → bit_xor (a * 2 ^ k) (b * 2 ^ k) ≡ c * 2 ^ k
xor_up a b c k e =
    let none_set : bit_xor 0 0 ≡ 0 = refl in
    sym (fields_up bit_xor k a b)
    ∙ xor_fields k a b 0 0 (power_pos k) (power_pos k)
    ∙ omega (arith, ap (λ n. n * 2 ^ k) e, none_set)

and_up : (a b c k : ℕ) → bit_and a b ≡ c → bit_and (a * 2 ^ k) (b * 2 ^ k) ≡ c * 2 ^ k
and_up a b c k e =
    let none_set : bit_and 0 0 ≡ 0 = refl in
    sym (fields_up bit_and k a b)
    ∙ and_fields k a b 0 0 (power_pos k) (power_pos k)
    ∙ omega (arith, ap (λ n. n * 2 ^ k) e, none_set)

pub power_product : (a b : ℕ) → 2 ^ a * 2 ^ b ≡ 2 ^ (a + b)
power_product zero b =
    let e : 2 ^ b ≡ 2 ^ (0 + b) = ap (λ n. 2 ^ n) (omega arith) in omega (arith, e)
power_product (suc a) b =
    let e : 2 ^ suc (a + b) ≡ 2 ^ (suc a + b) = ap (λ n. 2 ^ n) (omega arith) in
    let p : 2 ^ suc a * 2 ^ b ≡ 2 * 2 ^ a * 2 ^ b = ap (λ n. n * 2 ^ b) (pow-succ' 2 a) in
    omega (arith, p, mul_assoc 2 (2 ^ a) (2 ^ b), power_product a b, pow-succ' 2 (a + b), e)

-- Two powers that make 2 ^ 32.
pub power_split : (k : ℕ) → 2 ^ k < 2 ^ 32 → (j : ℕ) × (2 ^ suc j * 2 ^ k ≡ 2 ^ 32)
power_split k h = elim (dec_lt k 32) [
  | yes lt ↦ (
    31 - k,
    (let e : suc (31 - k) + k ≡ 32 = omega (arith, lt) in
        power_product (suc (31 - k)) k ∙ ap (λ n. 2 ^ n) e),
  )
  | no ge ↦ absurd (
      omega (arith, h, pow-le-pow_right {n = 2} (omega arith) {i = 32} {j = k} (omega (arith, ge))))
]

-- Where the sum of a number with a block of ones and its lowest one does not leave 32 bits.
module _ (hi m k : ℕ) (fits : raised hi m k < 2 ^ 32) where
  power_small : 2 ^ k < 2 ^ 32
  power_small = omega (arith, fits, shape-raised hi m k)

  block_below : (j : ℕ) → 2 ^ suc j * 2 ^ k ≡ 2 ^ 32 → block hi m + 1 < 2 ^ suc j
  block_below j e =
      let up : (block hi m + 1) * 2 ^ k ≡ raised hi m k = ap (λ n. n * 2 ^ k) (block-suc hi m) in
      lt_of_mul-lt-mul_right (2 ^ k) (omega (arith, fits, up, e))

  -- The negative of the number, as a multiple of its lowest one.
  negative :
      (j : ℕ)
      → 2 ^ suc j * 2 ^ k ≡ 2 ^ 32
      → 2 ^ 32 - shape hi m k ≡ (2 ^ suc j - block hi m) * 2 ^ k
  negative j e =
      let d : ℕ = 2 ^ suc j - block hi m in
      let whole : 2 ^ suc j ≡ block hi m + d = omega (arith, block_below j e) in
      let product : 2 ^ suc j * 2 ^ k ≡ (block hi m + d) * 2 ^ k = ap (λ n. n * 2 ^ k) whole in
      omega (arith, e, product, add-mul (block hi m) d (2 ^ k))

  pub lowest_one : bit_and (shape hi m k) (2 ^ 32 - shape hi m k) ≡ 2 ^ k
  lowest_one =
      let (j, e) = power_split k power_small in
      let one : bit_and (block hi m) (2 ^ suc j - block hi m) ≡ 1 =
        and_odd j (block hi m) (omega (arith, block_below j e)) (block_odd hi m) in
      ap (bit_and (shape hi m k)) (negative j e)
      ∙ and_up (block hi m) (2 ^ suc j - block hi m) 1 k one
      ∙ omega arith

  pub lowest_one_back : bit_and (2 ^ 32 - shape hi m k) (shape hi m k) ≡ 2 ^ k
  lowest_one_back =
      let (j, e) = power_split k power_small in
      let one : bit_and (2 ^ suc j - block hi m) (block hi m) ≡ 1 =
        and_odd_back j (block hi m) (omega (arith, block_below j e)) (block_odd hi m) in
      ap (λ n. bit_and n (shape hi m k)) (negative j e)
      ∙ and_up (2 ^ suc j - block hi m) (block hi m) 1 k one
      ∙ omega arith

  raised_up : raised hi m k ≡ (block hi m + 1) * 2 ^ k
  raised_up = ap (λ n. n * 2 ^ k) (sym (block-suc hi m))

  pub pattern : bit_xor (shape hi m k) (raised hi m k) / 2 ^ k / 4 ≡ 2 ^ m - 1
  pattern =
      ap (λ n. n / 2 ^ k / 4)
        (ap (bit_xor (shape hi m k)) raised_up
          ∙ xor_up (block hi m) (block hi m + 1) _ k (xor_block hi m))
      ∙ pattern_left m k

  pub pattern_back : bit_xor (raised hi m k) (shape hi m k) / 2 ^ k / 4 ≡ 2 ^ m - 1
  pattern_back =
      ap (λ n. n / 2 ^ k / 4)
        (ap (λ n. bit_xor n (shape hi m k)) raised_up
          ∙ xor_up (block hi m + 1) (block hi m) _ k (xor_block_back hi m))
      ∙ pattern_left m k

  -- The raised number ends in m + 1 + k zeros.
  pub raised_field : raised hi m k ≡ (hi * 2 + 1) * 2 ^ (suc m + k)
  raised_field =
      mul_assoc (hi * 2 + 1) (2 ^ suc m) (2 ^ k)
      ∙ ap (λ n. (hi * 2 + 1) * n) (power_product (suc m) k)

  pub right_small : 2 ^ m - 1 < 2 ^ (suc m + k)
  right_small = omega (
    arith,
    power_pos m,
    pow-le-pow_right {n = 2} (omega arith) {i = m} {j = suc m + k} (omega arith),
  )

  pub or_right : bit_or (raised hi m k) (2 ^ m - 1) ≡ next_shape hi m k
  or_right =
      let e₀ : raised hi m k ≡ (hi * 2 + 1) * 2 ^ (suc m + k) + 0 = omega (arith, raised_field) in
      let e₁ : 2 ^ m - 1 ≡ 0 * 2 ^ (suc m + k) + (2 ^ m - 1) = omega arith in
      ap₂ bit_or e₀ e₁
      ∙ or_fields (suc m + k) (hi * 2 + 1) 0 0 (2 ^ m - 1) (power_pos (suc m + k)) right_small
      ∙ ap₂ (λ a b. a * 2 ^ (suc m + k) + b) (or_zero (hi * 2 + 1)) (zero_or (2 ^ m - 1))
      ∙ omega (arith, raised_field)
