-- ===== src/NextBigger/Next.antt =====
-- The results of next_bigger.c are the next numbers with as many ones.
use mathlib.Core.Path.{subst}
use native.Mathlib.Nat.{pow-succ'}
use chunxiao_code.Prelude.{
  ℕ, zero, suc, ◌+◌, ◌-◌, ◌*◌, ◌/◌, ◌%◌, ◌^◌, ◌≤◌, ◌<◌, ◌≡◌, ◌≢◌, refl, ap, sym, some, arith,
  dec_lt,
}
use chunxiao_code.NextBigger.{snoob, next_greater}
use chunxiao_code.NextBigger.Digits.{twice}
use chunxiao_code.NextBigger.Ones.{ones, ones-lowest, ones-fields, ones_pos, ones-full, ones-lt}
use chunxiao_code.NextBigger.Shape.{
  block, shape, raised, next_shape, power_pos, shape-raised, raised_field, right_small,
}
use chunxiao_code.NextBigger.Values.{next_below, snoob-shape, next_greater-shape}

-- Every odd number ends in a block of ones.
odd-block : (n x : ℕ) → x ≤ n → x % 2 ≡ 1 → (hi : ℕ) × (m : ℕ) × (x ≡ block hi m)
odd-block zero x h odd = absurd (omega arith)
odd-block (suc n) x h odd = elim (dec_lt 0 (x / 2 % 2)) [
  | yes more ↦
      let (hi, m, e) = odd-block n (x / 2) (omega arith) (omega (arith, more)) in
      (hi, suc m, omega (arith, e, twice (hi * 2) (suc m), pow-succ' 2 (suc m), power_pos (suc m)))
  | no last ↦ (x / 2 / 2, 0, omega (arith, last))
]

-- Every number but 0 has a block of ones.
has_shape : (n x : ℕ) → x ≤ n → 0 < x → (hi : ℕ) × (m : ℕ) × (k : ℕ) × (x ≡ shape hi m k)
has_shape zero x h pos_x = absurd (omega arith)
has_shape (suc n) x h pos_x = elim (dec_lt 0 (x % 2)) [
  | yes odd ↦
      let (hi, m, e) = odd-block x x (omega arith) (omega (arith, odd)) in
      (hi, m, 0, omega (arith, e))
  | no even ↦
      let (hi, m, k, e) = has_shape n (x / 2) (omega (arith, even)) (omega (arith, even)) in
      (hi, m, suc k, omega (arith, e, even, twice (block hi m) k))
]

ones-even : (hi : ℕ) → ones (hi * 2) ≡ ones hi
ones-even hi =
    let e : hi * 2 / 2 ≡ hi = omega arith in omega (arith, ones-lowest (hi * 2), ap ones e)

ones-odd : (hi : ℕ) → ones (hi * 2 + 1) ≡ suc (ones hi)
ones-odd hi =
    let e : (hi * 2 + 1) / 2 ≡ hi = omega arith in
    omega (arith, ones-lowest (hi * 2 + 1), ap ones e)

ones-shape : (hi m k r : ℕ) → r < 2 ^ k → ones (shape hi m k + r) ≡ ones hi + suc m + ones r
ones-shape hi m k r h = omega (
  arith,
  ones-fields k (block hi m) r h,
  ones-fields (suc m) (hi * 2) (2 ^ suc m - 1) (omega (arith, power_pos (suc m))),
  ones-even hi,
  ones-full (suc m),
)

no_ones : ones 0 ≡ 0
unfolding ones
no_ones = refl

ones-of_shape : (hi m k : ℕ) → ones (shape hi m k) ≡ ones hi + suc m
ones-of_shape hi m k =
    let e : shape hi m k + 0 ≡ shape hi m k = omega arith in
    omega (arith, ones-shape hi m k 0 (power_pos k), ap ones e, no_ones)

-- A number between one with a block of ones and the raised one has more ones.
ones-between : (hi m k y : ℕ) → shape hi m k < y → y < raised hi m k → ones (shape hi m k) < ones y
ones-between hi m k y above under =
    let r : ℕ = y - shape hi m k in
    let e : y ≡ shape hi m k + r = omega arith in
    omega (
      arith,
      ap ones e,
      ones-shape hi m k r (omega (arith, shape-raised hi m k)),
      ones_pos r r (omega arith) (omega arith),
      ones-of_shape hi m k,
    )

module _ (hi m k : ℕ) (fits : raised hi m k < 2 ^ 32) where
  ones-raised : (r : ℕ) → r < 2 ^ m → ones (raised hi m k + r) ≡ suc (ones hi) + ones r
  ones-raised r h =
      let e : raised hi m k + r ≡ (hi * 2 + 1) * 2 ^ (suc m + k) + r =
        omega (arith, raised_field hi m k fits) in
      omega (
        arith,
        ap ones e,
        ones-fields (suc m + k) (hi * 2 + 1) r (omega (arith, right_small hi m k fits)),
        ones-odd hi,
      )

  ones-next : ones (next_shape hi m k) ≡ ones (shape hi m k)
  ones-next = omega (
    arith,
    ones-raised (2 ^ m - 1) (omega (arith, power_pos m)),
    ones-full m,
    ones-of_shape hi m k,
  )

  ones-least : (y : ℕ) → shape hi m k < y → y < next_shape hi m k → ones y ≢ ones (shape hi m k)
  ones-least y above under same = elim (dec_lt y (raised hi m k)) [
    | yes early ↦ absurd (omega (arith, ones-between hi m k y above early, same))
    | no late ↦
        let r : ℕ = y - raised hi m k in
        let e : y ≡ raised hi m k + r = omega (arith, late) in
        absurd (
          omega (
            arith,
            ap ones e,
            ones-raised r (omega (arith, power_pos m)),
            ones-lt m r (omega (arith, power_pos m)),
            ones-of_shape hi m k,
            same,
          ))
  ]

-- A number is the next one with as many ones.
pub record Next (x r : ℕ) : Type 0 where
  pub later : x < r
  pub fits : r < 2 ^ 32
  pub same : ones r ≡ ones x
  pub least : (y : ℕ) → x < y → y < r → ones y ≢ ones x

shape-Next :
    (hi m k : ℕ)
    → raised hi m k < 2 ^ 32
    → (r : ℕ) × (snoob (shape hi m k) ≡ r)
      × (next_greater (shape hi m k) ≡ some r)
      × Next (shape hi m k) r
shape-Next hi m k fits = (
  next_shape hi m k,
  snoob-shape hi m k fits,
  next_greater-shape hi m k fits,
  record {
    later = omega (arith, shape-raised hi m k, power_pos k);
    fits = next_below hi m k fits;
    same = ones-next hi m k fits;
    least = ones-least hi m k fits;
  },
)

-- For a number that is not 0 and for which a greater one of 32 bits with as many ones exists, snoob and
-- next_greater give the same, and it is the least such number.
pub results-Next :
    (x above : ℕ)
    → 0 < x
    → x < above
    → above < 2 ^ 32
    → ones above ≡ ones x
    → (r : ℕ) × (snoob x ≡ r) × (next_greater x ≡ some r) × Next x r
results-Next x above pos_x greater small same =
    let (hi, m, k, e) = has_shape x x (omega arith) pos_x in
    subst (λ n. (r : ℕ) × (snoob n ≡ r) × (next_greater n ≡ some r) × Next n r) (sym e)
      (shape-Next hi m k (elim (dec_lt above (raised hi m k)) [
        | yes early ↦ absurd (
            omega
              (arith, ones-between hi m k above (omega (arith, e, greater)) early, ap ones e, same))
        | no late ↦ omega (arith, late, small)
      ]))
