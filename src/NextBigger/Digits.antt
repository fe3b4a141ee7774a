-- ===== src/NextBigger/Digits.antt =====
-- The bit operations by binary digits and by fields.
use Prim.Native.Nat.{
  digits, min, max, differ, bit_and, bit_or, bit_xor, bit_and-bitwise, bit_or-bitwise,
  bit_xor-bitwise,
}
use mathlib.Core.Path.{ap₂}
use native.Mathlib.Nat.{pow-succ'}
use chunxiao_code.Prelude.{
  ℕ, zero, suc, ◌+◌, ◌-◌, ◌*◌, ◌/◌, ◌%◌, ◌^◌, ◌≤◌, ◌<◌, ◌≡◌, refl, ap, ◌∙◌, arith, dec_lt,
}

module _ (z : ℕ → ℕ) (f : ℕ → ℕ → ℕ) where
  -- One digit more than there are changes nothing.
  digits_more : (n a b : ℕ) → a ≤ n → digits z f (suc n) a b ≡ digits z f n a b
  digits_more zero zero b h = refl
  digits_more zero (suc a) b h = absurd (omega arith)
  digits_more (suc n) zero b h = refl
  digits_more (suc n) (suc a) b h =
      ap (λ t. t * 2 + f (suc a % 2) (b % 2)) (digits_more n (suc a / 2) (b / 2) (omega arith))

  digits_enough : (n a b : ℕ) → a ≤ n → digits z f n a b ≡ digits z f a a b
  digits_enough zero zero b h = refl
  digits_enough zero (suc a) b h = absurd (omega arith)
  digits_enough (suc n) a b h = elim (dec_lt a (suc n)) [
    | yes lt ↦ digits_more n a b (omega arith) ∙ digits_enough n a b (omega arith)
    | no ge ↦ let e : suc n ≡ a = omega (arith, ge) in ap (λ m. digits z f m a b) e
  ]

  -- The lowest digits.
  digits_lowest :
      ((b : ℕ) → z b ≡ z (b / 2) * 2 + f 0 (b % 2))
      → (a b : ℕ) → digits z f a a b ≡ digits z f (a / 2) (a / 2) (b / 2) * 2 + f (a % 2) (b % 2)
  digits_lowest rest zero b = rest b
  digits_lowest rest (suc a) b =
      ap (λ t. t * 2 + f (suc a % 2) (b % 2)) (digits_enough a (suc a / 2) (b / 2) (omega arith))

and_lowest : (a b : ℕ) → bit_and a b ≡ bit_and (a / 2) (b / 2) * 2 + min (a % 2) (b % 2)
and_lowest a b = simp bit_and-bitwise (digits_lowest (λ y. 0) min (λ y. omega arith) a b)

or_lowest : (a b : ℕ) → bit_or a b ≡ bit_or (a / 2) (b / 2) * 2 + max (a % 2) (b % 2)
or_lowest a b = simp bit_or-bitwise (digits_lowest (λ y. y) max (λ y. omega arith) a b)

xor_lowest : (a b : ℕ) → bit_xor a b ≡ bit_xor (a / 2) (b / 2) * 2 + differ (a % 2) (b % 2)
xor_lowest a b = simp bit_xor-bitwise (digits_lowest (λ y. y) differ (λ y. omega arith) a b)

pub twice : (a k : ℕ) → a * 2 ^ suc k ≡ 2 * (a * 2 ^ k)
twice a k = omega (arith, ap (λ (t : ℕ). a * t) (pow-succ' 2 k))

-- An operation on digits works on the fields of its numbers.
module _ (op f : ℕ → ℕ → ℕ)
    (lowest : (a b : ℕ) → op a b ≡ op (a / 2) (b / 2) * 2 + f (a % 2) (b % 2))
    (none_set : op 0 0 ≡ 0) where
  by_fields :
      (k a b r s : ℕ)
      → r < 2 ^ k
      → s < 2 ^ k
      → op (a * 2 ^ k + r) (b * 2 ^ k + s) ≡ op a b * 2 ^ k + op r s
  by_fields zero a b r s hr hs =
      let er : r ≡ 0 = omega (arith, hr) in
      let es : s ≡ 0 = omega (arith, hs) in
      let ea : a * 2 ^ 0 + r ≡ a = omega (arith, er) in
      let eb : b * 2 ^ 0 + s ≡ b = omega (arith, es) in
      let ez : op r s ≡ 0 = ap₂ op er es ∙ none_set in ap₂ op ea eb ∙ omega (arith, ez)
  by_fields (suc k) a b r s hr hs =
      let ea : (a * 2 ^ suc k + r) / 2 ≡ a * 2 ^ k + r / 2 = omega (arith, twice a k) in
      let eb : (b * 2 ^ suc k + s) / 2 ≡ b * 2 ^ k + s / 2 = omega (arith, twice b k) in
      let da : (a * 2 ^ suc k + r) % 2 ≡ r % 2 = omega (arith, twice a k) in
      let db : (b * 2 ^ suc k + s) % 2 ≡ s % 2 = omega (arith, twice b k) in
      let low : f ((a * 2 ^ suc k + r) % 2) ((b * 2 ^ suc k + s) % 2) ≡ f (r % 2) (s % 2) =
        ap₂ f da db in
      let high : op ((a * 2 ^ suc k + r) / 2) ((b * 2 ^ suc k + s) / 2)
          ≡ op a b * 2 ^ k + op (r / 2) (s / 2) =
        ap₂ op ea eb
        ∙ by_fields k a b (r / 2) (s / 2) (omega (arith, pow-succ' 2 k))
            (omega (arith, pow-succ' 2 k)) in
      omega (
        arith,
        lowest (a * 2 ^ suc k + r) (b * 2 ^ suc k + s),
        low,
        high,
        lowest r s,
        twice (op a b) k,
      )

pub and_fields :
    (k a b r s : ℕ)
    → r < 2 ^ k
    → s < 2 ^ k
    → bit_and (a * 2 ^ k + r) (b * 2 ^ k + s) ≡ bit_and a b * 2 ^ k + bit_and r s
and_fields = by_fields bit_and min and_lowest refl

pub or_fields :
    (k a b r s : ℕ)
    → r < 2 ^ k
    → s < 2 ^ k
    → bit_or (a * 2 ^ k + r) (b * 2 ^ k + s) ≡ bit_or a b * 2 ^ k + bit_or r s
or_fields = by_fields bit_or max or_lowest refl

pub xor_fields :
    (k a b r s : ℕ)
    → r < 2 ^ k
    → s < 2 ^ k
    → bit_xor (a * 2 ^ k + r) (b * 2 ^ k + s) ≡ bit_xor a b * 2 ^ k + bit_xor r s
xor_fields = by_fields bit_xor differ xor_lowest refl

-- A number and zero, and a number twice.
pub and_zero : (a : ℕ) → bit_and a 0 ≡ 0
and_zero a = go a a (omega arith)
  where
    go : (n a : ℕ) → a ≤ n → bit_and a 0 ≡ 0
    go zero zero h = refl
    go zero (suc a) h = absurd (omega arith)
    go (suc n) a h = omega (arith, and_lowest a 0, go n (a / 2) (omega arith))

pub or_zero : (a : ℕ) → bit_or a 0 ≡ a
or_zero a = go a a (omega arith)
  where
    go : (n a : ℕ) → a ≤ n → bit_or a 0 ≡ a
    go zero zero h = refl
    go zero (suc a) h = absurd (omega arith)
    go (suc n) a h = omega (arith, or_lowest a 0, go n (a / 2) (omega arith))

differ_zero : (a : ℕ) → differ a 0 ≡ a
differ_zero zero = refl
differ_zero (suc a) = refl

differ_same : (a : ℕ) → differ a a ≡ 0
differ_same zero = refl
differ_same (suc a) = differ_same a

pub xor_zero : (a : ℕ) → bit_xor a 0 ≡ a
xor_zero a = go a a (omega arith)
  where
    go : (n a : ℕ) → a ≤ n → bit_xor a 0 ≡ a
    go zero zero h = refl
    go zero (suc a) h = absurd (omega arith)
    go (suc n) a h = omega (arith, xor_lowest a 0, go n (a / 2) (omega arith), differ_zero (a % 2))

pub xor_same : (a : ℕ) → bit_xor a a ≡ 0
xor_same a = go a a (omega arith)
  where
    go : (n a : ℕ) → a ≤ n → bit_xor a a ≡ 0
    go zero zero h = refl
    go zero (suc a) h = absurd (omega arith)
    go (suc n) a h = omega (arith, xor_lowest a a, go n (a / 2) (omega arith), differ_same (a % 2))

pub zero_xor : (b : ℕ) → bit_xor 0 b ≡ b
zero_xor b = simp bit_xor-bitwise (omega arith)

pub zero_or : (b : ℕ) → bit_or 0 b ≡ b
zero_or b = simp bit_or-bitwise (omega arith)

-- A number of n digits and the one with the other digits.
pub and_complement : (n a : ℕ) → a < 2 ^ n → bit_and a (2 ^ n - 1 - a) ≡ 0
and_complement zero zero h = refl
and_complement zero (suc a) h = absurd (omega arith)
and_complement (suc n) a h =
    let b : ℕ = 2 ^ suc n - 1 - a in
    let high : b / 2 ≡ 2 ^ n - 1 - a / 2 = omega (arith, pow-succ' 2 n) in
    let low : b % 2 ≡ 1 - a % 2 = omega (arith, pow-succ' 2 n) in
    omega (
      arith,
      and_lowest a b,
      ap (bit_and (a / 2)) high,
      and_complement n (a / 2) (omega (arith, pow-succ' 2 n)),
      low,
    )
