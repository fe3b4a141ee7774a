-- ===== src/Happy/Bounds.antt =====
-- When `happy` stays in its array.
use mathlib.Core.Path.{subst}
use native.Mathlib.Nat.{pow-succ', mul-le-mul}
use chunxiao_code.Prelude.{
  ℕ, zero, suc, ◌+◌, ◌*◌, ◌/◌, ◌%◌, ◌^◌, ◌≤◌, ◌<◌, ◌≡◌, ◌≢◌, refl, ap, ◌∙◌, List, [], ◌∷◌, Option,
  some, Bool, true, false, ◌==◌, get_elem?, length, length-set, length-replicate, set, replicate,
  arith, dec_lt,
}
use chunxiao_code.Prelude.Fault.{◌>>=◌, Each-some}
use chunxiao_code.Happy.{count_digits, Outcome, returned, stuck, search_one, happy}
use chunxiao_code.Happy.Orbit.{
  SquareSum, nothing, digit, sum_of, sum_of-SquareSum, SquareSum-unique, Answers, happy-Answers,
}

power-suc : (k : ℕ) → 10 ^ suc k ≡ 10 * 10 ^ k
power-suc k = pow-succ' 10 k

square-le : (c m : ℕ) → c ≤ m → c * c ≤ m * m
square-le c m h = mul-le-mul h h

-- Below 3 * 10 ^ k the sum is less than 81 * (k + 1).
sum-bound : (k a s : ℕ) → a < 3 * 10 ^ k → SquareSum a s → s ≤ 4 + 81 * k
sum-bound k _ _ h nothing = omega arith
sum-bound zero a _ h (digit {s} ne is) =
    let low : a < 3 = h in
    let zero_left : a / 10 ≡ 0 = omega arith in
    let none_left : s ≡ 0 = SquareSum-unique (subst (λ n. SquareSum n s) zero_left is) nothing in
    omega (arith, square-le (a % 10) 2 (omega arith))
sum-bound (suc k) a _ h (digit {s} ne is) = omega (
  arith,
  sum-bound k (a / 10) s (omega (arith, power-suc k)) is,
  square-le (a % 10) 9 (omega arith),
)

power-bound : (k : ℕ) → 81 * (k + 3) ≤ 3 * 10 ^ (k + 2)
power-bound zero = omega arith
power-bound (suc k) =
    let e : 10 ^ (suc k + 2) ≡ 10 ^ suc (k + 2) = ap (λ j. 10 ^ j) (omega arith) in
    omega (arith, power-bound k, power-suc (k + 2))

-- Below 10 ^ k the sum is 81 * k for the number of nines only.
nines-bound : (k a s : ℕ) → a < 10 ^ k → SquareSum a s → s ≤ 81 * k
nines-bound k _ _ h nothing = omega arith
nines-bound zero a _ h (digit ne is) = absurd (ne (omega arith))
nines-bound (suc k) a _ h (digit {s} ne is) = omega (
  arith,
  nines-bound k (a / 10) s (omega (arith, power-suc k)) is,
  square-le (a % 10) 9 (omega arith),
)

less-bound : (k a s : ℕ) → 0 < k → a + 1 < 10 ^ k → SquareSum a s → s < 81 * k
less-bound k _ _ big h nothing = omega arith
less-bound zero a _ big h (digit ne is) = absurd (omega arith)
less-bound (suc k) a _ big h (digit {s} ne is) = elim (dec_lt (a % 10) 9) [
  | yes small ↦ omega (
    arith,
    nines-bound k (a / 10) s (omega (arith, power-suc k)) is,
    square-le (a % 10) 8 (omega arith),
  )
  | no large ↦ elim (dec_lt 0 k) [
    | yes more ↦ omega (
      arith,
      less-bound k (a / 10) s more (omega (arith, power-suc k)) is,
      square-le (a % 10) 9 (omega arith),
    )
    | no last ↦ absurd (
        let e : k ≡ 0 = omega arith in
        let p : 10 ^ k ≡ 1 = ap (λ j. 10 ^ j) e in omega (arith, power-suc k))
  ]
]

count-more : (f b n : ℕ) → b ≢ 0 → count_digits (suc f) b n ≡ count_digits f (b / 10) (n + 1)
unfolding count_digits
count-more f b n h = ground arith

digits-bound : (f b n : ℕ) → b ≤ f → (k : ℕ) × (count_digits f b n ≡ n + k) × (b < 10 ^ k)
unfolding count_digits
digits-bound zero zero n h = (0, omega arith, omega arith)
digits-bound zero (suc b) n h = absurd (omega arith)
digits-bound (suc f) zero n h = (0, omega arith, omega arith)
digits-bound (suc f) (suc b) n h =
    let (k, e, lt) = digits-bound f (suc b / 10) (n + 1) (omega arith) in
    (suc k, count-more f (suc b) n (omega arith) ∙ e ∙ omega arith, omega (arith, power-suc k))

elim-defined :
    {A : Type 0} (o o' : Option A) (b : Bool)
    → (b ≡ false → (r : A) × (o ≡ some r))
    → (b ≡ true → (r : A) × (o' ≡ some r))
    → (r : A) × (elim b [ false ↦ o | true ↦ o' ] ≡ some r)
elim-defined o o' false h h' = h refl
elim-defined o o' true h h' = h' refl

cell_below : (p : List ℕ) (i : ℕ) → i < length p → (c : ℕ) × (get_elem? p i ≡ some c)
cell_below [] i h = absurd (omega arith)
cell_below (c ∷ p) zero h = (c, refl)
cell_below (c ∷ p) (suc i) h = cell_below p i (omega arith)

search_one-defined :
    (size : ℕ)
    → ((a : ℕ) → a < size → sum_of a < size)
    → (f a : ℕ) (p : List ℕ) → length p ≡ size
    → sum_of a < size
    → (r : Outcome) × (search_one f p a ≡ some r)
unfolding search_one
search_one-defined size small zero a p len lt = (stuck, refl)
search_one-defined size small (suc f) a p len lt =
    elim-defined _ _ (sum_of a == 1)
      (λ other.
        let (c, is) = cell_below p (sum_of a) (omega (arith, len)) in
        let (r, e) =
          elim-defined _ _ (1 == c)
            (λ new.
              search_one-defined size small f (sum_of a) (set p (sum_of a) 1)
                (length-set p (sum_of a) 1 ∙ len) (small (sum_of a) lt))
            (λ old. (returned 0, refl)) in
        (
          r,
          ap
                (λ m. m >>= λ c'. elim (1 == c') [
                  | true ↦ some (returned 0)
                  | false ↦ search_one f (set p (sum_of a) 1) (sum_of a)
                ])
                is
              ∙ e,
        ))
      (λ one. (returned 1, refl))

three_digits : (k num : ℕ) → 100 ≤ num → num < 10 ^ k → 3 ≤ k
three_digits zero num big h = absurd (omega arith)
three_digits (suc zero) num big h = absurd (omega arith)
three_digits (suc (suc zero)) num big h = absurd (omega arith)
three_digits (suc (suc (suc k))) num big h = omega arith

keeps_small : (k a : ℕ) → 3 ≤ k → a < 81 * k → sum_of a < 81 * k
keeps_small zero a h lt = absurd (omega arith)
keeps_small (suc zero) a h lt = absurd (omega arith)
keeps_small (suc (suc zero)) a h lt = absurd (omega arith)
keeps_small (suc (suc (suc k))) a h lt =
    let low : a < 3 * 10 ^ (k + 2) = omega (arith, power-bound k) in
    omega (arith, sum-bound (k + 2) a (sum_of a) low (sum_of-SquareSum a))

-- happy on a number of three digits or more, not all of them nines, ends inside its array: with 1 where the
-- number 1 stands in the chain of the sums of squares of digits that the number begins, with 0 where it
-- does not.
pub happy-Decides :
    (num : ℕ)
    → 100 ≤ num
    → ((k : ℕ) → num + 1 ≢ 10 ^ k)
    → (r : Outcome) × (happy num ≡ some r) × Answers num r
unfolding happy
happy-Decides num big some_other =
    let (k, e, lt) = digits-bound num num 0 (omega arith) in
    let three : 3 ≤ k = three_digits k num big lt in
    let size = count_digits num num 0 * 81 in
    let is : size ≡ 81 * k = omega (arith, e) in
    let (r, ends) =
      search_one-defined size (λ a small. omega (arith, keeps_small k a three (omega arith)))
        (suc size) num (replicate size 0) (length-replicate size 0)
        (omega (
          arith,
          less-bound k num (sum_of num) (omega arith) (omega (arith, some_other k))
              (sum_of-SquareSum num),
        )) in
    (r, ends, Each-some (Answers num) _ r (happy-Answers num) ends)
