-- ===== src/Factor/Least.antt =====
-- The least divisor, again and again.
use Prim.Native.Nat.{◌∣◌}
use mathlib.Core.Path.{subst, ap₂}
use native.Mathlib.Nat.{dvd_trans, dvd-mul_left, dvd-mul_right, le_of_dvd, mul-div_right}
use chunxiao_code.Prelude.{
  ℕ, ◌*◌, ◌/◌, ◌≤◌, ◌<◌, ◌≡◌, refl, ap, sym, ◌∙◌, List, [], ◌∷◌, arith, dec_lt,
}

-- No number from 2 up to t divides n.
abbrev pub NoBelow : ℕ → ℕ → Type 0
NoBelow t n = (d : ℕ) → 1 < d → d < t → ¬ (d ∣ n)

abbrev pub Prime : ℕ → Type 0
Prime p = (1 < p) × NoBelow p p

-- The least divisor of n stands first, and so on for the quotient.
pub data Factors : List ℕ → ℕ → Type 0 where
  one : {n : ℕ} → n ≡ 1 → Factors [] n
  least :
      {ps : List ℕ} {n : ℕ} (p m : ℕ)
      → 1 < p
      → n ≡ p * m
      → NoBelow p n
      → Factors ps m
      → Factors (p ∷ ps) n

abbrev pub product : List ℕ → ℕ
product [] = 1
product (p ∷ ps) = p * product ps

abbrev pub AllPrime : List ℕ → Type 0
AllPrime [] = Unit
AllPrime (p ∷ ps) = Prime p × AllPrime ps

-- Every number is at least l and at least the one before.
abbrev pub Ascending : ℕ → List ℕ → Type 0
Ascending l [] = Unit
Ascending l (p ∷ ps) = (l ≤ p) × Ascending p ps

pub divides_left : (p m n : ℕ) → n ≡ p * m → p ∣ n
divides_left p m n e = subst (◌∣◌ p) (sym e) (dvd-mul_right p m)

pub divides_right : (p m n : ℕ) → n ≡ p * m → m ∣ n
divides_right p m n e = subst (◌∣◌ m) (sym e) (dvd-mul_left m p)

pub NoBelow-divisor : (t m n : ℕ) → m ∣ n → NoBelow t n → NoBelow t m
NoBelow-divisor t m n divides no_less d big small at = no_less d big small (dvd_trans d at divides)

pub Factors-product : (ps : List ℕ) (n : ℕ) → Factors ps n → product ps ≡ n
Factors-product _ n (one e) = sym e
Factors-product _ n (least {ps} p m big e no_less rest) =
    ap (λ k. p * k) (Factors-product ps m rest) ∙ sym e

pub Factors-AllPrime : (ps : List ℕ) (n : ℕ) → Factors ps n → AllPrime ps
Factors-AllPrime _ n (one e) = tt
Factors-AllPrime _ n (least {ps} p m big e no_less rest) =
    ((big, NoBelow-divisor p p n (divides_left p m n e) no_less), Factors-AllPrime ps m rest)

-- What no number below l divides begins at l.
begins_at : (l n p m : ℕ) → NoBelow l n → 1 < p → n ≡ p * m → l ≤ p
begins_at l n p m no_less big e = elim (dec_lt p l) [
  | yes below ↦ absurd (no_less p big below (divides_left p m n e))
  | no above ↦ omega arith
]

pub Factors-Ascending : (l n : ℕ) (ps : List ℕ) → NoBelow l n → Factors ps n → Ascending l ps
Factors-Ascending l n _ no_less (one e) = tt
Factors-Ascending l n _ no_less (least {ps} p m big e no_less' rest) = (
  begins_at l n p m no_less big e,
  Factors-Ascending p m ps (NoBelow-divisor p m n (divides_right p m n e) no_less') rest,
)

no_divisor_of_one : (p m : ℕ) → 1 < p → ¬ (1 ≡ p * m)
no_divisor_of_one p m big e = absurd (omega (arith, le_of_dvd (omega arith) (divides_left p m 1 e)))

same_quotient : (p m k : ℕ) → 1 < p → p * m ≡ p * k → m ≡ k
same_quotient p m k big e =
    sym (mul-div_right m (omega arith)) ∙ ap (λ n. n / p) e ∙ mul-div_right k (omega arith)

-- There is one such list for each number.
pub Factors-unique : (ps qs : List ℕ) (n : ℕ) → Factors ps n → Factors qs n → ps ≡ qs
Factors-unique _ _ n (one e) (one e') = refl
Factors-unique _ _ n (one e) (least q k big e' no_less rest) =
    absurd (no_divisor_of_one q k big (sym e ∙ e'))
Factors-unique _ _ n (least p m big e no_less rest) (one e') =
    absurd (no_divisor_of_one p m big (sym e' ∙ e))
Factors-unique _ _ n (least {ps} p m big e no_less rest)
      (least {ps = qs} q k big' e' no_less' rest') =
    let up : q ≤ p = begins_at q n p m no_less' big e in
    let down : p ≤ q = begins_at p n q k no_less big' e' in
    let same : p ≡ q = omega arith in
    let quotient : m ≡ k = same_quotient p m k big (sym e ∙ e' ∙ ap (λ r. r * k) (sym same)) in
    ap₂ ◌∷◌ same (Factors-unique ps qs m rest (subst (Factors qs) (sym quotient) rest'))
