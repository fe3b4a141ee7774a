-- ===== src/Factor/Loops.antt =====
-- The two loops of d.c and e.c.
use Prim.Native.Nat.{◌∣◌}
use mathlib.Core.Path.{subst, ap₂}
use native.Mathlib.Nat.{
  dvd_refl, le_of_dvd, mul-le-mul_right, mul-zero, dvd_of_mod-eq-zero, mod-eq-zero_of_dvd,
  mul-div_cancel',
}
use chunxiao_code.Prelude.{
  ℕ, zero, suc, ◌+◌, ◌*◌, ◌/◌, ◌%◌, ◌^◌, ◌≤◌, ◌<◌, ◌≡◌, refl, ap, sym, ◌∙◌, List, [], ◌∷◌, map,
  some, Bool-cases, inl, inr, true, false, ◌==◌, ==_iff, ltb, arith, dec_lt, if◌then◌else◌,
}
use chunxiao_code.Prelude.Int.{pos}
use chunxiao_code.Prelude.Fault.{◌>>=◌}
use chunxiao_code.Factor.{strip, largest, restart, split, percent_d}
use chunxiao_code.Factor.Least.{
  NoBelow, NoBelow-divisor, Factors, one, least, product, AllPrime, Ascending, Factors-product,
  Factors-AllPrime, Factors-Ascending, Factors-unique, divides_left, divides_right,
}

-- The last number of a list.
abbrev pub last_or : ℕ → List ℕ → ℕ
last_or m [] = m
last_or m (p ∷ ps) = last_or p ps

NoBelow-next : (i n : ℕ) → NoBelow i n → (n % i == 0) ≡ false → NoBelow (i + 1) n
NoBelow-next i n no_less no_factor d big below at = elim (dec_lt d i) [
  | yes less ↦ no_less d big less at
  | no more ↦
      let same : d ≡ i = omega arith in
      let none_left : n % i ≡ 0 = mod-eq-zero_of_dvd i (subst (λ k. k ∣ n) same at) in
      absurd (ground (arith, none_left))
]

-- The quotient by a divisor.
quotient : (i n : ℕ) → (n % i == 0) ≡ true → n ≡ i * (n / i)
quotient i n e =
    let none_left : n % i ≡ 0 = (==_iff (n % i) 0).0 e in
    sym (mul-div_cancel' i (dvd_of_mod-eq-zero i none_left))

half : (i n : ℕ) → 1 < i → (n % i == 0) ≡ true → n / i + n / i ≤ n
half i n big e =
    let two : 2 ≤ i = omega arith in omega (arith, quotient i n e, mul-le-mul_right (n / i) two)

positive_quotient : (i n : ℕ) → 0 < n → (n % i == 0) ≡ true → 0 < n / i
positive_quotient i n pos_n e = elim (Bool-cases (n / i == 0)) [
  | inl none_left ↦
      let q : n / i ≡ 0 = (==_iff (n / i) 0).0 none_left in
      absurd (omega (arith, quotient i n e ∙ ap (λ k. i * k) q ∙ mul-zero i))
  | inr some_left ↦ ground arith
]

strip-stop : (f i max b : ℕ) → ltb b i ≡ true → strip (suc f) i max b ≡ some ([], max)
unfolding strip
strip-stop f i max b stop = ground arith

strip-next :
    (f i max b : ℕ)
    → ltb b i ≡ false
    → (b % i == 0) ≡ false
    → strip (suc f) i max b ≡ strip f (i + 1) max b
unfolding strip
strip-next f i max b go other = ground arith

strip-divides :
    (f i max b : ℕ)
    → ltb b i ≡ false
    → (b % i == 0) ≡ true
    → max ≤ i
    → strip (suc f) i max b ≡ (strip f i i (b / i) >>= λ (printed, m). some (i ∷ printed, m))
unfolding strip
strip-divides f i max b go divides small =
    let largest_now : (if ltb max i then i else max) ≡ i = ground arith in
    ground (arith, largest_now)

last_factor : (i b : ℕ) → NoBelow i b → 0 < b → b < i → b ≡ 1
last_factor i b no_less pos_b below = elim (dec_lt 1 b) [
  | yes large ↦ absurd (no_less b large below (dvd_refl b))
  | no small ↦ omega arith
]

-- From i on: what is left has no divisor below i, and there is fuel for what remains.
strip-Factors :
    (f i max b : ℕ)
    → 1 < i
    → 0 < b
    → max ≤ i
    → 0 < f
    → b + b < f + i
    → NoBelow i b
    → (ps : List ℕ) × (strip f i max b ≡ some (ps, last_or max ps)) × Factors ps b
strip-Factors zero i max b big pos_b m some_f fuel no_less = absurd (omega arith)
strip-Factors (suc f) i max b big pos_b m some_f fuel no_less = elim (Bool-cases (ltb b i)) [
  | inl stop ↦ ([], strip-stop f i max b stop, one (last_factor i b no_less pos_b (ground arith)))
  | inr go ↦ elim (Bool-cases (b % i == 0)) [
    | inl divides ↦
        let within : i ≤ b = ground arith in
        let less = half i b big divides in
        let (ps, e, rest) =
          strip-Factors f i i (b / i) big (positive_quotient i b pos_b divides) (omega arith)
            (omega arith) (omega (arith, less))
            (NoBelow-divisor i (b / i) b (divides_right i (b / i) b (quotient i b divides))
              no_less) in
        (
          i ∷ ps,
          strip-divides f i max b go divides m
              ∙ ap (λ o. o >>= λ (printed, k). some (i ∷ printed, k)) e,
          least i (b / i) big (quotient i b divides) no_less rest,
        )
    | inr other ↦
        let within : i ≤ b = ground arith in
        let (ps, e, rest) =
          strip-Factors f (i + 1) max b (omega arith) pos_b (omega arith) (omega arith)
            (omega arith) (NoBelow-next i b no_less other) in
        (ps, strip-next f i max b go other ∙ e, rest)
  ]
]

restart-stop : (k t n : ℕ) → ltb t n ≡ false → restart (suc k) t n ≡ some (percent_d n ∷ [])
unfolding restart
restart-stop k t n stop = ground arith

restart-next :
    (k t n : ℕ) → ltb t n ≡ true → (n % t == 0) ≡ false → restart (suc k) t n ≡ restart k (t + 1) n
unfolding restart
restart-next k t n go other = ground arith

restart-divides :
    (k t n : ℕ)
    → ltb t n ≡ true
    → (n % t == 0) ≡ true
    → restart (suc k) t n ≡ (restart k 2 (n / t) >>= λ printed. some (percent_d t ∷ printed))
unfolding restart
restart-divides k t n go divides = ground arith

-- A divisor below n leaves more than 1.
large_quotient : (t n : ℕ) → t < n → (n % t == 0) ≡ true → 1 < n / t
large_quotient t n small divides = elim (dec_lt 1 (n / t)) [
  | yes large ↦ large
  | no few ↦
      let pos_q = positive_quotient t n (omega arith) divides in
      let q : n / t ≡ 1 = omega (arith, pos_q) in
      absurd (omega (arith, quotient t n divides ∙ ap (λ k. t * k) q))
]

restart-Factors :
    (k t n : ℕ)
    → 1 < t
    → 1 < n
    → t ≤ n
    → n + n < k + t + 1
    → NoBelow t n
    → (ps : List ℕ) × (restart k t n ≡ some (map percent_d ps)) × Factors ps n
restart-Factors zero t n big big_n within fuel no_less = absurd (omega arith)
restart-Factors (suc k) t n big big_n within fuel no_less = elim (Bool-cases (ltb t n)) [
  | inl go ↦ elim (Bool-cases (n % t == 0)) [
    | inl divides ↦
        let below : t < n = ground arith in
        let less = half t n big divides in
        let large = large_quotient t n below divides in
        let (ps, e, rest) =
          restart-Factors k 2 (n / t) (omega arith) large (omega (arith, large))
            (omega (arith, less)) (λ d big_d small at. absurd (omega arith)) in
        (
          t ∷ ps,
          restart-divides k t n go divides
              ∙ ap (λ o. o >>= λ printed. some (percent_d t ∷ printed)) e,
          least t (n / t) big (quotient t n divides) no_less rest,
        )
    | inr other ↦
        let (ps, e, rest) =
          restart-Factors k (t + 1) n (omega arith) big_n (ground arith) (omega arith)
            (NoBelow-next t n no_less other) in
        (ps, restart-next k t n go other ∙ e, rest)
  ]
  | inr stop ↦ (
    n ∷ [],
    restart-stop k t n stop,
    least n 1 big_n (omega arith)
        (λ d big_d small at. no_less d big_d (ground (arith, stop, within)) at) (one refl),
  )
]

percent_d-small : (n : ℕ) → n < 2 ^ 31 → percent_d n ≡ pos n
percent_d-small n h =
    let low : n % 2 ^ 32 ≡ n = omega arith in
    let less : ltb n (2 ^ 31) ≡ true = ground arith in rw (low, less) refl

-- The factors of a number that is an int are ints.
percent_d-pos :
    (ps : List ℕ) (n : ℕ) → Factors ps n → 0 < n → n < 2 ^ 31 → map percent_d ps ≡ map pos ps
percent_d-pos _ n (one e) pos_n fits = refl
percent_d-pos _ n (least {ps} p m big e no_less rest) pos_n fits =
    let small : p ≤ n = le_of_dvd pos_n (divides_left p m n e) in
    let fewer : m ≤ n = le_of_dvd pos_n (divides_right p m n e) in
    let some_m : 0 < m = elim (Bool-cases (m == 0)) [
      | inl none_left ↦
          absurd (omega (arith, e ∙ ap (λ k. p * k) ((==_iff m 0).0 none_left) ∙ mul-zero p))
      | inr some_left ↦ ground arith
    ] in
    ap₂ ◌∷◌ (percent_d-small p (omega (arith, small)))
      (percent_d-pos ps m rest some_m (omega (arith, fewer)))

-- For a number from 2 on and below 2 ^ 31, both programs print its prime factors, in ascending
-- order, each as often as it divides: d.c with %llu, e.c with %d, the same numbers, whose product
-- is the number. d.c ends with its last one as max. Fuel of twice the number is enough.
pub largest-split :
    (n : ℕ)
    → 1 < n
    → n < 2 ^ 31
    → (ps : List ℕ) × (largest (n + n) n ≡ some (ps, last_or 0 ps))
      × (split (n + n) n ≡ some (map pos ps))
      × (product ps ≡ n)
      × AllPrime ps
      × Ascending 2 ps
unfolding largest split
largest-split n big fits =
    let small : NoBelow 2 n = λ d big_d below at. absurd (omega arith) in
    let (ps, e, is) =
      strip-Factors (n + n) 2 0 n (omega arith) (omega arith) (omega arith) (omega arith)
        (omega arith) small in
    let (qs, e', is') =
      restart-Factors (n + n) 2 n (omega arith) big (omega arith) (omega arith) small in
    let same : qs ≡ ps = Factors-unique qs ps n is' is in
    (
      ps,
      e,
      e'
          ∙ ap (λ l. some (map percent_d l)) same
          ∙ ap some (percent_d-pos ps n is (omega arith) fits),
      Factors-product ps n is,
      Factors-AllPrime ps n is,
      Factors-Ascending 2 n ps small is,
    )
