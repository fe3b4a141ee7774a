-- ===== src/Happy/Orbit.antt =====
-- The result of `happy` against the chain of the sums.
use mathlib.Core.Path.{subst}
use chunxiao_code.Prelude.{
  if◌then◌else◌, ℕ, zero, suc, ◌+◌, ◌*◌, ◌/◌, ◌%◌, ◌≤◌, ◌<◌, ◌≡◌, ◌≢◌, ◌⊎◌, refl, ap, sym, ◌∙◌,
  List, [], ◌∷◌, some, false, inl, inr, ◌==◌, get_elem?, get_elem?-set_self, get_elem?-set_ne,
  lt-length_of_get_elem?, length, set, replicate, arith, ℕ_discrete,
}
use chunxiao_code.Prelude.Fault.{some-cancel, Each, Each-bind, Each-elim}
use chunxiao_code.Happy.{count_digits, add_squares, Outcome, returned, search_one, happy}

-- The squares of the digits of a number add up to the sum.
pub data SquareSum : ℕ → ℕ → Type 0 where
  nothing : SquareSum 0 0
  digit : {n s : ℕ} → n ≢ 0 → SquareSum (n / 10) s → SquareSum n ((n % 10) * (n % 10) + s)

-- The numbers behind the first one in the chain of the sums.
pub data Chain (num : ℕ) : ℕ → Type 0 where
  first : {s : ℕ} → SquareSum num s → Chain num s
  next : {k s : ℕ} → Chain num k → SquareSum k s → Chain num s

add_squares-more :
    (f b sum : ℕ)
    → b ≢ 0
    → add_squares (suc f) b sum ≡ add_squares f (b / 10) (sum + (b % 10) * (b % 10))
unfolding add_squares
add_squares-more f b sum h = ground arith

pub add_squares-SquareSum :
    (f b sum : ℕ) → b ≤ f → (s : ℕ) × (SquareSum b s) × (add_squares f b sum ≡ sum + s)
unfolding add_squares
add_squares-SquareSum zero zero sum h = (0, nothing, omega arith)
add_squares-SquareSum (suc f) zero sum h = (0, nothing, omega arith)
add_squares-SquareSum zero (suc b) sum h = absurd (omega arith)
add_squares-SquareSum (suc f) (suc b) sum h =
    let (s, is, e) =
      add_squares-SquareSum f (suc b / 10) (sum + (suc b % 10) * (suc b % 10)) (omega arith) in
    (_, digit (omega arith) is, add_squares-more f (suc b) sum (omega arith) ∙ e ∙ omega arith)

-- What one round adds up.
abbrev pub sum_of : ℕ → ℕ
sum_of a = add_squares a a 0

pub sum_of-SquareSum : (a : ℕ) → SquareSum a (sum_of a)
sum_of-SquareSum a =
    let (s, is, e) = add_squares-SquareSum a a 0 (omega arith) in
    subst (SquareSum a) (sym (e ∙ omega arith)) is

pub SquareSum-unique : {a s t : ℕ} → SquareSum a s → SquareSum a t → s ≡ t
SquareSum-unique nothing nothing = refl
SquareSum-unique nothing (digit ne y) = absurd (ne refl)
SquareSum-unique (digit ne x) nothing = absurd (ne refl)
SquareSum-unique (digit {n} ne x) (digit ne' y) =
    ap (λ s. (n % 10) * (n % 10) + s) (SquareSum-unique x y)

pub SquareSum-sum_of : {a s : ℕ} → SquareSum a s → s ≡ sum_of a
SquareSum-sum_of {a = a} is = SquareSum-unique is (sum_of-SquareSum a)

-- The cell of a number is marked.
abbrev Marked : List ℕ → ℕ → Type 0
Marked p k = get_elem? p k ≡ some 1

-- The sums up to a number are marked, and no others.
record Visited (num : ℕ) (p : List ℕ) (a : ℕ) : Type 0 where
  at : (a ≡ num) ⊎ Chain num a
  begins : (a ≡ num) ⊎ Marked p (sum_of num)
  follows : (k : ℕ) → Marked p k → (k ≡ a) ⊎ Marked p (sum_of k)
  not_one : (k : ℕ) → Marked p k → k ≢ 1

-- Cells that are not marked.
abbrev free_cells : List ℕ → ℕ
free_cells [] = 0
free_cells (c ∷ p) = (if 1 == c then 0 else 1) + free_cells p

free_cells-set :
    (p : List ℕ) (k c : ℕ)
    → get_elem? p k ≡ some c
    → (1 == c) ≡ false
    → free_cells (set p k 1) < free_cells p
free_cells-set [] k c e new = absurd cc
free_cells-set (d ∷ p) zero c e new =
    let same : d ≡ c = some-cancel d c e in
    let one : ℕ = if 1 == d then 0 else 1 in
    let counts : one ≡ 1 = ground arith in omega (arith, counts)
free_cells-set (d ∷ p) (suc k) c e new = omega (arith, free_cells-set p k c e new)

free_cells-replicate : (n : ℕ) → free_cells (replicate n 0) ≡ n
free_cells-replicate zero = refl
free_cells-replicate (suc n) = omega (arith, free_cells-replicate n)

Marked-set : (p : List ℕ) (s k : ℕ) → s < length p → Marked p k → Marked (set p s 1) k
Marked-set p s k h is = elim (ℕ_discrete s k) [
  | yes e ↦ ap (get_elem? (set p s 1)) (sym e) ∙ get_elem?-set_self p s 1 h
  | no ne ↦ get_elem?-set_ne p 1 ne ∙ is
]

Marked-cases : (p : List ℕ) (s k : ℕ) → Marked (set p s 1) k → (k ≡ s) ⊎ Marked p k
Marked-cases p s k is = elim (ℕ_discrete s k) [
  | yes e ↦ inl (sym e)
  | no ne ↦ inr (sym (get_elem?-set_ne p 1 ne) ∙ is)
]

Chain-sum_of : (num a : ℕ) → (a ≡ num) ⊎ Chain num a → Chain num (sum_of a)
Chain-sum_of num a (inl e) =
    subst (λ k. Chain num (sum_of k)) (sym e) (first (sum_of-SquareSum num))
Chain-sum_of num a (inr c) = next c (sum_of-SquareSum a)

visit-Visited :
    (num : ℕ) (p : List ℕ) (a : ℕ)
    → Visited num p a
    → sum_of a < length p
    → sum_of a ≢ 1
    → Visited num (set p (sum_of a) 1) (sum_of a)
visit-Visited num p a v h ne = record {
  at = inr (Chain-sum_of num a (v.at));
  begins = elim (v.begins) [
    | inl e ↦ inr (
        ap (λ k. get_elem? (set p (sum_of a) 1) (sum_of k)) (sym e)
        ∙ get_elem?-set_self p (sum_of a) 1 h)
    | inr is ↦ inr (Marked-set p (sum_of a) (sum_of num) h is)
  ];
  follows = λ k is. elim (Marked-cases p (sum_of a) k is) [
    | inl e ↦ inl e
    | inr old ↦ inr (elim (v.follows k old) [
      | inl e ↦
          ap (λ j. get_elem? (set p (sum_of a) 1) (sum_of j)) e
          ∙ get_elem?-set_self p (sum_of a) 1 h
      | inr is' ↦ Marked-set p (sum_of a) (sum_of k) h is'
    ])
  ];
  not_one = λ k is. elim (Marked-cases p (sum_of a) k is) [
    | inl e ↦ λ one. ne (sym e ∙ one)
    | inr old ↦ v.not_one k old
  ];
}

-- Where a sum comes again, all sums are marked.
Chain-Marked :
    (num : ℕ) (p : List ℕ) (a : ℕ)
    → Visited num p a
    → Marked p (sum_of a)
    → {s : ℕ} → Chain num s
    → Marked p s
Chain-Marked num p a v again (first is) = elim (v.begins) [
  | inl e ↦ ap (get_elem? p) (SquareSum-sum_of is ∙ ap sum_of (sym e)) ∙ again
  | inr m ↦ ap (get_elem? p) (SquareSum-sum_of is) ∙ m
]
Chain-Marked num p a v again (next {k} c is) = elim (v.follows k (Chain-Marked num p a v again c)) [
  | inl e ↦ ap (get_elem? p) (SquareSum-sum_of is ∙ ap sum_of e) ∙ again
  | inr m ↦ ap (get_elem? p) (SquareSum-sum_of is) ∙ m
]

-- The result is 1 and the chain has the number 1, or it is 0 and the chain does not have it.
abbrev pub Answers : ℕ → Outcome → Type 0
Answers num r = ((r ≡ returned 1) × Chain num 1) ⊎ ((r ≡ returned 0) × ¬ Chain num 1)

search_one-Answers :
    (f num : ℕ) (p : List ℕ) (a : ℕ)
    → Visited num p a
    → free_cells p < f
    → Each (Answers num) (search_one f p a)
unfolding search_one
search_one-Answers zero num p a v fuel = absurd (omega arith)
search_one-Answers (suc f) num p a v fuel =
    Each-elim _ _ _ (sum_of a == 1)
      (λ other. Each-bind _ _ (get_elem? p (sum_of a)) (λ c is.
        let below = lt-length_of_get_elem? p (sum_of a) c is in
        Each-elim _ _ _ (1 == c)
          (λ new.
            search_one-Answers f num (set p (sum_of a) 1) (sum_of a)
              (visit-Visited num p a v below (ground arith))
              (omega (arith, free_cells-set p (sum_of a) c is new)))
          (λ old. inr (
            refl,
            λ c'. v.not_one 1 (Chain-Marked num p a v (is ∙ ap some (ground arith)) c') refl,
          ))))
      (λ one. inl (refl, subst (Chain num) (ground arith) (Chain-sum_of num a (v.at))))

replicate-unmarked : (n k : ℕ) → ¬ Marked (replicate n 0) k
replicate-unmarked zero k e = cc
replicate-unmarked (suc n) zero e = absurd (omega (arith, some-cancel 0 1 e))
replicate-unmarked (suc n) (suc k) e = replicate-unmarked n k e

-- Whatever number happy is given, it does not run out of rounds, and a result tells about the chain.
pub happy-Answers : (num : ℕ) → Each (Answers num) (happy num)
unfolding happy
happy-Answers num =
    let size = count_digits num num 0 * 81 in
    search_one-Answers (suc size) num (replicate size 0) num
      (record {
        at = inl refl;
        begins = inl refl;
        follows = λ k e. absurd (replicate-unmarked size k e);
        not_one = λ k e. absurd (replicate-unmarked size k e);
      })
      (omega (arith, free_cells-replicate size))
