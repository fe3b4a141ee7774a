-- ===== src/Dfa/Sorting.antt =====
-- What `BubbleSort` of nfa2dfa.c does to an array.
use mathlib.Core.List.{Perm, Mem, Pairwise, Pairwise-append, Pairwise-singleton, append_assoc}
use mathlib.Core.List.{not-mem-nil, eq-or-mem_of_mem-cons}
use mathlib.Core.List.Perm
use mathlib.Core.Logic.Or
use native.Mathlib.Bridge.{le_prop}
use chunxiao_code.Prelude.{
  ℕ, zero, suc, ◌≤◌, ◌≡◌, refl, ap, ◌∙◌, List, [], ◌∷◌, ◌++◌, length, take, drop, ltb, Bool-cases,
  inl, inr, arith, length-append,
}
use chunxiao_code.Dfa.{bubble, sort_rounds, bubble_sort}

-- After `n` rounds on an array that starts with `x`, the greatest of the first `n + 1` cells stands
-- behind the others, and the rest is as it was.
abbrev Tops : ℕ → ℕ → List ℕ → List ℕ → Type 0
Tops n x xs after =
    (ys : List ℕ) × (m : ℕ) × (after ≡ ys ++ (m ∷ drop n xs))
    × (length ys ≡ n)
    × Perm (ys ++ (m ∷ [])) (x ∷ take n xs)
    × (x ≤ m)
    × ((b : ℕ) → Mem b ys → b ≤ m)

below-cons :
    (lo m : ℕ) (ys : List ℕ)
    → lo ≤ m
    → ((b : ℕ) → Mem b ys → b ≤ m)
    → (b : ℕ) → Mem b (lo ∷ ys)
    → b ≤ m
below-cons lo m ys h all b at =
    Or.elim le_prop (eq-or-mem_of_mem-cons at) (λ e. omega arith) (λ i. all b i)

Tops-cons :
    (n x y lo hi : ℕ) (xs after : List ℕ)
    → Perm (lo ∷ hi ∷ []) (x ∷ y ∷ [])
    → lo ≤ hi
    → x ≤ hi
    → Tops n hi xs after
    → Tops (suc n) x (y ∷ xs) (lo ∷ after)
Tops-cons n x y lo hi xs after swap lo_hi x_hi (ys, m, e, len, perm, top, all) = (
  lo ∷ ys,
  m,
  ap (◌∷◌ lo) e,
  omega arith,
  Perm.trans (Perm.cons lo perm) (Perm.append swap (Perm.refl (take n xs))),
  omega arith,
  below-cons lo m ys (omega arith) all,
)

bubble-Tops : (n x : ℕ) (xs : List ℕ) → n ≤ length xs → Tops n x xs (bubble n (x ∷ xs))
unfolding bubble
bubble-Tops zero x xs h =
    ([], x, refl, refl, Perm.refl (x ∷ []), omega arith, λ b at. absurd (not-mem-nil at))
bubble-Tops (suc n) x [] h = absurd (omega arith)
bubble-Tops (suc n) x (y ∷ xs) h = elim (Bool-cases (ltb y x)) [
  | inl e ↦
      rw (bubble, e)
        (Tops-cons n x y y x xs (bubble n (x ∷ xs)) (Perm.swap x y []) (ground arith) (omega arith)
          (bubble-Tops n x xs (omega arith)))
  | inr e ↦
      rw (bubble, e)
        (Tops-cons n x y x y xs (bubble n (y ∷ xs)) (Perm.refl (x ∷ y ∷ [])) (ground arith)
          (ground arith) (bubble-Tops n y xs (omega arith)))
]

-- `sort_rounds` sorts the first `n` cells, and leaves the rest.
abbrev Sorts : ℕ → List ℕ → List ℕ → Type 0
Sorts n a after = (zs : List ℕ) × (after ≡ zs ++ drop n a) × Perm zs (take n a) × Pairwise ◌≤◌ zs

le_last :
    (m : ℕ) (ys zs : List ℕ)
    → Perm zs ys
    → ((b : ℕ) → Mem b ys → b ≤ m)
    → (b : ℕ) → Mem b zs
    → (c : ℕ) → Mem c (m ∷ [])
    → b ≤ c
le_last m ys zs perm all b at c at' =
    Or.elim le_prop (eq-or-mem_of_mem-cons at')
      (λ e. omega (arith, all b ((Perm.mem_iff perm).0 at))) (λ i. absurd (not-mem-nil i))

pub take-front : (ys rest : List ℕ) (n : ℕ) → length ys ≡ n → take n (ys ++ rest) ≡ ys
take-front [] rest zero h = refl
take-front [] rest (suc n) h = absurd (omega arith)
take-front (y ∷ ys) rest zero h = absurd (omega arith)
take-front (y ∷ ys) rest (suc n) h = ap (◌∷◌ y) (take-front ys rest n (omega arith))

pub drop-front : (ys rest : List ℕ) (n : ℕ) → length ys ≡ n → drop n (ys ++ rest) ≡ rest
drop-front [] rest zero h = refl
drop-front [] rest (suc n) h = absurd (omega arith)
drop-front (y ∷ ys) rest zero h = absurd (omega arith)
drop-front (y ∷ ys) rest (suc n) h = drop-front ys rest n (omega arith)

-- The greatest cell joins the sorted cells at their end.
Sorts-step :
    (n x m : ℕ) (xs ys after : List ℕ)
    → length ys ≡ n
    → Perm (ys ++ (m ∷ [])) (x ∷ take n xs)
    → ((b : ℕ) → Mem b ys → b ≤ m)
    → Sorts n (ys ++ (m ∷ drop n xs)) after
    → Sorts (suc n) (x ∷ xs) after
Sorts-step n x m xs ys after len perm all (zs, e, zperm, sorted) =
    let zperm' : Perm zs ys = rw (← take-front ys (m ∷ drop n xs) n len) zperm in
    (
      zs ++ (m ∷ []),
      e ∙ rw (drop-front ys (m ∷ drop n xs) n len, append_assoc zs (m ∷ []) (drop n xs)) refl,
      Perm.trans (Perm.append zperm' (Perm.refl (m ∷ []))) perm,
      (Pairwise-append (λ a b. le_prop)).1
          (sorted, Pairwise-singleton ◌≤◌ m, le_last m ys zs zperm' all),
    )

sort_rounds-Sorts : (n : ℕ) (a : List ℕ) → n ≤ length a → Sorts n a (sort_rounds n a)
unfolding sort_rounds
sort_rounds-Sorts zero a h = ([], refl, Perm.refl [], Pairwise.nil)
sort_rounds-Sorts (suc n) [] h = absurd (omega arith)
sort_rounds-Sorts (suc n) (x ∷ xs) h =
    let (ys, m, e, len, perm, top, all) = bubble-Tops n x xs (omega arith) in
    Sorts-step n x m xs ys (sort_rounds n (bubble n (x ∷ xs))) len perm all (
      rw e (
        sort_rounds-Sorts n (ys ++ (m ∷ drop n xs))
          (omega (arith, length-append ys (m ∷ drop n xs)))))

-- `BubbleSort(a, len)` on an array of at least `len` cells: the first `len` cells are rearranged in
-- ascending order, and the cells behind them are as they were.
pub bubble_sort-Sorts :
    (a : List ℕ) (len : ℕ)
    → len ≤ length a
    → (zs : List ℕ) × (bubble_sort a len ≡ zs ++ drop len a)
      × Perm zs (take len a)
      × Pairwise ◌≤◌ zs
unfolding bubble_sort
bubble_sort-Sorts a len h = sort_rounds-Sorts len a h
