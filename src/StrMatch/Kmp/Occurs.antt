-- ===== src/StrMatch/Kmp/Occurs.antt =====
-- What the tables and the search of kmp_test.c mean: prefixes of a pattern that end at a place of a
-- text, borders, and the longest of them.
use chunxiao_code.Prelude.{
  ℕ, suc, ◌+◌, ◌-◌, ◌≤◌, ◌<◌, ◌≡◌, ap, sym, ◌∙◌, List, length, dec_lt, get_or, get_elem?, arith,
}
use chunxiao_code.Prelude.Int.{ℤ, pos, negsuc}

-- The character at an index, 0 past the end.
infixl 80 ◌!◌
abbrev pub ◌!◌ : List ℕ → ℕ → ℕ
xs ! i = get_or xs i 0

-- The first `k` characters of `p` are the `k` characters of `s` that end before index `i`.
pub record EndsAt (p s : List ℕ) (i k : ℕ) : Type 0 where
  pub fits : k ≤ i
  pub same : (j : ℕ) → j < k → p ! j ≡ s ! (i - k + j)

-- `k` is the longest such prefix among those shorter than `lim`.
pub record Longest (p s : List ℕ) (lim i k : ℕ) : Type 0 where
  pub ends : EndsAt p s i k
  pub short : k < lim
  pub longest : (k' : ℕ) → EndsAt p s i k' → k' < lim → k' ≤ k

-- Cell `j - 1` of the table holds the longest proper border of the first `j` characters of `p`.
abbrev pub IsTable : List ℕ → List ℕ → Type 0
IsTable p next = (j : ℕ) → 0 < j → j ≤ length next → Longest p p j j (next ! (j - 1))

-- `p` stands in `s` from index `i` on.
abbrev pub OccursAt : List ℕ → List ℕ → ℕ → Type 0
OccursAt p s i =
    (i + length p ≤ length s) × ((j : ℕ) → j < length p → get_elem? s (i + j) ≡ get_elem? p j)

-- The index of the first occurrence, or -1 for none.
abbrev pub Finds : List ℕ → List ℕ → ℤ → Type 0
Finds p s (pos i) = OccursAt p s i × ((i' : ℕ) → i' < i → OccursAt p s i' → ⊥)
Finds p s (negsuc n) = (n ≡ 0) × ((i : ℕ) → OccursAt p s i → ⊥)

-- A shorter prefix that ends at the same place is a border of the longer one.
pub EndsAt-border :
    (p s : List ℕ) (i k k' : ℕ) → EndsAt p s i k → EndsAt p s i k' → k' ≤ k → EndsAt p p k k'
EndsAt-border p s i k k' e e' h = record {
  fits = h;
  same = λ j hj.
      e'.same j hj ∙ ap (◌!◌ s) (omega (arith, e.fits)) ∙ sym (e.same (k - k' + j) (omega arith));
}

-- A border of a prefix that ends at a place ends there too.
pub EndsAt-trans : (p s : List ℕ) (i k k' : ℕ) → EndsAt p s i k → EndsAt p p k k' → EndsAt p s i k'
EndsAt-trans p s i k k' e b = record {
  fits = omega (arith, e.fits, b.fits);
  same = λ j hj.
      b.same j hj
      ∙ e.same (k - k' + j) (omega (arith, b.fits))
      ∙ ap (◌!◌ s) (omega (arith, b.fits, e.fits));
}

-- One more character.
pub EndsAt-suc :
    (p s : List ℕ) (i k : ℕ) → EndsAt p s i k → p ! k ≡ s ! i → EndsAt p s (i + 1) (k + 1)
EndsAt-suc p s i k e h = record {
  fits = omega (arith, e.fits);
  same = λ j hj. elim (dec_lt j k) [
    | yes lt ↦ e.same j lt ∙ ap (◌!◌ s) (omega arith)
    | no ge ↦ ap (◌!◌ p) (omega arith) ∙ h ∙ ap (◌!◌ s) (omega (arith, e.fits))
  ];
}

pub EndsAt-pred :
    (p s : List ℕ) (i k : ℕ) → EndsAt p s (i + 1) (suc k) → EndsAt p s i k × (p ! k ≡ s ! i)
EndsAt-pred p s i k e = (
  record {
    fits = omega (arith, e.fits);
    same = λ j hj. e.same j (omega arith) ∙ ap (◌!◌ s) (omega arith);
  },
  e.same k (omega arith) ∙ ap (◌!◌ s) (omega (arith, e.fits)),
)

pub EndsAt-zero : (p s : List ℕ) (i : ℕ) → EndsAt p s i 0
EndsAt-zero p s i = record { fits = omega arith; same = λ j h. absurd (omega arith) }
