-- ===== src/Prelude/Members.antt =====
-- Membership as a test, and sets as lists without repetition.
use chunxiao_code.Prelude.{
  ℕ, suc, ◌≤◌, ◌≡◌, refl, List, [], ◌∷◌, ◌++◌, Bool, true, false, ◌||◌, ◌==◌, length, arith,
}

abbrev pub member : List ℕ → ℕ → Bool
member [] name = false
member (x ∷ ws) name = elim (x == name) [ true ↦ true | false ↦ member ws name ]

abbrev pub Distinct : List ℕ → Type 0
Distinct [] = Unit
Distinct (x ∷ ws) = (member ws x ≡ false) × Distinct ws

abbrev pub Within : List ℕ → List ℕ → Type 0
Within ws names = (b : ℕ) → member ws b ≡ true → member names b ≡ true

pub member-append : (xs ys : List ℕ) (b : ℕ) → member (xs ++ ys) b ≡ (member xs b || member ys b)
member-append [] ys b = refl
member-append (x ∷ xs) ys b = ground (arith, member-append xs ys b)

pub Distinct-last :
    (ws : List ℕ) (x : ℕ) → Distinct ws → member ws x ≡ false → Distinct (ws ++ (x ∷ []))
Distinct-last [] x d new = (refl, tt)
Distinct-last (w ∷ ws) x (out, d) new =
    (ground (arith, member-append ws (x ∷ []) w), Distinct-last ws x d (ground arith))

-- The list without the first cell of a name.
remove : ℕ → List ℕ → List ℕ
remove a [] = []
remove a (x ∷ xs) = elim (x == a) [ true ↦ xs | false ↦ x ∷ remove a xs ]

length-remove : (a : ℕ) (xs : List ℕ) → member xs a ≡ true → suc (length (remove a xs)) ≡ length xs
unfolding remove
length-remove a [] at = absurd cc
length-remove a (x ∷ xs) at = ground (arith, length-remove a xs)

member-remove :
    (a b : ℕ) (xs : List ℕ) → (b == a) ≡ false → member xs b ≡ true → member (remove a xs) b ≡ true
unfolding remove
member-remove a b [] ne at = at
member-remove a b (x ∷ xs) ne at = ground (arith, member-remove a b xs ne)

-- A set within a list is no longer than the list.
pub Distinct-length : (ws names : List ℕ) → Distinct ws → Within ws names → length ws ≤ length names
Distinct-length [] names d sub = omega arith
Distinct-length (w ∷ ws) names (out, d) sub = omega (
  arith,
  length-remove w names (sub w (ground arith)),
  Distinct-length ws (remove w names) d
      (λ b at. member-remove w b names (ground arith) (sub b (ground arith))),
)
