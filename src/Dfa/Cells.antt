-- ===== src/Dfa/Cells.antt =====
-- The arrays of nfa2dfa.c as sets: characters that are not zero, then zeros.
use chunxiao_code.Prelude.{
  ℕ, zero, suc, ◌+◌, ◌<◌, ◌≡◌, refl, ap, ◌⊎◌, inl, inr, List, [], ◌∷◌, ◌++◌, some, true, false,
  ◌==◌, lt→ltb, length, length-append, length-replicate, replicate, set, Bool-cases, arith,
  if◌then◌else◌,
}
use chunxiao_code.Prelude.Members.{member}
use chunxiao_code.Dfa.Moves.{check_char, first_free, add_state}

-- The set with the name: at its end, unless it is there.
abbrev pub insert_new : List ℕ → ℕ → List ℕ
insert_new ws name = if member ws name then ws else ws ++ (name ∷ [])

-- A set in an array with `spare` cells left.
abbrev pub cells : List ℕ → ℕ → List ℕ
cells ws spare = ws ++ replicate spare 0

abbrev pub Named : List ℕ → Type 0
Named [] = Unit
Named (x ∷ ws) = (0 < x) × Named ws

check_char-zeros : (spare name : ℕ) → 0 < name → check_char (replicate spare 0) name ≡ 1
unfolding check_char
check_char-zeros zero name h = refl
check_char-zeros (suc spare) name h = ground (arith, check_char-zeros spare name h)

check_char-member :
    (ws : List ℕ) (spare name : ℕ)
    → 0 < name
    → check_char (cells ws spare) name ≡ (if member ws name then 0 else 1)
unfolding check_char
check_char-member [] spare name h = check_char-zeros spare name h
check_char-member (x ∷ ws) spare name h = elim (Bool-cases (x == name)) [
  | inl e ↦ rw (check_char, member, e) refl
  | inr e ↦ rw (check_char, member, e) (check_char-member ws spare name h)
]

set-cells :
    (ws : List ℕ) (spare name : ℕ)
    → set (cells ws (suc spare)) (length ws) name ≡ cells (ws ++ (name ∷ [])) spare
set-cells [] spare name = refl
set-cells (x ∷ ws) spare name = ap (◌∷◌ x) (set-cells ws spare name)

pub length-cells : (ws : List ℕ) (spare : ℕ) → length (cells ws spare) ≡ length ws + spare
length-cells ws spare =
    omega (arith, length-append ws (replicate spare 0), length-replicate {A = ℕ} spare 0)

-- The search for the first zero finds the end of a set, if a cell is left.
pub first_free-cells :
    (ws : List ℕ) (spare : ℕ) → Named ws → first_free (cells ws (suc spare)) ≡ some (length ws)
unfolding first_free
first_free-cells [] spare h = refl
first_free-cells (x ∷ ws) spare (pos, h) = elim (Bool-cases (x == 0)) [
  | inl e ↦ absurd (ground arith)
  | inr e ↦ rw (first_free, e, first_free-cells ws spare h) (ap some (omega arith))
]

add_new :
    (ws : List ℕ) (spare name : ℕ)
    → 0 < name
    → 0 < spare
    → (member ws name ≡ false)
    → (left : ℕ) × (add_state (cells ws spare, length ws) name
        ≡ some (cells (insert_new ws name) left, length (insert_new ws name)))
      × (length (insert_new ws name) + left ≡ length ws + spare)
unfolding add_state
add_new ws zero name h more e = absurd (omega arith)
add_new ws (suc left) name h more e = (
  left,
  rw
      (
        check_char-member ws (suc left) name h,
        e,
        lt→ltb (length ws) (length (cells ws (suc left)))
            (omega (arith, length-cells ws (suc left))),
        set-cells ws left name,
        length-append ws (name ∷ []),
      )
      refl,
  rw e (omega (arith, length-append ws (name ∷ []))),
)

-- Adding a state to a set in an array adds it at the end of the set if it is not there, as long as it
-- is there or a cell is left; the array keeps its size, and `k` its place behind the set.
pub add_state-inserts :
    (ws : List ℕ) (spare name : ℕ)
    → 0 < name
    → (member ws name ≡ true) ⊎ (0 < spare)
    → (left : ℕ) × (add_state (cells ws spare, length ws) name
        ≡ some (cells (insert_new ws name) left, length (insert_new ws name)))
      × (length (insert_new ws name) + left ≡ length ws + spare)
unfolding add_state
add_state-inserts ws spare name h room = elim (Bool-cases (member ws name)) [
  | inl e ↦ (spare, rw (check_char-member ws spare name h, e) refl, rw e refl)
  | inr e ↦ elim room [ inl there ↦ absurd cc | inr more ↦ add_new ws spare name h more e ]
]
