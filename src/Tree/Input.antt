-- ===== src/Tree/Input.antt =====
-- `Create` reads exactly the trees that a preorder with a mark for each empty tree writes.
use chunxiao_code.Prelude.{
  ℕ, zero, suc, ◌≤◌, ◌≡◌, ◌≢◌, refl, sym, ap, ◌∙◌, List, [], ◌∷◌, ◌++◌, some, length, length-append,
  ◌==◌, ==_iff, Bool-cases, Option-cases, inl, inr, arith,
}
use chunxiao_code.Prelude.Fault.{some-cancel}
use mathlib.Core.Path.{subst}
use mathlib.Core.List.{append_assoc}
use chunxiao_code.Tree.{BiTree, nil, node, create_from, create}

-- The text of a tree: its preorder, `#` for an empty tree.
abbrev pub text_of : BiTree → List ℕ
text_of nil = b'#' ∷ []
text_of (node ch l r) = ch ∷ (text_of l ++ text_of r)

-- No node carries the mark.
abbrev pub Unmarked : BiTree → Type 0
Unmarked nil = Unit
Unmarked (node ch l r) = (ch ≢ b'#') × Unmarked l × Unmarked r

create_from-text_of :
    (t : BiTree) (f : ℕ) (rest : List ℕ)
    → Unmarked t
    → length (text_of t) ≤ f
    → create_from f (text_of t ++ rest) ≡ some (t, rest)
unfolding create_from
create_from-text_of nil zero rest u h = absurd (omega arith)
create_from-text_of nil (suc f) rest u h = refl
create_from-text_of (node ch l r) zero rest u h = absurd (omega arith)
create_from-text_of (node ch l r) (suc f) rest (ne, ul, ur) h = elim (Bool-cases (ch == b'#')) [
  | inl mark ↦ absurd (ne ((==_iff ch b'#').0 mark))
  | inr other ↦ rw (
    other,
    append_assoc (text_of l) (text_of r) rest,
    create_from-text_of l f (text_of r ++ rest) ul
        (omega (arith, length-append (text_of l) (text_of r))),
    create_from-text_of r f rest ur (omega (arith, length-append (text_of l) (text_of r))),
  )
]

-- A tree none of whose nodes carries the mark is read back from its text, whatever stands behind it,
-- and what stands behind it is left.
pub create-text_of :
    (t : BiTree) (rest : List ℕ) → Unmarked t → create (text_of t ++ rest) ≡ some (t, rest)
unfolding create
create-text_of t rest u =
    create_from-text_of t (suc (length (text_of t ++ rest))) rest u
      (omega (arith, length-append (text_of t) rest))

-- A tree and a rest that account for an input.
abbrev Accounts : List ℕ → BiTree × List ℕ → Type 0
Accounts input (t, rest) = (input ≡ text_of t ++ rest) × Unmarked t

Accounts-node :
    (ch : ℕ) (input : List ℕ) (l : BiTree) (input' : List ℕ) (r : BiTree) (rest : List ℕ)
    → ch ≢ b'#'
    → Accounts input (l, input')
    → Accounts input' (r, rest)
    → Accounts (ch ∷ input) (node ch l r, rest)
Accounts-node ch input l input' r rest ne (el, ul) (er, ur) = (
  ap (◌∷◌ ch) (el ∙ ap (◌++◌ (text_of l)) er ∙ sym (append_assoc (text_of l) (text_of r) rest)),
  (ne, ul, ur),
)

create_from-Accounts :
    (f : ℕ) (input : List ℕ) (out : BiTree × List ℕ)
    → create_from f input ≡ some out
    → Accounts input out
unfolding create_from
create_from-Accounts zero input out h = cc
create_from-Accounts (suc f) [] out h = cc
create_from-Accounts (suc f) (ch ∷ input) out h = elim (Bool-cases (ch == b'#')) [
  | inl mark ↦
      subst (Accounts (ch ∷ input)) (some-cancel _ _ (rw mark at h))
        (ap (λ c. c ∷ input) ((==_iff ch b'#').0 mark), tt)
  | inr other ↦ elim (Option-cases (create_from f input)) [
    | inl ended ↦ cc (rw (other, ended) at h)
    | inr ((l, input'), el) ↦ elim (Option-cases (create_from f input')) [
      | inl ended ↦ cc (rw (other, el, ended) at h)
      | inr ((r, rest), er) ↦
          subst (Accounts (ch ∷ input)) (some-cancel _ _ (rw (other, el, er) at h)) (
            Accounts-node ch input l input' r rest (λ e. cc (other, (==_iff ch b'#').1 e))
              (create_from-Accounts f input (l, input') el)
              (create_from-Accounts f input' (r, rest) er))
    ]
  ]
]

-- Whatever `Create` returns accounts for its input: the input is the text of the tree, none of whose
-- nodes carries the mark, followed by what is left.
pub create-Accounts :
    (input : List ℕ) (t : BiTree) (rest : List ℕ)
    → create input ≡ some (t, rest)
    → (input ≡ text_of t ++ rest) × Unmarked t
unfolding create
create-Accounts input t rest = create_from-Accounts (suc (length input)) input (t, rest)
