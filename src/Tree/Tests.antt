-- ===== src/Tree/Tests.antt =====
-- A tree of five nodes, and each theorem at an input.
use chunxiao_code.Prelude.{ℕ, ◌≤◌, ◌≡◌, ◌≢◌, refl, [], ◌∷◌, ◌++◌, some, none, arith}
use chunxiao_code.Tree.{BiTree, nil, node, create, houxu, sumleaf, depth}
use chunxiao_code.Tree.Input.{text_of, Unmarked, create-text_of}
use chunxiao_code.Tree.Measures.{Descent, depth-Longest}

abbrev leaf : ℕ → BiTree
leaf ch = node ch nil nil

abbrev sample : BiTree
sample = node b'a' (node b'b' (leaf b'c') nil) (leaf b'd')

create-sample : create (text_of sample) ≡ some (sample, [])
unfolding create
create-sample = refl

measures_sample : (sumleaf sample ≡ 2) × (depth sample ≡ 3)
unfolding sumleaf depth
measures_sample = (refl, refl)

houxu-sample : houxu sample ≡ b'c' ∷ b'b' ∷ b'd' ∷ b'a' ∷ []
unfolding houxu
houxu-sample = refl

-- An input that ends too early is never accepted.
create-ended : create (b'a' ∷ b'#' ∷ []) ≡ none
unfolding create
create-ended = refl

ne_a : ◌≢◌ {A = ℕ} b'a' b'#'
ne_a e = absurd (omega arith)

leaf-Unmarked : Unmarked (leaf b'a')
leaf-Unmarked = (ne_a, tt, tt)

create-text_of_example : create (text_of (leaf b'a') ++ (b'z' ∷ [])) ≡ some (leaf b'a', b'z' ∷ [])
create-text_of_example = create-text_of (leaf b'a') (b'z' ∷ []) leaf-Unmarked

depth-Longest_example :
    Descent sample (depth sample) × ((n : ℕ) → Descent sample n → n ≤ depth sample)
depth-Longest_example = depth-Longest sample
