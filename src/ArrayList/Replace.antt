-- ===== src/ArrayList/Replace.antt =====
-- The two writes of `del_elem` of array_list.c in a chain of one block.
use chunxiao_code.Prelude.{
  ℕ, ◌≡◌, refl, ap, ◌∙◌, inl, inr, List, [], ◌∷◌, ◌++◌, some, ◌==◌, length, length-append,
  Bool-cases, arith, set, get_elem?,
}
use chunxiao_code.ArrayList.{Cell, Block}
use chunxiao_code.ArrayList.Chain.{taken}
use chunxiao_code.ArrayList.Delete.{Search, replace_by_last}

abbrev pub cell : ℕ → ℕ → Cell
cell u x = record { used = u; item = x }

pub taken-append :
    (xs ys : List ℕ) (rest : Block) → taken (xs ++ ys) ++ rest ≡ taken xs ++ (taken ys ++ rest)
taken-append [] ys rest = refl
taken-append (x ∷ xs) ys rest = ap (◌∷◌ (cell 1 x)) (taken-append xs ys rest)

get_elem?-taken :
    (xs : List ℕ) (c : Cell) (rest : Block)
    → get_elem? (taken xs ++ (c ∷ rest)) (length xs) ≡ some c
get_elem?-taken [] c rest = refl
get_elem?-taken (x ∷ xs) c rest = get_elem?-taken xs c rest

set-taken :
    (xs : List ℕ) (c c' : Cell) (rest : Block)
    → set (taken xs ++ (c ∷ rest)) (length xs) c' ≡ taken xs ++ (c' ∷ rest)
set-taken [] c c' rest = refl
set-taken (x ∷ xs) c c' rest = ap (◌∷◌ (cell 1 x)) (set-taken xs c c' rest)

-- The two writes, in a chain of one block.
replace_one :
    (b b₁ b₂ : Block) (s : Search) (i j : ℕ) (d l l₁ : Cell)
    → get_elem? b i ≡ some d
    → get_elem? b j ≡ some l
    → set b i (cell (d.used) (l.item)) ≡ b₁
    → get_elem? b₁ j ≡ some l₁
    → set b₁ j (cell 0 (l₁.item)) ≡ b₂
    → replace_by_last (b ∷ []) s (0, i) (0, j) ≡ some (b₂ ∷ [], 0)
unfolding replace_by_last
replace_one b b₁ b₂ s i j d l l₁ at_i at_j e₁ at_j₁ e₂ = elim (Bool-cases (j == 0)) [
  | inl z ↦ rw (at_i, at_j, e₁, at_j₁, e₂, z) refl
  | inr z ↦ rw (at_i, at_j, e₁, at_j₁, e₂, z) refl
]

-- The deletion of the last used cell, of another used cell, and of the first free cell.
pub replace_last :
    (us : List ℕ) (item : ℕ) (cells : Block) (s : Search)
    → replace_by_last ((taken us ++ (cell 1 item ∷ cells)) ∷ []) s (0, length us) (0, length us)
      ≡ some ((taken us ++ (cell 0 item ∷ cells)) ∷ [], 0)
replace_last us item cells s =
    let b = taken us ++ (cell 1 item ∷ cells) in
    let at = get_elem?-taken us (cell 1 item) cells in
    replace_one b b (taken us ++ (cell 0 item ∷ cells)) s (length us) (length us) (cell 1 item)
      (cell 1 item) (cell 1 item) at at (set-taken us (cell 1 item) (cell 1 item) cells) at
      (set-taken us (cell 1 item) (cell 0 item) cells)

pub replace_inner :
    (us vs : List ℕ) (item l : ℕ) (cells : Block) (s : Search)
    → replace_by_last
        ((taken (us ++ (item ∷ vs)) ++ (cell 1 l ∷ cells)) ∷ [])
        s
        (0, length us)
        (0, length (us ++ (item ∷ vs)))
      ≡ some ((taken (us ++ (l ∷ vs)) ++ (cell 0 l ∷ cells)) ∷ [], 0)
replace_inner us vs item l cells s =
    let rest = cell 1 l ∷ cells in
    let split = taken-append us (item ∷ vs) rest in
    let joined = taken-append us (l ∷ vs) rest in
    let n : length (us ++ (l ∷ vs)) ≡ length (us ++ (item ∷ vs)) =
      omega (arith, length-append us (l ∷ vs), length-append us (item ∷ vs)) in
    let b₁ = taken (us ++ (l ∷ vs)) ++ rest in
    let b₂ = taken (us ++ (l ∷ vs)) ++ (cell 0 l ∷ cells) in
    replace_one (taken (us ++ (item ∷ vs)) ++ rest) b₁ b₂ s (length us) (length (us ++ (item ∷ vs)))
      (cell 1 item) (cell 1 l) (cell 1 l)
      (rw split (get_elem?-taken us (cell 1 item) (taken vs ++ rest)))
      (get_elem?-taken (us ++ (item ∷ vs)) (cell 1 l) cells)
      (rw (split, joined) (set-taken us (cell 1 item) (cell 1 l) (taken vs ++ rest)))
      (rw (← n) (get_elem?-taken (us ++ (l ∷ vs)) (cell 1 l) cells))
      (rw (← n) (set-taken (us ++ (l ∷ vs)) (cell 1 l) (cell 0 l) cells))

pub replace_stale :
    (ws : List ℕ) (item l : ℕ) (cells : Block) (s : Search)
    → replace_by_last
        ((taken (ws ++ (l ∷ [])) ++ (cell 0 item ∷ cells)) ∷ [])
        s
        (0, length (ws ++ (l ∷ [])))
        (0, length ws)
      ≡ some ((taken ws ++ (cell 0 l ∷ cell 0 l ∷ cells)) ∷ [], 0)
replace_stale ws item l cells s =
    let b = taken (ws ++ (l ∷ [])) ++ (cell 0 item ∷ cells) in
    let split = taken-append ws (l ∷ []) (cell 0 item ∷ cells) in
    let joined = taken-append ws (l ∷ []) (cell 0 l ∷ cells) in
    let b₁ = taken ws ++ (cell 1 l ∷ cell 0 l ∷ cells) in
    let b₂ = taken ws ++ (cell 0 l ∷ cell 0 l ∷ cells) in
    replace_one b b₁ b₂ s (length (ws ++ (l ∷ []))) (length ws) (cell 0 item) (cell 1 l) (cell 1 l)
      (get_elem?-taken (ws ++ (l ∷ [])) (cell 0 item) cells)
      (rw split (get_elem?-taken ws (cell 1 l) (cell 0 item ∷ cells)))
      (set-taken (ws ++ (l ∷ [])) (cell 0 item) (cell 0 l) cells ∙ joined)
      (get_elem?-taken ws (cell 1 l) (cell 0 l ∷ cells))
      (set-taken ws (cell 1 l) (cell 0 l) (cell 0 l ∷ cells))
