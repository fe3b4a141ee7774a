-- ===== src/Dfa/Moved.antt =====
-- What `Smove` of nfa2dfa.c leaves in its target.
use mathlib.Core.List.{Perm, Permᴰ, Pairwise}
use mathlib.Core.Logic.{∥∥₁_elim}
use mathlib.Core.Path.{subst}
use chunxiao_code.Prelude.{
  ℕ, suc, ◌+◌, ◌≤◌, ◌≡◌, refl, ap, ◌∙◌, List, [], ◌++◌, some, length, replicate, arith,
}
use chunxiao_code.Dfa.{bubble_sort}
use chunxiao_code.Dfa.Graph.{Vertex}
use chunxiao_code.Dfa.Moves.{smove}
use chunxiao_code.Dfa.Cells.{cells, length-cells}
use chunxiao_code.Dfa.Sorting.{bubble_sort-Sorts, take-front, drop-front}
use chunxiao_code.Dfa.Gather.{insert_all, moved, Positive, AllInside, smove_loop-Inserts}

-- Rearranging keeps the number of cells.
steps-length : {xs ys : List ℕ} → Permᴰ xs ys → length xs ≡ length ys
steps-length Permᴰ.nil = refl
steps-length (Permᴰ.cons e p) = ap suc (steps-length p)
steps-length (Permᴰ.swap e e') = refl
steps-length (Permᴰ.trans p q) = steps-length p ∙ steps-length q

pub Perm-length : {xs ys : List ℕ} → Perm xs ys → length xs ≡ length ys
Perm-length {xs} {ys} perm = ∥∥₁_elim perm (hlevel) steps-length

-- A set in an array, sorted by `BubbleSort`: it is rearranged in ascending order.
pub bubble_sort-cells :
    (ws : List ℕ) (left : ℕ)
    → (zs : List ℕ) × (bubble_sort (cells ws left) (length ws) ≡ cells zs left)
      × Perm zs ws
      × Pairwise ◌≤◌ zs
bubble_sort-cells ws left =
    let (zs, e, perm, sorted) =
      bubble_sort-Sorts (cells ws left) (length ws) (omega (arith, length-cells ws left)) in
    (
      zs,
      e ∙ rw (drop-front ws (replicate left 0) (length ws) refl) refl,
      subst (Perm zs) (take-front ws (replicate left 0) (length ws) refl) perm,
      sorted,
    )

-- `Smove` into an empty set, on a graph whose states have names that are not zero and whose edges point
-- at states: if the set of the names that `t1` leads to by the character fits the array, then it
-- succeeds and leaves that set in ascending order, with zeros behind it.
pub smove-gathers :
    (g : List Vertex) (t1 : List ℕ) (transword size : ℕ)
    → Positive g
    → AllInside (length g) g
    → length (insert_all [] (moved g transword t1)) ≤ suc size
    → (zs : List ℕ) × (left : ℕ) × (smove g t1 (replicate (suc size) 0) transword
        ≡ some (zs ++ replicate left 0))
      × (length zs + left ≡ suc size)
      × Perm zs (insert_all [] (moved g transword t1))
      × Pairwise ◌≤◌ zs
unfolding smove
smove-gathers g t1 transword size pos inside fits =
    let (left, e, n) = smove_loop-Inserts g transword t1 pos inside [] (suc size) (omega arith) in
    let (zs, e', perm, sorted) = bubble_sort-cells (insert_all [] (moved g transword t1)) left in
    (zs, left, rw e (ap some e'), omega (arith, Perm-length perm), perm, sorted)
