-- ===== src/Tree/Measures.antt =====
-- The traversals of tree.c against one another, and the depth of a tree.
use mathlib.Core.List.{Perm, perm_middle, append_assoc, append-nil}
use mathlib.Core.List.Perm
use chunxiao_code.Prelude.{ℕ, ◌+◌, ◌≤◌, [], ◌∷◌, ◌++◌, ltb, Bool-cases, inl, inr, arith}
use chunxiao_code.Tree.{BiTree, nil, node, preorder, zhongxu, houxu, depth}

zhongxu-preorder : (t : BiTree) → Perm (zhongxu t) (preorder t)
unfolding zhongxu preorder
zhongxu-preorder nil = Perm.refl []
zhongxu-preorder (node ch l r) =
    Perm.trans (perm_middle (zhongxu l) (zhongxu r))
      (Perm.cons ch (Perm.append (zhongxu-preorder l) (zhongxu-preorder r)))

houxu-preorder : (t : BiTree) → Perm (houxu t) (preorder t)
unfolding houxu preorder
houxu-preorder nil = Perm.refl []
houxu-preorder (node ch l r) =
    Perm.trans
      (rw (← append_assoc (houxu l) (houxu r) (ch ∷ [])) (
        Perm.trans (perm_middle (houxu l ++ houxu r) [])
          (rw append-nil (Perm.refl (ch ∷ (houxu l ++ houxu r))))))
      (Perm.cons ch (Perm.append (houxu-preorder l) (houxu-preorder r)))

-- The three traversals print the same characters, each as often.
pub traversals-perm : (t : BiTree) → Perm (zhongxu t) (preorder t) × Perm (houxu t) (preorder t)
traversals-perm t = (zhongxu-preorder t, houxu-preorder t)

-- A path from the root down to an empty place, and the number of nodes on it.
pub data Descent : BiTree → ℕ → Type 0 where
  stops : Descent nil 0
  left : {ch n : ℕ} {l r : BiTree} → Descent l n → Descent (node ch l r) (1 + n)
  right : {ch n : ℕ} {l r : BiTree} → Descent r n → Descent (node ch l r) (1 + n)

depth-Reached : (t : BiTree) → Descent t (depth t)
unfolding depth
depth-Reached nil = stops
depth-Reached (node ch l r) = elim (Bool-cases (ltb (depth r) (depth l))) [
  | inl deeper ↦ rw deeper (left (depth-Reached l))
  | inr other ↦ rw other (right (depth-Reached r))
]

Descent-depth : (t : BiTree) (n : ℕ) → Descent t n → n ≤ depth t
unfolding depth
Descent-depth _ n stops = omega arith
Descent-depth _ _ (left {ch} {n} {l} {r} path) = ground (arith, Descent-depth l n path)
Descent-depth _ _ (right {ch} {n} {l} {r} path) = ground (arith, Descent-depth r n path)

-- The depth is the number of nodes on a path from the root to an empty place, and no such path
-- has more: both for every tree.
pub depth-Longest : (t : BiTree) → Descent t (depth t) × ((n : ℕ) → Descent t n → n ≤ depth t)
depth-Longest t = (depth-Reached t, Descent-depth t)
