-- ===== src/Tree.antt =====
-- c-study/tree/tree.c: a binary tree that is read from its preorder, its traversals and measures.
-- `malloc` succeeds. A traversal is the list of the characters that it prints.
pub mod Input
pub mod Measures
mod Tests
use chunxiao_code.Prelude.{
  ℕ, zero, suc, ◌+◌, List, [], ◌∷◌, ◌++◌, Option, none, some, Bool, true, false, ◌&&◌, ◌==◌, ltb,
  length, if◌then◌else◌,
}
use chunxiao_code.Prelude.Fault.{◌>>=◌}

-- `BiTNode`; `nil` is NULL.
pub data BiTree : Type 0 where
  nil : BiTree
  node : ℕ → BiTree → BiTree → BiTree

-- `Create` on what `getchar` will give, with fuel for the depth of the calls. At the end of the input
-- the source builds nodes for ever: `none`.
unfoldable pub create_from : ℕ → List ℕ → Option (BiTree × List ℕ)
create_from zero input = none
create_from (suc f) [] = none
create_from (suc f) (ch ∷ input) =
    let children = create_from f input >>= λ (l, input').
    create_from f input' >>= λ (r, rest). some (node ch l r, rest) in
    if ch == b'#' then some (nil, input) else children

-- No path of the tree is longer than the input (`Input`).
unfoldable pub create : List ℕ → Option (BiTree × List ℕ)
unfolding create_from
create input = create_from (suc (length input)) input

unfoldable pub preorder : BiTree → List ℕ
preorder nil = []
preorder (node ch l r) = ch ∷ (preorder l ++ preorder r)

-- `zhongxu`
unfoldable pub zhongxu : BiTree → List ℕ
zhongxu nil = []
zhongxu (node ch l r) = zhongxu l ++ (ch ∷ zhongxu r)

-- `houxu`
unfoldable pub houxu : BiTree → List ℕ
houxu nil = []
houxu (node ch l r) = houxu l ++ (houxu r ++ (ch ∷ []))

abbrev pub is_nil : BiTree → Bool
is_nil nil = true
is_nil (node ch l r) = false

unfoldable pub sumleaf : BiTree → ℕ
sumleaf nil = 0
sumleaf (node ch l r) = (if is_nil l && is_nil r then 1 else 0) + sumleaf l + sumleaf r

unfoldable pub depth : BiTree → ℕ
depth nil = 0
depth (node ch l r) = 1 + (if ltb (depth r) (depth l) then depth l else depth r)
