-- ===== src/Dfa/Closed.antt =====
-- What `E_Closure` of nfa2dfa.c leaves in its array.
use mathlib.Core.List.{Perm, Permᴰ, Pairwise}
use mathlib.Core.List.Perm
use mathlib.Core.Path.{ap₂}
use mathlib.Core.Bool.{Bool-set}
use mathlib.Core.Logic.{∥∥₁_elim}
use chunxiao_code.Prelude.{
  ℕ, suc, ◌+◌, ◌≤◌, ◌<◌, ◌≡◌, refl, ap, sym, ◌∙◌, ◌↔◌, Option, List, [], ◌∷◌, ◌++◌, some, true,
  false, length, replicate, arith,
}
use chunxiao_code.Prelude.Fault.{◌>>=◌}
use chunxiao_code.Dfa.{bubble_sort}
use chunxiao_code.Dfa.Graph.{Vertex}
use chunxiao_code.Dfa.Positions.{states}
use chunxiao_code.Dfa.Moves.{e_closure, closure_loop}
use chunxiao_code.Prelude.Members.{member}
use chunxiao_code.Dfa.Cells.{cells, length-cells, Named, first_free-cells}
use chunxiao_code.Dfa.Gather.{Positive, AllInside}
use chunxiao_code.Dfa.Moved.{Perm-length, bubble_sort-cells}
use chunxiao_code.Prelude.Members.{Distinct, Within}
use chunxiao_code.Dfa.Arrows.{Reach, here, step, states-Positive}
use chunxiao_code.Dfa.Closure.{empty, Closed, loop-Closes}

-- Rearranging a set.
steps-member : {xs ys : List ℕ} (b : ℕ) → Permᴰ xs ys → member xs b ≡ member ys b
steps-member b Permᴰ.nil = refl
steps-member b (Permᴰ.cons e p) = ground (arith, e, steps-member b p)
steps-member b (Permᴰ.swap e e') = ground (arith, e, e')
steps-member b (Permᴰ.trans p q) = steps-member b p ∙ steps-member b q

Perm-member : {xs ys : List ℕ} (b : ℕ) → Perm xs ys → member xs b ≡ member ys b
Perm-member {xs} {ys} b perm = ∥∥₁_elim perm (hlevel) (steps-member b)

steps-Distinct : {xs ys : List ℕ} → Permᴰ xs ys → Distinct xs → Distinct ys
steps-Distinct Permᴰ.nil d = d
steps-Distinct (Permᴰ.cons {a} {b} {l₁} e p) (out, d) =
    (ground (arith, e, steps-member b p, ap (member l₁) e), steps-Distinct p d)
steps-Distinct (Permᴰ.swap e e') d = ground (arith, e, e')
steps-Distinct (Permᴰ.trans p q) d = steps-Distinct q (steps-Distinct p d)

Distinct-prop : (ws : List ℕ) → IsProp (Distinct ws)
Distinct-prop [] d d' = refl
Distinct-prop (x ∷ ws) (out, d) (out', d') =
    ap₂ (λ o p. (o, p)) (Bool-set (member ws x) false out out') (Distinct-prop ws d d')

Perm-Distinct : {xs ys : List ℕ} → Perm xs ys → Distinct xs → Distinct ys
Perm-Distinct {xs} {ys} perm d = ∥∥₁_elim perm (Distinct-prop ys) (λ p. steps-Distinct p d)

-- The cells of a set of states are not zero.
Within-Named : (g : List Vertex) (ws : List ℕ) → Positive g → Within ws (states g) → Named ws
Within-Named g [] pos within = tt
Within-Named g (w ∷ ws) pos within = (
  states-Positive g w pos (within w (ground arith)),
  Within-Named g ws pos (λ b at. within b (ground arith)),
)

module _ (g : List Vertex) (ws : List ℕ) where
  -- A set that is closed has whatever is reached from its states.
  Reach-member :
      {a b : ℕ} → Closed g empty ws ws → member ws a ≡ true → Reach g empty a b → member ws b ≡ true
  Reach-member closed at here = at
  Reach-member closed at (step {b} {c} way arrow) = closed b c (Reach-member closed at way) arrow

-- `E_Closure` is its loop, then `BubbleSort`.
e_closure-run :
    (g : List Vertex) (first ws zs : List ℕ) (spare left : ℕ)
    → Named first
    → closure_loop (suc (length first + suc spare)) g 0 (cells first (suc spare), length first)
      ≡ some (cells ws left, length ws)
    → bubble_sort (cells ws left) (length ws) ≡ cells zs left
    → e_closure g (cells first (suc spare)) ≡ some (cells zs left)
unfolding e_closure
e_closure-run g first ws zs spare left named e sorted =
    let finish : List ℕ × ℕ → Option (List ℕ) = λ s. some (bubble_sort (s.0) (s.1)) in
    let search : ℕ → ℕ → Option (List ℕ) =
      λ n k. closure_loop (suc n) g 0 (cells first (suc spare), k) >>= finish in
    ap (λ o. o >>= search (length (cells first (suc spare)))) (first_free-cells first spare named)
    ∙ ap (λ n. search n (length first)) (length-cells first (suc spare))
    ∙ ap (λ o. o >>= finish) e
    ∙ ap some sorted

-- `E_Closure` on a graph whose states have names that are not zero and whose edges point at states, and
-- on a set of its states in an array with more cells than the graph has states: the loop ends
-- inside the array, and what it leaves is, in ascending order and each once, exactly the states
-- that are reached from the set by edges with the empty character, with zeros behind them.
pub e_closure-Reaches :
    (g : List Vertex) (first : List ℕ) (spare : ℕ)
    → Positive g
    → AllInside (length g) g
    → length g < length first + suc spare
    → Distinct first
    → Within first (states g)
    → (zs : List ℕ) × (left : ℕ) × (e_closure g (first ++ replicate (suc spare) 0)
        ≡ some (zs ++ replicate left 0))
      × (length zs + left ≡ length first + suc spare)
      × Pairwise ◌≤◌ zs
      × Distinct zs
      × ((b : ℕ) → (member zs b ≡ true) ↔ ((a : ℕ) × (member first a ≡ true) × Reach g empty a b))
e_closure-Reaches g first spare pos inside small distinct within =
    let (ws, left, e, done) =
      loop-Closes g (length first + suc spare) first pos inside small (suc spare)
        (record { distinct = distinct; within = within; room = refl }) in
    let (zs, e', perm, sorted) = bubble_sort-cells ws left in
    (
      zs,
      left,
      e_closure-run g first ws zs spare left (Within-Named g first pos within) e e',
      omega (arith, Perm-length perm, done.fits.room),
      sorted,
      Perm-Distinct (Perm.symm perm) done.fits.distinct,
      λ b. (
        λ at. done.from b (sym (Perm-member b perm) ∙ at),
        λ (a, at, way). Perm-member b perm ∙ Reach-member g ws done.closed (done.keeps a at) way,
      ),
    )
