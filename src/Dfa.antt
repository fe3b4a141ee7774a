-- ===== src/Dfa.antt =====
-- c-study/dfa-about/nfa2dfa.c: the subset construction. A character is its code; the names of the
-- states are ASCII, so that signed and unsigned characters have one order.
-- `BubbleSort` is here, the automaton in Graph, the moves between sets of states in Moves.
pub mod Graph
pub mod Positions
pub mod Built
pub mod Cells
pub mod Gather
pub mod Moved
pub mod Distinct
pub mod Arrows
pub mod Closure
pub mod Closed
pub mod Table
pub mod Naming
pub mod Filling
pub mod Rounds
pub mod Moves
pub mod Sorting
mod Tests
use chunxiao_code.Prelude.{ℕ, zero, suc, List, [], ◌∷◌, true, false, ltb}

-- The inner loop of `BubbleSort` on the array from `a[j]` on, by the rounds that are left.
unfoldable pub bubble : ℕ → List ℕ → List ℕ
bubble zero a = a
bubble (suc n) [] = []
bubble (suc n) (x ∷ []) = x ∷ []
bubble (suc n) (x ∷ y ∷ a) = elim (ltb y x) [
  | true ↦ y ∷ bubble n (x ∷ a)
  | false ↦ x ∷ bubble n (y ∷ a)
]

-- Its outer loop, by the rounds that are left: with `i` gone of `len`, the inner loop has
-- `len - i - 1` rounds.
unfoldable pub sort_rounds : ℕ → List ℕ → List ℕ
unfolding bubble
sort_rounds zero a = a
sort_rounds (suc left) a = sort_rounds left (bubble left a)

-- `BubbleSort(a, len)`
unfoldable pub bubble_sort : List ℕ → ℕ → List ℕ
unfolding sort_rounds
bubble_sort a len = sort_rounds len a
