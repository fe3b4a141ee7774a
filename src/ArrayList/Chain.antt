-- ===== src/ArrayList/Chain.antt =====
-- The chains of array_list.c that hold a list of elements.
use chunxiao_code.Prelude.{ℕ, ◌+◌, ◌≡◌, ◌≢◌, List, [], ◌∷◌, ◌++◌, length}
use chunxiao_code.ArrayList.{Block, block_depth}

abbrev pub taken : List ℕ → Block
taken [] = []
taken (x ∷ xs) = record { used = 1; item = x } ∷ taken xs

abbrev pub free : List ℕ → Block
free [] = []
free (x ∷ xs) = record { used = 0; item = x } ∷ free xs

-- All blocks are full but the last, whose free cells keep whatever stood in them; only the first
-- block may be empty.
pub data Holds : List Block → List ℕ → Type 0 where
  last :
      {b : Block} (xs stale : List ℕ)
      → length xs + length stale ≡ block_depth
      → b ≡ taken xs ++ free stale
      → Holds (b ∷ []) xs
  more :
      {b : Block} {rest : List Block} {all : List ℕ} (xs ys : List ℕ)
      → length xs ≡ block_depth
      → b ≡ taken xs
      → ys ≢ []
      → all ≡ xs ++ ys
      → Holds rest ys
      → Holds (b ∷ rest) all
