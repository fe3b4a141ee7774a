-- ===== src/ArrayList.antt =====
-- c-study/array-list/array_list.c: an array of chains of blocks; a block has room for five elements.
-- A chain is the list of its blocks, the first one in the array itself; cell `i` of a block is
-- `used[i]` with `data[i]`. An `int` is given by its bits.
pub mod Chain
pub mod Adding
pub mod Showing
pub mod Delete
pub mod Deleting
pub mod Replace
pub mod Deleted
mod Tests
use chunxiao_code.Prelude.{
  ℕ, zero, suc, ◌+◌, ◌-◌, List, [], ◌∷◌, ◌++◌, Option, none, some, Bool, true, false, ◌&&◌, ◌==◌,
  length, map, get_elem?, set, replicate, take, if◌then◌else◌,
}
use chunxiao_code.Prelude.Fault.{◌>>=◌}

-- `BLOCK_DEPTH`
abbrev pub block_depth : ℕ
block_depth = 5

pub record Cell : Type 0 where
  pub used : ℕ
  pub item : ℕ

-- `list_t`, without `next`.
abbrev pub Block : Type 0
Block = List Cell

abbrev pub zeroed : Cell
zeroed = record { used = 0; item = 0 }

-- `get_new_list`, given whether `malloc` succeeds: `memset` writes before the test for NULL.
unfoldable pub get_new_list : Bool → Option Block
get_new_list allocated = if allocated then some (replicate block_depth zeroed) else none

-- `init_array_list`
unfoldable pub init_array_list : ℕ → List (List Block)
init_array_list size = replicate size (replicate block_depth zeroed ∷ [])

-- What the inner loop of `add_elem` finds in a block.
pub data Place : Type 0 where
  stored : Block → Place
  present : Place
  full : Place

abbrev pub behind : Cell → Place → Place
behind c (stored b) = stored (c ∷ b)
behind c present = present
behind c full = full

-- `for (i = 0; i < BLOCK_DEPTH; i++)` of `add_elem` on the cells that are left.
unfoldable pub add_cells : Block → ℕ → Place
add_cells [] item = full
add_cells (c ∷ cells) item = elim (c.used == 0) [
  | true ↦ stored (record { used = 1; item = item } ∷ cells)
  | false ↦ elim ((item == c.item) && (c.used == 1)) [
    | true ↦ present
    | false ↦ behind c (add_cells cells item)
  ]
]

-- `while (list_p)` of `add_elem`, on the blocks from `list_p` on, with the returned value.
unfoldable pub add_chain : Bool → List Block → ℕ → Option (List Block × ℕ)
unfolding get_new_list
add_chain allocated [] item = some ([], 1)
add_chain allocated (b ∷ rest) item = elim (add_cells b item) [
  | stored b' ↦ some (b' ∷ rest, 0)
  | present ↦ some (b ∷ rest, 2)
  | full ↦ elim rest [
    | [] ↦ get_new_list allocated >>= λ new.
        some (b ∷ set new 0 (record { used = 1; item = item }) ∷ [], 0)
    | _ ∷ _ ↦ add_chain allocated rest item >>= λ (rest', ret). some (b ∷ rest', ret)
  ]
]

-- `add_elem`; `base_addr + array_n` outside the array is a fault.
unfoldable pub add_elem : Bool → List (List Block) → ℕ → ℕ → Option (List (List Block) × ℕ)
add_elem allocated base array_n item = do
  chain ← get_elem? base array_n
  (chain', ret) ← add_chain allocated chain item
  some (set base array_n chain', ret)

-- The inner loop of `show_elem`: what it prints, and whether it reaches the end of the block.
unfoldable pub show_cells : ℕ → Block → List (ℕ × ℕ) × Bool
show_cells i [] = ([], true)
show_cells i (c ∷ cells) =
    let (printed, whole) = show_cells (i + 1) cells in
    if c.used == 0 then ([], false) else ((i, c.item) ∷ printed, whole)

-- `show_elem`, as the pairs that it prints.
unfoldable pub show_chain : List Block → List (ℕ × ℕ)
show_chain [] = []
show_chain (b ∷ rest) =
    let (printed, whole) = show_cells 0 b in printed ++ (if whole then show_chain rest else [])

unfoldable pub show_elem : List (List Block) → ℕ → Option (List (ℕ × ℕ))
unfolding show_chain
show_elem base array_n = get_elem? base array_n >>= λ chain. some (show_chain chain)
