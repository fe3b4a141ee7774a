-- ===== src/ArrayList/Tests.antt =====
-- A chain of one block, and each theorem at an input.
use chunxiao_code.Prelude.{
  ℕ, ◌≡◌, ◌≢◌, refl, List, [], ◌∷◌, ◌++◌, Option, some, true, get_elem?, arith,
}
use chunxiao_code.Prelude.Fault.{◌>>=◌}
use chunxiao_code.ArrayList.{
  Block, init_array_list, add_cells, add_chain, add_elem, show_cells, show_chain, show_elem,
}
use chunxiao_code.ArrayList.Chain.{taken, free, Holds, last}
use chunxiao_code.ArrayList.Adding.{Adds, add_elem-Adds}
use chunxiao_code.ArrayList.Delete.{look_chain, replace_by_last, delete_found, del_chain, del_elem}
use chunxiao_code.ArrayList.Deleted.{Removes, del_chain-Removes}

abbrev two_block : Block
two_block = taken (8 ∷ 9 ∷ []) ++ free (0 ∷ 0 ∷ 0 ∷ [])

abbrev two_chains : List (List Block)
two_chains = (two_block ∷ []) ∷ (two_block ∷ []) ∷ []

two_block-Holds : Holds (two_block ∷ []) (8 ∷ 9 ∷ [])
two_block-Holds = last (8 ∷ 9 ∷ []) (0 ∷ 0 ∷ 0 ∷ []) refl refl

add_elem-Adds_example :
    (base' : List (List Block)) × (chain' : List Block) × (ret : ℕ) × (add_elem true two_chains 1 7
      ≡ some (base', ret))
    × (get_elem? base' 1 ≡ some chain')
    × Adds (two_block ∷ []) (8 ∷ 9 ∷ []) 7 chain' ret
    × ((j : ℕ) → 1 ≢ j → get_elem? base' j ≡ get_elem? two_chains j)
add_elem-Adds_example =
    add_elem-Adds two_chains 1 7 (two_block ∷ []) (8 ∷ 9 ∷ []) refl two_block-Holds

del_chain-Removes_example : Removes (two_block ∷ []) (8 ∷ 9 ∷ []) 8
del_chain-Removes_example =
    del_chain-Removes two_block (8 ∷ 9 ∷ []) (0 ∷ 0 ∷ 0 ∷ []) 8 refl refl refl (omega arith)

-- Six elements take a second block.
abbrev add : List (List Block) → ℕ → Option (List (List Block))
add base item = add_elem true base 0 item >>= λ r. some (r.0)

abbrev add_all : List (List Block) → List ℕ → Option (List (List Block))
add_all base [] = some base
add_all base (x ∷ xs) = add base x >>= λ base'. add_all base' xs

abbrev del : List (List Block) → ℕ → Option (List (List Block))
del base item = del_elem base 0 item >>= λ r. some (r.0)

show_elem-six :
    (add_all (init_array_list 2) (1 ∷ 2 ∷ 3 ∷ 4 ∷ 5 ∷ 6 ∷ []) >>= λ base. show_elem base 0)
    ≡ some ((0, 1) ∷ (1, 2) ∷ (2, 3) ∷ (3, 4) ∷ (4, 5) ∷ (0, 6) ∷ [])
unfolding init_array_list add_elem add_chain add_cells show_elem show_chain show_cells
show_elem-six = refl

-- Of 5, 3 and 7, the deletion of 5 and of 7 leaves 7.
show_elem-deleted :
    (add_all (init_array_list 1) (5 ∷ 3 ∷ 7 ∷ []) >>= λ base.
    del base 5 >>= λ base'. del base' 7 >>= λ base''. show_elem base'' 0)
    ≡ some ((0, 7) ∷ [])
unfolding init_array_list add_elem add_chain add_cells show_elem show_chain show_cells del_elem
    del_chain delete_found look_chain replace_by_last
show_elem-deleted = refl

-- The second block is released with its last element.
show_elem-released :
    (add_all (init_array_list 1) (1 ∷ 2 ∷ 3 ∷ 4 ∷ 5 ∷ 6 ∷ []) >>= λ base.
    del base 2 >>= λ base'. show_elem base' 0)
    ≡ some ((0, 1) ∷ (1, 6) ∷ (2, 3) ∷ (3, 4) ∷ (4, 5) ∷ [])
unfolding init_array_list add_elem add_chain add_cells show_elem show_chain show_cells del_elem
    del_chain delete_found look_chain replace_by_last
show_elem-released = refl
