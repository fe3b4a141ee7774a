-- ===== src/ArrayList/Delete.antt =====
-- `del_elem` of array_list.c.
use chunxiao_code.Prelude.{
  ℕ, ◌+◌, ◌-◌, List, [], ◌∷◌, Option, none, some, Bool, true, false, not, ◌&&◌, ◌==◌, ltb,
  get_elem?, set, take, if◌then◌else◌,
}
use chunxiao_code.Prelude.Fault.{◌>>=◌}
use chunxiao_code.ArrayList.{Cell, Block, block_depth}

-- The locals of `del_elem`; a position is the number of a block in the chain and of a cell in it.
-- `del` is `del_p` with `del_n` once `del_found` is set, `end` is `last_p` with `last_n` once
-- `last_found` is set, `temp` is the number of the block `temp_p`.
pub record Search : Type 0 where
  pub del : Option (ℕ × ℕ)
  pub end : Option (ℕ × ℕ)
  pub temp : ℕ

abbrev pub found : Option (ℕ × ℕ) → Bool
found none = false
found (some p) = true

-- One round of the inner loop: the tests of `data` and of `used`, at cell `i` of block `p`.
unfoldable pub look : ℕ → ℕ → ℕ → Cell → Search → Search
look item p i c s = record s {
  del = if item == c.item then some (p, i) else s.del;
  end =
      if c.used == 0
      then some (if ltb 0 i then (p, i - 1) else (s.temp, block_depth - 1))
      else s.end;
}

-- `for (i = 0; i < BLOCK_DEPTH; i++)` on the cells that are left, and whether it ends by `break`.
unfoldable pub look_cells : ℕ → ℕ → ℕ → Block → Search → Search × Bool
unfolding look
look_cells item p i [] s = (s, false)
look_cells item p i (c ∷ cells) s =
    let s' = look item p i c s in
    let rest = look_cells item p (i + 1) cells s' in
    if found (s'.end) && found (s'.del) then (s', true) else rest

-- `while (list_p)` on the blocks from number `p` on.
unfoldable pub look_chain : ℕ → ℕ → List Block → Search → Search
unfolding look_cells
look_chain item p [] s = s
look_chain item p (b ∷ rest) s =
    let (s', broke) = look_cells item p 0 b s in
    let later : Search = elim rest [
      | [] ↦ record s' { temp = p; end = some (p, block_depth - 1) }
      | _ ∷ _ ↦ look_chain item (p + 1) rest (record s' { temp = p })
    ] in
    if broke then s' else later

-- `p->data[i]`, and a write of the cell.
unfoldable pub cell_at : List Block → ℕ × ℕ → Option Cell
cell_at chain (p, i) = get_elem? chain p >>= λ b. get_elem? b i

unfoldable pub put_cell : List Block → ℕ × ℕ → Cell → Option (List Block)
put_cell chain (p, i) c = get_elem? chain p >>= λ b. some (set chain p (set b i c))

-- `del_p->data[del_n] = last_p->data[last_n]; last_p->used[last_n] = 0;`, then the release of the
-- block of the last cell if that was its first cell and it is not the block in the array.
unfoldable pub replace_by_last : List Block → Search → ℕ × ℕ → ℕ × ℕ → Option (List Block × ℕ)
unfolding cell_at put_cell
replace_by_last chain s del end = do
  d ← cell_at chain del
  l ← cell_at chain end
  chain₁ ← put_cell chain del (record d { item = l.item })
  l₁ ← cell_at chain₁ end
  chain₂ ← put_cell chain₁ end (record l₁ { used = 0 })
  some (if (end.1 == 0) && not (end.0 == 0) then take (s.temp + 1) chain₂ else chain₂, 0)

-- `del_elem` behind its loop, with the returned value.
unfoldable pub delete_found : List Block → Search → Option (List Block × ℕ)
delete_found chain s = elim (s.del) [
  | none ↦ some (chain, 1)
  | some d ↦ elim (s.end) [ none ↦ some (chain, 1) | some l ↦ replace_by_last chain s d l ]
]

-- `del_elem` on a chain.
unfoldable pub del_chain : List Block → ℕ → Option (List Block × ℕ)
del_chain chain item =
    delete_found chain (look_chain item 0 chain (record { del = none; end = none; temp = 0 }))

-- `del_elem`
unfoldable pub del_elem : List (List Block) → ℕ → ℕ → Option (List (List Block) × ℕ)
del_elem base array_n item = do
  chain ← get_elem? base array_n
  (chain', ret) ← del_chain chain item
  some (set base array_n chain', ret)
