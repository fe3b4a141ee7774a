-- ===== src/Dfa/Table.antt =====
-- nfa2dfa.c: the matrix of sets and the loop that fills it. strcmp and strcpy are parameters; the names
-- that the user enters are a list. An access outside an array is a fault, `none`.
use chunxiao_code.Prelude.{
  ℕ, zero, suc, ◌+◌, List, [], ◌∷◌, map, Option, none, some, Bool, true, false, ◌==◌, ltb,
  if◌then◌else◌, get_elem?, set, replicate, length,
}
use chunxiao_code.Prelude.Fault.{◌>>=◌}
use chunxiao_code.Dfa.Graph.{Vertex, max_num}
use chunxiao_code.Dfa.Moves.{smove, e_closure}

-- Does `strcmp` give 0? And the array at `dst` after `strcpy(dst, src)`. Both are `none` when they leave
-- an array.
pub record Strings : Type 0 where
  pub strcmp_equal : List ℕ → List ℕ → Option Bool
  pub strcpy : List ℕ → List ℕ → Option (List ℕ)

-- `struct tablenode`
pub record TableNode : Type 0 where
  pub newname : ℕ
  pub ch : List ℕ

-- `struct tablequeue` for a character.
pub record TableQueue : Type 0 where
  pub transword : ℕ
  pub tn : List TableNode

-- `struct transmatrix`: the first column with its `NumTn`, and the others.
pub record TranMatrix : Type 0 where
  pub first : List TableNode
  pub num_tn : ℕ
  pub columns : List TableQueue

abbrev pub empty_node : TableNode
empty_node = record { newname = 0; ch = replicate max_num 0 }

-- `Init_Matrix` with the characters that scanf gives.
unfoldable pub init_matrix : List ℕ → TranMatrix
init_matrix words = record {
  first = replicate max_num empty_node;
  num_tn = 0;
  columns = map (λ w. record { transword = w; tn = replicate max_num empty_node }) words;
}

-- The first column with `NumTn`, and the names that are still to be entered.
pub record Names : Type 0 where
  pub rows : List TableNode
  pub count : ℕ
  pub entered : List ℕ

-- `scanf("%c", &newname)`; at the end of the input the name stays.
abbrev pub scan_name : List ℕ → ℕ → ℕ × List ℕ
scan_name [] name = (name, [])
scan_name (c ∷ entered) name = (c, entered)

-- What the outer loop comes to: a matrix, or no more fuel.
pub data Filled : Type 0 where
  filled : TranMatrix → Filled
  stuck : Filled

module _ (strings : Strings) (g : List Vertex) where
  -- The loop of `CheckTable` on the rows from i on.
  unfoldable pub check_from : List TableNode → ℕ → ℕ → List ℕ → Option ℕ
  check_from rows zero i str = some 1
  check_from rows (suc n) i str = do
    row ← get_elem? rows i
    equal ← strings.strcmp_equal (row.ch) str
    elim equal [ true ↦ some i | false ↦ check_from rows n (i + 1) str ]

  unfoldable pub check_table : List TableNode → ℕ → List ℕ → Option ℕ
  check_table rows num_tn str = check_from rows num_tn 0 str

  -- What follows the two moves in the body of `NFA_to_DFA`, for the set `ch` that they leave.
  unfoldable pub name_set : Names → TableNode → Option (Names × TableNode)
  name_set s node = do
    c ← get_elem? (node.ch) 0
    if c == 0 then some (s, node) else (do
      check ← check_table (s.rows) (s.count) (node.ch)
      if check == 1
          then (do
            row ← get_elem? (s.rows) (s.count)
            let name = scan_name (s.entered) (node.newname)
            ch ← strings.strcpy (row.ch) (node.ch)
            some (
              record {
                rows = set (s.rows) (s.count) (record { newname = name.0; ch = ch });
                count = s.count + 1;
                entered = name.1;
              },
              record node { newname = name.0 },
            ))
          else (do row ← get_elem? (s.rows) check; some (s, record node { newname = row.newname })))

  -- The body of the inner loop for one column, at row j.
  unfoldable pub fill_cell : ℕ → Names → TableQueue → Option (Names × TableQueue)
  fill_cell j s queue = do
    row ← get_elem? (s.rows) j
    node ← get_elem? (queue.tn) j
    moved ← smove g (row.ch) (node.ch) (queue.transword)
    closed ← e_closure g moved
    (s', node') ← name_set s (record node { ch = closed })
    some (s', record queue { tn = set (queue.tn) j node' })

  -- The inner loop.
  unfoldable pub fill_row : ℕ → Names → List TableQueue → Option (Names × List TableQueue)
  fill_row j s [] = some (s, [])
  fill_row j s (queue ∷ queues) = do
    (s₁, queue') ← fill_cell j s queue
    (s₂, queues') ← fill_row j s₁ queues
    some (s₂, queue' ∷ queues')

  unfoldable pub fill_rows : ℕ → ℕ → Names → List TableQueue → Option Filled
  fill_rows zero j s queues = some stuck
  fill_rows (suc f) j s queues = elim (ltb j (s.count)) [
    | false ↦ some (filled (record { first = s.rows; num_tn = s.count; columns = queues }))
    | true ↦ fill_row j s queues >>= λ (s', queues'). fill_rows f (j + 1) s' queues'
  ]

  -- `E_Closure` once for each column.
  unfoldable pub close_first : List TableQueue → List ℕ → Option (List ℕ)
  close_first [] ch = some ch
  close_first (queue ∷ queues) ch = e_closure g ch >>= λ ch'. close_first queues ch'

  -- `NFA_to_DFA` on a new matrix. A row is filled in each round and there are `MAX` of them, so that one
  -- round more is enough.
  unfoldable pub nfa_to_dfa : TranMatrix → List ℕ → Option Filled
  nfa_to_dfa m entered = do
    start ← get_elem? g 0
    row ← get_elem? (m.first) 0
    if ltb 0 (length (row.ch))
        then (do
          ch ← close_first (m.columns) (set (row.ch) 0 (start.state))
          let name = scan_name entered (row.newname)
          fill_rows (suc max_num) 0
              (record {
                rows = set (m.first) 0 (record { newname = name.0; ch = ch });
                count = m.num_tn + 1;
                entered = name.1;
              })
              (m.columns))
        else none
