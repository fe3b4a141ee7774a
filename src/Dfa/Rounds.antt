-- ===== src/Dfa/Rounds.antt =====
-- The loops of `NFA_to_DFA` in nfa2dfa.c and the matrix that they leave.
use chunxiao_code.Prelude.{ℕ, ◌+◌, ◌≤◌, ◌≡◌, List, map, some, true, get_elem?, set, length}
use chunxiao_code.Dfa.Graph.{Vertex}
use chunxiao_code.Dfa.Table.{
  Strings, TableNode, TableQueue, TranMatrix, empty_node, init_matrix, Names, Filled, filled,
  close_first,
}
use chunxiao_code.Dfa.Naming.{Grows}
use chunxiao_code.Dfa.Filling.{Columns}

abbrev words : List TableQueue → List ℕ
words queues = map (λ q. q.transword) queues

module _ (strings : Strings) (g : List Vertex)
    (law : (dst src dst' : List ℕ)
      → strings.strcpy dst src ≡ some dst'
      → strings.strcmp_equal dst' src ≡ some true) where
  abbrev Row : ℕ → Names → List TableQueue → Names × List TableQueue → Type 0
  Row j s queues (s', queues') =
      Grows strings g (s.rows) (s.count) (s'.rows) (s'.count)
      × (words queues' ≡ words queues)
      × Columns strings g (s'.rows) (s'.count) (j + 1) queues'

  -- The matrix when all its rows are filled.
  pub record Complete (m : TranMatrix) (rows : List TableNode) (count : ℕ)
      (queues : List TableQueue) : Type 0 where
    pub grows : Grows strings g rows count (m.first) (m.num_tn)
    pub same : words (m.columns) ≡ words queues
    pub cells : Columns strings g (m.first) (m.num_tn) (m.num_tn) (m.columns)

  abbrev pub Completes : List TableNode → ℕ → List TableQueue → Filled → Type 0
  Completes rows count queues r = (m : TranMatrix) × (r ≡ filled m) × Complete m rows count queues

module _ (strings : Strings) (g : List Vertex) where
  -- What `NFA_to_DFA` leaves: the first row has the closed set of the first state, and each column has
  -- in each row the closed move of the row's set, which is empty or one of the rows.
  pub record Deterministic (chars : List ℕ) (m : TranMatrix) : Type 0 where
    pub start : Vertex
    pub initial : TableNode
    pub first_state : get_elem? g 0 ≡ some start
    pub first_row : get_elem? (m.first) 0 ≡ some initial
    pub closed :
        close_first strings g ((init_matrix chars).columns) (set (empty_node.ch) 0 (start.state))
        ≡ some (initial.ch)
    pub fits : m.num_tn ≤ length (m.first)
    pub names : words (m.columns) ≡ chars
    pub cells : Columns strings g (m.first) (m.num_tn) (m.num_tn) (m.columns)

  abbrev pub Determines : List ℕ → Filled → Type 0
  Determines chars r = (m : TranMatrix) × (r ≡ filled m) × Deterministic chars m
