-- ===== src/Dfa/Tests.antt =====
-- An automaton of four states, and each theorem at an input.
use mathlib.Core.List.{Perm, Pairwise, Mem, mem-cons_self}
use chunxiao_code.Prelude.{
  ℕ, ◌≤◌, ◌≡◌, refl, List, [], ◌∷◌, ◌++◌, some, take, drop, arith, replicate, map, length, ◌+◌,
  zero, suc, ◌↔◌, true, false, Bool, Option, none, ◌==◌,
}
use chunxiao_code.Prelude.Fault.{◌>>=◌}
use chunxiao_code.Dfa.Table.{
  Strings, Filled, filled, init_matrix, check_from, check_table, name_set, fill_cell, fill_row,
  fill_rows, close_first, nfa_to_dfa,
}
use chunxiao_code.Dfa.{bubble_sort}
use chunxiao_code.Dfa.Graph.{Vertex, Line, construct_graph, get_vertex_pos}
use chunxiao_code.Dfa.Positions.{states, Stands}
use chunxiao_code.Dfa.Built.{arrows, arrow, construct_graph-Builds}
use chunxiao_code.Prelude.Members.{member}
use chunxiao_code.Dfa.Gather.{insert_all, moved, Positive}
use chunxiao_code.Dfa.Moved.{smove-gathers}
use chunxiao_code.Prelude.Members.{Distinct}
use chunxiao_code.Dfa.Arrows.{Reach}
use chunxiao_code.Dfa.Closed.{e_closure-Reaches}
use chunxiao_code.Dfa.Moves.{smove, e_closure}
use chunxiao_code.Dfa.Sorting.{bubble_sort-Sorts}

abbrev letters : List ℕ
letters = b'c' ∷ b'a' ∷ b'b' ∷ b'a' ∷ []

bubble_sort-Sorts_example :
    (zs : List ℕ) × (bubble_sort letters 3 ≡ zs ++ drop 3 letters)
    × Perm zs (take 3 letters)
    × Pairwise ◌≤◌ zs
bubble_sort-Sorts_example = bubble_sort-Sorts letters 3 (omega arith)

bubble_sort-letters : bubble_sort letters 3 ≡ b'a' ∷ b'b' ∷ b'c' ∷ b'a' ∷ []
unfolding bubble_sort
bubble_sort-letters = refl

abbrev sample_lines : List Line
sample_lines =
    record { tail = b'A'; weight = b'*'; head = b'C' }
    ∷ record { tail = b'C'; weight = b'*'; head = b'B' }
    ∷ record { tail = b'B'; weight = b'1'; head = b'D' }
    ∷ record { tail = b'D'; weight = b'*'; head = b'A' }
    ∷ []

abbrev sample_names : List ℕ
sample_names = b'A' ∷ b'B' ∷ b'C' ∷ b'D' ∷ []

e_closure-sample :
    (construct_graph sample_names sample_lines >>= λ g. e_closure g (b'A' ∷ replicate 9 0))
    ≡ some (b'A' ∷ b'B' ∷ b'C' ∷ replicate 7 0)
unfolding construct_graph e_closure bubble_sort
e_closure-sample = refl

smove-sample :
    (construct_graph sample_names sample_lines >>= λ g.
    smove g (b'A' ∷ b'B' ∷ replicate 8 0) (replicate 10 0) b'1')
    ≡ some (b'D' ∷ replicate 9 0)
unfolding construct_graph smove bubble_sort
smove-sample = refl

abbrev one_line : List Line
one_line = record { tail = b'A'; weight = b'1'; head = b'B' } ∷ []

construct_graph-Builds_example :
    (g : List Vertex) × (construct_graph sample_names one_line ≡ some g)
    × (states g ≡ sample_names)
    × Perm (arrows g) (map (arrow g) one_line)
    × ((name : ℕ) → Mem name sample_names → Stands g name (get_vertex_pos g name))
construct_graph-Builds_example =
    construct_graph-Builds sample_names one_line (omega arith) (mem-cons_self, tt)

abbrev sample_graph : List Vertex
sample_graph =
    record {
      state = b'A';
      adj = record { dest = 1; cost = b'1' } ∷ record { dest = 0; cost = b'1' } ∷ [];
    }
    ∷ record { state = b'B'; adj = [] }
    ∷ []

sample_graph-Positive : Positive sample_graph
sample_graph-Positive zero h = omega arith
sample_graph-Positive (suc zero) h = omega arith
sample_graph-Positive (suc (suc i)) h = absurd (omega arith)

smove-gathers_example :
    (zs : List ℕ) × (left : ℕ) × (smove sample_graph (b'A' ∷ []) (replicate 10 0) b'1'
      ≡ some (zs ++ replicate left 0))
    × (length zs + left ≡ 10)
    × Perm zs (insert_all [] (moved sample_graph b'1' (b'A' ∷ [])))
    × Pairwise ◌≤◌ zs
smove-gathers_example =
    smove-gathers sample_graph (b'A' ∷ []) b'1' 9 sample_graph-Positive
      ((omega arith, (omega arith, tt)), (tt, tt)) (omega arith)

abbrev silent_graph : List Vertex
silent_graph =
    record { state = b'A'; adj = record { dest = 1; cost = b'*' } ∷ [] }
    ∷ record { state = b'B'; adj = [] }
    ∷ []

silent_graph-Positive : Positive silent_graph
silent_graph-Positive zero h = omega arith
silent_graph-Positive (suc zero) h = omega arith
silent_graph-Positive (suc (suc i)) h = absurd (omega arith)

e_closure-Reaches_example :
    (zs : List ℕ) × (left : ℕ) × (e_closure silent_graph ((b'A' ∷ []) ++ replicate 9 0)
      ≡ some (zs ++ replicate left 0))
    × (length zs + left ≡ 10)
    × Pairwise ◌≤◌ zs
    × Distinct zs
    × ((b : ℕ)
        → (member zs b ≡ true)
          ↔ ((a : ℕ) × (member (b'A' ∷ []) a ≡ true) × Reach silent_graph b'*' a b))
e_closure-Reaches_example =
    e_closure-Reaches silent_graph (b'A' ∷ []) 8 silent_graph-Positive ((omega arith, tt), (tt, tt))
      (omega arith) (refl, tt) (λ b at. ground arith)

-- `strcpy` and `strcmp` by their descriptions.
abbrev copied : List ℕ → List ℕ → Option (List ℕ)
copied dst [] = none
copied [] (c ∷ src) = none
copied (d ∷ dst) (zero ∷ src) = some (0 ∷ dst)
copied (d ∷ dst) (suc c ∷ src) = copied dst src >>= λ rest. some (suc c ∷ rest)

abbrev compared : List ℕ → List ℕ → Option Bool
compared [] b = none
compared (c ∷ a) [] = none
compared (zero ∷ a) (d ∷ b) = some (0 == d)
compared (suc c ∷ a) (d ∷ b) = elim (suc c == d) [ true ↦ compared a b | false ↦ some false ]

abbrev strings : Strings
strings = record { strcmp_equal = compared; strcpy = copied }

abbrev two_states : List Vertex
two_states =
    record { state = b'A'; adj = record { dest = 1; cost = b'1' } ∷ [] }
    ∷ record { state = b'B'; adj = [] }
    ∷ []

abbrev names_of_rows : Option Filled → List ℕ
names_of_rows (some (filled m)) = take (m.num_tn) (map (λ node. node.newname) (m.first))
names_of_rows other = []

nfa_to_dfa-two :
    names_of_rows (nfa_to_dfa strings two_states (init_matrix (b'1' ∷ [])) (b'P' ∷ b'Q' ∷ []))
    ≡ b'P' ∷ b'Q' ∷ []
unfolding nfa_to_dfa init_matrix close_first fill_rows fill_row fill_cell name_set check_table
    check_from smove e_closure bubble_sort
nfa_to_dfa-two = refl

-- With an edge from the second state to itself its set is entered until the table is full.
nfa_to_dfa-overflows :
    nfa_to_dfa strings
      (record { state = b'A'; adj = record { dest = 1; cost = b'1' } ∷ [] }
        ∷ record { state = b'B'; adj = record { dest = 1; cost = b'1' } ∷ [] }
        ∷ [])
      (init_matrix (b'1' ∷ []))
      (b'P' ∷ b'Q' ∷ [])
    ≡ none
unfolding nfa_to_dfa init_matrix close_first fill_rows fill_row fill_cell name_set check_table
    check_from smove e_closure bubble_sort
nfa_to_dfa-overflows = refl
