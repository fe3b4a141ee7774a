-- ===== src/Dfa/Graph.antt =====
-- nfa2dfa.c: the automaton as a graph. The list of the vertices is `NodeTable` up to `NumVertex`; the
-- cells behind it are allocated, but never written: to use one is a fault, `none`. `malloc` succeeds.
use chunxiao_code.Prelude.{
  ℕ, ◌+◌, List, [], ◌∷◌, ◌++◌, Option, none, some, true, false, ◌==◌, ltb, if◌then◌else◌, length,
  get_elem?, set,
}
use chunxiao_code.Prelude.Fault.{◌>>=◌}

-- `MAX`
abbrev pub max_num : ℕ
max_num = 10

-- `INFINIT`
abbrev pub infinit : ℕ
infinit = 32767

-- `struct edge`; the links make a list.
pub record Edge : Type 0 where
  pub dest : ℕ
  pub cost : ℕ

-- `struct vertex`; `state` is the field `data`.
pub record Vertex : Type 0 where
  pub state : ℕ
  pub adj : List Edge

-- `Insert_Vertex`; the source does not test whether `NodeTable` is full.
unfoldable pub insert_vertex : List Vertex → ℕ → Option (List Vertex)
insert_vertex g vertex =
    if ltb (length g) max_num then some (g ++ (record { state = vertex; adj = [] } ∷ [])) else none

-- `Insert_Edge`
unfoldable pub insert_edge : List Vertex → ℕ → ℕ → ℕ → Option (List Vertex)
insert_edge g v1 v2 weight = do
  v ← get_elem? g v1
  some (set g v1 (record v { adj = record { dest = v2; cost = weight } ∷ v.adj }))

-- The loop of `GetVertexPos` on the vertices from `i` on.
unfoldable pub vertex_pos_from : List Vertex → ℕ → ℕ → ℕ
vertex_pos_from [] v i = infinit
vertex_pos_from (x ∷ g) v i = elim (x.state == v) [ true ↦ i | false ↦ vertex_pos_from g v (i + 1) ]

-- `GetVertexPos`
unfoldable pub get_vertex_pos : List Vertex → ℕ → ℕ
unfolding vertex_pos_from
get_vertex_pos g v = vertex_pos_from g v 0

-- The first loop of `Construct_Graph`, on the names that `scanf` gives.
unfoldable pub insert_vertices : List Vertex → List ℕ → Option (List Vertex)
unfolding insert_vertex
insert_vertices g [] = some g
insert_vertices g (name ∷ names) = insert_vertex g name >>= λ g'. insert_vertices g' names

-- What `scanf("%c %c %c")` gives for an edge.
pub record Line : Type 0 where
  pub tail : ℕ
  pub weight : ℕ
  pub head : ℕ

-- The second loop of `Construct_Graph`, on the lines that `scanf` gives.
unfoldable pub insert_edges : List Vertex → List Line → Option (List Vertex)
unfolding insert_edge get_vertex_pos
insert_edges g [] = some g
insert_edges g (l ∷ lines) =
    insert_edge g (get_vertex_pos g (l.tail)) (get_vertex_pos g (l.head)) (l.weight) >>= λ g'.
    insert_edges g' lines

-- `Construct_Graph`
unfoldable pub construct_graph : List ℕ → List Line → Option (List Vertex)
unfolding insert_vertices insert_edges
construct_graph names lines = insert_vertices [] names >>= λ g. insert_edges g lines
