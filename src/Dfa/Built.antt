-- ===== src/Dfa/Built.antt =====
-- The graph that `Construct_Graph` of nfa2dfa.c builds, against the text that it reads.
use mathlib.Core.List.{Perm, perm_middle, Mem, append_assoc, append-nil}
use mathlib.Core.List.Perm
use mathlib.Core.Path.{subst}
use chunxiao_code.Prelude.{
  ℕ, zero, suc, ◌+◌, ◌≤◌, ◌≡◌, refl, sym, ap, ◌∙◌, List, [], ◌∷◌, ◌++◌, some, length, map,
  get_elem?, set, length-append, arith, lt→ltb,
}
use chunxiao_code.Prelude.Fault.{some-cancel}
use chunxiao_code.Dfa.Positions.{states, Stands, get_vertex_pos-Stands, vertex_pos_from-states}
use chunxiao_code.Dfa.Graph.{
  Edge, Vertex, Line, insert_vertex, insert_edge, get_vertex_pos, insert_vertices, insert_edges,
  construct_graph,
}

abbrev leave : ℕ → List Edge → List (ℕ × Edge)
leave name [] = []
leave name (e ∷ es) = (name, e) ∷ leave name es

-- The edges of a graph, each with the name of the state that it leaves.
abbrev pub arrows : List Vertex → List (ℕ × Edge)
arrows [] = []
arrows (v ∷ g) = leave (v.state) (v.adj) ++ arrows g

states-append : (g h : List Vertex) → states (g ++ h) ≡ states g ++ states h
states-append [] h = refl
states-append (v ∷ g) h = ap (◌∷◌ (v.state)) (states-append g h)

arrows-append : (g h : List Vertex) → arrows (g ++ h) ≡ arrows g ++ arrows h
arrows-append [] h = refl
arrows-append (v ∷ g) h =
    ap (◌++◌ (leave (v.state) (v.adj))) (arrows-append g h)
    ∙ sym (append_assoc (leave (v.state) (v.adj)) (arrows g) (arrows h))

-- Each name becomes a state, and no state has an edge yet.
insert_vertices-states :
    (g : List Vertex) (names : List ℕ)
    → length g + length names ≤ 10
    → arrows g ≡ []
    → (g' : List Vertex) × (insert_vertices g names ≡ some g')
      × (states g' ≡ states g ++ names)
      × (arrows g' ≡ [])
unfolding insert_vertices insert_vertex
insert_vertices-states g [] h none_yet = (g, refl, sym (append-nil (states g)), none_yet)
insert_vertices-states g (name ∷ names) h none_yet =
    let fresh : List Vertex = record { state = name; adj = [] } ∷ [] in
    let (g', e, st, ar) =
      insert_vertices-states (g ++ fresh) names (omega (arith, length-append g fresh))
        (arrows-append g fresh ∙ rw none_yet refl) in
    (
      g',
      rw (lt→ltb (length g) 10 (omega arith)) e,
      st ∙ rw (states-append g fresh, append_assoc (states g) (name ∷ []) names) refl,
      ar,
    )

abbrev with_edge : Vertex → Edge → Vertex
with_edge v e = record v { adj = e ∷ v.adj }

states-set :
    (g : List Vertex) (i : ℕ) (v : Vertex) (e : Edge)
    → get_elem? g i ≡ some v
    → states (set g i (with_edge v e)) ≡ states g
states-set [] i v e at = refl
states-set (x ∷ g) zero v e at = ap (λ u. u.state ∷ states g) (sym (some-cancel x v at))
states-set (x ∷ g) (suc i) v e at = ap (◌∷◌ (x.state)) (states-set g i v e at)

arrows-set :
    (g : List Vertex) (i : ℕ) (v : Vertex) (e : Edge)
    → get_elem? g i ≡ some v
    → Perm (arrows (set g i (with_edge v e))) ((v.state, e) ∷ arrows g)
arrows-set [] i v e at = absurd cc
arrows-set (x ∷ g) zero v e at =
    rw (some-cancel x v at) (Perm.refl ((v.state, e) ∷ (leave (v.state) (v.adj) ++ arrows g)))
arrows-set (x ∷ g) (suc i) v e at =
    Perm.trans (Perm.append (Perm.refl (leave (x.state) (x.adj))) (arrows-set g i v e at))
      (perm_middle (leave (x.state) (x.adj)) (arrows g))

-- The edge that a line of the text asks for.
abbrev pub arrow : List Vertex → Line → ℕ × Edge
arrow g l = (l.tail, record { dest = get_vertex_pos g (l.head); cost = l.weight })

abbrev pub Tails : List ℕ → List Line → Type 0
Tails names [] = Unit
Tails names (l ∷ lines) = Mem (l.tail) names × Tails names lines

insert_edge-arrows :
    (g : List Vertex) (l : Line)
    → Mem (l.tail) (states g)
    → (g' : List Vertex) × (insert_edge g
          (get_vertex_pos g (l.tail))
          (get_vertex_pos g (l.head))
          (l.weight)
        ≡ some g')
      × (states g' ≡ states g)
      × Perm (arrows g') (arrow g l ∷ arrows g)
unfolding insert_edge
insert_edge-arrows g l at =
    let (v, found, named) = get_vertex_pos-Stands g (l.tail) at in
    let e : Edge = record { dest = get_vertex_pos g (l.head); cost = l.weight } in
    let i = get_vertex_pos g (l.tail) in
    (
      set g i (with_edge v e),
      rw found refl,
      states-set g i v e found,
      subst (λ name. Perm (arrows (set g i (with_edge v e))) ((name, e) ∷ arrows g)) named
          (arrows-set g i v e found),
    )

arrow-states : (g h : List Vertex) (l : Line) → states g ≡ states h → arrow g l ≡ arrow h l
unfolding get_vertex_pos
arrow-states g h l e = rw (vertex_pos_from-states g h (l.head) 0 e) refl

arrows-of :
    (g h : List Vertex) (lines : List Line)
    → states g ≡ states h
    → map (arrow g) lines ≡ map (arrow h) lines
arrows-of g h [] e = refl
arrows-of g h (l ∷ lines) e = rw (arrow-states g h l e, arrows-of g h lines e) refl

insert_edges-arrows :
    (g : List Vertex) (names : List ℕ) (lines : List Line)
    → states g ≡ names
    → Tails names lines
    → (g' : List Vertex) × (insert_edges g lines ≡ some g')
      × (states g' ≡ names)
      × Perm (arrows g') (map (arrow g') lines ++ arrows g)
unfolding insert_edges
insert_edges-arrows g names [] st tails = (g, refl, st, Perm.refl (arrows g))
insert_edges-arrows g names (l ∷ lines) st (tail, tails) =
    let (g₁, e₁, st₁, ar₁) = insert_edge-arrows g l (rw st tail) in
    let (g₂, e₂, st₂, ar₂) = insert_edges-arrows g₁ names lines (st₁ ∙ st) tails in
    (
      g₂,
      rw e₁ e₂,
      st₂,
      rw (arrow-states g₂ g l (st₂ ∙ sym st)) (
          Perm.trans ar₂ (
            Perm.trans (Perm.append (Perm.refl (map (arrow g₂) lines)) ar₁)
              (perm_middle (map (arrow g₂) lines) (arrows g)))),
    )

-- `Construct_Graph` on at most ten names and on lines whose tails are among them succeeds: the states
-- are the names in their order, the edges are those of the lines, each as often, an edge points
-- at the position of its head, and a vertex of that name stands at the position of each name.
pub construct_graph-Builds :
    (names : List ℕ) (lines : List Line)
    → length names ≤ 10
    → Tails names lines
    → (g : List Vertex) × (construct_graph names lines ≡ some g)
      × (states g ≡ names)
      × Perm (arrows g) (map (arrow g) lines)
      × ((name : ℕ) → Mem name names → Stands g name (get_vertex_pos g name))
unfolding construct_graph
construct_graph-Builds names lines few tails =
    let (g₁, e₁, st₁, none_yet) = insert_vertices-states [] names (omega arith) refl in
    let (g, e, st, ar) = insert_edges-arrows g₁ names lines st₁ tails in
    (
      g,
      rw e₁ e,
      st,
      subst (Perm (arrows g)) (rw none_yet (append-nil (map (arrow g) lines))) ar,
      λ name at. get_vertex_pos-Stands g name (rw st at),
    )
