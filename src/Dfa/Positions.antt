-- ===== src/Dfa/Positions.antt =====
-- `GetVertexPos` of nfa2dfa.c finds the first vertex of a name.
use mathlib.Core.List.{Mem, Mem-prop, not-mem-nil, eq-or-mem_of_mem-cons}
use mathlib.Core.Logic.Or
use mathlib.Core.Path.{subst}
use chunxiao_code.Prelude.{
  ℕ, suc, ◌+◌, ◌≡◌, refl, sym, ap, ◌∙◌, List, [], ◌∷◌, some, get_elem?, ◌==◌, ==_iff, Bool-cases,
  inl, inr, arith, false,
}
use chunxiao_code.Dfa.Graph.{Vertex, vertex_pos_from, get_vertex_pos}

abbrev pub states : List Vertex → List ℕ
states [] = []
states (v ∷ g) = v.state ∷ states g

-- A vertex of the name stands at the position that is found.
abbrev pub Stands : List Vertex → ℕ → ℕ → Type 0
Stands g name i = (v : Vertex) × (get_elem? g i ≡ some v) × (v.state ≡ name)

mem-rest :
    (x name : ℕ) (names : List ℕ) → ((x == name) ≡ false) → Mem name (x ∷ names) → Mem name names
mem-rest x name names ne at =
    Or.elim Mem-prop (eq-or-mem_of_mem-cons at) (λ e. absurd (ground arith)) (λ i. i)

vertex_pos_from-Stands :
    (g : List Vertex) (name i : ℕ)
    → Mem name (states g)
    → (k : ℕ) × (vertex_pos_from g name i ≡ i + k) × Stands g name k
unfolding vertex_pos_from
vertex_pos_from-Stands [] name i at = absurd (not-mem-nil at)
vertex_pos_from-Stands (x ∷ g) name i at = elim (Bool-cases (x.state == name)) [
  | inl e ↦ (0, rw (vertex_pos_from, e) (omega arith), (x, refl, (==_iff (x.state) name).0 e))
  | inr e ↦
      let (k, found, stands) =
        vertex_pos_from-Stands g name (i + 1) (mem-rest (x.state) name (states g) e at) in
      (suc k, rw (vertex_pos_from, e) (omega (arith, found)), stands)
]

-- The search reads the names only.
pub vertex_pos_from-states :
    (g h : List Vertex) (name i : ℕ)
    → states g ≡ states h
    → vertex_pos_from g name i ≡ vertex_pos_from h name i
unfolding vertex_pos_from
vertex_pos_from-states [] [] name i e = refl
vertex_pos_from-states [] (y ∷ h) name i e = cc
vertex_pos_from-states (x ∷ g) [] name i e = cc
vertex_pos_from-states (x ∷ g) (y ∷ h) name i e =
    let first : x.state ≡ y.state = cc in
    let rest : states g ≡ states h = cc in
    let same : (x.state == name) ≡ (y.state == name) = ap (λ s. s == name) first in
    elim (Bool-cases (x.state == name)) [
      | inl at ↦ rw (vertex_pos_from, at, sym same ∙ at) refl
      | inr past ↦
          rw (vertex_pos_from, past, sym same ∙ past) (vertex_pos_from-states g h name (i + 1) rest)
    ]

-- The position of each name has a vertex of that name.
pub get_vertex_pos-Stands :
    (g : List Vertex) (name : ℕ) → Mem name (states g) → Stands g name (get_vertex_pos g name)
unfolding get_vertex_pos
get_vertex_pos-Stands g name at =
    let (k, found, stands) = vertex_pos_from-Stands g name 0 at in
    subst (Stands g name) (omega (arith, found)) stands
