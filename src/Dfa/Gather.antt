-- ===== src/Dfa/Gather.antt =====
-- The loops of nfa2dfa.c that gather states in an array, against the list of the names they meet.
use mathlib.Core.Path.{subst}
use chunxiao_code.Prelude.{
  ℕ, zero, suc, ◌+◌, ◌≤◌, ◌<◌, ◌≡◌, refl, sym, ◌∙◌, ◌⊎◌, inl, inr, List, [], ◌∷◌, ◌++◌, Option,
  some, true, ◌==◌, length, length-append, get_elem?, Bool-cases, arith, if◌then◌else◌,
}
use chunxiao_code.Prelude.Fault.{◌>>=◌}
use chunxiao_code.Dfa.Graph.{Edge, Vertex}
use chunxiao_code.Dfa.Moves.{add_state, follow_edges, visit, smove_loop}
use chunxiao_code.Prelude.Members.{member}
use chunxiao_code.Dfa.Cells.{cells, insert_new, add_state-inserts}

abbrev pub insert_all : List ℕ → List ℕ → List ℕ
insert_all ws [] = ws
insert_all ws (name ∷ names) = insert_all (insert_new ws name) names

insert_all-append :
    (ws xs ys : List ℕ) → insert_all ws (xs ++ ys) ≡ insert_all (insert_all ws xs) ys
insert_all-append ws [] ys = refl
insert_all-append ws (x ∷ xs) ys = insert_all-append (insert_new ws x) xs ys

insert_new-grows : (ws : List ℕ) (name : ℕ) → length ws ≤ length (insert_new ws name)
insert_new-grows ws name = elim (Bool-cases (member ws name)) [
  | inl e ↦ rw e (omega arith)
  | inr e ↦ rw e (omega (arith, length-append ws (name ∷ [])))
]

insert_all-grows : (ws names : List ℕ) → length ws ≤ length (insert_all ws names)
insert_all-grows ws [] = omega arith
insert_all-grows ws (name ∷ names) =
    omega (arith, insert_new-grows ws name, insert_all-grows (insert_new ws name) names)

-- The loop inserts the names, if the set fits the array in the end.
abbrev pub Leaves : (List ℕ × ℕ → Option (List ℕ × ℕ)) → List ℕ → ℕ → List ℕ → Type 0
Leaves loop ws spare after =
    (left : ℕ) × (loop (cells ws spare, length ws) ≡ some (cells after left, length after))
    × (length after + left ≡ length ws + spare)

abbrev pub Inserts : (List ℕ × ℕ → Option (List ℕ × ℕ)) → List ℕ → Type 0
Inserts loop names =
    (ws : List ℕ) (spare : ℕ)
    → length (insert_all ws names) ≤ length ws + spare
    → Leaves loop ws spare (insert_all ws names)

nothing-Inserts : Inserts (λ s. some s) []
nothing-Inserts ws spare fits = (spare, refl, refl)

then-Leaves :
    (f h : List ℕ × ℕ → Option (List ℕ × ℕ)) (ws mid after : List ℕ) (spare : ℕ)
    → Leaves f ws spare mid
    → ((left : ℕ) → length mid + left ≡ length ws + spare → Leaves h mid left after)
    → Leaves (λ s. f s >>= h) ws spare after
then-Leaves f h ws mid after spare (left₁, e₁, n₁) second =
    let (left₂, e₂, n₂) = second left₁ n₁ in (left₂, rw e₁ e₂, n₂ ∙ n₁)

then-Inserts :
    (f h : List ℕ × ℕ → Option (List ℕ × ℕ)) (xs ys : List ℕ)
    → Inserts f xs
    → Inserts h ys
    → Inserts (λ s. f s >>= h) (xs ++ ys)
then-Inserts f h xs ys first second ws spare fits =
    let mid = insert_all ws xs in
    let fits' : length (insert_all mid ys) ≤ length ws + spare =
      rw (← insert_all-append ws xs ys) fits in
    subst (Leaves (λ s. f s >>= h) ws spare) (sym (insert_all-append ws xs ys)) (
      then-Leaves f h ws mid (insert_all mid ys) spare
        (first ws spare (omega (arith, insert_all-grows mid ys)))
        (λ left e. second mid left (omega arith)))

room :
    (ws : List ℕ) (spare name : ℕ)
    → length (insert_new ws name) ≤ length ws + spare
    → (member ws name ≡ true) ⊎ (0 < spare)
room ws spare name fits = elim (Bool-cases (member ws name)) [
  | inl e ↦ inl e
  | inr e ↦ inr (omega (arith, rw e at fits, length-append ws (name ∷ [])))
]

add_state-Inserts : (name : ℕ) → 0 < name → Inserts (λ s. add_state s name) (name ∷ [])
add_state-Inserts name h ws spare fits = add_state-inserts ws spare name h (room ws spare name fits)

-- The name of the state at a position.
abbrev pub state_at : List Vertex → ℕ → ℕ
state_at [] i = 0
state_at (v ∷ g) zero = v.state
state_at (v ∷ g) (suc i) = state_at g i

-- The names that the edges lead to by a character.
abbrev pub reached : List Vertex → ℕ → List Edge → List ℕ
reached g word [] = []
reached g word (p ∷ edges) =
    (if p.cost == word then state_at g (p.dest) ∷ [] else []) ++ reached g word edges

-- The names that the states of one name lead to.
abbrev pub reached_from : List Vertex → ℕ → ℕ → List Vertex → List ℕ
reached_from g word name [] = []
reached_from g word name (v ∷ vs) =
    (if v.state == name then reached g word (v.adj) else []) ++ reached_from g word name vs

-- The names that a set of states leads to.
abbrev pub moved : List Vertex → ℕ → List ℕ → List ℕ
moved g word [] = []
moved g word (name ∷ names) = reached_from g word name g ++ moved g word names

-- Every state has a name that is not zero.
abbrev pub Positive : List Vertex → Type 0
Positive g = (i : ℕ) → i < length g → 0 < state_at g i

-- The edges point at states.
abbrev pub Inside : ℕ → List Edge → Type 0
Inside n [] = Unit
Inside n (p ∷ edges) = (p.dest < n) × Inside n edges

abbrev pub AllInside : ℕ → List Vertex → Type 0
AllInside n [] = Unit
AllInside n (v ∷ g) = Inside n (v.adj) × AllInside n g

get_elem?-state_at :
    (g : List Vertex) (i : ℕ)
    → i < length g
    → (v : Vertex) × (get_elem? g i ≡ some v) × (v.state ≡ state_at g i)
get_elem?-state_at [] i h = absurd (omega arith)
get_elem?-state_at (v ∷ g) zero h = (v, refl, refl)
get_elem?-state_at (v ∷ g) (suc i) h = get_elem?-state_at g i (omega arith)

-- One edge: it adds a state, or does nothing.
edge-Inserts :
    (g : List Vertex) (word : ℕ) (p : Edge)
    → Positive g
    → p.dest < length g
    → Inserts
        (λ s.
          if p.cost == word then (get_elem? g (p.dest) >>= λ v. add_state s (v.state)) else some s)
        (if p.cost == word then state_at g (p.dest) ∷ [] else [])
edge-Inserts g word p pos h = elim (Bool-cases (p.cost == word)) [
  | inl e ↦
      let (v, found, named) = get_elem?-state_at g (p.dest) h in
      rw (e, found, named) (add_state-Inserts (state_at g (p.dest)) (pos (p.dest) h))
  | inr e ↦ rw e nothing-Inserts
]

follow_edges-Inserts :
    (g : List Vertex) (word : ℕ) (edges : List Edge)
    → Positive g
    → Inside (length g) edges
    → Inserts (follow_edges g word edges) (reached g word edges)
unfolding follow_edges
follow_edges-Inserts g word [] pos inside = nothing-Inserts
follow_edges-Inserts g word (p ∷ edges) pos (h, inside) =
    then-Inserts
      (λ s.
        if p.cost == word then (get_elem? g (p.dest) >>= λ v. add_state s (v.state)) else some s)
      (follow_edges g word edges) (if p.cost == word then state_at g (p.dest) ∷ [] else [])
      (reached g word edges) (edge-Inserts g word p pos h)
      (follow_edges-Inserts g word edges pos inside)

vertex-Inserts :
    (g : List Vertex) (word name : ℕ) (v : Vertex)
    → Positive g
    → Inside (length g) (v.adj)
    → Inserts
        (λ s. if v.state == name then follow_edges g word (v.adj) s else some s)
        (if v.state == name then reached g word (v.adj) else [])
vertex-Inserts g word name v pos inside = elim (Bool-cases (v.state == name)) [
  | inl e ↦ rw e (follow_edges-Inserts g word (v.adj) pos inside)
  | inr e ↦ rw e nothing-Inserts
]

pub visit-Inserts :
    (g : List Vertex) (word name : ℕ) (vs : List Vertex)
    → Positive g
    → AllInside (length g) vs
    → Inserts (visit g word name vs) (reached_from g word name vs)
unfolding visit
visit-Inserts g word name [] pos inside = nothing-Inserts
visit-Inserts g word name (v ∷ vs) pos (at, inside) =
    then-Inserts (λ s. if v.state == name then follow_edges g word (v.adj) s else some s)
      (visit g word name vs) (if v.state == name then reached g word (v.adj) else [])
      (reached_from g word name vs) (vertex-Inserts g word name v pos at)
      (visit-Inserts g word name vs pos inside)

pub smove_loop-Inserts :
    (g : List Vertex) (word : ℕ) (names : List ℕ)
    → Positive g
    → AllInside (length g) g
    → Inserts (smove_loop g word names) (moved g word names)
unfolding smove_loop
smove_loop-Inserts g word [] pos inside = nothing-Inserts
smove_loop-Inserts g word (name ∷ names) pos inside =
    then-Inserts (visit g word name g) (smove_loop g word names) (reached_from g word name g)
      (moved g word names) (visit-Inserts g word name g pos inside)
      (smove_loop-Inserts g word names pos inside)
