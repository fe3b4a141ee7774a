-- ===== src/Dfa/Arrows.antt =====
-- The moves of the automaton as a relation, and the lists of names that the loops of nfa2dfa.c meet.
use chunxiao_code.Prelude.{
  ℕ, zero, suc, ◌<◌, ◌≡◌, ap, List, [], ◌∷◌, true, ◌==◌, ==_iff, length, Bool-cases, inl, inr,
  arith, if◌then◌else◌,
}
use chunxiao_code.Dfa.Graph.{Edge, Vertex}
use chunxiao_code.Dfa.Positions.{states}
use chunxiao_code.Prelude.Members.{member}
use chunxiao_code.Dfa.Gather.{state_at, reached, reached_from, Positive, Inside, AllInside}
use chunxiao_code.Prelude.Members.{member-append}

-- An edge of the list leads by the character to a state of the name.
pub data Leads (g : List Vertex) (word b : ℕ) : List Edge → Type 0 where
  first :
      {p : Edge} {edges : List Edge}
      → p.cost ≡ word
      → p.dest < length g
      → state_at g (p.dest) ≡ b
      → Leads g word b (p ∷ edges)
  later : {p : Edge} {edges : List Edge} → Leads g word b edges → Leads g word b (p ∷ edges)

-- A state of the name `a` in the list has such an edge.
pub data LeadsFrom (g : List Vertex) (word a b : ℕ) : List Vertex → Type 0 where
  this :
      {v : Vertex} {vs : List Vertex}
      → v.state ≡ a
      → Leads g word b (v.adj)
      → LeadsFrom g word a b (v ∷ vs)
  next : {v : Vertex} {vs : List Vertex} → LeadsFrom g word a b vs → LeadsFrom g word a b (v ∷ vs)

-- From a state named `a` an edge with the character leads to one named `b`.
abbrev pub Arrow : List Vertex → ℕ → ℕ → ℕ → Type 0
Arrow g word a b = LeadsFrom g word a b g

-- The states that are reached from the name `a` by edges with the character.
pub data Reach (g : List Vertex) (word a : ℕ) : ℕ → Type 0 where
  here : Reach g word a a
  step : {b c : ℕ} → Reach g word a b → Arrow g word b c → Reach g word a c

module _ (g : List Vertex) (word : ℕ) where
  member-Leads :
      (edges : List Edge) (b : ℕ)
      → Inside (length g) edges
      → member (reached g word edges) b ≡ true
      → Leads g word b edges
  member-Leads [] b inside at = absurd cc
  member-Leads (p ∷ edges) b (h, inside) at = elim (Bool-cases (p.cost == word)) [
    | inr e ↦ later (member-Leads edges b inside (rw e at at))
    | inl e ↦ elim (Bool-cases (state_at g (p.dest) == b)) [
      | inl same ↦ first ((==_iff (p.cost) word).0 e) h ((==_iff (state_at g (p.dest)) b).0 same)
      | inr other ↦ later (member-Leads edges b inside (ground arith))
    ]
  ]

  Leads-member :
      (edges : List Edge) (b : ℕ) → Leads g word b edges → member (reached g word edges) b ≡ true
  Leads-member [] b l = elim l [ ]
  Leads-member (p ∷ edges) b (first cost h at) = ground arith
  Leads-member (p ∷ edges) b (later l) = ground (arith, Leads-member edges b l)

  member-LeadsFrom :
      (a b : ℕ) (vs : List Vertex)
      → AllInside (length g) vs
      → member (reached_from g word a vs) b ≡ true
      → LeadsFrom g word a b vs
  member-LeadsFrom a b [] inside at = absurd cc
  member-LeadsFrom a b (v ∷ vs) (h, inside) at = elim (Bool-cases (v.state == a)) [
    | inr e ↦ next (member-LeadsFrom a b vs inside (rw e at at))
    | inl e ↦ elim (Bool-cases (member (reached g word (v.adj)) b)) [
      | inl now ↦ this ((==_iff (v.state) a).0 e) (member-Leads (v.adj) b h now)
      | inr not_now ↦ next (
          member-LeadsFrom a b vs inside
            (ground (arith, member-append (reached g word (v.adj)) (reached_from g word a vs) b)))
    ]
  ]

  LeadsFrom-member :
      (a b : ℕ) (vs : List Vertex)
      → LeadsFrom g word a b vs
      → member (reached_from g word a vs) b ≡ true
  LeadsFrom-member a b [] l = elim l [ ]
  LeadsFrom-member a b (v ∷ vs) (this named l) = ground (
    arith,
    member-append (reached g word (v.adj)) (reached_from g word a vs) b,
    Leads-member (v.adj) b l,
  )
  LeadsFrom-member a b (v ∷ vs) (next l) = ground (
    arith,
    member-append (if v.state == a then reached g word (v.adj) else []) (reached_from g word a vs)
        b,
    LeadsFrom-member a b vs l,
  )

  -- The names that the loops meet from a name are those to which an edge leads.
  pub member-Arrow :
      (a b : ℕ)
      → AllInside (length g) g
      → member (reached_from g word a g) b ≡ true
      → Arrow g word a b
  member-Arrow a b = member-LeadsFrom a b g

  pub Arrow-member : (a b : ℕ) → Arrow g word a b → member (reached_from g word a g) b ≡ true
  Arrow-member a b = LeadsFrom-member a b g

-- A state is one of the states.
member-state_at : (g : List Vertex) (i : ℕ) → i < length g → member (states g) (state_at g i) ≡ true
member-state_at [] i h = absurd (omega arith)
member-state_at (v ∷ g) zero h = ground arith
member-state_at (v ∷ g) (suc i) h = ground (arith, member-state_at g i)

Leads-state :
    {g : List Vertex} {word b : ℕ} {edges : List Edge}
    → Leads g word b edges
    → member (states g) b ≡ true
Leads-state {g} {b} (first {p} cost h at) =
    ground (arith, member-state_at g (p.dest), ap (member (states g)) at)
Leads-state (later l) = Leads-state l

LeadsFrom-state :
    {g : List Vertex} {word a b : ℕ} {vs : List Vertex}
    → LeadsFrom g word a b vs
    → member (states g) b ≡ true
LeadsFrom-state (this named l) = Leads-state l
LeadsFrom-state (next l) = LeadsFrom-state l

pub Arrow-state : {g : List Vertex} {word a b : ℕ} → Arrow g word a b → member (states g) b ≡ true
Arrow-state l = LeadsFrom-state l

-- The states have names that are not zero.
pub states-Positive : (g : List Vertex) (b : ℕ) → Positive g → member (states g) b ≡ true → 0 < b
states-Positive [] b pos at = absurd cc
states-Positive (v ∷ g) b pos at = elim (Bool-cases (v.state == b)) [
  | inl e ↦ ground (arith, pos 0)
  | inr e ↦ states-Positive g b (λ i h. pos (suc i) (omega arith)) (ground arith)
]
