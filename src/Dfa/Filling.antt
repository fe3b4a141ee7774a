-- ===== src/Dfa/Filling.antt =====
-- What the matrix of nfa2dfa.c holds when it is filled.
use mathlib.Core.Path.{subst}
use chunxiao_code.Prelude.{
  ℕ, ◌+◌, ◌≤◌, ◌<◌, ◌≡◌, refl, ap, sym, ◌∙◌, List, [], ◌∷◌, some, true, arith, get_elem?,
  get_elem?-set_self, get_elem?-set_ne, lt-length_of_get_elem?, set, length, ℕ_discrete,
}
use chunxiao_code.Prelude.Fault.{◌>>=◌, Each, Each-bind, Each-some}
use chunxiao_code.Dfa.Graph.{Vertex}
use chunxiao_code.Dfa.Moves.{smove, e_closure}
use chunxiao_code.Dfa.Table.{Strings, TableNode, TableQueue, empty_node, Names, name_set, fill_cell}
use chunxiao_code.Dfa.Naming.{Found, Grows, Found-Grows, name_set-Named}

module _ (strings : Strings) (g : List Vertex) where
  -- The cell of a column at row k: the closed move of the row's set, which is empty or one of the rows.
  pub record Moves (rows : List TableNode) (count : ℕ) (queue : TableQueue) (k : ℕ) : Type 0 where
    pub row : TableNode
    pub node : TableNode
    pub of : get_elem? rows k ≡ some row
    pub stands : get_elem? (queue.tn) k ≡ some node
    pub moved :
        (smove g (row.ch) (empty_node.ch) (queue.transword) >>= λ ch. e_closure g ch)
        ≡ some (node.ch)
    pub found : Found strings g rows count (node.ch)

  -- A column whose cells are filled up to row j.
  pub record Column (rows : List TableNode) (count j : ℕ) (queue : TableQueue) : Type 0 where
    pub before : (k : ℕ) → k < j → Moves rows count queue k
    pub after :
        (k : ℕ) (node : TableNode)
        → j ≤ k
        → get_elem? (queue.tn) k ≡ some node
        → node.ch ≡ empty_node.ch

  abbrev pub Columns : List TableNode → ℕ → ℕ → List TableQueue → Type 0
  Columns rows count j [] = Unit
  Columns rows count j (queue ∷ queues) = Column rows count j queue × Columns rows count j queues

  pub Column-Grows :
      (rows rows' : List TableNode) (count count' j : ℕ) (queue : TableQueue)
      → Grows strings g rows count rows' count'
      → j ≤ count
      → Column rows count j queue
      → Column rows' count' j queue
  Column-Grows rows rows' count count' j queue grows le c = record {
    before = λ k lt.
        (let m = c.before k lt in
          record {
            row = m.row;
            node = m.node;
            of = grows.kept k (omega arith) ∙ m.of;
            stands = m.stands;
            moved = m.moved;
            found = Found-Grows strings g rows rows' count count' (m.node.ch) grows (m.found);
          });
    after = c.after;
  }

  pub Columns-Grows :
      (rows rows' : List TableNode) (count count' j : ℕ) (queues : List TableQueue)
      → Grows strings g rows count rows' count'
      → j ≤ count
      → Columns rows count j queues
      → Columns rows' count' j queues
  Columns-Grows rows rows' count count' j [] grows le cs = tt
  Columns-Grows rows rows' count count' j (queue ∷ queues) grows le (c, cs) = (
    Column-Grows rows rows' count count' j queue grows le c,
    Columns-Grows rows rows' count count' j queues grows le cs,
  )

  abbrev pub Cell : ℕ → Names → TableQueue → Names × TableQueue → Type 0
  Cell j s queue (s', queue') =
      Grows strings g (s.rows) (s.count) (s'.rows) (s'.count)
      × (queue'.transword ≡ queue.transword)
      × Column (s'.rows) (s'.count) (j + 1) queue'

  Column-set :
      (rows rows' : List TableNode) (count count' j : ℕ) (queue : TableQueue)
      (row node node' : TableNode)
      → Column rows count j queue
      → Grows strings g rows count rows' count'
      → j < count
      → get_elem? rows j ≡ some row
      → get_elem? (queue.tn) j ≡ some node
      → (smove g (row.ch) (node.ch) (queue.transword) >>= λ ch. e_closure g ch) ≡ some (node'.ch)
      → Found strings g rows' count' (node'.ch)
      → Column rows' count' (j + 1) (record queue { tn = set (queue.tn) j node' })
  Column-set rows rows' count count' j queue row node node' c grows lt of at moved found = record {
    before = λ k h. elim (ℕ_discrete k j) [
      | yes e ↦ record {
        row = row;
        node = node';
        of = ap (get_elem? rows') e ∙ grows.kept j lt ∙ of;
        stands =
            ap (get_elem? (set (queue.tn) j node')) e
            ∙ get_elem?-set_self (queue.tn) j node' (lt-length_of_get_elem? (queue.tn) j node at);
        moved =
            subst
              (λ ch.
                (smove g (row.ch) ch (queue.transword) >>= λ ch'. e_closure g ch')
                ≡ some (node'.ch))
              (c.after j node (omega arith) at) moved;
        found = found;
      }
      | no ne ↦
          (let m = c.before k (omega (arith, ne)) in
            record {
              row = m.row;
              node = m.node;
              of = grows.kept k (omega arith) ∙ m.of;
              stands = get_elem?-set_ne (queue.tn) node' (λ e. ne (sym e)) ∙ m.stands;
              moved = m.moved;
              found = Found-Grows strings g rows rows' count count' (m.node.ch) grows (m.found);
            })
    ];
    after = λ k at' h is.
        c.after k at' (omega arith)
          (sym (get_elem?-set_ne (queue.tn) node' (λ e. absurd (omega arith))) ∙ is);
  }

  pub fill_cell-Cell :
      (j : ℕ) (s : Names) (queue : TableQueue)
      → ((dst src dst' : List ℕ)
          → strings.strcpy dst src ≡ some dst'
          → strings.strcmp_equal dst' src ≡ some true)
      → s.count ≤ length (s.rows)
      → j < s.count
      → Column (s.rows) (s.count) j queue
      → Each (Cell j s queue) (fill_cell strings g j s queue)
  unfolding fill_cell
  fill_cell-Cell j s queue law fits lt c = Each-bind _ _ (get_elem? (s.rows) j) (λ row of.
      Each-bind _ _ (get_elem? (queue.tn) j) (λ node at.
        Each-bind _ _ (smove g (row.ch) (node.ch) (queue.transword)) (λ moved e.
          Each-bind _ _ (e_closure g moved) (λ closed e'.
            Each-bind _ _ (name_set strings g s (record node { ch = closed })) (λ r e''.
              let (grows, same, found) =
                Each-some _ _ r (name_set-Named strings g s (record node { ch = closed }) law fits)
                  e'' in
              (
                grows,
                refl,
                Column-set _ _ _ _ j queue row node (r.1) c grows lt of at
                    (ap (λ m. m >>= λ ch. e_closure g ch) e ∙ e' ∙ ap some (sym same))
                    (subst (Found strings g (r.0.rows) (r.0.count)) (sym same) found),
              ))))))
