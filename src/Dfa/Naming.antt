-- ===== src/Dfa/Naming.antt =====
-- A set of nfa2dfa.c that is looked up in the first column and entered there.
use chunxiao_code.Prelude.{
  ℕ, zero, suc, ◌+◌, ◌≤◌, ◌<◌, ◌≡◌, ◌⊎◌, refl, ap, ◌∙◌, List, some, inl, inr, true, false, ◌==◌,
  arith, get_elem?, get_elem?-set_self, get_elem?-set_ne, lt-length_of_get_elem?, length-set, set,
  length,
}
use chunxiao_code.Prelude.Fault.{Each, Each-bind, Each-if, Each-some}
use chunxiao_code.Dfa.Graph.{Vertex}
use chunxiao_code.Dfa.Table.{Strings, TableNode, Names, check_from, check_table, name_set}

module _ (strings : Strings) (g : List Vertex) where
  -- A row of the first column has the set.
  pub record Listed (rows : List TableNode) (count : ℕ) (ch : List ℕ) : Type 0 where
    pub place : ℕ
    pub row : TableNode
    pub below : place < count
    pub stands : get_elem? rows place ≡ some row
    pub equal : strings.strcmp_equal (row.ch) ch ≡ some true

  -- The set is empty, or it is one of the rows.
  abbrev pub Found : List TableNode → ℕ → List ℕ → Type 0
  Found rows count ch = (get_elem? ch 0 ≡ some 0) ⊎ Listed rows count ch

  -- The rows that were there are as before.
  pub record Grows (rows : List TableNode) (count : ℕ) (rows' : List TableNode) (count' : ℕ)
      : Type 0 where
    pub size : length rows' ≡ length rows
    pub more : count ≤ count'
    pub fits : count' ≤ length rows'
    pub kept : (k : ℕ) → k < count → get_elem? rows' k ≡ get_elem? rows k

  pub Found-Grows :
      (rows rows' : List TableNode) (count count' : ℕ) (ch : List ℕ)
      → Grows rows count rows' count'
      → Found rows count ch
      → Found rows' count' ch
  Found-Grows rows rows' count count' ch grows (inl e) = inl e
  Found-Grows rows rows' count count' ch grows (inr l) = inr (record {
    place = l.place;
    row = l.row;
    below = omega (arith, l.below, grows.more);
    stands = grows.kept (l.place) (l.below) ∙ l.stands;
    equal = l.equal;
  })

  pub Grows-Grows :
      (r r' r'' : List TableNode) (c c' c'' : ℕ)
      → Grows r c r' c'
      → Grows r' c' r'' c''
      → Grows r c r'' c''
  Grows-Grows r r' r'' c c' c'' a b = record {
    size = b.size ∙ a.size;
    more = omega (arith, a.more, b.more);
    fits = b.fits;
    kept = λ k h. b.kept k (omega (arith, a.more)) ∙ a.kept k h;
  }

  pub Grows-refl : (r : List TableNode) (c : ℕ) → c ≤ length r → Grows r c r c
  Grows-refl r c h = record { size = refl; more = omega arith; fits = h; kept = λ k lt. refl }

  check_from-Listed :
      (rows : List TableNode) (n i count : ℕ) (str : List ℕ)
      → i + n ≤ count
      → Each (λ k. (k ≡ 1) ⊎ Listed rows count str) (check_from strings g rows n i str)
  unfolding check_from
  check_from-Listed rows zero i count str h = inl refl
  check_from-Listed rows (suc n) i count str h = Each-bind _ _ (get_elem? rows i) (λ row at.
      Each-bind _ _ (strings.strcmp_equal (row.ch) str) (elim [
        | true ↦ λ same.
            inr (record { place = i; row = row; below = omega arith; stands = at; equal = same })
        | false ↦ λ differs. check_from-Listed rows n (i + 1) count str (omega arith)
      ]))

  -- What naming a set leaves.
  abbrev pub Named : Names → TableNode → Names × TableNode → Type 0
  Named s node (s', node') =
      Grows (s.rows) (s.count) (s'.rows) (s'.count)
      × (node'.ch ≡ node.ch)
      × Found (s'.rows) (s'.count) (node.ch)

  Grows-set :
      (rows : List TableNode) (count : ℕ) (row : TableNode)
      → count < length rows
      → Grows rows count (set rows count row) (count + 1)
  Grows-set rows count row h = record {
    size = length-set rows count row;
    more = omega arith;
    fits = omega (arith, length-set rows count row);
    kept = λ k lt. get_elem?-set_ne rows row (λ e. absurd (omega arith));
  }

  pub name_set-Named :
      (s : Names) (node : TableNode)
      → ((dst src dst' : List ℕ)
          → strings.strcpy dst src ≡ some dst'
          → strings.strcmp_equal dst' src ≡ some true)
      → s.count ≤ length (s.rows)
      → Each (Named s node) (name_set strings g s node)
  unfolding name_set check_table
  name_set-Named s node law fits = Each-bind _ _ (get_elem? (node.ch) 0) (λ c at.
      Each-if _ _ _ (c == 0)
        (λ none_left. (Grows-refl (s.rows) (s.count) fits, refl, inl (at ∙ ap some (ground arith))))
        (λ is_set.
          Each-bind _ _ (check_from strings g (s.rows) (s.count) 0 (node.ch)) (λ check found.
            Each-if _ _ _ (check == 1)
              (λ fresh. Each-bind _ _ (get_elem? (s.rows) (s.count)) (λ row here.
                Each-bind _ _ (strings.strcpy (row.ch) (node.ch)) (λ ch copied.
                  let below = lt-length_of_get_elem? (s.rows) (s.count) row here in
                  (
                    Grows-set (s.rows) (s.count) _ below,
                    refl,
                    inr (record {
                      place = s.count;
                      row = _;
                      below = omega arith;
                      stands = get_elem?-set_self (s.rows) (s.count) _ below;
                      equal = law (row.ch) (node.ch) ch copied;
                    }),
                  ))))
              (λ old. Each-bind _ _ (get_elem? (s.rows) check) (λ row here. (
                Grows-refl (s.rows) (s.count) fits,
                refl,
                elim (Each-some (λ k. (k ≡ 1) ⊎ Listed (s.rows) (s.count) (node.ch)) _ check
                    (check_from-Listed (s.rows) (s.count) 0 (s.count) (node.ch) (omega arith))
                    found) [ inl one ↦ absurd (ground arith) | inr l ↦ inr l ],
              ))))))
