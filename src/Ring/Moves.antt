-- ===== src/Ring/Moves.antt =====
-- Each step of a call of `QuePush` in ring1.c keeps what holds of the queue.
use mathlib.Core.Path.{subst}
use chunxiao_code.Prelude.{
  ℕ, ◌≡◌, ◌≢◌, refl, ap, sym, ◌∙◌, List, [], ◌∷◌, ◌++◌, Option, none, some, Bool-cases, inl, inr,
  true, false, ◌==◌, ==_iff, arith,
}
use chunxiao_code.Prelude.Members.{member}
use chunxiao_code.Prelude.Fault.{some-cancel}
use chunxiao_code.Ring.{
  Node, Store, update, same, Pc, push_alloc, push_rear, push_link, push_swing, step,
}
use chunxiao_code.Ring.Chain.{
  addresses, end_of, update_same, update_other, Linked-update, Linked-fresh, end_of-member,
}
use chunxiao_code.Ring.Pushes.{
  View, starting, holding, trying, joined, outside, view, Calls, put, logged,
}
use chunxiao_code.Ring.Together.{
  put-all, new_node, Apart, Seen, Says, node_held, Rear, settled, behind, Together,
}

pub put-here : (pc : ℕ → Pc) (t : ℕ) (p : Pc) → put pc t p t ≡ p
put-here pc t p = ground arith

pub put-there : (pc : ℕ → Pc) (t u : ℕ) (p : Pc) → (u == t) ≡ false → put pc t p u ≡ pc u
put-there pc t u p ne = rw ne refl

-- The new nodes after a step: that of call t is the one it had, or nobody's.
pub put-own :
    (pc : ℕ → Pc) (t : ℕ) (p : Pc)
    → ((u v a : ℕ) → new_node (pc u) ≡ some a → new_node (pc v) ≡ some a → u ≡ v)
    → ((u a : ℕ) → (u == t) ≡ false → new_node p ≡ some a → new_node (pc u) ≢ some a)
    → (u v a : ℕ) → new_node (put pc t p u) ≡ some a
    → new_node (put pc t p v) ≡ some a
    → u ≡ v
put-own pc t p own other u v a = elim (Bool-cases (u == t)) [
  | inl e ↦ elim (Bool-cases (v == t)) [
    | inl e' ↦ λ h h'. (==_iff u t).0 e ∙ sym ((==_iff v t).0 e')
    | inr ne' ↦ rw e (rw ne' (λ h h'. absurd (other v a ne' h h')))
  ]
  | inr ne ↦ elim (Bool-cases (v == t)) [
    | inl e' ↦ rw ne (rw e' (λ h h'. absurd (other u a ne h' h)))
    | inr ne' ↦ rw ne (rw ne' (own u v a))
  ]
]

-- A step between two places that are not in front of the second compare-and-swap.
pub Rear-put :
    (rear front t : ℕ) (cells : List (ℕ × ℕ)) (pc : ℕ → Pc) (p : Pc)
    → ((temp at : ℕ) → pc t ≢ push_swing temp at)
    → ((temp at : ℕ) → p ≢ push_swing temp at)
    → Rear rear front cells pc
    → Rear rear front cells (put pc t p)
Rear-put rear front t cells pc p was is (settled e none_swings) =
    settled e
      (put-all (λ u q. (temp at : ℕ) → q ≢ push_swing temp at) pc t p is (λ u ne. none_swings u))
Rear-put rear front t cells pc p was is (behind t' temp d start e split at only) =
    behind t' temp d start
      (elim (Bool-cases (t' == t)) [
        | inl same ↦ absurd (was temp rear (ap pc (sym ((==_iff t' t).0 same)) ∙ e))
        | inr ne ↦ put-there pc t t' p ne ∙ e
      ])
      split at
      (put-all (λ u q. (temp' at' : ℕ) → q ≡ push_swing temp' at' → u ≡ t') pc t p
        (λ temp' at' e'. absurd (is temp' at' e')) (λ u ne. only u))

-- What a step of call t at a place comes to.
abbrev pub Moves :
    (old : List (ℕ × ℕ)) (item : ℕ → ℕ) (w : Calls) → Together old item w → ℕ → ℕ → Pc → Type 0
Moves old item w v t fresh p =
    (s' : Store) × (p' : Pc) × (step fresh (w.store) p ≡ some (s', p'))
    × (next : Together old item (record { store = s'; pc = put (w.pc) t p' })) × (next.log
        ≡ logged (v.log) t p p')

not_fresh :
    (h : ℕ → Option Node) (a fresh : ℕ) (n : Node)
    → h a ≡ some n
    → h fresh ≡ none
    → (a == fresh) ≡ false
not_fresh h a fresh n e unused = elim (Bool-cases (a == fresh)) [
  | inl same ↦ absurd (cc (e, unused, ap h ((==_iff a fresh).0 same)))
  | inr ne ↦ ne
]

abbrev pub with_node : Store → ℕ → Option Node → Store
with_node s a c = record s { node = update (s.node) a c }

pub Apart-write :
    (s : Store) (cells : List (ℕ × ℕ)) (d temp a : ℕ) (c : Option Node)
    → (temp == a) ≡ false
    → Apart s cells d temp
    → Apart (with_node s a c) cells d temp
Apart-write s cells d temp a c ne m = record {
  stands = update_other (s.node) a temp c ne ∙ m.stands;
  outside = m.outside;
}

Seen-write :
    (s : Store) (cells : List (ℕ × ℕ)) (p a : ℕ) (c : Option Node)
    → Seen s cells p
    → Seen (with_node s a c) cells p
Seen-write s cells p a c m = record { inside = m.inside; current = m.current }

Says-write :
    (s : Store) (cells : List (ℕ × ℕ)) (log : List ℕ) (d u a : ℕ) (c : Option Node) (p : View)
    → s.node a ≡ none
    → Says s cells log d u p
    → Says (with_node s a c) cells log d u p
Says-write s cells log d u a c (starting d') unused h = h
Says-write s cells log d u a c (holding temp) unused (m, n) =
    (Apart-write s cells d temp a c (not_fresh (s.node) temp a _ (m.stands) unused) m, n)
Says-write s cells log d u a c (trying temp p) unused (m, v, n) = (
  Apart-write s cells d temp a c (not_fresh (s.node) temp a _ (m.stands) unused) m,
  Seen-write s cells p a c v,
  n,
)
Says-write s cells log d u a c joined unused h = h
Says-write s cells log d u a c outside unused h = h

-- A new node is allocated.
pub Says-stands :
    (s : Store) (cells : List (ℕ × ℕ)) (log : List ℕ) (d u a : ℕ) (p : View)
    → Says s cells log d u p
    → node_held p ≡ some a
    → Apart s cells d a
Says-stands s cells log d u a (holding temp) (m, n) e =
    subst (Apart s cells d) (some-cancel temp a e) m
Says-stands s cells log d u a (trying temp p) (m, v, n) e =
    subst (Apart s cells d) (some-cancel temp a e) m
Says-stands s cells log d u a (starting d') h e = absurd cc
Says-stands s cells log d u a joined h e = absurd cc
Says-stands s cells log d u a outside h e = absurd cc

member-before :
    (a c d : ℕ) (start : List (ℕ × ℕ))
    → member (a ∷ addresses (start ++ ((c, d) ∷ []))) (end_of a start) ≡ true
member-before a c d [] = ground arith
member-before a c d ((b, w) ∷ start) = ground (arith, member-before b c d start)

-- `rear` is in the queue.
pub Rear-inside :
    (rear front : ℕ) (cells : List (ℕ × ℕ)) (pc : ℕ → Pc)
    → Rear rear front cells pc
    → member (front ∷ addresses cells) rear ≡ true
Rear-inside rear front cells pc (settled e none_swings) =
    ap (member (front ∷ addresses cells)) e ∙ end_of-member front cells
Rear-inside rear front cells pc (behind t temp d start e split at only) =
    ap (λ cs. member (front ∷ addresses cs) rear) split
    ∙ ap (member (front ∷ addresses (start ++ ((temp, d) ∷ [])))) at
    ∙ member-before front temp d start

module _ (old : List (ℕ × ℕ)) (item : ℕ → ℕ) (w : Calls) (t fresh : ℕ)
    (v : Together old item w) where
  pub push_alloc-Moves :
      (d : ℕ)
      → w.store.node fresh ≡ none
      → w.pc t ≡ push_alloc d
      → Moves old item w v t fresh (push_alloc d)
  unfolding step
  push_alloc-Moves d unused e =
      let (same, new) : Says (w.store) (v.cells) (v.log) (item t) t (view (push_alloc d)) =
        subst (λ q. Says (w.store) (v.cells) (v.log) (item t) t (view q)) e (v.says t) in
      let out =
        Linked-fresh (w.store.node) (w.store.front) (v.junk) fresh (v.cells) unused (v.linked) in
      let s' = with_node (w.store) fresh (some (record { next = none; item = d })) in
      (
        s',
        push_rear fresh,
        refl,
        record {
          junk = v.junk;
          cells = v.cells;
          log = v.log;
          linked =
              Linked-update (w.store.node) (w.store.front) (v.junk) fresh _ (v.cells) out
                (v.linked);
          distinct = v.distinct;
          items_are = v.items_are;
          once = v.once;
          rear =
              Rear-put _ _ t (v.cells) (w.pc) (push_rear fresh) (λ temp at e'. absurd cc)
                (λ temp at e'. absurd cc) (v.rear);
          says =
              put-all (λ u p. Says s' (v.cells) (v.log) (item u) u (view p)) (w.pc) t
                (push_rear fresh)
                (
                  record {
                    stands =
                        update_same (w.store.node) fresh _
                        ∙ ap (λ i. some (record { next = none; item = i })) same;
                    outside = out;
                  },
                  new,
                )
                (λ u ne.
                  Says-write (w.store) (v.cells) (v.log) (item u) u fresh
                    (some (record { next = none; item = d })) (view (w.pc u)) unused (v.says u));
          own = put-own (w.pc) t (push_rear fresh) (v.own) (λ u a ne e' h.
              let m =
                Says-stands (w.store) (v.cells) (v.log) (item u) u a (view (w.pc u)) (v.says u) h in
              cc (m.stands, unused, some-cancel fresh a e'));
        },
        refl,
      )

  rear_inside : member (w.store.front ∷ addresses (v.cells)) (w.store.rear) ≡ true
  rear_inside = Rear-inside _ _ (v.cells) (w.pc) (v.rear)

  -- A step between two places that writes nothing, with the new node that the call has.
  pub stays :
      (q : Pc)
      → ((temp at : ℕ) → w.pc t ≢ push_swing temp at)
      → ((temp at : ℕ) → q ≢ push_swing temp at)
      → Says (w.store) (v.cells) (v.log) (item t) t (view q)
      → ((a : ℕ) → new_node q ≡ some a → new_node (w.pc t) ≡ some a)
      → (next : Together old item (record { store = w.store; pc = put (w.pc) t q })) × (next.log
          ≡ v.log)
  stays q was is says held = (
    record {
      junk = v.junk;
      cells = v.cells;
      log = v.log;
      linked = v.linked;
      distinct = v.distinct;
      items_are = v.items_are;
      once = v.once;
      rear = Rear-put _ _ t (v.cells) (w.pc) q was is (v.rear);
      says =
          put-all (λ u p. Says (w.store) (v.cells) (v.log) (item u) u (view p)) (w.pc) t q says
            (λ u ne. v.says u);
      own =
          put-own (w.pc) t q (v.own)
            (λ u a ne e h. absurd (ground (arith, v.own u t a h (held a e))));
    },
    refl,
  )

  pub push_rear-Moves :
      (temp : ℕ) → w.pc t ≡ push_rear temp → Moves old item w v t fresh (push_rear temp)
  unfolding step
  push_rear-Moves temp e =
      let (mine, new) : Says (w.store) (v.cells) (v.log) (item t) t (view (push_rear temp)) =
        subst (λ q. Says (w.store) (v.cells) (v.log) (item t) t (view q)) e (v.says t) in
      let (next, same) =
        stays (push_link temp (w.store.rear)) (λ temp at e'. absurd cc) (λ temp at e'. absurd cc)
          (mine, record { inside = rear_inside; current = λ e'. refl }, new)
          (λ a e'. ap new_node e ∙ e') in
      (_, _, refl, next, same)
