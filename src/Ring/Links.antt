-- ===== src/Ring/Links.antt =====
-- The first compare-and-swap of `QuePush` in ring1.c: it links the node, or the call begins again.
use mathlib.Core.Path.{subst}
use mathlib.Core.List.{map-append, append_assoc}
use chunxiao_code.Prelude.{
  ℕ, ◌≡◌, ◌≢◌, ◌⊎◌, refl, ap, sym, ◌∙◌, List, [], ◌∷◌, ◌++◌, Option, none, some, Bool-cases, inl,
  inr, true, false, ◌==◌, ==_iff, arith,
}
use chunxiao_code.Prelude.Members.{member, Distinct, Distinct-last, member-append}
use chunxiao_code.Ring.{
  Node, Store, update, same, cas_next, Pc, push_rear, push_link, push_swing, step,
}
use chunxiao_code.Ring.Chain.{
  Linked, addresses, items, end_of, update_other, last_item, Linked-extend, end_of-append,
  Distinct-extend,
}
use chunxiao_code.Ring.Pushes.{View, starting, holding, trying, joined, outside, view, Calls}
use chunxiao_code.Ring.Together.{
  put-all, new_node, Apart, Seen, Says, node_held, Rear, settled, behind, Together,
}
use chunxiao_code.Ring.Moves.{stays, put-here, put-own, with_node, Moves}

-- A node of the queue is the last one, or it has a link.
Linked-at :
    (h : ℕ → Option Node) (a v p : ℕ) (cells : List (ℕ × ℕ))
    → Linked h a v cells
    → member (a ∷ addresses cells) p ≡ true
    → ((p ≡ end_of a cells) × (h p ≡ some (record { next = none; item = last_item v cells })))
      ⊎ ((b : ℕ) × (i : ℕ) × (h p ≡ some (record { next = some b; item = i })))
Linked-at h a v p [] l at = let e : p ≡ a = ground arith in inl (e, ap h e ∙ l)
Linked-at h a v p ((b, w) ∷ cells) (l, rest) at = elim (Bool-cases (a == p)) [
  | inl same ↦ inr (b, v, ap h (sym ((==_iff a p).0 same)) ∙ l)
  | inr ne ↦ Linked-at h b w p cells rest (ground arith)
]

-- The compare-and-swap fails where the node has a link.
step-linked :
    (s : Store) (fresh temp p b i : ℕ)
    → s.node p ≡ some (record { next = some b; item = i })
    → step fresh s (push_link temp p) ≡ some (s, push_rear temp)
unfolding step cas_next
step-linked s fresh temp p b i e = rw e refl

step-free :
    (s : Store) (fresh temp p i : ℕ)
    → s.node p ≡ some (record { next = none; item = i })
    → step fresh s (push_link temp p)
      ≡ some (with_node s p (some (record { next = some temp; item = i })), push_swing temp p)
unfolding step cas_next
step-free s fresh temp p i e = rw e refl

Distinct-end :
    (a c d : ℕ) (start : List (ℕ × ℕ))
    → Distinct (a ∷ addresses (start ++ ((c, d) ∷ [])))
    → c ≢ end_of a start
Distinct-end a c d [] (out, rest) e = absurd (ground arith)
Distinct-end a c d ((b, w) ∷ start) (out, rest) e = Distinct-end b c d start rest e

-- Where `rear` is at the last node, no call has still to move it.
Rear-settled :
    (rear front : ℕ) (cells : List (ℕ × ℕ)) (pc : ℕ → Pc)
    → Distinct (front ∷ addresses cells)
    → rear ≡ end_of front cells
    → Rear rear front cells pc
    → (u temp p : ℕ) → pc u ≢ push_swing temp p
Rear-settled rear front cells pc distinct e (settled e' none_swings) = none_swings
Rear-settled rear front cells pc distinct e (behind t temp d start e' split at only) = absurd (
    Distinct-end front temp d start (subst (λ cs. Distinct (front ∷ addresses cs)) split distinct)
      (sym (end_of-append front start temp d) ∙ ap (end_of front) (sym split) ∙ sym e ∙ at))

items-append :
    (cells : List (ℕ × ℕ)) (c d : ℕ) → items (cells ++ ((c, d) ∷ [])) ≡ items cells ++ (d ∷ [])
items-append [] c d = refl
items-append ((b, w) ∷ cells) c d = ap (◌∷◌ w) (items-append cells c d)

member-last :
    (a c d b : ℕ) (cells : List (ℕ × ℕ))
    → (c == b) ≡ false
    → member (a ∷ addresses (cells ++ ((c, d) ∷ []))) b ≡ member (a ∷ addresses cells) b
member-last a c d b [] ne = ground arith
member-last a c d b ((e, w) ∷ cells) ne = ground (arith, member-last e c d b cells ne)

member-late :
    (a c d b : ℕ) (cells : List (ℕ × ℕ))
    → member (a ∷ addresses cells) b ≡ true
    → member (a ∷ addresses (cells ++ ((c, d) ∷ []))) b ≡ true
member-late a c d b [] at = ground arith
member-late a c d b ((e, w) ∷ cells) at = ground (arith, member-late e c d b cells)

apart_of :
    (a b : ℕ) (names : List ℕ) → member names a ≡ true → member names b ≡ false → (b == a) ≡ false
apart_of a b names at out = elim (Bool-cases (b == a)) [
  | inl e ↦ absurd (cc (at, out, ap (member names) ((==_iff b a).0 e)))
  | inr ne ↦ ne
]

module _ (s : Store) (cells : List (ℕ × ℕ)) (log : List ℕ) (t temp p dt : ℕ) (c : Option Node)
    (out : member (s.front ∷ addresses cells) temp ≡ false)
    (at : member (s.front ∷ addresses cells) p ≡ true) where
  abbrev longer : List (ℕ × ℕ)
  longer = cells ++ ((temp, dt) ∷ [])

  Apart-link :
      (d temp' : ℕ)
      → (temp == temp') ≡ false
      → Apart s cells d temp'
      → Apart (with_node s p c) longer d temp'
  Apart-link d temp' ne m = record {
    stands =
        update_other (s.node) p temp' c
          (apart_of p temp' (s.front ∷ addresses cells) at (m.outside))
        ∙ m.stands;
    outside = member-last (s.front) temp dt temp' cells ne ∙ m.outside;
  }

  Seen-link : (q : ℕ) → Seen s cells q → Seen (with_node s p c) longer q
  Seen-link q m = record {
    inside = member-late (s.front) temp dt q cells (m.inside);
    current = λ e. absurd (cc (out, m.inside, e ∙ end_of-append (s.front) cells temp dt));
  }

  unlogged : (u : ℕ) → (u == t) ≡ false → member log u ≡ false → member (log ++ (t ∷ [])) u ≡ false
  unlogged u ne h = ground (arith, member-append log (t ∷ []) u)

  still_logged : (u : ℕ) → member log u ≡ true → member (log ++ (t ∷ [])) u ≡ true
  still_logged u h = ground (arith, member-append log (t ∷ []) u)

  -- What another call may say after the link.
  Says-link :
      (d u : ℕ) (q : View)
      → (u == t) ≡ false
      → node_held q ≢ some temp
      → Says s cells log d u q
      → Says (with_node s p c) longer (log ++ (t ∷ [])) d u q
  Says-link d u (starting d') ne other (e, h) = (e, unlogged u ne h)
  Says-link d u (holding temp') ne other (m, h) =
      (Apart-link d temp' (ground arith) m, unlogged u ne h)
  Says-link d u (trying temp' q) ne other (m, r, h) =
      (Apart-link d temp' (ground arith) m, Seen-link q r, unlogged u ne h)
  Says-link d u joined ne other h = still_logged u h
  Says-link d u outside ne other h = h

module _ (old : List (ℕ × ℕ)) (item : ℕ → ℕ) (w : Calls) (t fresh : ℕ) (v : Together old item w)
    (temp p : ℕ) (e : w.pc t ≡ push_link temp p) where
  abbrev here : List ℕ
  here = w.store.front ∷ addresses (v.cells)

  told : Says (w.store) (v.cells) (v.log) (item t) t (view (push_link temp p))
  told = subst (λ q. Says (w.store) (v.cells) (v.log) (item t) t (view q)) e (v.says t)

  link_fails :
      (b i : ℕ)
      → w.store.node p ≡ some (record { next = some b; item = i })
      → Moves old item w v t fresh (push_link temp p)
  link_fails b i is =
      let (mine, seen, new) = told in
      let (next, same) =
        stays old item w t fresh v (push_rear temp) (λ temp at e'. absurd cc)
          (λ temp at e'. absurd cc) (mine, new) (λ a e'. ap new_node e ∙ e') in
      (w.store, push_rear temp, step-linked (w.store) fresh temp p b i is, next, same)

  link_done :
      p ≡ end_of (w.store.front) (v.cells)
      → w.store.node p ≡ some (record { next = none; item = last_item (v.junk) (v.cells) })
      → Moves old item w v t fresh (push_link temp p)
  link_done last is =
      let (mine, seen, new) = told in
      let c : Option Node =
        some (record { next = some temp; item = last_item (v.junk) (v.cells) }) in
      let at_end : w.store.rear ≡ end_of (w.store.front) (v.cells) = seen.current last ∙ last in
      (
        with_node (w.store) p c,
        push_swing temp p,
        step-free (w.store) fresh temp p _ is,
        record {
          junk = v.junk;
          cells = v.cells ++ ((temp, item t) ∷ []);
          log = v.log ++ (t ∷ []);
          linked =
              subst
                (λ q.
                  Linked (update (w.store.node) q c) (w.store.front) (v.junk)
                    (v.cells ++ ((temp, item t) ∷ [])))
                (sym last)
                (Linked-extend (w.store.node) (w.store.front) (v.junk) temp (item t) (v.cells)
                  (v.distinct) (mine.stands) (mine.outside) (v.linked));
          distinct =
              Distinct-extend (w.store.front) (v.cells) temp (item t) (v.distinct) (mine.outside);
          items_are =
              items-append (v.cells) temp (item t)
              ∙ ap (λ is'. is' ++ (item t ∷ [])) (v.items_are)
              ∙ simp (append_assoc, map-append);
          once = Distinct-last (v.log) t (v.once) new;
          rear =
              behind t temp (item t) (v.cells)
                (put-here (w.pc) t _ ∙ ap (push_swing temp) (sym (seen.current last))) refl at_end
                (put-all (λ u q. (temp' at' : ℕ) → q ≡ push_swing temp' at' → u ≡ t) (w.pc) t _
                  (λ temp' at' e'. refl)
                  (λ u ne temp' at' e'. absurd (
                    Rear-settled _ _ (v.cells) (w.pc) (v.distinct) at_end (v.rear) u temp' at'
                      e')));
          says =
              put-all
                (λ u q.
                  Says (with_node (w.store) p c) (v.cells ++ ((temp, item t) ∷ []))
                    (v.log ++ (t ∷ [])) (item u) u (view q))
                (w.pc) t _ (ground (arith, member-append (v.log) (t ∷ []) t))
                (λ u ne.
                  Says-link (w.store) (v.cells) (v.log) t temp p (item t) c (mine.outside)
                    (seen.inside) (item u) u (view (w.pc u)) ne
                    (λ h. absurd (ground (arith, v.own u t temp h (ap new_node e)))) (v.says u));
          own = put-own (w.pc) t _ (v.own) (λ u a ne e' h. absurd cc);
        },
        refl,
      )

  pub push_link-Moves : Moves old item w v t fresh (push_link temp p)
  push_link-Moves =
      elim (Linked-at (w.store.node) (w.store.front) (v.junk) p (v.cells) (v.linked)
        (told.1.inside)) [ inl (last, is) ↦ link_done last is | inr (b, i, is) ↦ link_fails b i is ]
