-- ===== src/Ring/Alone.antt =====
-- The operations of ring1.c by a thread that is alone.
use mathlib.Core.Path.{subst}
use chunxiao_code.Prelude.{
  ℕ, ◌≡◌, refl, ap, sym, ◌∙◌, List, [], ◌∷◌, ◌++◌, Option, none, some, ◌==◌, ==_iff, true, false,
  arith, if◌then◌else◌,
}
use chunxiao_code.Prelude.Members.{member}
use chunxiao_code.Ring.{
  Node, Store, update, same, cas_next, cas_rear, push_alloc, pushed, pop_empty, pop_first, popped,
  step, alone,
}
use chunxiao_code.Ring.Chain.{
  Linked, addresses, end_of, last_item, Holds, update_same, update_other, Linked-update,
  Linked-fresh, Linked-end, apart_end, Linked-extend, end_of-append, Distinct-extend,
}

abbrev pub node_of : Option ℕ → ℕ → Node
node_of p v = record { next = p; item = v }

abbrev pub store : (ℕ → Option Node) → ℕ → ℕ → Store
store h a r = record { node = h; front = a; rear = r }

same_self : (p : Option ℕ) → same p p ≡ true
same_self none = refl
same_self (some a) = ground arith

end_apart :
    (a c : ℕ) (cells : List (ℕ × ℕ))
    → member (a ∷ addresses cells) c ≡ false
    → (end_of a cells == c) ≡ false
end_apart a c cells out = ground (arith, apart_end c a cells out)

pub cas_next-wins :
    (s : Store) (p v : ℕ) (old new : Option ℕ)
    → s.node p ≡ some (node_of old v)
    → cas_next s p old new
      ≡ some (record s { node = update (s.node) p (some (node_of new v)) }, true)
unfolding cas_next
cas_next-wins s p v old new at = rw (at, same_self old) refl

pub cas_rear-wins :
    (h : ℕ → Option Node) (a r new : ℕ) → cas_rear (store h a r) (some r) new ≡ store h a new
unfolding cas_rear
cas_rear-wins h a r new = rw (same_self (some r)) refl

pub cas_rear-fails :
    (h : ℕ → Option Node) (a r b new : ℕ)
    → ((r == b) ≡ false)
    → cas_rear (store h a r) (some b) new ≡ store h a r
unfolding cas_rear
cas_rear-fails h a r b new ne = rw ne refl

-- The four steps of `QuePush` with nothing in between.
push_run :
    (h : ℕ → Option Node) (a r v fresh d : ℕ)
    → h r ≡ some (node_of none v)
    → ((r == fresh) ≡ false)
    → alone 4 fresh (store h a r) (push_alloc d)
      ≡ some (
        store
            (update (update h fresh (some (node_of none d))) r (some (node_of (some fresh) v)))
            a
            fresh,
        pushed,
      )
unfolding alone step
push_run h a r v fresh d at ne =
    let h₁ = update h fresh (some (node_of none d)) in
    rw
      (cas_next-wins (store h₁ a r) r v none (some fresh)
        (update_other h fresh r (some (node_of none d)) ne ∙ at))
      (ap (λ s. some (s, pushed))
        (cas_rear-wins (update h₁ r (some (node_of (some fresh) v))) a r fresh))

-- The seven steps of `QuePop` with nothing in between.
pop_run :
    (h : ℕ → Option Node) (a r r' junk b w fresh : ℕ) (p : Option ℕ)
    → h a ≡ some (node_of (some b) junk)
    → h b ≡ some (node_of p w)
    → ((b == a) ≡ false)
    → ((r == a) ≡ false)
    → ((g : ℕ → Option Node) → cas_rear (store g a r) (some b) a ≡ store g a r')
    → alone 7 fresh (store h a r) pop_empty
      ≡ some (store (update (update h a (some (node_of p junk))) b none) a r', popped (some w))
unfolding alone step
pop_run h a r r' junk b w fresh p at_a at_b ne_b ne_r swing =
    let h₁ = update h a (some (node_of p junk)) in
    let at_b' : h₁ b ≡ some (node_of p w) =
      update_other h a b (some (node_of p junk)) ne_b ∙ at_b in
    rw (ne_r, at_a, at_b, cas_next-wins (store h a r) a junk (some b) p at_a, swing h₁)
      (rw at_b' (rw at_b' refl))

-- A store with its last address written out.
pub by_end :
    (s : Store) (a : ℕ) (cells : List (ℕ × ℕ))
    → s.rear ≡ end_of a cells
    → s ≡ store (s.node) (s.front) (end_of a cells)
by_end s a cells e = ap (store (s.node) (s.front)) e

-- `QuePush` by a thread that is alone, with an address that is not allocated: after four steps it is
-- done, without a fault, and the element stands behind the others.
pub push-Holds :
    (s : Store) (cells : List (ℕ × ℕ)) (fresh d : ℕ)
    → Holds s cells
    → s.node fresh ≡ none
    → (s' : Store) × (alone 4 fresh s (push_alloc d) ≡ some (s', pushed))
      × Holds s' (cells ++ ((fresh, d) ∷ []))
push-Holds s cells fresh d q unused =
    let h = s.node in
    let a = s.front in
    let r = end_of a cells in
    let v = last_item (q.junk) cells in
    let out = Linked-fresh h a (q.junk) fresh cells unused (q.linked) in
    let h₁ = update h fresh (some (node_of none d)) in
    (
      store (update h₁ r (some (node_of (some fresh) v))) a fresh,
      subst
          (λ t.
            alone 4 fresh t (push_alloc d)
            ≡ some (store (update h₁ r (some (node_of (some fresh) v))) a fresh, pushed))
          (sym (by_end s a cells (q.at_end)))
          (push_run h a r v fresh d (Linked-end h a (q.junk) cells (q.linked))
            (end_apart a fresh cells out)),
      record {
        junk = q.junk;
        linked =
            Linked-extend h₁ a (q.junk) fresh d cells (q.distinct)
              (update_same h fresh (some (node_of none d))) out
              (Linked-update h a (q.junk) fresh (some (node_of none d)) cells out (q.linked));
        distinct = Distinct-extend a cells fresh d (q.distinct) out;
        at_end = sym (end_of-append a cells fresh d);
      },
    )

-- `QuePop` by a thread that is alone, on an empty queue: the result is 0 and nothing changes.
pub pop-empty :
    (s : Store) (fresh : ℕ) → Holds s [] → alone 1 fresh s pop_empty ≡ some (s, popped none)
unfolding alone step
pop-empty s fresh q =
    ap (λ t. some (s, if t then popped none else pop_first))
      ((==_iff (s.rear) (s.front)).1 q.at_end)

-- The link of a node to the cells behind it.
head_of : List (ℕ × ℕ) → Option ℕ
head_of [] = none
head_of ((c, x) ∷ rest) = some c

Linked-head :
    (h : ℕ → Option Node) (b w : ℕ) (rest : List (ℕ × ℕ))
    → Linked h b w rest
    → h b ≡ some (node_of (head_of rest) w)
unfolding head_of
Linked-head h b w [] l = l
Linked-head h b w ((c, x) ∷ rest) (l, more) = l

-- The first node linked to the cells behind the second one.
Linked-skip :
    (h : ℕ → Option Node) (a b v w : ℕ) (rest : List (ℕ × ℕ))
    → member (b ∷ addresses rest) a ≡ false
    → member (addresses rest) b ≡ false
    → Linked h b w rest
    → Linked (update (update h a (some (node_of (head_of rest) v))) b none) a v rest
unfolding head_of
Linked-skip h a b v w [] apart out l =
    update_other (update h a (some (node_of none v))) b a none (ground arith)
    ∙ update_same h a (some (node_of none v))
Linked-skip h a b v w ((c, x) ∷ rest) apart out (l, more) =
    let g = update h a (some (node_of (some c) v)) in
    (
      update_other g b a none (ground arith) ∙ update_same h a (some (node_of (some c) v)),
      Linked-update g c x b none rest out
          (Linked-update h c x a (some (node_of (some c) v)) rest (ground arith) more),
    )

-- The last address after the second node is gone.
rear_after : ℕ → ℕ → List (ℕ × ℕ) → ℕ
rear_after a b [] = a
rear_after a b ((c, x) ∷ rest) = end_of c rest

swing_after :
    (a b : ℕ) (rest : List (ℕ × ℕ))
    → member (addresses rest) b ≡ false
    → (g : ℕ → Option Node)
    → cas_rear (store g a (end_of b rest)) (some b) a ≡ store g a (rear_after a b rest)
unfolding rear_after
swing_after a b [] out g = cas_rear-wins g a b a
swing_after a b ((c, x) ∷ rest) out g =
    cas_rear-fails g a (end_of c rest) b a (end_apart c b rest out)

rear_after-end : (a b : ℕ) (rest : List (ℕ × ℕ)) → rear_after a b rest ≡ end_of a rest
unfolding rear_after
rear_after-end a b [] = refl
rear_after-end a b ((c, x) ∷ rest) = refl

-- `QuePop` by a thread that is alone, on a queue with an element: after seven steps it is done, without
-- a fault; the result is the first element, its node is free and the queue holds the others.
pub pop-Holds :
    (s : Store) (b w : ℕ) (rest : List (ℕ × ℕ)) (fresh : ℕ)
    → Holds s ((b, w) ∷ rest)
    → (s' : Store) × (alone 7 fresh s pop_empty ≡ some (s', popped (some w)))
      × Holds s' rest
      × (s'.node b ≡ none)
unfolding rear_after
pop-Holds s b w rest fresh q =
    let h = s.node in
    let a = s.front in
    let r = end_of b rest in
    let v = q.junk in
    let p = head_of rest in
    let (apart, (out, distinct)) = q.distinct in
    let g = update (update h a (some (node_of p v))) b none in
    (
      store g a (rear_after a b rest),
      subst
          (λ t. alone 7 fresh t pop_empty ≡ some (store g a (rear_after a b rest), popped (some w)))
          (sym (by_end s a ((b, w) ∷ rest) (q.at_end)))
          (pop_run h a r (rear_after a b rest) v b w fresh p ((q.linked).0)
            (Linked-head h b w rest ((q.linked).1)) (ground arith) (end_apart b a rest apart)
            (swing_after a b rest out)),
      record {
        junk = v;
        linked = Linked-skip h a b v w rest apart out ((q.linked).1);
        distinct = (ground arith, distinct);
        at_end = rear_after-end a b rest;
      },
      update_same (update h a (some (node_of p v))) b none,
    )
