-- ===== src/Ring/Race.antt =====
-- A pop and a push of ring1.c at the same time, on a queue with one element.
use mathlib.Core.Path.{subst}
use chunxiao_code.Prelude.{
  ℕ, ◌≡◌, refl, sym, ◌∙◌, List, [], ◌∷◌, Option, none, some, Bool, true, false, ◌==◌, arith,
}
use chunxiao_code.Ring.{
  Node, Store, update, cas_rear, push_alloc, pushed, pop_empty, popped, step, alone, interleave,
}
use chunxiao_code.Ring.Chain.{Holds, update_same, update_other, Linked-fresh}
use chunxiao_code.Ring.Alone.{node_of, store, cas_next-wins, cas_rear-wins, cas_rear-fails, by_end}

-- The pop has read the link of the first element, then the push runs, then the pop goes on.
abbrev pub turns : List Bool
turns = true ∷ true ∷ true ∷ false ∷ false ∷ false ∷ false ∷ true ∷ true ∷ true ∷ true ∷ []

-- No node is linked behind the first one, and the queue is not empty for `QueEmpty`.
pub record Lost (s : Store) : Type 0 where
  pub junk : ℕ
  pub unlinked : s.node (s.front) ≡ some (node_of none junk)
  pub apart : (s.rear == s.front) ≡ false

race_run :
    (h : ℕ → Option Node) (a b junk w fresh d : ℕ)
    → h a ≡ some (node_of (some b) junk)
    → h b ≡ some (node_of none w)
    → ((b == a) ≡ false)
    → ((a == fresh) ≡ false)
    → ((b == fresh) ≡ false)
    → interleave turns fresh (store h a b) pop_empty (push_alloc d)
      ≡ some (
        store
            (update
              (update
                (update (update h fresh (some (node_of none d))) b (some (node_of (some fresh) w)))
                a
                (some (node_of none junk)))
              b
              none)
            a
            fresh,
        popped (some w),
        pushed,
      )
unfolding interleave step
race_run h a b junk w fresh d at_a at_b ne_b ne_a ne_f =
    let h₁ = update h fresh (some (node_of none d)) in
    let h₂ = update h₁ b (some (node_of (some fresh) w)) in
    let h₃ = update h₂ a (some (node_of none junk)) in
    let at_b₁ : h₁ b ≡ some (node_of none w) =
      update_other h fresh b (some (node_of none d)) ne_f ∙ at_b in
    let at_a₂ : h₂ a ≡ some (node_of (some b) junk) =
      update_other h₁ b a (some (node_of (some fresh) w)) (ground arith)
      ∙ update_other h fresh a (some (node_of none d)) ne_a
      ∙ at_a in
    let at_b₃ : h₃ b ≡ some (node_of (some fresh) w) =
      update_other h₂ a b (some (node_of none junk)) ne_b
      ∙ update_same h₁ b (some (node_of (some fresh) w)) in
    rw
      (
        ne_b,
        at_a,
        at_b,
        cas_next-wins (store h₁ a b) b w none (some fresh) at_b₁,
        cas_rear-wins h₂ a b fresh,
        cas_next-wins (store h₂ a fresh) a junk (some b) none at_a₂,
        cas_rear-fails h₃ a fresh b a (ground arith),
      )
      (rw at_b₃ (rw at_b₃ refl))

-- A queue with one element, a thread that pops and one that pushes: where the push runs between the
-- reads of the pop and its compare-and-swap, both succeed, the pop with the old element, and the
-- next pointer of the node at front is NULL then, although rear is another node.
pub race-Lost :
    (s : Store) (b w fresh d : ℕ)
    → Holds s ((b, w) ∷ [])
    → s.node fresh ≡ none
    → (s' : Store) × (interleave turns fresh s pop_empty (push_alloc d)
        ≡ some (s', popped (some w), pushed))
      × (s'.node fresh ≡ some (node_of none d))
      × Lost s'
race-Lost s b w fresh d q unused =
    let h = s.node in
    let a = s.front in
    let v = q.junk in
    let out = Linked-fresh h a v fresh ((b, w) ∷ []) unused (q.linked) in
    let (apart, _) = q.distinct in
    let h₁ = update h fresh (some (node_of none d)) in
    let h₂ = update h₁ b (some (node_of (some fresh) w)) in
    let h₃ = update h₂ a (some (node_of none v)) in
    let ne_b : (b == a) ≡ false = ground arith in
    let ne_a : (a == fresh) ≡ false = ground arith in
    let ne_f : (b == fresh) ≡ false = ground arith in
    (
      store (update h₃ b none) a fresh,
      subst
          (λ t.
            interleave turns fresh t pop_empty (push_alloc d)
            ≡ some (store (update h₃ b none) a fresh, popped (some w), pushed))
          (sym (by_end s a ((b, w) ∷ []) (q.at_end)))
          (race_run h a b v w fresh d ((q.linked).0) ((q.linked).1) ne_b ne_a ne_f),
      update_other h₃ b fresh none (ground arith)
          ∙ update_other h₂ a fresh (some (node_of none v)) (ground arith)
          ∙ update_other h₁ b fresh (some (node_of (some fresh) w)) (ground arith)
          ∙ update_same h fresh (some (node_of none d)),
      record {
        junk = v;
        unlinked =
            update_other h₃ b a none (ground arith) ∙ update_same h₂ a (some (node_of none v));
        apart = ground arith;
      },
    )

-- From then on `QuePop` by a thread that is alone gives 0 and leaves the queue like that, although
-- `QueEmpty` does not hold.
pub pop-Lost :
    (s : Store) (fresh : ℕ)
    → Lost s
    → (s' : Store) × (alone 6 fresh s pop_empty ≡ some (s', popped none)) × Lost s'
unfolding alone step cas_rear
pop-Lost s fresh q =
    let h = update (s.node) (s.front) (some (node_of none (q.junk))) in
    (
      store h (s.front) (s.rear),
      rw (q.apart, q.unlinked, cas_next-wins s (s.front) (q.junk) none none q.unlinked) refl,
      record {
        junk = q.junk;
        unlinked = update_same (s.node) (s.front) (some (node_of none (q.junk)));
        apart = q.apart;
      },
    )

-- On a queue with one element, with an unused address for the node, where a push runs between the
-- reads of a pop and its compare-and-swap: both succeed, the pop with the old element; afterwards
-- the node for the pushed element is allocated and holds it, with NULL as its next pointer, the
-- next pointer of the node at front is NULL too, and rear is another node than front; and a pop
-- by a thread that is alone after that gives 0 and leaves the queue like that, although QueEmpty
-- does not hold.
pub race-pop :
    (s : Store) (b w fresh d again : ℕ)
    → Holds s ((b, w) ∷ [])
    → s.node fresh ≡ none
    → (s' : Store) × (interleave turns fresh s pop_empty (push_alloc d)
        ≡ some (s', popped (some w), pushed))
      × (s'.node fresh ≡ some (node_of none d))
      × Lost s'
      × ((s'' : Store) × (alone 6 again s' pop_empty ≡ some (s'', popped none)) × Lost s'')
race-pop s b w fresh d again q unused =
    let (s', runs, stands, lost) = race-Lost s b w fresh d q unused in
    (s', runs, stands, lost, pop-Lost s' again lost)
