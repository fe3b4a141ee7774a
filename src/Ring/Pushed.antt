-- ===== src/Ring/Pushed.antt =====
-- Calls of `QuePush` in ring1.c that run by turns: the queue has what they pushed.
use mathlib.Core.Path.{subst}
use mathlib.Core.List.{append-nil}
use chunxiao_code.Prelude.{
  ℕ, ◌≡◌, ◌≢◌, refl, ap, sym, ◌∙◌, List, [], ◌++◌, map, none, some, Bool, true, false, arith,
}
use chunxiao_code.Prelude.Members.{member, Distinct}
use chunxiao_code.Prelude.Fault.{some-cancel}
use chunxiao_code.Ring.{
  Store, cas_rear, Pc, push_alloc, push_rear, push_link, push_swing, pushed, pop_empty, pop_first,
  pop_second, pop_unlink, pop_swing, pop_data, pop_free, popped, step,
}
use chunxiao_code.Ring.Chain.{Linked, items, end_of, Holds, end_of-append}
use chunxiao_code.Ring.Pushes.{
  View, starting, holding, trying, joined, outside, view, Calls, put, Reach, begin, later,
  has_linked, is_joined, logged, order,
}
use chunxiao_code.Ring.Together.{put-all, Says, Rear, settled, behind, Together}
use chunxiao_code.Ring.Moves.{stays, put-own, Moves, push_alloc-Moves, push_rear-Moves}
use chunxiao_code.Ring.Links.{push_link-Moves}

never : ¬ (◌≡◌ {A = Bool} true false)
never e = cc

step-swing :
    (s : Store) (fresh temp p : ℕ)
    → s.rear ≡ p
    → step fresh s (push_swing temp p) ≡ some (record s { rear = temp }, pushed)
unfolding step cas_rear
step-swing s fresh temp p e = ground arith

Says-rear :
    (s : Store) (cells : List (ℕ × ℕ)) (log : List ℕ) (r d u : ℕ) (p : View)
    → r ≡ end_of (s.front) cells
    → Says s cells log d u p
    → Says (record s { rear = r }) cells log d u p
Says-rear s cells log r d u (starting d') e h = h
Says-rear s cells log r d u (holding temp) e (m, n) =
    (record { stands = m.stands; outside = m.outside }, n)
Says-rear s cells log r d u (trying temp p) e (m, v, n) = (
  record { stands = m.stands; outside = m.outside },
  record { inside = v.inside; current = λ e'. e ∙ sym e' },
  n,
)
Says-rear s cells log r d u joined e h = h
Says-rear s cells log r d u outside e h = h

module _ (old : List (ℕ × ℕ)) (item : ℕ → ℕ) (w : Calls) (t fresh : ℕ)
    (v : Together old item w) where
  swing_done :
      (temp p : ℕ)
      → w.pc t ≡ push_swing temp p
      → Rear (w.store.rear) (w.store.front) (v.cells) (w.pc)
      → Moves old item w v t fresh (push_swing temp p)
  swing_done temp p e (settled e' none_swings) = absurd (none_swings t temp p e)
  swing_done temp p e (behind t' temp' d start e' split at only) =
      let mine : t ≡ t' = only t temp p e in
      let both : push_swing temp p ≡ push_swing temp' (w.store.rear) =
        sym e ∙ ap (w.pc) mine ∙ e' in
      let last : temp ≡ end_of (w.store.front) (v.cells) =
        cc (both, end_of-append (w.store.front) start temp' d, ap (end_of (w.store.front)) split) in
      (
        record (w.store) { rear = temp },
        pushed,
        step-swing (w.store) fresh temp p cc,
        record {
          junk = v.junk;
          cells = v.cells;
          log = v.log;
          linked = v.linked;
          distinct = v.distinct;
          items_are = v.items_are;
          once = v.once;
          rear = settled last (
              put-all (λ u q. (temp'' at' : ℕ) → q ≢ push_swing temp'' at') (w.pc) t pushed
                (λ temp'' at' e''. absurd cc)
                (λ u ne temp'' at' e''. absurd (ground (arith, only u temp'' at' e'', mine))));
          says =
              put-all
                (λ u q.
                  Says (record (w.store) { rear = temp }) (v.cells) (v.log) (item u) u (view q))
                (w.pc) t pushed
                (subst (λ q. Says (w.store) (v.cells) (v.log) (item t) t (view q)) e (v.says t))
                (λ u ne.
                  Says-rear (w.store) (v.cells) (v.log) temp (item u) u (view (w.pc u)) last
                    (v.says u));
          own = put-own (w.pc) t pushed (v.own) (λ u a ne e'' h. absurd cc);
        },
        refl,
      )

  pushed-Moves : w.pc t ≡ pushed → Moves old item w v t fresh pushed
  unfolding step
  pushed-Moves e =
      let (next, same) =
        stays old item w t fresh v pushed (λ temp at e'. absurd cc) (λ temp at e'. absurd cc)
          (subst (λ q. Says (w.store) (v.cells) (v.log) (item t) t (view q)) e (v.says t))
          (λ a e'. absurd cc) in
      (_, _, refl, next, same)

  no_pop :
      (p : Pc)
      → Says (w.store) (v.cells) (v.log) (item t) t (view (w.pc t))
      → w.pc t ≡ p
      → Says (w.store) (v.cells) (v.log) (item t) t (view p)
  no_pop p h e = subst (λ q. Says (w.store) (v.cells) (v.log) (item t) t (view q)) e h

  step-Moves : w.store.node fresh ≡ none → (p : Pc) → w.pc t ≡ p → Moves old item w v t fresh p
  step-Moves unused (push_alloc d) e = push_alloc-Moves old item w t fresh v d unused e
  step-Moves unused (push_rear temp) e = push_rear-Moves old item w t fresh v temp e
  step-Moves unused (push_link temp p) e = push_link-Moves old item w t fresh v temp p e
  step-Moves unused (push_swing temp p) e = swing_done temp p e (v.rear)
  step-Moves unused pushed e = pushed-Moves e
  step-Moves unused pop_empty e = absurd (never (no_pop pop_empty (v.says t) e))
  step-Moves unused pop_first e = absurd (never (no_pop pop_first (v.says t) e))
  step-Moves unused (pop_second temp) e = absurd (never (no_pop (pop_second temp) (v.says t) e))
  step-Moves unused (pop_unlink temp p) e = absurd (never (no_pop (pop_unlink temp p) (v.says t) e))
  step-Moves unused (pop_swing temp) e = absurd (never (no_pop (pop_swing temp) (v.says t) e))
  step-Moves unused (pop_data temp) e = absurd (never (no_pop (pop_data temp) (v.says t) e))
  step-Moves unused (pop_free temp d) e = absurd (never (no_pop (pop_free temp d) (v.says t) e))
  step-Moves unused (popped r) e = absurd (never (no_pop (popped r) (v.says t) e))

-- What the calls have made of the queue: its items are the old ones and behind them those of the calls
-- in the log, which are those that have linked their node, each once; while no call is between its two compare-and-swaps the
-- store holds this queue; and no step of a call is a fault.
pub record Pushes (old : List (ℕ × ℕ)) (item : ℕ → ℕ) (w : Calls) (log : List ℕ) : Type 0 where
  pub junk : ℕ
  pub cells : List (ℕ × ℕ)
  pub linked : Linked (w.store.node) (w.store.front) junk cells
  pub items_are : items cells ≡ items old ++ map item log
  pub once : Distinct log
  pub who : (t : ℕ) → member log t ≡ has_linked (w.pc t)
  pub holds : ((t temp p : ℕ) → w.pc t ≢ push_swing temp p) → Holds (w.store) cells
  pub moves :
      (t fresh : ℕ)
      → w.store.node fresh ≡ none
      → (s' : Store) × (p : Pc) × (step fresh (w.store) (w.pc t) ≡ some (s', p))

Says-linked :
    (s : Store) (cells : List (ℕ × ℕ)) (log : List ℕ) (d u : ℕ) (p : View)
    → Says s cells log d u p
    → member log u ≡ is_joined p
Says-linked s cells log d u (starting d') (e, h) = h
Says-linked s cells log d u (holding temp) (m, h) = h
Says-linked s cells log d u (trying temp p) (m, v, h) = h
Says-linked s cells log d u joined h = h
Says-linked s cells log d u outside h = absurd (never h)

settled_end :
    (rear front : ℕ) (cells : List (ℕ × ℕ)) (pc : ℕ → Pc)
    → ((t temp p : ℕ) → pc t ≢ push_swing temp p)
    → Rear rear front cells pc
    → rear ≡ end_of front cells
settled_end rear front cells pc none_swings (settled e h) = e
settled_end rear front cells pc none_swings (behind t temp d start e split at only) =
    absurd (none_swings t temp rear e)

module _ (s : Store) (old : List (ℕ × ℕ)) (item : ℕ → ℕ) (holds : Holds s old) where
  reach-Together :
      {w : Calls} (way : Reach s item w) → (v : Together old item w) × (v.log ≡ order way)
  reach-Together begin = (
    record {
      junk = holds.junk;
      cells = old;
      log = [];
      linked = holds.linked;
      distinct = holds.distinct;
      items_are = sym (append-nil (items old));
      once = tt;
      rear = settled (holds.at_end) (λ t temp p e. absurd cc);
      says = λ u. (refl, refl);
      own = λ u v a e e'. absurd cc;
    },
    refl,
  )
  reach-Together (later {w} t fresh s' p way unused e) =
      let (v, known) = reach-Together way in
      let (s'', p', e', next, more) = step-Moves old item w t fresh v unused (w.pc t) refl in
      let same : (s'', p') ≡ (s', p) = some-cancel _ _ (sym e' ∙ e) in
      subst
        (λ r.
          (n : Together old item (record { store = r.0; pc = put (w.pc) t (r.1) })) × (n.log
            ≡ logged (order way) t (w.pc t) (r.1)))
        same (next, more ∙ ap (λ log. logged log t (w.pc t) p') known)

  -- Any number of calls of QuePush on a queue, in any order of their steps: at each moment the items of the
  -- queue are those it had and behind them those of the calls that have linked their node, each once and
  -- in the order of the links; while no call is between its two compare-and-swaps the store holds this
  -- queue; no step faults.
  pub follow-Pushes : {w : Calls} (way : Reach s item w) → Pushes old item w (order way)
  follow-Pushes {w} way =
      let (v, known) = reach-Together way in
      subst (Pushes old item w) known (record {
        junk = v.junk;
        cells = v.cells;
        linked = v.linked;
        items_are = v.items_are;
        once = v.once;
        who = λ t. Says-linked (w.store) (v.cells) (v.log) (item t) t (view (w.pc t)) (v.says t);
        holds = λ none_swings. record {
          junk = v.junk;
          linked = v.linked;
          distinct = v.distinct;
          at_end = settled_end _ _ (v.cells) (w.pc) none_swings (v.rear);
        };
        moves = λ t fresh unused.
            (let (s', p, e, next, more) = step-Moves old item w t fresh v unused (w.pc t) refl in
              (s', p, e));
      })
