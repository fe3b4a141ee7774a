-- ===== src/Ring/Pushes.antt =====
-- Calls of `QuePush` in ring1.c by any number of threads, in any order of their steps.
use chunxiao_code.Prelude.{
  ℕ, ◌≡◌, List, [], ◌∷◌, ◌++◌, Bool, true, false, none, some, ◌==◌, if◌then◌else◌,
}
use chunxiao_code.Ring.{Store, Pc, push_alloc, push_rear, push_link, push_swing, pushed, step}

-- The queue, and where each call stands.
pub record Calls : Type 0 where
  pub store : Store
  pub pc : ℕ → Pc

abbrev pub put : (ℕ → Pc) → ℕ → Pc → ℕ → Pc
put pc t p u = if u == t then p else pc u

-- What the calls reach from a store; call t pushes `item t`. `malloc` gives an address that is not
-- allocated. The calls of one thread, which follow on each other, are among these orders.
pub data Reach (s : Store) (item : ℕ → ℕ) : Calls → Type 0 where
  begin : Reach s item (record { store = s; pc = λ t. push_alloc (item t) })
  later :
      {w : Calls} (t fresh : ℕ) (s' : Store) (p : Pc)
      → Reach s item w
      → w.store.node fresh ≡ none
      → step fresh (w.store) (w.pc t) ≡ some (s', p)
      → Reach s item (record { store = s'; pc = put (w.pc) t p })

-- A place of `QuePush`, as far as the queue is concerned.
pub data View : Type 0 where
  starting : (d : ℕ) → View  -- there is no node yet
  holding : (temp : ℕ) → View  -- the node is not linked
  trying : (temp p : ℕ) → View  -- the same, and the node p is to be linked to it
  joined : View  -- the node is linked
  outside : View  -- no place of `QuePush`

abbrev pub view : Pc → View
view (push_alloc d) = starting d
view (push_rear temp) = holding temp
view (push_link temp p) = trying temp p
view (push_swing temp p) = joined
view pushed = joined
view p = outside

-- Is the call behind its first compare-and-swap?
abbrev pub is_joined : View → Bool
is_joined joined = true
is_joined p = false

abbrev pub has_linked : Pc → Bool
has_linked p = is_joined (view p)

-- The calls that have linked a node, when call t goes from p to p'.
abbrev pub logged : List ℕ → ℕ → Pc → Pc → List ℕ
logged log t p p' = if has_linked p then log else (if has_linked p' then log ++ (t ∷ []) else log)

-- The calls in the order of their links.
abbrev pub order : {s : Store} {item : ℕ → ℕ} {w : Calls} → Reach s item w → List ℕ
order begin = []
order (later {w} t fresh s' p way unused e) = logged (order way) t (w.pc t) p
