-- ===== src/Ring.antt =====
-- c-study/dllist/ring_01/ring1.c: a queue as a linked list behind a first node, for threads that
-- change it by compare-and-swap. `que.front` is written by `QueInit` only.
pub mod Chain
pub mod Alone
pub mod Race
pub mod Pushes
pub mod Together
pub mod Moves
pub mod Links
pub mod Pushed
mod Tests
use chunxiao_code.Prelude.{
  ℕ, zero, suc, ◌<◌, List, [], ◌∷◌, Option, none, some, Bool, true, false, ◌==◌, if◌then◌else◌,
}
use chunxiao_code.Prelude.Fault.{◌>>=◌}

-- `node`; `none` is NULL.
pub record Node : Type 0 where
  pub next : Option ℕ
  pub item : ℕ

-- The allocated nodes by address, with `que`.
pub record Store : Type 0 where
  pub node : ℕ → Option Node
  pub front : ℕ
  pub rear : ℕ

abbrev pub update : (ℕ → Option Node) → ℕ → Option Node → ℕ → Option Node
update h a c b = if b == a then c else h b

-- `QueInit` with the address that `malloc` gives; `temp->data` is whatever stands there.
unfoldable pub que_init : ℕ → ℕ → Store
que_init temp junk = record {
  node = update (λ _. none) temp (some (record { next = none; item = junk }));
  front = temp;
  rear = temp;
}

-- Are two pointers the same?
abbrev pub same : Option ℕ → Option ℕ → Bool
same none none = true
same (some a) (some b) = a == b
same none (some b) = false
same (some a) none = false

-- `__sync_bool_compare_and_swap(&(p->next), old, new)`; a node that is not there is a fault.
unfoldable pub cas_next : Store → ℕ → Option ℕ → Option ℕ → Option (Store × Bool)
cas_next s p old new = do
  n ← s.node p
  some (
      if same (n.next) old
      then (record s { node = update (s.node) p (some (record n { next = new })) }, true)
      else (s, false))

-- `__sync_bool_compare_and_swap(&(que.rear), old, new)`
unfoldable pub cas_rear : Store → Option ℕ → ℕ → Store
cas_rear s old new = if same (some (s.rear)) old then record s { rear = new } else s

-- Where a thread stands, with the locals that are live there.
pub data Pc : Type 0 where
  push_alloc : (d : ℕ) → Pc  -- the start of `QuePush`
  push_rear : (temp : ℕ) → Pc  -- `p = que.rear`
  push_link : (temp p : ℕ) → Pc  -- the compare-and-swap of `p->next`
  push_swing : (temp p : ℕ) → Pc  -- the compare-and-swap of `que.rear`
  pushed : Pc
  pop_empty : Pc  -- the head of the loop of `QuePop`
  pop_first : Pc  -- `temp = que.front->next`
  pop_second : (temp : Option ℕ) → Pc  -- `p = temp->next`
  pop_unlink : (temp p : Option ℕ) → Pc  -- the compare-and-swap of `que.front->next`
  pop_swing : (temp : Option ℕ) → Pc  -- the compare-and-swap of `que.rear`
  pop_data : (temp : Option ℕ) → Pc  -- `*d = temp->data`
  pop_free : (temp d : ℕ) → Pc  -- `free(temp)`
  popped : Option ℕ → Pc  -- the result with `*d`, or 0

-- One step of a thread: one access to the shared memory. The first argument is the address that
-- `malloc` gives, if it is called. `none` is a fault.
unfoldable pub step : ℕ → Store → Pc → Option (Store × Pc)
unfolding cas_next cas_rear
step fresh s (push_alloc d) = some (
  record s { node = update (s.node) fresh (some (record { next = none; item = d })) },
  push_rear fresh,
)
step fresh s (push_rear temp) = some (s, push_link temp (s.rear))
step fresh s (push_link temp p) = do
  (s', done) ← cas_next s p none (some temp)
  some (s', if done then push_swing temp p else push_rear temp)
step fresh s (push_swing temp p) = some (cas_rear s (some p) temp, pushed)
step fresh s pushed = some (s, pushed)
step fresh s pop_empty = some (s, if s.rear == s.front then popped none else pop_first)
step fresh s pop_first = do n ← s.node (s.front); some (s, pop_second (n.next))
step fresh s (pop_second none) = some (s, pop_unlink none none)
step fresh s (pop_second (some temp)) = do
  n ← s.node temp
  some (s, pop_unlink (some temp) (n.next))
step fresh s (pop_unlink temp p) = do
  (s', done) ← cas_next s (s.front) temp p
  some (s', if done then pop_swing temp else pop_empty)
step fresh s (pop_swing temp) = some (cas_rear s temp (s.front), pop_data temp)
step fresh s (pop_data none) = some (s, popped none)
step fresh s (pop_data (some temp)) = do n ← s.node temp; some (s, pop_free temp (n.item))
step fresh s (pop_free temp d) = do
  n ← s.node temp
  some (record s { node = update (s.node) temp none }, popped (some d))
step fresh s (popped r) = some (s, popped r)

-- The steps of one thread, with nothing in between.
unfoldable pub alone : ℕ → ℕ → Store → Pc → Option (Store × Pc)
unfolding step
alone zero fresh s pc = some (s, pc)
alone (suc n) fresh s pc = step fresh s pc >>= λ (s', pc'). alone n fresh s' pc'

-- Two threads by turns: `true` is a step of the first.
unfoldable pub interleave : List Bool → ℕ → Store → Pc → Pc → Option (Store × Pc × Pc)
unfolding step
interleave [] fresh s a b = some (s, a, b)
interleave (true ∷ turns) fresh s a b =
    step fresh s a >>= λ (s', a'). interleave turns fresh s' a' b
interleave (false ∷ turns) fresh s a b =
    step fresh s b >>= λ (s', b'). interleave turns fresh s' a b'
