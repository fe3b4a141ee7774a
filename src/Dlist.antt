-- ===== src/Dlist.antt =====
-- c-study/dllist/chunxiao_list/dlist.c: a list of nodes linked in both directions, in a ring with the head
-- in `list_t`. An address is a number, NULL is 0; an access to memory that is not allocated is a fault,
-- `none`. What `malloc` gives is a parameter.
pub mod Chain
pub mod Linking
pub mod Adding
pub mod Walking
pub mod Destroying
mod Tests
use chunxiao_code.Prelude.{
  ℕ, zero, suc, ◌+◌, List, [], ◌∷◌, ◌++◌, Option, none, some, Bool, true, false, ◌==◌,
  if◌then◌else◌,
}
use chunxiao_code.Prelude.Fault.{◌>>=◌}
use chunxiao_code.Locker.{CommValue, ret_ok, ret_invalid_params}

-- `list_node_t`, a function for each field; what stands in a field that was never written is arbitrary.
pub record Heap : Type 0 where
  pub live : ℕ → Bool
  pub next : ℕ → ℕ
  pub prev : ℕ → ℕ
  pub item : ℕ → ℕ

-- The calls of functions that the list was given, those of lock and unlock with the memory that is seen
-- then.
pub data Event : Type 0 where
  lock : Heap → Event
  unlock : Heap → Event
  data_destroy : (item : ℕ) → Event
  locker_destroy : Event

-- The memory with the other fields of a `list_t`: is there a locker, and a `data_destroy`?
pub record State : Type 0 where
  pub heap : Heap
  pub locker : Bool
  pub destroys : Bool
  pub events : List Event

abbrev pub update {ℓ} : {A : Type ℓ} → (ℕ → A) → ℕ → A → ℕ → A
update f a v b = if b == a then v else f b

abbrev pub load : Heap → (ℕ → ℕ) → ℕ → Option ℕ
load h field a = if h.live a then some (field a) else none

abbrev pub set_next : ℕ → ℕ → Heap → Option Heap
set_next a v h = if h.live a then some (record h { next = update (h.next) a v }) else none

abbrev pub set_prev : ℕ → ℕ → Heap → Option Heap
set_prev a v h = if h.live a then some (record h { prev = update (h.prev) a v }) else none

-- `node_create`: the item is written without a test of what malloc gave.
abbrev pub node_create : ℕ → ℕ → Heap → Option Heap
node_create node item h =
    if node == 0
    then none
    else some (record h { live = update (h.live) node true; item = update (h.item) node item })

-- `__list_add`
unfoldable pub list_add_between : ℕ → ℕ → ℕ → Heap → Option Heap
list_add_between new prv nxt h = do
  h₁ ← set_prev nxt new h
  h₂ ← set_next new nxt h₁
  h₃ ← set_prev new prv h₂
  set_next prv new h₃

abbrev pub emit : Event → State → State
emit e s = record s { events = s.events ++ (e ∷ []) }

abbrev pub dlist_lock : State → State
dlist_lock s = if s.locker then emit (lock (s.heap)) s else s

abbrev pub dlist_unlock : State → State
dlist_unlock s = if s.locker then emit (unlock (s.heap)) s else s

-- `list_create` at the address that malloc gives; the result is NULL, `none`, if it fails.
unfoldable pub list_create : ℕ → Bool → Bool → Heap → Option (ℕ × State)
list_create new_list destroys locker h =
    if new_list == 0
    then none
    else some (
      new_list,
      record {
        heap = record h {
          live = update (h.live) new_list true;
          next = update (h.next) new_list new_list;
          prev = update (h.prev) new_list new_list;
        };
        locker = locker;
        destroys = destroys;
        events = [];
      },
    )

-- `list_add`, where malloc gives `node`.
unfoldable pub list_add : ℕ → ℕ → ℕ → State → Option (CommValue × State)
list_add node list item s = if list == 0 then some (ret_invalid_params, s) else (do
  h ← node_create node item (s.heap)
  let s₁ = dlist_lock (record s { heap = h })
  nxt ← load (s₁.heap) (s₁.heap.next) list
  h' ← list_add_between node list nxt (s₁.heap)
  some (ret_ok, dlist_unlock (record s₁ { heap = h' })))

unfoldable pub list_add_tail : ℕ → ℕ → ℕ → State → Option (CommValue × State)
list_add_tail node list item s = if list == 0 then some (ret_invalid_params, s) else (do
  h ← node_create node item (s.heap)
  let s₁ = dlist_lock (record s { heap = h })
  prv ← load (s₁.heap) (s₁.heap.prev) list
  h' ← list_add_between node prv list (s₁.heap)
  some (ret_ok, dlist_unlock (record s₁ { heap = h' })))

-- The loop of `list_length` on fuel.
unfoldable pub length_from : ℕ → Heap → ℕ → ℕ → ℕ → Option ℕ
length_from zero h list iter length = none
length_from (suc f) h list iter length = do
  nxt ← load h (h.next) iter
  elim (nxt == list) [ true ↦ some length | false ↦ length_from f h list nxt (length + 1) ]

unfoldable pub list_length : ℕ → ℕ → State → Option (ℕ × State)
list_length fuel list s = if list == 0 then some (0, s) else (do
  let s₁ = dlist_lock s
  n ← length_from fuel (s₁.heap) list list 0
  some (n, dlist_unlock s₁))

abbrev pub free : ℕ → Heap → Heap
free a h = record h { live = update (h.live) a false }

abbrev pub list_destroy_data : ℕ → State → State
list_destroy_data item s = if s.destroys then emit (data_destroy item) s else s

-- `list_destroy_node`
unfoldable pub list_destroy_node : ℕ → State → Option State
list_destroy_node node s = if node == 0 then some s else (do
  h₁ ← set_next node 0 (s.heap)
  h₂ ← set_prev node 0 h₁
  item ← load h₂ (h₂.item) node
  let s₁ = list_destroy_data item (record s { heap = h₂ })
  some (record s₁ { heap = free node (s₁.heap) }))

-- The loop of `list_destroy` on fuel.
unfoldable pub destroy_from : ℕ → ℕ → ℕ → State → Option State
destroy_from zero list iter s = none
destroy_from (suc f) list iter s = elim (iter == list) [
  | true ↦ some s
  | false ↦ do
    nxt ← load (s.heap) (s.heap.next) iter
    s₁ ← list_destroy_node iter s
    destroy_from f list nxt s₁
]

abbrev pub dlist_destroy_locker : State → State
dlist_destroy_locker s =
    if s.locker
    then record (emit locker_destroy (emit (unlock (s.heap)) s)) { locker = false }
    else s

-- `list_destroy` behind the call of `dlist_lock`.
unfoldable pub destroy_locked : ℕ → ℕ → State → Option State
destroy_locked fuel list s = do
  iter ← load (s.heap) (s.heap.next) list
  s₁ ← destroy_from fuel list iter s
  h₁ ← set_next list list (s₁.heap)
  h₂ ← set_prev list list h₁
  let s₂ = dlist_destroy_locker (record s₁ { heap = h₂ })
  some (record s₂ { heap = free list (s₂.heap) })

unfoldable pub list_destroy : ℕ → ℕ → State → Option State
unfolding destroy_locked
list_destroy fuel list s = if list == 0 then some s else destroy_locked fuel list (dlist_lock s)
