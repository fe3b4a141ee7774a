-- ===== src/Dlist/Adding.antt =====
-- `list_add` and `list_add_tail` of dlist.c.
use mathlib.Core.Path.{subst}
use mathlib.Core.List.{append-nil}
use chunxiao_code.Prelude.{
  ℕ, ◌≡◌, refl, sym, List, [], ◌∷◌, ◌++◌, Option, some, Bool-cases, inl, inr, true, false, ◌==◌,
  arith, if◌then◌else◌,
}
use chunxiao_code.Prelude.Members.{member}
use chunxiao_code.Dlist.{Heap, State, lock, unlock, update, list_add, list_add_tail}
use chunxiao_code.Locker.{CommValue, ret_ok}
use chunxiao_code.Dlist.Chain.{addresses, first_of, end_of, Holds, Chain-first, Chain-last}
use chunxiao_code.Dlist.Linking.{
  linked, end_of-within, first_of-within, out_split, apart, created, between-linked, live_apart,
  live_within, ends-live, linked-Holds,
}

-- The state with the memory `h`, and with a call of lock at the memory `before` and then one of unlock at
-- `h` if there is a locker.
abbrev pub bracketed : State → Heap → Heap → State
bracketed s before h = record s {
  heap = h;
  events = if s.locker then (s.events ++ (lock before ∷ [])) ++ (unlock h ∷ []) else s.events;
}

module _ (s : State) (list node item : ℕ) (cells : List (ℕ × ℕ))
    (held : Holds (s.heap) list cells) where
  list_there : (list == 0) ≡ false
  list_there = live_apart (s.heap) list 0 (held.head_live) (held.null_free)

  created_live : (a : ℕ) → s.heap.live a ≡ true → (created node item (s.heap)).live a ≡ true
  created_live a at = ground arith

  list_add-first :
      (node == 0) ≡ false
      → list_add node list item s
        ≡ some (
          ret_ok,
          bracketed s
              (created node item (s.heap))
              (linked (s.heap) node item list (first_of cells list)),
        )
  unfolding list_add
  list_add-first not_null =
      let first : s.heap.next list ≡ first_of cells list =
        Chain-first (s.heap) list list cells (held.ring) in
      let at : update (s.heap.live) node true list ≡ true = created_live list (held.head_live) in
      let (at_end, at_first) = ends-live (s.heap) list [] cells held in
      let join = between-linked (s.heap) node item list (first_of cells list) at_end at_first in
      elim (Bool-cases (s.locker)) [
        | inl e ↦ rw (list_there, not_null, e, at, first, join) refl
        | inr e ↦ rw (list_there, not_null, e, at, first, join) refl
      ]

  list_add_tail-last :
      (node == 0) ≡ false
      → list_add_tail node list item s
        ≡ some (
          ret_ok,
          bracketed s
              (created node item (s.heap))
              (linked (s.heap) node item (end_of list cells) list),
        )
  unfolding list_add_tail
  list_add_tail-last not_null =
      let last : s.heap.prev list ≡ end_of list cells =
        Chain-last (s.heap) list list cells (held.ring) in
      let at : update (s.heap.live) node true list ≡ true = created_live list (held.head_live) in
      let at_end : s.heap.live (end_of list cells) ≡ true =
        live_within (s.heap) list (end_of list cells) cells held (end_of-within list cells) in
      let join =
        between-linked (s.heap) node item (end_of list cells) list at_end (held.head_live) in
      elim (Bool-cases (s.locker)) [
        | inl e ↦ rw (list_there, not_null, e, at, last, join) refl
        | inr e ↦ rw (list_there, not_null, e, at, last, join) refl
      ]

-- Nothing else in the memory changes.
abbrev pub Elsewhere : Heap → Heap → List ℕ → Type 0
Elsewhere h h' written =
    (a : ℕ)
    → member written a ≡ false
    → (h'.live a ≡ h.live a)
      × (h'.next a ≡ h.next a)
      × (h'.prev a ≡ h.prev a)
      × (h'.item a ≡ h.item a)

linked-Elsewhere :
    (h : Heap) (node item list prv nxt : ℕ) (cells : List (ℕ × ℕ))
    → member (list ∷ addresses cells) prv ≡ true
    → member (list ∷ addresses cells) nxt ≡ true
    → (a : ℕ) → (node == a) ≡ false
    → member (list ∷ addresses cells) a ≡ false
    → ((linked h node item prv nxt).live a ≡ h.live a)
      × ((linked h node item prv nxt).next a ≡ h.next a)
      × ((linked h node item prv nxt).prev a ≡ h.prev a)
      × ((linked h node item prv nxt).item a ≡ h.item a)
linked-Elsewhere h node item list prv nxt cells at at' a ne out =
    let x : (a == prv) ≡ false = ground (arith, apart prv a (list ∷ addresses cells) at) in
    let y : (a == nxt) ≡ false = ground (arith, apart nxt a (list ∷ addresses cells) at') in
    (ground arith, ground arith, ground arith, ground arith)

-- What it means that an item was added in a new node, so that the list has these cells: lock is called
-- when only the node with its item is new, and unlock at the end.
abbrev pub Adds : Option (CommValue × State) → State → ℕ → ℕ → ℕ → List (ℕ × ℕ) → Type 0
Adds result s list node item cells =
    (h : Heap) × (result ≡ some (ret_ok, bracketed s (created node item (s.heap)) h))
    × Holds h list cells
    × Elsewhere (s.heap) h (list ∷ addresses cells)

pub list_add-Adds :
    (s : State) (list node item : ℕ) (cells : List (ℕ × ℕ))
    → Holds (s.heap) list cells
    → (node == 0) ≡ false
    → s.heap.live node ≡ false
    → Adds (list_add node list item s) s list node item ((node, item) ∷ cells)
list_add-Adds s list node item cells held not_null dead = (
  linked (s.heap) node item list (first_of cells list),
  list_add-first s list node item cells held not_null,
  linked-Holds (s.heap) node item list [] cells held not_null dead,
  λ a out.
      linked-Elsewhere (s.heap) node item list list (first_of cells list) cells (ground arith)
        (first_of-within list cells) a (ground arith) (ground arith),
)

pub list_add_tail-Adds :
    (s : State) (list node item : ℕ) (cells : List (ℕ × ℕ))
    → Holds (s.heap) list cells
    → (node == 0) ≡ false
    → s.heap.live node ≡ false
    → Adds (list_add_tail node list item s) s list node item (cells ++ ((node, item) ∷ []))
list_add_tail-Adds s list node item cells held not_null dead = (
  linked (s.heap) node item (end_of list cells) list,
  list_add_tail-last s list node item cells held not_null,
  linked-Holds (s.heap) node item list cells []
      (subst (Holds (s.heap) list) (sym (append-nil cells)) held) not_null dead,
  λ a out.
      linked-Elsewhere (s.heap) node item list (end_of list cells) list cells
        (end_of-within list cells) (ground arith) a (ground (arith, out_split a node item cells))
        (ground (arith, out_split a node item cells)),
)

-- On a memory that holds a list as a ring, with an address for the node that is not NULL and not
-- allocated: list_add puts the item in front of the others and list_add_tail behind them; both
-- return RET_OK and change no node outside the list. If there is a locker they call lock once,
-- when only the new node with its item has been made, and then unlock once, when all is linked.
pub ends-Adds :
    (s : State) (list node item : ℕ) (cells : List (ℕ × ℕ))
    → Holds (s.heap) list cells
    → (node == 0) ≡ false
    → s.heap.live node ≡ false
    → Adds (list_add node list item s) s list node item ((node, item) ∷ cells)
      × Adds (list_add_tail node list item s) s list node item (cells ++ ((node, item) ∷ []))
ends-Adds s list node item cells held not_null dead = (
  list_add-Adds s list node item cells held not_null dead,
  list_add_tail-Adds s list node item cells held not_null dead,
)
