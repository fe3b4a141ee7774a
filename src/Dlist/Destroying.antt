-- ===== src/Dlist/Destroying.antt =====
-- `list_destroy` of dlist.c.
use mathlib.Core.Path.{subst}
use mathlib.Core.List.{append-nil, append_assoc}
use chunxiao_code.Prelude.{
  ℕ, suc, ◌+◌, ◌≡◌, refl, ap, sym, ◌∙◌, List, [], ◌∷◌, ◌++◌, ◌⊎◌, some, Bool, Bool-cases, inl, inr,
  true, false, ◌==◌, arith, length, if◌then◌else◌,
}
use chunxiao_code.Prelude.Members.{member, Distinct}
use chunxiao_code.Dlist.{
  Heap, State, Event, lock, unlock, data_destroy, locker_destroy, update, free, list_length,
  list_destroy_node, destroy_from, list_destroy, destroy_locked, dlist_lock, dlist_destroy_locker,
}
use chunxiao_code.Dlist.Chain.{addresses, items, Chain, first_of, Holds, Chain-first, Chain-fresh}
use chunxiao_code.Dlist.Walking.{list_length-length}
use chunxiao_code.Dlist.Adding.{bracketed, Elsewhere}
use chunxiao_code.Dlist.Linking.{live_apart}

-- A node after it was destroyed.
abbrev pub wipe : ℕ → Heap → Heap
wipe a h = record h {
  live = update (h.live) a false;
  next = update (h.next) a 0;
  prev = update (h.prev) a 0;
}

abbrev pub wipe_all : List ℕ → Heap → Heap
wipe_all [] h = h
wipe_all (a ∷ as_) h = wipe_all as_ (wipe a h)

-- The calls of `data_destroy`.
abbrev pub destructions : List ℕ → List Event
destructions [] = []
destructions (v ∷ vs) = data_destroy v ∷ destructions vs

abbrev pub destroyed : List (ℕ × ℕ) → State → State
destroyed cells s = record s {
  heap = wipe_all (addresses cells) (s.heap);
  events = if s.destroys then s.events ++ destructions (items cells) else s.events;
}

-- What the loop of `list_destroy` reads of a chain.
abbrev Walk : Heap → List (ℕ × ℕ) → ℕ → Type 0
Walk h [] e = Unit
Walk h ((b, v) ∷ cells) e =
    (h.live b ≡ true) × (h.next b ≡ first_of cells e) × (h.item b ≡ v) × Walk h cells e

Chain-Walk : (h : Heap) (p e : ℕ) (cells : List (ℕ × ℕ)) → Chain h p cells e → Walk h cells e
Chain-Walk h p e [] c = tt
Chain-Walk h p e ((b, v) ∷ cells) (n, q, i, l, c) =
    (l, Chain-first h b e cells c, i, Chain-Walk h b e cells c)

Walk-wipe :
    (h : Heap) (a e : ℕ) (cells : List (ℕ × ℕ))
    → member (addresses cells) a ≡ false
    → Walk h cells e
    → Walk (wipe a h) cells e
Walk-wipe h a e [] out w = tt
Walk-wipe h a e ((b, v) ∷ cells) out (l, n, i, w) =
    (ground arith, ground arith, i, Walk-wipe h a e cells (ground arith) w)

list_destroy_node-wipe :
    (s : State) (b v : ℕ)
    → (b == 0) ≡ false
    → s.heap.live b ≡ true
    → s.heap.item b ≡ v
    → list_destroy_node b s ≡ some (destroyed ((b, v) ∷ []) s)
unfolding list_destroy_node
list_destroy_node-wipe s b v not_null l i = ground arith

-- One round of the loop.
destroy_from-next :
    (f list b v nxt : ℕ) (s : State)
    → (b == list) ≡ false
    → (b == 0) ≡ false
    → s.heap.live b ≡ true
    → s.heap.next b ≡ nxt
    → s.heap.item b ≡ v
    → destroy_from (suc f) list b s ≡ destroy_from f list nxt (destroyed ((b, v) ∷ []) s)
unfolding destroy_from
destroy_from-next f list b v nxt s other not_null l n i =
    let node = list_destroy_node-wipe s b v not_null l i in ground (arith, node)

destroy_from-stop : (f list : ℕ) (s : State) → destroy_from (suc f) list list s ≡ some s
unfolding destroy_from
destroy_from-stop f list s = ground arith

events-nil :
    (destroys : Bool) (events : List Event)
    → events ≡ (if destroys then events ++ destructions [] else events)
events-nil true events = sym (append-nil events)
events-nil false events = refl

events-cons :
    (destroys : Bool) (events : List Event) (v : ℕ) (vs : List ℕ)
    → (if destroys
        then (if destroys then events ++ (data_destroy v ∷ []) else events) ++ destructions vs
        else (if destroys then events ++ (data_destroy v ∷ []) else events))
      ≡ (if destroys then events ++ destructions (v ∷ vs) else events)
events-cons true events v vs = append_assoc events (data_destroy v ∷ []) (destructions vs)
events-cons false events v vs = refl

destroy_from-Walk :
    (f list : ℕ) (cells : List (ℕ × ℕ)) (s : State)
    → member (addresses cells) list ≡ false
    → member (addresses cells) 0 ≡ false
    → Distinct (addresses cells)
    → Walk (s.heap) cells list
    → destroy_from (length cells + suc f) list (first_of cells list) s ≡ some (destroyed cells s)
destroy_from-Walk f list [] s out not_null d w =
    let fuel : 0 + suc f ≡ suc f = omega arith in
    ap (λ k. destroy_from k list list s) fuel
    ∙ destroy_from-stop f list s
    ∙ ap (λ es. some (record s { events = es })) (events-nil (s.destroys) (s.events))
destroy_from-Walk f list ((b, v) ∷ cells) s out not_null (apart, d) (l, n, i, w) =
    let fuel : suc (length cells) + suc f ≡ suc (length cells + suc f) = omega arith in
    ap (λ k. destroy_from k list b s) fuel
    ∙ destroy_from-next (length cells + suc f) list b v (first_of cells list) s (ground arith)
        (ground arith) l n i
    ∙ destroy_from-Walk f list cells (destroyed ((b, v) ∷ []) s) (ground arith) (ground arith) d
        (Walk-wipe (s.heap) b list cells apart w)
    ∙ ap (λ es. some (record s { heap = wipe_all (b ∷ addresses cells) (s.heap); events = es }))
        (events-cons (s.destroys) (s.events) v (items cells))

-- The memory when only the head is left, in a ring with itself.
abbrev pub emptied : ℕ → List (ℕ × ℕ) → Heap → Heap
emptied list cells h =
    let k = wipe_all (addresses cells) h in
    record k { next = update (k.next) list list; prev = update (k.prev) list list }

-- The memory after `list_destroy`: no node and no head is left.
abbrev pub without : ℕ → List (ℕ × ℕ) → Heap → Heap
without list cells h = free list (emptied list cells h)

-- The calls that `list_destroy` makes: lock before all, unlock when only the head is left.
abbrev pub farewell : State → ℕ → List (ℕ × ℕ) → List Event
farewell s list cells =
    let items_gone = if s.destroys then destructions (items cells) else [] in
    if s.locker
    then (lock (s.heap) ∷ [])
      ++ items_gone
      ++ (unlock (emptied list cells (s.heap)) ∷ locker_destroy ∷ [])
    else items_gone

wipe_all-other :
    (as_ : List ℕ) (h : Heap) (a : ℕ)
    → member as_ a ≡ false
    → ((wipe_all as_ h).live a ≡ h.live a)
      × ((wipe_all as_ h).next a ≡ h.next a)
      × ((wipe_all as_ h).prev a ≡ h.prev a)
      × ((wipe_all as_ h).item a ≡ h.item a)
wipe_all-other [] h a out = (refl, refl, refl, refl)
wipe_all-other (b ∷ as_) h a out =
    let (l, n, p, i) = wipe_all-other as_ (wipe b h) a (ground arith) in
    (l ∙ ground arith, n ∙ ground arith, p ∙ ground arith, i)

wipe_all-dead :
    (as_ : List ℕ) (h : Heap) (a : ℕ)
    → ((h.live a ≡ false) ⊎ (member as_ a ≡ true))
    → (wipe_all as_ h).live a ≡ false
wipe_all-dead [] h a (inl dead) = dead
wipe_all-dead [] h a (inr at) = absurd cc
wipe_all-dead (b ∷ as_) h a dead = wipe_all-dead as_ (wipe b h) a (ground arith)

-- The end of `list_destroy`, behind its loop.
abbrev ended : ℕ → State → State
ended list s =
    let s₁ = record s {
      heap = record (s.heap) {
        next = update (s.heap.next) list list;
        prev = update (s.heap.prev) list list;
      };
    } in
    let s₂ = dlist_destroy_locker s₁ in record s₂ { heap = free list (s₂.heap) }

destroy_locked-ended :
    (f list iter : ℕ) (s s' : State)
    → s.heap.live list ≡ true
    → s.heap.next list ≡ iter
    → destroy_from f list iter s ≡ some s'
    → s'.heap.live list ≡ true
    → destroy_locked f list s ≡ some (ended list s')
unfolding destroy_locked
destroy_locked-ended f list iter s s' live first loop live' = ground (arith, loop)

heap-lock : (s : State) → (dlist_lock s).heap ≡ s.heap
heap-lock s = elim (Bool-cases (s.locker)) [ inl e ↦ rw e refl | inr e ↦ rw e refl ]

heap-destroy_locker : (s : State) → (dlist_destroy_locker s).heap ≡ s.heap
heap-destroy_locker s = elim (Bool-cases (s.locker)) [ inl e ↦ rw e refl | inr e ↦ rw e refl ]

-- The events of a state with these two flags, through the four parts of `list_destroy`.
events-farewell :
    (locker destroys : Bool) (events : List Event) (h : Heap) (list : ℕ) (cells : List (ℕ × ℕ))
    → let s : State = record { heap = h; locker = locker; destroys = destroys; events = events } in
      (ended list (destroyed cells (dlist_lock s))).events ≡ events ++ farewell s list cells
events-farewell true true events h list cells = simp append_assoc
events-farewell true false events h list cells = simp append_assoc
events-farewell false true events h list cells = refl
events-farewell false false events h list cells = sym (append-nil events)

-- From the state behind the lock.
locked-Frees :
    (f : ℕ) (k : State) (list : ℕ) (cells : List (ℕ × ℕ))
    → Holds (k.heap) list cells
    → destroy_locked (length cells + suc f) list k ≡ some (ended list (destroyed cells k))
locked-Frees f k list cells held =
    let null_out = Chain-fresh (k.heap) list list 0 cells (held.ring) (held.null_free) in
    let walk =
      destroy_from-Walk f list cells k (held.distinct.0) null_out (held.distinct.1)
        (Chain-Walk (k.heap) list list cells (held.ring)) in
    let other = wipe_all-other (addresses cells) (k.heap) list (held.distinct.0) in
    destroy_locked-ended (length cells + suc f) list (first_of cells list) k (destroyed cells k)
      (held.head_live) (Chain-first (k.heap) list list cells (held.ring)) walk
      (other.0 ∙ held.head_live)

heap-ended :
    (list : ℕ) (cells : List (ℕ × ℕ)) (k : State)
    → (ended list (destroyed cells k)).heap ≡ without list cells (k.heap)
heap-ended list cells k = elim (Bool-cases (k.locker)) [ inl e ↦ rw e refl | inr e ↦ rw e refl ]

without-dead :
    (list : ℕ) (cells : List (ℕ × ℕ)) (h : Heap) (a : ℕ)
    → member (list ∷ addresses cells) a ≡ true
    → (without list cells h).live a ≡ false
without-dead list cells h a at = elim (Bool-cases (a == list)) [
  | inl same ↦ rw same refl
  | inr other ↦ rw other (wipe_all-dead (addresses cells) h a (inr (ground arith)))
]

without-Elsewhere :
    (list : ℕ) (cells : List (ℕ × ℕ)) (h : Heap)
    → Elsewhere h (without list cells h) (list ∷ addresses cells)
without-Elsewhere list cells h a out =
    let (l, n, p, i) = wipe_all-other (addresses cells) h a (ground arith) in
    let other : (a == list) ≡ false = ground arith in rw other (l, n, p, i)

-- With fuel for one round more than there are nodes: no node of the list and no head is left, nothing
-- else is touched, and the items were destroyed in their order, under the lock.
pub list_destroy-Frees :
    (f : ℕ) (s : State) (list : ℕ) (cells : List (ℕ × ℕ))
    → Holds (s.heap) list cells
    → (s' : State) × (list_destroy (length cells + suc f) list s ≡ some s')
      × (s'.events ≡ s.events ++ farewell s list cells)
      × ((a : ℕ) → member (list ∷ addresses cells) a ≡ true → s'.heap.live a ≡ false)
      × Elsewhere (s.heap) (s'.heap) (list ∷ addresses cells)
unfolding list_destroy
list_destroy-Frees f s list cells held =
    let k = dlist_lock s in
    let there : (list == 0) ≡ false =
      live_apart (s.heap) list 0 (held.head_live) (held.null_free) in
    let held' : Holds (k.heap) list cells =
      subst (λ h. Holds h list cells) (sym (heap-lock s)) held in
    let last : (ended list (destroyed cells k)).heap ≡ without list cells (s.heap) =
      heap-ended list cells k ∙ ap (without list cells) (heap-lock s) in
    (
      ended list (destroyed cells k),
      rw there (locked-Frees f k list cells held'),
      events-farewell (s.locker) (s.destroys) (s.events) (s.heap) list cells,
      subst (λ (h : Heap). (a : ℕ) → member (list ∷ addresses cells) a ≡ true → h.live a ≡ false)
          (sym last) (without-dead list cells (s.heap)),
      subst (λ h. Elsewhere (s.heap) h (list ∷ addresses cells)) (sym last)
          (without-Elsewhere list cells (s.heap)),
    )

-- On a memory that holds a list as a ring: list_length gives the number of items and changes
-- nothing; list_destroy then frees all nodes and the head, touches nothing else, and destroys the
-- items in their order, if the list was given a data_destroy. If there is a locker, list_length
-- calls lock and then unlock, and list_destroy calls lock before all, unlock when only the head
-- is left, and then the destructor of the locker. Both have fuel for one round more than there
-- are nodes.
pub walks-Free :
    (f : ℕ) (s : State) (list : ℕ) (cells : List (ℕ × ℕ))
    → Holds (s.heap) list cells
    → (list_length (length cells + suc f) list s
        ≡ some (length cells, bracketed s (s.heap) (s.heap)))
      × ((s' : State) × (list_destroy (length cells + suc f) list s ≡ some s')
          × (s'.events ≡ s.events ++ farewell s list cells)
          × ((a : ℕ) → member (list ∷ addresses cells) a ≡ true → s'.heap.live a ≡ false)
          × Elsewhere (s.heap) (s'.heap) (list ∷ addresses cells))
walks-Free f s list cells held =
    (list_length-length f s list cells held, list_destroy-Frees f s list cells held)
