-- ===== src/Dlist/Linking.antt =====
-- A node put between two nodes of a ring by dlist.c.
use chunxiao_code.Prelude.{
  ℕ, ◌≡◌, refl, ap, sym, ◌∙◌, List, [], ◌∷◌, ◌++◌, some, Bool-cases, inl, inr, true, false, ◌==◌,
  ==_iff, arith,
}
use chunxiao_code.Prelude.Members.{member, Distinct, member-append}
use chunxiao_code.Dlist.{Heap, update, list_add_between}
use chunxiao_code.Dlist.Chain.{
  addresses, Chain, first_of, end_of, Holds, Chain-live, Chain-fresh, Chain-Agree,
}

-- The memory after a new node was put between two.
abbrev pub linked : Heap → ℕ → ℕ → ℕ → ℕ → Heap
linked h node item prv nxt = record {
  live = update (h.live) node true;
  next = update (update (h.next) node nxt) prv node;
  prev = update (update (h.prev) nxt node) node prv;
  item = update (h.item) node item;
}

member-end_of :
    (p : ℕ) (xs ys : List (ℕ × ℕ)) → member (p ∷ addresses (xs ++ ys)) (end_of p xs) ≡ true
member-end_of p [] ys = ground arith
member-end_of p ((b, v) ∷ xs) ys = ground (arith, member-end_of b xs ys)

pub end_of-within :
    (p : ℕ) (cells : List (ℕ × ℕ)) → member (p ∷ addresses cells) (end_of p cells) ≡ true
end_of-within p [] = ground arith
end_of-within p ((b, v) ∷ cells) = ground (arith, end_of-within b cells)

pub first_of-within :
    (p : ℕ) (cells : List (ℕ × ℕ)) → member (p ∷ addresses cells) (first_of cells p) ≡ true
first_of-within p [] = ground arith
first_of-within p ((b, v) ∷ cells) = ground arith

pub out_split :
    (a node item : ℕ) (cells : List (ℕ × ℕ))
    → member (addresses (cells ++ ((node, item) ∷ []))) a ≡ false
    → ((node == a) ≡ false) × (member (addresses cells) a ≡ false)
out_split a node item [] out = (ground arith, refl)
out_split a node item ((b, v) ∷ cells) out =
    (ground (arith, out_split a node item cells), ground (arith, out_split a node item cells))

pub apart : (a b : ℕ) (xs : List ℕ) → member xs a ≡ true → member xs b ≡ false → (a == b) ≡ false
apart a b xs at out = elim (Bool-cases (a == b)) [
  | inl same ↦ absurd (cc (at, out, ap (member xs) ((==_iff a b).0 same)))
  | inr other ↦ other
]

out_with_end :
    (b e : ℕ) (xs : List ℕ)
    → member xs b ≡ false
    → (e == b) ≡ false
    → member (xs ++ (e ∷ [])) b ≡ false
out_with_end b e xs out ne = ground (arith, member-append xs (e ∷ []) b)

member-first_of :
    (e : ℕ) (xs ys : List (ℕ × ℕ))
    → member (addresses (xs ++ ys) ++ (e ∷ [])) (first_of ys e) ≡ true
member-first_of e [] [] = ground arith
member-first_of e [] ((b, v) ∷ ys) = ground arith
member-first_of e ((b, v) ∷ xs) ys = ground (arith, member-first_of e xs ys)

module _ (h : Heap) (node item : ℕ) where
  -- Behind the new node.
  Chain-behind :
      (p e : ℕ) (cells : List (ℕ × ℕ))
      → Distinct (p ∷ addresses cells)
      → member (addresses cells) e ≡ false
      → member (p ∷ addresses cells) node ≡ false
      → (e == node) ≡ false
      → Chain h p cells e
      → Chain (linked h node item p (first_of cells e)) node cells e
  Chain-behind p e [] d out new ne (n, q) = (ground arith, ground arith)
  Chain-behind p e ((b, v) ∷ cells) (d, d') out new ne (n, q, i, l, c) = (
    ground arith,
    ground arith,
    ground arith,
    ground arith,
    Chain-Agree h (linked h node item p b) b e cells
        (record {
          nexts = λ a at.
              let x : (a == p) ≡ false = apart a p (b ∷ addresses cells) at d in
              let y : (a == node) ≡ false = apart a node (b ∷ addresses cells) at (ground arith) in
              ground arith;
          prevs = λ a at.
              let x : (a == b) ≡ false =
                apart a b (addresses cells ++ (e ∷ [])) at
                  (out_with_end b e (addresses cells) (d'.0) (ground arith)) in
              let y : (a == node) ≡ false =
                apart a node (addresses cells ++ (e ∷ [])) at
                  (out_with_end node e (addresses cells) (ground arith) ne) in
              ground arith;
          nodes = λ a at.
              let y : (a == node) ≡ false = apart a node (addresses cells) at (ground arith) in
              ground arith;
        })
        c,
  )

  -- A node between the last of `xs` and what follows.
  Chain-linked :
      (p e : ℕ) (xs ys : List (ℕ × ℕ))
      → Distinct (p ∷ addresses (xs ++ ys))
      → member (addresses (xs ++ ys)) e ≡ false
      → member (p ∷ addresses (xs ++ ys)) node ≡ false
      → (e == node) ≡ false
      → Chain h p (xs ++ ys) e
      → Chain (linked h node item (end_of p xs) (first_of ys e)) p (xs ++ ((node, item) ∷ ys)) e
  Chain-linked p e [] ys d out new ne c =
      (ground arith, ground arith, ground arith, ground arith, Chain-behind p e ys d out new ne c)
  Chain-linked p e ((b, v) ∷ xs) ys (d, d') out new ne (n, q, i, l, c) =
      let inner : (p == end_of b xs) ≡ false =
        ground
          (arith, apart (end_of b xs) p (b ∷ addresses (xs ++ ys)) (member-end_of b xs ys) d) in
      let outer : (b == first_of ys e) ≡ false = ground (
        arith,
        apart (first_of ys e) b (addresses (xs ++ ys) ++ (e ∷ [])) (member-first_of e xs ys)
            (out_with_end b e (addresses (xs ++ ys)) (d'.0) (ground arith)),
      ) in
      (
        ground arith,
        ground arith,
        ground arith,
        ground arith,
        Chain-linked b e xs ys d' (ground arith) (ground arith) ne c,
      )

member-insert :
    (a x : ℕ) (xs ys : List (ℕ × ℕ)) (v : ℕ)
    → (x == a) ≡ false
    → member (addresses (xs ++ ys)) a ≡ false
    → member (addresses (xs ++ ((x, v) ∷ ys))) a ≡ false
member-insert a x [] ys v ne out = ground arith
member-insert a x ((c, w) ∷ xs) ys v ne out = ground (arith, member-insert a x xs ys v)

Distinct-insert :
    (x : ℕ) (xs ys : List (ℕ × ℕ)) (v : ℕ)
    → Distinct (addresses (xs ++ ys))
    → member (addresses (xs ++ ys)) x ≡ false
    → Distinct (addresses (xs ++ ((x, v) ∷ ys)))
Distinct-insert x [] ys v d new = (new, d)
Distinct-insert x ((b, w) ∷ xs) ys v (out, d) new =
    (member-insert b x xs ys v (ground arith) out, Distinct-insert x xs ys v d (ground arith))

abbrev pub created : ℕ → ℕ → Heap → Heap
created node item h = record h {
  live = update (h.live) node true;
  item = update (h.item) node item;
}

between-joined :
    (k : Heap) (node prv nxt : ℕ)
    → k.live node ≡ true
    → k.live prv ≡ true
    → k.live nxt ≡ true
    → list_add_between node prv nxt k
      ≡ some (record k {
        next = update (update (k.next) node nxt) prv node;
        prev = update (update (k.prev) nxt node) node prv;
      })
unfolding list_add_between
between-joined k node prv nxt at_node at_prv at_nxt = ground arith

pub between-linked :
    (h : Heap) (node item prv nxt : ℕ)
    → h.live prv ≡ true
    → h.live nxt ≡ true
    → list_add_between node prv nxt (created node item h) ≡ some (linked h node item prv nxt)
between-linked h node item prv nxt at_prv at_nxt =
    between-joined (created node item h) node prv nxt (ground arith) (ground arith) (ground arith)

pub live_apart : (h : Heap) (a b : ℕ) → h.live a ≡ true → h.live b ≡ false → (a == b) ≡ false
live_apart h a b live dead = elim (Bool-cases (a == b)) [
  | inl same ↦ absurd (cc (live, dead, ap (h.live) ((==_iff a b).0 same)))
  | inr other ↦ other
]

-- The head and all nodes are allocated.
pub live_within :
    (h : Heap) (list a : ℕ) (cells : List (ℕ × ℕ))
    → Holds h list cells
    → member (list ∷ addresses cells) a ≡ true
    → h.live a ≡ true
live_within h list a cells held at = elim (Bool-cases (list == a)) [
  | inl same ↦ ap (h.live) (sym ((==_iff list a).0 same)) ∙ held.head_live
  | inr other ↦ Chain-live h list list a cells (held.ring) (ground arith)
]

pub ends-live :
    (h : Heap) (list : ℕ) (xs ys : List (ℕ × ℕ))
    → Holds h list (xs ++ ys)
    → (h.live (end_of list xs) ≡ true) × (h.live (first_of ys list) ≡ true)
ends-live h list xs ys held = (
  live_within h list (end_of list xs) (xs ++ ys) held (ground (arith, member-end_of list xs ys)),
  live_within h list (first_of ys list) (xs ++ ys) held (
      ground (
        arith,
        member-append (addresses (xs ++ ys)) (list ∷ []) (first_of ys list),
        member-first_of list xs ys,
      )),
)

-- A new node between the cells.
pub linked-Holds :
    (h : Heap) (node item list : ℕ) (xs ys : List (ℕ × ℕ))
    → Holds h list (xs ++ ys)
    → (node == 0) ≡ false
    → h.live node ≡ false
    → Holds
        (linked h node item (end_of list xs) (first_of ys list))
        list
        (xs ++ ((node, item) ∷ ys))
linked-Holds h node item list xs ys held not_null dead =
    let cells = xs ++ ys in
    let out : member (addresses cells) node ≡ false =
      Chain-fresh h list list node cells (held.ring) dead in
    let ne : (list == node) ≡ false = live_apart h list node (held.head_live) dead in
    record {
      null_free = ground (arith, held.null_free);
      head_live = ground (arith, held.head_live);
      ring =
          Chain-linked h node item list list xs ys (held.distinct) (held.distinct.0) (ground arith)
            ne (held.ring);
      distinct = (
        member-insert list node xs ys item (ground arith) (held.distinct.0),
        Distinct-insert node xs ys item (held.distinct.1) out,
      );
    }
