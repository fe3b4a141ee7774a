-- ===== src/Ring/Chain.antt =====
-- The stores of ring1.c that hold a queue.
use chunxiao_code.Prelude.{
  ℕ, ◌≡◌, refl, ap, ◌∙◌, List, [], ◌∷◌, ◌++◌, Option, none, some, Bool-cases, inl, inr, ◌==◌,
  ==_iff, true, false, arith,
}
use chunxiao_code.Prelude.Members.{member, Distinct, Distinct-last}
use chunxiao_code.Ring.{Node, Store, update}

-- From `a`, a node with the item `v`, the links lead through the cells to the end.
abbrev pub Linked : (ℕ → Option Node) → ℕ → ℕ → List (ℕ × ℕ) → Type 0
Linked h a v [] = h a ≡ some (record { next = none; item = v })
Linked h a v ((b, w) ∷ cells) =
    (h a ≡ some (record { next = some b; item = v })) × Linked h b w cells

abbrev pub addresses : List (ℕ × ℕ) → List ℕ
addresses [] = []
addresses ((b, w) ∷ cells) = b ∷ addresses cells

abbrev pub items : List (ℕ × ℕ) → List ℕ
items [] = []
items ((b, w) ∷ cells) = w ∷ items cells

-- The last address.
abbrev pub end_of : ℕ → List (ℕ × ℕ) → ℕ
end_of a [] = a
end_of a ((b, w) ∷ cells) = end_of b cells

-- The queue of a store: the cells behind the first node.
pub record Holds (s : Store) (cells : List (ℕ × ℕ)) : Type 0 where
  pub junk : ℕ
  pub linked : Linked (s.node) (s.front) junk cells
  pub distinct : Distinct (s.front ∷ addresses cells)
  pub at_end : s.rear ≡ end_of (s.front) cells

pub update_same : (h : ℕ → Option Node) (a : ℕ) (c : Option Node) → update h a c a ≡ c
update_same h a c = ground arith

pub update_other :
    (h : ℕ → Option Node) (a b : ℕ) (c : Option Node) → ((b == a) ≡ false) → update h a c b ≡ h b
update_other h a b c ne = rw ne refl

-- A write elsewhere.
pub Linked-update :
    (h : ℕ → Option Node) (a v c : ℕ) (n : Option Node) (cells : List (ℕ × ℕ))
    → member (a ∷ addresses cells) c ≡ false
    → Linked h a v cells
    → Linked (update h c n) a v cells
Linked-update h a v c n [] out l = update_other h c a n (ground arith) ∙ l
Linked-update h a v c n ((b, w) ∷ cells) out (l, rest) =
    (update_other h c a n (ground arith) ∙ l, Linked-update h b w c n cells (ground arith) rest)

-- An address that is not allocated is not one of the cells.
pub Linked-fresh :
    (h : ℕ → Option Node) (a v c : ℕ) (cells : List (ℕ × ℕ))
    → h c ≡ none
    → Linked h a v cells
    → member (a ∷ addresses cells) c ≡ false
Linked-fresh h a v c [] unused l = elim (Bool-cases (a == c)) [
  | inl e ↦ absurd (cc (l, unused, (==_iff a c).0 e))
  | inr e ↦ ground arith
]
Linked-fresh h a v c ((b, w) ∷ cells) unused (l, rest) = elim (Bool-cases (a == c)) [
  | inl e ↦ absurd (cc (l, unused, (==_iff a c).0 e))
  | inr e ↦ ground (arith, Linked-fresh h b w c cells unused rest)
]

-- The item of the last node.
abbrev pub last_item : ℕ → List (ℕ × ℕ) → ℕ
last_item v [] = v
last_item v ((b, w) ∷ cells) = last_item w cells

pub Linked-end :
    (h : ℕ → Option Node) (a v : ℕ) (cells : List (ℕ × ℕ))
    → Linked h a v cells
    → h (end_of a cells) ≡ some (record { next = none; item = last_item v cells })
Linked-end h a v [] l = l
Linked-end h a v ((b, w) ∷ cells) (l, rest) = Linked-end h b w cells rest

pub end_of-member :
    (a : ℕ) (cells : List (ℕ × ℕ)) → member (a ∷ addresses cells) (end_of a cells) ≡ true
end_of-member a [] = ground arith
end_of-member a ((b, w) ∷ cells) = ground (arith, end_of-member b cells)

pub apart_end :
    (a b : ℕ) (cells : List (ℕ × ℕ))
    → member (b ∷ addresses cells) a ≡ false
    → (a == end_of b cells) ≡ false
apart_end a b cells apart = elim (Bool-cases (a == end_of b cells)) [
  | inl e ↦ absurd (
      cc (
        apart,
        end_of-member b cells,
        ap (member (b ∷ addresses cells)) ((==_iff a (end_of b cells)).0 e),
      ))
  | inr e ↦ e
]

-- Linking a new last node.
pub Linked-extend :
    (h : ℕ → Option Node) (a v c d : ℕ) (cells : List (ℕ × ℕ))
    → Distinct (a ∷ addresses cells)
    → h c ≡ some (record { next = none; item = d })
    → member (a ∷ addresses cells) c ≡ false
    → Linked h a v cells
    → Linked
        (update h (end_of a cells) (some (record { next = some c; item = last_item v cells })))
        a
        v
        (cells ++ ((c, d) ∷ []))
Linked-extend h a v c d [] distinct new out l =
    (update_same h a _, update_other h a c _ (ground arith) ∙ new)
Linked-extend h a v c d ((b, w) ∷ cells) (apart, distinct) new out (l, rest) = (
  update_other h (end_of b cells) a _ (apart_end a b cells apart) ∙ l,
  Linked-extend h b w c d cells distinct new (ground arith) rest,
)

pub addresses-append :
    (cells : List (ℕ × ℕ)) (c d : ℕ)
    → addresses (cells ++ ((c, d) ∷ [])) ≡ addresses cells ++ (c ∷ [])
addresses-append [] c d = refl
addresses-append ((b, w) ∷ cells) c d = ap (◌∷◌ b) (addresses-append cells c d)

pub end_of-append : (a : ℕ) (cells : List (ℕ × ℕ)) (c d : ℕ) → end_of a (cells ++ ((c, d) ∷ [])) ≡ c
end_of-append a [] c d = refl
end_of-append a ((b, w) ∷ cells) c d = end_of-append b cells c d

pub Distinct-extend :
    (a : ℕ) (cells : List (ℕ × ℕ)) (c d : ℕ)
    → Distinct (a ∷ addresses cells)
    → member (a ∷ addresses cells) c ≡ false
    → Distinct (a ∷ addresses (cells ++ ((c, d) ∷ [])))
Distinct-extend a cells c d distinct out =
    rw (addresses-append cells c d) (Distinct-last (a ∷ addresses cells) c distinct out)
