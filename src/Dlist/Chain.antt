-- ===== src/Dlist/Chain.antt =====
-- The memories of dlist.c that hold a list.
use chunxiao_code.Prelude.{
  ℕ, ◌≡◌, ap, sym, ◌∙◌, List, [], ◌∷◌, ◌++◌, Bool-cases, inl, inr, true, false, ◌==◌, ==_iff, arith,
}
use chunxiao_code.Prelude.Members.{member, Distinct}
use chunxiao_code.Dlist.{Heap}

-- The nodes of a list: address and item.
abbrev pub addresses : List (ℕ × ℕ) → List ℕ
addresses [] = []
addresses ((b, v) ∷ cells) = b ∷ addresses cells

abbrev pub items : List (ℕ × ℕ) → List ℕ
items [] = []
items ((b, v) ∷ cells) = v ∷ items cells

-- From `p` the links lead in both directions through the cells to `e`.
abbrev pub Chain : Heap → ℕ → List (ℕ × ℕ) → ℕ → Type 0
Chain h p [] e = (h.next p ≡ e) × (h.prev e ≡ p)
Chain h p ((b, v) ∷ cells) e =
    (h.next p ≡ b) × (h.prev b ≡ p) × (h.item b ≡ v) × (h.live b ≡ true) × Chain h b cells e

-- The first and the last address.
abbrev pub first_of : List (ℕ × ℕ) → ℕ → ℕ
first_of [] e = e
first_of ((b, v) ∷ cells) e = b

abbrev pub end_of : ℕ → List (ℕ × ℕ) → ℕ
end_of p [] = p
end_of p ((b, v) ∷ cells) = end_of b cells

-- A ring through the head of the list that is at `list`.
pub record Holds (h : Heap) (list : ℕ) (cells : List (ℕ × ℕ)) : Type 0 where
  pub null_free : h.live 0 ≡ false
  pub head_live : h.live list ≡ true
  pub ring : Chain h list cells list
  pub distinct : Distinct (list ∷ addresses cells)

pub Chain-first :
    (h : Heap) (p e : ℕ) (cells : List (ℕ × ℕ)) → Chain h p cells e → h.next p ≡ first_of cells e
Chain-first h p e [] c = c.0
Chain-first h p e ((b, v) ∷ cells) c = c.0

pub Chain-last :
    (h : Heap) (p e : ℕ) (cells : List (ℕ × ℕ)) → Chain h p cells e → h.prev e ≡ end_of p cells
Chain-last h p e [] (n, q) = q
Chain-last h p e ((b, v) ∷ cells) (n, q, i, l, c) = Chain-last h b e cells c

-- All nodes are allocated.
pub Chain-live :
    (h : Heap) (p e a : ℕ) (cells : List (ℕ × ℕ))
    → Chain h p cells e
    → member (addresses cells) a ≡ true
    → h.live a ≡ true
Chain-live h p e a [] c at = absurd cc
Chain-live h p e a ((b, v) ∷ cells) (n, q, i, l, c) at = elim (Bool-cases (b == a)) [
  | inl same ↦ ap (h.live) (sym ((==_iff b a).0 same)) ∙ l
  | inr other ↦ Chain-live h b e a cells c (ground arith)
]

-- An address that is not allocated is none of them.
pub Chain-fresh :
    (h : Heap) (p e a : ℕ) (cells : List (ℕ × ℕ))
    → Chain h p cells e
    → h.live a ≡ false
    → member (addresses cells) a ≡ false
Chain-fresh h p e a cells c dead = elim (Bool-cases (member (addresses cells) a)) [
  | inl at ↦ absurd (cc (dead, Chain-live h p e a cells c at))
  | inr out ↦ out
]

-- Two memories that agree on what a chain reads.
pub record Agree (h h' : Heap) (p : ℕ) (cells : List (ℕ × ℕ)) (e : ℕ) : Type 0 where
  pub nexts : (a : ℕ) → member (p ∷ addresses cells) a ≡ true → h'.next a ≡ h.next a
  pub prevs : (a : ℕ) → member (addresses cells ++ (e ∷ [])) a ≡ true → h'.prev a ≡ h.prev a
  pub nodes :
      (a : ℕ) → member (addresses cells) a ≡ true → (h'.item a ≡ h.item a) × (h'.live a ≡ h.live a)

pub Chain-Agree :
    (h h' : Heap) (p e : ℕ) (cells : List (ℕ × ℕ))
    → Agree h h' p cells e
    → Chain h p cells e
    → Chain h' p cells e
Chain-Agree h h' p e [] g (n, q) = (g.nexts p (ground arith) ∙ n, g.prevs e (ground arith) ∙ q)
Chain-Agree h h' p e ((b, v) ∷ cells) g (n, q, i, l, c) = (
  g.nexts p (ground arith) ∙ n,
  g.prevs b (ground arith) ∙ q,
  (g.nodes b (ground arith)).0 ∙ i,
  (g.nodes b (ground arith)).1 ∙ l,
  Chain-Agree h h' b e cells
      (record {
        nexts = λ a at. g.nexts a (ground arith);
        prevs = λ a at. g.prevs a (ground arith);
        nodes = λ a at. g.nodes a (ground arith);
      })
      c,
)
