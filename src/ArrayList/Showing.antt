-- ===== src/ArrayList/Showing.antt =====
-- What `show_elem` of array_list.c prints.
use mathlib.Core.List.{append-nil}
use chunxiao_code.Prelude.{
  ℕ, ◌+◌, ◌≡◌, refl, ap, sym, ◌∙◌, List, [], ◌∷◌, ◌++◌, some, true, false, map, get_elem?,
  if◌then◌else◌, Bool,
}
use chunxiao_code.ArrayList.{Block, show_cells, show_chain, show_elem}
use chunxiao_code.ArrayList.Chain.{taken, free, Holds, last, more}

abbrev items : List (ℕ × ℕ) → List ℕ
items ps = map (λ p. p.1) ps

items-append : (ps qs : List (ℕ × ℕ)) → items (ps ++ qs) ≡ items ps ++ items qs
items-append [] qs = refl
items-append (p ∷ ps) qs = ap (◌∷◌ (p.1)) (items-append ps qs)

show_cells-full :
    (i : ℕ) (xs : List ℕ)
    → (items (show_cells i (taken xs)).0 ≡ xs) × ((show_cells i (taken xs)).1 ≡ true)
unfolding show_cells
show_cells-full i [] = (refl, refl)
show_cells-full i (x ∷ xs) =
    let (same, whole) = show_cells-full (i + 1) xs in (ap (◌∷◌ x) same, whole)

show_cells-part :
    (i old : ℕ) (xs stale : List ℕ)
    → (items (show_cells i (taken xs ++ free (old ∷ stale))).0 ≡ xs)
      × ((show_cells i (taken xs ++ free (old ∷ stale))).1 ≡ false)
unfolding show_cells
show_cells-part i old [] stale = (refl, refl)
show_cells-part i old (x ∷ xs) stale =
    let (same, whole) = show_cells-part (i + 1) old xs stale in (ap (◌∷◌ x) same, whole)

chain-items :
    (b : Block) (rest : List Block) (xs : List ℕ) (whole : Bool)
    → items (show_cells 0 b).0 ≡ xs
    → (show_cells 0 b).1 ≡ whole
    → items (show_chain (b ∷ rest)) ≡ xs ++ (if whole then items (show_chain rest) else [])
unfolding show_chain
chain-items b rest xs true e w = items-append (show_cells 0 b).0 _ ∙ rw (e, w) refl
chain-items b rest xs false e w = items-append (show_cells 0 b).0 _ ∙ rw (e, w) refl

show_chain-items :
    {chain : List Block} {xs : List ℕ} → Holds chain xs → items (show_chain chain) ≡ xs
unfolding show_chain
show_chain-items (last {b} xs [] room e) =
    let whole : b ≡ taken xs = e ∙ append-nil (taken xs) in
    chain-items b [] xs true (rw whole (show_cells-full 0 xs).0) (rw whole (show_cells-full 0 xs).1)
    ∙ append-nil xs
show_chain-items (last {b} xs (old ∷ stale) room e) =
    chain-items b [] xs false (rw e (show_cells-part 0 old xs stale).0)
      (rw e (show_cells-part 0 old xs stale).1)
    ∙ append-nil xs
show_chain-items (more {b} {rest} xs ys n e ne all h) =
    chain-items b rest xs true (rw e (show_cells-full 0 xs).0) (rw e (show_cells-full 0 xs).1)
    ∙ ap (◌++◌ xs) (show_chain-items h)
    ∙ sym all

-- `show_elem` prints the elements of the list that a chain holds, in their order.
pub show_elem-items :
    (base : List (List Block)) (array_n : ℕ) (chain : List Block) (xs : List ℕ)
    → get_elem? base array_n ≡ some chain
    → Holds chain xs
    → (printed : List (ℕ × ℕ)) × (show_elem base array_n ≡ some printed)
      × (map (λ p. p.1) printed ≡ xs)
unfolding show_elem
show_elem-items base array_n chain xs at h = (show_chain chain, rw at refl, show_chain-items h)
