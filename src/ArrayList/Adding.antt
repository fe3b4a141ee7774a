-- ===== src/ArrayList/Adding.antt =====
-- `add_elem` of array_list.c on the chains that hold a list.
use mathlib.Core.List.{append_assoc, append-nil}
use mathlib.Core.Path.{subst}
use chunxiao_code.Prelude.{
  ℕ, ◌+◌, ◌≡◌, ◌≢◌, refl, ap, sym, ◌∙◌, ◌⊎◌, inl, inr, List, [], ◌∷◌, ◌++◌, some, true, false,
  length, length-append, Bool-cases, arith, set, get_elem?, get_elem?-set_self, get_elem?-set_ne,
  lt-length_of_get_elem?, lt-length_of_get_elem?,
}
use chunxiao_code.Prelude.Members.{member, member-append}
use chunxiao_code.ArrayList.{Block, stored, present, full, add_cells, add_chain, add_elem}
use chunxiao_code.ArrayList.Chain.{taken, free, Holds, last, more}

module _ (item : ℕ) where
  add_cells-present :
      (xs : List ℕ) (rest : Block)
      → member xs item ≡ true
      → add_cells (taken xs ++ rest) item ≡ present
  unfolding add_cells
  add_cells-present [] rest at = absurd cc
  add_cells-present (x ∷ xs) rest at = ground (arith, add_cells-present xs rest)

  add_cells-free :
      (xs stale : List ℕ) (old : ℕ)
      → member xs item ≡ false
      → add_cells (taken xs ++ free (old ∷ stale)) item
        ≡ stored (taken (xs ++ (item ∷ [])) ++ free stale)
  unfolding add_cells
  add_cells-free [] stale old new = refl
  add_cells-free (x ∷ xs) stale old new = ground (arith, add_cells-free xs stale old)

  add_cells-full : (xs : List ℕ) → member xs item ≡ false → add_cells (taken xs) item ≡ full
  unfolding add_cells
  add_cells-full [] new = refl
  add_cells-full (x ∷ xs) new = ground (arith, add_cells-full xs)

-- What `add_elem` does to a chain: 2 and no change if the element is there, else 0 and the element
-- behind the others.
abbrev pub Adds : List Block → List ℕ → ℕ → List Block → ℕ → Type 0
Adds chain xs item chain' ret =
    ((member xs item ≡ true) × (chain' ≡ chain) × (ret ≡ 2))
    ⊎ ((member xs item ≡ false) × Holds chain' (xs ++ (item ∷ [])) × (ret ≡ 0))

module _ (b : Block) (item : ℕ) where
  chain-stored :
      (rest : List Block) (b' : Block)
      → add_cells b item ≡ stored b'
      → add_chain true (b ∷ rest) item ≡ some (b' ∷ rest, 0)
  unfolding add_chain
  chain-stored rest b' e = rw (add_chain, e) refl

  chain-present :
      (rest : List Block)
      → add_cells b item ≡ present
      → add_chain true (b ∷ rest) item ≡ some (b ∷ rest, 2)
  unfolding add_chain
  chain-present rest e = rw (add_chain, e) refl

  chain-new :
      add_cells b item ≡ full
      → add_chain true (b ∷ []) item
        ≡ some (b ∷ (taken (item ∷ []) ++ free (0 ∷ 0 ∷ 0 ∷ 0 ∷ [])) ∷ [], 0)
  unfolding add_chain
  chain-new e = rw (add_chain, e) refl

  chain-next :
      (c : Block) (rest chain' : List Block) (ret : ℕ)
      → add_cells b item ≡ full
      → add_chain true (c ∷ rest) item ≡ some (chain', ret)
      → add_chain true (b ∷ c ∷ rest) item ≡ some (b ∷ chain', ret)
  unfolding add_chain
  chain-next c rest chain' ret e next = rw (add_chain, e, next) refl

-- `add_elem` succeeds on the chain, and does that.
abbrev pub Outcome : List Block → List ℕ → ℕ → Type 0
Outcome chain xs item =
    (chain' : List Block) × (ret : ℕ) × (add_chain true chain item ≡ some (chain', ret))
    × Adds chain xs item chain' ret

ne_last : (xs : List ℕ) (item : ℕ) → xs ++ (item ∷ []) ≢ []
ne_last [] item e = cc
ne_last (x ∷ xs) item e = cc

add_last :
    (b : Block) (xs stale : List ℕ) (item : ℕ)
    → length xs + length stale ≡ 5
    → b ≡ taken xs ++ free stale
    → member xs item ≡ false
    → Outcome (b ∷ []) xs item
add_last b xs [] item room e new =
    let whole : b ≡ taken xs = e ∙ append-nil (taken xs) in
    (
      b ∷ (taken (item ∷ []) ++ free (0 ∷ 0 ∷ 0 ∷ 0 ∷ [])) ∷ [],
      0,
      chain-new b item (ap (λ c. add_cells c item) whole ∙ add_cells-full item xs new),
      inr (
        new,
        more xs (item ∷ []) (omega arith) whole (λ p. cc) refl
            (last (item ∷ []) (0 ∷ 0 ∷ 0 ∷ 0 ∷ []) refl refl),
        refl,
      ),
    )
add_last b xs (old ∷ stale) item room e new = (
  (taken (xs ++ (item ∷ [])) ++ free stale) ∷ [],
  0,
  chain-stored b item [] (taken (xs ++ (item ∷ [])) ++ free stale)
      (ap (λ c. add_cells c item) e ∙ add_cells-free item xs stale old new),
  inr (
    new,
    last (xs ++ (item ∷ [])) stale (omega (arith, length-append xs (item ∷ []))) refl,
    refl,
  ),
)

add_there :
    (b : Block) (rest : List Block) (xs ys : List ℕ) (cells : Block) (item : ℕ)
    → b ≡ taken xs ++ cells
    → member xs item ≡ true
    → Outcome (b ∷ rest) (xs ++ ys) item
add_there b rest xs ys cells item e there = (
  b ∷ rest,
  2,
  chain-present b item rest (ap (λ c. add_cells c item) e ∙ add_cells-present item xs cells there),
  inl (ground (arith, member-append xs ys item), refl, refl),
)

-- Behind a full block that does not have the element.
Adds-behind :
    (b : Block) (rest : List Block) (xs ys : List ℕ) (item : ℕ) (chain' : List Block) (ret : ℕ)
    → length xs ≡ 5
    → b ≡ taken xs
    → member xs item ≡ false
    → Adds rest ys item chain' ret
    → Adds (b ∷ rest) (xs ++ ys) item (b ∷ chain') ret
Adds-behind b rest xs ys item chain' ret n e new (inl (there, same, r)) =
    inl (ground (arith, member-append xs ys item), ap (◌∷◌ b) same, r)
Adds-behind b rest xs ys item chain' ret n e new (inr (out, holds, r)) = inr (
  ground (arith, member-append xs ys item),
  more xs (ys ++ (item ∷ [])) n e (ne_last ys item) (append_assoc xs ys (item ∷ [])) holds,
  r,
)

add_next :
    (b c : Block) (rest : List Block) (xs ys : List ℕ) (item : ℕ)
    → length xs ≡ 5
    → b ≡ taken xs
    → member xs item ≡ false
    → Outcome (c ∷ rest) ys item
    → Outcome (b ∷ c ∷ rest) (xs ++ ys) item
add_next b c rest xs ys item n e new (chain', ret, run, adds) = (
  b ∷ chain',
  ret,
  chain-next b item c rest chain' ret (ap (λ d. add_cells d item) e ∙ add_cells-full item xs new)
      run,
  Adds-behind b (c ∷ rest) xs ys item chain' ret n e new adds,
)

pub add_chain-Outcome :
    {chain : List Block} {xs : List ℕ} (item : ℕ) → Holds chain xs → Outcome chain xs item
add_chain-Outcome item (last {b} xs stale room e) = elim (Bool-cases (member xs item)) [
  | inl there ↦
      subst (λ ys. Outcome (b ∷ []) ys item) (append-nil xs)
        (add_there b [] xs [] (free stale) item e there)
  | inr new ↦ add_last b xs stale item room e new
]
add_chain-Outcome item (more {rest = []} xs ys n e ne all h) = elim h [ ]
add_chain-Outcome item (more {b} {rest = c ∷ rest} xs ys n e ne all h) =
    subst (λ l. Outcome (b ∷ c ∷ rest) l item) (sym all)
      (elim (Bool-cases (member xs item)) [
        | inl there ↦ add_there b (c ∷ rest) xs ys [] item (e ∙ sym (append-nil (taken xs))) there
        | inr new ↦ add_next b c rest xs ys item n e new (add_chain-Outcome item h)
      ])

-- `add_elem` on an array of chains, while `malloc` succeeds: on the chain at the index, if it holds a
-- list, the call succeeds; it returns 2 and changes nothing if the element is in the list, and else
-- returns 0 and the chain holds the list with the element behind it. The other chains are as they
-- were.
pub add_elem-Adds :
    (base : List (List Block)) (array_n item : ℕ) (chain : List Block) (xs : List ℕ)
    → get_elem? base array_n ≡ some chain
    → Holds chain xs
    → (base' : List (List Block)) × (chain' : List Block) × (ret : ℕ) × (add_elem true base array_n
          item
        ≡ some (base', ret))
      × (get_elem? base' array_n ≡ some chain')
      × Adds chain xs item chain' ret
      × ((j : ℕ) → array_n ≢ j → get_elem? base' j ≡ get_elem? base j)
unfolding add_elem
add_elem-Adds base array_n item chain xs at h =
    let (chain', ret, run, adds) = add_chain-Outcome item h in
    (
      set base array_n chain',
      chain',
      ret,
      rw (at, run) refl,
      get_elem?-set_self base array_n chain' (lt-length_of_get_elem? base array_n chain at),
      adds,
      λ j ne. get_elem?-set_ne base chain' ne,
    )
