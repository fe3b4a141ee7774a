-- ===== src/ArrayList/Deleting.antt =====
-- `del_elem` of array_list.c on a chain of one block.
use mathlib.Core.List.{append-nil}
use chunxiao_code.Prelude.{
  ℕ, ◌+◌, ◌-◌, ◌<◌, ◌≡◌, refl, ap, sym, ◌∙◌, inl, inr, List, [], ◌∷◌, ◌++◌, Option, none, some,
  true, false, ◌==◌, ==_iff, length, Bool, Bool-cases, arith, lt→ltb, if◌then◌else◌,
}
use chunxiao_code.Prelude.Members.{member}
use chunxiao_code.ArrayList.{Block}
use chunxiao_code.ArrayList.Chain.{taken, free}
use chunxiao_code.ArrayList.Delete.{Search, look_cells, look_chain}

-- `del` after the used cells from cell `i` on.
abbrev pub seen : ℕ → ℕ → List ℕ → Option (ℕ × ℕ) → Option (ℕ × ℕ)
seen item i [] d = d
seen item i (x ∷ xs) d = seen item (i + 1) xs (if item == x then some (0, i) else d)

abbrev pub looking : Option (ℕ × ℕ) → Search
looking d = record { del = d; end = none; temp = 0 }

look_cells-taken :
    (item i : ℕ) (xs : List ℕ) (rest : Block) (d : Option (ℕ × ℕ))
    → look_cells item 0 i (taken xs ++ rest) (looking d)
      ≡ look_cells item 0 (i + length xs) rest (looking (seen item i xs d))
unfolding look_cells
look_cells-taken item i [] rest d = ap (λ j. look_cells item 0 j rest (looking d)) (omega arith)
look_cells-taken item i (x ∷ xs) rest d =
    look_cells-taken item (i + 1) xs rest (if item == x then some (0, i) else d)
    ∙ ap
        (λ j.
          look_cells item 0 j rest
            (looking (seen item (i + 1) xs (if item == x then some (0, i) else d))))
        (omega arith)

seen-none :
    (item i : ℕ) (xs : List ℕ) (d : Option (ℕ × ℕ)) → member xs item ≡ false → seen item i xs d ≡ d
seen-none item i [] d new = refl
seen-none item i (x ∷ xs) d new =
    let other : (item == x) ≡ false = ground arith in
    rw other (seen-none item (i + 1) xs d (ground arith))

-- It is the place of the element, if the element is there.
pub seen-some :
    (item i : ℕ) (xs : List ℕ) (d : Option (ℕ × ℕ))
    → member xs item ≡ true
    → (us : List ℕ) × (vs : List ℕ) × (xs ≡ us ++ (item ∷ vs))
      × (seen item i xs d ≡ some (0, i + length us))
seen-some item i [] d at = absurd cc
seen-some item i (x ∷ xs) d at = elim (Bool-cases (member xs item)) [
  | inl later ↦
      let (us, vs, e, k) = seen-some item (i + 1) xs (if item == x then some (0, i) else d) later in
      (x ∷ us, vs, ap (◌∷◌ x) e, k ∙ ap (λ j. some (0, j)) (omega arith))
  | inr now ↦
      let same : (item == x) ≡ true = ground arith in
      (
        [],
        xs,
        ap (λ y. y ∷ xs) (sym ((==_iff item x).0 same)),
        ap (λ t. seen item (i + 1) xs (if t then some (0, i) else d)) same
            ∙ seen-none item (i + 1) xs (some (0, i)) now
            ∙ ap (λ j. some (0, j)) (omega arith),
      )
]

whole :
    (item : ℕ) (xs : List ℕ)
    → look_cells item 0 0 (taken xs) (looking none) ≡ (looking (seen item 0 xs none), false)
unfolding look_cells
whole item xs =
    ap (λ c. look_cells item 0 0 c (looking none)) (sym (append-nil (taken xs)))
    ∙ look_cells-taken item 0 xs [] none

one_block :
    (item : ℕ) (b : Block) (s : Search) (r : Search × Bool)
    → look_cells item 0 0 b s ≡ r
    → look_chain item 0 (b ∷ []) s
      ≡ (if r.1 then r.0 else record (r.0) { temp = 0; end = some (0, 4) })
unfolding look_chain
one_block item b s r e = rw (look_chain, e) refl

-- What the search finds in a chain of one block: the place of the element, and the last used cell.
pub look_chain-full :
    (item : ℕ) (xs : List ℕ)
    → look_chain item 0 (taken xs ∷ []) (looking none)
      ≡ record { del = seen item 0 xs none; end = some (0, 4); temp = 0 }
look_chain-full item xs =
    one_block item (taken xs) (looking none) (looking (seen item 0 xs none), false) (whole item xs)

look_cells-stale :
    (item old n : ℕ) (cells : Block) (sn : Option (ℕ × ℕ)) (d : ℕ × ℕ)
    → 0 < n
    → (if item == old then some (0, n) else sn) ≡ some d
    → look_cells item 0 n (record { used = 0; item = old } ∷ cells) (looking sn)
      ≡ (record { del = some d; end = some (0, n - 1); temp = 0 }, true)
unfolding look_cells
look_cells-stale item old n cells sn d pos at = rw (look_cells, at, lt→ltb 0 n pos) refl

pub look_chain-part :
    (item old : ℕ) (xs stale : List ℕ) (d : ℕ × ℕ)
    → 0 < length xs
    → (if item == old then some (0, length xs) else seen item 0 xs none) ≡ some d
    → look_chain item 0 ((taken xs ++ free (old ∷ stale)) ∷ []) (looking none)
      ≡ record { del = some d; end = some (0, length xs - 1); temp = 0 }
look_chain-part item old xs stale d pos at =
    one_block item (taken xs ++ free (old ∷ stale)) (looking none)
      (record { del = some d; end = some (0, length xs - 1); temp = 0 }, true)
      (look_cells-taken item 0 xs (free (old ∷ stale)) none
        ∙ ap (λ j. look_cells item 0 j (free (old ∷ stale)) (looking (seen item 0 xs none)))
            (omega arith)
        ∙ look_cells-stale item old (length xs) (free stale) (seen item 0 xs none) d pos at)
