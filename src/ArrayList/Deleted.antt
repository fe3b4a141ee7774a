-- ===== src/ArrayList/Deleted.antt =====
-- What `del_elem` of array_list.c leaves in a chain of one block.
use mathlib.Core.List.{Perm, perm_middle, perm_append_singleton, append_assoc, append-nil}
use mathlib.Core.List.Perm
use mathlib.Core.Path.{subst}
use chunxiao_code.Prelude.{
  ℕ, ◌+◌, ◌-◌, ◌<◌, ◌≡◌, ◌≢◌, refl, ap, sym, ◌∙◌, ◌⊎◌, inl, inr, List, [], ◌∷◌, ◌++◌, Option, none,
  some, true, false, ◌==◌, length, length-append, arith, if◌then◌else◌,
}
use chunxiao_code.Prelude.Members.{member}
use chunxiao_code.ArrayList.{Block}
use chunxiao_code.ArrayList.Chain.{taken, free, Holds, last}
use chunxiao_code.ArrayList.Delete.{look_chain, replace_by_last, delete_found, del_chain}
use chunxiao_code.ArrayList.Replace.{cell, taken-append, replace_last, replace_inner}
use chunxiao_code.ArrayList.Deleting.{seen, looking, seen-some, look_chain-full, look_chain-part}

snoc_cases : (xs : List ℕ) → (xs ≡ []) ⊎ ((ws : List ℕ) × (l : ℕ) × (xs ≡ ws ++ (l ∷ [])))
snoc_cases [] = inl refl
snoc_cases (x ∷ xs) = elim (snoc_cases xs) [
  | inl e ↦ inr ([], x, ap (◌∷◌ x) e)
  | inr (ws, l, e) ↦ inr (x ∷ ws, l, ap (◌∷◌ x) e)
]

-- A successful deletion.
abbrev pub Removes : List Block → List ℕ → ℕ → Type 0
Removes chain xs item =
    (chain' : List Block) × (ys : List ℕ) × (del_chain chain item ≡ some (chain', 0))
    × Holds chain' ys
    × Perm (item ∷ ys) xs

-- From what the search finds to the result.
del_chain-found :
    (chain : List Block) (item : ℕ) (d l : ℕ × ℕ) (r : Option (List Block × ℕ))
    → look_chain item 0 chain (looking none) ≡ record { del = some d; end = some l; temp = 0 }
    → replace_by_last chain (record { del = some d; end = some l; temp = 0 }) d l ≡ r
    → del_chain chain item ≡ r
unfolding del_chain delete_found
del_chain-found chain item d l r e run = ap (delete_found chain) e ∙ run

-- The first free cell does not have the element.
abbrev pub Fresh : List ℕ → ℕ → Type 0
Fresh [] item = Unit
Fresh (old ∷ stale) item = old ≢ item

found_in :
    (b : Block) (xs stale : List ℕ) (item k : ℕ)
    → length xs + length stale ≡ 5
    → b ≡ taken xs ++ free stale
    → 0 < length xs
    → Fresh stale item
    → seen item 0 xs none ≡ some (0, k)
    → look_chain item 0 (b ∷ []) (looking none)
      ≡ record { del = some (0, k); end = some (0, length xs - 1); temp = 0 }
found_in b xs [] item k room e pos fresh at =
    let whole : b ≡ taken xs = e ∙ append-nil (taken xs) in
    let four : 4 ≡ length xs - 1 = omega arith in
    ap (λ c. look_chain item 0 (c ∷ []) (looking none)) whole
    ∙ look_chain-full item xs
    ∙ ap (λ d. record { del = d; end = some (0, 4); temp = 0 }) at
    ∙ ap (λ n. record { del = some (0, k); end = some (0, n); temp = 0 }) four
found_in b xs (old ∷ stale) item k room e pos fresh at =
    let other : (item == old) ≡ false = ground arith in
    ap (λ c. look_chain item 0 (c ∷ []) (looking none)) e
    ∙ look_chain-part item old xs stale (0, k) pos
        (ap (λ t. if t then some (0, length xs) else seen item 0 xs none) other ∙ at)

-- The deletion of an element that is not in the last used cell, and of one that is.
delete_inner :
    (b : Block) (us vs stale : List ℕ) (item l : ℕ)
    → length (us ++ (item ∷ vs)) + 1 + length stale ≡ 5
    → b ≡ taken (us ++ (item ∷ vs)) ++ (cell 1 l ∷ free stale)
    → look_chain item 0 (b ∷ []) (looking none)
      ≡ record { del = some (0, length us); end = some (0, length (us ++ (item ∷ vs))); temp = 0 }
    → Removes (b ∷ []) (us ++ (item ∷ (vs ++ (l ∷ [])))) item
delete_inner b us vs stale item l room e search = (
  (taken (us ++ (l ∷ vs)) ++ (cell 0 l ∷ free stale)) ∷ [],
  us ++ (l ∷ vs),
  del_chain-found (b ∷ []) item (0, length us) (0, length (us ++ (item ∷ vs)))
      (some ((taken (us ++ (l ∷ vs)) ++ (cell 0 l ∷ free stale)) ∷ [], 0)) search
      (rw e (replace_inner us vs item l (free stale) _)),
  last (us ++ (l ∷ vs)) (l ∷ stale)
      (omega (arith, length-append us (l ∷ vs), length-append us (item ∷ vs))) refl,
  Perm.symm (
      Perm.trans (perm_middle us (vs ++ (l ∷ [])))
        (Perm.cons item (Perm.append (Perm.refl us) (perm_append_singleton l vs)))),
)

delete_last :
    (b : Block) (us stale : List ℕ) (item : ℕ)
    → length us + 1 + length stale ≡ 5
    → b ≡ taken us ++ (cell 1 item ∷ free stale)
    → look_chain item 0 (b ∷ []) (looking none)
      ≡ record { del = some (0, length us); end = some (0, length us); temp = 0 }
    → Removes (b ∷ []) (us ++ (item ∷ [])) item
delete_last b us stale item room e search = (
  (taken us ++ (cell 0 item ∷ free stale)) ∷ [],
  us,
  del_chain-found (b ∷ []) item (0, length us) (0, length us)
      (some ((taken us ++ (cell 0 item ∷ free stale)) ∷ [], 0)) search
      (rw e (replace_last us item (free stale) _)),
  last us (item ∷ stale) (omega arith) refl,
  Perm.symm (perm_append_singleton item us),
)

search_ends_at :
    (b : Block) (item k m n : ℕ)
    → look_chain item 0 (b ∷ []) (looking none)
      ≡ record { del = some (0, k); end = some (0, m); temp = 0 }
    → m ≡ n
    → look_chain item 0 (b ∷ []) (looking none)
      ≡ record { del = some (0, k); end = some (0, n); temp = 0 }
search_ends_at b item k m n search e =
    search ∙ ap (λ j. record { del = some (0, k); end = some (0, j); temp = 0 }) e

delete_any :
    (b : Block) (us vs stale : List ℕ) (item : ℕ)
    → length (us ++ (item ∷ vs)) + length stale ≡ 5
    → b ≡ taken (us ++ (item ∷ vs)) ++ free stale
    → Fresh stale item
    → seen item 0 (us ++ (item ∷ vs)) none ≡ some (0, length us)
    → Removes (b ∷ []) (us ++ (item ∷ vs)) item
delete_any b us vs stale item room e fresh at =
    let n = length-append us (item ∷ vs) in
    let search =
      found_in b (us ++ (item ∷ vs)) stale item (length us) room e (omega (arith, n)) fresh at in
    elim (snoc_cases vs) [
      | inl alone ↦
          let e' : b ≡ taken (us ++ (item ∷ [])) ++ free stale = rw alone at e in
          subst (λ l. Removes (b ∷ []) (us ++ (item ∷ l)) item) (sym alone)
            (delete_last b us stale item (omega (arith, n, ap length alone))
              (e' ∙ taken-append us (item ∷ []) (free stale))
              (search_ends_at b item (length us) (length (us ++ (item ∷ vs)) - 1) (length us) search
                (omega (arith, n, ap length alone))))
      | inr (ws, l, more) ↦
          let e' : b ≡ taken (us ++ (item ∷ (ws ++ (l ∷ [])))) ++ free stale = rw more at e in
          let m = length-append us (item ∷ ws) in
          let k = length-append ws (l ∷ []) in
          subst (λ rest. Removes (b ∷ []) (us ++ (item ∷ rest)) item) (sym more)
            (delete_inner b us ws stale item l (omega (arith, n, m, k, ap length more))
              (e'
                ∙ ap (λ c. taken c ++ free stale) (sym (append_assoc us (item ∷ ws) (l ∷ [])))
                ∙ taken-append (us ++ (item ∷ ws)) (l ∷ []) (free stale))
              (search_ends_at b item (length us) (length (us ++ (item ∷ vs)) - 1)
                (length (us ++ (item ∷ ws))) search (omega (arith, n, m, k, ap length more))))
    ]

-- `del_elem` on a chain of one block, for an element of it that does not stand in the first free cell:
-- the call returns 0 and the chain holds the other elements, that element gone once.
pub del_chain-Removes :
    (b : Block) (xs stale : List ℕ) (item : ℕ)
    → length xs + length stale ≡ 5
    → b ≡ taken xs ++ free stale
    → member xs item ≡ true
    → Fresh stale item
    → Removes (b ∷ []) xs item
del_chain-Removes b xs stale item room e there fresh =
    let (us, vs, split, at) = seen-some item 0 xs none there in
    subst (λ l. Removes (b ∷ []) l item) (sym split)
      (delete_any b us vs stale item (rw split at room) (rw split at e) fresh (
        subst (λ l. seen item 0 l none ≡ some (0, length us)) split
          (at ∙ ap (λ n. some (0, n)) (omega arith))))
