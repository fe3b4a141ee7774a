-- ===== src/StrMatch/Kmp/Search.antt =====
-- `KMP` finds the first occurrence of the pattern, for every text and every pattern that is not
-- empty.
use mathlib.Core.Path.{subst}
use chunxiao_code.Prelude.{
  ℕ, suc, ◌+◌, ◌-◌, ◌≤◌, ◌<◌, ◌≡◌, ◌≢◌, refl, sym, ap, ◌∙◌, inl, inr, List, [], ◌∷◌, some, arith,
  length, get_elem?-eq-get_or, ◌==◌, ==_iff, Bool-cases, dec_lt,
}
use chunxiao_code.Prelude.Int.{ℤ, pos, negsuc}
use chunxiao_code.StrMatch.Kmp.{kmp_loop, kmp}
use chunxiao_code.StrMatch.Kmp.Occurs.{◌!◌, EndsAt, Longest, IsTable, OccursAt, Finds, EndsAt-zero}
use chunxiao_code.StrMatch.Kmp.Table.{advance-Longest, cal_next-IsTable}

OccursAt-EndsAt : (p s : List ℕ) (i : ℕ) → OccursAt p s i → EndsAt p s (i + length p) (length p)
OccursAt-EndsAt p s i (fits, same) = record {
  fits = omega arith;
  same = λ j h.
      let read : p ! j ≡ s ! (i + j) =
        cc (get_elem?-eq-get_or p j 0 h, same j h, get_elem?-eq-get_or s (i + j) 0 (omega arith)) in
      read ∙ ap (◌!◌ s) (omega arith);
}

EndsAt-OccursAt :
    (p s : List ℕ) (e : ℕ) → e ≤ length s → EndsAt p s e (length p) → OccursAt p s (e - length p)
EndsAt-OccursAt p s e le h = (
  omega (arith, h.fits),
  λ j lt.
      get_elem?-eq-get_or s (e - length p + j) 0 (omega (arith, h.fits))
      ∙ ap some (sym (h.same j lt))
      ∙ sym (get_elem?-eq-get_or p j 0 lt),
)

module _ (p next s : List ℕ) (table : IsTable p next) (full : length next ≡ length p) where
  -- No occurrence ends at or before `i`.
  abbrev NoneBefore : ℕ → Type 0
  NoneBefore i = (i' : ℕ) → i' + length p ≤ i → OccursAt p s i' → ⊥

  -- `rest` is what of the text stands from index `i` on.
  abbrev IsRest : List ℕ → ℕ → Type 0
  IsRest rest i = (i + length rest ≡ length s) × ((j : ℕ) → rest ! j ≡ s ! (i + j))

  IsRest-tail : (c : ℕ) (rest : List ℕ) (i : ℕ) → IsRest (c ∷ rest) i → IsRest rest (i + 1)
  IsRest-tail c rest i (len, at) = (omega arith, λ j. at (suc j) ∙ ap (◌!◌ s) (omega arith))

  -- One more character with no full match: still none.
  NoneBefore-suc :
      (i r : ℕ)
      → NoneBefore i
      → Longest p s (length p + 1) (i + 1) r
      → r ≢ length p
      → NoneBefore (i + 1)
  NoneBefore-suc i r none l ne i' le occ = elim (dec_lt i (i' + length p)) [
    | no before ↦ none i' (omega arith) occ
    | yes here ↦
        let ends : EndsAt p s (i + 1) (length p) =
          subst (λ e. EndsAt p s e (length p)) (omega arith) (OccursAt-EndsAt p s i' occ) in
        absurd (ne (omega (arith, l.longest (length p) ends (omega arith), l.short)))
  ]

  kmp_loop-Finds :
      (rest : List ℕ) (i k : ℕ)
      → IsRest rest i
      → Longest p s (length p) i k
      → NoneBefore i
      → (r : ℤ) × (kmp_loop p next rest i k ≡ some r) × Finds p s r
  unfolding kmp_loop
  kmp_loop-Finds [] i k (len, at) l none =
      (negsuc 0, refl, (refl, λ i' occ. none i' (omega (arith, occ.0)) occ))
  kmp_loop-Finds (c ∷ rest) i k is l none =
      let (r, runs, l') =
        advance-Longest p next s table (length p) i c k (omega (arith, l.short)) l.short
          (ap (◌!◌ s) {x = i} (omega arith) ∙ sym (is.1 0)) l in
      elim (Bool-cases (r == length p)) [
        | inl eq ↦
            let hit : r ≡ length p = (==_iff r (length p)).0 eq in
            (
              pos (i + 1 - length p),
              rw (runs, eq),
              (
                EndsAt-OccursAt p s (i + 1) (omega (arith, is.0)) (rw hit at l'.ends),
                λ i' lt occ. none i' (omega arith) occ,
              ),
            )
        | inr ne ↦
            let miss : r ≢ length p = λ e. cc (ne, (==_iff r (length p)).1 e) in
            let (out, loops, finds) =
              kmp_loop-Finds rest (i + 1) r (IsRest-tail c rest i is)
                record {
                  ends = l'.ends;
                  short = omega (arith, l'.short);
                  longest = λ k' e h. l'.longest k' e (omega arith);
                }
                (NoneBefore-suc i r none l' miss) in
            (out, rw (runs, ne) loops, finds)
      ]

-- For every text and every pattern that is not empty, `KMP` stays inside its arrays, ends, and
-- returns the index of the first occurrence of the pattern in the text, or -1 exactly if there is
-- none.
pub kmp-Finds : (s p : List ℕ) → p ≢ [] → (r : ℤ) × (kmp s p ≡ some r) × Finds p s r
unfolding kmp
kmp-Finds s p h =
    let (next, runs, full, table) = cal_next-IsTable p h in
    let (r, loops, finds) =
      kmp_loop-Finds p next s table full s 0 0 (omega arith, λ j. ap (◌!◌ s) (omega arith))
        record { ends = EndsAt-zero p s 0; short = nonempty p h; longest = λ k' e lt. e.fits }
        (λ i' le occ. absurd (omega (arith, nonempty p h))) in
    (r, rw runs loops, finds)
  where
    nonempty : (xs : List ℕ) → xs ≢ [] → 0 < length xs
    nonempty [] ne = absurd (ne refl)
    nonempty (x ∷ xs) ne = omega arith
