-- ===== src/StrMatch/Kmp/Table.antt =====
-- `cal_next` computes the table of longest borders. The central fact is about `advance`, one round
-- of either loop: it keeps the longest prefix of the pattern that ends at the current place.
use chunxiao_code.Prelude.{
  ℕ, zero, suc, ◌+◌, ◌-◌, ◌≤◌, ◌<◌, ◌≡◌, ◌≢◌, refl, sym, ◌∙◌, ◌⊎◌, inl, inr, List, [], ◌∷◌, ◌++◌,
  some, arith, length, get_elem?-eq-get_or, get_or-append_left, get_or-append_last, length-append,
  ◌==◌, ==_iff, Bool-cases, dec_lt,
}
use mathlib.Core.Path.{subst}
use chunxiao_code.StrMatch.Kmp.{fallback, advance, cal_next_loop, cal_next}
use chunxiao_code.StrMatch.Kmp.Occurs.{
  ◌!◌, EndsAt, Longest, IsTable, EndsAt-border, EndsAt-trans, EndsAt-suc, EndsAt-pred, EndsAt-zero,
}

-- What the inner `while` leaves: the longest candidate that the character `c` extends, or none.
record FallsTo (p s : List ℕ) (i c k r : ℕ) : Type 0 where
  ends : EndsAt p s i r
  below : r ≤ k
  hit : (r ≡ 0) ⊎ (p ! r ≡ c)
  longest : (k' : ℕ) → k' ≤ k → EndsAt p s i k' → p ! k' ≡ c → k' ≤ r

-- A cell of the table, by the number of characters less one.
cell :
    (p next : List ℕ) (k : ℕ)
    → IsTable p next
    → k < length next
    → Longest p p (suc k) (suc k) (next ! k)
cell p next k table h =
    subst (λ m. Longest p p (suc k) (suc k) (next ! m)) {x = suc k - 1} (omega arith)
      (table (suc k) (omega arith) h)

-- A miss leaves the candidates at or below the border of the one that missed.
FallsTo-miss :
    (p s : List ℕ) (i c k b r : ℕ)
    → EndsAt p s i (suc k)
    → p ! suc k ≢ c
    → Longest p p (suc k) (suc k) b
    → FallsTo p s i c b r
    → FallsTo p s i c (suc k) r
FallsTo-miss p s i c k b r e ne border falls = record {
  ends = falls.ends;
  below = omega (arith, falls.below, border.short);
  hit = falls.hit;
  longest = λ k' le e' eq.
      let less : k' ≢ suc k = λ same. ne (subst (λ m. p ! m ≡ c) same eq) in
      falls.longest k' (border.longest k' (EndsAt-border p s i (suc k) k' e e' le) (omega arith)) e'
        eq;
}

module _ (p next s : List ℕ) (table : IsTable p next) (i c : ℕ) where
  -- The loop reads inside its arrays, ends with the fuel that it has, and finds that candidate.
  fallback-FallsTo :
      (f k : ℕ)
      → k < f
      → k ≤ length next
      → k < length p
      → EndsAt p s i k
      → (r : ℕ) × (fallback f p next c k ≡ some r) × FallsTo p s i c k r
  unfolding fallback
  fallback-FallsTo zero k h hn hp e = absurd (omega arith)
  fallback-FallsTo (suc f) zero h hn hp e = (
    zero,
    refl,
    record { ends = e; below = omega arith; hit = inl refl; longest = λ k' le _ _. le },
  )
  fallback-FallsTo (suc f) (suc k) h hn hp e = elim (Bool-cases (p ! suc k == c)) [
    | inl eq ↦ (
      suc k,
      rw (get_elem?-eq-get_or p (suc k) 0 hp, eq),
      record {
        ends = e;
        below = omega arith;
        hit = inr ((==_iff (p ! suc k) c).0 eq);
        longest = λ k' le _ _. le;
      },
    )
    | inr ne ↦
        let border = cell p next k table hn in
        let (r, runs, falls) =
          fallback-FallsTo f (next ! k) (omega (arith, border.short)) (omega (arith, border.short))
            (omega (arith, border.short)) (EndsAt-trans p s i (suc k) (next ! k) e border.ends) in
        (
          r,
          rw (get_elem?-eq-get_or p (suc k) 0 hp, ne, get_elem?-eq-get_or next k 0 hn) runs,
          FallsTo-miss p s i c k (next ! k) r e (λ eq. cc (ne, (==_iff (p ! suc k) c).1 eq)) border
              falls,
        )
  ]

-- A prefix that ends after `c` is empty, or extends a candidate before it.
module _ (p s : List ℕ) (lim i c k r : ℕ) (at : s ! i ≡ c) (l : Longest p s lim i k)
    (falls : FallsTo p s i c k r) where
  candidate :
      (k' : ℕ)
      → EndsAt p s (i + 1) k'
      → k' < lim + 1
      → (k' ≡ 0) ⊎ ((m : ℕ) × (k' ≡ m + 1) × (m ≤ r) × (p ! m ≡ c))
  candidate zero e h = inl refl
  candidate (suc m) e h =
      let (before, eq) = EndsAt-pred p s i m e in
      inr (
        m,
        omega arith,
        falls.longest m (l.longest m before (omega arith)) before (eq ∙ at),
        eq ∙ at,
      )

  Longest-hit : p ! r ≡ c → Longest p s (lim + 1) (i + 1) (r + 1)
  Longest-hit eq = record {
    ends = EndsAt-suc p s i r falls.ends (eq ∙ sym at);
    short = omega (arith, falls.below, l.short);
    longest = λ k' e h. elim (candidate k' e h) [
      | inl z ↦ omega arith
      | inr (m, eq, le, _) ↦ omega arith
    ];
  }

  Longest-miss : p ! r ≢ c → (r ≡ 0) × Longest p s (lim + 1) (i + 1) 0
  Longest-miss ne = (
    zero_left,
    record {
      ends = EndsAt-zero p s (i + 1);
      short = omega arith;
      longest = λ k' e h. elim (candidate k' e h) [
        | inl eq ↦ omega arith
        | inr (m, eq, le, hit) ↦
            absurd (ne (subst (λ n. p ! n ≡ c) {x = m} (omega (arith, zero_left)) hit))
      ];
    },
  )
    where
      zero_left : r ≡ 0
      zero_left = elim falls.hit [ inl z ↦ z | inr hit ↦ absurd (ne hit) ]

-- One round keeps the longest prefix that ends at the current place, with a bound one higher.
pub advance-Longest :
    (p next s : List ℕ) (table : IsTable p next) (lim i c k : ℕ)
    → k ≤ length next
    → k < length p
    → s ! i ≡ c
    → Longest p s lim i k
    → (r : ℕ) × (advance p next c k ≡ some r) × Longest p s (lim + 1) (i + 1) r
unfolding advance
advance-Longest p next s table lim i c k hn hp at l =
    let (r, runs, falls) =
      fallback-FallsTo p next s table i c (suc k) k (omega arith) hn hp l.ends in
    let inside : r < length p = omega (arith, falls.below) in
    elim (Bool-cases (p ! r == c)) [
      | inl eq ↦ (
        r + 1,
        rw (runs, get_elem?-eq-get_or p r 0 inside, eq),
        Longest-hit p s lim i c k r at l falls ((==_iff (p ! r) c).0 eq),
      )
      | inr ne ↦
          let (z, longest) =
            Longest-miss p s lim i c k r at l falls (λ eq. cc (ne, (==_iff (p ! r) c).1 eq)) in
          (r, rw (runs, get_elem?-eq-get_or p r 0 inside, ne), rw z longest)
    ]

-- The table with one more cell.
IsTable-append :
    (p next : List ℕ) (q k : ℕ)
    → q ≡ length next
    → IsTable p next
    → Longest p p (q + 1) (q + 1) k
    → IsTable p (next ++ (k ∷ []))
IsTable-append p next q k e table l j pos le = elim (dec_lt (j - 1) (length next)) [
  | yes lt ↦ rw (get_or-append_left next (k ∷ []) (j - 1) 0 lt) (table j pos (omega arith))
  | no ge ↦
      let last : j ≡ q + 1 = omega (arith, length-append next (k ∷ [])) in
      rw (get_or-append_last next k (j - 1) 0 (omega arith), last) l
]

cal_next_loop-IsTable :
    (p : List ℕ) (n q k : ℕ) (next : List ℕ)
    → q + n ≡ length p
    → 0 < q
    → q ≡ length next
    → IsTable p next
    → Longest p p q q k
    → (out : List ℕ) × (cal_next_loop n p q k next ≡ some out)
      × (length out ≡ length p)
      × IsTable p out
unfolding cal_next_loop
cal_next_loop-IsTable p zero q k next e pos len table l = (next, refl, omega arith, table)
cal_next_loop-IsTable p (suc n) q k next e pos len table l =
    let (r, runs, l') =
      advance-Longest p next p table q q (p ! q) k (omega (arith, l.short)) (omega (arith, l.short))
        refl l in
    let (out, loops, len', table') =
      cal_next_loop-IsTable p n (q + 1) r (next ++ (r ∷ [])) (omega arith) (omega arith)
        (omega (arith, length-append next (r ∷ []))) (IsTable-append p next q r len table l') l' in
    (out, rw (get_elem?-eq-get_or p q 0 (omega arith), runs) loops, len', table')

IsTable-one : (p : List ℕ) → IsTable p (0 ∷ [])
IsTable-one p j pos le =
    let one : j ≡ 1 = omega arith in
    rw one record { ends = EndsAt-zero p p 1; short = omega arith; longest = λ k' e h. omega arith }

-- For a pattern that is not empty, cal_next reads and writes inside its arrays, ends, and fills
-- one cell for each character: cell j - 1 belongs to the longest proper border of the first j
-- characters. The model holds its length, where the source holds the length less one.
pub cal_next-IsTable :
    (p : List ℕ)
    → p ≢ []
    → (next : List ℕ) × (cal_next p ≡ some next) × (length next ≡ length p) × IsTable p next
unfolding cal_next
cal_next-IsTable [] h = absurd (h refl)
cal_next-IsTable (x ∷ xs) h =
    cal_next_loop-IsTable (x ∷ xs) (length xs) 1 0 (0 ∷ []) (omega arith) (omega arith)
      (omega arith) (IsTable-one (x ∷ xs))
      record {
        ends = EndsAt-zero (x ∷ xs) (x ∷ xs) 1;
        short = omega arith;
        longest = λ k' e h'. omega arith;
      }
