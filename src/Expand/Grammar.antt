-- ===== src/Expand/Grammar.antt =====
-- The strings that `l7_pattern_expand` makes, and one round of its loop.
use chunxiao_code.Prelude.{
  ℕ, zero, suc, ◌+◌, ◌≡◌, refl, ap, ◌∙◌, List, [], ◌∷◌, ◌++◌, Option, some, Bool, Bool-cases, inl,
  inr, true, false, ◌&&◌, ◌||◌, ◌==◌, ltb, length, length-append, length-replicate, drop, get_elem?,
  set, replicate, arith, if◌then◌else◌,
}
use chunxiao_code.Prelude.Fault.{◌>>=◌}
use chunxiao_code.Expand.{is_label, quotes, put, expand_from}

-- The characters that the comment beside the switch lists, a space among them: `^ $[]{}()<>\*.?+|`.
abbrev pub listed : List ℕ
listed =
    b'\\' ∷ b'^' ∷ b' ' ∷ b'$' ∷ b'[' ∷ b']' ∷ b'{' ∷ b'}' ∷ b'(' ∷ b')' ∷ b'<' ∷ b'>' ∷ b'*' ∷ b'.'
    ∷ b'?' ∷ b'+' ∷ b'|' ∷ []

abbrev pub one_of : ℕ → List ℕ → Bool
one_of c [] = false
one_of c (d ∷ ds) = c == d || one_of c ds

-- The characters that are to get a backslash.
abbrev pub special : ℕ → Bool
special c = one_of c listed

-- The test of the code.
abbrev pub marked_by : ℕ → Bool
marked_by c = c == b'\\' || is_label c

or_nothing : (b : Bool) → (b || false) ≡ b
or_nothing true = refl
or_nothing false = refl

or_assoc : (a b d : Bool) → (a || b) || d ≡ a || (b || d)
or_assoc true b d = refl
or_assoc false b d = refl

pub special-marked_by : (c : ℕ) → special c ≡ marked_by c
special-marked_by c = simp (or_assoc, or_nothing)

-- `out` is the text with a backslash in front of the special characters and no others.
pub data Escaped : List ℕ → List ℕ → Type 0 where
  over : Escaped [] []
  plain :
      {c : ℕ} {out text : List ℕ}
      → special c ≡ false
      → Escaped out text
      → Escaped (c ∷ out) (c ∷ text)
  escape :
      {c : ℕ} {out text : List ℕ}
      → special c ≡ true
      → Escaped out text
      → Escaped (b'\\' ∷ c ∷ out) (c ∷ text)

abbrev pub begins_quote : List ℕ → Bool
begins_quote [] = false
begins_quote (d ∷ cs) = d == b'"'

-- The text without the backslashes that stand in front of a double quote.
abbrev pub unquoted : List ℕ → List ℕ
unquoted [] = []
unquoted (c ∷ cs) =
    let rest = unquoted cs in if c == b'\\' && begins_quote cs then rest else c ∷ rest

-- No character ends the string.
abbrev pub AllSet : List ℕ → Type 0
AllSet [] = Unit
AllSet (c ∷ cs) = ((c == 0) ≡ false) × AllSet cs

pub get_elem?-drop :
    (s xs : List ℕ) (j c : ℕ) → drop j s ≡ c ∷ xs → (get_elem? s j ≡ some c) × (drop (j + 1) s ≡ xs)
get_elem?-drop [] xs zero c e = absurd cc
get_elem?-drop [] xs (suc j) c e = absurd cc
get_elem?-drop (x ∷ s) xs zero c e = (ap (λ l. get_elem? l 0) e, ap (drop 1) e)
get_elem?-drop (x ∷ s) xs (suc j) c e =
    let (at, behind) = get_elem?-drop s xs j c e in
    let n : suc j + 1 ≡ suc (j + 1) = omega arith in (at, ap (λ n. drop n (x ∷ s)) n ∙ behind)

set-next :
    (done : List ℕ) (left c : ℕ)
    → set (done ++ replicate (suc left) 0) (length done) c ≡ (done ++ (c ∷ [])) ++ replicate left 0
set-next [] left c = refl
set-next (d ∷ done) left c = ap (◌∷◌ d) (set-next done left c)

pub put-next :
    (done : List ℕ) (left i c : ℕ)
    → i ≡ length done
    → put (done ++ replicate (suc left) 0) i c ≡ some ((done ++ (c ∷ [])) ++ replicate left 0)
put-next done left i c e =
    let size : length (done ++ replicate (suc left) 0) ≡ length done + suc left =
      length-append done (replicate (suc left) 0)
      ∙ ap (λ n. length done + n) (length-replicate (suc left) 0) in
    let room : ltb i (length (done ++ replicate (suc left) 0)) ≡ true = ground (arith, size, e) in
    rw room (ap some (ap (λ n. set (done ++ replicate (suc left) 0) n c) e ∙ set-next done left c))

pub quotes-begins :
    (string cs spare : List ℕ) (j c : ℕ)
    → drop (j + 1) string ≡ cs ++ (0 ∷ spare)
    → quotes string j c ≡ some (c == b'\\' && begins_quote cs)
quotes-begins string [] spare j c e =
    let at = (get_elem?-drop string spare (j + 1) 0 e).0 in
    elim (Bool-cases (c == b'\\')) [ inl is ↦ rw (is, at) refl | inr not ↦ rw not refl ]
quotes-begins string (d ∷ cs) spare j c e =
    let at = (get_elem?-drop string (cs ++ (0 ∷ spare)) (j + 1) d e).0 in
    elim (Bool-cases (c == b'\\')) [ inl is ↦ rw (is, at) refl | inr not ↦ rw not refl ]

-- One round, by what it reads.
abbrev pub after : ℕ → List ℕ → ℕ → ℕ → List ℕ → ℕ → Bool → Option (List ℕ)
after f string i j buf c quoted = elim quoted [
  | true ↦ expand_from f string i (j + 1) buf
  | false ↦ elim (marked_by c) [
    | true ↦ put buf i b'\\' >>= λ buf₁.
        put buf₁ (i + 1) c >>= λ buf₂. expand_from f string (i + 2) (j + 1) buf₂
    | false ↦ put buf i c >>= λ buf₁. expand_from f string (i + 1) (j + 1) buf₁
  ]
]

pub round :
    (f : ℕ) (string : List ℕ) (i j : ℕ) (buf : List ℕ) (c : ℕ) (quoted : Bool)
    → get_elem? string j ≡ some c
    → (c == 0) ≡ false
    → quotes string j c ≡ some quoted
    → expand_from (suc f) string i j buf ≡ after f string i j buf c quoted
unfolding expand_from
round f string i j buf c quoted at ne q =
    ap
      (λ m. m >>= λ c'. elim (c' == 0) [
        | true ↦ some buf
        | false ↦ quotes string j c' >>= λ q'. after f string i j buf c' q'
      ])
      at
    ∙ ap
        (λ b. elim b [
          | true ↦ some buf
          | false ↦ quotes string j c >>= λ q'. after f string i j buf c q'
        ])
        ne
    ∙ ap (λ m. m >>= λ q'. after f string i j buf c q') q

pub last_round :
    (f : ℕ) (string : List ℕ) (i j : ℕ) (buf : List ℕ)
    → get_elem? string j ≡ some 0
    → expand_from (suc f) string i j buf ≡ some buf
unfolding expand_from
last_round f string i j buf at = rw at refl
