-- ===== src/Expand/Whole.antt =====
-- `l7_pattern_expand` on a string that is short enough.
use chunxiao_code.Prelude.{
  ℕ, suc, ◌+◌, ◌-◌, ◌≤◌, ◌<◌, ◌≡◌, refl, ap, ◌∙◌, List, [], ◌∷◌, ◌++◌, Option, some, Bool-cases,
  inl, inr, ◌&&◌, ◌==◌, length, length-append, drop, replicate, arith,
}
use chunxiao_code.Prelude.Fault.{◌>>=◌}
use chunxiao_code.Expand.{expand_from, l7_pattern_expand}
use chunxiao_code.Expand.Grammar.{Escaped, over, plain, escape, unquoted, begins_quote, AllSet}
use chunxiao_code.Expand.Escaped.{expand_from-Writes}

-- What the manual says of `strcpy`: a string that fits is put, with its end, over the first characters.
abbrev pub Copies : (List ℕ → List ℕ → Option (List ℕ)) → Type 0
Copies strcpy =
    (dst text rest : List ℕ)
    → AllSet text
    → length text < length dst
    → strcpy dst (text ++ (0 ∷ rest)) ≡ some (text ++ (0 ∷ drop (suc (length text)) dst))

unquoted-AllSet : (text : List ℕ) → AllSet text → AllSet (unquoted text)
unquoted-AllSet [] h = tt
unquoted-AllSet (c ∷ cs) (h, hs) = elim (Bool-cases (c == b'\\' && begins_quote cs)) [
  | inl quoted ↦ rw quoted (unquoted-AllSet cs hs)
  | inr bare ↦ rw bare (h, unquoted-AllSet cs hs)
]

Escaped-AllSet : {out text : List ℕ} → Escaped out text → AllSet text → AllSet out
Escaped-AllSet over h = tt
Escaped-AllSet (plain normal e) (h, hs) = (h, Escaped-AllSet e hs)
Escaped-AllSet (escape marked e) (h, hs) = (refl, (h, Escaped-AllSet e hs))

-- On a string of fewer than 256 characters, in an array with as many characters behind its end as
-- the string has, and with strcpy as documented: l7_pattern_expand ends inside its arrays and
-- leaves the string, without the backslashes in front of double quotes, with one backslash in
-- front of each space and each of the characters ^$[]{}()<>\*.?+| and of no other; what stands
-- behind its end in the array is as before.
pub l7_pattern_expand-Escaped :
    (strcpy : List ℕ → List ℕ → Option (List ℕ)) (text spare : List ℕ)
    → Copies strcpy
    → AllSet text
    → length text < 256
    → length text ≤ length spare
    → (out : List ℕ) × Escaped out (unquoted text)
      × (l7_pattern_expand strcpy (text ++ (0 ∷ spare))
          ≡ some (out ++ (0 ∷ drop (suc (length out)) (text ++ (0 ∷ spare)))))
unfolding l7_pattern_expand
l7_pattern_expand-Escaped strcpy text spare copies set_all short room =
    let string = text ++ (0 ∷ spare) in
    let size : length string ≡ length text + suc (length spare) = length-append text (0 ∷ spare) in
    let w =
      expand_from-Writes (suc (length string)) string text spare [] 0 0 512 refl set_all
        (omega (arith, size)) refl (omega (arith, short)) in
    let n : ℕ = w.free - 1 in
    let free : w.free ≡ suc n = omega (arith, w.room, w.short, short) in
    let wrote : expand_from (suc (length string)) string 0 0 (replicate 512 0)
        ≡ some (w.out ++ (0 ∷ replicate n 0)) =
      w.wrote ∙ ap (λ k. some (w.out ++ replicate k 0)) free in
    (
      w.out,
      w.escaped,
      ap (λ m. m >>= strcpy string) wrote
          ∙ copies string (w.out) (replicate n 0)
              (Escaped-AllSet (w.escaped) (unquoted-AllSet text set_all))
              (omega (arith, size, room, w.short)),
    )
