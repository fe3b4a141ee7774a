-- ===== src/Expand/Tests.antt =====
-- Some strings, and the theorem at one of them.
use chunxiao_code.Prelude.{
  ℕ, suc, ◌≡◌, ◌∙◌, refl, ap, List, [], ◌∷◌, ◌++◌, Option, none, some, ◌==◌, true, false, length,
  drop, replicate, arith,
}
use chunxiao_code.Prelude.Fault.{◌>>=◌}
use chunxiao_code.Expand.{expand_from, l7_pattern_expand}
use chunxiao_code.Expand.Grammar.{Escaped, unquoted}
use chunxiao_code.Expand.Whole.{Copies, l7_pattern_expand-Escaped}

-- `strcpy` by its description.
abbrev copied : List ℕ → List ℕ → Option (List ℕ)
copied [] src = none
copied (d ∷ dst) [] = none
copied (d ∷ dst) (c ∷ src) = elim (c == 0) [
  | true ↦ some (0 ∷ dst)
  | false ↦ copied dst src >>= λ rest. some (c ∷ rest)
]

copied-Copies : Copies copied
copied-Copies [] text rest h lt = absurd (omega arith)
copied-Copies (d ∷ dst) [] rest h lt = refl
copied-Copies (d ∷ dst) (c ∷ text) rest (h, hs) lt =
    ap
      (λ b. elim b [
        | true ↦ some (0 ∷ dst)
        | false ↦ copied dst (text ++ (0 ∷ rest)) >>= λ r. some (c ∷ r)
      ])
      h
    ∙ ap (λ m. m >>= λ r. some (c ∷ r)) (copied-Copies dst text rest hs (omega arith))

-- The string of `main`.
expand-of_main :
    l7_pattern_expand copied (b'^' ∷ b'a' ∷ b'a' ∷ b'a' ∷ replicate 8 0)
    ≡ some (b'\\' ∷ b'^' ∷ b'a' ∷ b'a' ∷ b'a' ∷ replicate 7 0)
unfolding l7_pattern_expand expand_from
expand-of_main = refl

-- The array has no room for the backslash.
expand-of_full : l7_pattern_expand copied (b'*' ∷ 0 ∷ []) ≡ none
unfolding l7_pattern_expand expand_from
expand-of_full = refl

abbrev quoted : List ℕ
quoted = b'\\' ∷ b'"' ∷ b'.' ∷ []

l7_pattern_expand-Escaped_example :
    (out : List ℕ) × Escaped out (unquoted quoted)
    × (l7_pattern_expand copied (quoted ++ (0 ∷ replicate 3 7))
        ≡ some (out ++ (0 ∷ drop (suc (length out)) (quoted ++ (0 ∷ replicate 3 7)))))
l7_pattern_expand-Escaped_example =
    l7_pattern_expand-Escaped copied quoted (replicate 3 7) copied-Copies (refl, (refl, (refl, tt)))
      (omega arith) (omega arith)
