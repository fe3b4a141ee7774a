-- ===== src/Expand.antt =====
-- c-study/leetcode/a.c: the characters of a string that mean something in a pattern get a backslash in
-- front. An array is the list of its characters; an access outside an array is a fault, `none`, as is
-- a loop out of fuel. strcpy is a parameter.
pub mod Grammar
pub mod Escaped
pub mod Whole
mod Tests
use chunxiao_code.Prelude.{
  ℕ, zero, suc, ◌+◌, List, [], ◌∷◌, Option, none, some, Bool, true, false, ◌||◌, ◌==◌, ltb, length,
  get_elem?, set, replicate, if◌then◌else◌,
}
use chunxiao_code.Prelude.Fault.{◌>>=◌}

-- The labels of the `switch` but the first one.
abbrev pub is_label : ℕ → Bool
is_label c =
    c == b'^'
    || c == b' '
    || c == b'$'
    || c == b'['
    || c == b']'
    || c == b'{'
    || c == b'}'
    || c == b'('
    || c == b')'
    || c == b'<'
    || c == b'>'
    || c == b'*'
    || c == b'.'
    || c == b'?'
    || c == b'+'
    || c == b'|'

-- Does the backslash at j stand in front of a double quote?
abbrev pub quotes : List ℕ → ℕ → ℕ → Option Bool
quotes string j c =
    if c == b'\\' then (get_elem? string (j + 1) >>= λ d. some (d == b'"')) else some false

-- `buf[i] = c`
abbrev pub put : List ℕ → ℕ → ℕ → Option (List ℕ)
put buf i c = if ltb i (length buf) then some (set buf i c) else none

-- The loop: what `buf` holds in the end.
unfoldable pub expand_from : ℕ → List ℕ → ℕ → ℕ → List ℕ → Option (List ℕ)
expand_from zero string i j buf = none
expand_from (suc f) string i j buf = do
  c ← get_elem? string j
  elim (c == 0) [
    | true ↦ some buf
    | false ↦ quotes string j c >>= λ quoted. elim quoted [
      | true ↦ expand_from f string i (j + 1) buf
      | false ↦ elim (c == b'\\' || is_label c) [
        | true ↦ put buf i b'\\' >>= λ buf₁.
            put buf₁ (i + 1) c >>= λ buf₂. expand_from f string (i + 2) (j + 1) buf₂
        | false ↦ put buf i c >>= λ buf₁. expand_from f string (i + 1) (j + 1) buf₁
      ]
    ]
  ]

-- `l7_pattern_expand` with the array behind `strcpy(string, buf)`. Each round reads the next character.
unfoldable pub l7_pattern_expand : (List ℕ → List ℕ → Option (List ℕ)) → List ℕ → Option (List ℕ)
unfolding expand_from
l7_pattern_expand strcpy string = do
  buf ← expand_from (suc (length string)) string 0 0 (replicate 512 0)
  strcpy string buf
