-- ===== src/Scanner.antt =====
-- c-study/automaton/float.c: a scanner for numbers. `ahead` is `forward` + 1, which starts at 0; a read
-- outside `cbuf` or a write outside `token_buf` is `none`, and so is a scan that is out of fuel.
pub mod Numbers
pub mod Reading
pub mod Tokens
mod Tests
use chunxiao_code.Prelude.{
  ℕ, zero, suc, ◌+◌, ◌-◌, List, [], ◌∷◌, Option, none, some, Bool, true, false, ◌||◌, ◌&&◌, ◌==◌,
  ltb, leb, get_elem?, if◌then◌else◌,
}
use chunxiao_code.Prelude.Fault.{◌>>=◌}

-- `state`
pub data State : Type 0 where
  s12 : State
  s13 : State
  s14 : State
  s15 : State
  s16 : State
  s17 : State
  s18 : State
  s19 : State

abbrev pub isdigit : ℕ → Bool
isdigit c = leb 48 c && leb c 57

abbrev pub is_e : ℕ → Bool
is_e c = (c == b'e') || (c == b'E')

abbrev pub is_sign : ℕ → Bool
is_sign c = (c == b'+') || (c == b'-')

-- The state after a character, in the states that only read one.
unfoldable pub next_state : State → ℕ → State
next_state s12 c = s12
next_state s13 c = if isdigit c then s13 else if is_e c then s16 else if c == b'.' then s14 else s19
next_state s14 c = if isdigit c then s15 else s14
next_state s15 c = if isdigit c then s15 else if is_e c then s16 else s19
next_state s16 c = if isdigit c then s18 else if is_sign c then s17 else s16
next_state s17 c = if isdigit c then s18 else s17
next_state s18 c = if isdigit c then s18 else s19
next_state s19 c = s19

-- `token_buf` has 128 cells, one of them for the end.
abbrev pub token_size : ℕ
token_size = 128

-- n characters from `at` on.
unfoldable pub copy : List ℕ → ℕ → ℕ → Option (List ℕ)
copy cbuf at zero = some []
copy cbuf at (suc n) = do c ← get_elem? cbuf at; token ← copy cbuf (at + 1) n; some (c ∷ token)

-- `gettoken`: the characters from `start` to `forward`.
unfoldable pub gettoken : List ℕ → ℕ → ℕ → Option (List ℕ)
unfolding copy
gettoken cbuf start ahead =
    if ltb (ahead - start) token_size then copy cbuf start (ahead - start) else none

-- The loop of `nexttoken` on fuel: the token, and `ahead` behind it.
unfoldable pub scan : ℕ → List ℕ → State → ℕ → ℕ → Option (List ℕ × ℕ)
unfolding next_state gettoken
scan zero cbuf state ahead start = none
scan (suc f) cbuf state ahead start = elim state [
  | s19 ↦ gettoken cbuf start (ahead - 1) >>= λ token. some (token, ahead - 1)
  | s12 ↦ get_elem? cbuf ahead >>= λ c.
      if isdigit c then scan f cbuf s13 (ahead + 1) ahead else scan f cbuf s12 (ahead + 2) ahead
  | s ↦ get_elem? cbuf ahead >>= λ c. scan f cbuf (next_state s c) (ahead + 1) start
]

unfoldable pub nexttoken : ℕ → List ℕ → ℕ → ℕ → Option (List ℕ × ℕ)
unfolding scan
nexttoken fuel cbuf ahead start = scan fuel cbuf s12 ahead start
