-- ===== src/Brainfuck/Skips.antt =====
-- A loop of brainfuck1.c whose cell is zero at its start.
use mathlib.Core.List.{append_assoc}
use chunxiao_code.Prelude.{
  ℕ, suc, ◌+◌, ◌<◌, ◌≡◌, refl, ap, sym, ◌∙◌, List, [], ◌∷◌, ◌++◌, Option, none, some, Bool-cases,
  inl, inr, false, ◌==◌, arith, length, length-append, get_elem?,
}
use chunxiao_code.Prelude.Fault.{◌>>=◌}
use chunxiao_code.Brainfuck.{Tape, here, skip, from, exec, round, run, vm_while_entry}
use chunxiao_code.Brainfuck.Loops.{suc_ne}
use chunxiao_code.Brainfuck.Rounds.{vm_at, run-round}

-- Code in which the brackets match.
pub data Balanced : List ℕ → Type 0 where
  nil : Balanced []
  plain :
      {code : List ℕ} (c : ℕ)
      → 0 < c
      → ((c == b'[') ≡ false)
      → ((c == b']') ≡ false)
      → Balanced code
      → Balanced (c ∷ code)
  pair :
      {all : List ℕ} (inner code : List ℕ)
      → Balanced inner
      → Balanced code
      → all ≡ b'[' ∷ (inner ++ (b']' ∷ code))
      → Balanced all

abbrev plus : ℕ → Option ℕ → Option ℕ
plus k o = o >>= λ n. some (n + k)

plus-plus : (j k : ℕ) (o : Option ℕ) → plus j (plus k o) ≡ plus (k + j) o
plus-plus j k none = refl
plus-plus j k (some n) = ap some (omega arith)

plus-four :
    (i j k l : ℕ) (o : Option ℕ) → plus i (plus j (plus k (plus l o))) ≡ plus (l + k + j + i) o
plus-four i j k l none = refl
plus-four i j k l (some n) = ap some (omega arith)

plus-zero : (o : Option ℕ) → plus 0 o ≡ o
plus-zero none = refl
plus-zero (some n) = ap some (omega arith)

skip-plain :
    (x c : ℕ) (code : List ℕ)
    → 0 < x
    → ((x == b'[') ≡ false)
    → ((x == b']') ≡ false)
    → skip (x ∷ code) (suc c) ≡ plus 1 (skip code (suc c))
unfolding skip
skip-plain x c code more open_at close_at =
    let other : (x == 0) ≡ false = ground arith in
    rw (skip, other, open_at, close_at, suc_ne c) refl

skip-open : (c : ℕ) (code : List ℕ) → skip (b'[' ∷ code) (suc c) ≡ plus 1 (skip code (suc (suc c)))
unfolding skip
skip-open c code = rw (skip, suc_ne c) (ap (λ k. plus 1 (skip code k)) (omega arith))

skip-close : (c : ℕ) (code : List ℕ) → skip (b']' ∷ code) (suc c) ≡ plus 1 (skip code c)
unfolding skip
skip-close c code = rw (skip, suc_ne c) (ap (λ k. plus 1 (skip code k)) (omega arith))

skip-Balanced :
    {code : List ℕ} (c : ℕ) (tail : List ℕ)
    → Balanced code
    → skip (code ++ tail) (suc c) ≡ plus (length code) (skip tail (suc c))
skip-Balanced c tail nil = sym (plus-zero (skip tail (suc c)))
skip-Balanced c tail (plain {code} x p open_at close_at b) =
    skip-plain x c (code ++ tail) p open_at close_at
    ∙ ap (plus 1) (skip-Balanced c tail b)
    ∙ plus-plus 1 (length code) (skip tail (suc c))
    ∙ ap (λ k. plus k (skip tail (suc c))) (omega arith)
skip-Balanced {code = all} c tail (pair inner code b b' e) =
    let n = length-append inner (b']' ∷ code) in
    ap (λ l. skip (l ++ tail) (suc c)) e
    ∙ skip-open c ((inner ++ (b']' ∷ code)) ++ tail)
    ∙ ap (λ l. plus 1 (skip l (suc (suc c)))) (append_assoc inner (b']' ∷ code) tail)
    ∙ ap (plus 1) (skip-Balanced (suc c) (b']' ∷ (code ++ tail)) b)
    ∙ ap (λ o. plus 1 (plus (length inner) o)) (skip-close (suc c) (code ++ tail))
    ∙ ap (λ o. plus 1 (plus (length inner) (plus 1 o))) (skip-Balanced c tail b')
    ∙ plus-four 1 (length inner) 1 (length code) (skip tail (suc c))
    ∙ ap (λ k. plus k (skip tail (suc c))) (omega (arith, n, ap length e))

skip-done : (x : ℕ) (behind : List ℕ) → skip (x ∷ behind) 0 ≡ some 0
unfolding skip
skip-done x behind = elim (Bool-cases (x == 0)) [
  | inl e ↦ rw (skip, e) refl
  | inr e ↦ rw (skip, e) refl
]

-- The search from behind a bracket ends behind the matching one.
skip-matching :
    (body behind : List ℕ) (x : ℕ)
    → Balanced body
    → skip (body ++ (b']' ∷ x ∷ behind)) 1 ≡ some (length body + 1)
skip-matching body behind x b =
    skip-Balanced 0 (b']' ∷ x ∷ behind) b
    ∙ ap (λ o. plus (length body) o) (skip-close 0 (x ∷ behind) ∙ ap (plus 1) (skip-done x behind))
    ∙ ap some (omega arith)

from-behind :
    (before : List ℕ) (c : ℕ) (rest : List ℕ)
    → from (suc (length before)) (before ++ (c ∷ rest)) ≡ rest
from-behind [] c rest = refl
from-behind (b ∷ before) c rest = from-behind before c rest

get_elem?-between :
    (before : List ℕ) (c : ℕ) (rest : List ℕ)
    → get_elem? (before ++ (c ∷ rest)) (length before) ≡ some c
get_elem?-between [] c rest = refl
get_elem?-between (b ∷ before) c rest = get_elem?-between before c rest

round-skip :
    (cs : List ℕ) (i n : ℕ) (ss : List ℕ) (sp : ℕ) (t : Tape)
    → here t ≡ some 0
    → skip (from (i + 1) cs) 1 ≡ some n
    → round (b'[', i) (vm_at cs i ss sp t) ≡ some (vm_at cs (i + 1 + n + 1) ss sp t)
unfolding round exec vm_while_entry
round-skip cs i n ss sp t at far = rw (at, far) refl

-- `run` on a loop whose cell is zero, with matching brackets inside and a token `x` behind: one round
-- takes it behind that token, which is not run.
pub run-skips :
    (before body behind ss : List ℕ) (x f sp : ℕ) (t : Tape)
    → Balanced body
    → here t ≡ some 0
    → let cs = before ++ (b'[' ∷ (body ++ (b']' ∷ x ∷ behind))) in
      run (suc f) (vm_at cs (length before) ss sp t)
      ≡ run f (vm_at cs (length (before ++ (b'[' ∷ (body ++ (b']' ∷ x ∷ []))))) ss sp t)
run-skips before body behind ss x f sp t b at =
    let rest = body ++ (b']' ∷ x ∷ behind) in
    let cs = before ++ (b'[' ∷ rest) in
    let i = length before in
    let one_more : i + 1 ≡ suc i = omega arith in
    let start : from (i + 1) cs ≡ rest =
      ap (λ k. from k cs) one_more ∙ from-behind before b'[' rest in
    run-round f cs i ss sp t b'[' (vm_at cs (i + 1 + (length body + 1) + 1) ss sp t)
      (get_elem?-between before b'[' rest) refl
      (round-skip cs i (length body + 1) ss sp t at
        (ap (λ l. skip l 1) start ∙ skip-matching body behind x b))
    ∙ ap (λ k. run f (vm_at cs k ss sp t))
        (omega (
          arith,
          length-append before (b'[' ∷ (body ++ (b']' ∷ x ∷ []))),
          length-append body (b']' ∷ x ∷ []),
        ))
