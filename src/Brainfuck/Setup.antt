-- ===== src/Brainfuck/Setup.antt =====
-- A program without brackets, from its text to its end, in the code of brainfuck1.c.
use mathlib.Core.List.{append_assoc}
use mathlib.Core.Path.{ap₂}
use chunxiao_code.Prelude.{
  ℕ, zero, suc, ◌+◌, ◌-◌, ◌<◌, ◌≡◌, refl, ap, sym, ◌∙◌, List, [], ◌∷◌, ◌++◌, map, some, false,
  arith, length, length-replicate, length-append, get_elem?, ltb, replicate,
}
use chunxiao_code.Prelude.Int.{pos}
use chunxiao_code.Prelude.Fault.{◌>>=◌}
use chunxiao_code.Brainfuck.{
  Tape, Vm, run, is_token, tokens, setup, code_segment_size, data_segment_size, stack_segment_size,
}
use chunxiao_code.Brainfuck.Rounds.{vm_at, Code, effect, run-effect}
use chunxiao_code.Brainfuck.Commands.{
  Command, char_of, go_right, go_left, add_one, take_one, print_cell, read_cell, NoneOf, marks,
  Spells, token, comment, done, all_of, start, Shows, all_of-Shows,
}

comment-is_token : (c : ℕ) → NoneOf c marks → is_token c ≡ false
comment-is_token c (a, (b, (d, (e, (f, (g, (h, (i, (j, _))))))))) =
    rw (a, b, d, e, f, g, h, i, j) refl

tokens-char_of : (k : Command) (text : List ℕ) → tokens (char_of k ∷ text) ≡ char_of k ∷ tokens text
unfolding tokens
tokens-char_of go_right text = refl
tokens-char_of go_left text = refl
tokens-char_of add_one text = refl
tokens-char_of take_one text = refl
tokens-char_of print_cell text = refl
tokens-char_of read_cell text = refl

tokens-Spells :
    {prog : List Command} {text : List ℕ} → Spells prog text → tokens text ≡ map char_of prog
unfolding tokens
tokens-Spells done = refl
tokens-Spells (token {text} k more) =
    tokens-char_of k text ∙ ap (◌∷◌ (char_of k)) (tokens-Spells more)
tokens-Spells (comment c none more) = rw (comment-is_token c none) (tokens-Spells more)

get_elem?-behind : (xs ys : List ℕ) (n : ℕ) → get_elem? (xs ++ ys) (length xs + n) ≡ get_elem? ys n
get_elem?-behind [] ys n = let e : zero + n ≡ n = omega arith in ap (get_elem? ys) e
get_elem?-behind (x ∷ xs) ys n =
    let e : suc (length xs) + n ≡ suc (length xs + n) = omega arith in
    ap (get_elem? (x ∷ (xs ++ ys))) e ∙ get_elem?-behind xs ys n

Code-behind :
    (cs : List ℕ) (n : ℕ) (before code behind : List ℕ)
    → cs ≡ before ++ (code ++ behind)
    → n ≡ length before + 0
    → Code cs n code
Code-behind cs n before [] behind e l = tt
Code-behind cs n before (c ∷ code) behind e l = (
  ap₂ get_elem? e l ∙ get_elem?-behind before (c ∷ (code ++ behind)) 0,
  Code-behind cs (n + 1) (before ++ (c ∷ [])) code behind
      (e ∙ sym (append_assoc before (c ∷ []) (code ++ behind)))
      (omega (arith, l, length-append before (c ∷ []))),
)

get_elem?-replicate : (n k v : ℕ) → k < n → get_elem? (replicate n v) k ≡ some v
get_elem?-replicate zero k v h = absurd (omega arith)
get_elem?-replicate (suc n) zero v h = refl
get_elem?-replicate (suc n) (suc k) v h = get_elem?-replicate n k v (omega arith)

run-end :
    (cs : List ℕ) (n : ℕ) (ss : List ℕ) (sp : ℕ) (t : Tape)
    → get_elem? cs n ≡ some 0
    → run 1 (vm_at cs n ss sp t) ≡ some (vm_at cs n ss sp t)
unfolding run
run-end cs n ss sp t e = rw (e, ◌>>=◌) refl

-- `run` on some code with zeros behind it comes to its end.
run-code :
    (code ss : List ℕ) (room : ℕ) (t t' : Tape)
    → effect code t ≡ some t'
    → 0 < room
    → run (length code + 1) (vm_at (code ++ replicate room 0) 0 ss 0 t)
      ≡ some (vm_at (code ++ replicate room 0) (length code) ss 0 t')
run-code code ss room t t' e more =
    let n = length code in
    let zeros : List ℕ = replicate room 0 in
    let cs : List ℕ = code ++ zeros in
    let at : get_elem? cs (n + 0) ≡ some 0 =
      get_elem?-behind code zeros 0 ∙ get_elem?-replicate room 0 0 more in
    let here_n : 0 + n ≡ n + 0 = omega arith in
    let there : n + 0 ≡ n = omega arith in
    run-effect 1 cs 0 ss 0 code t t' (Code-behind cs 0 [] code zeros refl (omega arith)) e
    ∙ ap (λ k. run 1 (vm_at cs k ss 0 t')) here_n
    ∙ run-end cs (n + 0) ss 0 t' at
    ∙ ap (λ k. some (vm_at cs k ss 0 t')) there

-- The tape after `setup`.
abbrev blank : Tape
blank = record { ds = replicate data_segment_size 0; bp = 0; input = []; output = [] }

blank-Shows : Shows blank start
blank-Shows = record {
  size = length-replicate {A = ℕ} 30000 0;
  place = refl;
  inside = omega arith;
  cells = λ i lt. get_elem?-replicate 30000 i 0 lt;
  bytes = λ i. omega arith;
  printed = refl;
  no_input = refl;
}

length-map_char : (prog : List Command) → length (map char_of prog) ≡ length prog
length-map_char [] = refl
length-map_char (k ∷ prog) = ap suc (length-map_char prog)

-- For a text that spells a program of fewer than 30000 of the six commands without brackets,
-- between which any characters may stand but these, brackets and NUL: setup and run together come
-- to the end of the program without a fault, in one round for each command and one for the end.
-- The tape that they leave, with its place, its 30000 cells and what was printed, is what the
-- commands mean, one after the other, on an empty tape: a ring of 30000 cells of one byte, where
-- a read stores 255, since setup has read all the input.
pub setup-runs :
    (prog : List Command) (text : List ℕ)
    → Spells prog text
    → length prog < 30000
    → (vm : Vm) × ((setup text >>= run (length prog + 1)) ≡ some vm)
      × (vm.ip ≡ pos (length prog))
      × Shows vm.tape (all_of prog start)
unfolding setup
setup-runs prog text spells few =
    let code = map char_of prog in
    let (t, e, s) = all_of-Shows prog blank start blank-Shows in
    let size : length code ≡ length prog = length-map_char prog in
    let fits : ltb code_segment_size (length code) ≡ false = ground (arith, size) in
    let is : tokens text ≡ code = tokens-Spells spells in
    let ss : List ℕ = replicate stack_segment_size 0 in
    (
      vm_at (code ++ replicate (code_segment_size - length code) 0) (length code) ss 0 t,
      rw (is, fits)
          (ap
              (λ n.
                run (n + 1)
                  (vm_at (code ++ replicate (code_segment_size - length code) 0) 0 ss 0 blank))
              (sym size)
            ∙ run-code code ss (code_segment_size - length code) blank t e (omega (arith, size))),
      ap pos size,
      s,
    )
