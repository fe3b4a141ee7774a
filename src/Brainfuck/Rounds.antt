-- ===== src/Brainfuck/Rounds.antt =====
-- Straight pieces of the code of brainfuck1.c.
use chunxiao_code.Prelude.{
  ℕ, suc, ◌+◌, ◌≡◌, refl, ap, ◌∙◌, List, [], ◌∷◌, Option, none, some, Bool-cases, inl, inr, false,
  ◌==◌, ==_iff, arith, length, get_elem?,
}
use chunxiao_code.Prelude.Int.{pos}
use chunxiao_code.Prelude.Fault.{◌>>=◌, some-cancel, bind_cases}
use mathlib.Core.Path.{ap₂}
use chunxiao_code.Brainfuck.{Tape, Vm, op, exec, round, run}

-- What a piece of code without brackets does to a tape.
abbrev pub effect : List ℕ → Tape → Option Tape
effect [] t = some t
effect (c ∷ code) t = op c t >>= effect code

-- The end and the brackets have no entry of that kind.
op-other : (t : Tape) → (op 0 t ≡ none) × (op b'[' t ≡ none) × (op b']' t ≡ none)
unfolding op
op-other t = (refl, refl, refl)

op_ne : (c k : ℕ) (t t' : Tape) → op c t ≡ some t' → op k t ≡ none → (c == k) ≡ false
op_ne c k t t' e none_at = elim (Bool-cases (c == k)) [
  | inl at ↦ absurd (cc (e, none_at, ap (λ j. op j t) ((==_iff c k).0 at)))
  | inr ne ↦ ne
]

abbrev pub vm_at : List ℕ → ℕ → List ℕ → ℕ → Tape → Vm
vm_at cs n ss sp t = record { cs = cs; ip = pos n; ss = ss; sp = sp; tape = t }

-- The code from `n` on begins with these tokens.
abbrev pub Code : List ℕ → ℕ → List ℕ → Type 0
Code cs n [] = Unit
Code cs n (c ∷ code) = (get_elem? cs n ≡ some c) × Code cs (n + 1) code

-- One round of `run` on a token that is not the end.
pub run-round :
    (f : ℕ) (cs : List ℕ) (n : ℕ) (ss : List ℕ) (sp : ℕ) (t : Tape) (c : ℕ) (vm' : Vm)
    → get_elem? cs n ≡ some c
    → ((c == 0) ≡ false)
    → round (c, n) (vm_at cs n ss sp t) ≡ some vm'
    → run (suc f) (vm_at cs n ss sp t) ≡ run f vm'
unfolding run
run-round f cs n ss sp t c vm' at go e = rw (at, ◌>>=◌, go, e) refl

round-op :
    (cs : List ℕ) (n : ℕ) (ss : List ℕ) (sp : ℕ) (t t' : Tape) (c : ℕ)
    → op c t ≡ some t'
    → round (c, n) (vm_at cs n ss sp t) ≡ some (vm_at cs (n + 1) ss sp t')
unfolding round exec
round-op cs n ss sp t t' c e =
    let (_, open_at, close_at) = op-other t in
    rw (op_ne c b'[' t t' e open_at, op_ne c b']' t t' e close_at, e) refl

-- A piece of code without brackets is run token by token.
pub run-effect :
    (f : ℕ) (cs : List ℕ) (n : ℕ) (ss : List ℕ) (sp : ℕ) (body : List ℕ) (t t' : Tape)
    → Code cs n body
    → effect body t ≡ some t'
    → run (length body + f) (vm_at cs n ss sp t) ≡ run f (vm_at cs (n + length body) ss sp t')
run-effect f cs n ss sp [] t t' code e =
    ap₂ (λ k u. run k (vm_at cs n ss sp u)) (omega arith) (some-cancel t t' e)
    ∙ ap (λ k. run f (vm_at cs k ss sp t')) (omega arith)
run-effect f cs n ss sp (c ∷ body) t t' (at, code) e =
    let (t₁, first, rest) = bind_cases (op c t) (effect body) t' e in
    ap (λ k. run k (vm_at cs n ss sp t)) (omega arith)
    ∙ run-round (length body + f) cs n ss sp t c (vm_at cs (n + 1) ss sp t₁) at
        (op_ne c 0 t t₁ first ((op-other t).0)) (round-op cs n ss sp t t₁ c first)
    ∙ run-effect f cs (n + 1) ss sp body t₁ t' code rest
    ∙ ap (λ k. run f (vm_at cs k ss sp t')) (omega arith)
