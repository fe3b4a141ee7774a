-- ===== src/Brainfuck/Loops.antt =====
-- A loop without a loop in it, in the code of brainfuck1.c.
use chunxiao_code.Prelude.{
  ℕ, zero, suc, ◌+◌, ◌≤◌, ◌<◌, ◌≡◌, refl, ap, ◌∙◌, List, [], ◌∷◌, some, false, ◌==◌, arith, length,
  length-set, get_elem?, get_elem?-set_self, set, lt→ltb,
}
use chunxiao_code.Prelude.Int.{pos}
use chunxiao_code.Brainfuck.{
  Tape, here, exec, round, run, inc, to_char, to_long, vm_while_entry, vm_while_exit,
}
use chunxiao_code.Brainfuck.Rounds.{effect, vm_at, Code, run-round, run-effect}

-- The body is run from `t` to `t'` again and again, until the cell is zero at its end.
pub data Passes (body : List ℕ) (t' : Tape) : Tape → Type 0 where
  final : {t : Tape} → effect body t ≡ some t' → here t' ≡ some 0 → Passes body t' t
  again :
      {t : Tape} (t₁ : Tape) (v : ℕ)
      → effect body t ≡ some t₁
      → here t₁ ≡ some (suc v)
      → Passes body t' t₁
      → Passes body t' t

set-set : (xs : List ℕ) (i v : ℕ) → set (set xs i v) i v ≡ set xs i v
set-set [] i v = refl
set-set (x ∷ xs) zero v = refl
set-set (x ∷ xs) (suc i) v = ap (◌∷◌ x) (set-set xs i v)

-- The place of a bracket among the first 129 cells survives the cast to `char`.
inc-to_long : (i : ℕ) → i ≤ 128 → inc (to_long (to_char i)) ≡ pos i
inc-to_long zero h = refl
inc-to_long (suc i) h = ground arith

pub suc_ne : (v : ℕ) → (suc v == 0) ≡ false
suc_ne v = ground arith

round-enter :
    (cs : List ℕ) (i : ℕ) (ss : List ℕ) (sp : ℕ) (t : Tape) (v : ℕ)
    → here t ≡ some (suc v)
    → sp < length ss
    → round (b'[', i) (vm_at cs i ss sp t)
      ≡ some (vm_at cs (i + 1) (set ss sp (to_char i)) (sp + 1) t)
unfolding round exec vm_while_entry
round-enter cs i ss sp t v at room = rw (at, suc_ne v, lt→ltb sp (length ss) room) refl

round-leave :
    (cs : List ℕ) (j : ℕ) (ss : List ℕ) (sp : ℕ) (t : Tape)
    → here t ≡ some 0
    → round (b']', j) (vm_at cs j ss sp t) ≡ some (vm_at cs (j + 1) ss sp t)
unfolding round exec vm_while_exit
round-leave cs j ss sp t at = rw at refl

round-back :
    (cs : List ℕ) (i j : ℕ) (ss : List ℕ) (sp : ℕ) (t : Tape) (v : ℕ)
    → here t ≡ some (suc v)
    → i ≤ 128
    → get_elem? ss sp ≡ some (to_char i)
    → round (b']', j) (vm_at cs j ss (suc sp) t) ≡ some (vm_at cs i ss sp t)
unfolding round exec vm_while_exit
round-back cs i j ss sp t v at small saved =
    rw (at, suc_ne v, saved)
      (ap (λ q. some (record { cs = cs; ip = q; ss = ss; sp = sp; tape = t }))
        (inc-to_long i small))

-- The code of the loop: its bracket at `i`, the body, and the closing bracket.
abbrev pub LoopCode : List ℕ → ℕ → List ℕ → Type 0
LoopCode cs i body =
    (get_elem? cs i ≡ some b'[')
    × Code cs (i + 1) body
    × (get_elem? cs (i + 1 + length body) ≡ some b']')

module _ (cs : List ℕ) (i : ℕ) (body : List ℕ) (small : i ≤ 128) (code : LoopCode cs i body) where
  abbrev pub close : ℕ
  close = i + 1 + length body

  -- The opening bracket and the body.
  run-pass :
      (f : ℕ) (ss : List ℕ) (sp : ℕ) (t t' : Tape) (v : ℕ)
      → sp < length ss
      → here t ≡ some (suc v)
      → effect body t ≡ some t'
      → run (suc (length body + f)) (vm_at cs i ss sp t)
        ≡ run f (vm_at cs close (set ss sp (to_char i)) (sp + 1) t')
  run-pass f ss sp t t' v room at e =
      run-round (length body + f) cs i ss sp t b'['
        (vm_at cs (i + 1) (set ss sp (to_char i)) (sp + 1) t) (code.0) refl
        (round-enter cs i ss sp t v at room)
      ∙ run-effect f cs (i + 1) (set ss sp (to_char i)) (sp + 1) body t t' (code.1) e

  -- How many rounds the passes take.
  abbrev pub rounds : {t' t : Tape} → Passes body t' t → ℕ
  rounds (final e z) = length body + 2
  rounds (again t₁ v e at more) = length body + 2 + rounds more

  -- `run` on the loop, from a cell that is not zero: with that many rounds it comes behind the closing
  -- bracket with the tape of the last pass. The stack pointer stands one higher than before.
  pub run-Passes :
      {t' t : Tape} (f : ℕ) (ss : List ℕ) (sp v : ℕ) (p : Passes body t' t)
      → sp < length ss
      → here t ≡ some (suc v)
      → run (rounds p + f) (vm_at cs i ss sp t)
        ≡ run f (vm_at cs (close + 1) (set ss sp (to_char i)) (sp + 1) t')
  run-Passes {t'} {t} f ss sp v (final e z) room at =
      ap (λ k. run k (vm_at cs i ss sp t)) (omega arith)
      ∙ run-pass (suc f) ss sp t t' v room at e
      ∙ run-round f cs close (set ss sp (to_char i)) (sp + 1) t' b']'
          (vm_at cs (close + 1) (set ss sp (to_char i)) (sp + 1) t') (code.2) refl
          (round-leave cs close (set ss sp (to_char i)) (sp + 1) t' z)
  run-Passes {t'} {t} f ss sp v (again t₁ w e at₁ more) room at =
      let ss' = set ss sp (to_char i) in
      ap (λ k. run k (vm_at cs i ss sp t)) (omega arith)
      ∙ run-pass (suc (rounds more + f)) ss sp t t₁ v room at e
      ∙ ap (λ k. run (suc (rounds more + f)) (vm_at cs close ss' k t₁)) (omega arith)
      ∙ run-round (rounds more + f) cs close ss' (suc sp) t₁ b']' (vm_at cs i ss' sp t₁) (code.2)
          refl
          (round-back cs i close ss' sp t₁ w at₁ small (get_elem?-set_self ss sp (to_char i) room))
      ∙ run-Passes f ss' sp w more (omega (arith, length-set ss sp (to_char i))) at₁
      ∙ ap (λ l. run f (vm_at cs (close + 1) l (sp + 1) t')) (set-set ss sp (to_char i))
