-- ===== src/Brainfuck/Tests.antt =====
-- Small programs, and each theorem at an input.
use chunxiao_code.Prelude.{ℕ, ◌+◌, ◌≡◌, refl, List, [], ◌∷◌, Option, some, arith}
use chunxiao_code.Prelude.Int.{ℤ, pos}
use chunxiao_code.Prelude.Fault.{◌>>=◌}
use chunxiao_code.Brainfuck.{Tape, Vm, op, exec, run, setup}
use chunxiao_code.Brainfuck.Rounds.{vm_at}
use chunxiao_code.Brainfuck.Loops.{Passes, final, again, rounds, run-Passes}
use chunxiao_code.Brainfuck.Setup.{setup-runs}
use chunxiao_code.Brainfuck.Commands.{
  Command, add_one, print_cell, NoneOf, marks, token, comment, done, all_of, start, Shows,
}
use chunxiao_code.Brainfuck.Skips.{nil, plain, run-skips}

abbrev small_tape : List ℕ → Tape
small_tape ds = record { ds = ds; bp = 0; input = []; output = [] }

-- `[->+<]`
abbrev move : List ℕ
move = b'-' ∷ b'>' ∷ b'+' ∷ b'<' ∷ []

abbrev moving : List ℕ
moving = b'[' ∷ b'-' ∷ b'>' ∷ b'+' ∷ b'<' ∷ b']' ∷ 0 ∷ []

moving-Passes : Passes move (small_tape (0 ∷ 7 ∷ [])) (small_tape (2 ∷ 5 ∷ []))
unfolding op
moving-Passes = again (small_tape (1 ∷ 6 ∷ [])) 0 refl refl (final refl refl)

run-Passes_example :
    run
      (rounds moving 0 move
          (omega arith)
          (refl, (refl, (refl, (refl, (refl, tt)))), refl)
          moving-Passes
        + 1)
      (vm_at moving 0 (9 ∷ []) 0 (small_tape (2 ∷ 5 ∷ [])))
    ≡ run 1 (vm_at moving 6 (255 ∷ []) 1 (small_tape (0 ∷ 7 ∷ [])))
run-Passes_example =
    run-Passes moving 0 move (omega arith) (refl, (refl, (refl, (refl, (refl, tt)))), refl) 1
      (9 ∷ []) 0 1 moving-Passes (omega arith) refl

-- `[-]+.` on a cell that is zero: the `+` is not run.
abbrev skipped : List ℕ
skipped = b'[' ∷ b'-' ∷ b']' ∷ b'+' ∷ b'.' ∷ 0 ∷ []

run-skips_example :
    run 3 (vm_at skipped 0 [] 0 (small_tape (0 ∷ [])))
    ≡ run 2 (vm_at skipped 4 [] 0 (small_tape (0 ∷ [])))
run-skips_example =
    run-skips [] (b'-' ∷ []) (b'.' ∷ 0 ∷ []) [] b'+' 2 0 (small_tape (0 ∷ []))
      (plain b'-' (omega arith) refl refl nil) refl

output_of : Option Vm → Option (List ℕ)
output_of o = o >>= λ vm. some (vm.tape.output)

-- The `+` behind the loop that is skipped is not run: 0 is printed.
zero_is_printed : output_of (run 9 (vm_at skipped 0 [] 0 (small_tape (0 ∷ [])))) ≡ some (0 ∷ [])
unfolding output_of run
zero_is_printed = refl

-- `++[>+[-]<-]`: the inner loop leaves its place on the stack, and the outer one goes back there.
abbrev nested : List ℕ
nested = b'+' ∷ b'+' ∷ b'[' ∷ b'>' ∷ b'+' ∷ b'[' ∷ b'-' ∷ b']' ∷ b'<' ∷ b'-' ∷ b']' ∷ 0 ∷ []

place_of : ℕ → Option ℤ
place_of sp =
    exec b']' 10 (vm_at nested 10 (1 ∷ 4 ∷ []) sp (small_tape (1 ∷ 0 ∷ []))) >>= λ vm. some (vm.ip)

-- The closing bracket of the outer loop, with what the inner loop left on the stack.
back_to_inner : place_of 2 ≡ some (pos 4)
unfolding place_of exec
back_to_inner = refl

-- `+a+.` with a comment.
abbrev with_comment : List ℕ
with_comment = b'+' ∷ b'a' ∷ b'+' ∷ b'.' ∷ []

abbrev prog : List Command
prog = add_one ∷ add_one ∷ print_cell ∷ []

a_comments : NoneOf b'a' marks
a_comments = (refl, (refl, (refl, (refl, (refl, (refl, (refl, (refl, (refl, tt)))))))))

printed_two : (all_of prog start).printed ≡ 2 ∷ []
printed_two = refl

setup-runs_example :
    (vm : Vm) × ((setup with_comment >>= run (3 + 1)) ≡ some vm)
    × (vm.ip ≡ pos 3)
    × Shows vm.tape (all_of prog start)
setup-runs_example =
    setup-runs prog with_comment
      (token add_one (comment b'a' a_comments (token add_one (token print_cell done))))
      (omega arith)
