-- ===== src/Factor.antt =====
-- c-study/leetcode/d.c and e.c: two programs that take a number apart. A loop out of fuel is `none`. The
-- numbers never grow beyond the one that is given, so that no operation on 64 bits overflows.
pub mod Least
pub mod Loops
mod Tests
use chunxiao_code.Prelude.{
  ℕ, zero, suc, ◌+◌, ◌-◌, ◌/◌, ◌%◌, ◌^◌, List, [], ◌∷◌, Option, none, some, Bool, true, false, ◌==◌,
  ltb, if◌then◌else◌,
}
use chunxiao_code.Prelude.Int.{ℤ, pos, negsuc}
use chunxiao_code.Prelude.Fault.{◌>>=◌}

-- The loop of d.c: the numbers that it prints, and `max` behind it.
unfoldable pub strip : ℕ → ℕ → ℕ → ℕ → Option (List ℕ × ℕ)
strip zero i max b = none
strip (suc f) i max b = elim (ltb b i) [
  | true ↦ some ([], max)
  | false ↦ elim (b % i == 0) [
    | true ↦
        strip f i (if ltb max i then i else max) (b / i) >>= λ (printed, m). some (i ∷ printed, m)
    | false ↦ strip f (i + 1) max b
  ]
]

-- `main` of d.c for a number.
unfoldable pub largest : ℕ → ℕ → Option (List ℕ × ℕ)
unfolding strip
largest fuel num = strip fuel 2 0 num

-- What `printf` with %d prints of a number of 64 bits: the int that its low 32 bits stand for.
abbrev pub percent_d : ℕ → ℤ
percent_d n =
    let low = n % 2 ^ 32 in if ltb low (2 ^ 31) then pos low else negsuc (2 ^ 32 - 1 - low)

-- The loop of e.c, and what it prints at the end.
unfoldable pub restart : ℕ → ℕ → ℕ → Option (List ℤ)
restart zero t f = none
restart (suc fuel) t f = elim (ltb t f) [
  | false ↦ some (percent_d f ∷ [])
  | true ↦ elim (f % t == 0) [
    | true ↦ restart fuel 2 (f / t) >>= λ printed. some (percent_d t ∷ printed)
    | false ↦ restart fuel (t + 1) f
  ]
]

-- `main` of e.c for a number.
unfoldable pub split : ℕ → ℕ → Option (List ℤ)
unfolding restart
split fuel f = restart fuel 2 f
