-- ===== src/StrMatch/Kmp.antt =====
-- c-study/str_match/kmp/kmp_test.c: `cal_next` and `KMP`.
-- An `int` of the source that starts at -1 (`k`, and each cell of `next`) is held here as its
-- successor, a number: `k` below is the source's `k + 1`, the count of characters matched so far.
-- A string is the list of its characters; `next` is the list of the cells that are written.
-- A read outside a string or of an unwritten cell is a fault, `none`.
use chunxiao_code.Prelude.{
  ℕ, zero, suc, ◌+◌, ◌-◌, List, [], ◌∷◌, ◌++◌, Option, none, some, ◌==◌, if◌then◌else◌, length,
  get_elem?,
}
use chunxiao_code.Prelude.Fault.{◌>>=◌, ◌>>◌}
use chunxiao_code.Prelude.Int.{ℤ, pos, negsuc}
pub mod Occurs
pub mod Table
pub mod Search
mod Tests

-- `while (k > -1 && str[k + 1] != c) k = next[k];` with fuel. `&&` reads the string only at `k > -1`.
pub fallback : ℕ → List ℕ → List ℕ → ℕ → ℕ → Option ℕ
fallback zero str next c k = none
fallback (suc f) str next c zero = some zero
fallback (suc f) str next c (suc k) = do
  d ← get_elem? str (suc k)
  let rest = get_elem? next k >>= fallback f str next c
  if d == c then some (suc k) else rest

-- One round of either loop on the character `c`: fall back, then `if (str[k + 1] == c) k = k + 1;`.
-- The fuel `k + 1` is enough, since each `next[k]` is smaller than `k` (`Table`).
pub advance : List ℕ → List ℕ → ℕ → ℕ → Option ℕ
unfolding fallback
advance str next c k = do
  k' ← fallback (suc k) str next c k
  d ← get_elem? str k'
  some (if d == c then k' + 1 else k')

-- `for (q = ..; q <= len - 1; q++)` of `cal_next`, by the rounds that are left.
pub cal_next_loop : ℕ → List ℕ → ℕ → ℕ → List ℕ → Option (List ℕ)
cal_next_loop zero str q k next = some next
cal_next_loop (suc n) str q k next = do
  c ← get_elem? str q
  k' ← advance str next c k
  cal_next_loop n str (q + 1) k' (next ++ (k' ∷ []))

-- `next[0] = -1` is a write outside the allocation when `len` is 0.
pub cal_next : List ℕ → Option (List ℕ)
unfolding cal_next_loop advance
cal_next [] = none
cal_next (x ∷ xs) = cal_next_loop (length xs) (x ∷ xs) 1 0 (0 ∷ [])

-- `for (i = ..; i < slen; i++)` of `KMP`, over the characters of `str` that are left.
pub kmp_loop : List ℕ → List ℕ → List ℕ → ℕ → ℕ → Option ℤ
kmp_loop ptr next [] i k = some (negsuc 0)
kmp_loop ptr next (c ∷ str) i k = do
  k' ← advance ptr next c k
  let rest = kmp_loop ptr next str (i + 1) k'
  if k' == length ptr then some (pos (i + 1 - length ptr)) else rest

-- `KMP(str, slen, ptr, plen)`: the printing of `next` is left out.
pub kmp : List ℕ → List ℕ → Option ℤ
unfolding cal_next kmp_loop advance
kmp str ptr = do next ← cal_next ptr; kmp_loop ptr next str 0 0
