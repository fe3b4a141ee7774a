-- ===== src/Duff.antt =====
-- c-study/duff_device/duff_device.c: an array copied by a loop that is entered in its middle. The size is
-- not negative; an access outside an array is a fault, `none`.
pub mod Copied
mod Tests
use chunxiao_code.Prelude.{
  ℕ, zero, suc, ◌+◌, ◌/◌, ◌%◌, List, Option, none, some, Bool, ◌==◌, ltb, length, get_elem?, set,
  if◌then◌else◌,
}
use chunxiao_code.Prelude.Fault.{◌>>=◌}

-- `dest[i] = src[i]; i = i + 1;` on the array and the index.
unfoldable pub copy_one : List Bool → List Bool × ℕ → Option (List Bool × ℕ)
copy_one src (dest, i) = do
  b ← get_elem? src i
  if ltb i (length dest) then some (set dest i b, i + 1) else none

-- From the label `case n` on to the end of the body, for n from 7 down to 1.
unfoldable pub case_from : List Bool → ℕ → List Bool × ℕ → Option (List Bool × ℕ)
case_from src zero s = some s
case_from src (suc n) s = do s' ← copy_one src s; case_from src n s'

-- The loop: a whole body has one more copy in front of `case 7`.
unfoldable pub rounds_left : List Bool → ℕ → List Bool × ℕ → Option (List Bool × ℕ)
rounds_left src zero s = some s
rounds_left src (suc rounds) s = do
  s₁ ← copy_one src s
  s₂ ← case_from src 7 s₁
  rounds_left src rounds s₂

-- `copyBoolArray`: the array `dest` afterwards.
unfoldable pub copy_bool_array : List Bool → List Bool → ℕ → Option (List Bool)
copy_bool_array src dest size = do
  s ← (if size % 8 == 0 then some (dest, 0) else case_from src (size % 8) (dest, 0))
  s' ← rounds_left src (size / 8) s
  some (s'.0)
