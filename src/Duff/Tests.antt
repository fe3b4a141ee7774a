-- ===== src/Duff/Tests.antt =====
-- Eleven bits: three before the loop and one round of eight.
use chunxiao_code.Prelude.{◌≡◌, List, ◌∷◌, some, Bool, true, false, replicate, arith}
use chunxiao_code.Duff.{copy_bool_array}
use chunxiao_code.Duff.Copied.{copied, copy_bool_array-copied}

abbrev bits : List Bool
bits = true ∷ false ∷ true ∷ replicate 8 true

copy_bool_array-copied_example :
    copy_bool_array bits (replicate 12 false) 11 ≡ some (copied bits (replicate 12 false) 11)
copy_bool_array-copied_example =
    copy_bool_array-copied bits (replicate 12 false) 11 (omega arith) (omega arith)
