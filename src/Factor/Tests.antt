-- ===== src/Factor/Tests.antt =====
-- 360 = 2 · 2 · 2 · 3 · 3 · 5.
use chunxiao_code.Prelude.{ℕ, ◌+◌, ◌≡◌, refl, List, [], ◌∷◌, map, some, arith}
use chunxiao_code.Prelude.Int.{pos}
use chunxiao_code.Factor.{largest, strip, split, restart}
use chunxiao_code.Factor.Least.{product, AllPrime, Ascending}
use chunxiao_code.Factor.Loops.{last_or, largest-split}

abbrev parts : List ℕ
parts = 2 ∷ 2 ∷ 2 ∷ 3 ∷ 3 ∷ 5 ∷ []

parts_found : largest 720 360 ≡ some (parts, 5)
unfolding largest strip
parts_found = refl

parts_again : split 720 360 ≡ some (map pos parts)
unfolding split restart
parts_again = refl

largest-split_example :
    (ps : List ℕ) × (largest (360 + 360) 360 ≡ some (ps, last_or 0 ps))
    × (split (360 + 360) 360 ≡ some (map pos ps))
    × (product ps ≡ 360)
    × AllPrime ps
    × Ascending 2 ps
largest-split_example = largest-split 360 (omega arith) (omega arith)
