-- ===== src/StrMatch/Kmp/Tests.antt =====
-- Runs of `KMP` on the texts of `main`, and each theorem at an input.
use chunxiao_code.Prelude.{ℕ, List, [], ◌∷◌, some, none, ◌≡◌, ◌≢◌, refl, length}
use chunxiao_code.Prelude.Int.{ℤ, pos, negsuc}
use chunxiao_code.StrMatch.Kmp.{cal_next, kmp}
use chunxiao_code.StrMatch.Kmp.Occurs.{IsTable, Finds}
use chunxiao_code.StrMatch.Kmp.Table.{cal_next-IsTable}
use chunxiao_code.StrMatch.Kmp.Search.{kmp-Finds}

-- "abczdabczeabczabcd" and "abczabc"
abbrev text : List ℕ
text = 1 ∷ 2 ∷ 3 ∷ 26 ∷ 4 ∷ 1 ∷ 2 ∷ 3 ∷ 26 ∷ 5 ∷ 1 ∷ 2 ∷ 3 ∷ 26 ∷ 1 ∷ 2 ∷ 3 ∷ 4 ∷ []

abbrev pattern_text : List ℕ
pattern_text = 1 ∷ 2 ∷ 3 ∷ 26 ∷ 1 ∷ 2 ∷ 3 ∷ []

kmp_main : kmp text pattern_text ≡ some (pos 10)
unfolding kmp
kmp_main = refl

kmp_absent : kmp pattern_text text ≡ some (negsuc 0)
unfolding kmp
kmp_absent = refl

cal_next_main : cal_next pattern_text ≡ some (0 ∷ 0 ∷ 0 ∷ 0 ∷ 1 ∷ 2 ∷ 3 ∷ [])
unfolding cal_next
cal_next_main = refl

-- An empty pattern: the first write is outside the table.
kmp_empty_pattern : kmp text [] ≡ none
unfolding kmp
kmp_empty_pattern = refl

not_empty : pattern_text ≢ []
not_empty e = cc (e)

kmp-Finds_example : (r : ℤ) × (kmp text pattern_text ≡ some r) × Finds pattern_text text r
kmp-Finds_example = kmp-Finds text pattern_text not_empty

cal_next-IsTable_example :
    (next : List ℕ) × (cal_next pattern_text ≡ some next)
    × (length next ≡ 7)
    × IsTable pattern_text next
cal_next-IsTable_example = cal_next-IsTable pattern_text not_empty
