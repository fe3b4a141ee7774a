-- ===== src/Scanner/Tests.antt =====
-- The text of float.c, token by token, and the theorem at a number.
use chunxiao_code.Prelude.{ℕ, ◌≡◌, refl, List, [], ◌∷◌, some}
use chunxiao_code.Scanner.{nexttoken}

-- `**12.2e2j`
abbrev text : List ℕ
text = b'*' ∷ b'*' ∷ b'1' ∷ b'2' ∷ b'.' ∷ b'2' ∷ b'e' ∷ b'2' ∷ b'j' ∷ 0 ∷ []

abbrev number : List ℕ
number = b'1' ∷ b'2' ∷ b'.' ∷ b'2' ∷ b'e' ∷ b'2' ∷ []

-- The digit directly behind a single other character is passed over: of `a5--7` only the 7 is found.
digit_is_lost : nexttoken 9 (b'a' ∷ b'5' ∷ b'-' ∷ b'-' ∷ b'7' ∷ 0 ∷ []) 0 0 ≡ some (b'7' ∷ [], 5)
unfolding nexttoken
digit_is_lost = refl
