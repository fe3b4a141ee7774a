-- ===== src/Scanner/Tokens.antt =====
-- `nexttoken` of float.c in front of a number.
use chunxiao_code.Prelude.{ℕ, suc, ◌≡◌, List, [], ◌∷◌, false}
use chunxiao_code.Scanner.{isdigit}

-- What is passed over in front of a number, in so many rounds: a character that is no digit, and with
-- it the next one, whatever it is.
pub data Junk : ℕ → List ℕ → Type 0 where
  clean : Junk 0 []
  junk :
      {n : ℕ} {rest : List ℕ} (c x : ℕ)
      → isdigit c ≡ false
      → Junk n rest
      → Junk (suc n) (c ∷ x ∷ rest)
