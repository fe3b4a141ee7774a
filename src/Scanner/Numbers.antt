-- ===== src/Scanner/Numbers.antt =====
-- What a number is for the scanner of float.c, and characters that stand in its buffer.
use chunxiao_code.Prelude.{
  ℕ, zero, suc, ◌+◌, ◌≡◌, refl, List, [], ◌∷◌, ◌++◌, some, true, false, ◌==◌, arith, length,
  get_elem?,
}
use chunxiao_code.Scanner.{isdigit, is_e, is_sign, copy}

-- These characters stand in the buffer from a place on.
abbrev pub Stands : List ℕ → ℕ → List ℕ → Type 0
Stands cbuf at [] = Unit
Stands cbuf at (c ∷ cs) = (get_elem? cbuf at ≡ some c) × Stands cbuf (at + 1) cs

abbrev pub Digits : List ℕ → Type 0
Digits [] = Unit
Digits (d ∷ ds) = (isdigit d ≡ true) × Digits ds

-- The exponent: none, or an `e`, a sign or none, and digits.
pub data Exponent : List ℕ → ℕ → Type 0 where
  no_exponent : {stop : ℕ} → isdigit stop ≡ false → is_e stop ≡ false → Exponent [] stop
  exponent :
      {stop : ℕ} (e d : ℕ) (ds : List ℕ)
      → is_e e ≡ true
      → Digits (d ∷ ds)
      → isdigit stop ≡ false
      → Exponent (e ∷ d ∷ ds) stop
  signed :
      {stop : ℕ} (e sign d : ℕ) (ds : List ℕ)
      → is_e e ≡ true
      → is_sign sign ≡ true
      → Digits (d ∷ ds)
      → isdigit stop ≡ false
      → Exponent (e ∷ sign ∷ d ∷ ds) stop

-- A number up to the character `stop` that does not continue it: digits, a fraction or none, an exponent
-- or none.
pub data Number : List ℕ → ℕ → Type 0 where
  whole :
      {stop : ℕ} (d : ℕ) (ds rest : List ℕ)
      → Digits (d ∷ ds)
      → Exponent rest stop
      → ((rest ≡ []) → (stop == b'.') ≡ false)
      → Number (d ∷ (ds ++ rest)) stop
  fraction :
      {stop : ℕ} (d : ℕ) (ds : List ℕ) (d' : ℕ) (ds' rest : List ℕ)
      → Digits (d ∷ ds)
      → Digits (d' ∷ ds')
      → Exponent rest stop
      → Number (d ∷ (ds ++ (b'.' ∷ d' ∷ (ds' ++ rest)))) stop

pub copy-Stands :
    (cbuf : List ℕ) (at : ℕ) (cs : List ℕ) → Stands cbuf at cs → copy cbuf at (length cs) ≡ some cs
unfolding copy
copy-Stands cbuf at [] s = refl
copy-Stands cbuf at (c ∷ cs) (e, s) = rw (e, copy-Stands cbuf (at + 1) cs s) refl

pub Stands-append :
    (cbuf : List ℕ) (at : ℕ) (xs ys : List ℕ)
    → Stands cbuf at (xs ++ ys)
    → Stands cbuf at xs × Stands cbuf (at + length xs) ys
Stands-append cbuf at [] ys s = let e : at + zero ≡ at = omega arith in (tt, rw e s)
Stands-append cbuf at (x ∷ xs) ys (e, s) =
    let (left, right) = Stands-append cbuf (at + 1) xs ys s in
    let there : at + suc (length xs) ≡ at + 1 + length xs = omega arith in
    ((e, left), rw there right)
