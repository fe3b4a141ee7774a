-- ===== src/Duff/Copied.antt =====
-- What duff_device.c copies.
use chunxiao_code.Prelude.{
  ℕ, zero, suc, ◌+◌, ◌*◌, ◌/◌, ◌%◌, ◌≤◌, ◌<◌, ◌≡◌, refl, ap, ◌∙◌, List, [], ◌∷◌, ◌++◌, some, Bool,
  true, false, ◌==◌, ltb, arith, length, get_elem?, set, take, drop, if◌then◌else◌,
}
use chunxiao_code.Duff.{copy_one, case_from, rounds_left, copy_bool_array}

-- The first i cells are those of `src`.
abbrev pub copied : List Bool → List Bool → ℕ → List Bool
copied src dest i = take i src ++ drop i dest

module _ (src dest : List Bool) where
  -- The arrays have i cells.
  abbrev pub Room : ℕ → Type 0
  Room i = (i ≤ length src) × (i ≤ length dest)

copied-set :
    (src dest : List Bool) (i : ℕ)
    → i < length src
    → i < length dest
    → (b : Bool) × (get_elem? src i ≡ some b)
      × (set (copied src dest i) i b ≡ copied src dest (suc i))
      × (i < length (copied src dest i))
copied-set [] dest i h h' = absurd (omega arith)
copied-set (x ∷ src) [] i h h' = absurd (omega arith)
copied-set (x ∷ src) (y ∷ dest) zero h h' = (x, refl, refl, omega arith)
copied-set (x ∷ src) (y ∷ dest) (suc i) h h' =
    let (b, e, s, l) = copied-set src dest i (omega arith) (omega arith) in
    (b, e, ap (◌∷◌ x) s, omega (arith, l))

module _ (src dest : List Bool) where
  copy_one-copied :
      (i : ℕ)
      → Room src dest (suc i)
      → copy_one src (copied src dest i, i) ≡ some (copied src dest (suc i), suc i)
  unfolding copy_one
  copy_one-copied i (h, h') =
      let (b, e, s, l) = copied-set src dest i h h' in
      let fits : ltb i (length (copied src dest i)) ≡ true = ground (arith, l) in
      let next : i + 1 ≡ suc i = omega arith in rw (e, fits, s, next) refl

  case_from-copied :
      (n i : ℕ)
      → Room src dest (n + i)
      → case_from src n (copied src dest i, i) ≡ some (copied src dest (n + i), n + i)
  unfolding case_from
  case_from-copied zero i room =
      let e : i ≡ zero + i = omega arith in ap (λ k. some (copied src dest k, k)) e
  case_from-copied (suc n) i (h, h') =
      let e : n + suc i ≡ suc n + i = omega arith in
      rw (copy_one-copied i (omega arith, omega arith))
        (case_from-copied n (suc i) (omega arith, omega arith))
      ∙ ap (λ k. some (copied src dest k, k)) e

  rounds_left-copied :
      (n i : ℕ)
      → Room src dest (n * 8 + i)
      → rounds_left src n (copied src dest i, i) ≡ some (copied src dest (n * 8 + i), n * 8 + i)
  unfolding rounds_left
  rounds_left-copied zero i room =
      let e : i ≡ 0 * 8 + i = omega arith in ap (λ k. some (copied src dest k, k)) e
  rounds_left-copied (suc n) i (h, h') =
      let e : n * 8 + (7 + suc i) ≡ suc n * 8 + i = omega arith in
      rw
        (
          copy_one-copied i (omega arith, omega arith),
          case_from-copied 7 (suc i) (omega arith, omega arith),
        )
        (rounds_left-copied n (7 + suc i) (omega arith, omega arith))
      ∙ ap (λ k. some (copied src dest k, k)) e

  entered :
      (r : ℕ)
      → Room src dest r
      → (if r == 0 then some (dest, 0) else case_from src r (dest, 0)) ≡ some (copied src dest r, r)
  entered zero room = refl
  entered (suc n) (h, h') =
      let more : (suc n == 0) ≡ false = ground arith in
      let e : suc n + 0 ≡ suc n = omega arith in
      rw more (case_from-copied (suc n) 0 (omega arith, omega arith))
      ∙ ap (λ k. some (copied src dest k, k)) e

  -- Where both arrays have `size` cells, these of `dest` become those of `src`, and no other changes.
  pub copy_bool_array-copied :
      (size : ℕ)
      → size ≤ length src
      → size ≤ length dest
      → copy_bool_array src dest size ≡ some (copied src dest size)
  unfolding copy_bool_array
  copy_bool_array-copied size h h' =
      let e : size / 8 * 8 + size % 8 ≡ size = omega arith in
      rw
        (
          entered (size % 8) (omega arith, omega arith),
          rounds_left-copied (size / 8) (size % 8) (omega arith, omega arith),
        )
        (ap (λ k. some (copied src dest k)) e)
