-- ===== src/Scanner/Reading.antt =====
-- What the states of float.c do with the parts of a number.
use mathlib.Core.Path.{ap₂}
use chunxiao_code.Prelude.{
  ℕ, suc, ◌+◌, ◌≡◌, refl, ap, sym, ◌∙◌, List, [], ◌∷◌, ◌++◌, some, true, false, arith, length,
  length-append, get_elem?,
}
use chunxiao_code.Prelude.Fault.{◌>>=◌}
use chunxiao_code.Scanner.{
  State, s13, s14, s15, s16, s17, s18, s19, isdigit, is_e, is_sign, next_state, scan,
}
use chunxiao_code.Scanner.Numbers.{
  Stands, Stands-append, Digits, Exponent, no_exponent, exponent, signed, Number, whole, fraction,
}

sign_not_digit : (c : ℕ) → is_sign c ≡ true → isdigit c ≡ false
sign_not_digit c h = ground arith

e_not_digit : (c : ℕ) → is_e c ≡ true → isdigit c ≡ false
e_not_digit c h = ground arith

abbrev pub tail_of : List ℕ → List ℕ
tail_of [] = []
tail_of (c ∷ cs) = cs

module _ (cbuf : List ℕ) (start : ℕ) where
  -- A state that reads one character.
  abbrev Reads : State → Type 0
  Reads s =
      (f at c : ℕ)
      → get_elem? cbuf at ≡ some c
      → scan (suc f) cbuf s at start ≡ scan f cbuf (next_state s c) (at + 1) start

  reads13 : Reads s13
  unfolding scan
  reads13 f at c e = rw (e, ◌>>=◌) refl

  reads14 : Reads s14
  unfolding scan
  reads14 f at c e = rw (e, ◌>>=◌) refl

  reads15 : Reads s15
  unfolding scan
  reads15 f at c e = rw (e, ◌>>=◌) refl

  reads16 : Reads s16
  unfolding scan
  reads16 f at c e = rw (e, ◌>>=◌) refl

  reads17 : Reads s17
  unfolding scan
  reads17 f at c e = rw (e, ◌>>=◌) refl

  reads18 : Reads s18
  unfolding scan
  reads18 f at c e = rw (e, ◌>>=◌) refl

  -- Such a state to which a digit leads back reads all digits.
  read_all :
      (s : State) (f at : ℕ) (ds : List ℕ)
      → Reads s
      → ((d : ℕ) → isdigit d ≡ true → next_state s d ≡ s)
      → Digits ds
      → Stands cbuf at ds
      → scan (length ds + f) cbuf s at start ≡ scan f cbuf s (at + length ds) start
  read_all s f at [] one stays digits st =
      ap₂ (λ k i. scan k cbuf s i start) (omega arith) (omega arith)
  read_all s f at (d ∷ ds) one stays (dig, digits) (e, st) =
      let more : suc (length ds) + f ≡ suc (length ds + f) = omega arith in
      let there : at + 1 + length ds ≡ at + suc (length ds) = omega arith in
      ap (λ k. scan k cbuf s at start) more
      ∙ one (length ds + f) at d e
      ∙ ap (λ s'. scan (length ds + f) cbuf s' (at + 1) start) (stays d dig)
      ∙ read_all s f (at + 1) ds one stays digits st
      ∙ ap (λ i. scan f cbuf s i start) there

  -- One character, to a known state.
  step_to :
      (s s' : State) (f at c : ℕ)
      → Reads s
      → get_elem? cbuf at ≡ some c
      → next_state s c ≡ s'
      → scan (suc f) cbuf s at start ≡ scan f cbuf s' (at + 1) start
  step_to s s' f at c one e to = one f at c e ∙ ap (λ q. scan f cbuf q (at + 1) start) to

  -- The digits of an exponent and the character behind.
  exponent_end :
      (f at : ℕ) (ds : List ℕ) (stop : ℕ)
      → Digits ds
      → Stands cbuf at ds
      → get_elem? cbuf (at + length ds) ≡ some stop
      → isdigit stop ≡ false
      → scan (length ds + suc f) cbuf s18 at start ≡ scan f cbuf s19 (at + length ds + 1) start
  unfolding next_state
  exponent_end f at ds stop digits st e no_digit =
      read_all s18 (suc f) at ds reads18 (λ d' h. rw h refl) digits st
      ∙ step_to s18 s19 f (at + length ds) stop reads18 e (rw no_digit refl)

  -- An exponent or none, and the character behind, from a state that goes on with an exponent.
  rest_is_read :
      (s : State) (f at : ℕ) (rest : List ℕ) (stop : ℕ)
      → Reads s
      → ((c : ℕ) → is_e c ≡ true → next_state s c ≡ s16)
      → ((rest ≡ []) → isdigit stop ≡ false → is_e stop ≡ false → next_state s stop ≡ s19)
      → Exponent rest stop
      → Stands cbuf at rest
      → get_elem? cbuf (at + length rest) ≡ some stop
      → scan (length rest + suc f) cbuf s at start ≡ scan f cbuf s19 (at + length rest + 1) start
  unfolding next_state
  rest_is_read s f at _ stop one at_e at_stop (no_exponent no_digit no_e) st e =
      let here : at + 0 ≡ at = omega arith in
      let fuel : 0 + suc f ≡ suc f = omega arith in
      ap (λ k. scan k cbuf s at start) fuel
      ∙ ap (λ i. scan (suc f) cbuf s i start) (sym here)
      ∙ step_to s s19 f (at + 0) stop one e (at_stop refl no_digit no_e)
  rest_is_read s f at _ stop one at_e at_stop (exponent c d ds is (dig, digits) no_digit)
        (ec, (ed, st)) e =
      let there : at + length (c ∷ d ∷ ds) ≡ at + 1 + 1 + length ds = omega arith in
      let fuel : length (c ∷ d ∷ ds) + suc f ≡ suc (suc (length ds + suc f)) = omega arith in
      ap (λ k. scan k cbuf s at start) fuel
      ∙ step_to s s16 (suc (length ds + suc f)) at c one ec (at_e c is)
      ∙ step_to s16 s18 (length ds + suc f) (at + 1) d reads16 ed (rw dig refl)
      ∙ exponent_end f (at + 1 + 1) ds stop digits st (ap (get_elem? cbuf) (sym there) ∙ e) no_digit
      ∙ ap (λ i. scan f cbuf s19 (i + 1) start) (sym there)
  rest_is_read s f at _ stop one at_e at_stop (signed c sign d ds is is' (dig, digits) no_digit)
        (ec, (es, (ed, st))) e =
      let there : at + length (c ∷ sign ∷ d ∷ ds) ≡ at + 1 + 1 + 1 + length ds = omega arith in
      let fuel : length (c ∷ sign ∷ d ∷ ds) + suc f ≡ suc (suc (suc (length ds + suc f))) =
        omega arith in
      let no_dig : isdigit sign ≡ false = sign_not_digit sign is' in
      ap (λ k. scan k cbuf s at start) fuel
      ∙ step_to s s16 (suc (suc (length ds + suc f))) at c one ec (at_e c is)
      ∙ step_to s16 s17 (suc (length ds + suc f)) (at + 1) sign reads16 es (rw (no_dig, is') refl)
      ∙ step_to s17 s18 (length ds + suc f) (at + 1 + 1) d reads17 ed (rw dig refl)
      ∙ exponent_end f (at + 1 + 1 + 1) ds stop digits st (ap (get_elem? cbuf) (sym there) ∙ e)
          no_digit
      ∙ ap (λ i. scan f cbuf s19 (i + 1) start) (sym there)

  -- A number whose first digit was read: the rest of it and the character behind.
  pub number_part :
      (f at : ℕ) (number : List ℕ) (stop : ℕ)
      → Number number stop
      → Stands cbuf at (tail_of number)
      → get_elem? cbuf (at + length (tail_of number)) ≡ some stop
      → scan (length (tail_of number) + suc f) cbuf s13 at start
        ≡ scan f cbuf s19 (at + length (tail_of number) + 1) start
  unfolding next_state
  number_part f at _ stop (whole d ds rest (dig, digits) more no_point) st e =
      let (st₁, st₂) = Stands-append cbuf at ds rest st in
      let n = length-append ds rest in
      let fuel : length (ds ++ rest) + suc f ≡ length ds + (length rest + suc f) =
        omega (arith, n) in
      let there : at + length (ds ++ rest) ≡ at + length ds + length rest = omega (arith, n) in
      ap (λ k. scan k cbuf s13 at start) fuel
      ∙ read_all s13 (length rest + suc f) at ds reads13 (λ c h. rw h refl) digits st₁
      ∙ rest_is_read s13 f (at + length ds) rest stop reads13 (λ c h. rw (e_not_digit c h, h) refl)
          (λ none_left no_digit no_e. rw (no_digit, no_e, no_point none_left) refl) more st₂
          (ap (get_elem? cbuf) (sym there) ∙ e)
      ∙ ap (λ i. scan f cbuf s19 (i + 1) start) (sym there)
  number_part f at _ stop (fraction d ds d' ds' rest (dig, digits) (dig', digits') more) st e =
      let (st₁, (ep, (ed, st₂))) = Stands-append cbuf at ds (b'.' ∷ d' ∷ (ds' ++ rest)) st in
      let (st₃, st₄) = Stands-append cbuf (at + length ds + 1 + 1) ds' rest st₂ in
      let n = length-append ds (b'.' ∷ d' ∷ (ds' ++ rest)) in
      let n' = length-append ds' rest in
      let after : ℕ = length rest + suc f in
      let all : List ℕ = ds ++ (b'.' ∷ d' ∷ (ds' ++ rest)) in
      let fuel : length all + suc f ≡ length ds + suc (suc (length ds' + after)) =
        omega (arith, n, n') in
      let there : at + length all ≡ at + length ds + 1 + 1 + length ds' + length rest =
        omega (arith, n, n') in
      ap (λ k. scan k cbuf s13 at start) fuel
      ∙ read_all s13 (suc (suc (length ds' + after))) at ds reads13 (λ c h. rw h refl) digits st₁
      ∙ step_to s13 s14 (suc (length ds' + after)) (at + length ds) b'.' reads13 ep refl
      ∙ step_to s14 s15 (length ds' + after) (at + length ds + 1) d' reads14 ed (rw dig' refl)
      ∙ read_all s15 after (at + length ds + 1 + 1) ds' reads15 (λ c h. rw h refl) digits' st₃
      ∙ rest_is_read s15 f (at + length ds + 1 + 1 + length ds') rest stop reads15
          (λ c h. rw (e_not_digit c h, h) refl)
          (λ none_left no_digit no_e. rw (no_digit, no_e) refl) more st₄
          (ap (get_elem? cbuf) (sym there) ∙ e)
      ∙ ap (λ i. scan f cbuf s19 (i + 1) start) (sym there)
