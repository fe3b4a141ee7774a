-- ===== src/Brainfuck/Commands.antt =====
-- What the commands of the language besides the loop mean, and what brainfuck1.c does for them.
use mathlib.Core.Path.{subst}
use chunxiao_code.Prelude.{
  ℕ, ◌+◌, ◌-◌, ◌%◌, ◌<◌, ◌≡◌, refl, ap, sym, ◌∙◌, List, [], ◌∷◌, ◌++◌, map, some, Bool-cases, inl,
  inr, false, ◌==◌, ==_iff, arith, length, length-set, get_elem?, get_elem?-set_self,
  get_elem?-set_ne, if◌then◌else◌,
}
use chunxiao_code.Prelude.Fault.{◌>>=◌}
use chunxiao_code.Brainfuck.{
  Tape, here, op, vm_forward, vm_backward, vm_increment, vm_decrement, vm_input, vm_output, put,
}
use chunxiao_code.Brainfuck.Rounds.{effect}

-- The six commands of the language besides the loop.
pub data Command : Type 0 where
  go_right go_left add_one take_one print_cell read_cell : Command

abbrev pub char_of : Command → ℕ
char_of go_right = b'>'
char_of go_left = b'<'
char_of add_one = b'+'
char_of take_one = b'-'
char_of print_cell = b'.'
char_of read_cell = b','

abbrev pub NoneOf : ℕ → List ℕ → Type 0
NoneOf c [] = Unit
NoneOf c (d ∷ ds) = ((c == d) ≡ false) × NoneOf c ds

-- The characters of the language, and the end of a string.
abbrev pub marks : List ℕ
marks = b'>' ∷ b'<' ∷ b'+' ∷ b'-' ∷ b'.' ∷ b',' ∷ b'[' ∷ b']' ∷ 0 ∷ []

-- The commands of a text, between which any other characters may stand.
pub data Spells : List Command → List ℕ → Type 0 where
  done : Spells [] []
  token :
      {prog : List Command} {text : List ℕ} (k : Command)
      → Spells prog text
      → Spells (k ∷ prog) (char_of k ∷ text)
  comment :
      {prog : List Command} {text : List ℕ} (c : ℕ)
      → NoneOf c marks
      → Spells prog text
      → Spells prog (c ∷ text)

-- A tape of 30000 cells of one byte that is closed to a ring, and what was printed.
pub record Machine : Type 0 where
  pub cell : ℕ → ℕ
  pub place : ℕ
  pub printed : List ℕ

abbrev pub write : Machine → ℕ → Machine
write m v = record m { cell = λ i. if i == m.place then v else m.cell i }

-- What a command means where no input is left, so that a read gives the byte of -1.
abbrev pub does : Command → Machine → Machine
does go_right m = record m { place = if m.place == 29999 then 0 else m.place + 1 }
does go_left m = record m { place = if m.place == 0 then 29999 else m.place - 1 }
does add_one m = write m (if m.cell m.place == 255 then 0 else m.cell m.place + 1)
does take_one m = write m (if m.cell m.place == 0 then 255 else m.cell m.place - 1)
does print_cell m = record m { printed = m.printed ++ (m.cell m.place ∷ []) }
does read_cell m = write m 255

abbrev pub all_of : List Command → Machine → Machine
all_of [] m = m
all_of (k ∷ prog) m = all_of prog (does k m)

abbrev pub start : Machine
start = record { cell = λ i. 0; place = 0; printed = [] }

-- The tape of the code stands for such a machine.
pub record Shows (t : Tape) (m : Machine) : Type 0 where
  pub size : length t.ds ≡ 30000
  pub place : t.bp ≡ m.place
  pub inside : m.place < 30000
  pub cells : (i : ℕ) → i < 30000 → get_elem? t.ds i ≡ some (m.cell i)
  pub bytes : (i : ℕ) → m.cell i < 256
  pub printed : t.output ≡ m.printed
  pub no_input : t.input ≡ []

here-Shows : (t : Tape) (m : Machine) → Shows t m → here t ≡ some (m.cell m.place)
here-Shows t m s = ap (get_elem? t.ds) s.place ∙ s.cells m.place s.inside

write-bytes :
    (m : Machine) (v : ℕ)
    → v < 256
    → ((i : ℕ) → m.cell i < 256)
    → (i : ℕ) → (write m v).cell i < 256
write-bytes m v h bytes i = elim (Bool-cases (i == m.place)) [
  | inl same ↦ rw same h
  | inr other ↦ rw other (bytes i)
]

set-cells :
    (t : Tape) (m : Machine) (v : ℕ)
    → Shows t m
    → (i : ℕ) → i < 30000
    → get_elem? (put t v).ds i ≡ some ((write m v).cell i)
set-cells t m v s i lt = elim (Bool-cases (i == m.place)) [
  | inl same ↦
      let here_i : t.bp ≡ i = s.place ∙ sym ((==_iff i m.place).0 same) in
      rw same (
        ap (get_elem? (put t v).ds) (sym here_i)
        ∙ get_elem?-set_self t.ds t.bp v (omega (arith, s.size, s.place, s.inside)))
  | inr other ↦
      rw other
        (get_elem?-set_ne t.ds v (λ e. absurd (ground (arith, e, s.place, other))) ∙ s.cells i lt)
]

put-Shows : (t : Tape) (m : Machine) (v : ℕ) → v < 256 → Shows t m → Shows (put t v) (write m v)
put-Shows t m v h s = record {
  size = length-set t.ds t.bp v ∙ s.size;
  place = s.place;
  inside = s.inside;
  cells = set-cells t m v s;
  bytes = write-bytes m v h s.bytes;
  printed = s.printed;
  no_input = s.no_input;
}

moved-Shows :
    (t : Tape) (m : Machine) (b p : ℕ)
    → b ≡ p
    → p < 30000
    → Shows t m
    → Shows (record t { bp = b }) (record m { place = p })
moved-Shows t m b p e lt s = record {
  size = s.size;
  place = e;
  inside = lt;
  cells = s.cells;
  bytes = s.bytes;
  printed = s.printed;
  no_input = s.no_input;
}

-- What is to be shown of a command.
abbrev Done : Command → Tape → Machine → Type 0
Done k t m = (t' : Tape) × (op (char_of k) t ≡ some t') × Shows t' (does k m)

next_byte :
    (v : ℕ) → v < 256 → ((v + 1) % 256 ≡ (if v == 255 then 0 else v + 1)) × ((v + 1) % 256 < 256)
next_byte v h = (ground arith, omega arith)

last_byte :
    (v : ℕ)
    → v < 256
    → ((v + 255) % 256 ≡ (if v == 0 then 255 else v - 1)) × ((v + 255) % 256 < 256)
last_byte v h = (ground arith, omega arith)

right_of : (b : ℕ) → b < 30000 → (b + 1) % 30000 ≡ (if b == 29999 then 0 else b + 1)
right_of b h = ground arith

left_of : (b : ℕ) → b < 30000 → (b + 30000 - 1) % 30000 ≡ (if b == 0 then 29999 else b - 1)
left_of b h = ground arith

put-Done :
    (t : Tape) (m : Machine) (v w : ℕ) → v ≡ w → v < 256 → Shows t m → Shows (put t v) (write m w)
put-Done t m v w e h s = subst (λ x. Shows (put t v) (write m x)) e (put-Shows t m v h s)

does-Shows : (k : Command) (t : Tape) (m : Machine) → Shows t m → Done k t m
unfolding op vm_forward vm_backward vm_increment vm_decrement vm_input vm_output
does-Shows go_right t m s =
    let at : (t.bp + 1) % 30000 ≡ (if m.place == 29999 then 0 else m.place + 1) =
      ap (λ b. (b + 1) % 30000) s.place ∙ right_of m.place s.inside in
    (_, refl, moved-Shows t m _ _ at (ground (arith, s.inside)) s)
does-Shows go_left t m s =
    let at : (t.bp + 30000 - 1) % 30000 ≡ (if m.place == 0 then 29999 else m.place - 1) =
      ap (λ b. (b + 30000 - 1) % 30000) s.place ∙ left_of m.place s.inside in
    (_, refl, moved-Shows t m _ _ at (ground (arith, s.inside)) s)
does-Shows add_one t m s =
    let v = m.cell m.place in
    let (e, h) = next_byte v (s.bytes m.place) in
    (put t ((v + 1) % 256), rw (here-Shows t m s) refl, put-Done t m ((v + 1) % 256) _ e h s)
does-Shows take_one t m s =
    let v = m.cell m.place in
    let (e, h) = last_byte v (s.bytes m.place) in
    (put t ((v + 255) % 256), rw (here-Shows t m s) refl, put-Done t m ((v + 255) % 256) _ e h s)
does-Shows print_cell t m s =
    let v = m.cell m.place in
    (
      record t { output = t.output ++ (v ∷ []) },
      rw (here-Shows t m s) refl,
      record {
        size = s.size;
        place = s.place;
        inside = s.inside;
        cells = s.cells;
        bytes = s.bytes;
        printed = ap (λ o. o ++ (v ∷ [])) s.printed;
        no_input = s.no_input;
      },
    )
does-Shows read_cell t m s = (
  record (put t 255) { input = [] },
  rw (here-Shows t m s, s.no_input) refl,
  record {
    size = length-set t.ds t.bp 255 ∙ s.size;
    place = s.place;
    inside = s.inside;
    cells = set-cells t m 255 s;
    bytes = write-bytes m 255 (omega arith) s.bytes;
    printed = s.printed;
    no_input = refl;
  },
)

pub all_of-Shows :
    (prog : List Command) (t : Tape) (m : Machine)
    → Shows t m
    → (t' : Tape) × (effect (map char_of prog) t ≡ some t') × Shows t' (all_of prog m)
all_of-Shows [] t m s = (t, refl, s)
all_of-Shows (k ∷ prog) t m s =
    let (t₁, e₁, s₁) = does-Shows k t m s in
    let (t', e, s') = all_of-Shows prog t₁ (does k m) s₁ in
    (t', ap (λ o. o >>= effect (map char_of prog)) e₁ ∙ e, s')
