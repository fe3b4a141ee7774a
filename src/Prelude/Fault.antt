-- ===== src/Prelude/Fault.antt =====
-- Computations that may fault: `none` stands for an access outside an array, a read of a cell that
-- was never written, or a loop that has used up its fuel.
use mathlib.Core.Path.{subst}
use chunxiao_code.Prelude.{◌≡◌, refl, Option, none, some, Bool, true, false, if◌then◌else◌}

infixl 5 ◌>>=◌ ◌>>◌
abbrev pub ◌>>=◌ {ℓ κ} : {A : Type ℓ} {B : Type κ} → Option A → (A → Option B) → Option B
none >>= f = none
some a >>= f = f a

abbrev pub ◌>>◌ {ℓ κ} : {A : Type ℓ} {B : Type κ} → Option A → Option B → Option B
m >> k = m >>= λ _. k

-- A computation that did not fault has one result.
pub some-cancel {ℓ} : {A : Type ℓ} (a b : A) → some a ≡ some b → a ≡ b
some-cancel a b h = cc

-- The first part of a computation that did not fault did not fault.
pub bind_cases {ℓ κ} :
    {A : Type ℓ} {B : Type κ} (m : Option A) (f : A → Option B) (b : B)
    → (m >>= f) ≡ some b
    → (a : A) × (m ≡ some a) × (f a ≡ some b)
bind_cases none f b e = absurd cc
bind_cases (some a) f b e = (a, refl, e)

-- A result that is no fault has the property.
abbrev pub Each {ℓ} : {A : Type ℓ} → (A → Type 0) → Option A → Type 0
Each P none = Unit
Each P (some a) = P a

pub Each-bind {ℓ κ} :
    {A : Type ℓ} {B : Type κ} (P : B → Type 0) (f : A → Option B) (m : Option A)
    → ((a : A) → m ≡ some a → Each P (f a))
    → Each P (m >>= f)
Each-bind P f none h = tt
Each-bind P f (some a) h = h a refl

pub Each-if :
    {B : Type 0} (P : B → Type 0) (o o' : Option B) (b : Bool)
    → (b ≡ true → Each P o)
    → (b ≡ false → Each P o')
    → Each P (if b then o else o')
Each-if P o o' true h h' = h refl
Each-if P o o' false h h' = h' refl

pub Each-some {ℓ} :
    {A : Type ℓ} (P : A → Type 0) (o : Option A) (a : A) → Each P o → o ≡ some a → P a
Each-some P none a h e = absurd cc
Each-some P (some b) a h e = subst P (some-cancel b a e) h

pub Each-elim :
    {A : Type 0} (P : A → Type 0) (o o' : Option A) (b : Bool)
    → (b ≡ false → Each P o)
    → (b ≡ true → Each P o')
    → Each P (elim b [ false ↦ o | true ↦ o' ])
Each-elim P o o' false h h' = h refl
Each-elim P o o' true h h' = h' refl

pub Each-map :
    {A : Type 0} (P Q : A → Type 0) (o : Option A) → ((a : A) → P a → Q a) → Each P o → Each Q o
Each-map P Q none f h = tt
Each-map P Q (some a) f h = f a h
