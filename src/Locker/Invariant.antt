-- ===== src/Locker/Invariant.antt =====
-- What holds of the lock of locker.c while threads run by turns.
use chunxiao_code.Prelude.{
  ℕ, zero, suc, ◌<◌, ◌≡◌, refl, ap, sym, ◌∙◌, ◌⊎◌, Option, none, some, Option-cases, Bool,
  Bool-cases, inl, inr, true, false, ◌==◌, ==_iff, leb, arith, if◌then◌else◌,
}
use chunxiao_code.Prelude.Int.{pos}
use chunxiao_code.Locker.{
  ret_fail, Pthread, Locker, Pc, out, lock_test, lock_again, lock_real, lock_count, lock_owner,
  unlock_test, unlock_count, unlock_zero, unlock_owner, unlock_real, locker_pthread_lock,
  locker_pthread_unlock, step, task_self,
}

-- What the manual of the thread library says of a mutex: it has one holder or none; lock succeeds when
-- there is none and changes nothing when it fails; unlock by the holder leaves none.
pub record Laws {M : Type 0} (pthread : Pthread M) : Type 0 where
  pub holder : M → Option ℕ
  pub lock_takes :
      (t : ℕ) (m m' : M)
      → pthread.pthread_mutex_lock t m ≡ some (0, m')
      → (holder m ≡ none) × (holder m' ≡ some t)
  pub lock_fails :
      (t e : ℕ) (m m' : M)
      → pthread.pthread_mutex_lock t m ≡ some (suc e, m')
      → holder m' ≡ holder m
  pub unlock_frees :
      (t : ℕ) (m : M) → holder m ≡ some t → holder ((pthread.pthread_mutex_unlock t m).1) ≡ none

-- The threads of a team: what `task_self` gives for them is not 0, and tells them apart.
pub record Apart (team : ℕ → Bool) : Type 0 where
  pub named : (t : ℕ) → team t ≡ true → 0 < task_self t
  pub apart : (t u : ℕ) → team t ≡ true → team u ≡ true → task_self t ≡ task_self u → t ≡ u

-- What a thread may say of the lock, by its place.
pub data View : Type 0 where
  outside : View  -- it does not hold the mutex
  inside : (d : ℕ) → View  -- it is the owner, and `refcount` is d
  taken : View  -- it holds the mutex and is not the owner
  counted : View  -- so, and `refcount` is 1
  broken : View  -- nothing brings it here

abbrev pub between : ℕ → View
between zero = outside
between (suc d) = inside (suc d)

abbrev pub at_zero : View → ℕ → View
at_zero v zero = v
at_zero v (suc d) = broken

abbrev pub at_suc : ℕ → View
at_suc zero = broken
at_suc (suc d) = inside (suc d)

abbrev pub view : Pc → View
view (out d ret) = between d
view (lock_test d) = between d
view (lock_again d) = at_suc d
view (lock_real d) = at_zero outside d
view (lock_count d) = at_zero taken d
view (lock_owner d) = at_zero counted d
view (unlock_test d) = between d
view (unlock_count d) = at_suc d
view (unlock_zero d) = inside d
view (unlock_owner d) = at_zero (inside 0) d
view (unlock_real d) = at_zero taken d

module _ {M : Type 0} {pthread : Pthread M} (laws : Laws pthread) {team : ℕ → Bool}
    (members : Apart team) where
  abbrev pub held_by : Locker M → Option ℕ
  held_by l = laws.holder (l.priv)

  abbrev pub Says : Locker M → ℕ → View → Type 0
  Says l t outside = (l.owner == task_self t) ≡ false
  Says l t (inside d) = (held_by l ≡ some t) × (l.owner ≡ task_self t) × (l.refcount ≡ pos d)
  Says l t taken = (held_by l ≡ some t) × ((l.owner == task_self t) ≡ false)
  Says l t counted =
      (held_by l ≡ some t) × ((l.owner == task_self t) ≡ false) × (l.refcount ≡ pos 1)
  Says l t broken = ◌≡◌ {A = Bool} true false

  -- What a step of `t` may do to the lock: nothing that another thread sees, or it holds the mutex before
  -- or nobody does, and it does not make another thread the owner.
  pub data Effect (t : ℕ) (l l' : Locker M) : Type 0 where
    quiet : l'.owner ≡ l.owner → l'.refcount ≡ l.refcount → held_by l' ≡ held_by l → Effect t l l'
    alone :
        ((u : ℕ) → held_by l ≡ some u → u ≡ t)
        → ((u : ℕ)
            → team u ≡ true
            → (u == t) ≡ false
            → (l.owner == task_self u) ≡ false
            → (l'.owner == task_self u) ≡ false)
        → Effect t l l'

  by_holder : (t u : ℕ) (l : Locker M) → held_by l ≡ some t → held_by l ≡ some u → u ≡ t
  by_holder t u l h h' = cc

  by_none : (t u : ℕ) (l : Locker M) → held_by l ≡ none → held_by l ≡ some u → u ≡ t
  by_none t u l h h' = absurd cc

  -- Another thread, of which `v` is true, before and after such a step.
  pub Effect-Says :
      (t u : ℕ) (l l' : Locker M) (v : View)
      → team u ≡ true
      → (u == t) ≡ false
      → Effect t l l'
      → Says l u v
      → Says l' u v
  Effect-Says t u l l' outside mem_u ne (quiet o r h) s = rw o s
  Effect-Says t u l l' (inside d) mem_u ne (quiet o r h) (s, s', s'') = (h ∙ s, o ∙ s', r ∙ s'')
  Effect-Says t u l l' taken mem_u ne (quiet o r h) (s, s') = (h ∙ s, rw o s')
  Effect-Says t u l l' counted mem_u ne (quiet o r h) (s, s', s'') = (h ∙ s, rw o s', r ∙ s'')
  Effect-Says t u l l' broken mem_u ne (quiet o r h) s = s
  Effect-Says t u l l' outside mem_u ne (alone only keeps) s = keeps u mem_u ne s
  Effect-Says t u l l' (inside d) mem_u ne (alone only keeps) (s, s', s'') =
      absurd (ground (arith, only u s))
  Effect-Says t u l l' taken mem_u ne (alone only keeps) (s, s') = absurd (ground (arith, only u s))
  Effect-Says t u l l' counted mem_u ne (alone only keeps) (s, s', s'') =
      absurd (ground (arith, only u s))
  Effect-Says t u l l' broken mem_u ne (alone only keeps) s = absurd cc

  -- What is to be shown of a step: its effect, and what the thread may say then.
  abbrev pub Kept : ℕ → Locker M → Option (Locker M × Pc) → Type 0
  Kept t l none = Unit
  Kept t l (some (l', p)) = Effect t l l' × Says l' t (view p)

  unchanged : (t : ℕ) (l : Locker M) → Effect t l l
  unchanged t l = quiet refl refl refl

  -- A step of the holder that leaves the owner.
  by_mine : (t : ℕ) (l l' : Locker M) → held_by l ≡ some t → l'.owner ≡ l.owner → Effect t l l'
  by_mine t l l' h o = alone (λ u h'. by_holder t u l h h') (λ u mem_u ne s. rw o s)

  pub not_named : (n : ℕ) → 0 < n → (0 == n) ≡ false
  not_named n h = ground arith

  -- A step of the holder that writes the owner.
  by_owner :
      (t : ℕ) (l l' : Locker M)
      → held_by l ≡ some t
      → team t ≡ true
      → ((l'.owner ≡ task_self t) ⊎ (l'.owner ≡ 0))
      → Effect t l l'
  by_owner t l l' h mem (inl o) =
      alone (λ u h'. by_holder t u l h h')
        (λ u mem_u ne s. elim (Bool-cases (task_self t == task_self u)) [
          | inl same ↦ absurd (
              ground (
                arith,
                members.apart u t mem_u mem (sym ((==_iff (task_self t) (task_self u)).0 same)),
              ))
          | inr other ↦ rw o other
        ])
  by_owner t l l' h mem (inr o) =
      alone (λ u h'. by_holder t u l h h')
        (λ u mem_u ne s. rw o (not_named (task_self u) (members.named u mem_u)))

  test-Kept :
      (t : ℕ) (l : Locker M) (p p' : Pc)
      → ((l.owner == task_self t) ≡ true → Says l t (view p))
      → ((l.owner == task_self t) ≡ false → Says l t (view p'))
      → Kept t l (some (l, if l.owner == task_self t then p else p'))
  test-Kept t l p p' yes_says no_says = elim (Bool-cases (l.owner == task_self t)) [
    | inl e ↦ rw e (unchanged t l, yes_says e)
    | inr e ↦ rw e (unchanged t l, no_says e)
  ]

  refl_eq : (t u : ℕ) → t ≡ u → (t == u) ≡ true
  refl_eq t u e = ground arith

  lock_real-Kept :
      (t : ℕ) (l : Locker M) → Says l t outside → Kept t l (step pthread t l (lock_real 0))
  unfolding step locker_pthread_lock
  lock_real-Kept t l s = elim (Option-cases (pthread.pthread_mutex_lock t (l.priv))) [
    | inl e ↦ rw e tt
    | inr ((zero, m), e) ↦ rw e (
        let (free, mine) = laws.lock_takes t (l.priv) m e in
        (alone (λ u h. by_none t u l free h) (λ u mem_u ne k. k), (mine, s)))
    | inr ((suc n, m), e) ↦ rw e (quiet refl refl (laws.lock_fails t n (l.priv) m e), s)
  ]

  unlock_real-Kept :
      (t : ℕ) (l : Locker M) → Says l t taken → Kept t l (step pthread t l (unlock_real 0))
  unfolding step locker_pthread_unlock
  unlock_real-Kept t l (s, o) = (alone (λ u h. by_holder t u l s h) (λ u mem_u ne k. k), o)

  pub step-Kept :
      (t : ℕ) (l : Locker M) (p : Pc)
      → team t ≡ true
      → Says l t (view p)
      → Kept t l (step pthread t l p)
  unfolding step
  step-Kept t l (out _ ret) mem_t s = tt
  step-Kept t l (lock_test zero) mem_t s =
      test-Kept t l (lock_again 0) (lock_real 0) (λ e. cc) (λ e. e)
  step-Kept t l (lock_test (suc n)) mem_t (s, o, r) =
      test-Kept t l (lock_again (suc n)) (lock_real (suc n)) (λ e. (s, o, r))
        (λ e. cc (e, refl_eq (l.owner) (task_self t) o))
  step-Kept t l (lock_again zero) mem_t s = absurd cc
  step-Kept t l (lock_again (suc n)) mem_t (s, o, r) =
      elim (Bool-cases (leb 2_147_483_647 (suc n))) [
        | inl e ↦ rw (r, e) tt
        | inr e ↦ rw (r, e) (by_mine t _ _ s refl, (s, o, refl))
      ]
  step-Kept t l (lock_real zero) mem_t s = lock_real-Kept t l s
  step-Kept t l (lock_real (suc n)) mem_t s = absurd cc
  step-Kept t l (lock_count zero) mem_t (s, o) = (by_mine t l _ s refl, (s, o, refl))
  step-Kept t l (lock_count (suc n)) mem_t s = absurd cc
  step-Kept t l (lock_owner zero) mem_t (s, o, r) =
      (by_owner t l _ s mem_t (inl refl), (s, refl, r))
  step-Kept t l (lock_owner (suc n)) mem_t s = absurd cc
  step-Kept t l (unlock_test zero) mem_t s =
      test-Kept t l (unlock_count 0) (out 0 ret_fail) (λ e. cc) (λ e. e)
  step-Kept t l (unlock_test (suc n)) mem_t (s, o, r) =
      test-Kept t l (unlock_count (suc n)) (out (suc n) ret_fail) (λ e. (s, o, r)) (λ e. (s, o, r))
  step-Kept t l (unlock_count zero) mem_t s = absurd cc
  step-Kept t l (unlock_count (suc n)) mem_t (s, o, r) =
      rw r (by_mine t _ _ s refl, (s, o, ap pos (omega arith)))
  step-Kept t l (unlock_zero zero) mem_t (s, o, r) = rw r (unchanged t _, (s, o, refl))
  step-Kept t l (unlock_zero (suc n)) mem_t (s, o, r) =
      let more : (suc n == 0) ≡ false = ground arith in rw (r, more) (unchanged t _, (s, o, refl))
  step-Kept t l (unlock_owner zero) mem_t (s, o, r) =
      (by_owner t l _ s mem_t (inr refl), (s, not_named (task_self t) (members.named t mem_t)))
  step-Kept t l (unlock_owner (suc n)) mem_t s = absurd cc
  step-Kept t l (unlock_real zero) mem_t s = unlock_real-Kept t l s
  step-Kept t l (unlock_real (suc n)) mem_t s = absurd cc
