-- ===== src/Locker/Safety.antt =====
-- Who holds the lock of locker.c, in every state that threads reach.
use mathlib.Core.Path.{subst}
use chunxiao_code.Prelude.{
  ℕ, zero, suc, ◌<◌, ◌≡◌, refl, sym, some, Bool, Bool-cases, inl, inr, true, false, not, ◌==◌,
  ==_iff, arith,
}
use chunxiao_code.Prelude.Int.{pos}
use chunxiao_code.Locker.{
  Pthread, Locker, Pc, out, lock_test, lock_again, lock_real, lock_count, lock_owner, unlock_test,
  unlock_count, unlock_zero, unlock_owner, unlock_real, CommValue, update, World, Step, calls_lock,
  calls_unlock, runs, Reach, start, later, task_self,
}
use chunxiao_code.Locker.Invariant.{
  Laws, Apart, not_named, Says, view, between, Effect, Effect-Says, Kept, step-Kept,
}

-- How often a thread has taken the lock and not given it back.
abbrev pub depth : Pc → ℕ
depth (out d ret) = d
depth (lock_test d) = d
depth (lock_again d) = d
depth (lock_real d) = d
depth (lock_count d) = d
depth (lock_owner d) = d
depth (unlock_test d) = d
depth (unlock_count d) = d
depth (unlock_zero d) = d
depth (unlock_owner d) = d
depth (unlock_real d) = d

-- A test of `owner`, at the start of both functions.
pub data Tests (d : ℕ) : Pc → Type 0 where
  locks : Tests d (lock_test d)
  unlocks : Tests d (unlock_test d)

module _ {M : Type 0} {pthread : Pthread M} (laws : Laws pthread) {team : ℕ → Bool}
    (members : Apart team) where
  abbrev Inv : World pthread → Type 0
  Inv w = (t : ℕ) → team t ≡ true → Says laws members (w.locker) t (view (w.pc t))

  -- Thread `t` goes to `p` and has the effect `e`.
  moved-Inv :
      (w : World pthread) (t : ℕ) (l : Locker M) (p : Pc)
      → Effect laws members t (w.locker) l
      → Says laws members l t (view p)
      → Inv w
      → Inv (record { locker = l; pc = update pthread (w.pc) t p })
  moved-Inv w t l p e s inv u mem_u = elim (Bool-cases (u == t)) [
    | inl same ↦ rw same (subst (λ k. Says laws members l k (view p)) (sym ((==_iff u t).0 same)) s)
    | inr other ↦
        rw other
          (Effect-Says laws members t u (w.locker) l (view (w.pc u)) mem_u other e (inv u mem_u))
  ]

  follow-Inv :
      (w : World pthread) (t : ℕ) (l : Locker M) (p : Pc)
      → Kept laws members t (w.locker) (some (l, p))
      → Inv w
      → Inv (record { locker = l; pc = update pthread (w.pc) t p })
  follow-Inv w t l p (e, s) inv = moved-Inv w t l p e s inv

  Step-Inv : {w w' : World pthread} → Step pthread team w w' → Inv w → Inv w'
  Step-Inv {w} (calls_lock t d ret mem_t at) inv =
      moved-Inv w t (w.locker) (lock_test d) (Effect.quiet refl refl refl)
        (subst (λ q. Says laws members (w.locker) t (view q)) at (inv t mem_t)) inv
  Step-Inv {w} (calls_unlock t d ret mem_t at) inv =
      moved-Inv w t (w.locker) (unlock_test d) (Effect.quiet refl refl refl)
        (subst (λ q. Says laws members (w.locker) t (view q)) at (inv t mem_t)) inv
  Step-Inv {w} (runs t l p mem_t e) inv =
      follow-Inv w t l p
        (subst (Kept laws members t (w.locker)) e
          (step-Kept laws members t (w.locker) (w.pc t) mem_t (inv t mem_t)))
        inv

  Reach-Inv : {priv : M} {w : World pthread} → Reach pthread team priv w → Inv w
  Reach-Inv start = λ t mem_t. not_named laws members (task_self t) (members.named t mem_t)
  Reach-Inv (later r s) = Step-Inv s (Reach-Inv r)

  -- A thread that has taken the lock holds the mutex.
  Says-depth :
      (l : Locker M) (t : ℕ) (p : Pc)
      → Says laws members l t (view p)
      → 0 < depth p
      → laws.holder (l.priv) ≡ some t
  Says-depth l t (out zero ret) s h = absurd (omega arith)
  Says-depth l t (out (suc d) ret) (s, _, _) h = s
  Says-depth l t (lock_test zero) s h = absurd (omega arith)
  Says-depth l t (lock_test (suc d)) (s, _, _) h = s
  Says-depth l t (lock_again zero) s h = absurd (omega arith)
  Says-depth l t (lock_again (suc d)) (s, _, _) h = s
  Says-depth l t (lock_real zero) s h = absurd (omega arith)
  Says-depth l t (lock_real (suc d)) s h = absurd cc
  Says-depth l t (lock_count zero) s h = absurd (omega arith)
  Says-depth l t (lock_count (suc d)) s h = absurd cc
  Says-depth l t (lock_owner zero) s h = absurd (omega arith)
  Says-depth l t (lock_owner (suc d)) s h = absurd cc
  Says-depth l t (unlock_test zero) s h = absurd (omega arith)
  Says-depth l t (unlock_test (suc d)) (s, _, _) h = s
  Says-depth l t (unlock_count zero) s h = absurd (omega arith)
  Says-depth l t (unlock_count (suc d)) (s, _, _) h = s
  Says-depth l t (unlock_zero zero) s h = absurd (omega arith)
  Says-depth l t (unlock_zero (suc d)) (s, _, _) h = s
  Says-depth l t (unlock_owner zero) s h = absurd (omega arith)
  Says-depth l t (unlock_owner (suc d)) s h = absurd cc
  Says-depth l t (unlock_real zero) s h = absurd (omega arith)
  Says-depth l t (unlock_real (suc d)) s h = absurd cc

  -- For a mutex that behaves as documented and a team of threads whose pthread_self values, cut
  -- to an int by task_self, are distinct and not 0: in every state that they reach from a new
  -- locker, in any order of the single accesses of locker_loop_lock and locker_loop_unlock, while
  -- one of them has taken the lock more often than it gave it back, no other has.
  pub depth-excludes :
      {priv : M} {w : World pthread} (t u : ℕ)
      → Reach pthread team priv w
      → team t ≡ true
      → team u ≡ true
      → (u == t) ≡ false
      → 0 < depth (w.pc t)
      → depth (w.pc u) ≡ 0
  depth-excludes {w = w} t u r mem_t mem_u other deep = elim (Bool-cases (depth (w.pc u) == 0)) [
    | inl none_left ↦ (==_iff (depth (w.pc u)) 0).0 none_left
    | inr some_left ↦
        let mine : laws.holder (w.locker.priv) ≡ some t =
          Says-depth (w.locker) t (w.pc t) (Reach-Inv r t mem_t) deep in
        let theirs : laws.holder (w.locker.priv) ≡ some u =
          Says-depth (w.locker) u (w.pc u) (Reach-Inv r u mem_u) (ground arith) in
        absurd (ground (arith, mine, theirs))
  ]

  between-owner :
      (l : Locker M) (t d : ℕ)
      → Says laws members l t (between d)
      → (l.owner == task_self t) ≡ not (d == 0)
  between-owner l t zero s = s
  between-owner l t (suc d) (s, o, r) = ground arith

  Tests-owner :
      (l : Locker M) (t d : ℕ) (p : Pc)
      → Tests d p
      → Says laws members l t (view p)
      → (l.owner == task_self t) ≡ not (d == 0)
  Tests-owner l t d _ locks s = between-owner l t d s
  Tests-owner l t d _ unlocks s = between-owner l t d s

  -- In every state that such a team reaches with a mutex that behaves as documented, when one of
  -- its threads is about to test owner against its task_self, which both functions do without
  -- holding the mutex, the test is true exactly if that thread has taken the lock more often than
  -- it gave it back.
  pub owner-Tests :
      {priv : M} {w : World pthread} (t d : ℕ)
      → Reach pthread team priv w
      → team t ≡ true
      → Tests d (w.pc t)
      → (w.locker.owner == task_self t) ≡ not (d == 0)
  owner-Tests {w = w} t d r mem_t tests =
      Tests-owner (w.locker) t d (w.pc t) tests (Reach-Inv r t mem_t)

  between-counts :
      (l : Locker M) (t d : ℕ)
      → Says laws members l t (between (suc d))
      → (l.owner ≡ task_self t) × (l.refcount ≡ pos (suc d))
  between-counts l t d (s, o, r) = (o, r)

  pub refcount-depth :
      {priv : M} {w : World pthread} (t d : ℕ) (ret : CommValue)
      → Reach pthread team priv w
      → team t ≡ true
      → w.pc t ≡ out (suc d) ret
      → (w.locker.owner ≡ task_self t) × (w.locker.refcount ≡ pos (suc d))
  refcount-depth {w = w} t d ret r mem_t at =
      between-counts (w.locker) t d
        (subst (λ p. Says laws members (w.locker) t (view p)) at (Reach-Inv r t mem_t))
