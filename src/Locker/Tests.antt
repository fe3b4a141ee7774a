-- ===== src/Locker/Tests.antt =====
-- A mutex, two threads that want the lock, and each theorem there.
use chunxiao_code.Prelude.{
  ℕ, suc, ◌≡◌, refl, ap, sym, ◌∙◌, ◌⊎◌, inl, inr, Option, none, some, Bool, Bool-cases, true, not,
  ◌||◌, ◌==◌, ==_iff, arith,
}
use chunxiao_code.Locker.{
  Pthread, ret_ok, step, World, calls_lock, runs, Reach, start, later, locker_pthread_lock,
  task_self,
}
use chunxiao_code.Locker.Invariant.{Laws, Apart}
use chunxiao_code.Locker.Safety.{depth, locks, depth-excludes, owner-Tests}

abbrev mutex : Pthread (Option ℕ)
mutex = record {
  pthread_mutex_lock = λ t m. elim m [ none ↦ some (0, some t) | some u ↦ none ];
  pthread_mutex_unlock = λ t m. (0, none);
}

mutex-takes :
    (t : ℕ) (m m' : Option ℕ)
    → mutex.pthread_mutex_lock t m ≡ some (0, m')
    → (m ≡ none) × (m' ≡ some t)
mutex-takes t none m' e = (refl, cc)
mutex-takes t (some u) m' e = absurd cc

mutex-never_fails :
    (t e : ℕ) (m m' : Option ℕ) → mutex.pthread_mutex_lock t m ≡ some (suc e, m') → m' ≡ m
mutex-never_fails t e none m' h = absurd (ground arith)
mutex-never_fails t e (some u) m' h = absurd cc

mutex-Laws : Laws mutex
mutex-Laws = record {
  holder = λ m. m;
  lock_takes = mutex-takes;
  lock_fails = mutex-never_fails;
  unlock_frees = λ t m h. refl;
}

-- Two threads, by what `pthread_self` gives.
abbrev first : ℕ
first = 0x7f0000001700

abbrev second : ℕ
second = 0x7f0000002800

abbrev team : ℕ → Bool
team t = t == first || t == second

of_team : (t : ℕ) → team t ≡ true → (t ≡ first) ⊎ (t ≡ second)
of_team t h = elim (Bool-cases (t == first)) [
  | inl is ↦ inl ((==_iff t first).0 is)
  | inr other ↦ inr ((==_iff t second).0 (sym (ap (λ b. b || t == second) other) ∙ h))
]

team-Apart : Apart team
unfolding task_self
team-Apart = record {
  named = λ t h. elim (of_team t h) [ inl e ↦ rw e (omega arith) | inr e ↦ rw e (omega arith) ];
  apart = λ t u ht hu e. elim (of_team t ht) [
    | inl a ↦ elim (of_team u hu) [ inl b ↦ a ∙ sym b | inr b ↦ absurd (omega (arith, e, a, b)) ]
    | inr a ↦ elim (of_team u hu) [ inl b ↦ absurd (omega (arith, e, a, b)) | inr b ↦ a ∙ sym b ]
  ];
}

-- Thread `first` has taken the lock and calls it again, thread `second` waits for it.
abbrev contended : (w : World mutex) × Reach mutex team none w
unfolding step locker_pthread_lock task_self
contended = (
  _,
  later
      (later
        (later
          (later
            (later
              (later
                (later (later start (calls_lock first 0 ret_ok refl refl))
                  (runs first _ _ refl refl))
                (runs first _ _ refl refl))
              (runs first _ _ refl refl))
            (runs first _ _ refl refl))
          (calls_lock second 0 ret_ok refl refl))
        (runs second _ _ refl refl))
      (calls_lock first 1 ret_ok refl refl),
)

-- The lock is taken by thread `first`.
abbrev owned : (w : World mutex) × Reach mutex team none w
unfolding step locker_pthread_lock task_self
owned = (
  _,
  later
      (later
        (later
          (later (later start (calls_lock first 0 ret_ok refl refl)) (runs first _ _ refl refl))
          (runs first _ _ refl refl))
        (runs first _ _ refl refl))
      (runs first _ _ refl refl),
)

depth-excludes_example : depth (contended.0.pc second) ≡ 0
unfolding step locker_pthread_lock task_self
depth-excludes_example =
    depth-excludes mutex-Laws team-Apart first second (contended.1) refl refl refl (omega arith)

owner-Tests_example : (contended.0.locker.owner == task_self first) ≡ not (1 == 0)
unfolding step locker_pthread_lock task_self
owner-Tests_example = owner-Tests mutex-Laws team-Apart first 1 (contended.1) refl locks
