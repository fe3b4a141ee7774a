-- ===== src/Locker.antt =====
-- c-study/dllist/chunxiao_list/locker.c and locker_pthread.c: a lock that its owner may take again, for
-- threads that run by turns. A step is one access to the shared fields. A thread is named by what
-- `pthread_self` gives for it; `owner` holds what `task_self` makes of that.
pub mod Invariant
pub mod Safety
mod Tests
use chunxiao_code.Prelude.{
  ℕ, zero, suc, ◌+◌, ◌-◌, ◌%◌, ◌^◌, ◌≡◌, Option, none, some, Bool, true, false, ◌==◌, leb,
  if◌then◌else◌,
}
use chunxiao_code.Prelude.Int.{ℤ, pos, negsuc}
use chunxiao_code.Prelude.Fault.{◌>>=◌}

-- `comm_value_t`
pub data CommValue : Type 0 where
  ret_ok : CommValue
  ret_nomem : CommValue
  ret_stop : CommValue
  ret_invalid_params : CommValue
  ret_fail : CommValue

-- The mutex of the thread library: the result and the mutex after a call by a thread. While
-- `pthread_mutex_lock` waits it gives `none`.
pub record Pthread (M : Type 0) : Type 0 where
  pub pthread_mutex_lock : ℕ → M → Option (ℕ × M)
  pub pthread_mutex_unlock : ℕ → M → ℕ × M

-- `locker_t` with the functions of locker_pthread.c; `priv` is the mutex.
pub record Locker (M : Type 0) : Type 0 where
  pub owner : ℕ
  pub refcount : ℤ
  pub priv : M

-- Where a thread stands, and how many of its calls of lock, less those of unlock, have given RET_OK.
pub data Pc : Type 0 where
  out : (d : ℕ) (ret : CommValue) → Pc  -- between calls, behind one that returned `ret`
  lock_test : (d : ℕ) → Pc  -- `thiz->owner == thiz->task_self()`
  lock_again : (d : ℕ) → Pc  -- `thiz->refcount++`
  lock_real : (d : ℕ) → Pc  -- `thiz->real_lock(thiz)`
  lock_count : (d : ℕ) → Pc  -- `thiz->refcount = 1`
  lock_owner : (d : ℕ) → Pc  -- `thiz->owner = thiz->task_self()`
  unlock_test : (d : ℕ) → Pc  -- `thiz->owner == thiz->task_self()`
  unlock_count : (d : ℕ) → Pc  -- `thiz->refcount--`
  unlock_zero : (d : ℕ) → Pc  -- `thiz->refcount == 0`
  unlock_owner : (d : ℕ) → Pc  -- `thiz->owner = 0`
  unlock_real : (d : ℕ) → Pc  -- `thiz->real_unlock(thiz)`

-- `refcount++` and `refcount--` on an int; an overflow has no meaning.
abbrev pub incremented : ℤ → Option ℤ
incremented (pos n) = if leb 2_147_483_647 n then none else some (pos (suc n))
incremented (negsuc zero) = some (pos 0)
incremented (negsuc (suc n)) = some (negsuc n)

abbrev pub decremented : ℤ → Option ℤ
decremented (pos zero) = some (negsuc 0)
decremented (pos (suc n)) = some (pos n)
decremented (negsuc n) = if leb 2_147_483_647 n then none else some (negsuc (suc n))

abbrev pub is_zero : ℤ → Bool
is_zero (pos n) = n == 0
is_zero (negsuc n) = false

-- `locket_pthread_self`, which returns what `pthread_self` gives as an int: its low 32 bits.
unfoldable pub task_self : ℕ → ℕ
task_self t = t % 2 ^ 32

-- `locker_pthread_lock` and `locker_pthread_unlock`: RET_OK if the library returns 0.
abbrev pub comm_value : ℕ → CommValue
comm_value zero = ret_ok
comm_value (suc e) = ret_fail

module _ {M : Type 0} (pthread : Pthread M) where
  unfoldable pub locker_pthread_lock : ℕ → M → Option (CommValue × M)
  locker_pthread_lock t priv =
      pthread.pthread_mutex_lock t priv >>= λ (e, priv'). some (comm_value e, priv')

  unfoldable pub locker_pthread_unlock : ℕ → M → CommValue × M
  locker_pthread_unlock t priv =
      let (e, priv') = pthread.pthread_mutex_unlock t priv in (comm_value e, priv')

  -- Behind `real_lock`.
  abbrev pub locked : ℕ → CommValue → Pc
  locked d ret_ok = lock_count d
  locked d ret = out d ret

  -- One step of thread `t` inside `locker_loop_lock` or `locker_loop_unlock`; `none` while it waits,
  -- and between calls.
  unfoldable pub step : ℕ → Locker M → Pc → Option (Locker M × Pc)
  unfolding locker_pthread_lock locker_pthread_unlock
  step t l (out d ret) = none
  step t l (lock_test d) = some (l, if l.owner == task_self t then lock_again d else lock_real d)
  step t l (lock_again d) = do
    n ← incremented (l.refcount)
    some (record l { refcount = n }, out (suc d) ret_ok)
  step t l (lock_real d) = do
    (ret, priv) ← locker_pthread_lock t (l.priv)
    some (record l { priv = priv }, locked d ret)
  step t l (lock_count d) = some (record l { refcount = pos 1 }, lock_owner d)
  step t l (lock_owner d) = some (record l { owner = task_self t }, out (suc d) ret_ok)
  step t l (unlock_test d) =
      some (l, if l.owner == task_self t then unlock_count d else out d ret_fail)
  step t l (unlock_count d) = do
    n ← decremented (l.refcount)
    some (record l { refcount = n }, unlock_zero (d - 1))
  step t l (unlock_zero d) = some (l, if is_zero (l.refcount) then unlock_owner d else out d ret_ok)
  step t l (unlock_owner d) = some (record l { owner = 0 }, unlock_real d)
  step t l (unlock_real d) =
      let (ret, priv) = locker_pthread_unlock t (l.priv) in
      some (record l { priv = priv }, out d ret)

  -- `locker_loop_create` where malloc succeeds, with the mutex that `init` leaves.
  abbrev pub locker_loop_create : M → Locker M
  locker_loop_create priv = record { owner = 0; refcount = pos 0; priv = priv }

  -- The lock and all threads.
  pub record World : Type 0 where
    pub locker : Locker M
    pub pc : ℕ → Pc

  abbrev pub update : (ℕ → Pc) → ℕ → Pc → ℕ → Pc
  update pc t p u = if u == t then p else pc u

  -- A thread of the team calls one of the two functions, or makes a step inside.
  pub data Step (team : ℕ → Bool) (w : World) : World → Type 0 where
    calls_lock :
        (t d : ℕ) (ret : CommValue)
        → team t ≡ true
        → w.pc t ≡ out d ret
        → Step team w (record w { pc = update (w.pc) t (lock_test d) })
    calls_unlock :
        (t d : ℕ) (ret : CommValue)
        → team t ≡ true
        → w.pc t ≡ out d ret
        → Step team w (record w { pc = update (w.pc) t (unlock_test d) })
    runs :
        (t : ℕ) (l : Locker M) (p : Pc)
        → team t ≡ true
        → step t (w.locker) (w.pc t) ≡ some (l, p)
        → Step team w (record { locker = l; pc = update (w.pc) t p })

  -- The states that threads reach from a new lock, in any order of their steps.
  pub data Reach (team : ℕ → Bool) (priv : M) : World → Type 0 where
    start : Reach team priv (record { locker = locker_loop_create priv; pc = λ t. out 0 ret_ok })
    later : {w w' : World} → Reach team priv w → Step team w w' → Reach team priv w'
