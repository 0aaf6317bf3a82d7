-- ===== src/Mutex.antt =====
-- nebula::Mutex, include/nebula/mutex.h, over the mutex of pthread as a parameter. A thread is a
-- number.
pub mod Noting
pub mod Owner
use libnebula.Prelude.{ℕ, ◌≡◌, ◌≢◌, Bool, Option, none, some, ◌==◌}

-- `pthread_mutex_t` and the calls on it. `lock` is `none` while the call does not return; `trylock` and
-- `unlock` give the error code.
pub record Pthread (M : Type 0) : Type 0 where
  pub init : M
  pub owner : M → Option ℕ
  pub lock : ℕ → M → Option M
  pub trylock : ℕ → M → ℕ × M
  pub unlock : ℕ → M → ℕ × M

-- What POSIX promises of a mutex of the default kind, whose owner alone unlocks it.
pub record Excludes {M : Type 0} (pt : Pthread M) : Type 0 where
  pub init_free : pt.owner pt.init ≡ none
  pub lock_takes :
      (i : ℕ) (m m' : M) → pt.lock i m ≡ some m' → (pt.owner m ≡ none) × (pt.owner m' ≡ some i)
  pub lock_free : (i : ℕ) (m : M) → pt.owner m ≡ none → (m' : M) × (pt.lock i m ≡ some m')
  pub unlock_frees : (i : ℕ) (m : M) → pt.owner m ≡ some i → pt.owner (pt.unlock i m).1 ≡ none
  pub trylock_free :
      (i : ℕ) (m : M)
      → pt.owner m ≡ none
      → ((pt.trylock i m).0 ≡ 0) × (pt.owner (pt.trylock i m).1 ≡ some i)
  pub trylock_busy :
      (i j : ℕ) (m : M)
      → pt.owner m ≡ some j
      → ((pt.trylock i m).0 ≢ 0) × (pt.owner (pt.trylock i m).1 ≡ some j)

module _ {M : Type 0} (pt : Pthread M) where
  -- The constructor, `lock`, `try_lock` and `unlock`, called by thread `i`.
  unfoldable pub mutex : M
  mutex = pt.init

  unfoldable pub lock : ℕ → M → Option M
  lock i m = pt.lock i m

  unfoldable pub try_lock : ℕ → M → Bool × M
  try_lock i m = let (rc, m') = pt.trylock i m in (rc == 0, m')

  unfoldable pub unlock : ℕ → M → M
  unlock i m = (pt.unlock i m).1
