-- ===== src/Mutex/Owner.antt =====
-- What the methods of Mutex do to its owner.
use libnebula.Prelude.{ℕ, ◌≡◌, true, false, none, some, arith}
use libnebula.Mutex.{Pthread, Excludes, mutex, lock, try_lock, unlock}

module _ {M : Type 0} (pt : Pthread M) (law : Excludes pt) where
  -- try_lock returns true, and the caller owns the mutex, exactly if nobody owned it; else it leaves
  -- the owner. lock on a new or an unlocked mutex returns and unlock frees it again.
  try_lock_lem :
      (i j : ℕ) (m : M)
      → (pt.owner m ≡ none → ((try_lock pt i m).0 ≡ true) × (pt.owner (try_lock pt i m).1 ≡ some i))
        × (pt.owner m ≡ some j
            → ((try_lock pt i m).0 ≡ false) × (pt.owner (try_lock pt i m).1 ≡ some j))
  unfolding try_lock
  try_lock_lem i j m = (
    λ free. (ground (arith, law.trylock_free i m free), (law.trylock_free i m free).1),
    λ busy. (ground (arith, law.trylock_busy i j m busy), (law.trylock_busy i j m busy).1),
  )

  lock-unlock :
      (i : ℕ)
      → (m : M) × (lock pt i (mutex pt) ≡ some m)
        × (pt.owner m ≡ some i)
        × (pt.owner (unlock pt i m) ≡ none)
  unfolding lock mutex unlock
  lock-unlock i =
      let (m, e) = law.lock_free i pt.init law.init_free in
      let mine = (law.lock_takes i pt.init m e).1 in (m, e, mine, law.unlock_frees i m mine)
