-- ===== src/Mutex/Noting.antt =====
-- A mutex that notes its owner: what is promised of a mutex can be kept.
use libnebula.Prelude.{ℕ, ◌≡◌, refl, Option, none, some, arith}
use libnebula.Mutex.{Pthread, Excludes}

-- A mutex that notes its owner.
unfoldable pub take_free : ℕ → Option ℕ → Option (Option ℕ)
take_free i none = some (some i)
take_free i (some j) = none

unfoldable pub try_free : ℕ → Option ℕ → ℕ × Option ℕ
try_free i none = (0, some i)
try_free i (some j) = (16, some j)

abbrev pub noting : Pthread (Option ℕ)
noting = record {
  init = none;
  owner = λ m. m;
  lock = take_free;
  trylock = try_free;
  unlock = λ i m. (0, none);
}

pub noting-Excludes : Excludes noting
unfolding take_free try_free
noting-Excludes = record {
  init_free = refl;
  lock_takes = λ i m m' h. takes i m m' h;
  lock_free = λ i m h. (some i, rw h refl);
  unlock_frees = λ i m h. refl;
  trylock_free = λ i m h. rw h (refl, refl);
  trylock_busy = λ i j m h. rw h (λ e. absurd (omega arith), refl);
}
  where
    takes : (i : ℕ) (m m' : Option ℕ) → take_free i m ≡ some m' → (m ≡ none) × (m' ≡ some i)
    takes i none m' h = ground arith
    takes i (some j) m' h = ground arith
