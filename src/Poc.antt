-- ===== src/Poc.antt =====
-- The trial program poc/gcc_atomic_vs_mutex.cc: it times loops that set and clear a word by atomic
-- operations, and loops that lock and unlock a mutex, with a StopWatch.
pub mod Loops
mod Tests
use libnebula.Prelude.{ℕ, zero, suc, ◌+◌, ◌%◌, Bool, Option, none, some, ◌==◌, if◌then◌else◌}
use libnebula.Prelude.Int.{pos}
use libnebula.Text.{Bytes}
use libnebula.Thread.{compare_and_swap}
use libnebula.Time.{Timeval, StopWatch, stop_watch, start, stop, Said, Printing, message}
use libnebula.Mutex.{Pthread}

-- `i & 0x1`
abbrev pub is_odd : ℕ → Bool
is_odd i = i % 2 == 1

-- The loop of `evaluate` and of `evaluateVolatile`, with the rounds that are left and `i`.
pub swap_loop : ℕ → ℕ → ℕ → ℕ
swap_loop zero i v = v
swap_loop (suc rounds) i v =
    swap_loop rounds (i + 1)
      (if is_odd i then (compare_and_swap v 1 0).1 else (compare_and_swap v 0 1).1)

-- What a stop watch prints that was started at `t0` and stopped at `t1`.
abbrev pub timed : Printing → Bytes → Timeval → Timeval → ℕ → Option (Said × StopWatch)
timed env name t0 t1 num_iterations =
    message env (some name) (pos num_iterations) (stop t1 (start t0 stop_watch))

-- `*v` afterwards, and what is printed.
unfoldable evaluate : Printing → Bytes → Timeval → Timeval → ℕ → ℕ → ℕ × Option (Said × StopWatch)
unfolding swap_loop
evaluate env name t0 t1 num_iterations v =
    (swap_loop num_iterations 0 v, timed env name t0 t1 num_iterations)

module _ {M : Type 0} (pt : Pthread M) (self : ℕ) where
  -- A round of `evaluatePthreadMutex` in thread `self`; `none` while the call of `lock` does not
  -- return.
  abbrev pub turn : ℕ → M → Option M
  turn i m = if is_odd i then some (pt.unlock self m).1 else pt.lock self m

  pub mutex_loop : ℕ → ℕ → M → Option M
  mutex_loop zero i m = some m
  mutex_loop (suc rounds) i m = elim (turn i m) [
    | none ↦ none
    | some m' ↦ mutex_loop rounds (i + 1) m'
  ]

  -- The mutex afterwards; the last test unlocks it if the number of rounds is even.
  unfoldable pub evaluate_pthread_mutex : ℕ → M → Option M
  unfolding mutex_loop
  evaluate_pthread_mutex num_iterations m = elim (mutex_loop num_iterations 0 m) [
    | none ↦ none
    | some m' ↦ some (if is_odd num_iterations then m' else (pt.unlock self m').1)
  ]

  -- `main`: the two words, and the mutex that is handed to `pthread_mutex_destroy`.
  unfoldable pub main : ℕ → Option (ℕ × ℕ × M)
  unfolding evaluate_pthread_mutex swap_loop
  main num_iterations = elim (evaluate_pthread_mutex num_iterations pt.init) [
    | none ↦ none
    | some m ↦ some (swap_loop num_iterations 0 0, swap_loop num_iterations 0 0, m)
  ]
