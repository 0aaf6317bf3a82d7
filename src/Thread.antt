-- ===== src/Thread.antt =====
-- The stop flag and the start routine of nebula::Thread, include/nebula/thread.h. The flag is
-- touched only by atomic operations, so each is a step of its own.
pub mod Flag
pub mod Object
mod Tests
use libnebula.Prelude.{ℕ, zero, suc, Option, none, some, List, [], ◌∷◌, ◌==◌, if◌then◌else◌}

-- `__sync_val_compare_and_swap`: the old value, and the new.
abbrev pub compare_and_swap : ℕ → ℕ → ℕ → ℕ × ℕ
compare_and_swap flag old new = if flag == old then (flag, new) else (flag, flag)

-- What it returns, and the flag that it leaves.
pub try_set_stop_flag : ℕ → ℕ × ℕ
try_set_stop_flag flag = compare_and_swap flag 0 1

-- `__sync_fetch_and_add(&stop_, 0)`
unfoldable pub get_stop_flag : ℕ → ℕ
get_stop_flag flag = flag

-- The loop of `setStopFlag`, for as many rounds as the fuel.
pub set_stop_flag : ℕ → ℕ → Option ℕ
set_stop_flag zero flag = none
set_stop_flag (suc fuel) flag =
    let (old, flag') = compare_and_swap flag 0 1 in
    let again = set_stop_flag fuel flag' in if old == 0 then again else some flag'

-- The calls of the template method `startRoutine`.
pub data Hook : Type 0 where
  start_handler routine exit_handler : Hook

module _ {W : Type 0} (run : Hook → W → ℕ × W) where
  -- The exit status is that of `routine`, whatever `exitHandler` does afterwards.
  unfoldable pub start_routine : W → ℕ × W
  start_routine w =
      let (ignored, w1) = run start_handler w in
      let (result, w2) = run routine w1 in let (ignored, w3) = run exit_handler w2 in (result, w3)
