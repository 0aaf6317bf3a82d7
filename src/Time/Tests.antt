-- ===== src/Time/Tests.antt =====
-- Runs of the time stamps, the sleep and the watch.
use libnebula.Prelude.{
  ℕ, ◌+◌, ◌*◌, ◌<◌, ◌≡◌, refl, some, none, List, [], ◌∷◌, replicate, length-replicate, ◌++◌, zero,
  suc, max, arith,
}
use libnebula.Prelude.Int.{pos, negsuc, ◌+ℤ◌, ◌-ℤ◌, ◌*ℤ◌}
use libnebula.Text.{Bytes}
use libnebula.Time.{
  Timeval, Slept, elapsed, interrupted, ms_timestamp, ms_sleep, stop_watch, start, stop,
  time_cost_us, Printing, message,
}
use libnebula.Time.Stamp.{Remains, Leaves, ms_sleep_lem}
use libnebula.Time.Watch.{Call, starting, stopping, run, phase, off, cost, time_cost_us-Phase}
use libnebula.Time.Message.{Allocates, Shows, shown, message_lem}

-- 1.5 milliseconds before the Epoch; the stamp is rounded down.
abbrev before_epoch : Timeval
before_epoch = record { sec = negsuc 0; usec = pos 998500 }

abbrev clock : ℕ → Timeval × ℕ
clock n = (record { sec = pos n; usec = pos 7 }, n + 1)

ms_timestamp_test : (ms_timestamp clock (some before_epoch) 0).0 ≡ some (negsuc 1)
unfolding ms_timestamp ◌+ℤ◌ ◌*ℤ◌
ms_timestamp_test = refl

-- A sleep that a signal ends with all the seconds but one left.
abbrev nap : ℕ → ℕ → ℕ → Slept × ℕ
nap zero nsec n = (elapsed, n + 1)
nap (suc s) nsec n = (interrupted s 12345678, n + 1)

nap-Remains : (sec nsec n : ℕ) → Remains sec nsec (nap sec nsec n).0
nap-Remains zero nsec n = tt
nap-Remains (suc s) nsec n = omega arith

ms_sleep_lem_example :
    (sec : ℕ) × (nsec : ℕ) × (sec * 1000000000 + nsec ≡ 1500 * 1000000)
    × (nsec < 1000000000)
    × Leaves 1500 9
        (nap sec nsec 0).0
        (ms_sleep nap 1500 (some 9) 0).0
        (ms_sleep nap 1500 (some 9) 0).1
    × ((ms_sleep nap 1500 (some 9) 0).2 ≡ (nap sec nsec 0).1)
    × (ms_sleep nap 1500 none 0 ≡ ((ms_sleep nap 1500 (some 9) 0).0, none, (nap sec nsec 0).1))
ms_sleep_lem_example = ms_sleep_lem nap 1500 9 0 (omega arith) nap-Remains

abbrev at_time : ℕ → ℕ → Timeval
at_time s u = record { sec = pos s; usec = pos u }

abbrev calls : List Call
calls = stopping (at_time 1 0) ∷ starting (at_time 2 999999) ∷ stopping (at_time 4 1) ∷ []

time_cost_us-Phase_example : time_cost_us (run calls stop_watch) ≡ some (cost (phase calls off))
time_cost_us-Phase_example = time_cost_us-Phase calls (omega arith)

cost_test : time_cost_us (run calls stop_watch) ≡ some (pos 1000002)
unfolding time_cost_us start stop ◌-ℤ◌ ◌*ℤ◌ ◌+ℤ◌
cost_test = refl

-- Memory full of ones, and a text as long as the name.
abbrev printing : Printing
printing = record {
  malloc = λ n. some (replicate n 1);
  realloc = λ b n. some (replicate n 1);
  text = λ name c i. name;
}

printing-Allocates : Allocates printing
printing-Allocates = record {
  malloc_size = λ n. (replicate n 1, refl, length-replicate n 1);
  realloc_size = λ b n. (replicate n 1, refl, length-replicate n 1);
}

abbrev long_name : Bytes
long_name = replicate 127 b'a' ++ b'b' ∷ []

-- The last character of a text of 128 bytes is lost.
message_lem_example :
    Shows (shown long_name 128) (max 128 128) (message printing (some long_name) (pos 1) stop_watch)
unfolding time_cost_us
message_lem_example =
    message_lem printing long_name (pos 1) (pos 0) stop_watch printing-Allocates (λ b e. cc) refl
      refl (omega arith)

lost_test : shown long_name 128 ≡ replicate 127 b'a'
lost_test = refl
