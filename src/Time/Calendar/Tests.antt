-- ===== src/Time/Calendar/Tests.antt =====
-- A calendar that shows its arguments.
use libnebula.Prelude.{ℕ, ◌≡◌, refl, true, none, some, [], ◌∷◌, ◌++◌, replicate, take}
use libnebula.Prelude.Int.{ℤ, pos}
use libnebula.Time.Calendar.{Calls, date, zone, str_epoch_time, str_timestamp}

-- The clock stands at 5 seconds and 42 microseconds; `strftime` copies the format.
abbrev calls : Calls ℕ ℤ
calls = record {
  time = λ w. (pos 5, w);
  gettimeofday = λ w. (record { sec = pos 5; usec = pos 42 }, w);
  gmtime = λ t. t;
  localtime = λ t. t;
  strftime = λ buf size format tm. take size format;
  microseconds = λ n. b'4' ∷ b'2' ∷ [];
}

str_timestamp_test :
    str_timestamp calls (replicate 64 1) [] 24 none true 0
    ≡ some (date ++ (b'.' ∷ (b'4' ∷ b'2' ∷ (zone ++ 0 ∷ []))), 0)
unfolding str_timestamp
str_timestamp_test = refl

str_epoch_time_test : (str_epoch_time calls [] 20 none true 0).0 ≡ date ++ zone
unfolding str_epoch_time
str_epoch_time_test = refl
