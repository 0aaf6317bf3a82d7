-- ===== src/Time.antt =====
-- nebula::Time and nebula::StopWatch, include/nebula/time.h: time stamps, sleep, and the watch with the
-- buffer of its message. The clock, `nanosleep`, the allocator and what printf makes of a format are
-- parameters. `none` is undefined behaviour: a sum out of range, or an access out of bounds.
pub mod Stamp
pub mod Watch
pub mod Message
pub mod Calendar
mod Tests
use libnebula.Prelude.{
  ℕ, suc, ◌+◌, ◌*◌, ◌/◌, ◌%◌, ◌^◌, Bool, true, false, ◌&&◌, ◌||◌, not, Option, none, some, ltb, leb,
  ◌==◌, if◌then◌else◌, length,
}
use libnebula.Prelude.Int.{ℤ, pos, ◌+ℤ◌, ◌-ℤ◌, ◌*ℤ◌, quot_ℤ, i64}
use libnebula.Text.{Bytes}
use libnebula.Text.Print.{print_at}

-- `struct timeval`
pub record Timeval : Type 0 where
  pub sec : ℤ
  pub usec : ℤ

-- An operation on `int64_t` whose operands may be undefined.
infixl 5 ◌>>=◌
abbrev pub ◌>>=◌ : Option ℤ → (ℤ → Option ℤ) → Option ℤ
none >>= f = none
some a >>= f = f a

-- The time that is converted: `*ptv`, or the current one if `ptv` is NULL.
abbrev pub pick : {W : Type 0} → (W → Timeval × W) → Option Timeval → W → Timeval × W
pick gettimeofday none w = gettimeofday w
pick gettimeofday (some tv) w = (tv, w)

-- `ptv->tv_sec * 1000 + ptv->tv_usec / 1000`
abbrev pub to_ms : Timeval → Option ℤ
to_ms tv = do a ← i64 (tv.sec *ℤ 1000); i64 (a +ℤ quot_ℤ tv.usec 1000)

-- `ptv->tv_sec * 1000000 + ptv->tv_usec`
abbrev pub to_us : Timeval → Option ℤ
to_us tv = do a ← i64 (tv.sec *ℤ 1000000); i64 (a +ℤ tv.usec)

-- How `nanosleep` ends: after the whole interval, by a signal with the time that remains, or by
-- another error.
pub data Slept : Type 0 where
  elapsed : Slept
  interrupted : (sec nsec : ℕ) → Slept
  refused : Slept

-- What the caller finds in `*remain`, if it is not NULL.
abbrev pub note_remain : Slept → Option ℕ → Option ℕ
note_remain outcome none = none
note_remain elapsed (some r) = some 0
note_remain (interrupted sec nsec) (some r) = some ((sec * 1000 + nsec / 1000000) % 2 ^ 32)
note_remain refused (some r) = some r

abbrev pub has_elapsed : Slept → Bool
has_elapsed elapsed = true
has_elapsed _ = false

module _ {W : Type 0} where
  unfoldable pub ms_timestamp : (W → Timeval × W) → Option Timeval → W → Option ℤ × W
  ms_timestamp gettimeofday ptv w = let (tv, w') = pick gettimeofday ptv w in (to_ms tv, w')

  unfoldable pub us_timestamp : (W → Timeval × W) → Option Timeval → W → Option ℤ × W
  us_timestamp gettimeofday ptv w = let (tv, w') = pick gettimeofday ptv w in (to_us tv, w')

  -- Whether 0 is returned, and `*remain`. `nanosleep` takes the seconds and the nanoseconds.
  unfoldable pub ms_sleep : (ℕ → ℕ → W → Slept × W) → ℕ → Option ℕ → W → Bool × Option ℕ × W
  ms_sleep nanosleep interval remain w =
      let (outcome, w') = nanosleep (interval / 1000) (interval % 1000 * 1000000) w in
      (has_elapsed outcome, note_remain outcome remain, w')

-- The buffer is `none` while it is NULL.
pub record StopWatch : Type 0 where
  pub start_time : Timeval
  pub stop_time : Timeval
  pub started : Bool
  pub stopped : Bool
  pub message_buf : Option Bytes
  pub buf_size : ℕ

abbrev pub default_buf_size : ℕ
default_buf_size = 128

-- The constructor.
abbrev pub stop_watch : StopWatch
stop_watch = record {
  start_time = record { sec = pos 0; usec = pos 0 };
  stop_time = record { sec = pos 0; usec = pos 0 };
  started = false;
  stopped = false;
  message_buf = none;
  buf_size = 0;
}

-- `start`, `stop` and `reset`; the time is that of `gettimeofday`.
unfoldable pub start : Timeval → StopWatch → StopWatch
start now sw = record sw { started = true; stopped = false; start_time = now }

unfoldable pub stop : Timeval → StopWatch → StopWatch
stop now sw = record sw { stop_time = now; stopped = true }

unfoldable pub reset : StopWatch → StopWatch
reset sw = record sw { started = false; stopped = false }

-- `(stop.tv_sec - start.tv_sec) * 1000000 + (stop.tv_usec - start.tv_usec)`
abbrev pub cost_between : Timeval → Timeval → Option ℤ
cost_between t0 t1 = do
  s ← i64 (t1.sec -ℤ t0.sec)
  a ← i64 (s *ℤ 1000000)
  u ← i64 (t1.usec -ℤ t0.usec)
  i64 (a +ℤ u)

unfoldable pub time_cost_us : StopWatch → Option ℤ
time_cost_us sw =
    if sw.started && sw.stopped then cost_between sw.start_time sw.stop_time else some (pos 0)

-- What `message` returns: the text of an error, or the buffer.
pub data Said : Type 0 where
  invalid_parameter malloc_failed realloc_failed : Said
  in_buffer : Said

-- `malloc` and `realloc`, with the bytes that the memory then holds, and the text that the format
-- of the message gives for a name, a cost and a number of iterations.
pub record Printing : Type 0 where
  pub malloc : ℕ → Option Bytes
  pub realloc : Bytes → ℕ → Option Bytes
  pub text : Bytes → ℤ → ℤ → Bytes

abbrev pub is_zero : ℤ → Bool
is_zero (pos n) = n == 0
is_zero _ = false

module _ (env : Printing) where
  -- The two calls of `snprintf`, the buffer being at hand, for the text `line`.
  unfoldable pub print_message : Bytes → Bytes → StopWatch → Option (Said × StopWatch)
  print_message line buf sw = elim (print_at buf 0 sw.buf_size line) [
    | none ↦ none
    | some buf1 ↦ elim (leb sw.buf_size (length line)) [
      | false ↦ some (in_buffer, record sw { message_buf = some buf1 })
      | true ↦ elim (env.realloc buf1 (length line)) [
        | none ↦ some (realloc_failed, record sw { message_buf = some buf1 })
        | some temp ↦ elim (print_at temp 0 (length line) line) [
          | none ↦ none
          | some buf2 ↦
              some (in_buffer, record sw { message_buf = some buf2; buf_size = length line })
        ]
      ]
    ]
  ]

  -- The buffer, taken from `malloc` at the first call; and what is done with it.
  unfoldable pub with_buffer :
      Option Bytes
      → StopWatch
      → (Bytes → StopWatch → Option (Said × StopWatch))
      → Option (Said × StopWatch)
  with_buffer (some buf) sw next = next buf sw
  with_buffer none sw next = elim (env.malloc default_buf_size) [
    | none ↦ some (malloc_failed, sw)
    | some buf ↦ next buf (record sw { message_buf = some buf; buf_size = default_buf_size })
  ]

  -- The text for a cost, printed.
  unfoldable pub print_cost : Bytes → ℤ → Option ℤ → Bytes → StopWatch → Option (Said × StopWatch)
  unfolding print_message
  print_cost name iterations none buf sw = none
  print_cost name iterations (some cost) buf sw =
      print_message (env.text name cost iterations) buf sw

  -- The name may be NULL.
  unfoldable pub message : Option Bytes → ℤ → StopWatch → Option (Said × StopWatch)
  unfolding print_cost with_buffer time_cost_us
  message none iterations sw = some (invalid_parameter, sw)
  message (some name) iterations sw =
      if is_zero iterations
      then some (invalid_parameter, sw)
      else with_buffer sw.message_buf sw
          (λ buf sw'. print_cost name iterations (time_cost_us sw') buf sw')
