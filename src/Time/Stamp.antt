-- ===== src/Time/Stamp.antt =====
-- What the two time stamps of one time say, and what is left of a sleep.
use libnebula.Prelude.{
  ℕ, ◌+◌, ◌*◌, ◌/◌, ◌%◌, ◌^◌, ◌≤◌, ◌<◌, ◌≡◌, refl, sym, ◌∙◌, ap, Bool, true, false, Option, some,
  none, arith,
}
use libnebula.Prelude.Int.{
  ℤ, pos, negsuc, pos_part, neg_part, ◌+ℤ◌, ◌*ℤ◌, quot_ℤ, i64, +ℤ_parts, *ℤ_parts, eq_of_parts,
  part_zero, i64-eq_some, i64-inside,
}
use libnebula.Time.{
  Timeval, ◌>>=◌, pick, to_ms, to_us, Slept, elapsed, interrupted, refused, has_elapsed,
  note_remain, ms_timestamp, us_timestamp, ms_sleep,
}

-- A time whose microseconds are less than a second, as `gettimeofday` gives it.
abbrev IsNormal : Timeval → Type 0
IsNormal tv = (neg_part tv.usec ≡ 0) × (pos_part tv.usec < 1000000)

>>=-eq-some :
    (m : Option ℤ) (f : ℤ → Option ℤ) {b : ℤ}
    → (m >>= f) ≡ some b
    → (a : ℤ) × (m ≡ some a) × (f a ≡ some b)
>>=-eq-some none f h = cc
>>=-eq-some (some a) f h = (a, refl, h)

usec_ms : (a : ℤ) → neg_part a ≡ 0 → quot_ℤ a 1000 ≡ pos (pos_part a / 1000)
usec_ms (pos n) h = ground arith
usec_ms (negsuc n) h = absurd (omega arith)

-- A sum in range, divided by 1000.
split_us :
    (sec usec : ℤ)
    → neg_part usec ≡ 0
    → pos_part usec < 1000000
    → pos_part (sec *ℤ 1000000) < 2 ^ 63
    → neg_part (sec *ℤ 1000000) ≤ 2 ^ 63
    → (i64 (sec *ℤ 1000) ≡ some (sec *ℤ 1000))
      × (i64 (sec *ℤ 1000 +ℤ pos (pos_part usec / 1000))
          ≡ some (sec *ℤ 1000 +ℤ pos (pos_part usec / 1000)))
      × ((sec *ℤ 1000 +ℤ pos (pos_part usec / 1000)) *ℤ 1000 +ℤ pos (pos_part usec % 1000)
          ≡ sec *ℤ 1000000 +ℤ usec)
split_us sec usec unsigned small above below =
    let ms = sec *ℤ 1000 in
    let u = pos_part usec in
    let small_ms : (pos_part ms < 2 ^ 54) × (neg_part ms < 2 ^ 54) = omega (
      arith,
      *ℤ_parts sec 1000,
      *ℤ_parts sec 1000000,
      part_zero ms,
      part_zero sec,
      part_zero (sec *ℤ 1000000),
    ) in
    let sum = ms +ℤ pos (u / 1000) in
    let small_sum : (pos_part sum < 2 ^ 63) × (neg_part sum ≤ 2 ^ 63) =
      omega (arith, +ℤ_parts ms (pos (u / 1000)), part_zero sum) in
    (
      i64-inside ms (omega arith) (omega arith),
      i64-inside sum small_sum.0 small_sum.1,
      eq_of_parts _ _ (
          omega (
            arith,
            *ℤ_parts sec 1000,
            *ℤ_parts sec 1000000,
            +ℤ_parts ms (pos (u / 1000)),
            *ℤ_parts sum 1000,
            +ℤ_parts (sum *ℤ 1000) (pos (u % 1000)),
            +ℤ_parts (sec *ℤ 1000000) usec,
          )),
    )

-- The milliseconds, and the microseconds above them, make up the microseconds.
to_ms-to_us :
    (tv : Timeval) (t : ℤ)
    → IsNormal tv
    → to_us tv ≡ some t
    → (m : ℤ) × (r : ℕ) × (to_ms tv ≡ some m) × (r < 1000) × (m *ℤ 1000 +ℤ pos r ≡ t)
to_ms-to_us tv t (unsigned, small) h =
    let (a, e, rest) = >>=-eq-some (i64 (tv.sec *ℤ 1000000)) (λ a. i64 (a +ℤ tv.usec)) h in
    let (same_a, above, below) = i64-eq_some (tv.sec *ℤ 1000000) e in
    let (same_t, above', below') = i64-eq_some (a +ℤ tv.usec) rest in
    let whole : t ≡ tv.sec *ℤ 1000000 +ℤ tv.usec = same_t ∙ ap (λ a. a +ℤ tv.usec) same_a in
    let (e1, e2, e3) = split_us tv.sec tv.usec unsigned small above below in
    (
      tv.sec *ℤ 1000 +ℤ pos (pos_part tv.usec / 1000),
      pos_part tv.usec % 1000,
      rw (e1, usec_ms tv.usec unsigned) e2,
      omega arith,
      e3 ∙ sym whole,
    )

-- The two stamps of a time with microseconds below a second, or of the current time, in range: the
-- milliseconds are the microseconds divided by 1000 and rounded down, also before the Epoch.
ms_timestamp_lem :
    {W : Type 0} (gettimeofday : W → Timeval × W) (ptv : Option Timeval) (w : W) (t : ℤ)
    → IsNormal (pick gettimeofday ptv w).0
    → (us_timestamp gettimeofday ptv w).0 ≡ some t
    → (m : ℤ) × (r : ℕ) × ((ms_timestamp gettimeofday ptv w).0 ≡ some m)
      × (r < 1000)
      × (m *ℤ 1000 +ℤ pos r ≡ t)
unfolding us_timestamp ms_timestamp
ms_timestamp_lem gettimeofday ptv w t normal h = to_ms-to_us (pick gettimeofday ptv w).0 t normal h

-- What `nanosleep` promises of the time that remains: it is less than a second above the seconds,
-- and not more than was asked for.
abbrev pub Remains : ℕ → ℕ → Slept → Type 0
Remains sec nsec elapsed = Unit {0}
Remains sec nsec (interrupted s n) =
    (n < 1000000000) × (s * 1000000000 + n ≤ sec * 1000000000 + nsec)
Remains sec nsec refused = Unit {0}

-- What a sleep of `interval` milliseconds leaves in `*remain`, which was `r`.
abbrev pub Leaves : ℕ → ℕ → Slept → Bool → Option ℕ → Type 0
Leaves interval r elapsed done remain = (done ≡ true) × (remain ≡ some 0)
Leaves interval r (interrupted s n) done remain =
    (done ≡ false)
    × ((k : ℕ) × (remain ≡ some k)
        × (k ≤ interval)
        × (k * 1000000 ≤ s * 1000000000 + n)
        × (s * 1000000000 + n < (k + 1) * 1000000))
Leaves interval r refused done remain = (done ≡ false) × (remain ≡ some r)

Leaves-outcome :
    (interval r : ℕ) (o : Slept)
    → interval < 2 ^ 32
    → Remains (interval / 1000) (interval % 1000 * 1000000) o
    → Leaves interval r o (has_elapsed o) (note_remain o (some r))
Leaves-outcome interval r elapsed h promise = (refl, refl)
Leaves-outcome interval r (interrupted s n) h (below, within) =
    let k = s * 1000 + n / 1000000 in
    let small : k ≤ interval = omega arith in
    let fits : k % 2 ^ 32 ≡ k = omega arith in
    (refl, (k, rw fits refl, small, omega arith, omega arith))
Leaves-outcome interval r refused h promise = (refl, refl)

-- msSleep of an `unsigned int` asks `nanosleep` once, for exactly that many milliseconds, as whole
-- seconds and less than a second of nanoseconds. It succeeds, with `*remain` set to 0, exactly if the
-- whole time elapsed; after a signal `*remain` is the time that remains, in milliseconds rounded
-- down, never more than was asked for; after another error `*remain` is as before. Without a pointer
-- it does the same.
pub ms_sleep_lem :
    {W : Type 0} (nanosleep : ℕ → ℕ → W → Slept × W) (interval r : ℕ) (w : W)
    → interval < 2 ^ 32
    → ((sec nsec : ℕ) (v : W) → Remains sec nsec (nanosleep sec nsec v).0)
    → (sec : ℕ) × (nsec : ℕ) × (sec * 1000000000 + nsec ≡ interval * 1000000)
      × (nsec < 1000000000)
      × Leaves interval r
          (nanosleep sec nsec w).0
          (ms_sleep nanosleep interval (some r) w).0
          (ms_sleep nanosleep interval (some r) w).1
      × ((ms_sleep nanosleep interval (some r) w).2 ≡ (nanosleep sec nsec w).1)
      × (ms_sleep nanosleep interval none w
          ≡ ((ms_sleep nanosleep interval (some r) w).0, none, (nanosleep sec nsec w).1))
unfolding ms_sleep
ms_sleep_lem nanosleep interval r w h promise =
    let sec = interval / 1000 in
    let nsec = interval % 1000 * 1000000 in
    (
      sec,
      nsec,
      omega arith,
      omega arith,
      Leaves-outcome interval r (nanosleep sec nsec w).0 h (promise sec nsec w),
      refl,
      refl,
    )
