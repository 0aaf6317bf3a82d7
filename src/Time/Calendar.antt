-- ===== src/Time/Calendar.antt =====
-- formatEpochTime, strEpochTime and strTimestamp of nebula::Time, include/nebula/time.h, over the
-- calendar of the C library as a parameter.
mod Tests
use libnebula.Prelude.{
  ℕ, ◌+◌, ◌≤◌, ◌<◌, ◌≡◌, refl, ap, Bool, true, Option, none, some, List, [], ◌∷◌, ◌++◌, leb,
  if◌then◌else◌, length, take, drop, arith, length-append, append_assoc,
}
use libnebula.Prelude.Int.{ℤ}
use libnebula.Text.{Bytes}
use libnebula.Text.Print.{write_at}
use libnebula.Time.{Timeval, pick}

-- The calls: the clocks, the time broken down, in UTC or in the zone of the system, what `strftime`
-- leaves in a buffer for its size and a format, and what "%06d" makes of `tv_usec` as an `int`.
pub record Calls (W Tm : Type 0) : Type 0 where
  pub time : W → ℤ × W
  pub gettimeofday : W → Timeval × W
  pub gmtime : ℤ → Tm
  pub localtime : ℤ → Tm
  pub strftime : Bytes → ℕ → Bytes → Tm → Bytes
  pub microseconds : ℤ → Bytes

-- "%Y.%m.%d-%H:%M:%S"
abbrev pub date : Bytes
date =
    b'%' ∷ b'Y' ∷ b'.' ∷ b'%' ∷ b'm' ∷ b'.' ∷ b'%' ∷ b'd' ∷ b'-' ∷ b'%' ∷ b'H' ∷ b':' ∷ b'%' ∷ b'M'
    ∷ b':' ∷ b'%' ∷ b'S' ∷ []

-- "-%Z"
abbrev pub zone : Bytes
zone = b'-' ∷ b'%' ∷ b'Z' ∷ []

write_at-start :
    (dst text : Bytes)
    → length text ≤ length dst
    → write_at dst 0 text ≡ some (text ++ drop (length text) dst)
write_at-start dst text fits =
    let inside : leb (0 + length text) (length dst) ≡ true = ground arith in
    rw inside (ap (λ n. some (text ++ drop n dst)) (omega arith))

module _ {W Tm : Type 0} (lib : Calls W Tm) where
  -- `*pt`, or the current time if `pt` is NULL.
  abbrev pub given : Option ℤ → W → ℤ × W
  given none w = lib.time w
  given (some t) w = (t, w)

  abbrev pub broken_down : Bool → ℤ → Tm
  broken_down utc t = if utc then lib.gmtime t else lib.localtime t

  -- What the buffer holds afterwards.
  unfoldable pub format_epoch_time : Bytes → ℕ → Bytes → Option ℤ → Bool → W → Bytes × W
  format_epoch_time buf buflen format pt utc w =
      let (t, w') = given pt w in (lib.strftime buf buflen format (broken_down utc t), w')

  unfoldable pub str_epoch_time : Bytes → ℕ → Option ℤ → Bool → W → Bytes × W
  str_epoch_time buf buflen pt utc w =
      let (t, w') = given pt w in
      (lib.strftime buf buflen (date ++ (zone ++ 0 ∷ [])) (broken_down utc t), w')

  -- `sprintf` writes into `format`; `none` if it writes beyond the array.
  unfoldable pub str_timestamp : Bytes → Bytes → ℕ → Option Timeval → Bool → W → Option (Bytes × W)
  str_timestamp format buf buflen ptv utc w =
      let (tv, w') = pick lib.gettimeofday ptv w in
      elim (write_at format 0 (date ++ (b'.' ∷ (lib.microseconds tv.usec ++ (zone ++ 0 ∷ []))))) [
        | none ↦ none
        | some format' ↦ some (lib.strftime buf buflen format' (broken_down utc tv.sec), w')
      ]

  -- strTimestamp, whose array of 64 bytes takes a number of up to 11 characters, as every `int`
  -- prints: the buffer is that of formatEpochTime for the second of the time and a format that has
  -- the microseconds written out between the second and the zone, ended by a NUL; what lies behind
  -- it in the array is as it was.
  str_timestamp_lem :
      (format buf : Bytes) (buflen : ℕ) (ptv : Option Timeval) (utc : Bool) (w : W)
      → length format ≡ 64
      → length (lib.microseconds (pick lib.gettimeofday ptv w).0.usec) ≤ 11
      → (rest : Bytes) × (let (tv, w') = pick lib.gettimeofday ptv w in
          str_timestamp format buf buflen ptv utc w
          ≡ some (
            (format_epoch_time buf buflen
                ((date ++ (b'.' ∷ (lib.microseconds tv.usec ++ (zone ++ 0 ∷ [])))) ++ rest)
                (some tv.sec)
                utc
                w').0,
            w',
          ))
  unfolding str_timestamp format_epoch_time
  str_timestamp_lem format buf buflen ptv utc w size short =
      let micros = lib.microseconds (pick lib.gettimeofday ptv w).0.usec in
      let text : Bytes = date ++ (b'.' ∷ (micros ++ (zone ++ 0 ∷ []))) in
      let long = length-append micros (zone ++ 0 ∷ []) in
      let written = write_at-start format text (omega (arith, long, short, size)) in
      (drop (length text) format, rw (written, str_timestamp) refl)
