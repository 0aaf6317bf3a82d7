-- ===== src/Time/Watch.antt =====
-- The watch against the phases that it is in, whatever calls were made before.
use libnebula.Prelude.{ℕ, ◌^◌, ◌<◌, ◌≡◌, refl, ap, true, false, some, List, [], ◌∷◌, arith, All}
use libnebula.Prelude.Int.{
  ℤ, pos, pos_part, neg_part, ◌+ℤ◌, ◌-ℤ◌, ◌*ℤ◌, +ℤ_parts, -ℤ_parts, *ℤ_parts, eq_of_parts,
  part_zero, i64-inside,
}
use libnebula.Time.{Timeval, StopWatch, stop_watch, start, stop, reset, time_cost_us, cost_between}

-- The calls on a watch, with the time that the clock shows.
pub data Call : Type 0 where
  starting stopping : Timeval → Call
  resetting : Call

abbrev pub run : List Call → StopWatch → StopWatch
run [] sw = sw
run (starting t ∷ calls) sw = run calls (start t sw)
run (stopping t ∷ calls) sw = run calls (stop t sw)
run (resetting ∷ calls) sw = run calls (reset sw)

-- What a watch is meant to be: off, running since a time, or stopped after it.
pub data Phase : Type 0 where
  off : Phase
  running : Timeval → Phase
  done : Timeval → Timeval → Phase

abbrev enter : Call → Phase → Phase
enter (starting t) p = running t
enter (stopping t) off = off
enter (stopping t) (running t0) = done t0 t
enter (stopping t) (done t0 t1) = done t0 t
enter resetting p = off

abbrev pub phase : List Call → Phase → Phase
phase [] p = p
phase (c ∷ calls) p = phase calls (enter c p)

abbrev in_us : Timeval → ℤ
in_us tv = tv.sec *ℤ 1000000 +ℤ tv.usec

-- The microseconds between start and stop, and 0 while there is no stop to a start.
abbrev pub cost : Phase → ℤ
cost off = pos 0
cost (running t) = pos 0
cost (done t0 t1) = in_us t1 -ℤ in_us t0

-- A time that a clock shows: after the Epoch, in the next 30,000 years.
abbrev IsClock : Timeval → Type 0
IsClock tv =
    (neg_part tv.sec ≡ 0)
    × (pos_part tv.sec < 2 ^ 40)
    × (neg_part tv.usec ≡ 0)
    × (pos_part tv.usec < 1000000)

abbrev pub IsTimed : Call → Type 0
IsTimed (starting t) = IsClock t
IsTimed (stopping t) = IsClock t
IsTimed resetting = Unit

-- How the fields of the watch stand for the phase.
abbrev Stands : StopWatch → Phase → Type 0
Stands sw off = sw.started ≡ false
Stands sw (running t) = (sw.started ≡ true) × (sw.stopped ≡ false) × (sw.start_time ≡ t) × IsClock t
Stands sw (done t0 t1) =
    (sw.started ≡ true)
    × (sw.stopped ≡ true)
    × (sw.start_time ≡ t0)
    × (sw.stop_time ≡ t1)
    × IsClock t0
    × IsClock t1

run-Stands :
    (calls : List Call) (sw : StopWatch) (p : Phase)
    → All IsTimed calls
    → Stands sw p
    → Stands (run calls sw) (phase calls p)
unfolding start stop reset
run-Stands [] sw p timed h = h
run-Stands (starting t ∷ calls) sw p timed h =
    run-Stands calls (start t sw) (running t) timed.1 (refl, refl, refl, timed.0)
run-Stands (stopping t ∷ calls) sw off timed h = run-Stands calls (stop t sw) off timed.1 h
run-Stands (stopping t ∷ calls) sw (running t0) timed h =
    run-Stands calls (stop t sw) (done t0 t) timed.1 (h.0, refl, h.2, refl, h.3, timed.0)
run-Stands (stopping t ∷ calls) sw (done t0 t1) timed h =
    run-Stands calls (stop t sw) (done t0 t) timed.1 (h.0, refl, h.2, refl, h.4, timed.0)
run-Stands (resetting ∷ calls) sw p timed h = run-Stands calls (reset sw) off timed.1 refl

difference_bounds :
    (a b : ℤ) (k : ℕ)
    → neg_part a ≡ 0
    → neg_part b ≡ 0
    → pos_part a < k
    → pos_part b < k
    → (pos_part (a -ℤ b) < k) × (neg_part (a -ℤ b) < k)
difference_bounds a b k p q p' q' = omega (arith, -ℤ_parts a b, part_zero (a -ℤ b))

product_bounds :
    (a : ℤ)
    → pos_part a < 2 ^ 40
    → neg_part a < 2 ^ 40
    → (pos_part (a *ℤ 1000000) < 2 ^ 62) × (neg_part (a *ℤ 1000000) < 2 ^ 62)
product_bounds a p q = omega (arith, *ℤ_parts a 1000000, part_zero (a *ℤ 1000000), part_zero a)

cost_between-clock :
    (t0 t1 : Timeval) → IsClock t0 → IsClock t1 → cost_between t0 t1 ≡ some (in_us t1 -ℤ in_us t0)
cost_between-clock t0 t1 (p, p', q, q') (r, r', u, u') =
    let s = t1.sec -ℤ t0.sec in
    let d = t1.usec -ℤ t0.usec in
    let bs = difference_bounds t1.sec t0.sec (2 ^ 40) r p r' p' in
    let bd = difference_bounds t1.usec t0.usec 1000000 u q u' q' in
    let ba = product_bounds s bs.0 bs.1 in
    let sum = s *ℤ 1000000 +ℤ d in
    let bsum : (pos_part sum < 2 ^ 63) × (neg_part sum < 2 ^ 63) =
      omega (arith, +ℤ_parts (s *ℤ 1000000) d, part_zero sum) in
    rw
      (
        i64-inside s (omega arith) (omega arith),
        i64-inside (s *ℤ 1000000) (omega arith) (omega arith),
        i64-inside d (omega arith) (omega arith),
        i64-inside sum bsum.0 (omega arith),
      )
      (ap some (
        eq_of_parts _ _ (
          omega (
            arith,
            +ℤ_parts (s *ℤ 1000000) d,
            *ℤ_parts s 1000000,
            -ℤ_parts t1.sec t0.sec,
            -ℤ_parts t1.usec t0.usec,
            -ℤ_parts (in_us t1) (in_us t0),
            +ℤ_parts (t1.sec *ℤ 1000000) t1.usec,
            +ℤ_parts (t0.sec *ℤ 1000000) t0.usec,
            *ℤ_parts t1.sec 1000000,
            *ℤ_parts t0.sec 1000000,
          ))))

Stands-cost : (sw : StopWatch) (p : Phase) → Stands sw p → time_cost_us sw ≡ some (cost p)
unfolding time_cost_us
Stands-cost sw off h = rw h refl
Stands-cost sw (running t) h = rw (h.0, h.1) refl
Stands-cost sw (done t0 t1) h = rw (h.0, h.1, h.2, h.3) (cost_between-clock t0 t1 h.4 h.5)

-- After any calls of start, stop and reset on a new watch, at times that a clock shows, timeCostUs
-- returns the microseconds from the last start to the last stop, and 0 if no stop follows the last
-- start or if reset was called since: stop without a start has no effect, a second stop counts, and
-- a start begins anew.
pub time_cost_us-Phase :
    (calls : List Call)
    → All IsTimed calls
    → time_cost_us (run calls stop_watch) ≡ some (cost (phase calls off))
time_cost_us-Phase calls timed =
    Stands-cost (run calls stop_watch) (phase calls off)
      (run-Stands calls stop_watch off timed refl)
