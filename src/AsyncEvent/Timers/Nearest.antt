-- ===== src/AsyncEvent/Timers/Nearest.antt =====
-- nearestTimeEvent finds the earliest of the time events.
use libnebula.Prelude.{
  ℕ, zero, suc, ◌+◌, ◌-◌, ◌≤◌, ◌<◌, ◌≡◌, refl, ◌⊎◌, inl, inr, none, some, arith, ltb, if◌then◌else◌,
}
use native.Mathlib.Decide.{ℕ_discrete}
use libnebula.Prelude.Int.{pos, negsuc}
use libnebula.AsyncEvent.{AsyncEvent, System}
use libnebula.AsyncEvent.Timers.{event_at, nearest_loop, nearest_time_event}

nearest_loop-least :
    (s : AsyncEvent) (left i : ℕ) (b : ℕ)
    → b < i
    → ((j : ℕ) → j < i → (event_at s b).when ≤ (event_at s j).when)
    → (k : ℕ) × (nearest_loop s left i (some b) ≡ some k)
      × (k < i + left)
      × ((j : ℕ) → j < i + left → (event_at s k).when ≤ (event_at s j).when)
nearest_loop-least s zero i b inside least = (b, refl, omega arith, λ j h. least j (omega arith))
nearest_loop-least s (suc left) i b inside least =
    let (k, e, p, q) = nearest_loop-least s left (i + 1) best (ground arith) better in
    (k, e, omega arith, λ j h. q j (omega arith))
  where
    best : ℕ
    best = if ltb (event_at s i).when (event_at s b).when then i else b

    better : (j : ℕ) → j < i + 1 → (event_at s best).when ≤ (event_at s j).when
    better j h = elim (ℕ_discrete j i) [
      | yes e ↦ rw e (ground arith)
      | no ne ↦ ground (arith, least j)
    ]

nearest_loop-found :
    (s : AsyncEvent) (n : ℕ)
    → ((n ≡ 0) × (nearest_loop s n 0 none ≡ none))
      ⊎ ((k : ℕ) × (nearest_loop s n 0 none ≡ some k)
          × (k < n)
          × ((j : ℕ) → j < n → (event_at s k).when ≤ (event_at s j).when))
nearest_loop-found s zero = inl (refl, refl)
nearest_loop-found s (suc n) =
    let (k, found, p, q) = nearest_loop-least s n (0 + 1) 0 (omega arith) first in
    inr (k, found, omega arith, λ j h. q j (omega arith))
  where
    first : (j : ℕ) → j < 1 → (event_at s 0).when ≤ (event_at s j).when
    first zero h = omega arith
    first (suc j) h = absurd (omega arith)

-- `nearestTimeEvent` returns -1 when no event is in use, without reading the clock; else there is
-- an event in use, none of the others earlier, and the result is the time that is left to it from
-- now, 0 if that has passed.
nearest_time_event_lem :
    {W : Type 0} (sys : System W) (s : AsyncEvent) (w : W)
    → ((s.used_time_events ≡ 0) × (nearest_time_event sys s w ≡ (negsuc 0, w)))
      ⊎ ((k : ℕ) × (k < s.used_time_events)
          × ((j : ℕ) → j < s.used_time_events → (event_at s k).when ≤ (event_at s j).when)
          × (nearest_time_event sys s w
              ≡ (pos ((event_at s k).when - (sys.now w).0), (sys.now w).1)))
unfolding nearest_time_event
nearest_time_event_lem sys s w = elim (nearest_loop-found s s.used_time_events) [
  | inl (empty, found) ↦ inl (empty, rw (found, nearest_time_event))
  | inr (k, found, p, q) ↦ inr (k, p, q, rw (found, nearest_time_event))
]
