-- ===== src/AsyncEvent/Dispatch/Wait.antt =====
-- How long `eventLoop` waits, and when it ends.
use libnebula.Prelude.{ℕ, zero, suc, ◌-◌, ◌^◌, ◌≤◌, ◌<◌, ◌≡◌, refl, ◌⊎◌, inl, inr, arith}
use libnebula.Prelude.Int.{pos, negsuc}
use libnebula.AsyncEvent.Dispatch.{wait_time}

-- With `ms` milliseconds to the nearest time event, fewer than `2^31`, the wait never oversleeps
-- it: it is 0 if the event is due, 1 if descriptors are pending, and else exactly `ms`.
wait_time_near :
    (ms num_ready : ℕ)
    → ms < 2 ^ 31
    → (wait : ℕ) × (wait_time (pos ms) num_ready ≡ pos wait)
      × (wait ≤ ms)
      × ((wait ≡ ms) ⊎ (0 < num_ready))
wait_time_near zero num_ready small = (0, refl, omega arith, inl refl)
wait_time_near (suc m) zero small = (suc m, ground arith, omega arith, inl refl)
wait_time_near (suc m) (suc r) small = (1, ground arith, omega arith, inr (omega arith))

-- With nothing pending and `2^31` or more milliseconds to the nearest time event, but fewer than
-- `2^32`, the cast to `int` makes the wait negative, which `epoll_wait` takes for no time limit.
wait_time_far :
    (ms : ℕ) → 2 ^ 31 ≤ ms → ms < 2 ^ 32 → wait_time (pos ms) 0 ≡ negsuc (2 ^ 32 - 1 - ms)
wait_time_far ms large small = ground arith
