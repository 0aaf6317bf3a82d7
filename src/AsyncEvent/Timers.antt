-- ===== src/AsyncEvent/Timers.antt =====
-- Time events of include/nebula/async_event.h: `addTimeEvent`, `delTimeEvent`, `processTimeEvents`
-- and `nearestTimeEvent`. The first `used_time_events` entries of the table are in use.
pub mod Table
mod Nearest
pub mod Once
use libnebula.Prelude.{
  ℕ, zero, suc, ◌+◌, ◌-◌, ◌%◌, ◌^◌, Bool, true, false, Option, none, some, List, [], ◌∷◌, ltb, leb,
  ◌==◌, if◌then◌else◌, get_or, set,
}
use libnebula.Prelude.Int.{ℤ, pos, negsuc}
use libnebula.AsyncEvent.{Status, ok, error, TimeEvent, no_event, AsyncEvent, System}

-- How a loop over callbacks ends: by its test, at an index out of range, or with no rounds left.
pub data Run {ℓ} (A : Type ℓ) : Type ℓ where
  finished : A → Run A
  out_of_range : Run A
  out_of_fuel : Run A

abbrev pub event_at : AsyncEvent → ℕ → TimeEvent
event_at s i = get_or s.time_events i no_event

-- `used_time_events_ == size_time_events_`
abbrev is_full : ℤ → ℕ → Bool
is_full (pos n) used = used == n
is_full (negsuc n) used = false

-- `list[i] = list[--used]`, where `last` is the new count.
abbrev pub take_out : AsyncEvent → ℕ → ℕ → AsyncEvent
take_out s i last = record s {
  time_events = set s.time_events i (event_at s last);
  used_time_events = last;
}

-- The loop of `delTimeEvent`; `left` is the rounds that remain.
abbrev pub del_loop : ℕ → AsyncEvent → ℕ → ℕ → Status × AsyncEvent
del_loop id s zero i = (error, s)
del_loop id s (suc left) i =
    let rest = del_loop id s left (i + 1) in
    if (event_at s i).id == id then (ok, take_out s i (s.used_time_events - 1)) else rest

pub del_time_event : ℕ → AsyncEvent → Status × AsyncEvent
del_time_event id s = del_loop id s s.used_time_events 0

-- The scan of `nearestTimeEvent`; the index -1 of its start is `none`.
abbrev pub nearest_loop : AsyncEvent → ℕ → ℕ → Option ℕ → Option ℕ
nearest_loop s zero i best = best
nearest_loop s (suc left) i none = nearest_loop s left (i + 1) (some i)
nearest_loop s (suc left) i (some b) =
    nearest_loop s left (i + 1)
      (some (if ltb (event_at s i).when (event_at s b).when then i else b))

module _ {W : Type 0} (sys : System W) where
  -- The identifier of the new event, or `none` for ERROR.
  unfoldable pub add_time_event : ℕ → ℕ → ℕ → AsyncEvent → W → Option ℕ × AsyncEvent × W
  add_time_event ms_later proc arg s w =
      let (now, w') = sys.now w in
      let id = (s.last_time_event_id + 1) % 2 ^ 64 in
      let e : TimeEvent = record { id = id; when = now + ms_later; proc = proc; arg = arg } in
      if is_full s.size_time_events s.used_time_events then (none, s, w) else (
        some id,
        record s {
          time_events = set s.time_events s.used_time_events e;
          used_time_events = s.used_time_events + 1;
          last_time_event_id = id;
        },
        w',
      )

  -- Milliseconds to the nearest time event, 0 if it is late, -1 if there is none.
  unfoldable pub nearest_time_event : AsyncEvent → W → ℤ × W
  nearest_time_event s w = elim (nearest_loop s s.used_time_events 0 none) [
    | none ↦ (negsuc 0, w)
    | some i ↦ (pos ((event_at s i).when - (sys.now w).0), (sys.now w).1)
  ]

  -- The loop of `processTimeEvents`. The entry is read before the callback, and written after it
  -- into the table that the callback leaves.
  unfoldable pub time_loop : ℕ → ℕ → ℕ → ℕ → AsyncEvent → W → Run (ℕ × AsyncEvent × W)
  time_loop zero now i processed s w = out_of_fuel
  time_loop (suc fuel) now i processed s w =
      let e = event_at s i in
      let (rc, s', w') = sys.call_time e.proc e.id e.arg s w in
      elim (ltb i s.used_time_events) [
        | false ↦ finished (processed, s, w)
        | true ↦ elim (leb e.when now) [
          | false ↦ time_loop fuel now (i + 1) processed s w
          | true ↦ elim rc [
            | suc r ↦
                time_loop fuel now (i + 1) (processed + 1)
                  (record s' {
                    time_events =
                        set s'.time_events i (record (event_at s' i) { when = now + suc r });
                  })
                  w'
            | zero ↦ elim s'.used_time_events [
              | zero ↦ out_of_range
              | suc last ↦ time_loop fuel now i (processed + 1) (take_out s' i last) w'
            ]
          ]
        ]
      ]

  -- `fuel` is a bound on the rounds of the loop.
  unfoldable pub process_time_events : ℕ → AsyncEvent → W → Run (ℕ × AsyncEvent × W)
  unfolding time_loop
  process_time_events fuel s w = let (now, w') = sys.now w in time_loop fuel now 0 0 s w'
