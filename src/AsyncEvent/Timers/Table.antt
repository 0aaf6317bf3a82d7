-- ===== src/AsyncEvent/Timers/Table.antt =====
-- The table of time events: identifiers are fresh, and the operations add or remove one event.
use libnebula.Prelude.{
  ℕ, zero, suc, ◌+◌, ◌-◌, ◌%◌, ◌^◌, ◌≤◌, ◌<◌, ◌≡◌, refl, sym, ap, ◌⊎◌, inl, inr, none, some, arith,
  ◌==◌, if◌then◌else◌, ◌∙◌, length, length-set, get_or-set_self, set, weigh, weigh-last,
  weigh-set_out, weigh-move_last, Bool-cases, ==_iff,
}
use libnebula.Prelude.Int.{pos}
use libnebula.AsyncEvent.{Status, ok, error, TimeEvent, no_event, AsyncEvent, System}
use libnebula.AsyncEvent.Timers.{event_at, take_out, del_loop, del_time_event, add_time_event}

-- The sum of a weight over the time events in use.
abbrev pub over_events : (TimeEvent → ℕ) → AsyncEvent → ℕ
over_events f s = weigh f no_event s.time_events 0 s.used_time_events

abbrev pub has_id : ℕ → TimeEvent → ℕ
has_id k e = if e.id == k then 1 else 0

-- The counter stays inside the table, no identifier is in use twice, and none is in use that was
-- not issued yet.
pub record IsTimed (s : AsyncEvent) : Type 0 where
  pub sized : s.size_time_events ≡ pos (length s.time_events)
  pub room : s.used_time_events ≤ length s.time_events
  pub unique : (k : ℕ) → over_events (has_id k) s ≤ 1
  pub issued : (k : ℕ) → s.last_time_event_id < k → over_events (has_id k) s ≡ 0

-- One event of that identifier is gone, and the other events are those that were in use.
abbrev pub Gone : ℕ → AsyncEvent → Status × AsyncEvent → Type 0
Gone id s (status, s') =
    (status ≡ ok)
    × (e : TimeEvent) × (e.id ≡ id)
    × (length s'.time_events ≡ length s.time_events)
    × (s'.used_time_events + 1 ≡ s.used_time_events)
    × ((f : TimeEvent → ℕ) → over_events f s' + f e ≡ over_events f s)

take_out-over_events :
    (f : TimeEvent → ℕ) (s : AsyncEvent) (i last : ℕ)
    → i ≤ last
    → suc last ≡ s.used_time_events
    → s.used_time_events ≤ length s.time_events
    → over_events f (take_out s i last) + f (event_at s i) ≡ over_events f s
take_out-over_events f s i last p q room =
    rw (← q) (ground (arith, weigh-move_last f no_event s.time_events 0 i last))

del_loop_ways :
    (id : ℕ) (s : AsyncEvent) (left i : ℕ)
    → s.used_time_events ≤ length s.time_events
    → i + left ≡ s.used_time_events
    → Gone id s (del_loop id s left i)
      ⊎ ((del_loop id s left i ≡ (error, s))
          × (weigh (has_id id) no_event s.time_events i left ≡ 0))
del_loop_ways id s zero i room e = inr (refl, refl)
del_loop_ways id s (suc left) i room e = elim (Bool-cases ((event_at s i).id == id)) [
  | inl found ↦ rw found (
      inl (
        refl,
        event_at s i,
        (==_iff _ _).0 found,
        length-set s.time_events i _,
        omega arith,
        λ f. take_out-over_events f s i (s.used_time_events - 1) (omega arith) (omega arith) room,
      ))
  | inr other ↦ rw other (elim (del_loop_ways id s left (i + 1) room (omega arith)) [
    | inl gone ↦ inl gone
    | inr (same, absent) ↦ inr (same, omega arith)
  ])
]

-- `delTimeEvent` removes exactly one event with the identifier and keeps all the others, in some
-- order, or there is no such event: then it returns ERROR and changes nothing.
pub del_time_event_ways :
    (id : ℕ) (s : AsyncEvent)
    → IsTimed s
    → Gone id s (del_time_event id s)
      ⊎ ((del_time_event id s ≡ (error, s)) × (over_events (has_id id) s ≡ 0))
unfolding del_time_event
del_time_event_ways id s v = del_loop_ways id s s.used_time_events 0 v.room (omega arith)

del_loop-kept :
    (id : ℕ) (s : AsyncEvent) (left i : ℕ)
    → ((del_loop id s left i).1.size_time_events ≡ s.size_time_events)
      × ((del_loop id s left i).1.last_time_event_id ≡ s.last_time_event_id)
del_loop-kept id s zero i = (refl, refl)
del_loop-kept id s (suc left) i = ground (arith, del_loop-kept id s left (i + 1))

-- `delTimeEvent` keeps the table of time events well-formed.
del_time_event-IsTimed : (id : ℕ) (s : AsyncEvent) → IsTimed s → IsTimed (del_time_event id s).1
unfolding del_time_event
del_time_event-IsTimed id s v = elim (del_time_event_ways id s v) [
  | inr (same, absent) ↦ rw (ap (λ (r : Status × AsyncEvent). r.1) same) v
  | inl (done, e, named, size, less, rest) ↦ record {
    sized = kept.0 ∙ v.sized ∙ ap pos (omega (arith, size));
    room = omega (arith, v.room, size, less);
    unique = λ k. omega (arith, v.unique k, rest (has_id k));
    issued =
        λ k h. omega (arith, v.issued k (omega (arith, ap (λ (t : ℕ). t) kept.1)), rest (has_id k));
  }
]
  where
    kept :
        (((del_time_event id s).1.size_time_events ≡ s.size_time_events)
          × ((del_time_event id s).1.last_time_event_id ≡ s.last_time_event_id))
    kept = del_loop-kept id s s.used_time_events 0

module _ {W : Type 0} (sys : System W) (ms_later proc arg : ℕ) (s : AsyncEvent) (w : W)
    (v : IsTimed s) where
  abbrev new_event : TimeEvent
  new_event = record {
    id = suc s.last_time_event_id;
    when = (sys.now w).0 + ms_later;
    proc = proc;
    arg = arg;
  }

  abbrev grown : AsyncEvent
  grown = record s {
    time_events = set s.time_events s.used_time_events new_event;
    used_time_events = suc s.used_time_events;
    last_time_event_id = suc s.last_time_event_id;
  }

  add_time_event_shape :
      suc s.last_time_event_id < 2 ^ 64
      → ((s.used_time_events ≡ length s.time_events)
          × (add_time_event sys ms_later proc arg s w ≡ (none, s, w)))
        ⊎ ((s.used_time_events < length s.time_events)
            × (add_time_event sys ms_later proc arg s w
                ≡ (some (suc s.last_time_event_id), grown, (sys.now w).1)))
  unfolding add_time_event
  add_time_event_shape small =
      let id : (s.last_time_event_id + 1) % 2 ^ 64 ≡ suc s.last_time_event_id = omega arith in
      let next : s.used_time_events + 1 ≡ suc s.used_time_events = omega arith in
      rw (id, next, v.sized) (ground (arith, v.room))

  over_events-grown :
      (f : TimeEvent → ℕ)
      → s.used_time_events < length s.time_events
      → over_events f grown ≡ over_events f s + f new_event
  over_events-grown f inside = ground (
    arith,
    weigh-last f no_event (set s.time_events s.used_time_events new_event) 0 s.used_time_events,
    weigh-set_out f no_event s.time_events s.used_time_events new_event 0 s.used_time_events,
    get_or-set_self s.time_events s.used_time_events new_event no_event,
  )

  -- `addTimeEvent` on a full table returns ERROR and changes nothing, not even the clock. Else, as
  -- long as the 64-bit counter does not wrap, it returns an identifier that no event in use has,
  -- and exactly one event is added, `ms_later` after the current time, with the given callback.
  pub add_time_event_ways :
      suc s.last_time_event_id < 2 ^ 64
      → let (id, s', w') = add_time_event sys ms_later proc arg s w in
        ((s.used_time_events ≡ length s.time_events)
          × (add_time_event sys ms_later proc arg s w ≡ (none, s, w)))
        ⊎ ((s.used_time_events < length s.time_events)
            × (id ≡ some (suc s.last_time_event_id))
            × (over_events (has_id (suc s.last_time_event_id)) s ≡ 0)
            × ((f : TimeEvent → ℕ)
                → over_events f s'
                  ≡ over_events f s
                    + f (record {
                      id = suc s.last_time_event_id;
                      when = (sys.now w).0 + ms_later;
                      proc = proc;
                      arg = arg;
                    })))
  add_time_event_ways small = elim (add_time_event_shape small) [
    | inl full ↦ inl full
    | inr (inside, shape) ↦ rw shape (
        inr (
          inside,
          refl,
          v.issued (suc s.last_time_event_id) (omega arith),
          λ f. over_events-grown f inside,
        ))
  ]

  grown-IsTimed : s.used_time_events < length s.time_events → IsTimed grown
  grown-IsTimed inside = record {
    sized = v.sized ∙ ap pos (sym (length-set s.time_events s.used_time_events new_event));
    room = omega (arith, length-set s.time_events s.used_time_events new_event);
    unique = λ k. ground (arith, v.unique k, v.issued k, over_events-grown (has_id k) inside);
    issued = λ k h. ground (arith, v.issued k, over_events-grown (has_id k) inside);
  }

  -- `addTimeEvent` keeps the table of time events well-formed while the counter does not wrap.
  add_time_event-IsTimed :
      suc s.last_time_event_id < 2 ^ 64 → IsTimed (add_time_event sys ms_later proc arg s w).1
  add_time_event-IsTimed small = elim (add_time_event_shape small) [
    | inl (full, shape) ↦ rw shape v
    | inr (inside, shape) ↦ rw shape (grown-IsTimed inside)
  ]

-- `delTimeEvent`, and `addTimeEvent` while the 64-bit counter does not wrap, keep the table of time
-- events well-formed.
time_events-IsTimed :
    {W : Type 0} (sys : System W) (id ms_later proc arg : ℕ) (s : AsyncEvent) (w : W)
    → IsTimed s
    → suc s.last_time_event_id < 2 ^ 64
    → IsTimed (del_time_event id s).1 × IsTimed (add_time_event sys ms_later proc arg s w).1
time_events-IsTimed sys id ms_later proc arg s w v small =
    (del_time_event-IsTimed id s v, add_time_event-IsTimed sys ms_later proc arg s w v small)
