-- ===== src/AsyncEvent/Timers/Once.antt =====
-- One pass of `processTimeEvents` over callbacks that leave the object alone.
use libnebula.Prelude.{
  ℕ, zero, suc, ◌+◌, ◌≤◌, ◌<◌, ◌≡◌, refl, ◌∙◌, ◌≢◌, arith, leb, ◌==◌, if◌then◌else◌, length,
  length-set, get_or-set_self, set, weigh, weigh-last, weigh-set_out, weigh-move_last,
}
use native.Mathlib.Decide.{dec_le, ℕ_discrete}
use native.Mathlib.Numerals.{add-one}
use libnebula.AsyncEvent.{TimeEvent, no_event, AsyncEvent, System}
use libnebula.AsyncEvent.Timers.{
  Run, finished, out_of_range, out_of_fuel, event_at, take_out, time_loop, process_time_events,
}
use libnebula.AsyncEvent.Timers.Table.{over_events}

-- A callback of a time event leaves the object as it is, and its answer depends on its arguments.
pub record IsQuiet {W : Type 0} (sys : System W) (reply : ℕ → ℕ → ℕ → ℕ) : Type 0 where
  pub answers :
      (proc id arg : ℕ) (s : AsyncEvent) (w : W)
      → (sys.call_time proc id arg s w).0 ≡ reply proc id arg
  pub leaves : (proc id arg : ℕ) (s : AsyncEvent) (w : W) → (sys.call_time proc id arg s w).1 ≡ s

module _ (reply : ℕ → ℕ → ℕ → ℕ) (now : ℕ) where
  abbrev pub answer : TimeEvent → ℕ
  answer e = reply e.proc e.id e.arg

  abbrev pub due : TimeEvent → ℕ
  due e = if leb e.when now then 1 else 0

  -- The weight of what an event becomes: gone if it is due and its callback answers 0, put off by
  -- the answer if that is another number, and untouched if it is not due.
  abbrev pub after : (TimeEvent → ℕ) → TimeEvent → ℕ
  after f e =
      if leb e.when now
      then (if answer e == 0 then 0 else f (record e { when = now + answer e }))
      else f e

module _ {W : Type 0} (sys : System W) (reply : ℕ → ℕ → ℕ → ℕ) (quiet : IsQuiet sys reply)
    (now : ℕ) where
  abbrev Ends : AsyncEvent → ℕ → ℕ → ℕ → Run (ℕ × AsyncEvent × W) → Type 0
  Ends s i n processed out_of_range = ⊥
  Ends s i n processed out_of_fuel = ⊥
  Ends s i n processed (finished (processed', s', w')) =
      (processed' ≡ processed + weigh (due reply now) no_event s.time_events i n)
      × (length s'.time_events ≡ length s.time_events)
      × ((f : TimeEvent → ℕ)
          → over_events f s'
            ≡ weigh f no_event s.time_events 0 i
              + weigh (after reply now f) no_event s.time_events i n)

  module _ (fuel i processed : ℕ) (s : AsyncEvent) (w : W) where
    abbrev called : W
    called = let e = event_at s i in (sys.call_time e.proc e.id e.arg s w).2

    abbrev put_off : AsyncEvent
    put_off = record s {
      time_events =
          set s.time_events i
            (record (event_at s i) { when = now + answer reply now (event_at s i) });
    }

    time_loop_stop :
        s.used_time_events ≤ i
        → time_loop sys (suc fuel) now i processed s w ≡ finished (processed, s, w)
    unfolding time_loop
    time_loop_stop h = ground arith

    time_loop_later :
        i < s.used_time_events
        → now < (event_at s i).when
        → time_loop sys (suc fuel) now i processed s w
          ≡ time_loop sys fuel now (i + 1) processed s w
    unfolding time_loop
    time_loop_later h late = ground arith

    time_loop_again :
        i < s.used_time_events
        → (event_at s i).when ≤ now
        → answer reply now (event_at s i) ≢ 0
        → time_loop sys (suc fuel) now i processed s w
          ≡ time_loop sys fuel now (i + 1) (processed + 1) put_off called
    unfolding time_loop
    time_loop_again h is_due more =
        let e = event_at s i in
        ground (arith, quiet.answers e.proc e.id e.arg s w, quiet.leaves e.proc e.id e.arg s w)

    time_loop_gone :
        (last : ℕ)
        → i < s.used_time_events
        → (event_at s i).when ≤ now
        → answer reply now (event_at s i) ≡ 0
        → s.used_time_events ≡ suc last
        → time_loop sys (suc fuel) now i processed s w
          ≡ time_loop sys fuel now i (processed + 1) (take_out s i last) called
    unfolding time_loop
    time_loop_gone last h is_due done count =
        let e = event_at s i in
        ground (arith, quiet.answers e.proc e.id e.arg s w, quiet.leaves e.proc e.id e.arg s w)

  -- What a round leaves to do is what was left before it.
  carry :
      (s t : AsyncEvent) (i j n m p q : ℕ)
      → q + weigh (due reply now) no_event t.time_events j m
        ≡ p + weigh (due reply now) no_event s.time_events i n
      → length t.time_events ≡ length s.time_events
      → ((f : TimeEvent → ℕ)
          → weigh f no_event t.time_events 0 j
              + weigh (after reply now f) no_event t.time_events j m
            ≡ weigh f no_event s.time_events 0 i
              + weigh (after reply now f) no_event s.time_events i n)
      → (r : Run (ℕ × AsyncEvent × W)) → Ends t j m q r
      → Ends s i n p r
  carry s t i j n m p q counts size weights out_of_range ends = ends
  carry s t i j n m p q counts size weights out_of_fuel ends = ends
  carry s t i j n m p q counts size weights (finished (p', s', w')) (a, b, c) =
      (a ∙ counts, b ∙ size, λ f. c f ∙ weights f)

  module _ (s : AsyncEvent) (i m : ℕ) (room : i < length s.time_events) where
    later-weights :
        now < (event_at s i).when
        → (f : TimeEvent → ℕ)
        → weigh f no_event s.time_events 0 (i + 1)
            + weigh (after reply now f) no_event s.time_events (i + 1) m
          ≡ weigh f no_event s.time_events 0 i
            + weigh (after reply now f) no_event s.time_events i (suc m)
    later-weights late f = ground (arith, add-one i, weigh-last f no_event s.time_events 0 i)

    again-weights :
        (event_at s i).when ≤ now
        → answer reply now (event_at s i) ≢ 0
        → (f : TimeEvent → ℕ)
        → let l =
            set s.time_events i
              (record (event_at s i) { when = now + answer reply now (event_at s i) }) in
          weigh f no_event l 0 (i + 1) + weigh (after reply now f) no_event l (i + 1) m
          ≡ weigh f no_event s.time_events 0 i
            + weigh (after reply now f) no_event s.time_events i (suc m)
    again-weights is_due more f =
        let e : TimeEvent = record (event_at s i) {
          when = now + answer reply now (event_at s i);
        } in
        ground (
          arith,
          add-one i,
          weigh-last f no_event (set s.time_events i e) 0 i,
          get_or-set_self s.time_events i e no_event,
          weigh-set_out f no_event s.time_events i e 0 i,
          weigh-set_out (after reply now f) no_event s.time_events i e (i + 1) m,
        )

    gone-weights :
        i + m < length s.time_events
        → (event_at s i).when ≤ now
        → answer reply now (event_at s i) ≡ 0
        → (f : TimeEvent → ℕ)
        → let l = set s.time_events i (event_at s (i + m)) in
          weigh f no_event l 0 i + weigh (after reply now f) no_event l i m
          ≡ weigh f no_event s.time_events 0 i
            + weigh (after reply now f) no_event s.time_events i (suc m)
    gone-weights inside is_due done f = ground (
      arith,
      weigh-set_out f no_event s.time_events i (event_at s (i + m)) 0 i,
      weigh-move_last (after reply now f) no_event s.time_events i i m,
    )

  time_loop-Ends :
      (fuel n i processed : ℕ) (s : AsyncEvent) (w : W)
      → n < fuel
      → i + n ≡ s.used_time_events
      → s.used_time_events ≤ length s.time_events
      → Ends s i n processed (time_loop sys fuel now i processed s w)
  time_loop-Ends zero n i processed s w enough e room = absurd (omega arith)
  time_loop-Ends (suc fuel) zero i processed s w enough e room =
      rw (time_loop_stop fuel i processed s w (omega arith)) (
        let same : i ≡ s.used_time_events = omega arith in
        (omega arith, refl, λ f. rw same (omega arith)))
  time_loop-Ends (suc fuel) (suc m) i processed s w enough e room =
      elim (dec_le (event_at s i).when now) [
        | no late ↦ rw (time_loop_later fuel i processed s w (omega arith) (omega arith)) (
            carry s s i (i + 1) (suc m) m processed processed (ground arith) refl
              (later-weights s i m (omega arith) (omega arith)) _
              (time_loop-Ends fuel m (i + 1) processed s w (omega arith) (omega arith) room))
        | yes is_due ↦ elim (ℕ_discrete (answer reply now (event_at s i)) 0) [
          | no more ↦
              let e' : TimeEvent = record (event_at s i) {
                when = now + answer reply now (event_at s i);
              } in
              let t = put_off fuel i processed s w in
              let size = length-set s.time_events i e' in
              rw (time_loop_again fuel i processed s w (omega arith) is_due more) (
                carry s t i (i + 1) (suc m) m processed (processed + 1)
                  (ground
                    (arith, weigh-set_out (due reply now) no_event s.time_events i e' (i + 1) m))
                  size (again-weights s i m (omega arith) is_due more) _
                  (time_loop-Ends fuel m (i + 1) (processed + 1) t (called fuel i processed s w)
                    (omega arith) (omega arith) (omega (arith, size))))
          | yes done ↦
              let t = take_out s i (i + m) in
              let size = length-set s.time_events i (event_at s (i + m)) in
              rw
                (time_loop_gone fuel i processed s w (i + m) (omega arith) is_due done
                  (omega arith))
                (carry s t i i (suc m) m processed (processed + 1)
                  (ground (arith, weigh-move_last (due reply now) no_event s.time_events i i m))
                  size (gone-weights s i m (omega arith) (omega arith) is_due done) _
                  (time_loop-Ends fuel m i (processed + 1) t (called fuel i processed s w)
                    (omega arith) refl (omega (arith, size))))
        ]
      ]

  ran :
      (s : AsyncEvent) (n processed i : ℕ) (r : Run (ℕ × AsyncEvent × W))
      → Ends s i n processed r
      → (p' : ℕ) × (s' : AsyncEvent) × (w' : W) × (r ≡ finished (p', s', w'))
        × Ends s i n processed (finished (p', s', w'))
  ran s n processed i out_of_range ends = absurd ends
  ran s n processed i out_of_fuel ends = absurd ends
  ran s n processed i (finished (p', s', w')) ends = (p', s', w', refl, ends)

-- Over callbacks that leave the object alone, and with as many rounds as there are events and one
-- more, a pass of `processTimeEvents` ends. It handles each event that is due, once, and no other:
-- the number returned is that of the events due, and the table then holds, in some order, the
-- events that were not due as they were, and those due whose callback did not answer 0, each put
-- off to that many milliseconds after the start of the pass.
pub process_time_events-once :
    {W : Type 0} (sys : System W) (reply : ℕ → ℕ → ℕ → ℕ) (fuel : ℕ) (s : AsyncEvent) (w : W)
    → IsQuiet sys reply
    → s.used_time_events ≤ length s.time_events
    → s.used_time_events < fuel
    → (processed : ℕ) × (s' : AsyncEvent) × (w' : W) × (process_time_events sys fuel s w
        ≡ finished (processed, s', w'))
      × (processed ≡ over_events (due reply (sys.now w).0) s)
      × ((f : TimeEvent → ℕ) → over_events f s' ≡ over_events (after reply (sys.now w).0 f) s)
unfolding process_time_events
process_time_events-once sys reply fuel s w quiet room enough =
    let now = (sys.now w).0 in
    let (p', s', w', e, (counted, size, weights)) =
      ran sys reply quiet now s s.used_time_events 0 0 _ (
        time_loop-Ends sys reply quiet now fuel s.used_time_events 0 0 s (sys.now w).1 enough
          (omega arith) room) in
    (p', s', w', e, omega (arith, counted), λ f. omega (arith, weights f))
