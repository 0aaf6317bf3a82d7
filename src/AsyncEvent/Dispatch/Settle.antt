-- ===== src/AsyncEvent/Dispatch/Settle.antt =====
-- What `processFdEvents` does with an I/O callback's answer keeps the tables well-formed.
use libnebula.Prelude.{
  ℕ, ◌+◌, ◌≤◌, ◌<◌, ◌≡◌, ◌∙◌, ◌≢◌, ◌⊎◌, inl, inr, arith, length, length-set, get_or-set_self, set,
  weigh-last, weigh-set_out, tally-set, tally-bound, bit_and, bit_or, bit_or-eq-zero,
}
use native.Mathlib.Numerals.{add-one}
use libnebula.AsyncEvent.{FdInfo, no_info, AsyncEvent, info_at, complement, forget_ready}
use libnebula.AsyncEvent.Valid.{
  IsValid, is_monitored, is_pending, is_fd, num_ready-le, forget_ready-listed,
}
use libnebula.AsyncEvent.Fds.Keep.{info_at-set}
use libnebula.AsyncEvent.Dispatch.{set_fired, guess_of, settle}

module _ (s : AsyncEvent) (n : ℕ) (v : IsValid s) (inside : n < length s.fds) where
  abbrev refired : ℕ → FdInfo
  refired mask = record (info_at s n) { already_fired = mask }

  -- A descriptor that had events pending has others.
  keep_pending :
      (mask : ℕ) → mask ≢ 0 → (info_at s n).already_fired ≢ 0 → IsValid (set_fired s n mask)
  keep_pending mask some_event waits = record {
    table = length-set s.fds n (refired mask) ∙ v.table;
    ready_size = v.ready_size;
    counted =
        ground (arith, v.counted, tally-set is_monitored no_info s.fds n (refired mask) inside);
    pending = ground (arith, v.pending, tally-set is_pending no_info s.fds n (refired mask) inside);
    listed = λ fd. ground (arith, v.listed fd, info_at-set s n v inside (refired mask) fd);
  }

  -- With nothing pending at `n` there is room for it on the list.
  room_left : (info_at s n).already_fired ≡ 0 → s.num_ready < length s.ready
  room_left idle =
      let x : FdInfo = refired 1 in
      ground (
        arith,
        v.pending,
        v.table,
        v.ready_size,
        tally-set is_pending no_info s.fds n x inside,
        tally-bound is_pending no_info (set s.fds n x) (λ y. one y),
        length-set s.fds n x,
      )
    where
      one : (y : FdInfo) → is_pending y ≤ 1
      one y = ground arith

  start_pending :
      (mask : ℕ)
      → mask ≢ 0
      → (info_at s n).already_fired ≡ 0
      → IsValid (
          set_fired
            (record s { ready = set s.ready s.num_ready n; num_ready = s.num_ready + 1 })
            n
            mask)
  start_pending mask some_event idle = record {
    table = length-set s.fds n (refired mask) ∙ v.table;
    ready_size = length-set s.ready s.num_ready n ∙ v.ready_size;
    counted =
        ground (arith, v.counted, tally-set is_monitored no_info s.fds n (refired mask) inside);
    pending = ground (arith, v.pending, tally-set is_pending no_info s.fds n (refired mask) inside);
    listed = λ fd. rw (add-one s.num_ready) (
        ground (
          arith,
          v.listed fd,
          room_left idle,
          weigh-last (is_fd fd) 0 (set s.ready s.num_ready n) 0 s.num_ready,
          weigh-set_out (is_fd fd) 0 s.ready s.num_ready n 0 s.num_ready,
          get_or-set_self s.ready s.num_ready n 0,
          info_at-set s n v inside (refired mask) fd,
        ));
  }

  stop_pending : (info_at s n).already_fired ≢ 0 → IsValid (forget_ready (set_fired s n 0) n)
  stop_pending waits =
      let gone =
        forget_ready-listed (set_fired s n 0) n (num_ready-le v) (ground (arith, v.listed n)) in
      record {
        table = length-set s.fds n (refired 0) ∙ v.table;
        ready_size = (gone (λ x. 0)).1 ∙ v.ready_size;
        counted =
            ground (arith, v.counted, tally-set is_monitored no_info s.fds n (refired 0) inside);
        pending = ground (
          arith,
          v.pending,
          (gone (λ x. 0)).0,
          tally-set is_pending no_info s.fds n (refired 0) inside,
        );
        listed = λ fd. ground (
          arith,
          v.listed fd,
          v.listed n,
          (gone (is_fd fd)).2,
          info_at-set s n v inside (refired 0) fd,
        );
      }

-- The ways through the answer of the callback.
settle_ways :
    (fd ae_events rc : ℕ) (s : AsyncEvent)
    → let info = info_at s fd in
      let guess = guess_of rc info in
      let left = bit_and info.already_fired (complement ae_events) in
      ((guess ≢ 0)
        × (info.already_fired ≡ 0)
        × (settle fd ae_events rc s
            ≡ set_fired
                (record s { ready = set s.ready s.num_ready fd; num_ready = s.num_ready + 1 })
                fd
                (bit_or info.already_fired guess)))
      ⊎ ((guess ≢ 0)
          × (info.already_fired ≢ 0)
          × (settle fd ae_events rc s ≡ set_fired s fd (bit_or info.already_fired guess)))
      ⊎ (settle fd ae_events rc s ≡ s)
      ⊎ ((info.already_fired ≢ 0)
          × (left ≡ 0)
          × (settle fd ae_events rc s ≡ forget_ready (set_fired s fd 0) fd))
      ⊎ ((info.already_fired ≢ 0) × (left ≢ 0) × (settle fd ae_events rc s ≡ set_fired s fd left))
unfolding settle
settle_ways fd ae_events rc s = ground arith

-- Whatever an I/O callback answers, what `processFdEvents` makes of the answer keeps the tables
-- well-formed: the descriptor is on the list of ready ones, once, exactly when it has events
-- pending afterwards, and the list does not outgrow its array.
settle-IsValid :
    (fd ae_events rc : ℕ) (s : AsyncEvent)
    → IsValid s
    → fd < s.fd_table_size
    → IsValid (settle fd ae_events rc s)
settle-IsValid fd ae_events rc s v known =
    let info = info_at s fd in
    let guess = guess_of rc info in
    let inside : fd < length s.fds = omega (arith, v.table) in
    elim (settle_ways fd ae_events rc s) [
      | inl (more, idle, e) ↦ rw e (
          start_pending s fd v inside (bit_or info.already_fired guess)
            (λ h. more (bit_or-eq-zero info.already_fired guess h).1) idle)
      | inr (inl (more, waits, e)) ↦ rw e (
          keep_pending s fd v inside (bit_or info.already_fired guess)
            (λ h. more (bit_or-eq-zero info.already_fired guess h).1) waits)
      | inr (inr (inl e)) ↦ rw e v
      | inr (inr (inr (inl (waits, done, e)))) ↦ rw e (stop_pending s fd v inside waits)
      | inr (inr (inr (inr (waits, some_left, e)))) ↦
          rw e (keep_pending s fd v inside _ some_left waits)
    ]
