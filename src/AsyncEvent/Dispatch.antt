-- ===== src/AsyncEvent/Dispatch.antt =====
-- The event loop of include/nebula/async_event.h: `processReadyFds`, `processFdEvents` and
-- `eventLoop`.
pub mod Pending
pub mod Wait
pub mod Settle
use libnebula.Prelude.{
  ℕ, zero, suc, ◌+◌, ◌-◌, Bool, true, false, ◌&&◌, ◌||◌, not, Option, none, some, List, [], ◌∷◌,
  bit_and, bit_or, ltb, ◌==◌, if◌then◌else◌, get_or, set, length,
}
use libnebula.Prelude.Int.{ℤ, pos, negsuc, to_int}
use libnebula.AsyncEvent.{
  readable, writable, complement, FdInfo, AsyncEvent, Fired, System, info_at, forget_ready,
}
use libnebula.AsyncEvent.Timers.{
  Run, finished, out_of_range, out_of_fuel, nearest_time_event, process_time_events,
}

abbrev pub set_fired : AsyncEvent → ℕ → ℕ → AsyncEvent
set_fired s fd mask = record s {
  fds = set s.fds fd (record (info_at s fd) { already_fired = mask });
}

-- `guess |= info->already_fired_; guess &= info->monitored_`, after the callback.
abbrev pub guess_of : ℕ → FdInfo → ℕ
guess_of rc info = bit_and (bit_or rc info.already_fired) info.monitored

-- The I/O events among those reported.
abbrev pub io_mask : Fired → ℕ
io_mask f = (if f.epollin then readable else 0) + (if f.epollout then writable else 0)

-- What `processFdEvents` does with the guess of an I/O callback.
unfoldable pub settle : ℕ → ℕ → ℕ → AsyncEvent → AsyncEvent
settle fd ae_events rc s =
    let info = info_at s fd in
    let guess = guess_of rc info in
    let left = bit_and info.already_fired (complement ae_events) in
    if not (guess == 0)
    then (let s' : AsyncEvent =
          (if info.already_fired == 0
            then record s { ready = set s.ready s.num_ready fd; num_ready = s.num_ready + 1 }
            else s) in
        set_fired s' fd (bit_or info.already_fired guess))
    else if info.already_fired == 0
    then s
    else if left == 0
    then forget_ready (set_fired s fd left) fd
    else set_fired s fd left

-- The wait that `eventLoop` asks for, from `nearestTimeEvent` cut to an `int`.
abbrev pub wait_time : ℤ → ℕ → ℤ
wait_time (negsuc n) num_ready = if ltb 0 num_ready then pos 1 else negsuc n
wait_time (pos ms) num_ready = elim (to_int ms) [
  | pos zero ↦ pos 0
  | pos (suc m) ↦ if ltb 0 num_ready then pos 1 else pos (suc m)
  | negsuc m ↦ if ltb 0 num_ready then pos 1 else negsuc m
]

module _ {W : Type 0} (sys : System W) where
  -- One reported event: an exception goes to `proc_exp`, I/O to `proc`.
  unfoldable pub handle_fired : Fired → AsyncEvent → W → AsyncEvent × W
  unfolding settle
  handle_fired f s w =
      let info = info_at s f.fd in
      let (rc_exp, s_exp, w_exp) = sys.call_fd info.proc_exp f.fd 0 info.arg_exp s w in
      let (rc, s_io, w_io) = sys.call_fd info.proc f.fd (io_mask f) info.arg s w in
      if f.trouble && not (info.proc_exp == 0)
      then (s_exp, w_exp)
      else if not (io_mask f == 0)
      then (settle f.fd (io_mask f) rc s_io, w_io)
      else (s, w)

  unfoldable pub handle_all : List Fired → AsyncEvent → W → AsyncEvent × W
  handle_all [] s w = (s, w)
  handle_all (f ∷ fs) s w = let (s', w') = handle_fired f s w in handle_all fs s' w'

  -- The number of events reported, or -1 for an error of `epoll_wait`, and what is left.
  unfoldable pub process_fd_events : ℤ → AsyncEvent → W → ℤ × AsyncEvent × W
  unfolding handle_all
  process_fd_events timeout s w =
      let (reported, w') = sys.epoll_wait w timeout in
      elim reported [
        | none ↦ (negsuc 0, s, w')
        | some fs ↦ let (s', w2) = handle_all fs s w' in (pos (length fs), s', w2)
      ]

  -- The loop of `processReadyFds`. After the callback the list is read again at `idx`, whatever
  -- the callback did to it.
  unfoldable pub ready_loop : ℕ → ℕ → ℕ → AsyncEvent → W → Run (ℕ × AsyncEvent × W)
  ready_loop zero idx processed s w = out_of_fuel
  ready_loop (suc fuel) idx processed s w =
      let fd = get_or s.ready idx 0 in
      let info = info_at s fd in
      let (rc, s', w') = sys.call_fd info.proc fd info.already_fired info.arg s w in
      let guess = guess_of rc (info_at s' fd) in
      elim (ltb idx s.num_ready) [
        | false ↦ finished (processed, s, w)
        | true ↦ elim (guess == 0) [
          | false ↦ ready_loop fuel (idx + 1) (processed + 1) (set_fired s' fd guess) w'
          | true ↦
              let cleared = set_fired s' fd 0 in
              elim (get_or s'.ready idx 0 == fd) [
                | false ↦ ready_loop fuel idx (processed + 1) cleared w'
                | true ↦ elim s'.num_ready [
                  | zero ↦ out_of_range
                  | suc last ↦
                      ready_loop fuel idx (processed + 1)
                        (record cleared {
                          ready = set s'.ready idx (get_or s'.ready last 0);
                          num_ready = last;
                        })
                        w'
                ]
              ]
        ]
      ]

  unfoldable pub process_ready_fds : ℕ → AsyncEvent → W → Run (ℕ × AsyncEvent × W)
  unfolding ready_loop
  process_ready_fds fuel s w = ready_loop fuel 0 0 s w

  -- One turn of `eventLoop`; `fuel` bounds the rounds of each inner loop.
  unfoldable pub turn : ℕ → AsyncEvent → W → Run (AsyncEvent × W)
  turn fuel s w = elim (process_ready_fds fuel s w) [
    | out_of_range ↦ out_of_range
    | out_of_fuel ↦ out_of_fuel
    | finished (handled, s1, w1) ↦
        let (ms_left, w2) = nearest_time_event sys s1 w1 in
        let (nr, s3, w3) = process_fd_events (wait_time ms_left s1.num_ready) s1 w2 in
        elim (process_time_events sys fuel s3 w3) [
          | out_of_range ↦ out_of_range
          | out_of_fuel ↦ out_of_fuel
          | finished (fired, s4, w4) ↦ finished (s4, w4)
        ]
  ]

  -- The test of `eventLoop`.
  abbrev pub goes_on : AsyncEvent → Bool
  goes_on s = not s.stopped && (ltb 0 s.num_monitored || ltb 0 s.used_time_events)

  -- `eventLoop`, for at most `turns` turns.
  unfoldable pub event_loop : ℕ → ℕ → AsyncEvent → W → Run (AsyncEvent × W)
  unfolding turn
  event_loop zero fuel s w = out_of_fuel
  event_loop (suc turns) fuel s w = elim (goes_on s) [
    | false ↦ finished (s, w)
    | true ↦ elim (turn fuel s w) [
      | out_of_range ↦ out_of_range
      | out_of_fuel ↦ out_of_fuel
      | finished (s', w') ↦ event_loop turns fuel s' w'
    ]
  ]
