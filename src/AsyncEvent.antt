-- ===== src/AsyncEvent.antt =====
-- The state of nebula::AsyncEvent (include/nebula/async_event.h) and what it asks of the system.
-- A `void *` and a function pointer are numbers, 0 for NULL; `System` gives the functions.
pub mod Fds
pub mod Timers
pub mod Dispatch
pub mod Valid
mod Tests
use libnebula.Prelude.{
  ℕ, zero, suc, ◌+◌, ◌-◌, ◌^◌, Bool, true, false, Option, none, some, List, [], ◌∷◌, bit_and,
  bit_or, ltb, ◌==◌, not, if◌then◌else◌, get_or, set,
}
use libnebula.Prelude.Int.{ℤ, pos, negsuc}

-- `OK` and `ERROR`.
pub data Status : Type 0 where
  ok error : Status

-- The bits of `ae_event_type_t`; NONE is 0.
abbrev pub readable : ℕ
readable = 1

abbrev pub writable : ℕ
writable = 2

-- `~ mask` on `uint32_t`.
abbrev pub complement : ℕ → ℕ
complement mask = 2 ^ 32 - 1 - mask

-- `AsyncFdEventInfo`
pub record FdInfo : Type 0 where
  pub monitored : ℕ
  pub already_fired : ℕ
  pub proc : ℕ
  pub proc_exp : ℕ
  pub arg : ℕ
  pub arg_exp : ℕ

-- What `memset` with 0 leaves.
abbrev pub no_info : FdInfo
no_info = record { monitored = 0; already_fired = 0; proc = 0; proc_exp = 0; arg = 0; arg_exp = 0 }

-- `AsyncTimeEventInfo`; a time is in milliseconds since the Epoch.
pub record TimeEvent : Type 0 where
  pub id : ℕ
  pub when : ℕ
  pub proc : ℕ
  pub arg : ℕ

abbrev pub no_event : TimeEvent
no_event = record { id = 0; when = 0; proc = 0; arg = 0 }

-- The fields of `AsyncEvent`. The three arrays have the sizes of their allocations, and stand
-- beside the counters of the entries in use.
pub record AsyncEvent : Type 0 where
  pub stopped : Bool
  pub epoll_fd : ℤ
  pub fd_table_size : ℕ
  pub num_monitored : ℕ
  pub num_ready : ℕ
  pub ready : List ℕ
  pub fds : List FdInfo
  pub time_events : List TimeEvent
  pub size_time_events : ℤ
  pub used_time_events : ℕ
  pub last_time_event_id : ℕ

-- The constructor; the arrays are NULL.
unfoldable pub fresh : AsyncEvent
fresh = record {
  stopped = false;
  epoll_fd = negsuc 0;
  fd_table_size = 0;
  num_monitored = 0;
  num_ready = 0;
  ready = [];
  fds = [];
  time_events = [];
  size_time_events = pos 0;
  used_time_events = 0;
  last_time_event_id = 0;
}

-- The operations of `epoll_ctl`.
pub data CtlOp : Type 0 where
  insert modify delete : CtlOp

-- The event bits that the code puts into an `epoll_event`, beside EPOLLET.
pub record Interest : Type 0 where
  pub epollin : Bool
  pub epollout : Bool

-- An event that `epoll_wait` reports; `trouble` is EPOLLHUP or EPOLLERR.
pub record Fired : Type 0 where
  pub fd : ℕ
  pub epollin : Bool
  pub epollout : Bool
  pub trouble : Bool

-- The system calls and the callbacks, over a state `W` of all that lies outside. A call that may
-- fail returns whether it succeeded; `epoll_wait` returns nothing if it fails. A callback is given
-- the object itself, and may change it by any of the operations.
pub record System (W : Type 0) : Type 0 where
  pub epoll_create : W → ℕ → Option ℕ × W
  pub table_size : W → ℕ
  pub calloc : W → ℕ → Bool × W
  pub epoll_ctl : W → CtlOp → ℕ → Interest → Bool × W
  pub epoll_wait : W → ℤ → Option (List Fired) × W
  pub close : W → ℕ → W
  pub now : W → ℕ × W
  pub call_fd : ℕ → ℕ → ℕ → ℕ → AsyncEvent → W → ℕ × AsyncEvent × W
  pub call_time : ℕ → ℕ → ℕ → AsyncEvent → W → ℕ × AsyncEvent × W

-- The test `fd >= fd_table_size_ || fd < 0`, and the index that is left of `fd`.
abbrev pub in_table : AsyncEvent → ℤ → Option ℕ
in_table s (negsuc n) = none
in_table s (pos n) = if ltb n s.fd_table_size then some n else none

abbrev pub info_at : AsyncEvent → ℕ → FdInfo
info_at s n = get_or s.fds n no_info

-- The event bits for the monitored mask.
abbrev pub interest_of : ℕ → Interest
interest_of monitored = record {
  epollin = not (bit_and monitored readable == 0);
  epollout = not (bit_and monitored writable == 0);
}

-- The loop that takes `fd` off the list of ready descriptors: `list[i] = list[--num]` at the first
-- `i` that holds it. `left` is the rounds that remain, `num - i`.
unfoldable pub unlist : List ℕ → ℕ → ℕ → ℕ → ℕ → List ℕ × ℕ
unlist ready num fd zero i = (ready, num)
unlist ready num fd (suc left) i =
    let rest = unlist ready num fd left (i + 1) in
    if get_or ready i 0 == fd then (set ready i (get_or ready (num - 1) 0), num - 1) else rest

abbrev pub forget_ready : AsyncEvent → ℕ → AsyncEvent
forget_ready s fd =
    let (ready', num') = unlist s.ready s.num_ready fd s.num_ready 0 in
    record s { ready = ready'; num_ready = num' }
