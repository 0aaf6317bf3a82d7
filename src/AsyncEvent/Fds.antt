-- ===== src/AsyncEvent/Fds.antt =====
-- Registration of descriptors: `initialize`, `addFdEvent`, `delFdEvent` and `removeFd` of
-- include/nebula/async_event.h, and the small methods beside them.
pub mod Fresh
pub mod Keep
pub mod Kernel
pub mod World
use libnebula.Prelude.{
  ℕ, ◌+◌, ◌-◌, Bool, true, false, Option, none, some, List, [], ◌∷◌, bit_and, bit_or, ltb, ◌==◌,
  not, if◌then◌else◌, get_or, set, replicate,
}
use libnebula.Prelude.Int.{ℤ, pos, negsuc}
use libnebula.AsyncEvent.{
  Status, ok, error, complement, FdInfo, no_info, no_event, AsyncEvent, CtlOp, Interest, System,
  in_table, info_at, interest_of, forget_ready,
}

-- The new state of the object and of the system, with what the method returns.
abbrev pub Outcome : Type 0 → Type 0
Outcome W = Status × AsyncEvent × W

-- `memset(info, 0)`, one monitored descriptor less, and off the list of ready ones.
abbrev pub release : AsyncEvent → ℕ → AsyncEvent
release s fd =
    forget_ready (record s { fds = set s.fds fd no_info; num_monitored = s.num_monitored - 1 }) fd

module _ {W : Type 0} (sys : System W) where
  -- The last step of `initialize`: the table of time events.
  init_time : ℤ → AsyncEvent → W → Outcome W
  init_time (negsuc n) s w = (error, record s { size_time_events = negsuc n }, w)
  init_time (pos n) s w =
      let (got, w') = sys.calloc w n in
      elim got [
        | false ↦ (error, record s { size_time_events = pos n; time_events = [] }, w')
        | true ↦ (ok, record s { size_time_events = pos n; time_events = replicate n no_event }, w')
      ]

  -- The three tables of descriptors; the third, of fired events, is a buffer for `epoll_wait` only.
  init_tables : ℤ → AsyncEvent → W → Outcome W
  init_tables time_hint s w =
      let size = sys.table_size w in
      let s0 : AsyncEvent = record s { fd_table_size = size } in
      let s1 : AsyncEvent = record s0 { ready = replicate size 0 } in
      let s2 : AsyncEvent = record s1 { fds = replicate size no_info } in
      let (got_ready, w1) = sys.calloc w size in
      let (got_fds, w2) = sys.calloc w1 size in
      let (got_fired, w3) = sys.calloc w2 size in
      if not got_ready
      then (error, record s0 { ready = [] }, w1)
      else if not got_fds
      then (error, record s1 { fds = [] }, w2)
      else if not got_fired
      then (error, s2, w3)
      else init_time time_hint s2 w3

  -- `initialize`: a step that fails returns with the fields that were set so far.
  unfoldable pub initialize : ℤ → ℤ → AsyncEvent → W → Outcome W
  unfolding init_tables init_time
  initialize (negsuc h) time_hint s w = (error, s, w)
  initialize (pos hint) time_hint s w =
      let (created, w1) = sys.epoll_create w hint in
      elim created [
        | none ↦ (error, record s { epoll_fd = negsuc 0 }, w1)
        | some epoll_fd ↦ init_tables time_hint (record s { epoll_fd = pos epoll_fd }) w1
      ]

  -- `addFdEvent` at a descriptor of the table.
  pub add_at : ℕ → ℕ → ℕ → ℕ → ℕ → ℕ → AsyncEvent → W → Outcome W
  add_at fd mask proc arg proc_exp arg_exp s w =
      let info = info_at s fd in
      let monitored = bit_or info.monitored mask in
      let first = info.monitored == 0 in
      let (done, w') =
        sys.epoll_ctl w (if first then CtlOp.insert else CtlOp.modify) fd (interest_of monitored) in
      let info' : FdInfo = record info {
        monitored = monitored;
        proc = proc;
        arg = arg;
        proc_exp = proc_exp;
        arg_exp = arg_exp;
      } in
      if not done then (error, s, w') else (
        ok,
        record s {
          fds = set s.fds fd info';
          num_monitored = if first then s.num_monitored + 1 else s.num_monitored;
        },
        w',
      )

  pub add_fd_event : ℤ → ℕ → ℕ → ℕ → ℕ → ℕ → AsyncEvent → W → Outcome W
  unfolding add_at
  add_fd_event fd mask proc arg proc_exp arg_exp s w = elim (in_table s fd) [
    | none ↦ (error, s, w)
    | some n ↦ add_at n mask proc arg proc_exp arg_exp s w
  ]

  pub del_at : ℕ → ℕ → AsyncEvent → W → Outcome W
  del_at fd mask s w =
      let info = info_at s fd in
      let monitored = bit_and info.monitored (complement mask) in
      let (modified, w1) = sys.epoll_ctl w CtlOp.modify fd (interest_of monitored) in
      let (deleted, w2) = sys.epoll_ctl w CtlOp.delete fd (interest_of monitored) in
      if not (monitored == 0)
      then (if not modified
          then (error, s, w1)
          else (ok, record s { fds = set s.fds fd (record info { monitored = monitored }) }, w1))
      else if not deleted
      then (error, s, w2)
      else (ok, release s fd, w2)

  pub del_fd_event : ℤ → ℕ → AsyncEvent → W → Outcome W
  unfolding del_at
  del_fd_event fd mask s w = elim (in_table s fd) [
    | none ↦ (error, s, w)
    | some n ↦ if mask == 0 then (ok, s, w) else del_at n mask s w
  ]

  -- `removeFd` at a descriptor of the table.
  pub remove_at : ℕ → Bool → AsyncEvent → W → Outcome W
  remove_at fd close_it s w =
      let info = info_at s fd in
      let (deleted, w1) =
        sys.epoll_ctl w CtlOp.delete fd (record { epollin = false; epollout = false }) in
      if info.monitored == 0
      then (ok, s, if close_it then sys.close w fd else w)
      else if not deleted
      then (error, s, w1)
      else (ok, release s fd, if close_it then sys.close w1 fd else w1)

  unfoldable pub remove_fd : ℤ → Bool → AsyncEvent → W → Outcome W
  unfolding remove_at
  remove_fd fd close_it s w = elim (in_table s fd) [
    | none ↦ (error, s, w)
    | some n ↦ remove_at n close_it s w
  ]

-- `start` and `stop`.
unfoldable pub start : AsyncEvent → AsyncEvent
start s = record s { stopped = false }

unfoldable pub stop : AsyncEvent → AsyncEvent
stop s = record s { stopped = true }
