-- ===== src/AppLogger/Tests/Serving.antt =====
-- Runs of the server on a small system, whose state is the time.
use libnebula.Prelude.{
  ℕ, zero, suc, ◌+◌, ◌≤◌, ◌≡◌, refl, true, false, Option, none, some, [], ◌∷◌, ◌++◌, arith, length,
  replicate, length-replicate, ap, inl,
}
use libnebula.Prelude.Int.{ℤ, pos, negsuc}
use libnebula.AsyncEvent.{FdInfo, no_info, TimeEvent, AsyncEvent, System, fresh, info_at}
use libnebula.AsyncEvent.Fds.{stop}
use libnebula.AsyncEvent.Timers.{finished, take_out, nearest_time_event}
use libnebula.AsyncEvent.Dispatch.{event_loop, handle_all, handle_fired, settle}
use libnebula.AsyncIo.{Sockets}
use libnebula.Thread.{get_stop_flag}
use libnebula.AppLogger.{err}
use libnebula.AppLogger.LogFile.{FileHandle, Files, write_message}
use libnebula.AppLogger.Message.{LogHandle}
use libnebula.AppLogger.Message.Line.{line}
use libnebula.AppLogger.Server.{
  is_ready, Note, LogServer, Calls, line_size, noted, write_log_message, clear_ready,
  check_stop_flag, recv_domain_socket_message, create_connection, wait_ready, get_instance,
}
use libnebula.AppLogger.Server.Notes.{write_log_message_lem}
use libnebula.AppLogger.Server.Serve.{
  State, recv_proc, check_proc, this, Ended, failed, lost, routine,
}
use libnebula.AppLogger.Server.Halt.{IsServing, Linked, stop-Halts}
use libnebula.AppLogger.Server.Stop.{get_instance-Spins}

abbrev no_files : Files ℕ
no_files = record {
  format_time = λ w f. (0 ∷ [], w);
  mkstemp = λ w t. (none, t, w);
  open_tty = λ w. (none, w);
  write = λ w fd m. (none, w);
  fsync = λ w fd. w;
  close = λ w fd. w;
}

abbrev calls : Calls ℕ
calls = record {
  files = no_files;
  timestamp = λ v. (116 ∷ [], v);
  header = λ stamp name. some (91 ∷ 93 ∷ []);
  body = λ note. some (120 ∷ []);
  stack = λ v. replicate 4096 0;
  socket_path = λ v. 47 ∷ 0 ∷ [];
  receive = λ v fd. (none, v);
  identity_array = λ v. replicate 64 0;
}

abbrev no_file : FileHandle
no_file = record {
  log_file = [];
  format = [];
  fd = negsuc 0;
  num_write = 0;
  max_write = 0;
  path_len = 0;
}

-- A server with the flags `ready` and `stop`.
abbrev server : ℕ → ℕ → LogServer
server ready stop = record {
  domain_fd = pos 3;
  path = 47 ∷ 0 ∷ [];
  file = no_file;
  ready = ready;
  stop = stop;
}

write_log_message_lem_example :
    (let (nw, file', v') =
        write_message no_files no_file (line line_size line_size ((91 ∷ 93 ∷ []) ++ 120 ∷ [])) 7 in
      write_log_message calls err Note.ready (server 0 0, 7)
      ≡ some (nw, record (server 0 0) { file = file' }, v'))
    × (length (line line_size line_size ((91 ∷ 93 ∷ []) ++ 120 ∷ [])) ≤ line_size)
write_log_message_lem_example =
    write_log_message_lem calls err Note.ready (server 0 0) 7 (91 ∷ 93 ∷ []) (120 ∷ [])
      (length-replicate {A = ℕ} 4096 0) refl refl (omega arith) (omega arith)

noted_here :
    (note : Note) (fd : ℤ) (ready stop v : ℕ)
    → (let self : LogServer = record (server ready stop) { domain_fd = fd } in
        noted calls err note (self, v) ≡ some (self, v))
unfolding write_message
noted_here note fd ready stop v =
    ap (λ o. elim o as (λ x. Option (LogServer × ℕ)) [ none ↦ none | some r ↦ some (r.1, r.2) ])
      (write_log_message_lem calls err note (record (server ready stop) { domain_fd = fd }) v
        (91 ∷ 93 ∷ []) (120 ∷ []) (length-replicate {A = ℕ} 4096 0) refl refl (omega arith)
        (omega arith)).0

abbrev called_time : AsyncEvent → LogServer × ℕ → ℕ × AsyncEvent × (LogServer × ℕ)
called_time s w = elim (check_stop_flag calls s w) [ none ↦ (0, s, w) | some r ↦ r ]

-- One datagram arrives in every wait, and the time is the state.
abbrev system : System (LogServer × ℕ)
system = record {
  epoll_create = λ w n. (none, w);
  table_size = λ w. 4;
  calloc = λ w n. (true, w);
  epoll_ctl = λ w op fd i. (true, w);
  epoll_wait = λ w t. (
    some (record { fd = 3; epollin = true; epollout = false; trouble = false } ∷ []),
    (w.0, w.1 + 50),
  );
  close = λ w fd. w;
  now = λ w. (w.1, w);
  call_fd = λ p fd m a s w. (0, s, w);
  call_time = λ p id a s w. called_time s w;
}

abbrev timer : TimeEvent
timer = record { id = 1; when = 1020; proc = check_proc; arg = this }

abbrev socket_info : FdInfo
socket_info = record {
  monitored = 1;
  already_fired = 0;
  proc = recv_proc;
  proc_exp = 0;
  arg = this;
  arg_exp = 0;
}

-- The loop of a server that reads descriptor 3.
abbrev serving : AsyncEvent
serving = record {
  stopped = false;
  epoll_fd = pos 4;
  fd_table_size = 4;
  num_monitored = 1;
  num_ready = 0;
  ready = 0 ∷ 0 ∷ 0 ∷ 0 ∷ [];
  fds = no_info ∷ no_info ∷ no_info ∷ socket_info ∷ [];
  time_events = timer ∷ [];
  size_time_events = pos 1;
  used_time_events = 1;
  last_time_event_id = 1;
}

serving_quiet : (fd : ℕ) → (info_at serving fd).already_fired ≡ 0
serving_quiet zero = refl
serving_quiet (suc zero) = refl
serving_quiet (suc (suc zero)) = refl
serving_quiet (suc (suc (suc zero))) = refl
serving_quiet (suc (suc (suc (suc fd)))) = refl

serving-IsServing : IsServing serving timer []
serving-IsServing = record {
  running = refl;
  no_ready = refl;
  one_timer = refl;
  timer = refl;
  checks = refl;
  quiet = serving_quiet;
}

system-Linked : Linked calls system
unfolding recv_domain_socket_message
system-Linked = record {
  receives = λ fd mask arg s w. (1, w, refl, refl);
  checks_flag = λ id arg s w r e.
      ap (λ o. elim o as (λ x. ℕ × AsyncEvent × (LogServer × ℕ)) [ none ↦ (0, s, w) | some r ↦ r ])
        e;
}

stop-Halts_example :
    (event_loop system 2 2 serving (server 1 1, 1000)
      ≡ finished (take_out (stop serving) 0 0, (clear_ready (server 1 1), 1050)))
    × (is_ready (clear_ready (server 1 1)).ready ≡ false)
unfolding nearest_time_event handle_all handle_fired settle get_stop_flag
stop-Halts_example =
    stop-Halts calls system system-Linked 0 0 1050 serving timer []
      (record { fd = 3; epollin = true; epollout = false; trouble = false } ∷ []) (server 1 1, 1000)
      (server 1 1, 1050) (server 1 1, 1050) (server 1 1, 1050) serving-IsServing refl
      ((refl, refl), tt) refl (omega arith) (λ e. omega (arith, e))
      (noted_here Note.stopping (pos 3) 1 1 1050)

-- No socket can be had.
abbrev no_net : Sockets ℕ
no_net = record {
  o_nonblock = 2048;
  fd_cloexec = 1;
  sun_path_size = 108;
  get_status = λ w fd. (none, w);
  set_status = λ w fd s. (false, w);
  get_flags = λ w fd. (none, w);
  set_flags = λ w fd s. (false, w);
  pipe = λ w. (none, w);
  socket = λ w k. (none, w);
  accept = λ w fd len. (none, none, w);
  setsockopt = λ w fd o v. (false, w);
  getsockopt = λ w fd o. (none, w);
  bind = λ w fd a. (false, w);
  listen = λ w fd. (false, w);
  connect = λ w fd a. (false, w);
  close = λ w fd. w;
  inet_pton = λ text. none;
}

routine_fails :
    routine calls no_net system 1 1 fresh (server 0 0, 7)
    ≡ failed Note.socket_failed (fresh, (record (server 0 0) { domain_fd = negsuc 0 }, 7))
unfolding routine write_message
routine_fails =
    ap
      (λ o. elim o as (λ x. Ended (State ℕ)) [
        | none ↦ lost
        | some w' ↦ failed Note.socket_failed (fresh, w')
      ])
      (noted_here Note.socket_failed (negsuc 0) 0 0 7)

get_instance-Spins_example : get_instance 100 false true (λ i. 0) ≡ none
get_instance-Spins_example =
    get_instance-Spins calls no_net system 1 1 fresh fresh (server 0 0)
      (record (server 0 0) { domain_fd = negsuc 0 }) 7 7 Note.socket_failed
      (record {
        keep_create = λ w n h. h;
        keep_calloc = λ w n h. h;
        keep_ctl = λ w op fd i h. h;
        keep_now = λ w h. h;
      })
      refl routine_fails 100 (λ i. 0) (λ i. inl refl)

wait_ready_test : wait_ready 5 (λ i. i) ≡ some 1
unfolding wait_ready
wait_ready_test = refl

create_connection_test :
    create_connection calls no_net (105 ∷ 0 ∷ []) 5 (server 1 0, 7) ≡ some (none, (server 1 0, 7))
unfolding create_connection
create_connection_test =
    ap
      (λ o. elim o as (λ x. Option (Option LogHandle × (LogServer × ℕ))) [
        | none ↦ none
        | some w ↦ some (none, w)
      ])
      (noted_here Note.socket_failed (pos 3) 1 0 7)
