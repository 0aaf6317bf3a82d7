-- ===== src/AppLogger/Server/Serve.antt =====
-- `LogServer::routine`, src/app_logger.cc: the thread of the server.
use libnebula.Prelude.{ℕ, Bool, true, false, Option, none, some}
use libnebula.Prelude.Int.{pos, negsuc}
use libnebula.AsyncEvent.{Status, ok, error, AsyncEvent, System, readable}
use libnebula.AsyncEvent.Fds.{initialize, add_fd_event}
use libnebula.AsyncEvent.Timers.{finished, out_of_range, out_of_fuel, add_time_event}
use libnebula.AsyncEvent.Dispatch.{event_loop}
use libnebula.AsyncIo.{Sockets, Address, set_nonblock}
use libnebula.AppLogger.{err, notice}
use libnebula.AppLogger.Server.{Note, LogServer, Calls, check_interval, noted, set_ready}

-- How the routine ends: with the code of an error, with 0, or in the model by an access out of
-- bounds or for want of fuel.
pub data Ended (A : Type 0) : Type 0 where
  failed : Note → A → Ended A
  served : A → Ended A
  lost : Ended A

-- The numbers that stand for `recvDomainSocketMessage`, `checkStopFlag` and `this`.
abbrev pub recv_proc : ℕ
recv_proc = 1

abbrev pub check_proc : ℕ
check_proc = 2

abbrev pub this : ℕ
this = 1

abbrev pub State : Type 0 → Type 0
State V = AsyncEvent × (LogServer × V)

module _ {V : Type 0} (calls : Calls V) (net : Sockets V) (sys : System (LogServer × V))
    (turns fuel : ℕ) where
  -- `writeLogMessage`, then `return (void *) errno`.
  abbrev pub fail : Note → AsyncEvent → LogServer × V → Ended (State V)
  fail note ae w = elim (noted calls err note w) [ none ↦ lost | some w' ↦ failed note (ae, w') ]

  unfoldable pub serve : AsyncEvent → LogServer × V → Ended (State V)
  serve ae (self, v) = elim (noted calls notice Note.ready (set_ready self, v)) [
    | none ↦ lost
    | some w ↦ elim (event_loop sys turns fuel ae w) [
      | finished r ↦ served r
      | out_of_range ↦ lost
      | out_of_fuel ↦ lost
    ]
  ]

  -- After each call of the routine: what it does with the result.
  abbrev pub after_timer : Option ℕ × AsyncEvent × (LogServer × V) → Ended (State V)
  after_timer (none, ae, w) = fail Note.add_time_event_failed ae w
  after_timer (some id, ae, w) = serve ae w

  abbrev pub after_fd_event : Status × AsyncEvent × (LogServer × V) → Ended (State V)
  after_fd_event (error, ae, w) = fail Note.add_fd_event_failed ae w
  after_fd_event (ok, ae, w) = after_timer (add_time_event sys check_interval check_proc this ae w)

  abbrev pub after_initialize : ℕ → Status × AsyncEvent × (LogServer × V) → Ended (State V)
  after_initialize fd (error, ae, w) = fail Note.initialize_failed ae w
  after_initialize fd (ok, ae, w) =
      after_fd_event (add_fd_event sys (pos fd) readable recv_proc this 0 0 ae w)

  abbrev pub after_bind : ℕ → AsyncEvent → LogServer → Bool × V → Ended (State V)
  after_bind fd ae self (false, v) = fail Note.bind_failed ae (self, v)
  after_bind fd ae self (true, v) =
      after_initialize fd (initialize sys (pos 64) (pos 32) ae (self, v))

  abbrev pub after_nonblock : ℕ → AsyncEvent → LogServer → Bool × V → Ended (State V)
  after_nonblock fd ae self (false, v) = fail Note.set_nonblock_failed ae (self, v)
  after_nonblock fd ae self (true, v) =
      let path = calls.socket_path v in
      after_bind fd ae (record self { path = path }) (net.bind v fd (Address.local path))

  abbrev pub after_socket : AsyncEvent → LogServer → Option ℕ × V → Ended (State V)
  after_socket ae self (none, v) =
      fail Note.socket_failed ae (record self { domain_fd = negsuc 0 }, v)
  after_socket ae self (some fd, v) =
      after_nonblock fd ae (record self { domain_fd = pos fd }) (set_nonblock net fd v)

  unfoldable pub routine : AsyncEvent → LogServer × V → Ended (State V)
  unfolding serve
  routine ae (self, v) =
      after_socket ae self (net.socket v (record { is_local = true; use_tcp = false }))
