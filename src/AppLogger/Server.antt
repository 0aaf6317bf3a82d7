-- ===== src/AppLogger/Server.antt =====
-- LogServer, include/nebula/app_logger.h and src/app_logger.cc: a thread with an event loop, which
-- reads a socket and writes what it receives into the log file. Its object, with the static flag
-- `ready_to_serve_client_`, is part of the world of the loop's callbacks.
pub mod Serve
pub mod Notes
pub mod Stop
pub mod Halt
pub mod Destroy
use Prim.Native.String.{String}
use libnebula.Prelude.{
  ℕ, zero, suc, ◌+◌, Bool, true, false, Option, none, some, List, [], ◌∷◌, ltb, ◌==◌, if◌then◌else◌,
  length,
}
use libnebula.Prelude.Int.{ℤ, pos, negsuc}
use libnebula.Text.{Bytes}
use libnebula.AsyncEvent.{AsyncEvent}
use libnebula.AsyncEvent.Fds.{stop}
use libnebula.AsyncIo.{Sockets, Address}
use libnebula.Thread.{compare_and_swap, get_stop_flag}
use libnebula.AppLogger.{err, to_string}
use libnebula.AppLogger.LogFile.{FileHandle, Files, write_message}
use libnebula.AppLogger.Message.{LogHandle, compose, log_handle, set_conn_fd}

-- `DEFAULT_CHECK_INTERVAL_MS`, and the size of the buffer of `writeLogMessage`.
abbrev pub check_interval : ℕ
check_interval = 1000

abbrev pub line_size : ℕ
line_size = 4096

-- The messages of the server itself, by the call that failed or by what happens.
pub data Note : Type 0 where
  socket_failed set_nonblock_failed bind_failed initialize_failed : Note
  add_fd_event_failed add_time_event_failed connect_failed : Note
  ready stopping : Note

-- The fields, without the event loop; `path` is the text of `server_addr_.sun_path`, and `stop` the
-- flag of the thread.
pub record LogServer : Type 0 where
  pub domain_fd : ℤ
  pub path : Bytes
  pub file : FileHandle
  pub ready : ℕ
  pub stop : ℕ

-- What the server asks of the system beside sockets; `header` and `body` are the texts that its
-- formats print, and `stack` is what an array of `line_size` bytes holds before it is written.
pub record Calls (V : Type 0) : Type 0 where
  pub files : Files V
  pub timestamp : V → Bytes × V
  pub header : Bytes → String → Option Bytes
  pub body : Note → Option Bytes
  pub stack : V → Bytes
  pub socket_path : V → Bytes
  pub receive : V → ℤ → Option Bytes × V
  pub identity_array : V → Bytes

unfoldable pub set_ready : LogServer → LogServer
set_ready self = record self { ready = (compare_and_swap self.ready 0 1).1 }

unfoldable pub clear_ready : LogServer → LogServer
clear_ready self = record self { ready = (compare_and_swap self.ready 1 0).1 }

abbrev pub is_ready : ℕ → Bool
is_ready flag = flag == 1

module _ {V : Type 0} (calls : Calls V) where
  -- `none` stands for an access out of bounds.
  unfoldable pub write_log_message : ℕ → Note → LogServer × V → Option (ℤ × LogServer × V)
  write_log_message level note (self, v) =
      let (stamp, v1) = calls.timestamp v in
      elim (calls.header stamp (to_string (pos level) true)) [
        | none ↦ some (negsuc 0, self, v1)
        | some header ↦
            elim (compose (calls.stack v1) line_size line_size header (calls.body note)) [
              | none ↦ none
              | some line ↦
                  let (nw, file', v2) = write_message calls.files self.file line v1 in
                  some (nw, record self { file = file' }, v2)
            ]
      ]

  -- The same where the result is not used.
  abbrev pub noted : ℕ → Note → LogServer × V → Option (LogServer × V)
  noted level note w = elim (write_log_message level note w) [
    | none ↦ none
    | some r ↦ some (r.1, r.2)
  ]

  -- The result is the time until the next call, 0 for none, and the event loop.
  unfoldable pub check_stop_flag :
      AsyncEvent → LogServer × V → Option (ℕ × AsyncEvent × (LogServer × V))
  unfolding clear_ready
  check_stop_flag ae (self, v) =
      if get_stop_flag self.stop == 0
      then some (check_interval, ae, (self, v))
      else elim (noted err Note.stopping (self, v)) [
        | none ↦ none
        | some (self', v') ↦ some (0, stop ae, (clear_ready self', v'))
      ]

  -- The loop over the datagrams that are there, for at most as many as the fuel.
  unfoldable pub recv_domain_socket_message : ℕ → LogServer × V → Option (LogServer × V)
  recv_domain_socket_message zero w = none
  recv_domain_socket_message (suc fuel) (self, v) =
      let (received, v') = calls.receive v self.domain_fd in
      elim received [
        | none ↦ some (self, v')
        | some message ↦ elim (length message) [
          | zero ↦ some (self, v')
          | suc n ↦
              let (nw, file', v2) = write_message calls.files self.file message v' in
              recv_domain_socket_message fuel (record self { file = file' }, v2)
        ]
      ]

  module _ (net : Sockets V) where
    -- The handle for `identity`, or `none` for NULL; the outer `none` is an access out of bounds.
    unfoldable pub create_connection :
        Bytes → ℕ → LogServer × V → Option (Option LogHandle × (LogServer × V))
    create_connection identity level (self, v) =
        let (created, v1) = net.socket v (record { is_local = true; use_tcp = false }) in
        elim created [
          | none ↦ elim (noted err Note.socket_failed (self, v1)) [
            | none ↦ none
            | some w ↦ some (none, w)
          ]
          | some fd ↦
              let (connected, v2) = net.connect v1 fd (Address.local self.path) in
              elim connected [
                | false ↦ elim (noted err Note.connect_failed (self, net.close v2 fd)) [
                  | none ↦ none
                  | some w ↦ some (none, w)
                ]
                | true ↦ elim (log_handle (calls.identity_array v2) identity level) [
                  | none ↦ none
                  | some h ↦ some (some (set_conn_fd h fd), (self, v2))
                ]
              ]
        ]

-- The loop of `getInstance` that waits for the thread, for as many rounds as the fuel; `flags` is what
-- it reads in each. The result is the number of sleeps.
unfoldable pub wait_ready : ℕ → (ℕ → ℕ) → Option ℕ
wait_ready zero flags = none
wait_ready (suc fuel) flags =
    let rest = wait_ready fuel (λ i. flags (suc i)) in
    if is_ready (flags 0) then some 0 else elim rest [ none ↦ none | some n ↦ some (n + 1) ]

-- Whether `getInstance` returns a pointer that is not NULL, from whether there is an instance, and
-- whether the thread can be created.
unfoldable pub get_instance : ℕ → Bool → Bool → (ℕ → ℕ) → Option Bool
unfolding wait_ready
get_instance fuel true created flags = some true
get_instance fuel false false flags = some false
get_instance fuel false true flags = elim (wait_ready fuel flags) [
  | none ↦ none
  | some n ↦ some true
]
