-- ===== src/AppLogger/Server/Destroy/Tests.antt =====
-- A server with socket 6, file 7 and the epoll descriptor 5 that is destroyed.
use libnebula.Prelude.{
  ℕ, ◌≡◌, refl, Bool, true, false, ◌||◌, Option, none, some, [], ◌∷◌, ◌==◌, if◌then◌else◌, arith,
}
use libnebula.Prelude.Int.{pos}
use libnebula.AsyncEvent.{AsyncEvent}
use libnebula.AppLogger.LogFile.{Files}
use libnebula.AppLogger.Server.{LogServer, get_instance}
use libnebula.AppLogger.Server.Serve.{State}
use libnebula.AppLogger.Server.Destroy.{
  Ending, spins, null_pointer, returns, destroy_instance, Closes, holds, holds_file,
  destroy_instance_lem,
}

-- Which descriptors are open.
abbrev World : Type 0
World = ℕ → Bool

abbrev files : Files World
files = record {
  format_time = λ w f. (f, w);
  mkstemp = λ w t. (none, t, w);
  open_tty = λ w. (none, w);
  write = λ w fd m. (none, w);
  fsync = λ w fd. w;
  close = λ w fd n. if n == fd then false else w n;
}

files-Closes : Closes files (λ w path. w) (λ w. w)
files-Closes = record {
  closed = λ v fd n. refl;
  fsync_keeps = λ v fd n. refl;
  unlink_keeps = λ v path n. refl;
}

abbrev server : ℕ → LogServer
server flag = record {
  domain_fd = pos 6;
  path = 47 ∷ 116 ∷ [];
  file = record {
    log_file = [];
    format = [];
    fd = pos 7;
    num_write = 3;
    max_write = 0;
    path_len = 4;
  };
  ready = 0;
  stop = flag;
}

abbrev some_open : World
some_open n = n == 6 || n == 7 || n == 5 || n == 2

abbrev loop : AsyncEvent
loop = record {
  stopped = true;
  epoll_fd = pos 5;
  fd_table_size = 0;
  num_monitored = 0;
  num_ready = 0;
  ready = [];
  fds = [];
  time_events = [];
  size_time_events = pos 0;
  used_time_events = 0;
  last_time_event_id = 0;
}

abbrev ends_with_loop : LogServer → World → State World
ends_with_loop s w = (loop, (s, w))

abbrev end_of : Bool → Option LogServer → Ending World
end_of created there =
    destroy_instance files (λ w path. w) 9 (server 0) created (λ i. 0) ends_with_loop there
      some_open

destroy_instance_lem_example :
    (v2 : World) × (end_of true (some (server 0)) ≡ returns none v2)
    × ((n : ℕ)
        → v2 n ≡ (
            if holds (pos 6) n || holds (pos 5) n || holds_file (pos 7) n
            then false
            else some_open n))
    × (end_of false none ≡ null_pointer)
    × (get_instance 9 false true (λ i. 0) ≡ none → end_of true none ≡ spins)
destroy_instance_lem_example =
    destroy_instance_lem files (λ w path. w) (λ w. w) files-Closes 9 (server 0) (server 0) true
      (λ i. 0) ends_with_loop some_open (omega arith)
