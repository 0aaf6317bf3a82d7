-- ===== src/AsyncIo/Tests.antt =====
-- Runs of sockets and pipes on a small model of the system.
use libnebula.Prelude.{
  ℕ, zero, suc, ◌≡◌, refl, Bool, true, false, Option, none, some, [], ◌∷◌, ◌==◌, if◌then◌else◌,
  Bool-cases, inl, inr,
}
use libnebula.AsyncIo.{
  Sockets, both, provided, set_nonblock, is_nonblock_3state, is_close_on_exec_3state, guard,
  accept4, with_socket, hand_out, create_server_at, create_client_at, create_server, create_client,
  create_unix_server, create_unix_client,
}
use libnebula.AsyncIo.Tidy.Accept.{accept4-Balanced}
use libnebula.AsyncIo.Tidy.{Keeps, Opened, Balanced, Paired, IsSystem, create-Balanced}

-- Which descriptors are open.
abbrev Open : Type 0
Open = ℕ → Bool

abbrev write : Open → ℕ → Bool → Open
write w n b fd = if fd == n then b else w fd

abbrev open_one : Open → ℕ → Option ℕ × Open
open_one w n = if w n then (none, w) else (some n, write w n true)

-- A socket is descriptor 5, a connection accepted 6, a pipe 7 and 8. `listen` fails.
abbrev box : Sockets Open
box = record {
  o_nonblock = 2048;
  fd_cloexec = 1;
  sun_path_size = 108;
  get_status = λ w fd. (some 2, w);
  set_status = λ w fd s. (true, w);
  get_flags = λ w fd. (some 0, w);
  set_flags = λ w fd s. (true, w);
  pipe = λ w.
      if w 7
      then (none, w)
      else if w 8
      then (none, w)
      else (some (7, 8), write (write w 8 true) 7 true);
  socket = λ w kind. open_one w 5;
  accept = λ w server len. let (fd, w') = open_one w 6 in (fd, len, w');
  setsockopt = λ w fd o v. (true, w);
  getsockopt = λ w fd o. (some 0, w);
  bind = λ w fd addr. (true, w);
  listen = λ w fd. (false, w);
  connect = λ w fd addr. (true, w);
  close = λ w fd. write w fd false;
  inet_pton = λ text. some 16777343;
}

open_one-Balanced : (w : Open) (n : ℕ) → Balanced (λ v. v) w (open_one w n)
unfolding Balanced Opened
open_one-Balanced w n = elim (Bool-cases (w n)) [
  | inl e ↦ rw (e, open_one) (λ k. refl)
  | inr e ↦ rw (e, open_one) (e, λ k. refl)
]

box-IsSystem : IsSystem box (λ w. w)
unfolding Keeps Balanced Opened Paired
box-IsSystem = record {
  get_status_keeps = λ fd w n. refl;
  set_status_keeps = λ fd s w n. refl;
  get_flags_keeps = λ fd w n. refl;
  set_flags_keeps = λ fd s w n. refl;
  setsockopt_keeps = λ fd o v w n. refl;
  bind_keeps = λ fd addr w n. refl;
  listen_keeps = λ fd w n. refl;
  connect_keeps = λ fd addr w n. refl;
  socket_opens = λ w kind. open_one-Balanced w 5;
  accept_opens = λ w server len. open_one-Balanced w 6;
  pipe_opens = λ w. elim (Bool-cases (w 7)) [
    | inl e ↦ rw e (λ n. refl)
    | inr e ↦ elim (Bool-cases (w 8)) [
      | inl f ↦ rw (e, f) (λ n. refl)
      | inr f ↦ rw (e, f) (e, f, λ n. refl)
    ]
  ];
  closed = λ w fd n. refl;
}

-- The standard descriptors are open.
abbrev started : Open
started zero = true
started (suc zero) = true
started (suc (suc zero)) = true
started (suc (suc (suc n))) = false

create-Balanced_example :
    Balanced (λ v. v) started (create_server box none 80 true started)
    × Balanced (λ v. v) started (create_client box (49 ∷ 0 ∷ []) 80 true started)
    × Balanced (λ v. v) started (create_unix_server box (47 ∷ 97 ∷ 0 ∷ []) true started)
    × Balanced (λ v. v) started (create_unix_client box (47 ∷ 97 ∷ 0 ∷ []) true started)
create-Balanced_example =
    create-Balanced box (λ w. w) box-IsSystem none (49 ∷ 0 ∷ []) (47 ∷ 97 ∷ 0 ∷ []) 80 true started

accept4-Balanced_example :
    let (fd, len, w') = accept4 box 5 (some 16) 3 started in Balanced (λ v. v) started (fd, w')
accept4-Balanced_example = accept4-Balanced box (λ w. w) box-IsSystem 5 (some 16) 3 started

-- `listen` fails, so no server is made; a client is.
create_server_test : (create_server box none 80 true started).0 ≡ none
unfolding create_server create_server_at with_socket guard both provided set_nonblock hand_out
create_server_test = refl

create_client_test : (create_client box (49 ∷ 0 ∷ []) 80 true started).0 ≡ some 5
unfolding create_client create_client_at with_socket guard provided set_nonblock hand_out
create_client_test = refl

is_nonblock_3state_test :
    ((is_nonblock_3state box 5 started).0 ≡ some false)
    × ((is_close_on_exec_3state box 5 started).0 ≡ some false)
unfolding is_nonblock_3state is_close_on_exec_3state
is_nonblock_3state_test = (refl, refl)
