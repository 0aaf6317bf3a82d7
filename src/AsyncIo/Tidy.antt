-- ===== src/AsyncIo/Tidy.antt =====
-- No call loses a descriptor: what is open afterwards is what was open, and what is handed out.
pub mod Accept
use libnebula.Prelude.{
  ℕ, ◌≡◌, refl, ◌∙◌, inl, inr, Bool, true, false, Option, none, some, arith, ◌==◌, if◌then◌else◌,
  Bool-cases, Option-cases, ==_iff,
}
use libnebula.Text.{Bytes}
use libnebula.AsyncIo.{
  Address, Kind, SocketOption, so_reuseaddr, set_reuse_addr, Sockets, both, provided, set_nonblock,
  set_close_on_exec, guard, guard_pipe, pipe2, accept4, with_socket, hand_out, create_server_at,
  create_client_at, create_server, create_client, local_address, create_unix_server,
  create_unix_client, is_unknown, has_flag, aio_nonblock, aio_cloexec,
}

-- A call that leaves the open descriptors as they are.
unfoldable pub Keeps : {W A : Type 0} → (W → ℕ → Bool) → (W → A × W) → Type 0
Keeps {W} opens call = (w : W) (n : ℕ) → opens (call w).1 n ≡ opens w n

-- `fd` is open now and was not before, and nothing else has changed.
unfoldable pub Opened : {W : Type 0} → (W → ℕ → Bool) → ℕ → W → W → Type 0
Opened opens fd w w' =
    (opens w fd ≡ false) × ((n : ℕ) → opens w' n ≡ (if n == fd then true else opens w n))

-- A call that hands out a descriptor has opened it and no other; one that fails leaves no more and
-- no fewer open than before.
unfoldable pub Balanced : {W : Type 0} → (W → ℕ → Bool) → W → Option ℕ × W → Type 0
unfolding Opened
Balanced opens w (none, w') = (n : ℕ) → opens w' n ≡ opens w n
Balanced opens w (some fd, w') = Opened opens fd w w'

-- The same of a call that hands out the two ends of a pipe.
unfoldable pub Paired : {W : Type 0} → (W → ℕ → Bool) → W → Option (ℕ × ℕ) × W → Type 0
Paired opens w (none, w') = (n : ℕ) → opens w' n ≡ opens w n
Paired opens w (some (p, q), w') =
    (opens w p ≡ false)
    × (opens w q ≡ false)
    × ((n : ℕ) → opens w' n ≡ (if n == p then true else if n == q then true else opens w n))

-- The documented behaviour of the system calls, as far as open descriptors are concerned.
pub record IsSystem {W : Type 0} (sys : Sockets W) (opens : W → ℕ → Bool) : Type 0 where
  pub get_status_keeps : (fd : ℕ) → Keeps opens (λ w. sys.get_status w fd)
  pub set_status_keeps : (fd s : ℕ) → Keeps opens (λ w. sys.set_status w fd s)
  pub get_flags_keeps : (fd : ℕ) → Keeps opens (λ w. sys.get_flags w fd)
  pub set_flags_keeps : (fd s : ℕ) → Keeps opens (λ w. sys.set_flags w fd s)
  pub setsockopt_keeps :
      (fd : ℕ) (o : SocketOption) (v : ℕ) → Keeps opens (λ w. sys.setsockopt w fd o v)
  pub bind_keeps : (fd : ℕ) (addr : Address) → Keeps opens (λ w. sys.bind w fd addr)
  pub listen_keeps : (fd : ℕ) → Keeps opens (λ w. sys.listen w fd)
  pub connect_keeps : (fd : ℕ) (addr : Address) → Keeps opens (λ w. sys.connect w fd addr)
  pub socket_opens : (w : W) (kind : Kind) → Balanced opens w (sys.socket w kind)
  pub accept_opens :
      (w : W) (server : ℕ) (len : Option ℕ)
      → let (fd, len', w') = sys.accept w server len in Balanced opens w (fd, w')
  pub pipe_opens : (w : W) → Paired opens w (sys.pipe w)
  pub closed :
      (w : W) (fd n : ℕ) → opens (sys.close w fd) n ≡ (if n == fd then false else opens w n)

module _ {W : Type 0} (sys : Sockets W) (opens : W → ℕ → Bool) (system : IsSystem sys opens) where
  both-Keeps : (f g : W → Bool × W) → Keeps opens f → Keeps opens g → Keeps opens (both f g)
  unfolding Keeps both
  both-Keeps f g kf kg w n = elim (Bool-cases (f w).0) [
    | inl e ↦ rw (e, both) (kg (f w).1 n ∙ kf w n)
    | inr e ↦ rw (e, both) (kf w n)
  ]

  provided-Keeps : (b : Bool) (f : W → Bool × W) → Keeps opens f → Keeps opens (provided b f)
  unfolding Keeps provided
  provided-Keeps true f kf w n = kf w n
  provided-Keeps false f kf w n = refl

  set_nonblock-Keeps : (fd : ℕ) → Keeps opens (set_nonblock sys fd)
  unfolding set_nonblock Keeps
  set_nonblock-Keeps fd w n = elim (Option-cases (sys.get_status w fd).0) [
    | inl e ↦ rw (e, set_nonblock) (system.get_status_keeps fd w n)
    | inr (s, e) ↦
        rw (e, set_nonblock) (system.set_status_keeps fd _ _ n ∙ system.get_status_keeps fd w n)
  ]

  set_reuse_addr-Keeps : (fd : ℕ) → Keeps opens (set_reuse_addr sys fd)
  unfolding set_reuse_addr Keeps
  set_reuse_addr-Keeps fd w n = system.setsockopt_keeps fd so_reuseaddr 1 w n

  set_close_on_exec-Keeps : (fd : ℕ) → Keeps opens (set_close_on_exec sys fd)
  unfolding set_close_on_exec Keeps
  set_close_on_exec-Keeps fd w n = elim (Option-cases (sys.get_flags w fd).0) [
    | inl e ↦ rw (e, set_close_on_exec) (system.get_flags_keeps fd w n)
    | inr (s, e) ↦
        rw (e, set_close_on_exec) (system.set_flags_keeps fd _ _ n ∙ system.get_flags_keeps fd w n)
  ]

  -- A failed call on the new descriptor closes it, and the balance is even.
  guard-Balanced :
      (fd : ℕ) (call : W → Bool × W) (next : W → Option ℕ × W) (w0 : W)
      → Keeps opens call
      → ((w : W) → Opened opens fd w0 w → Balanced opens w0 (next w))
      → (w : W) → Opened opens fd w0 w
      → Balanced opens w0 (guard sys fd call next w)
  unfolding guard Keeps Balanced Opened
  guard-Balanced fd call next w0 keeps rest w (was_closed, now) = elim (Bool-cases (call w).0) [
    | inl e ↦ rw (e, guard) (rest (call w).1 (was_closed, λ n. keeps w n ∙ now n))
    | inr e ↦
        rw (e, guard)
          (λ n.
            ground
              (arith, system.closed (call w).1 fd n, keeps w n, now n, was_closed, ==_iff n fd))
  ]

  with_socket-Balanced :
      (kind : Kind) (use_it : ℕ → W → Option ℕ × W) (w0 : W)
      → ((fd : ℕ) (w : W) → Opened opens fd w0 w → Balanced opens w0 (use_it fd w))
      → Balanced opens w0 (with_socket sys kind use_it w0)
  unfolding with_socket Balanced Opened
  with_socket-Balanced kind use_it w0 rest = go (sys.socket w0 kind) (system.socket_opens w0 kind)
    where
      go :
          (r : Option ℕ × W)
          → Balanced opens w0 r
          → Balanced opens w0 (elim r.0 [ none ↦ (none, r.1) | some n ↦ use_it n r.1 ])
      go (none, w) b = b
      go (some fd, w) b = rest fd w b

  hand_out-Balanced :
      (fd : ℕ) (w0 w : W) → Opened opens fd w0 w → Balanced opens w0 (hand_out sys fd w)
  unfolding hand_out Balanced
  hand_out-Balanced fd w0 w o = o

  refused-Balanced : (w : W) → Balanced opens w (none, w)
  unfolding Balanced
  refused-Balanced w n = refl

  create_server_at-Balanced :
      (addr : Address) (use_tcp : Bool) (w : W)
      → Balanced opens w (create_server_at sys addr use_tcp w)
  unfolding create_server_at
  create_server_at-Balanced addr use_tcp w = with_socket-Balanced _ _ w (λ fd.
      guard-Balanced fd _ _ w (both-Keeps _ _ (set_nonblock-Keeps fd) (set_reuse_addr-Keeps fd)) (
        guard-Balanced fd _ _ w (system.bind_keeps fd addr) (
          guard-Balanced fd _ _ w (provided-Keeps use_tcp _ (system.listen_keeps fd))
            (hand_out-Balanced fd w))))

  create_client_at-Balanced :
      (addr : Address) (use_tcp : Bool) (w : W)
      → Balanced opens w (create_client_at sys addr use_tcp w)
  unfolding create_client_at
  create_client_at-Balanced addr use_tcp w = with_socket-Balanced _ _ w (λ fd.
      guard-Balanced fd _ _ w (provided-Keeps use_tcp _ (system.connect_keeps fd addr))
        (guard-Balanced fd _ _ w (set_nonblock-Keeps fd) (hand_out-Balanced fd w)))

  -- `createAsyncServerSocket`, on whatever address, port and kind, hands out a descriptor that it
  -- opened, or returns -1: then every descriptor that it opened is closed again, and no other.
  create_server-Balanced :
      (text : Option Bytes) (port : ℕ) (use_tcp : Bool) (w : W)
      → Balanced opens w (create_server sys text port use_tcp w)
  unfolding create_server
  create_server-Balanced none port use_tcp w = create_server_at-Balanced _ use_tcp w
  create_server-Balanced (some text) port use_tcp w = elim (Option-cases (sys.inet_pton text)) [
    | inl e ↦ rw (e, create_server) (refused-Balanced w)
    | inr (ip, e) ↦ rw (e, create_server) (create_server_at-Balanced _ use_tcp w)
  ]

  -- `createAsyncClientSocket` hands out a descriptor that it opened, or returns -1: then every
  -- descriptor that it opened is closed again, and no other.
  create_client-Balanced :
      (text : Bytes) (port : ℕ) (use_tcp : Bool) (w : W)
      → Balanced opens w (create_client sys text port use_tcp w)
  unfolding create_client
  create_client-Balanced text port use_tcp w = elim (Option-cases (sys.inet_pton text)) [
    | inl e ↦ rw (e, create_client) (refused-Balanced w)
    | inr (ip, e) ↦ rw (e, create_client) (create_client_at-Balanced _ use_tcp w)
  ]

  -- `createAsyncUnixServerSocket` and `createAsyncUnixClientSocket` hand out a descriptor that they
  -- opened, or return -1, for a path that is too long as well: then every descriptor that they
  -- opened is closed again, and no other.
  create_unix-Balanced :
      (path : Bytes) (use_tcp : Bool) (w : W)
      → Balanced opens w (create_unix_server sys path use_tcp w)
        × Balanced opens w (create_unix_client sys path use_tcp w)
  unfolding create_unix_server create_unix_client
  create_unix-Balanced path use_tcp w = elim (Option-cases (local_address sys path)) [
    | inl e ↦
        rw (e, create_unix_server, create_unix_client) (refused-Balanced w, refused-Balanced w)
    | inr (addr, e) ↦
        rw (e, create_unix_server, create_unix_client)
          (
            with_socket-Balanced _ _ w (λ fd.
                guard-Balanced fd _ _ w (set_nonblock-Keeps fd)
                  (guard-Balanced fd _ _ w (system.bind_keeps fd addr) (hand_out-Balanced fd w))),
            with_socket-Balanced _ _ w (λ fd.
                guard-Balanced fd _ _ w (set_nonblock-Keeps fd) (
                  guard-Balanced fd _ _ w (system.connect_keeps fd addr) (hand_out-Balanced fd w))),
          )
  ]

  -- `createAsyncServerSocket`, `createAsyncClientSocket`, `createAsyncUnixServerSocket` and
  -- `createAsyncUnixClientSocket`, on whatever address, port, path and kind, hand out a descriptor that
  -- they opened, or return -1: then every descriptor that they opened is closed again, and no other.
  pub create-Balanced :
      (server : Option Bytes) (client path : Bytes) (port : ℕ) (use_tcp : Bool) (w : W)
      → Balanced opens w (create_server sys server port use_tcp w)
        × Balanced opens w (create_client sys client port use_tcp w)
        × Balanced opens w (create_unix_server sys path use_tcp w)
        × Balanced opens w (create_unix_client sys path use_tcp w)
  create-Balanced server client path port use_tcp w = (
    create_server-Balanced server port use_tcp w,
    create_client-Balanced client port use_tcp w,
    (create_unix-Balanced path use_tcp w).0,
    (create_unix-Balanced path use_tcp w).1,
  )
