-- ===== src/AsyncIo.antt =====
-- nebula::AsyncIo, include/nebula/async_io.h and src/async_io.cc: sockets and pipes, over the system
-- calls as a parameter. A descriptor is a number, and an error, the return of -1, is `none`.
pub mod Tidy
pub mod Options
mod Tests
use libnebula.Prelude.{
  ℕ, zero, suc, ◌+◌, ◌-◌, ◌%◌, ◌^◌, Bool, true, false, ◌&&◌, not, Option, none, some, List, [], ◌∷◌,
  ◌++◌, ltb, ◌==◌, if◌then◌else◌, bit_and, bit_or, replicate,
}
use libnebula.Text.{Bytes, strlcpy}

-- What a `sockaddr_in` or a `sockaddr_un` names.
pub data Address : Type 0 where
  inet : ℕ → ℕ → Address
  local : Bytes → Address

-- The domain and the type of a socket: AF_UNIX or AF_INET, SOCK_STREAM or SOCK_DGRAM.
pub record Kind : Type 0 where
  pub is_local : Bool
  pub use_tcp : Bool

-- `TCP_NODELAY` and `SO_REUSEADDR`, each with its level.
pub data SocketOption : Type 0 where
  tcp_nodelay so_reuseaddr : SocketOption

-- The system calls and constants, over a state `W` of all that lies outside. A call that may fail
-- returns whether it succeeded, or what it gives. `accept` takes the length of the client's address
-- and returns what it leaves there, if that is asked for.
pub record Sockets (W : Type 0) : Type 0 where
  pub o_nonblock : ℕ
  pub fd_cloexec : ℕ
  pub sun_path_size : ℕ
  pub get_status : W → ℕ → Option ℕ × W
  pub set_status : W → ℕ → ℕ → Bool × W
  pub get_flags : W → ℕ → Option ℕ × W
  pub set_flags : W → ℕ → ℕ → Bool × W
  pub pipe : W → Option (ℕ × ℕ) × W
  pub socket : W → Kind → Option ℕ × W
  pub accept : W → ℕ → Option ℕ → Option ℕ × Option ℕ × W
  pub setsockopt : W → ℕ → SocketOption → ℕ → Bool × W
  pub getsockopt : W → ℕ → SocketOption → Option ℕ × W
  pub bind : W → ℕ → Address → Bool × W
  pub listen : W → ℕ → Bool × W
  pub connect : W → ℕ → Address → Bool × W
  pub close : W → ℕ → W
  pub inet_pton : Bytes → Option ℕ

abbrev pub aio_cloexec : ℕ
aio_cloexec = 1

abbrev pub aio_nonblock : ℕ
aio_nonblock = 2

-- `flags & (~(AIO_CLOEXEC | AIO_NONBLOCK))`, on the 32 bits of `flags`.
abbrev pub is_unknown : ℕ → Bool
is_unknown flags = not (bit_and flags (2 ^ 32 - 1 - bit_or aio_cloexec aio_nonblock) == 0)

abbrev pub has_flag : ℕ → ℕ → Bool
has_flag flags f = not (bit_and flags f == 0)

-- `a || b` on calls that fail: the second is made only if the first succeeds.
unfoldable pub both : {W : Type 0} → (W → Bool × W) → (W → Bool × W) → W → Bool × W
both f g w = let (done, w') = f w in elim done [ true ↦ g w' | false ↦ (false, w') ]

-- A call that is made only under a condition.
unfoldable pub provided : {W : Type 0} → Bool → (W → Bool × W) → W → Bool × W
provided b f w = elim b [ true ↦ f w | false ↦ (true, w) ]

module _ {W : Type 0} (sys : Sockets W) where
  unfoldable pub set_nonblock : ℕ → W → Bool × W
  set_nonblock fd w =
      let (status, w') = sys.get_status w fd in
      elim status [ none ↦ (false, w') | some s ↦ sys.set_status w' fd (bit_or s sys.o_nonblock) ]

  -- -1, 0 and 1 are `none`, `false` and `true`.
  unfoldable pub is_nonblock_3state : ℕ → W → Option Bool × W
  is_nonblock_3state fd w =
      let (status, w') = sys.get_status w fd in
      elim status [ none ↦ (none, w') | some s ↦ (some (has_flag s sys.o_nonblock), w') ]

  unfoldable pub set_close_on_exec : ℕ → W → Bool × W
  set_close_on_exec fd w =
      let (flags, w') = sys.get_flags w fd in
      elim flags [ none ↦ (false, w') | some s ↦ sys.set_flags w' fd (bit_or s sys.fd_cloexec) ]

  unfoldable pub is_close_on_exec_3state : ℕ → W → Option Bool × W
  is_close_on_exec_3state fd w =
      let (flags, w') = sys.get_flags w fd in
      elim flags [ none ↦ (none, w') | some s ↦ (some (has_flag s sys.fd_cloexec), w') ]

  unfoldable pub set_tcp_no_delay : ℕ → W → Bool × W
  set_tcp_no_delay fd w = sys.setsockopt w fd tcp_nodelay 1

  -- -1 is `none`; else the value of the option itself.
  unfoldable pub is_tcp_no_delay_3state : ℕ → W → Option ℕ × W
  is_tcp_no_delay_3state fd w = sys.getsockopt w fd tcp_nodelay

  unfoldable pub set_reuse_addr : ℕ → W → Bool × W
  set_reuse_addr fd w = sys.setsockopt w fd so_reuseaddr 1

  unfoldable pub is_reuse_addr_3state : ℕ → W → Option ℕ × W
  is_reuse_addr_3state fd w = sys.getsockopt w fd so_reuseaddr

  -- A call on the new descriptor `fd`; if it fails, `fd` is closed and -1 returned.
  unfoldable pub guard : ℕ → (W → Bool × W) → (W → Option ℕ × W) → W → Option ℕ × W
  guard fd call next w =
      let (done, w') = call w in elim done [ true ↦ next w' | false ↦ (none, sys.close w' fd) ]

  -- The same for the two ends of a pipe.
  unfoldable pub guard_pipe :
      ℕ → ℕ → (W → Bool × W) → (W → Option (ℕ × ℕ) × W) → W → Option (ℕ × ℕ) × W
  guard_pipe p q call next w =
      let (done, w') = call w in
      elim done [ true ↦ next w' | false ↦ (none, sys.close (sys.close w' p) q) ]

  unfoldable pub pipe2 : ℕ → W → Option (ℕ × ℕ) × W
  unfolding set_nonblock set_close_on_exec
  pipe2 flags w = elim (is_unknown flags) [
    | true ↦ (none, w)
    | false ↦
        let (ends, w') = sys.pipe w in
        elim ends [
          | none ↦ (none, w')
          | some (p, q) ↦
              guard_pipe p q
                (provided (has_flag flags aio_nonblock) (both (set_nonblock p) (set_nonblock q)))
                (guard_pipe p q
                  (provided (has_flag flags aio_cloexec)
                    (both (set_close_on_exec p) (set_close_on_exec q)))
                  (λ w2. (some (p, q), w2)))
                w'
        ]
  ]

  -- The descriptor, the length of the client's address that is left, and the system.
  unfoldable pub accept4 : ℕ → Option ℕ → ℕ → W → Option ℕ × Option ℕ × W
  unfolding set_nonblock set_close_on_exec
  accept4 server addr_len flags w = elim (is_unknown flags) [
    | true ↦ (none, addr_len, w)
    | false ↦
        let (accepted, len, w') = sys.accept w server addr_len in
        elim accepted [
          | none ↦ (none, len, w')
          | some fd ↦
              let (done, w2) =
                both (provided (has_flag flags aio_nonblock) (set_nonblock fd))
                  (provided (has_flag flags aio_cloexec) (set_close_on_exec fd)) w' in
              elim done [ true ↦ (some fd, len, w2) | false ↦ (none, addr_len, sys.close w2 fd) ]
        ]
  ]

  -- A new socket, and what is done with it.
  unfoldable pub with_socket : Kind → (ℕ → W → Option ℕ × W) → W → Option ℕ × W
  with_socket kind handle w =
      let (fd, w') = sys.socket w kind in elim fd [ none ↦ (none, w') | some n ↦ handle n w' ]

  unfoldable pub hand_out : ℕ → W → Option ℕ × W
  hand_out fd w = (some fd, w)

  -- `createAsyncServerSocket` and `createAsyncClientSocket` on a `sockaddr_in`.
  unfoldable pub create_server_at : Address → Bool → W → Option ℕ × W
  unfolding set_nonblock set_reuse_addr
  create_server_at addr use_tcp =
      with_socket (record { is_local = false; use_tcp = use_tcp })
        (λ fd. guard fd (both (set_nonblock fd) (set_reuse_addr fd)) (
          guard fd (λ w. sys.bind w fd addr)
            (guard fd (provided use_tcp (λ w. sys.listen w fd)) (hand_out fd))))

  unfoldable pub create_client_at : Address → Bool → W → Option ℕ × W
  unfolding set_nonblock
  create_client_at addr use_tcp =
      with_socket (record { is_local = false; use_tcp = use_tcp })
        (λ fd.
          guard fd (provided use_tcp (λ w. sys.connect w fd addr))
            (guard fd (set_nonblock fd) (hand_out fd)))

  -- The same on a textual address; a server may leave it out, and then INADDR_ANY, 0, is taken. The
  -- port is cut to 16 bits by `htons`.
  unfoldable pub create_server : Option Bytes → ℕ → Bool → W → Option ℕ × W
  unfolding create_server_at
  create_server none port use_tcp w = create_server_at (inet 0 (port % 2 ^ 16)) use_tcp w
  create_server (some text) port use_tcp w = elim (sys.inet_pton text) [
    | none ↦ (none, w)
    | some ip ↦ create_server_at (inet ip (port % 2 ^ 16)) use_tcp w
  ]

  unfoldable pub create_client : Bytes → ℕ → Bool → W → Option ℕ × W
  unfolding create_client_at
  create_client text port use_tcp w = elim (sys.inet_pton text) [
    | none ↦ (none, w)
    | some ip ↦ create_client_at (inet ip (port % 2 ^ 16)) use_tcp w
  ]

  -- The path in `sun_path`, unless `strlcpy` says that it was cut.
  abbrev pub local_address : Bytes → Option Address
  local_address path = elim (strlcpy (replicate sys.sun_path_size 0) path sys.sun_path_size) [
    | none ↦ none
    | some (copy, len) ↦ if ltb len sys.sun_path_size then some (local copy) else none
  ]

  unfoldable pub create_unix_server : Bytes → Bool → W → Option ℕ × W
  unfolding set_nonblock
  create_unix_server path use_tcp w = elim (local_address path) [
    | none ↦ (none, w)
    | some addr ↦
        with_socket (record { is_local = true; use_tcp = use_tcp })
          (λ fd. guard fd (set_nonblock fd) (guard fd (λ w1. sys.bind w1 fd addr) (hand_out fd))) w
  ]

  unfoldable pub create_unix_client : Bytes → Bool → W → Option ℕ × W
  unfolding set_nonblock
  create_unix_client path use_tcp w = elim (local_address path) [
    | none ↦ (none, w)
    | some addr ↦
        with_socket (record { is_local = true; use_tcp = use_tcp })
          (λ fd. guard fd (set_nonblock fd) (guard fd (λ w1. sys.connect w1 fd addr) (hand_out fd)))
          w
  ]

  -- The public names; each server and client of IP also on a `sockaddr_in`.
  unfoldable tcp_server : Option Bytes → ℕ → W → Option ℕ × W
  tcp_server text port = create_server text port true

  unfoldable udp_server : Option Bytes → ℕ → W → Option ℕ × W
  udp_server text port = create_server text port false

  unfoldable tcp_client : Bytes → ℕ → W → Option ℕ × W
  tcp_client text port = create_client text port true

  unfoldable udp_client : Bytes → ℕ → W → Option ℕ × W
  udp_client text port = create_client text port false

  unfoldable tcp_server_at : Address → W → Option ℕ × W
  tcp_server_at addr = create_server_at addr true

  unfoldable udp_server_at : Address → W → Option ℕ × W
  udp_server_at addr = create_server_at addr false

  unfoldable tcp_client_at : Address → W → Option ℕ × W
  tcp_client_at addr = create_client_at addr true

  unfoldable udp_client_at : Address → W → Option ℕ × W
  udp_client_at addr = create_client_at addr false

  unfoldable unix_tcp_server : Bytes → W → Option ℕ × W
  unix_tcp_server path = create_unix_server path true

  unfoldable unix_udp_server : Bytes → W → Option ℕ × W
  unix_udp_server path = create_unix_server path false

  unfoldable unix_tcp_client : Bytes → W → Option ℕ × W
  unix_tcp_client path = create_unix_client path true

  unfoldable unix_udp_client : Bytes → W → Option ℕ × W
  unix_udp_client path = create_unix_client path false
