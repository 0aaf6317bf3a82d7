-- ===== src/AsyncIo/Options.antt =====
-- The setters of a descriptor against the queries.
pub mod Words
pub mod Query
mod Tests
use libnebula.Prelude.{
  ℕ, ◌^◌, ◌≡◌, ◌≢◌, ◌⊎◌, Bool, true, false, not, Option, none, some, ◌==◌, bit_and, if◌then◌else◌,
}
use libnebula.AsyncIo.{
  SocketOption, tcp_nodelay, so_reuseaddr, Sockets, has_flag, set_nonblock, is_nonblock_3state,
  set_close_on_exec, is_close_on_exec_3state, set_tcp_no_delay, is_tcp_no_delay_3state,
  set_reuse_addr, is_reuse_addr_3state,
}

-- What can be set on a descriptor.
pub data Setting : Type 0 where
  nonblock cloexec : Setting
  socket_option : SocketOption → Setting

abbrev pub is_on : ℕ → Bool
is_on v = not (v == 0)

-- What the system keeps: the open file description of each descriptor, which descriptors may share;
-- the status flags and the socket options of each description; and the flags of each descriptor.
-- `none` stands for what is not there. A value is a whole word.
pub record Tables (W : Type 0) : Type 0 where
  pub description : W → ℕ → ℕ
  pub kept : W → ℕ → Setting → Option ℕ

-- What a setting of a descriptor is kept for: the close-on-exec flag for the descriptor, the others for its
-- description.
abbrev pub owner : {W : Type 0} → Tables W → W → ℕ → Setting → ℕ
owner t w fd nonblock = t.description w fd
owner t w fd cloexec = fd
owner t w fd (socket_option o) = t.description w fd

-- A call that leaves all as it is.
abbrev pub Leaves : {W : Type 0} → Tables W → W → W → Type 0
Leaves t w w' =
    ((n : ℕ) → t.description w' n ≡ t.description w n)
    × ((m : ℕ) (y : Setting) → t.kept w' m y ≡ t.kept w m y)

-- A call that puts a value with `P` in the place of one that is kept, and leaves all else, or fails
-- and leaves all as it is.
abbrev pub Stores : {W : Type 0} → Tables W → ℕ → Setting → (ℕ → Type 0) → W → Bool × W → Type 0
Stores t m x P w (true, w') =
    (v : ℕ) × (t.kept w' m x ≡ some v)
    × P v
    × ((n : ℕ) → t.description w' n ≡ t.description w n)
    × ((n : ℕ) (y : Setting) → (n ≢ m) ⊎ (y ≢ x) → t.kept w' n y ≡ t.kept w n y)
Stores t m x P w (false, w') = Leaves t w w'

-- A new word of flags, for `s` in place of `old`: `flag` is as in `s`, and a bit that `s` and `old`
-- agree on is as in both. The system may refuse to change other bits.
abbrev pub Takes : ℕ → ℕ → Option ℕ → ℕ → Type 0
Takes flag s old v =
    (has_flag v flag ≡ has_flag s flag)
    × ((o k : ℕ)
        → old ≡ some o
        → has_flag s (2 ^ k) ≡ has_flag o (2 ^ k)
        → has_flag v (2 ^ k) ≡ has_flag o (2 ^ k))

-- What fcntl, setsockopt and getsockopt promise. An option that is on or off need not be read as the
-- number that was set.
pub record Remembers {W : Type 0} (sys : Sockets W) (t : Tables W) : Type 0 where
  pub nonblock_bit : is_on sys.o_nonblock ≡ true
  pub cloexec_bit : is_on sys.fd_cloexec ≡ true
  pub get_status_value :
      (w : W) (fd : ℕ) → (sys.get_status w fd).0 ≡ t.kept w (t.description w fd) nonblock
  pub get_status_leaves : (w : W) (fd : ℕ) → Leaves t w (sys.get_status w fd).1
  pub set_status_stores :
      (w : W) (fd s : ℕ)
      → Stores t
          (t.description w fd)
          nonblock
          (Takes sys.o_nonblock s (t.kept w (t.description w fd) nonblock))
          w
          (sys.set_status w fd s)
  pub get_flags_value : (w : W) (fd : ℕ) → (sys.get_flags w fd).0 ≡ t.kept w fd cloexec
  pub get_flags_leaves : (w : W) (fd : ℕ) → Leaves t w (sys.get_flags w fd).1
  pub set_flags_stores :
      (w : W) (fd s : ℕ)
      → Stores t fd cloexec (Takes sys.fd_cloexec s (t.kept w fd cloexec)) w (sys.set_flags w fd s)
  pub getsockopt_value :
      (w : W) (fd : ℕ) (o : SocketOption)
      → (sys.getsockopt w fd o).0 ≡ t.kept w (t.description w fd) (socket_option o)
  pub setsockopt_stores :
      (w : W) (fd : ℕ) (o : SocketOption) (v : ℕ)
      → Stores t
          (t.description w fd)
          (socket_option o)
          (λ v'. is_on v' ≡ is_on v)
          w
          (sys.setsockopt w fd o v)

-- The setters and the queries by what they are for. A query returns 0, 1 or the option itself, and
-- `none` for -1.
abbrev pub setter : {W : Type 0} → Sockets W → Setting → ℕ → W → Bool × W
setter sys nonblock = set_nonblock sys
setter sys cloexec = set_close_on_exec sys
setter sys (socket_option tcp_nodelay) = set_tcp_no_delay sys
setter sys (socket_option so_reuseaddr) = set_reuse_addr sys

abbrev as_number : Option Bool → Option ℕ
as_number none = none
as_number (some b) = some (if b then 1 else 0)

abbrev pub query : {W : Type 0} → Sockets W → Setting → ℕ → W → Option ℕ
query sys nonblock fd w = as_number (is_nonblock_3state sys fd w).0
query sys cloexec fd w = as_number (is_close_on_exec_3state sys fd w).0
query sys (socket_option tcp_nodelay) fd w = (is_tcp_no_delay_3state sys fd w).0
query sys (socket_option so_reuseaddr) fd w = (is_reuse_addr_3state sys fd w).0

-- The answer of a query for a setting that is on: 1 for a flag, and not 0 for an option.
abbrev pub IsOn : Setting → Option ℕ → Type 0
IsOn nonblock r = r ≡ some 1
IsOn cloexec r = r ≡ some 1
IsOn (socket_option o) r = (v : ℕ) × (r ≡ some v) × (v ≢ 0)

-- The bit of a setting that shares its word with others.
abbrev pub flag_of : {W : Type 0} → Sockets W → Setting → Option ℕ
flag_of sys nonblock = some sys.o_nonblock
flag_of sys cloexec = some sys.fd_cloexec
flag_of sys (socket_option o) = none

-- What a query answers to the word that is kept: 1 or 0 by the bit of a flag, the number of an option,
-- and -1 where nothing is kept.
abbrev pub answer : Option ℕ → Option ℕ → Option ℕ
answer none word = word
answer (some flag) none = none
answer (some flag) (some s) = some (if bit_and s flag == 0 then 0 else 1)
