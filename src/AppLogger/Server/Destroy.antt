-- ===== src/AppLogger/Server/Destroy.antt =====
-- The end of the logger: the destructors of LogHandle and LogServer, and destroyInstance.
mod Tests
use libnebula.Prelude.{
  ℕ, zero, suc, ◌≤◌, ◌≡◌, refl, sym, ap, ◌∙◌, ◌⊎◌, inl, inr, Bool, true, false, Bool-cases,
  Option-cases, ◌&&◌, ◌||◌, not, Option, none, some, List, [], ◌∷◌, ◌==◌, if◌then◌else◌, arith,
}
use libnebula.Prelude.Int.{ℤ, pos, negsuc}
use libnebula.Text.{Bytes}
use libnebula.Thread.{set_stop_flag}
use libnebula.Thread.Flag.{set_stop_flag_lem}
use libnebula.AsyncEvent.{AsyncEvent}
use libnebula.AppLogger.LogFile.{FileHandle, Files, close_fd, is_open, destroy}
use libnebula.AppLogger.Message.{LogHandle}
use libnebula.AppLogger.Server.{LogServer, get_instance}
use libnebula.AppLogger.Server.Serve.{State}

-- How `destroyInstance` ends: it waits for ever, it calls a method on NULL, or it returns.
pub data Ending (V : Type 0) : Type 0 where
  spins null_pointer : Ending V
  returns : Option LogServer → V → Ending V

module _ {V : Type 0} (sys : Files V) (unlink : V → Bytes → V) where
  -- `~LogHandle`; the buffer is freed.
  unfoldable close_handle : LogHandle → V → V
  close_handle h v = close_fd sys h.conn_fd v

  -- `if (strlen(server_addr_.sun_path)) { unlink(server_addr_.sun_path); }`
  abbrev unlink_path : Bytes → V → V
  unlink_path [] v = v
  unlink_path (c ∷ path) v = unlink v (c ∷ path)

  -- `~AsyncEvent`; the tables are freed.
  unfoldable pub close_event_loop : AsyncEvent → V → V
  close_event_loop ae v = close_fd sys ae.epoll_fd v

  -- `~LogServer`, and then those of its members `async_event_` and `file_handle_`.
  unfoldable pub close_server : State V → V
  close_server (ae, (self, v)) =
      destroy sys self.file
        (close_event_loop ae (unlink_path self.path (close_fd sys self.domain_fd v)))

  -- `destroyInstance` for the instance that there is, or, if there is none, for `made`, which
  -- `getInstance` makes if a thread can be created, and whose ready flag reads `flags`. `join` is
  -- what the thread does until it ends, with the event loop of the object as it leaves it.
  unfoldable pub destroy_instance :
      ℕ → LogServer → Bool → (ℕ → ℕ) → (LogServer → V → State V) → Option LogServer → V → Ending V
  destroy_instance fuel made created flags join instance v =
      let self = elim instance as (λ x. LogServer) [ none ↦ made | some s ↦ s ] in
      let exists = elim instance as (λ x. Bool) [ none ↦ false | some s ↦ true ] in
      elim (get_instance fuel exists created flags) [
        | none ↦ spins
        | some there ↦ elim there [
          | false ↦ null_pointer
          | true ↦ elim (set_stop_flag 2 self.stop) [
            | none ↦ spins
            | some flag ↦ returns none (close_server (join (record self { stop = flag }) v))
          ]
        ]
      ]

-- What the system promises of the open descriptors.
pub record Closes {V : Type 0} (sys : Files V) (unlink : V → Bytes → V) (opens : V → ℕ → Bool)
    : Type 0 where
  pub closed :
      (v : V) (fd n : ℕ) → opens (sys.close v fd) n ≡ (if n == fd then false else opens v n)
  pub fsync_keeps : (v : V) (fd n : ℕ) → opens (sys.fsync v fd) n ≡ opens v n
  pub unlink_keeps : (v : V) (path : Bytes) (n : ℕ) → opens (unlink v path) n ≡ opens v n

abbrev owns : Option ℕ → ℕ → Bool
owns none n = false
owns (some fd) n = n == fd

-- Whether a field holds the descriptor.
abbrev pub holds : ℤ → ℕ → Bool
holds (pos fd) n = n == fd
holds (negsuc k) n = false

-- The same for the file of the log, where 0 is no descriptor.
abbrev pub holds_file : ℤ → ℕ → Bool
holds_file (pos zero) n = false
holds_file (pos (suc fd)) n = n == suc fd
holds_file (negsuc k) n = false

module _ {V : Type 0} (sys : Files V) (unlink : V → Bytes → V) (opens : V → ℕ → Bool)
    (law : Closes sys unlink opens) where
  close_fd-opens :
      (fd : ℤ) (v : V) (n : ℕ)
      → opens (close_fd sys fd v) n ≡ (if holds fd n then false else opens v n)
  close_fd-opens (pos fd) v n = law.closed v fd n
  close_fd-opens (negsuc k) v n = refl

  unlink_path-opens :
      (path : Bytes) (v : V) (n : ℕ) → opens (unlink_path sys unlink path v) n ≡ opens v n
  unlink_path-opens [] v n = refl
  unlink_path-opens (c ∷ path) v n = law.unlink_keeps v (c ∷ path) n

  flushed-opens :
      (b : Bool) (fd : ℕ) (v : V) (n : ℕ) → opens (if b then sys.fsync v fd else v) n ≡ opens v n
  flushed-opens true fd v n = law.fsync_keeps v fd n
  flushed-opens false fd v n = refl

  destroy-opens :
      (h : FileHandle) (v : V) (n : ℕ)
      → opens (destroy sys h v) n ≡ (if owns (is_open sys h.fd) n then false else opens v n)
  unfolding destroy
  destroy-opens h v n = elim (Option-cases (is_open sys h.fd)) [
    | inl e ↦ rw (e, destroy) refl
    | inr (fd, e) ↦
        let flush = not (h.path_len == 0) && not (h.num_write == 0) in
        rw (e, destroy)
          (law.closed (if flush then sys.fsync v fd else v) fd n
            ∙ ap (λ b. if n == fd then false else b) (flushed-opens flush fd v n))
  ]

  -- Closing one after the other.
  closed_three :
      (a b c d : Bool)
      → (if a then false else if b then false else if c then false else d)
        ≡ (if c || b || a then false else d)
  closed_three a b c d = ground arith

  close_server-opens :
      (ae : AsyncEvent) (self : LogServer) (v : V) (n : ℕ)
      → opens (close_server sys unlink (ae, (self, v))) n ≡ (
          if holds self.domain_fd n || holds ae.epoll_fd n || owns (is_open sys self.file.fd) n
          then false
          else opens v n)
  unfolding close_server close_event_loop
  close_server-opens ae self v n =
      let a = owns (is_open sys self.file.fd) n in
      let v1 = close_fd sys self.domain_fd v in
      let v2 = unlink_path sys unlink self.path v1 in
      let rest = unlink_path-opens self.path v1 n ∙ close_fd-opens self.domain_fd v n in
      destroy-opens self.file (close_fd sys ae.epoll_fd v2) n
      ∙ ap (λ b. if a then false else b)
          (close_fd-opens ae.epoll_fd v2 n
            ∙ ap (λ b. if holds ae.epoll_fd n then false else b) rest)
      ∙ closed_three a (holds ae.epoll_fd n) (holds self.domain_fd n) (opens v n)

  owns-holds_file : (fd : ℤ) (n : ℕ) → owns (is_open sys fd) n ≡ holds_file fd n
  owns-holds_file (pos zero) n = refl
  owns-holds_file (pos (suc fd)) n = refl
  owns-holds_file (negsuc k) n = refl

  -- Where close alone closes a descriptor, destroyInstance with an instance whose stop flag is 0 or
  -- 1 sets the flag, waits for the thread, and returns with no instance; what is open then is what
  -- the thread left open, less the socket of the server, the descriptor of epoll of its event loop,
  -- and its file, unless that is descriptor 0. Without an instance getInstance makes one first:
  -- where no thread can be created destroyInstance calls a method on NULL, and where getInstance
  -- does not return it does not either.
  pub destroy_instance_lem :
      (fuel : ℕ) (made self : LogServer) (created : Bool) (flags : ℕ → ℕ)
      (join : LogServer → V → State V) (v : V)
      → self.stop ≤ 1
      → let (ae', (self', v')) = join (record self { stop = 1 }) v in
        (v2 : V) × (destroy_instance sys unlink fuel made created flags join (some self) v
          ≡ returns none v2)
        × ((n : ℕ)
            → opens v2 n ≡ (
                if holds self'.domain_fd n || holds ae'.epoll_fd n || holds_file self'.file.fd n
                then false
                else opens v' n))
        × (destroy_instance sys unlink fuel made false flags join none v ≡ null_pointer)
        × (get_instance fuel false true flags ≡ none
            → destroy_instance sys unlink fuel made true flags join none v ≡ spins)
  unfolding destroy_instance get_instance
  destroy_instance_lem fuel made self created flags join v small =
      let (ae', (self', v')) = join (record self { stop = 1 }) v in
      let flag = (set_stop_flag_lem 0 self.stop small).0 in
      (
        close_server sys unlink (ae', (self', v')),
        rw (flag, destroy_instance) refl,
        λ n.
            close_server-opens ae' self' v' n
            ∙ ap
                (λ b.
                  if holds self'.domain_fd n || holds ae'.epoll_fd n || b
                  then false
                  else opens v' n)
                (owns-holds_file self'.file.fd n),
        refl,
        λ e. rw (e, destroy_instance) refl,
      )
