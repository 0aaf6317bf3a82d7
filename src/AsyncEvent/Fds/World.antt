-- ===== src/AsyncEvent/Fds/World.antt =====
-- What the registrations leave of the world outside the object.
use libnebula.Prelude.{ℕ, Bool, true, false, Option, none, some, arith, if◌then◌else◌, not}
use libnebula.Prelude.Int.{ℤ, pos, negsuc}
use libnebula.AsyncEvent.{AsyncEvent, System, CtlOp, Interest, in_table}
use libnebula.AsyncEvent.Fds.{Outcome, init_time, init_tables, initialize, add_at, add_fd_event}
use libnebula.AsyncEvent.Timers.{add_time_event}

-- The calls of the system that allocate and register keep a predicate on the world.
pub record Keeps {W : Type 0} (sys : System W) (P : W → Type 0) : Type 0 where
  pub keep_create : (w : W) (n : ℕ) → P w → P (sys.epoll_create w n).1
  pub keep_calloc : (w : W) (n : ℕ) → P w → P (sys.calloc w n).1
  pub keep_ctl : (w : W) (op : CtlOp) (fd : ℕ) (i : Interest) → P w → P (sys.epoll_ctl w op fd i).1
  pub keep_now : (w : W) → P w → P (sys.now w).1

module _ {W : Type 0} (sys : System W) (P : W → Type 0) (keeps : Keeps sys P) where
  pub add_time_event-Keeps :
      (ms proc arg : ℕ) (s : AsyncEvent) (w : W) → P w → P (add_time_event sys ms proc arg s w).2
  unfolding add_time_event
  add_time_event-Keeps ms proc arg s w h = ground (arith, keeps.keep_now w h)

  if-Keeps : (b : Bool) (x y : Outcome W) → P x.2 → P y.2 → P (if b then x else y).2
  if-Keeps true x y p q = p
  if-Keeps false x y p q = q

  Bool-Keeps :
      (b : Bool) (x y : Outcome W)
      → P x.2
      → P y.2
      → P (elim b as (λ c. Outcome W) [ false ↦ x | true ↦ y ]).2
  Bool-Keeps true x y p q = q
  Bool-Keeps false x y p q = p

  Option-Keeps :
      (o : Option ℕ) (x : Outcome W) (f : ℕ → Outcome W)
      → P x.2
      → ((n : ℕ) → P (f n).2)
      → P (elim o as (λ c. Outcome W) [ none ↦ x | some n ↦ f n ]).2
  Option-Keeps none x f p q = p
  Option-Keeps (some n) x f p q = q n

  add_at-Keeps :
      (fd mask proc arg proc_exp arg_exp : ℕ) (s : AsyncEvent) (w : W)
      → P w
      → P (add_at sys fd mask proc arg proc_exp arg_exp s w).2
  unfolding add_at
  add_at-Keeps fd mask proc arg proc_exp arg_exp s w h =
      if-Keeps _ _ _ (keeps.keep_ctl w _ _ _ h) (keeps.keep_ctl w _ _ _ h)

  pub add_fd_event-Keeps :
      (fd : ℤ) (mask proc arg proc_exp arg_exp : ℕ) (s : AsyncEvent) (w : W)
      → P w
      → P (add_fd_event sys fd mask proc arg proc_exp arg_exp s w).2
  unfolding add_fd_event
  add_fd_event-Keeps fd mask proc arg proc_exp arg_exp s w h =
      Option-Keeps (in_table s fd) _ _ h (λ n. add_at-Keeps n mask proc arg proc_exp arg_exp s w h)

  init_time-Keeps : (hint : ℤ) (s : AsyncEvent) (w : W) → P w → P (init_time sys hint s w).2
  unfolding init_time
  init_time-Keeps (negsuc n) s w h = h
  init_time-Keeps (pos n) s w h =
      Bool-Keeps (sys.calloc w n).0 _ _ (keeps.keep_calloc w n h) (keeps.keep_calloc w n h)

  init_tables-Keeps : (hint : ℤ) (s : AsyncEvent) (w : W) → P w → P (init_tables sys hint s w).2
  unfolding init_tables
  init_tables-Keeps hint s w h =
      let size = sys.table_size w in
      let h1 = keeps.keep_calloc w size h in
      let h2 = keeps.keep_calloc _ size h1 in
      let h3 = keeps.keep_calloc _ size h2 in
      let w1 = (sys.calloc w size).1 in
      let w2 = (sys.calloc w1 size).1 in
      if-Keeps (not (sys.calloc w size).0) _ _ h1 (
        if-Keeps (not (sys.calloc w1 size).0) _ _ h2 (
          if-Keeps (not (sys.calloc w2 size).0) _ (init_time sys hint _ _) h3
            (init_time-Keeps hint _ _ h3)))

  pub initialize-Keeps :
      (hint time_hint : ℤ) (s : AsyncEvent) (w : W) → P w → P (initialize sys hint time_hint s w).2
  unfolding initialize
  initialize-Keeps (negsuc n) time_hint s w h = h
  initialize-Keeps (pos n) time_hint s w h =
      let h1 = keeps.keep_create w n h in
      Option-Keeps (sys.epoll_create w n).0 _ _ h1
        (λ fd. init_tables-Keeps time_hint (record s { epoll_fd = pos fd }) _ h1)
