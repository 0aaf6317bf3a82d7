-- ===== src/AsyncEvent/Fds/Fresh.antt =====
-- What `initialize` leaves.
use libnebula.Prelude.{
  ℕ, zero, suc, ◌≡◌, refl, sym, ap, ◌⊎◌, inl, inr, arith, replicate, length-replicate,
  get_or-replicate, tally, Bool-cases, Option-cases,
}
use libnebula.Prelude.Int.{ℤ, pos, negsuc}
use libnebula.AsyncEvent.{ok, error, no_info, no_event, AsyncEvent, fresh, System}
use libnebula.AsyncEvent.Valid.{IsValid, is_monitored, is_pending}
use libnebula.AsyncEvent.Fds.{Outcome, init_time, init_tables, initialize}
use libnebula.AsyncEvent.Timers.Table.{IsTimed}

-- The object that a successful `initialize` makes of a new one.
abbrev made : ℕ → ℕ → ℕ → AsyncEvent
made epoll_fd size events = record fresh {
  epoll_fd = pos epoll_fd;
  fd_table_size = size;
  ready = replicate size 0;
  fds = replicate size no_info;
  time_events = replicate events no_event;
  size_time_events = pos events;
}

module _ {W : Type 0} (sys : System W) where
  abbrev Made : ℕ → Outcome W → Type 0
  Made epoll_fd r =
      (r.0 ≡ error)
      ⊎ ((size : ℕ) × (events : ℕ) × (w' : W) × (r ≡ (ok, made epoll_fd size events, w')))

  init_time-Made :
      (time_hint : ℤ) (epoll_fd size : ℕ) (w : W)
      → Made epoll_fd (
          init_time sys time_hint
            (record fresh {
              epoll_fd = pos epoll_fd;
              fd_table_size = size;
              ready = replicate size 0;
              fds = replicate size no_info;
            })
            w)
  unfolding init_time fresh
  init_time-Made (negsuc n) epoll_fd size w = inl refl
  init_time-Made (pos n) epoll_fd size w = elim (Bool-cases (sys.calloc w n).0) [
    | inl got ↦ rw (got, init_time) (inr (size, n, (sys.calloc w n).1, refl))
    | inr not_got ↦ rw (not_got, init_time) (inl refl)
  ]

  init_tables-Made :
      (time_hint : ℤ) (epoll_fd : ℕ) (w : W)
      → Made epoll_fd (init_tables sys time_hint (record fresh { epoll_fd = pos epoll_fd }) w)
  unfolding init_tables
  init_tables-Made time_hint epoll_fd w =
      let size = sys.table_size w in
      let w1 = (sys.calloc w size).1 in
      let w2 = (sys.calloc w1 size).1 in
      elim (Bool-cases (sys.calloc w size).0) [
        | inr e ↦ rw e (inl refl)
        | inl e ↦ elim (Bool-cases (sys.calloc w1 size).0) [
          | inr e1 ↦ rw (e, e1) (inl refl)
          | inl e1 ↦ elim (Bool-cases (sys.calloc w2 size).0) [
            | inr e2 ↦ rw (e, e1, e2) (inl refl)
            | inl e2 ↦
                rw (e, e1, e2) (init_time-Made time_hint epoll_fd size (sys.calloc w2 size).1)
          ]
        ]
      ]

tally-replicate : {A : Type 0} (f : A → ℕ) (d : A) (n : ℕ) → f d ≡ 0 → tally f d (replicate n d) ≡ 0
tally-replicate f d zero e = refl
tally-replicate f d (suc n) e = omega (arith, e, tally-replicate f d n e)

made-IsValid : (epoll_fd size events : ℕ) → IsValid (made epoll_fd size events)
unfolding fresh
made-IsValid epoll_fd size events = record {
  table = length-replicate size no_info;
  ready_size = length-replicate size 0;
  counted = sym (tally-replicate is_monitored no_info size refl);
  pending = sym (tally-replicate is_pending no_info size refl);
  listed = λ fd. rw (get_or-replicate size fd no_info) refl;
}

made-IsTimed : (epoll_fd size events : ℕ) → IsTimed (made epoll_fd size events)
unfolding fresh
made-IsTimed epoll_fd size events = record {
  sized = ap pos (ground (arith, length-replicate events no_event));
  room = omega arith;
  unique = λ k. omega arith;
  issued = λ k h. refl;
}

initialize-Made :
    {W : Type 0} (sys : System W) (hint time_hint : ℤ) (w : W)
    → ((initialize sys hint time_hint fresh w).0 ≡ error)
      ⊎ ((epoll_fd : ℕ) × Made sys epoll_fd (initialize sys hint time_hint fresh w))
unfolding initialize
initialize-Made sys (negsuc h) time_hint w = inl refl
initialize-Made sys (pos h) time_hint w = elim (Option-cases (sys.epoll_create w h).0) [
  | inl none_made ↦ inl (rw (none_made, initialize) refl)
  | inr (epoll_fd, e) ↦ inr (
    epoll_fd,
    rw (e, initialize) (init_tables-Made sys time_hint epoll_fd (sys.epoll_create w h).1),
  )
]

abbrev Ready : AsyncEvent → Type 0
Ready s =
    IsValid s
    × IsTimed s
    × (s.num_monitored ≡ 0)
    × (s.num_ready ≡ 0)
    × (s.used_time_events ≡ 0)
    × (epoll_fd : ℕ) × (s.epoll_fd ≡ pos epoll_fd)

made-Ready : (epoll_fd size events : ℕ) → Ready (made epoll_fd size events)
unfolding fresh
made-Ready epoll_fd size events = (
  made-IsValid epoll_fd size events,
  made-IsTimed epoll_fd size events,
  refl,
  refl,
  refl,
  epoll_fd,
  refl,
)

-- A new object on which `initialize` succeeds, whatever the sizes asked for, is well-formed, with
-- no descriptor monitored, no event pending, no time event in use and a descriptor of epoll.
pub initialize-IsValid :
    {W : Type 0} (sys : System W) (hint time_hint : ℤ) (w : W)
    → (initialize sys hint time_hint fresh w).0 ≡ ok
    → Ready (initialize sys hint time_hint fresh w).1
initialize-IsValid sys hint time_hint w succeeded = elim (initialize-Made sys hint time_hint w) [
  | inl failed ↦ cc
  | inr (epoll_fd, inl failed) ↦ cc
  | inr (epoll_fd, inr (size, events, w', e)) ↦ rw e (made-Ready epoll_fd size events)
]
