-- ===== src/AsyncIo/Options/Tests.antt =====
-- The setters and the queries on a system that remembers what is set.
use libnebula.Prelude.{
  ℕ, ◌/◌, ◌^◌, ◌≡◌, ◌≢◌, refl, ap, ◌⊎◌, inl, inr, true, false, none, some, bit_and,
}
use mathlib.Core.Logic.{ite, if_pos, if_neg}
use native.Mathlib.Decide.{ℕ_discrete}
use libnebula.AsyncIo.{Sockets}
use libnebula.AsyncIo.Options.{
  Setting, nonblock, cloexec, socket_option, Tables, owner, Stores, Remembers, setter, query,
  answer, is_on, IsOn, flag_of,
}
use libnebula.AsyncIo.Options.Query.{setter-query}

-- The words of every description, and of every descriptor. Two descriptors share a description.
abbrev Words : Type 0
Words = ℕ → Setting → ℕ

Setting-discrete : Discrete Setting
Setting-discrete = hlevel

abbrev write : Words → ℕ → Setting → ℕ → Words
write w m x v n y = ite (ℕ_discrete n m) (ite (Setting-discrete y x) v (w n y)) (w n y)

abbrev memory : Sockets Words
memory = record {
  o_nonblock = 2048;
  fd_cloexec = 1;
  sun_path_size = 108;
  get_status = λ w fd. (some (w (fd / 2) nonblock), w);
  set_status = λ w fd s. (true, write w (fd / 2) nonblock s);
  get_flags = λ w fd. (some (w fd cloexec), w);
  set_flags = λ w fd s. (true, write w fd cloexec s);
  pipe = λ w. (none, w);
  socket = λ w kind. (none, w);
  accept = λ w server len. (none, len, w);
  setsockopt = λ w fd o v. (true, write w (fd / 2) (socket_option o) v);
  getsockopt = λ w fd o. (some (w (fd / 2) (socket_option o)), w);
  bind = λ w fd addr. (false, w);
  listen = λ w fd. (false, w);
  connect = λ w fd addr. (false, w);
  close = λ w fd. w;
  inet_pton = λ text. none;
}

abbrev tables : Tables Words
tables = record { description = λ w fd. fd / 2; kept = λ w m y. some (w m y) }

write-Stores :
    (P : ℕ → Type 0) (w : Words) (m : ℕ) (x : Setting) (v : ℕ)
    → P v
    → Stores tables m x P w (true, write w m x v)
write-Stores P w m x v p = (v, ap some here, p, λ n. refl, λ n y other. ap some (away n y other))
  where
    here : write w m x v m x ≡ v
    here =
        rw (if_pos (ℕ_discrete m m) refl (ite (Setting-discrete x x) v (w m x)) (w m x))
          (if_pos (Setting-discrete x x) refl v (w m x))

    away : (n : ℕ) (y : Setting) → (n ≢ m) ⊎ (y ≢ x) → write w m x v n y ≡ w n y
    away n y (inl ne) = if_neg (ℕ_discrete n m) ne (ite (Setting-discrete y x) v (w n y)) (w n y)
    away n y (inr ne) = elim (ℕ_discrete n m) [
      | yes e ↦
          rw (if_pos (ℕ_discrete n m) e (ite (Setting-discrete y x) v (w n y)) (w n y))
            (if_neg (Setting-discrete y x) ne v (w n y))
      | no e ↦ if_neg (ℕ_discrete n m) e (ite (Setting-discrete y x) v (w n y)) (w n y)
    ]

memory-Remembers : Remembers memory tables
memory-Remembers = record {
  nonblock_bit = refl;
  cloexec_bit = refl;
  get_status_value = λ w fd. refl;
  get_status_leaves = λ w fd. (λ n. refl, λ m y. refl);
  set_status_stores =
      λ w fd s. write-Stores _ w (fd / 2) nonblock s (refl, λ o k is_o agree. agree);
  get_flags_value = λ w fd. refl;
  get_flags_leaves = λ w fd. (λ n. refl, λ m y. refl);
  set_flags_stores = λ w fd s. write-Stores _ w fd cloexec s (refl, λ o k is_o agree. agree);
  getsockopt_value = λ w fd o. refl;
  setsockopt_stores = λ w fd o v. write-Stores _ w (fd / 2) (socket_option o) v refl;
}

-- O_RDWR, and nothing else.
abbrev start : Words
start m nonblock = 2
start m cloexec = 0
start m (socket_option o) = 0

abbrev after : Words
after = (setter memory nonblock 5 start).1

setter-query_example :
    ((setter memory nonblock 5 start).0 ≡ true
      → ((n : ℕ)
          → owner tables start n nonblock ≡ owner tables start 5 nonblock
          → IsOn nonblock (query memory nonblock n after))
        × ((flag o k : ℕ)
            → flag_of memory nonblock ≡ some flag
            → some (start 2 nonblock) ≡ some o
            → bit_and flag (2 ^ k) ≡ 0
            → (v : ℕ) × (some (after 2 nonblock) ≡ some v)
              × (is_on (bit_and v (2 ^ k)) ≡ is_on (bit_and o (2 ^ k)))))
    × ((y : Setting) (n : ℕ)
        → (owner tables start n y ≢ owner tables start 5 nonblock)
          ⊎ (y ≢ nonblock)
          ⊎ ((setter memory nonblock 5 start).0 ≡ false)
        → query memory y n after ≡ query memory y n start)
    × ((y : Setting) (n : ℕ) (w : Words)
        → query memory y n w ≡ answer (flag_of memory y) (some (w (owner tables w n y) y)))
setter-query_example = setter-query memory tables memory-Remembers nonblock 5 start
