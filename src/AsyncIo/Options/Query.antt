-- ===== src/AsyncIo/Options/Query.antt =====
-- What the queries of a descriptor return after a setter.
use libnebula.Prelude.{
  ℕ, ◌^◌, ◌≡◌, ◌≢◌, refl, sym, ap, ◌∙◌, ◌⊎◌, inl, inr, Bool, true, false, Option, none, some,
  bit_and, bit_or,
}
use mathlib.Core.Path.{subst}
use libnebula.AsyncIo.{
  tcp_nodelay, so_reuseaddr, Sockets, has_flag, set_nonblock, is_nonblock_3state, set_close_on_exec,
  is_close_on_exec_3state, set_tcp_no_delay, is_tcp_no_delay_3state, set_reuse_addr,
  is_reuse_addr_3state,
}
use libnebula.AsyncIo.Options.{
  Setting, nonblock, cloexec, socket_option, is_on, Tables, owner, Leaves, Stores, Takes, Remembers,
  setter, query, IsOn, flag_of, answer,
}
use libnebula.AsyncIo.Options.Words.{
  Turned, some-eq, turned, IsOnWord, flag_shown, shown, IsOnWord-IsOn, by_bit, tested, Stores-read,
  Stores-weaken,
}

module _ {W : Type 0} (sys : Sockets W) (t : Tables W) (law : Remembers sys t) where
  -- A setter of flags: `m` is where its call keeps them.
  flag-Stores :
      (x : Setting) (flag m m1 : ℕ) (w : W) (r : Option ℕ × W) (set : W → ℕ → Bool × W)
      → is_on flag ≡ true
      → r.0 ≡ t.kept w m x
      → Leaves t w r.1
      → m1 ≡ m
      → ((s : ℕ) → Stores t m1 x (Takes flag s (t.kept r.1 m1 x)) r.1 (set r.1 s))
      → Stores t m x
          (Turned flag (t.kept w m x))
          w
          (elim r.0 [ none ↦ (false, r.1) | some s ↦ set r.1 (bit_or s flag) ])
  flag-Stores x flag m m1 w r set on reads same here stores =
      let P = Turned flag (t.kept w m x) in
      Stores-read t m x P w r (λ s v. set v (bit_or s flag)) same
        (λ s is_s.
          let e : t.kept w m x ≡ some s = sym reads ∙ is_s in
          let e1 : t.kept r.1 m1 x ≡ some s = ap (λ n. t.kept r.1 n x) here ∙ same.1 m x ∙ e in
          subst (λ n. Stores t n x P r.1 (set r.1 (bit_or s flag))) here
            (Stores-weaken t m1 x (Takes flag (bit_or s flag) (t.kept r.1 m1 x)) P r.1
              (set r.1 (bit_or s flag))
              (λ v takes. turned flag s (t.kept r.1 m1 x) (t.kept w m x) v on e1 e takes)
              (stores (bit_or s flag))))

  setter-Stores :
      (x : Setting) (fd : ℕ) (w : W)
      → Stores t
          (owner t w fd x)
          x
          (IsOnWord sys x (t.kept w (owner t w fd x) x))
          w
          (setter sys x fd w)
  unfolding set_nonblock set_close_on_exec set_tcp_no_delay set_reuse_addr
  setter-Stores nonblock fd w =
      let r = sys.get_status w fd in
      flag-Stores nonblock sys.o_nonblock (t.description w fd) (t.description r.1 fd) w r
        (λ v s. sys.set_status v fd s) law.nonblock_bit (law.get_status_value w fd)
        (law.get_status_leaves w fd) ((law.get_status_leaves w fd).0 fd)
        (λ s. law.set_status_stores r.1 fd s)
  setter-Stores cloexec fd w =
      let r = sys.get_flags w fd in
      flag-Stores cloexec sys.fd_cloexec fd fd w r (λ v s. sys.set_flags v fd s) law.cloexec_bit
        (law.get_flags_value w fd) (law.get_flags_leaves w fd) refl
        (λ s. law.set_flags_stores r.1 fd s)
  setter-Stores (socket_option tcp_nodelay) fd w = law.setsockopt_stores w fd tcp_nodelay 1
  setter-Stores (socket_option so_reuseaddr) fd w = law.setsockopt_stores w fd so_reuseaddr 1

  -- A query answers by the word that is kept.
  query-shown :
      (y : Setting) (n : ℕ) (w : W) → query sys y n w ≡ shown sys y (t.kept w (owner t w n y) y)
  unfolding is_nonblock_3state is_close_on_exec_3state is_tcp_no_delay_3state is_reuse_addr_3state
  query-shown nonblock n w =
      tested sys.o_nonblock (sys.get_status w n)
      ∙ ap (flag_shown sys.o_nonblock) (law.get_status_value w n)
  query-shown cloexec n w =
      tested sys.fd_cloexec (sys.get_flags w n)
      ∙ ap (flag_shown sys.fd_cloexec) (law.get_flags_value w n)
  query-shown (socket_option tcp_nodelay) n w = law.getsockopt_value w n tcp_nodelay
  query-shown (socket_option so_reuseaddr) n w = law.getsockopt_value w n so_reuseaddr

  owner-same :
      (w w' : W)
      → ((n : ℕ) → t.description w' n ≡ t.description w n)
      → (n : ℕ) (y : Setting) → owner t w' n y ≡ owner t w n y
  owner-same w w' places n nonblock = places n
  owner-same w w' places n cloexec = refl
  owner-same w w' places n (socket_option o) = places n

  query-same :
      (w w' : W) (y : Setting) (n : ℕ)
      → ((m : ℕ) → t.description w' m ≡ t.description w m)
      → t.kept w' (owner t w n y) y ≡ t.kept w (owner t w n y) y
      → query sys y n w' ≡ query sys y n w
  query-same w w' y n places e =
      query-shown y n w'
      ∙ ap (shown sys y) (ap (λ m. t.kept w' m y) (owner-same w w' places n y) ∙ e)
      ∙ sym (query-shown y n w)

  -- The words that share a setting with the flag, behind the setter.
  others_stay :
      (x : Setting) (old : Option ℕ) (v flag o k : ℕ)
      → IsOnWord sys x old v
      → flag_of sys x ≡ some flag
      → old ≡ some o
      → bit_and flag (2 ^ k) ≡ 0
      → has_flag v (2 ^ k) ≡ has_flag o (2 ^ k)
  others_stay nonblock old v flag o k (on, rest) e is_o apart =
      rest o k is_o (ap (λ z. bit_and z (2 ^ k)) (some-eq e) ∙ apart)
  others_stay cloexec old v flag o k (on, rest) e is_o apart =
      rest o k is_o (ap (λ z. bit_and z (2 ^ k)) (some-eq e) ∙ apart)
  others_stay (socket_option p) old v flag o k on e is_o apart = cc

  Stores-query :
      (x : Setting) (fd : ℕ) (w : W) (r : Bool × W)
      → Stores t (owner t w fd x) x (IsOnWord sys x (t.kept w (owner t w fd x) x)) w r
      → (r.0 ≡ true
          → ((n : ℕ) → owner t w n x ≡ owner t w fd x → IsOn x (query sys x n r.1))
            × ((flag o k : ℕ)
                → flag_of sys x ≡ some flag
                → t.kept w (owner t w fd x) x ≡ some o
                → bit_and flag (2 ^ k) ≡ 0
                → (v : ℕ) × (t.kept r.1 (owner t w fd x) x ≡ some v)
                  × (has_flag v (2 ^ k) ≡ has_flag o (2 ^ k))))
        × ((y : Setting) (n : ℕ)
            → (owner t w n y ≢ owner t w fd x) ⊎ (y ≢ x) ⊎ (r.0 ≡ false)
            → query sys y n r.1 ≡ query sys y n w)
  Stores-query x fd w (true, w1) (v, e, p, places, rest) = (
    λ z. (
      λ n there.
          let here : query sys x n w1 ≡ shown sys x (some v) =
            query-shown x n w1
            ∙ ap (shown sys x) (ap (λ m. t.kept w1 m x) (owner-same w w1 places n x ∙ there) ∙ e) in
          subst (IsOn x) (sym here) (IsOnWord-IsOn sys x (t.kept w (owner t w fd x) x) v p),
      λ flag o k is_flag is_o apart.
          (v, e, others_stay x (t.kept w (owner t w fd x) x) v flag o k p is_flag is_o apart),
    ),
    λ y n other. query-same w w1 y n places (rest (owner t w n y) y (narrow other)),
  )
    where
      narrow : {A B : Type 0} → A ⊎ B ⊎ (true ≡ false) → A ⊎ B
      narrow (inl a) = inl a
      narrow (inr (inl b)) = inr b
      narrow (inr (inr z)) = cc
  Stores-query x fd w (false, w1) same =
      (λ z. cc, λ y n other. query-same w w1 y n same.0 (same.1 (owner t w n y) y))

  shown-answer : (y : Setting) (word : Option ℕ) → shown sys y word ≡ answer (flag_of sys y) word
  shown-answer nonblock none = refl
  shown-answer nonblock (some s) = by_bit s sys.o_nonblock
  shown-answer cloexec none = refl
  shown-answer cloexec (some s) = by_bit s sys.fd_cloexec
  shown-answer (socket_option o) word = refl

  -- setNonblock, setCloseOnExec, setTcpNoDelay and setReuseAddr against the four queries, on a
  -- system that keeps the status flags and socket options of each open file description and the
  -- flags of each descriptor. After a setter that succeeds, its query returns 1 for a flag, and a
  -- number that is not 0 for a socket option, on the descriptor and on each that shares its
  -- description (for close-on-exec on the descriptor alone); and each bit of the word of flags but
  -- the one that is set is as it was. Every query of another setting or on a descriptor of another
  -- description (for close-on-exec another descriptor), and every query after a setter that fails,
  -- returns the number that it returned before. And a query, whenever it is called, returns 1 or 0 by
  -- the bit of its flag, or the number that is kept of its option, and -1 where nothing is kept.
  pub setter-query :
      (x : Setting) (fd : ℕ) (w : W)
      → ((setter sys x fd w).0 ≡ true
          → ((n : ℕ)
              → owner t w n x ≡ owner t w fd x
              → IsOn x (query sys x n (setter sys x fd w).1))
            × ((flag o k : ℕ)
                → flag_of sys x ≡ some flag
                → t.kept w (owner t w fd x) x ≡ some o
                → bit_and flag (2 ^ k) ≡ 0
                → (v : ℕ) × (t.kept (setter sys x fd w).1 (owner t w fd x) x ≡ some v)
                  × (is_on (bit_and v (2 ^ k)) ≡ is_on (bit_and o (2 ^ k)))))
        × ((y : Setting) (n : ℕ)
            → (owner t w n y ≢ owner t w fd x) ⊎ (y ≢ x) ⊎ ((setter sys x fd w).0 ≡ false)
            → query sys y n (setter sys x fd w).1 ≡ query sys y n w)
        × ((y : Setting) (n : ℕ) (w' : W)
            → query sys y n w' ≡ answer (flag_of sys y) (t.kept w' (owner t w' n y) y))
  setter-query x fd w =
      let (on, others) = Stores-query x fd w (setter sys x fd w) (setter-Stores x fd w) in
      (on, others, λ y n w'. query-shown y n w' ∙ shown-answer y (t.kept w' (owner t w' n y) y))
