-- ===== src/AsyncIo/Tidy/Accept.antt =====
-- The calls that open a descriptor of a client or the two of a pipe, `accept4` and `pipe2`.
use libnebula.Prelude.{
  ℕ, ◌≡◌, refl, ◌∙◌, inl, inr, Bool, true, false, Option, none, some, arith, ◌==◌, if◌then◌else◌,
  Bool-cases, Option-cases, ==_iff,
}
use libnebula.AsyncIo.{
  Sockets, both, provided, set_nonblock, set_close_on_exec, guard_pipe, pipe2, accept4, is_unknown,
  has_flag, aio_nonblock, aio_cloexec,
}
use libnebula.AsyncIo.Tidy.{
  Keeps, Opened, Balanced, Paired, IsSystem, both-Keeps, provided-Keeps, set_nonblock-Keeps,
  set_close_on_exec-Keeps, refused-Balanced,
}

module _ {W : Type 0} (sys : Sockets W) (opens : W → ℕ → Bool) (system : IsSystem sys opens) where
  failed-Balanced :
      (fd : ℕ) (w0 w : W) → Opened opens fd w0 w → Balanced opens w0 (none, sys.close w fd)
  unfolding Opened Balanced
  failed-Balanced fd w0 w (was_closed, now) n =
      ground (arith, system.closed w fd n, now n, was_closed, ==_iff n fd)

  after-Opened :
      (fd : ℕ) (w0 w : W) (call : W → Bool × W)
      → Keeps opens call
      → Opened opens fd w0 w
      → Opened opens fd w0 (call w).1
  unfolding Opened Keeps
  after-Opened fd w0 w call keeps (was_closed, now) = (was_closed, λ n. keeps w n ∙ now n)

  accept4-known :
      (server : ℕ) (addr_len : Option ℕ) (flags : ℕ) (w : W)
      → is_unknown flags ≡ false
      → let (fd, len, w') = accept4 sys server addr_len flags w in Balanced opens w (fd, w')
  unfolding accept4
  accept4-known server addr_len flags w known =
      elim (Option-cases (sys.accept w server addr_len).0) [
        | inl none_came ↦ rw (known, none_came, accept4) (rw none_came at came)
        | inr (fd, e) ↦
            let w' = (sys.accept w server addr_len).2 in
            let setup =
              both (provided (has_flag flags aio_nonblock) (set_nonblock sys fd))
                (provided (has_flag flags aio_cloexec) (set_close_on_exec sys fd)) in
            let keeps =
              both-Keeps sys opens system _ _
                (provided-Keeps sys opens system (has_flag flags aio_nonblock) _
                  (set_nonblock-Keeps sys opens system fd))
                (provided-Keeps sys opens system (has_flag flags aio_cloexec) _
                  (set_close_on_exec-Keeps sys opens system fd)) in
            let opened = after-Opened fd w w' setup keeps (unfold Balanced in rw e at came) in
            elim (Bool-cases (setup w').0) [
              | inl done ↦ rw (known, e, done, accept4) (unfold Balanced in opened)
              | inr failed ↦ rw (known, e, failed, accept4) (failed-Balanced fd w _ opened)
            ]
      ]
    where
      came : Balanced opens w ((sys.accept w server addr_len).0, (sys.accept w server addr_len).2)
      came = system.accept_opens w server addr_len

  -- `accept4`, whatever the flags, hands out a descriptor that it opened, or returns -1: then a
  -- descriptor that it accepted is closed again, and no other.
  pub accept4-Balanced :
      (server : ℕ) (addr_len : Option ℕ) (flags : ℕ) (w : W)
      → let (fd, len, w') = accept4 sys server addr_len flags w in Balanced opens w (fd, w')
  unfolding accept4
  accept4-Balanced server addr_len flags w = elim (Bool-cases (is_unknown flags)) [
    | inl unknown ↦ rw (unknown, accept4) (refused-Balanced sys opens system w)
    | inr known ↦ accept4-known server addr_len flags w known
  ]

  abbrev Ends : ℕ → ℕ → W → W → Type 0
  Ends p q w w' =
      (opens w p ≡ false)
      × (opens w q ≡ false)
      × ((n : ℕ) → opens w' n ≡ (if n == p then true else if n == q then true else opens w n))

  guard_pipe-Paired :
      (p q : ℕ) (call : W → Bool × W) (next : W → Option (ℕ × ℕ) × W) (w0 : W)
      → Keeps opens call
      → ((w : W) → Ends p q w0 w → Paired opens w0 (next w))
      → (w : W) → Ends p q w0 w
      → Paired opens w0 (guard_pipe sys p q call next w)
  unfolding Keeps Paired guard_pipe
  guard_pipe-Paired p q call next w0 keeps rest w (p_new, q_new, now) =
      elim (Bool-cases (call w).0) [
        | inl e ↦ rw (e, guard_pipe) (rest (call w).1 (p_new, q_new, λ n. keeps w n ∙ now n))
        | inr e ↦
            rw (e, guard_pipe)
              (λ n. ground (
                arith,
                system.closed (sys.close (call w).1 p) q n,
                system.closed (call w).1 p n,
                keeps w n,
                now n,
                p_new,
                q_new,
                ==_iff n p,
                ==_iff n q,
              ))
      ]

  hand_out-Paired : (p q : ℕ) (w0 w : W) → Ends p q w0 w → Paired opens w0 (some (p, q), w)
  unfolding Paired
  hand_out-Paired p q w0 w ends = ends

  pipe2-known : (flags : ℕ) (w : W) → is_unknown flags ≡ false → Paired opens w (pipe2 sys flags w)
  unfolding pipe2
  pipe2-known flags w known = elim (Option-cases (sys.pipe w).0) [
    | inl none_made ↦ rw (known, none_made, pipe2) (rw none_made at made)
    | inr ((p, q), e) ↦
        rw (known, e, pipe2)
          (guard_pipe-Paired p q _ _ w
            (provided-Keeps sys opens system (has_flag flags aio_nonblock) _ (
              both-Keeps sys opens system _ _ (set_nonblock-Keeps sys opens system p)
                (set_nonblock-Keeps sys opens system q)))
            (guard_pipe-Paired p q _ _ w
              (provided-Keeps sys opens system (has_flag flags aio_cloexec) _ (
                both-Keeps sys opens system _ _ (set_close_on_exec-Keeps sys opens system p)
                  (set_close_on_exec-Keeps sys opens system q)))
              (hand_out-Paired p q w))
            (sys.pipe w).1 (unfold Paired in rw e at made))
  ]
    where
      made : Paired opens w ((sys.pipe w).0, (sys.pipe w).1)
      made = system.pipe_opens w

  -- `pipe2`, whatever the flags, hands out two descriptors that it opened, or returns -1: then both
  -- ends of a pipe that it opened are closed again, and no other descriptor.
  pipe2-Paired : (flags : ℕ) (w : W) → Paired opens w (pipe2 sys flags w)
  unfolding pipe2
  pipe2-Paired flags w = elim (Bool-cases (is_unknown flags)) [
    | inl unknown ↦ rw (unknown, pipe2) (unfold Paired in λ n. refl)
    | inr known ↦ pipe2-known flags w known
  ]
