-- ===== src/AppLogger/Server/Stop.antt =====
-- When the server is ready, and when it stops.
use mathlib.Core.Path.{subst}
use libnebula.Prelude.{
  ℕ, zero, suc, ◌≡◌, refl, ◌∙◌, Bool, true, false, Option, none, some, arith, Each, ◌⊎◌, inl, inr,
}
use libnebula.Prelude.Int.{pos, negsuc}
use libnebula.AsyncEvent.{Status, ok, error, AsyncEvent, System, readable}
use libnebula.AsyncEvent.Timers.{Run, finished, out_of_range, out_of_fuel, add_time_event}
use libnebula.AsyncEvent.Fds.{initialize, add_fd_event}
use libnebula.AsyncEvent.Dispatch.{event_loop}
use libnebula.AsyncEvent.Fds.World.{
  Keeps, add_time_event-Keeps, add_fd_event-Keeps, initialize-Keeps,
}
use libnebula.AsyncIo.{Sockets}
use libnebula.AppLogger.{err, notice}
use libnebula.AppLogger.Server.{
  Note, LogServer, Calls, check_interval, noted, set_ready, is_ready, wait_ready, get_instance,
}
use libnebula.AppLogger.Server.Notes.{noted-Keeps}
use libnebula.AppLogger.Server.Serve.{
  check_proc, recv_proc, this, Ended, failed, served, lost, State, fail, serve, after_timer,
  after_fd_event, after_initialize, after_bind, after_nonblock, after_socket, routine,
}

-- A predicate on the world that a failure leaves.
abbrev Failing : {A : Type 0} → Ended A → (A → Type 0) → Type 0
Failing (failed note a) P = P a
Failing (served a) P = Unit
Failing lost P = Unit

Failing-noted :
    {A B : Type 0} {P : A → Type 0} (Q : B → Type 0) (o : Option A) (f : A → Ended B)
    → Each o P
    → ((a : A) → P a → Failing (f a) Q)
    → Failing (elim o [ none ↦ lost | some a ↦ f a ]) Q
Failing-noted Q none f h next = tt
Failing-noted Q (some a) f h next = next a h

Failing-run :
    {A : Type 0} (Q : A → Type 0) (r : Run A)
    → Failing (elim r [ finished a ↦ served a | out_of_range ↦ lost | out_of_fuel ↦ lost ]) Q
Failing-run Q (finished a) = tt
Failing-run Q out_of_range = tt
Failing-run Q out_of_fuel = tt

module _ {V : Type 0} (calls : Calls V) (net : Sockets V) (sys : System (LogServer × V))
    (turns fuel : ℕ) where
  -- The flag of the world that a failure leaves.
  abbrev Unready : Ended (State V) → ℕ → Type 0
  Unready r flag = Failing r (λ a. a.1.0.ready ≡ flag)

  fail-Unready :
      (note : Note) (ae : AsyncEvent) (w : LogServer × V)
      → Unready (fail calls net sys turns fuel note ae w) w.0.ready
  fail-Unready note ae w =
      Failing-noted _ (noted calls err note w) (λ w'. failed note (ae, w'))
        (noted-Keeps calls err note w) (λ w' h. h.0)

  fail_at :
      {flag : ℕ} (note : Note) (ae : AsyncEvent) (w : LogServer × V)
      → w.0.ready ≡ flag
      → Unready (fail calls net sys turns fuel note ae w) flag
  fail_at note ae w e =
      subst (Unready (fail calls net sys turns fuel note ae w)) e (fail-Unready note ae w)

  serve-Unready :
      (ae : AsyncEvent) (w : LogServer × V) (flag : ℕ)
      → Unready (serve calls net sys turns fuel ae w) flag
  unfolding serve
  serve-Unready ae w flag =
      Failing-noted _ (noted calls notice Note.ready (set_ready w.0, w.1)) _
        (noted-Keeps calls notice Note.ready (set_ready w.0, w.1))
        (λ w' h. Failing-run _ (event_loop sys turns fuel ae w'))

  module _ (flag : ℕ) (keeps : Keeps sys (λ w. w.0.ready ≡ flag)) where
    after_timer-Unready :
        (r : Option ℕ × AsyncEvent × (LogServer × V))
        → r.2.0.ready ≡ flag
        → Unready (after_timer calls net sys turns fuel r) flag
    after_timer-Unready (none, ae, w) h = fail_at Note.add_time_event_failed ae w h
    after_timer-Unready (some id, ae, w) h = serve-Unready ae w flag

    after_fd_event-Unready :
        (r : Status × AsyncEvent × (LogServer × V))
        → r.2.0.ready ≡ flag
        → Unready (after_fd_event calls net sys turns fuel r) flag
    after_fd_event-Unready (error, ae, w) h = fail_at Note.add_fd_event_failed ae w h
    after_fd_event-Unready (ok, ae, w) h =
        after_timer-Unready (add_time_event sys check_interval check_proc this ae w) (
          add_time_event-Keeps sys (λ w. w.0.ready ≡ flag) keeps check_interval check_proc this ae w
            h)

    after_initialize-Unready :
        (fd : ℕ) (r : Status × AsyncEvent × (LogServer × V))
        → r.2.0.ready ≡ flag
        → Unready (after_initialize calls net sys turns fuel fd r) flag
    after_initialize-Unready fd (error, ae, w) h = fail_at Note.initialize_failed ae w h
    after_initialize-Unready fd (ok, ae, w) h =
        after_fd_event-Unready (add_fd_event sys (pos fd) readable recv_proc this 0 0 ae w) (
          add_fd_event-Keeps sys (λ w. w.0.ready ≡ flag) keeps (pos fd) readable recv_proc this 0 0
            ae w h)

    after_bind-Unready :
        (fd : ℕ) (ae : AsyncEvent) (self : LogServer) (r : Bool × V)
        → self.ready ≡ flag
        → Unready (after_bind calls net sys turns fuel fd ae self r) flag
    after_bind-Unready fd ae self (false, v) h = fail_at Note.bind_failed ae (self, v) h
    after_bind-Unready fd ae self (true, v) h =
        after_initialize-Unready fd (initialize sys (pos 64) (pos 32) ae (self, v))
          (initialize-Keeps sys (λ w. w.0.ready ≡ flag) keeps (pos 64) (pos 32) ae (self, v) h)

    after_nonblock-Unready :
        (fd : ℕ) (ae : AsyncEvent) (self : LogServer) (r : Bool × V)
        → self.ready ≡ flag
        → Unready (after_nonblock calls net sys turns fuel fd ae self r) flag
    after_nonblock-Unready fd ae self (false, v) h = fail_at Note.set_nonblock_failed ae (self, v) h
    after_nonblock-Unready fd ae self (true, v) h = after_bind-Unready fd ae _ _ h

    after_socket-Unready :
        (ae : AsyncEvent) (self : LogServer) (r : Option ℕ × V)
        → self.ready ≡ flag
        → Unready (after_socket calls net sys turns fuel ae self r) flag
    after_socket-Unready ae self (none, v) h =
        fail_at Note.socket_failed ae (record self { domain_fd = negsuc 0 }, v) h
    after_socket-Unready ae self (some fd, v) h =
        after_nonblock-Unready fd ae (record self { domain_fd = pos fd }) _ h

    -- A thread of the server that ends with an error never sets the flag that it is ready, at
    -- whatever step it fails.
    routine-Unready :
        (ae : AsyncEvent) (self : LogServer) (v : V)
        → self.ready ≡ flag
        → Unready (routine calls net sys turns fuel ae (self, v)) flag
    unfolding routine
    routine-Unready ae self v h = after_socket-Unready ae self _ h

wait_ready-never :
    (fuel : ℕ) (flags : ℕ → ℕ) → ((i : ℕ) → flags i ≡ 0) → wait_ready fuel flags ≡ none
unfolding wait_ready
wait_ready-never zero flags h = refl
wait_ready-never (suc fuel) flags h =
    let no : is_ready (flags 0) ≡ false = ground (arith, h 0) in
    rw (no, wait_ready) (rw (wait_ready-never fuel (λ i. flags (suc i)) (λ i. h (suc i))) refl)

-- Where the calls that register leave the flag alone, and the thread of the server ends with an
-- error, at whatever step, the flag that it is ready keeps its value 0, and `getInstance`, which
-- reads it before or after that end, does not return in any number of rounds.
pub get_instance-Spins :
    {V : Type 0} (calls : Calls V) (net : Sockets V) (sys : System (LogServer × V))
    (turns rounds : ℕ) (ae ae' : AsyncEvent) (self self' : LogServer) (v v' : V) (note : Note)
    → Keeps sys (λ w. w.0.ready ≡ 0)
    → self.ready ≡ 0
    → routine calls net sys turns rounds ae (self, v) ≡ failed note (ae', (self', v'))
    → (fuel : ℕ) (flags : ℕ → ℕ) → ((i : ℕ) → (flags i ≡ self.ready) ⊎ (flags i ≡ self'.ready))
    → get_instance fuel false true flags ≡ none
unfolding get_instance
get_instance-Spins calls net sys turns rounds ae ae' self self' v v' note keeps start e fuel flags
      read =
    let ends : self'.ready ≡ 0 =
      subst (λ r. Failing r (λ a. a.1.0.ready ≡ 0)) e
        (routine-Unready calls net sys turns rounds 0 keeps ae self v start) in
    rw
      (
        wait_ready-never fuel flags (λ i. elim (read i) [ inl p ↦ p ∙ start | inr p ↦ p ∙ ends ]),
        get_instance,
      )
      refl
