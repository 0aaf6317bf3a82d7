-- ===== src/AppLogger/Server/Halt.antt =====
-- The event loop of the server, and how it comes to its end.
use mathlib.Core.Bool.{true≢false}
use libnebula.Prelude.{
  ℕ, suc, ◌+◌, ◌≤◌, ◌<◌, ◌≡◌, refl, ap, ◌∙◌, Bool, true, false, ◌&&◌, not, some, List, [], ◌∷◌,
  arith, ◌==◌, if◌then◌else◌, length, get_or, set, All, zero-bit_and, bit_and, bit_or, ◌≢◌,
}
use libnebula.Prelude.Int.{ℤ, pos}
use libnebula.AsyncEvent.{TimeEvent, no_event, Fired, AsyncEvent, System, info_at}
use libnebula.AsyncEvent.Fds.{stop}
use libnebula.AsyncEvent.Timers.{
  finished, event_at, take_out, nearest_time_event, time_loop, process_time_events,
}
use libnebula.AsyncEvent.Dispatch.{
  io_mask, guess_of, settle, wait_time, handle_fired, handle_all, process_fd_events, ready_loop,
  process_ready_fds, turn, goes_on, event_loop,
}
use libnebula.Thread.{get_stop_flag}
use libnebula.AppLogger.{err}
use libnebula.AppLogger.Server.{
  is_ready, Note, LogServer, Calls, noted, clear_ready, check_stop_flag, recv_domain_socket_message,
}
use libnebula.AppLogger.Server.Serve.{recv_proc, check_proc}

-- What the loop of `routine` is between two turns: it has the timer of the check alone, and nothing
-- is left to read from what fired before.
pub record IsServing (s : AsyncEvent) (e : TimeEvent) (rest : List TimeEvent) : Type 0 where
  pub running : s.stopped ≡ false
  pub no_ready : s.num_ready ≡ 0
  pub one_timer : s.used_time_events ≡ 1
  pub timer : s.time_events ≡ e ∷ rest
  pub checks : e.proc ≡ check_proc
  pub quiet : (fd : ℕ) → (info_at s fd).already_fired ≡ 0

-- The events that are reported are for the socket of the server.
abbrev ForServer : AsyncEvent → Fired → Type 0
ForServer s f = ((info_at s f.fd).proc ≡ recv_proc) × ((info_at s f.fd).proc_exp ≡ 0)

module _ {V : Type 0} (calls : Calls V) (sys : System (LogServer × V)) where
  -- The callbacks are the two of the server.
  pub record Linked : Type 0 where
    pub receives :
        (fd mask arg : ℕ) (s : AsyncEvent) (w : LogServer × V)
        → (n : ℕ) × (w' : LogServer × V) × (recv_domain_socket_message calls n w ≡ some w')
          × (sys.call_fd recv_proc fd mask arg s w ≡ (0, s, w'))
    pub checks_flag :
        (id arg : ℕ) (s : AsyncEvent) (w : LogServer × V) (r : ℕ × AsyncEvent × (LogServer × V))
        → check_stop_flag calls s w ≡ some r
        → sys.call_time check_proc id arg s w ≡ r

  module _ (linked : Linked) where
    settle-quiet :
        (fd events : ℕ) (s : AsyncEvent)
        → (info_at s fd).already_fired ≡ 0
        → settle fd events 0 s ≡ s
    unfolding settle
    settle-quiet fd events s q =
        let info = info_at s fd in
        let none_left : guess_of 0 info ≡ 0 =
          ap (λ k. bit_and (bit_or 0 k) info.monitored) q ∙ zero-bit_and info.monitored in
        ground (arith, none_left)

    if-same :
        (b c : Bool) (x y z : AsyncEvent × (LogServer × V)) (s : AsyncEvent)
        → b ≡ false
        → y.0 ≡ s
        → z.0 ≡ s
        → (if b then x else if c then y else z).0 ≡ s
    if-same true c x y z s b p q = absurd (true≢false b)
    if-same false true x y z s b p q = p
    if-same false false x y z s b p q = q

    handle_fired-same :
        (f : Fired) (s : AsyncEvent) (w : LogServer × V)
        → ForServer s f
        → (info_at s f.fd).already_fired ≡ 0
        → (handle_fired sys f s w).0 ≡ s
    unfolding handle_fired
    handle_fired-same f s w (p, no_exp) q =
        let info = info_at s f.fd in
        let (n, w', received, e) = linked.receives f.fd (io_mask f) info.arg s w in
        let call : sys.call_fd info.proc f.fd (io_mask f) info.arg s w ≡ (0, s, w') =
          ap (λ k. sys.call_fd k f.fd (io_mask f) info.arg s w) p ∙ e in
        let same : (f.trouble && not (info.proc_exp == 0)) ≡ false = ground arith in
        if-same _ _ _ _ _ s same
          (ap (λ r. settle f.fd (io_mask f) r.0 r.1) call ∙ settle-quiet f.fd (io_mask f) s q) refl

    handle_all-same :
        (fs : List Fired) (s : AsyncEvent) (w : LogServer × V)
        → All (ForServer s) fs
        → ((fd : ℕ) → (info_at s fd).already_fired ≡ 0)
        → (handle_all sys fs s w).0 ≡ s
    unfolding handle_all
    handle_all-same [] s w a q = refl
    handle_all-same (f ∷ fs) s w (a, others) q =
        let kept = handle_fired-same f s w a (q f.fd) in
        ap (λ t. (handle_all sys fs t (handle_fired sys f s w).1).0) kept
        ∙ handle_all-same fs s (handle_fired sys f s w).1 others q

    time_loop_gone :
        (fuel now last processed : ℕ) (s s' : AsyncEvent) (w w' : LogServer × V)
        → (let e = event_at s 0 in sys.call_time e.proc e.id e.arg s w ≡ (0, s', w'))
        → 0 < s.used_time_events
        → (event_at s 0).when ≤ now
        → s'.used_time_events ≡ suc last
        → time_loop sys (suc fuel) now 0 processed s w
          ≡ time_loop sys fuel now 0 (processed + 1) (take_out s' 0 last) w'
    unfolding time_loop
    time_loop_gone fuel now last processed s s' w w' call some_left due count =
        ground (arith, ap (λ r. r.0) call, ap (λ r. r.1) call, ap (λ r. r.2) call)

    time_loop_done :
        (fuel now processed : ℕ) (s : AsyncEvent) (w : LogServer × V)
        → s.used_time_events ≡ 0
        → time_loop sys (suc fuel) now 0 processed s w ≡ finished (processed, s, w)
    unfolding time_loop
    time_loop_done fuel now processed s w z = ground arith

    -- The timer is due, and the flag is set.
    time_loop-stops :
        (fuel now : ℕ) (s : AsyncEvent) (e : TimeEvent) (rest : List TimeEvent)
        (w w' : LogServer × V)
        → IsServing s e rest
        → e.when ≤ now
        → check_stop_flag calls s w ≡ some (0, stop s, w')
        → time_loop sys (suc (suc fuel)) now 0 0 s w ≡ finished (1, take_out (stop s) 0 0, w')
    unfolding time_loop stop
    time_loop-stops fuel now s e rest w w' i due c =
        let e0 : event_at s 0 ≡ e = ap (λ l. get_or l 0 no_event) i.timer in
        let call : sys.call_time (event_at s 0).proc (event_at s 0).id (event_at s 0).arg s w
            ≡ (0, stop s, w') =
          ap (λ k. sys.call_time k (event_at s 0).id (event_at s 0).arg s w)
            (ap (λ x. x.proc) e0 ∙ i.checks)
          ∙ linked.checks_flag (event_at s 0).id (event_at s 0).arg s w (0, stop s, w') c in
        let when0 = ap (λ x. x.when) e0 in
        time_loop_gone (suc fuel) now 0 0 s (stop s) w w' call (omega (arith, i.one_timer))
          (omega (arith, when0, due)) i.one_timer
        ∙ time_loop_done fuel now 1 (take_out (stop s) 0 0) w' refl

    ready_loop-idle :
        (fuel : ℕ) (s : AsyncEvent) (w : LogServer × V)
        → s.num_ready ≡ 0
        → process_ready_fds sys (suc fuel) s w ≡ finished (0, s, w)
    unfolding process_ready_fds ready_loop
    ready_loop-idle fuel s w z = ground arith

    process_fd_events-same :
        (timeout : ℤ) (fs : List Fired) (s : AsyncEvent) (w w2 : LogServer × V)
        → sys.epoll_wait w timeout ≡ (some fs, w2)
        → (handle_all sys fs s w2).0 ≡ s
        → process_fd_events sys timeout s w ≡ (pos (length fs), s, (handle_all sys fs s w2).1)
    unfolding process_fd_events
    process_fd_events-same timeout fs s w w2 e kept =
        rw (ap (λ r. r.0) e, process_fd_events)
          (ap (λ v. (pos (length fs), (handle_all sys fs s v).0, (handle_all sys fs s v).1))
              (ap (λ r. r.1) e)
            ∙ ap (λ t. (pos (length fs), t, (handle_all sys fs s w2).1)) kept)

    goes_on-timer :
        (s : AsyncEvent) → s.stopped ≡ false → s.used_time_events ≡ 1 → goes_on sys s ≡ true
    goes_on-timer s running one = ground arith

    turn_steps :
        (fuel k : ℕ) (s s4 : AsyncEvent) (w w3 w4 : LogServer × V) (nr : ℤ)
        → s.num_ready ≡ 0
        → (let (ms, w2) = nearest_time_event sys s w in
            process_fd_events sys (wait_time ms s.num_ready) s w2 ≡ (nr, s, w3))
        → process_time_events sys (suc fuel) s w3 ≡ finished (k, s4, w4)
        → turn sys (suc fuel) s w ≡ finished (s4, w4)
    unfolding turn
    turn_steps fuel k s s4 w w3 w4 nr z polled timed =
        rw (ready_loop-idle fuel s w z, turn)
          (rw (ap (λ r. process_time_events sys (suc fuel) r.1 r.2) polled ∙ timed) refl)

    check_stop_flag-stops :
        (s : AsyncEvent) (w w' : LogServer × V)
        → get_stop_flag w.0.stop ≢ 0
        → noted calls err Note.stopping w ≡ some w'
        → check_stop_flag calls s w ≡ some (0, stop s, (clear_ready w'.0, w'.1))
    unfolding check_stop_flag
    check_stop_flag-stops s w w' set e =
        let set' : (get_stop_flag w.0.stop == 0) ≡ false = ground arith in
        rw (set', check_stop_flag) (rw e refl)

    event_loop-last :
        (turns fuel : ℕ) (s s' : AsyncEvent) (w w' : LogServer × V)
        → goes_on sys s ≡ true
        → turn sys fuel s w ≡ finished (s', w')
        → goes_on sys s' ≡ false
        → event_loop sys (suc (suc turns)) fuel s w ≡ finished (s', w')
    unfolding event_loop
    event_loop-last turns fuel s s' w w' go e halt =
        rw (go, event_loop) (rw e (rw (halt, event_loop) refl))

    -- Between two turns of the server's loop, with its timer alone and nothing pending, a turn in
    -- which the timer is due and the stop flag found set ends the loop, whatever datagrams for the
    -- server it brings: the message is written, the timer gone, and the server no longer ready.
    pub stop-Halts :
        (turns fuel now : ℕ) (s : AsyncEvent) (e : TimeEvent) (rest : List TimeEvent)
        (fs : List Fired) (w w2 w4 w5 : LogServer × V)
        → IsServing s e rest
        → (let (ms, w1) = nearest_time_event sys s w in
            sys.epoll_wait w1 (wait_time ms s.num_ready) ≡ (some fs, w2))
        → All (ForServer s) fs
        → sys.now (handle_all sys fs s w2).1 ≡ (now, w4)
        → e.when ≤ now
        → get_stop_flag w4.0.stop ≢ 0
        → noted calls err Note.stopping w4 ≡ some w5
        → (event_loop sys (suc (suc turns)) (suc (suc fuel)) s w
            ≡ finished (take_out (stop s) 0 0, (clear_ready w5.0, w5.1)))
          × (is_ready (clear_ready w5.0).ready ≡ false)
    unfolding stop clear_ready process_fd_events process_time_events
    stop-Halts turns fuel now s e rest fs w w2 w4 w5 i polled mine clock due set noted5 =
        let ms = (nearest_time_event sys s w).0 in
        let w1 = (nearest_time_event sys s w).1 in
        let w3 = (handle_all sys fs s w2).1 in
        let w' : LogServer × V = (clear_ready w5.0, w5.1) in
        let kept = handle_all-same fs s w2 mine i.quiet in
        let read : process_fd_events sys (wait_time ms s.num_ready) s w1
            ≡ (pos (length fs), s, w3) =
          process_fd_events-same (wait_time ms s.num_ready) fs s w1 w2 polled kept in
        let timed : process_time_events sys (suc (suc fuel)) s w3
            ≡ finished (1, take_out (stop s) 0 0, w') =
          ap (λ r. time_loop sys (suc (suc fuel)) r.0 0 0 s r.1) clock
          ∙ time_loop-stops fuel now s e rest w4 w' i due
              (check_stop_flag-stops s w4 w5 set noted5) in
        let some_timer : goes_on sys s ≡ true = goes_on-timer s i.running i.one_timer in
        (
          event_loop-last turns (suc (suc fuel)) s _ w w' some_timer
              (turn_steps (suc fuel) 1 s _ w w3 w' (pos (length fs)) i.no_ready read timed) refl,
          ground arith,
        )
