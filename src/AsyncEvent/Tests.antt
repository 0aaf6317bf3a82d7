-- ===== src/AsyncEvent/Tests.antt =====
-- Runs of the event loop's operations at concrete states, over a small model of the kernel.
use libnebula.Prelude.{
  ℕ, zero, suc, ◌+◌, ◌<◌, ◌≡◌, refl, ◌⊎◌, Bool, true, false, Option, none, some, List, [], ◌∷◌,
  arith, ◌==◌, if◌then◌else◌, length, bit_and,
}
use libnebula.Prelude.Int.{pos, negsuc}
use libnebula.AsyncEvent.{
  ok, error, writable, FdInfo, no_info, TimeEvent, AsyncEvent, fresh, CtlOp, Interest, System,
  info_at, interest_of,
}
use libnebula.AsyncEvent.Valid.{IsValid}
use libnebula.AsyncEvent.Fds.{initialize, start, stop, add_fd_event, del_fd_event, remove_fd}
use libnebula.AsyncEvent.Fds.Fresh.{initialize-IsValid}
use libnebula.AsyncEvent.Fds.Kernel.{
  entry, IsEpoll, Agrees, add_fd_event_keeps, del_fd_event_keeps, remove_fd_keeps,
}
use libnebula.AsyncEvent.Timers.{finished, add_time_event, del_time_event, process_time_events}
use libnebula.AsyncEvent.Timers.Table.{
  over_events, has_id, IsTimed, Gone, del_time_event_ways, add_time_event_ways,
}
use libnebula.AsyncEvent.Timers.Once.{IsQuiet, due, after, process_time_events-once}
use libnebula.AsyncEvent.Dispatch.{process_fd_events, process_ready_fds, event_loop}
use libnebula.AsyncEvent.Dispatch.Pending.{IsDrained, process_ready_fds-still}

-- What an epoll object watches.
abbrev Watch : Type 0
Watch = ℕ → Option Interest

abbrev accepts : CtlOp → Option Interest → Bool
accepts CtlOp.insert none = true
accepts CtlOp.insert (some e) = false
accepts CtlOp.modify none = false
accepts CtlOp.modify (some e) = true
accepts CtlOp.delete none = false
accepts CtlOp.delete (some e) = true

abbrev write : Watch → ℕ → Option Interest → Watch
write w n entry fd = if fd == n then entry else w fd

-- The clock stands at 100. The callback of a time event answers its argument.
abbrev kernel : System Watch
kernel = record {
  epoll_create = λ w n. (some 3, w);
  table_size = λ w. 4;
  calloc = λ w n. (true, w);
  epoll_ctl =
      λ w op n e. (accepts op (w n), if accepts op (w n) then write w n (entry op e) else w);
  epoll_wait = λ w timeout. (none, w);
  close = λ w n. write w n none;
  now = λ w. (100, w);
  call_fd = λ proc fd mask arg s w. (0, s, w);
  call_time = λ proc id arg s w. (arg, s, w);
}

kernel-IsEpoll : IsEpoll kernel (λ w. w)
kernel-IsEpoll = record {
  applied = λ w op n e h fd. ground arith;
  refused = λ w op n e h fd. ground arith;
  deletes_known = λ w n e h none_there. ground arith;
  closed = λ w n fd. refl;
}

-- Descriptor 1 is watched for reading and has that event pending, 3 is watched for both.
abbrev pending_one : FdInfo
pending_one = record {
  monitored = 1;
  already_fired = 1;
  proc = 7;
  proc_exp = 0;
  arg = 0;
  arg_exp = 0;
}

abbrev both : FdInfo
both = record { monitored = 3; already_fired = 0; proc = 8; proc_exp = 9; arg = 0; arg_exp = 0 }

abbrev two_watched : AsyncEvent
two_watched = record {
  stopped = false;
  epoll_fd = pos 5;
  fd_table_size = 4;
  num_monitored = 2;
  num_ready = 1;
  ready = 1 ∷ 0 ∷ 0 ∷ 0 ∷ [];
  fds = no_info ∷ pending_one ∷ no_info ∷ both ∷ [];
  time_events =
      (record { id = 1; when = 40; proc = 0; arg = 0 })
      ∷ (record { id = 2; when = 500; proc = 0; arg = 0 })
      ∷ (record { id = 3; when = 90; proc = 0; arg = 25 })
      ∷ (record { id = 0; when = 0; proc = 0; arg = 0 })
      ∷ [];
  size_time_events = pos 4;
  used_time_events = 3;
  last_time_event_id = 3;
}

two_watched-IsValid : IsValid two_watched
two_watched-IsValid = record {
  table = refl;
  ready_size = refl;
  counted = refl;
  pending = refl;
  listed = λ fd. listed fd;
}
  where
    listed :
        (fd : ℕ)
        → (if 1 == fd then 1 else 0) + 0
          ≡ (if (info_at two_watched fd).already_fired == 0 then 0 else 1)
    listed zero = refl
    listed (suc zero) = refl
    listed (suc (suc zero)) = refl
    listed (suc (suc (suc zero))) = refl
    listed (suc (suc (suc (suc n)))) = ground arith

abbrev watch : Watch
watch fd = if fd == 1 then some (interest_of 1) else if fd == 3 then some (interest_of 3) else none

watch-Agrees : Agrees (λ w. w) two_watched watch
watch-Agrees zero = refl
watch-Agrees (suc zero) = refl
watch-Agrees (suc (suc zero)) = refl
watch-Agrees (suc (suc (suc zero))) = refl
watch-Agrees (suc (suc (suc (suc n)))) = ground arith

add_fd_event_keeps_example :
    let (status, s', w') = add_fd_event kernel (pos 1) writable 7 0 0 0 two_watched watch in
    IsValid s' × Agrees (λ w. w) s' w'
add_fd_event_keeps_example =
    add_fd_event_keeps kernel (λ w. w) kernel-IsEpoll two_watched watch two_watched-IsValid
      watch-Agrees (pos 1) writable 7 0 0 0 (omega arith)

del_fd_event_keeps_example :
    let (status, s', w') = del_fd_event kernel (pos 3) writable two_watched watch in
    IsValid s' × Agrees (λ w. w) s' w'
del_fd_event_keeps_example =
    del_fd_event_keeps kernel (λ w. w) kernel-IsEpoll two_watched watch two_watched-IsValid
      watch-Agrees (pos 3) writable

remove_fd_keeps_example :
    let (status, s', w') = remove_fd kernel (pos 1) false two_watched watch in
    IsValid s' × Agrees (λ w. w) s' w'
remove_fd_keeps_example =
    remove_fd_keeps kernel (λ w. w) kernel-IsEpoll two_watched watch two_watched-IsValid
      watch-Agrees (pos 1) false

two_watched-IsTimed : IsTimed two_watched
two_watched-IsTimed = record {
  sized = refl;
  room = omega arith;
  unique = λ k. ground arith;
  issued = λ k h. ground arith;
}

del_time_event_ways_example :
    Gone 1 two_watched (del_time_event 1 two_watched)
    ⊎ ((del_time_event 1 two_watched ≡ (error, two_watched))
        × (over_events (has_id 1) two_watched ≡ 0))
del_time_event_ways_example = del_time_event_ways 1 two_watched two_watched-IsTimed

add_time_event_ways_example :
    let (id, s', w') = add_time_event kernel 30 5 6 two_watched watch in
    ((two_watched.used_time_events ≡ length two_watched.time_events)
      × (add_time_event kernel 30 5 6 two_watched watch ≡ (none, two_watched, watch)))
    ⊎ ((3 < 4)
        × (id ≡ some 4)
        × (over_events (has_id 4) two_watched ≡ 0)
        × ((f : TimeEvent → ℕ)
            → over_events f s'
              ≡ over_events f two_watched + f (record { id = 4; when = 130; proc = 5; arg = 6 })))
add_time_event_ways_example =
    add_time_event_ways kernel 30 5 6 two_watched watch two_watched-IsTimed (omega arith)

kernel-IsQuiet : IsQuiet kernel (λ proc id arg. arg)
kernel-IsQuiet = record { answers = λ proc id arg s w. refl; leaves = λ proc id arg s w. refl }

process_time_events-once_example :
    (processed : ℕ) × (s' : AsyncEvent) × (w' : Watch) × (process_time_events kernel 4 two_watched
        watch
      ≡ finished (processed, s', w'))
    × (processed ≡ over_events (due (λ proc id arg. arg) 100) two_watched)
    × ((f : TimeEvent → ℕ)
        → over_events f s' ≡ over_events (after (λ proc id arg. arg) 100 f) two_watched)
process_time_events-once_example =
    process_time_events-once kernel (λ proc id arg. arg) 4 two_watched watch kernel-IsQuiet
      (omega arith) (omega arith)

-- The two events due are handled: the first is gone, the third put off.
process_time_events_test : over_events (due (λ proc id arg. arg) 100) two_watched ≡ 2
process_time_events_test = refl

-- The calls of callbacks, the last one first; a callback answers NONE.
abbrev recorder : System (List (ℕ × ℕ × ℕ × ℕ))
recorder = record {
  epoll_create = λ w n. (some 3, w);
  table_size = λ w. 4;
  calloc = λ w n. (true, w);
  epoll_ctl = λ w op n e. (true, w);
  epoll_wait = λ w timeout. (none, w);
  close = λ w n. w;
  now = λ w. (100, w);
  call_fd = λ proc fd mask arg s w. (0, s, (proc, fd, mask, arg) ∷ w);
  call_time = λ proc id arg s w. (0, s, w);
}

recorder-IsDrained : IsDrained recorder
recorder-IsDrained = record {
  answers_none = λ proc fd mask arg s w. refl;
  leaves = λ proc fd mask arg s w. refl;
}

pending_within :
    (fd : ℕ)
    → bit_and (info_at two_watched fd).already_fired (info_at two_watched fd).monitored
      ≡ (info_at two_watched fd).already_fired
pending_within zero = refl
pending_within (suc zero) = refl
pending_within (suc (suc zero)) = refl
pending_within (suc (suc (suc zero))) = refl
pending_within (suc (suc (suc (suc n)))) = refl

process_ready_fds-still_example :
    process_ready_fds recorder 2 two_watched [] ≡ finished (1, two_watched, (7, 1, 1, 0) ∷ [])
process_ready_fds-still_example =
    process_ready_fds-still recorder recorder-IsDrained two_watched two_watched-IsValid
      pending_within 2 [] (omega arith)

-- A new object, with the table size that the system gives.
initialize_test : (initialize kernel (pos 8) (pos 2) fresh watch).0 ≡ ok
unfolding initialize
initialize_test = refl

initialize-IsValid_example :
    let s' = (initialize kernel (pos 8) (pos 2) fresh watch).1 in
    IsValid s'
    × IsTimed s'
    × (s'.num_monitored ≡ 0)
    × (s'.num_ready ≡ 0)
    × (s'.used_time_events ≡ 0)
    × (epoll_fd : ℕ) × (s'.epoll_fd ≡ pos epoll_fd)
initialize-IsValid_example = initialize-IsValid kernel (pos 8) (pos 2) watch initialize_test

start_test : ((start two_watched).stopped ≡ false) × ((stop two_watched).stopped ≡ true)
unfolding start stop
start_test = (refl, refl)

-- A stopped object leaves the loop at once.
event_loop_test :
    event_loop kernel 1 9 (stop two_watched) watch ≡ finished (stop two_watched, watch)
unfolding event_loop stop
event_loop_test = refl

-- `epoll_wait` that fails changes nothing.
process_fd_events_test :
    process_fd_events kernel (pos 1) two_watched watch ≡ (negsuc 0, two_watched, watch)
unfolding process_fd_events
process_fd_events_test = refl
