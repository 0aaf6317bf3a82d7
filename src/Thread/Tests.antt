-- ===== src/Thread/Tests.antt =====
-- Runs of the thread's flag and start routine.
use libnebula.Prelude.{ℕ, ◌+◌, ◌≡◌, refl, ◌*◌}
use libnebula.Thread.{Hook, start_handler, routine, exit_handler, start_routine}
use libnebula.Thread.Object.{Calls, Thread, create, private_start_routine}

-- Each hook adds its digit to the state and returns it.
abbrev run : Hook → ℕ → ℕ × ℕ
run start_handler w = (1, w * 10 + 1)
run routine w = (2, w * 10 + 2)
run exit_handler w = (3, w * 10 + 3)

start_routine_test : start_routine run 0 ≡ (2, 123)
unfolding start_routine
start_routine_test = refl

-- A new thread runs at once, and its identifier is its exit status.
abbrev calls : Calls ℕ
calls = record {
  attr_init = λ w. (0, w);
  attr_destroy = λ w. (0, w);
  create = λ body w. let (status, w') = body w in (0, status, w');
  join = λ id w. (0, id, w);
  cancel = λ id w. (0, w);
  kill = λ id sig w. (0, w);
}

abbrev idle_thread : Thread
idle_thread = record { stop = 0; thread_id = 0 }

create_test : create calls run idle_thread 0 ≡ (0, record { stop = 0; thread_id = 2 }, 123)
unfolding create private_start_routine start_routine
create_test = refl
