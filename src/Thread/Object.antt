-- ===== src/Thread/Object.antt =====
-- A Thread as an object, include/nebula/thread.h, over the calls of pthread as a parameter.
use libnebula.Prelude.{ℕ, ◌≡◌, sym, ap}
use libnebula.Thread.{Hook, start_handler, routine, exit_handler, start_routine}

-- The start routine of a new thread is given with what it does; it returns its exit status.
pub record Calls (W : Type 0) : Type 0 where
  pub attr_init : W → ℕ × W
  pub attr_destroy : W → ℕ × W
  pub create : (W → ℕ × W) → W → ℕ × ℕ × W
  pub join : ℕ → W → ℕ × ℕ × W
  pub cancel : ℕ → W → ℕ × W
  pub kill : ℕ → ℕ → W → ℕ × W

pub record Thread : Type 0 where
  pub stop : ℕ
  pub thread_id : ℕ

module _ {W : Type 0} (pt : Calls W) where
  -- The constructor and the destructor, which ignore the error codes.
  unfoldable pub thread : W → Thread × W
  thread w = (record { stop = 0; thread_id = 0 }, (pt.attr_init w).1)

  unfoldable pub destroy : Thread → W → W
  destroy t w = (pt.attr_destroy w).1

  -- `privateStartRoutine(this)`, where `run` has the methods of the subclass.
  unfoldable pub private_start_routine : (Hook → W → ℕ × W) → W → ℕ × W
  private_start_routine run w = start_routine run w

  -- The error code, and the thread with its identifier.
  unfoldable pub create : (Hook → W → ℕ × W) → Thread → W → ℕ × Thread × W
  unfolding private_start_routine
  create run t w =
      let (rc, id, w') = pt.create (private_start_routine run) w in
      (rc, record t { thread_id = id }, w')

  -- The error code, and what is left in `*retval`.
  unfoldable pub join : Thread → W → ℕ × ℕ × W
  join t w = pt.join t.thread_id w

  unfoldable pub cancel : Thread → W → ℕ × W
  cancel t w = pt.cancel t.thread_id w

  unfoldable pub self : Thread → ℕ
  self t = t.thread_id

  unfoldable pub kill : Thread → ℕ → W → ℕ × W
  kill t sig w = pt.kill t.thread_id sig w

-- What POSIX promises of a thread that is created and joined: its start routine is run, from some state
-- between the two calls, and the status that is left is what it returned.
abbrev pub Runs : {W : Type 0} → Calls W → Type 0
Runs {W} pt =
    (body : W → ℕ × W) (w w1 : W) (id : ℕ)
    → pt.create body w ≡ (0, id, w1)
    → (w0 : W) × (pt.join id w1 ≡ (0, (body w0).0, (body w0).1))

-- A thread that is created and then joined has called startHandler, routine and exitHandler, in this
-- order and each once, and its status is what routine returned; the stop flag is as it was.
create-join :
    {W : Type 0} (pt : Calls W) (promise : Runs pt) (run : Hook → W → ℕ × W) (t t1 : Thread)
    (w w1 : W)
    → create pt run t w ≡ (0, t1, w1)
    → (t1.stop ≡ t.stop)
      × ((w0 : W) × (join pt t1 w1 ≡ (
        0,
        (run routine (run start_handler w0).1).0,
        (run exit_handler (run routine (run start_handler w0).1).1).1,
      )))
unfolding create join private_start_routine start_routine
create-join {W} pt promise run t t1 w w1 h = (
  sym (ap (λ (r : ℕ × Thread × W). r.1.stop) h),
  promise (private_start_routine pt run) w w1 t1.thread_id
      (ap (λ (r : ℕ × Thread × W). (r.0, r.1.thread_id, r.2)) h),
)
