-- ===== src/ProducerConsumer.antt =====
-- Tasklets, their queue, and the threads that fill and empty it, include/nebula/producer_consumer.h.
-- A tasklet is known by its address. What the virtual methods of its class do is not part of the
-- code: `process` is a parameter, and every call of a hook is an event in a log. A queue operation
-- holds the lock from its first to its last access, and is one step here; Locked has its single
-- steps.
pub mod Flow
pub mod Fifo
pub mod Life
pub mod Locked
pub mod Named
mod Tests
use libnebula.Prelude.{
  ℕ, zero, suc, ◌+◌, Bool, true, false, ◌&&◌, ◌||◌, not, Option, none, some, List, [], ◌∷◌, ◌++◌,
  ltb, ◌==◌, if◌then◌else◌, length,
}

-- `Tasklet::Result::Constants`; `process` may also return a number outside it.
pub data Result : Type 0 where
  not_available success failed aborted cancelled : Result
  other : ℕ → Result

-- The calls that a run makes, with the tasklet that they are for.
pub data Event : Type 0 where
  processed : ℕ → Event
  reported : ℕ → Result → Event
  prepared : ℕ → Event
  deleted : ℕ → Event

abbrev pub Log : Type 0
Log = List Event

pub record Tasklet : Type 0 where
  pub address : ℕ
  pub result : Result

-- One arm of the switch in `execute`: `result_ = r; reportResult(result_)`.
abbrev conclude : Result → Tasklet × Log → Tasklet × Log
conclude r (t, log) = (record t { result = r }, log ++ reported t.address r ∷ [])

-- The switch. The arm of NOT_AVAILABLE has no `break`, and runs into that of SUCCESS.
abbrev pub switch : Result → Tasklet × Log → Tasklet × Log
switch not_available s = conclude success (conclude not_available s)
switch success s = conclude success s
switch failed s = conclude failed s
switch aborted s = conclude aborted s
switch cancelled s = conclude cancelled s
switch (other n) s = s

module _ (process : ℕ → Result) where
  pub execute : Tasklet → Log → Tasklet × Log
  execute t log = switch (process t.address) (t, log ++ processed t.address ∷ [])

  -- A round of `fetchTaskletAndExecute` on a tasklet that was fetched.
  abbrev pub serve : ℕ → Log → Log
  serve t log =
      let (t', log') =
        execute (record { address = t; result = not_available }) (log ++ prepared t ∷ []) in
      log' ++ deleted t ∷ []

  -- The loop of `fetchTaskletAndExecute`, over the items of the queue: the count, the items that
  -- are left, and the log. No thread touches the queue meanwhile.
  pub fetch_loop : ℕ → ℕ → List ℕ → Log → ℕ × List ℕ × Log
  fetch_loop limit count [] log = (count, [], log)
  fetch_loop limit count (t ∷ items) log =
      let rest = fetch_loop limit (count + 1) items (serve t log) in
      if limit == 0 || ltb count limit then rest else (count, t ∷ items, log)

  -- The queue of the thread, if it is attached to one.
  pub fetch_tasklet_and_execute : ℕ → Option (List ℕ) → Log → ℕ × Option (List ℕ) × Log
  unfolding fetch_loop
  fetch_tasklet_and_execute limit none log = (0, none, log)
  fetch_tasklet_and_execute limit (some items) log =
      let (count, items', log') = fetch_loop limit 0 items log in (count, some items', log')

  -- `Consumer::routine`: the values that `getStopFlag` returns, one for each test of the loop.
  pub consumer_routine : List Bool → Option (List ℕ) → Log → Option (List ℕ) × Log
  consumer_routine [] queue log = (queue, log)
  consumer_routine (false ∷ flags) queue log = (queue, log)
  consumer_routine (true ∷ flags) queue log =
      let (count, queue', log') = fetch_tasklet_and_execute 0 queue log in
      consumer_routine flags queue' log'

-- `Queue`: `pushTasklet`, `popTasklet`, `size`, `isEmpty` and the destructor.
pub push_tasklet : ℕ → List ℕ → List ℕ
push_tasklet t items = items ++ t ∷ []

pub pop_tasklet : List ℕ → Option ℕ × List ℕ
pop_tasklet [] = (none, [])
pop_tasklet (t ∷ items) = (some t, items)

unfoldable pub size : List ℕ → ℕ
size items = length items

unfoldable pub is_empty : List ℕ → Bool
is_empty [] = true
is_empty (t ∷ items) = false

pub destroy_queue : List ℕ → Log → Log
destroy_queue [] log = log
destroy_queue (t ∷ items) log = destroy_queue items (log ++ reported t cancelled ∷ deleted t ∷ [])

-- `dispatchTasklet`
pub dispatch_tasklet : ℕ → Option (List ℕ) → Bool × Option (List ℕ)
dispatch_tasklet t none = (false, none)
dispatch_tasklet t (some items) = (true, some (push_tasklet t items))

-- The loop of `generateTaskletAndDispatch`. The list holds what `generateNextTasklet` returns, NULL
-- after its end; the result has what it would return next.
pub generate_loop : ℕ → ℕ → List ℕ → Option (List ℕ) → Log → ℕ × List ℕ × Option (List ℕ) × Log
generate_loop limit count [] queue log = (count, [], queue, log)
generate_loop limit count (t ∷ supply) queue log =
    let (done, queue') = dispatch_tasklet t queue in
    let ready = log ++ prepared t ∷ [] in
    let rest =
      generate_loop limit (count + 1) supply queue'
        (if done then ready else ready ++ deleted t ∷ []) in
    if limit == 0 || ltb count limit then rest else (count, t ∷ supply, queue, log)

pub generate_tasklet_and_dispatch :
    ℕ → List ℕ → Option (List ℕ) → Log → ℕ × List ℕ × Option (List ℕ) × Log
unfolding generate_loop
generate_tasklet_and_dispatch limit supply queue log = generate_loop limit 0 supply queue log

-- `Producer::routine`: the flags that its loop reads, each with what `generateNextTasklet` has to
-- give in that round before it returns NULL.
unfoldable pub producer_routine :
    List (Bool × List ℕ) → Option (List ℕ) → Log → Option (List ℕ) × Log
producer_routine [] queue log = (queue, log)
producer_routine ((true, supply) ∷ rounds) queue log = (queue, log)
producer_routine ((false, supply) ∷ rounds) queue log =
    let (count, left, queue', log') = generate_tasklet_and_dispatch 0 supply queue log in
    producer_routine rounds queue' log'
