-- ===== src/ProducerConsumer/Named.antt =====
-- The results of tasklets as texts, and the queue that a thread is attached to,
-- include/nebula/producer_consumer.h.
mod Tests
use Prim.Native.String
use Prim.Native.String.{String}
use text.Mathlib.Text.{◌==◌}
use libnebula.Prelude.{
  ℕ, ◌≡◌, ◌≢◌, refl, sym, ap, ◌∙◌, Option, none, some, List, [], ◌∷◌, ◌++◌, if◌then◌else◌,
}
use libnebula.ProducerConsumer.{
  Result, not_available, success, failed, aborted, cancelled, other, processed, reported, Event,
  Log, Tasklet, pop_tasklet, switch, execute, serve, fetch_tasklet_and_execute,
}

-- `Result::toString`
unfoldable pub to_string : Result → String
to_string not_available = "NOT_AVAILABLE"
to_string success = "SUCCESS"
to_string failed = "FAILED"
to_string aborted = "ABORTED"
to_string cancelled = "CANCELLED"
to_string (other n) = "<unknown>"

-- The constructor, `getResult` and `getResultStr`.
unfoldable pub tasklet : ℕ → Tasklet
tasklet address = record { address = address; result = not_available }

unfoldable get_result : Tasklet → Result
get_result t = t.result

unfoldable pub get_result_str : Tasklet → String
unfolding to_string
get_result_str t = to_string t.result

-- `Tasklet::toString`
unfoldable pub describe : Tasklet → String
unfolding to_string
describe t = String.◌++◌ "Tasklet{result_:" (String.◌++◌ (to_string t.result) "}")

-- The constructors of `ProdConsThread` and `Consumer`, `attachToQueue` and `detachFromQueue`: the new
-- `tasklet_queue_`, `none` for NULL.
unfoldable attach_to_queue : Option (List ℕ) → Option (List ℕ) → Option (List ℕ)
attach_to_queue q old = q

unfoldable detach_from_queue : Option (List ℕ) → Option (List ℕ)
detach_from_queue old = none

unfoldable prod_cons_thread : Option (List ℕ) → Option (List ℕ)
unfolding attach_to_queue
prod_cons_thread q = attach_to_queue q q

-- `fetchNextTasklet`: the tasklet or NULL, and the queue.
unfoldable fetch_next_tasklet : Option (List ℕ) → Option ℕ × Option (List ℕ)
unfolding pop_tasklet
fetch_next_tasklet none = (none, none)
fetch_next_tasklet (some items) = let (t, items') = pop_tasklet items in (t, some items')

-- What `fetchTaskletAndExecute` with the limit 1 does with the tasklet that is fetched, if there is
-- one.
abbrev serve_next : (ℕ → Result) → Log → Option ℕ × Option (List ℕ) → ℕ × Option (List ℕ) × Log
serve_next process log (none, queue) = (0, queue, log)
serve_next process log (some t, queue) = (1, queue, serve process t log)

-- A loop of one round of fetchTaskletAndExecute fetches the next tasklet, from a queue that is
-- attached and not empty, and serves it; on an empty queue, or detached, it does nothing.
fetch_tasklet_and_execute-one :
    (process : ℕ → Result) (queue : Option (List ℕ)) (log : Log)
    → (fetch_tasklet_and_execute process 1 queue log
        ≡ serve_next process log (fetch_next_tasklet queue))
      × (fetch_tasklet_and_execute process 1 (detach_from_queue queue) log ≡ (0, none, log))
unfolding fetch_next_tasklet detach_from_queue fetch_tasklet_and_execute
fetch_tasklet_and_execute-one process none log = (refl, refl)
fetch_tasklet_and_execute-one process (some []) log = (refl, refl)
fetch_tasklet_and_execute-one process (some (t ∷ [])) log = (refl, refl)
fetch_tasklet_and_execute-one process (some (t ∷ u ∷ items)) log = (refl, refl)

-- What the text says.
abbrev pub named : String → Result
named s =
    if s == "NOT_AVAILABLE"
    then not_available
    else if s == "SUCCESS"
    then success
    else if s == "FAILED"
    then failed
    else if s == "ABORTED"
    then aborted
    else if s == "CANCELLED"
    then cancelled
    else other 0

named-to_string : (r : Result) → ((n : ℕ) → r ≢ other n) → named (to_string r) ≡ r
unfolding to_string
named-to_string not_available h = refl
named-to_string success h = refl
named-to_string failed h = refl
named-to_string aborted h = refl
named-to_string cancelled h = refl
named-to_string (other n) h = absurd (h n refl)

-- The result that `execute` leaves for what `process` returns.
abbrev settled : Result → Result → Result
settled not_available old = success
settled (other n) old = old
settled r old = r

-- After execute, getResult and getResultStr of the tasklet tell what process returned, unless that
-- was NOT_AVAILABLE, which they tell as SUCCESS, or no result at all, which leaves what was there;
-- the text is that of the result alone, since different results of the enumeration have different
-- texts.
get_result-execute :
    (process : ℕ → Result) (t : Tasklet) (log : Log) (r : Result)
    → ((n : ℕ) → r ≢ other n)
    → (get_result (execute process t log).0 ≡ settled (process t.address) t.result)
      × (get_result_str (execute process t log).0
          ≡ to_string (settled (process t.address) t.result))
      × (to_string (settled (process t.address) t.result) ≡ to_string r
          → ((n : ℕ) → settled (process t.address) t.result ≢ other n)
          → settled (process t.address) t.result ≡ r)
unfolding get_result get_result_str execute
get_result-execute process t log r named_r = (
  switched (process t.address),
  ap to_string (switched (process t.address)),
  λ same in_enum.
      sym (named-to_string (settled (process t.address) t.result) in_enum)
      ∙ ap named same
      ∙ named-to_string r named_r,
)
  where
    switched :
        (p : Result) → (switch p (t, log ++ processed t.address ∷ [])).0.result ≡ settled p t.result
    switched not_available = refl
    switched success = refl
    switched failed = refl
    switched aborted = refl
    switched cancelled = refl
    switched (other n) = refl
