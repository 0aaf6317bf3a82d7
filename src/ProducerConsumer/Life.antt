-- ===== src/ProducerConsumer/Life.antt =====
-- The life of the tasklets: their reports, and that each is deleted exactly once.
use libnebula.Prelude.{
  ℕ, ◌≡◌, refl, sym, ap, ap₂, ◌∙◌, Bool, true, false, Option, some, List, [], ◌∷◌, ◌++◌,
  append_assoc, append-nil, map, length, take, drop, take-append-drop,
}
use libnebula.ProducerConsumer.{
  Result, not_available, success, failed, aborted, cancelled, processed, reported, prepared,
  deleted, Log, Tasklet, switch, execute, fetch_tasklet_and_execute, consumer_routine,
  destroy_queue, generate_tasklet_and_dispatch,
}
use libnebula.ProducerConsumer.Flow.{
  quota, report_events, services, drops, preparations, fetch_tasklet_and_execute_lem,
  generate_tasklet_and_dispatch_lem,
}

-- The tasklets deleted in a log, in order.
pub deletions : Log → List ℕ
deletions [] = []
deletions (deleted t ∷ log) = t ∷ deletions log
deletions (processed t ∷ log) = deletions log
deletions (reported t r ∷ log) = deletions log
deletions (prepared t ∷ log) = deletions log

-- The reports of a log, in order.
pub reports : Log → List (ℕ × Result)
reports [] = []
reports (deleted t ∷ log) = reports log
reports (processed t ∷ log) = reports log
reports (reported t r ∷ log) = (t, r) ∷ reports log
reports (prepared t ∷ log) = reports log

deletions-append : (xs ys : Log) → deletions (xs ++ ys) ≡ deletions xs ++ deletions ys
unfolding deletions
deletions-append [] ys = refl
deletions-append (deleted t ∷ xs) ys = ap (λ l. t ∷ l) (deletions-append xs ys)
deletions-append (processed t ∷ xs) ys = deletions-append xs ys
deletions-append (reported t r ∷ xs) ys = deletions-append xs ys
deletions-append (prepared t ∷ xs) ys = deletions-append xs ys

deletions-report_events :
    (t : ℕ) (r : Result) (log : Log) → deletions (report_events t r ++ log) ≡ deletions log
unfolding deletions
deletions-report_events t not_available log = refl
deletions-report_events t success log = refl
deletions-report_events t failed log = refl
deletions-report_events t aborted log = refl
deletions-report_events t cancelled log = refl
deletions-report_events t (Result.other n) log = refl

deletions-services :
    (process : ℕ → Result) (items : List ℕ) → deletions (services process items) ≡ items
unfolding deletions
deletions-services process [] = refl
deletions-services process (t ∷ items) =
    ap deletions (
      append_assoc (prepared t ∷ processed t ∷ report_events t (process t)) (deleted t ∷ [])
        (services process items))
    ∙ deletions-report_events t (process t) (deleted t ∷ services process items)
    ∙ ap (λ l. t ∷ l) (deletions-services process items)

deletions-preparations : (supply : List ℕ) → deletions (preparations supply) ≡ []
unfolding deletions
deletions-preparations [] = refl
deletions-preparations (t ∷ supply) = deletions-preparations supply

deletions-drops : (supply : List ℕ) → deletions (drops supply) ≡ supply
unfolding deletions
deletions-drops [] = refl
deletions-drops (t ∷ supply) = ap (λ l. t ∷ l) (deletions-drops supply)

deletions-destroy_queue :
    (items : List ℕ) (log : Log) → deletions (destroy_queue items log) ≡ deletions log ++ items
unfolding deletions destroy_queue
deletions-destroy_queue [] log = sym (append-nil _)
deletions-destroy_queue (t ∷ items) log =
    deletions-destroy_queue items (log ++ reported t cancelled ∷ deleted t ∷ [])
    ∙ ap (λ l. l ++ items) (deletions-append log _)
    ∙ append_assoc (deletions log) (t ∷ []) items

reports-append : (xs ys : Log) → reports (xs ++ ys) ≡ reports xs ++ reports ys
unfolding reports
reports-append [] ys = refl
reports-append (deleted t ∷ xs) ys = reports-append xs ys
reports-append (processed t ∷ xs) ys = reports-append xs ys
reports-append (reported t r ∷ xs) ys = ap (λ l. (t, r) ∷ l) (reports-append xs ys)
reports-append (prepared t ∷ xs) ys = reports-append xs ys

reports-destroy_queue :
    (items : List ℕ) (log : Log)
    → reports (destroy_queue items log) ≡ reports log ++ map (λ t. (t, cancelled)) items
unfolding reports destroy_queue
reports-destroy_queue [] log = sym (append-nil _)
reports-destroy_queue (t ∷ items) log =
    reports-destroy_queue items (log ++ reported t cancelled ∷ deleted t ∷ [])
    ∙ ap (λ l. l ++ map (λ u. (u, cancelled)) items) (reports-append log _)
    ∙ append_assoc (reports log) ((t, cancelled) ∷ []) (map (λ u. (u, cancelled)) items)

-- The destructor of a queue reports CANCELLED for each item that is left, once and in order, and
-- deletes each once, in order.
destroy_queue_lem :
    (items : List ℕ)
    → (deletions (destroy_queue items []) ≡ items)
      × (reports (destroy_queue items []) ≡ map (λ t. (t, cancelled)) items)
unfolding deletions reports destroy_queue
destroy_queue_lem items = (deletions-destroy_queue items [], reports-destroy_queue items [])

-- From a producer through the queue and a consumer to the queue's destructor, whatever the limits
-- are: each tasklet that was generated is deleted, once, in the order of generation, and none else.
pub deletions-life :
    (process : ℕ → Result) (produce consume : ℕ) (supply : List ℕ)
    → let (made, left, queue, log) = generate_tasklet_and_dispatch produce supply (some []) [] in
      let (served, queue', log') = fetch_tasklet_and_execute process consume queue log in
      (items : List ℕ) × (queue' ≡ some items)
      × (deletions (destroy_queue items log') ≡ take made supply)
deletions-life process produce consume supply =
    let n = quota produce 0 (length supply) in
    let batch = take n supply in
    let k = quota consume 0 (length batch) in
    let log = preparations batch in
    let log' = log ++ services process (take k batch) in
    rw
      (
        (generate_tasklet_and_dispatch_lem produce supply [] []).0,
        (fetch_tasklet_and_execute_lem process consume batch log).0,
      )
      (
        drop k batch,
        refl,
        deletions-destroy_queue (drop k batch) log'
            ∙ ap (λ l. l ++ drop k batch)
                (deletions-append log (services process (take k batch))
                  ∙ ap₂ ◌++◌ (deletions-preparations batch)
                      (deletions-services process (take k batch)))
            ∙ take-append-drop k batch,
      )

-- The values of `process` that `execute` has an arm of its own for, NOT_AVAILABLE aside.
abbrev IsFinal : Result → Type 0
IsFinal not_available = ⊥
IsFinal success = Unit
IsFinal failed = Unit
IsFinal aborted = Unit
IsFinal cancelled = Unit
IsFinal (Result.other n) = ⊥

switched :
    (r : Result) (t : Tasklet) (a : ℕ)
    → IsFinal r
    → ((switch r (t, processed a ∷ [])).0 ≡ record t { result = r })
      × (reports (switch r (t, processed a ∷ [])).1 ≡ (t.address, r) ∷ [])
unfolding reports
switched not_available t a h = absurd h
switched success t a h = (refl, refl)
switched failed t a h = (refl, refl)
switched aborted t a h = (refl, refl)
switched cancelled t a h = (refl, refl)
switched (Result.other n) t a h = absurd h

-- Where `process` returns SUCCESS, FAILED, ABORTED or CANCELLED, `execute` leaves that result in
-- the tasklet and reports it, once.
execute_lem :
    (process : ℕ → Result) (t : Tasklet)
    → IsFinal (process t.address)
    → ((execute process t []).0 ≡ record t { result = process t.address })
      × (reports (execute process t []).1 ≡ (t.address, process t.address) ∷ [])
unfolding execute
execute_lem process t final = switched (process t.address) t t.address final

-- Where `process` returns NOT_AVAILABLE, `execute` leaves the tasklet with SUCCESS, and reports
-- both, one after the other.
execute-not_available :
    (process : ℕ → Result) (t : Tasklet)
    → process t.address ≡ not_available
    → ((execute process t []).0 ≡ record t { result = success })
      × (reports (execute process t []).1 ≡ (t.address, not_available) ∷ (t.address, success) ∷ [])
unfolding execute reports
execute-not_available process t e = rw e (refl, refl)

-- A consumer that nobody told to stop, so that its flag reads 0 first, leaves `routine` without
-- fetching a single tasklet; and one that was told to stop serves the whole queue in each round.
consumer_routine_lem :
    (process : ℕ → Result) (flags : List Bool) (items : List ℕ) (log : Log)
    → (consumer_routine process (false ∷ flags) (some items) log ≡ (some items, log))
      × (consumer_routine process (true ∷ flags) (some items) log
          ≡ consumer_routine process flags (some []) (log ++ services process items))
unfolding consumer_routine
consumer_routine_lem process flags items log = (
  refl,
  ap (λ (r : ℕ × Option (List ℕ) × Log). consumer_routine process flags r.1 r.2)
        (fetch_tasklet_and_execute_lem process 0 items log).0
      ∙ ap₂ (λ (d t : List ℕ). consumer_routine process flags (some d) (log ++ services process t))
          (whole items).1 (whole items).0,
)
  where
    whole : (l : List ℕ) → (take (length l) l ≡ l) × (drop (length l) l ≡ [])
    whole [] = (refl, refl)
    whole (x ∷ l) = (ap (λ t. x ∷ t) (whole l).0, (whole l).1)
