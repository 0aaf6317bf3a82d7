-- ===== src/ProducerConsumer/Flow.antt =====
-- Which tasklets are served, in which order, and that each is deleted once.
use libnebula.Prelude.{
  ℕ, zero, suc, ◌+◌, ◌-◌, min, ◌≡◌, refl, sym, ap, ap₂, ◌∙◌, inl, inr, ◌||◌, none, some, List, [],
  ◌∷◌, ◌++◌, append_assoc, append-nil, arith, ltb, ◌==◌, if◌then◌else◌, length, take, drop,
  Bool-cases,
}
use libnebula.ProducerConsumer.{
  Result, not_available, success, failed, aborted, cancelled, processed, reported, prepared,
  deleted, Log, Tasklet, switch, execute, serve, fetch_loop, fetch_tasklet_and_execute,
  push_tasklet, dispatch_tasklet, generate_loop, generate_tasklet_and_dispatch,
}

-- What happens to a tasklet that `process` answers with `r`.
abbrev pub report_events : ℕ → Result → Log
report_events t not_available = reported t not_available ∷ reported t success ∷ []
report_events t success = reported t success ∷ []
report_events t failed = reported t failed ∷ []
report_events t aborted = reported t aborted ∷ []
report_events t cancelled = reported t cancelled ∷ []
report_events t (Result.other n) = []

-- How many tasklets a loop takes: all of them if the limit is 0.
abbrev pub quota : ℕ → ℕ → ℕ → ℕ
quota limit count available = if limit == 0 then available else min (limit - count) available

module _ (process : ℕ → Result) where
  -- The events of a tasklet that is fetched: prepared, processed, reported, deleted.
  abbrev service : ℕ → Log
  service t = prepared t ∷ processed t ∷ (report_events t (process t) ++ deleted t ∷ [])

  abbrev pub services : List ℕ → Log
  services [] = []
  services (t ∷ items) = service t ++ services items

  switch-log :
      (r : Result) (t : Tasklet) (log : Log)
      → (switch r (t, log)).1 ≡ log ++ report_events t.address r
  switch-log not_available t log = append_assoc log _ _
  switch-log success t log = refl
  switch-log failed t log = refl
  switch-log aborted t log = refl
  switch-log cancelled t log = refl
  switch-log (Result.other n) t log = sym (append-nil log)

  serve-service : (t : ℕ) (log : Log) → serve process t log ≡ log ++ service t
  unfolding execute
  serve-service t log = rw (switch-log (process t)) (simp append_assoc)

  fetch_loop_lem :
      (limit count k : ℕ) (items : List ℕ) (log : Log)
      → k ≡ quota limit count (length items)
      → fetch_loop process limit count items log
        ≡ (count + k, drop k items, log ++ services (take k items))
  unfolding fetch_loop
  fetch_loop_lem limit count zero [] log e = ground (arith, append-nil log)
  fetch_loop_lem limit count (suc k) [] log e = absurd (ground arith)
  fetch_loop_lem limit count zero (t ∷ items) log e = ground (arith, append-nil log)
  fetch_loop_lem limit count (suc k) (t ∷ items) log e =
      elim (Bool-cases (limit == 0 || ltb count limit)) [
        | inr stop ↦ absurd (ground arith)
        | inl more ↦ rw more (
            fetch_loop_lem limit (count + 1) k items (serve process t log) (ground arith)
            ∙ ap₂ (λ (n : ℕ) (l : Log). (n, drop k items, l)) (omega arith)
                (ap (λ l. l ++ services (take k items)) (serve-service t log)
                  ∙ append_assoc log (service t) (services (take k items))))
      ]

  -- `fetchTaskletAndExecute` on a queue takes as many tasklets as it holds, but at most `limit`
  -- unless that is 0. It takes them from the front, in order, leaves the others, and returns their
  -- number; each is prepared, processed, reported and deleted, once, before the next is fetched.
  -- With no queue attached it does nothing and returns 0.
  pub fetch_tasklet_and_execute_lem :
      (limit : ℕ) (items : List ℕ) (log : Log)
      → let k = quota limit 0 (length items) in
        (fetch_tasklet_and_execute process limit (some items) log
          ≡ (k, some (drop k items), log ++ services (take k items)))
        × (fetch_tasklet_and_execute process limit none log ≡ (0, none, log))
  unfolding fetch_tasklet_and_execute
  fetch_tasklet_and_execute_lem limit items log = (
    rw (fetch_loop_lem limit 0 (quota limit 0 (length items)) items log refl) (ground arith),
    refl,
  )

-- The events of a tasklet that is generated with no queue to put it into.
abbrev pub drops : List ℕ → Log
drops [] = []
drops (t ∷ supply) = prepared t ∷ deleted t ∷ drops supply

abbrev pub preparations : List ℕ → Log
preparations [] = []
preparations (t ∷ supply) = prepared t ∷ preparations supply

generate_loop_attached :
    (limit count k : ℕ) (supply items : List ℕ) (log : Log)
    → k ≡ quota limit count (length supply)
    → generate_loop limit count supply (some items) log ≡ (
      count + k,
      drop k supply,
      some (items ++ take k supply),
      log ++ preparations (take k supply),
    )
unfolding generate_loop dispatch_tasklet push_tasklet
generate_loop_attached limit count zero [] items log e =
    ground (arith, append-nil log, append-nil items)
generate_loop_attached limit count (suc k) [] items log e = absurd (ground arith)
generate_loop_attached limit count zero (t ∷ supply) items log e =
    ground (arith, append-nil log, append-nil items)
generate_loop_attached limit count (suc k) (t ∷ supply) items log e =
    elim (Bool-cases (limit == 0 || ltb count limit)) [
      | inr stop ↦ absurd (ground arith)
      | inl more ↦ rw more (
          generate_loop_attached limit (count + 1) k supply (items ++ t ∷ [])
            (log ++ prepared t ∷ []) (ground arith)
          ∙ ground (
            arith,
            append_assoc items (t ∷ []) (take k supply),
            append_assoc log (prepared t ∷ []) (preparations (take k supply)),
          ))
    ]

generate_loop_detached :
    (limit count k : ℕ) (supply : List ℕ) (log : Log)
    → k ≡ quota limit count (length supply)
    → generate_loop limit count supply none log
      ≡ (count + k, drop k supply, none, log ++ drops (take k supply))
unfolding generate_loop dispatch_tasklet
generate_loop_detached limit count zero [] log e = ground (arith, append-nil log)
generate_loop_detached limit count (suc k) [] log e = absurd (ground arith)
generate_loop_detached limit count zero (t ∷ supply) log e = ground (arith, append-nil log)
generate_loop_detached limit count (suc k) (t ∷ supply) log e =
    elim (Bool-cases (limit == 0 || ltb count limit)) [
      | inr stop ↦ absurd (ground arith)
      | inl more ↦ rw more (
          generate_loop_detached limit (count + 1) k supply
            ((log ++ prepared t ∷ []) ++ deleted t ∷ []) (ground arith)
          ∙ ground (
            arith,
            append_assoc log (prepared t ∷ []) (deleted t ∷ []),
            append_assoc log (prepared t ∷ deleted t ∷ []) (drops (take k supply)),
          ))
    ]

-- `generateTaskletAndDispatch` generates as many tasklets as there are, but at most `limit` unless
-- that is 0, and returns their number. Attached to a queue it appends them to it in order; with no
-- queue it deletes each.
pub generate_tasklet_and_dispatch_lem :
    (limit : ℕ) (supply items : List ℕ) (log : Log)
    → let k = quota limit 0 (length supply) in
      (generate_tasklet_and_dispatch limit supply (some items) log
        ≡ (k, drop k supply, some (items ++ take k supply), log ++ preparations (take k supply)))
      × (generate_tasklet_and_dispatch limit supply none log
          ≡ (k, drop k supply, none, log ++ drops (take k supply)))
unfolding generate_tasklet_and_dispatch
generate_tasklet_and_dispatch_lem limit supply items log =
    let k = quota limit 0 (length supply) in
    (
      rw (generate_loop_attached limit 0 k supply items log refl) (ground arith),
      rw (generate_loop_detached limit 0 k supply log refl) (ground arith),
    )
