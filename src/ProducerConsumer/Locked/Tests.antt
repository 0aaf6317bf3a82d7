-- ===== src/ProducerConsumer/Locked/Tests.antt =====
-- A thread pushes while another pops, step by step.
use libnebula.Prelude.{ℕ, ◌≡◌, ◌≢◌, refl, Option, none, some, List, [], ◌∷◌, map, true}
use native.Mathlib.Decide.{ℕ_discrete}
use libnebula.Mutex.Noting.{noting, noting-Excludes, take_free}
use libnebula.ProducerConsumer.Fifo
use libnebula.ProducerConsumer.Locked.{
  Method, push_tasklet, pop_tasklet, Reply, returned, tasklet, Pc, idle, locking, pushing, testing,
  fronting, popping, unlocking, Queue, undefined, goes, move, inside, System, start, Reach, here,
  next, call, run,
}
use libnebula.ProducerConsumer.Locked.Moves.{Answers}
use libnebula.ProducerConsumer.Locked.Safe.{Reach-IsRaceFree}
use libnebula.ProducerConsumer.Locked.Progress.{Goes, no_deadlock}
use libnebula.ProducerConsumer.Locked.Linear.{view, Reach-linear}

record Reached : Type 0 where
  last : System (Option ℕ)
  reach : Reach noting last

abbrev queue : Option ℕ → List ℕ → Queue (Option ℕ)
queue m l = record { lock = m; items = l }

abbrev calls : (i : ℕ) (c : Method) (a : Reached) → a.last.pc i ≡ idle → Reached
calls i c a e = record { last = _; reach = next a.reach (call i c (locking c) e refl) }

abbrev runs :
    (i : ℕ) (q : Queue (Option ℕ)) (p : Pc) (a : Reached)
    → move noting i (a.last.pc i) a.last.queue ≡ goes q p
    → Reached
runs i q p a e = record { last = _; reach = next a.reach (run i q p e) }

-- Thread 0 has pushed 7 and holds the lock, and thread 1 waits for it.
abbrev waiting : Reached
unfolding move take_free ℕ_discrete
waiting =
    let a0 : Reached = record { last = start noting; reach = here } in
    let a1 = calls 0 (push_tasklet 7) a0 refl in
    let a2 = calls 1 pop_tasklet a1 refl in
    let a3 = runs 0 (queue (some 0) []) (pushing 7) a2 refl in
    runs 0 (queue (some 0) (7 ∷ [])) (unlocking returned) a3 refl

-- Thread 1 has taken it.
abbrev taken : Reached
unfolding move take_free ℕ_discrete waiting
taken =
    let a4 = runs 0 (queue none (7 ∷ [])) idle waiting refl in
    let a5 = runs 1 (queue (some 1) (7 ∷ [])) testing a4 refl in
    let a6 = runs 1 (queue (some 1) (7 ∷ [])) fronting a5 refl in
    let a7 = runs 1 (queue (some 1) (7 ∷ [])) (popping 7) a6 refl in
    runs 1 (queue (some 1) []) (unlocking (tasklet (some 7))) a7 refl

Reach-linear_example : Fifo.Reach Fifo.start (view taken.last)
Reach-linear_example = Reach-linear noting noting-Excludes taken.reach

Reach-IsRaceFree_example :
    (inside (taken.last.pc 1) ≡ true → inside (taken.last.pc 1) ≡ true → ◌≡◌ {A = ℕ} 1 1)
    × (move noting 1 (taken.last.pc 1) taken.last.queue ≢ undefined)
    × ((a : Reply) → taken.last.pc 1 ≡ unlocking a → Answers a taken.last.queue.items)
Reach-IsRaceFree_example = Reach-IsRaceFree noting noting-Excludes taken.reach 1 1

no_deadlock_example : (j : ℕ) × Goes (move noting j (waiting.last.pc j) waiting.last.queue)
unfolding ℕ_discrete waiting
no_deadlock_example = no_deadlock noting noting-Excludes waiting.reach 1 (λ e. cc)

taken_test : map (λ p. p.1) taken.last.popped ≡ 7 ∷ []
unfolding taken
taken_test = refl
