-- ===== src/ProducerConsumer/Tests.antt =====
-- Runs of producers, queues and consumers.
use libnebula.Prelude.{ℕ, zero, suc, ◌≡◌, refl, true, false, some, List, [], ◌∷◌, ◌++◌, take, map}
use libnebula.ProducerConsumer.{
  Result, not_available, success, failed, Tasklet, fetch_tasklet_and_execute, push_tasklet,
  pop_tasklet, size, is_empty, destroy_queue, generate_tasklet_and_dispatch, producer_routine,
  dispatch_tasklet,
}
use libnebula.ProducerConsumer.Life.{deletions, deletions-life}
use libnebula.ProducerConsumer.Fifo.{State, push, pop, Reach, here, next, start, Reach-fifo}

abbrev process : ℕ → Result
process zero = not_available
process (suc zero) = failed
process (suc (suc n)) = success

deletions-life_example :
    let (made, left, queue, log) = generate_tasklet_and_dispatch 2 (5 ∷ 1 ∷ 7 ∷ []) (some []) [] in
    let (served, queue', log') = fetch_tasklet_and_execute process 1 queue log in
    (items : List ℕ) × (queue' ≡ some items)
    × (deletions (destroy_queue items log') ≡ take made (5 ∷ 1 ∷ 7 ∷ []))
deletions-life_example = deletions-life process 2 1 (5 ∷ 1 ∷ 7 ∷ [])

abbrev tasklet : ℕ → Tasklet
tasklet n = record { address = n; result = not_available }

-- Two pushes, and a pop by consumer 3 in between.
abbrev last : State
last = record { items = 8 ∷ []; pushed = 4 ∷ 8 ∷ []; popped = (3, 4) ∷ [] }

last-Reach : Reach start last
unfolding push_tasklet pop_tasklet
last-Reach = next (next (next here (push _ 4)) (pop _ 3 4 [] refl)) (push _ 8)

Reach-fifo_example : 4 ∷ 8 ∷ [] ≡ map (λ (p : ℕ × ℕ). p.1) ((3, 4) ∷ []) ++ 8 ∷ []
Reach-fifo_example = Reach-fifo last-Reach

-- A producer that goes on until its flag is set.
producer_routine_test :
    (producer_routine ((false, 5 ∷ 6 ∷ []) ∷ (true, 7 ∷ []) ∷ []) (some []) []).0
    ≡ some (5 ∷ 6 ∷ [])
unfolding producer_routine generate_tasklet_and_dispatch dispatch_tasklet push_tasklet
producer_routine_test = refl

size_test : (size (5 ∷ 6 ∷ []) ≡ 2) × (is_empty (5 ∷ 6 ∷ []) ≡ false)
unfolding size is_empty
size_test = (refl, refl)
