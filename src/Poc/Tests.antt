-- ===== src/Poc/Tests.antt =====
-- Runs of the loops.
use libnebula.Prelude.{ℕ, ◌%◌, ◌≡◌, refl, Option, none, some}
use libnebula.Mutex.Noting.{noting, noting-Excludes, take_free}
use libnebula.Poc.{swap_loop, mutex_loop, evaluate_pthread_mutex, main}
use libnebula.Poc.Loops.{evaluate_pthread_mutex_lem}

evaluate_pthread_mutex_lem_example :
    (m : Option ℕ) × (mutex_loop noting 4 3 0 noting.init ≡ some m)
    × (3 % 2 ≡ 0 → (noting.owner m ≡ none) × (main noting 4 3 ≡ some (0, 0, (noting.unlock 4 m).1)))
    × (3 % 2 ≡ 1 → (noting.owner m ≡ some 4) × (main noting 4 3 ≡ some (1, 1, m)))
evaluate_pthread_mutex_lem_example = evaluate_pthread_mutex_lem noting noting-Excludes 4 3

-- After an odd number of rounds the mutex is still locked.
main_test : main noting 4 5 ≡ some (1, 1, some 4)
unfolding main evaluate_pthread_mutex mutex_loop swap_loop take_free
main_test = refl
