-- ===== src/Poc/Loops.antt =====
-- What the loops leave behind.
use libnebula.Prelude.{
  ℕ, zero, suc, ◌+◌, ◌%◌, ◌≡◌, refl, ◌∙◌, ap, inl, inr, true, false, Bool-cases, Option, none, some,
  if◌then◌else◌, arith,
}
use libnebula.Thread.{compare_and_swap}
use libnebula.Mutex.{Pthread, Excludes}
use libnebula.Poc.{is_odd, turn, swap_loop, mutex_loop, evaluate_pthread_mutex, main}

-- From the word that the rounds before have left, every swap succeeds.
swap_loop-parity : (rounds i : ℕ) → swap_loop rounds i (i % 2) ≡ (rounds + i) % 2
unfolding swap_loop
swap_loop-parity zero i = ground arith
swap_loop-parity (suc rounds) i =
    let swapped : (if is_odd i
          then (compare_and_swap (i % 2) 1 0).1
          else (compare_and_swap (i % 2) 0 1).1)
        ≡ (i + 1) % 2 =
      ground arith in
    rw swapped (swap_loop-parity rounds (i + 1) ∙ ap (λ n. n % 2) (omega arith))

module _ {M : Type 0} (pt : Pthread M) (law : Excludes pt) (self : ℕ) where
  -- Who owns the mutex before round `i`.
  abbrev owner_at : ℕ → Option ℕ
  owner_at i = if is_odd i then some self else none

  turn-owner :
      (i : ℕ) (m : M)
      → pt.owner m ≡ owner_at i
      → (m' : M) × (turn pt self i m ≡ some m') × (pt.owner m' ≡ owner_at (i + 1))
  turn-owner i m h = elim (Bool-cases (is_odd i)) [
    | inl odd ↦
        let even' : is_odd (i + 1) ≡ false = ground arith in
        let mine : pt.owner m ≡ some self = h ∙ rw odd refl in
        ((pt.unlock self m).1, rw odd refl, rw even' (law.unlock_frees self m mine))
    | inr even ↦
        let odd' : is_odd (i + 1) ≡ true = ground arith in
        let free : pt.owner m ≡ none = h ∙ rw even refl in
        let (m', e) = law.lock_free self m free in
        (m', rw even e, rw odd' (law.lock_takes self m m' e).1)
  ]

  mutex_loop-owner :
      (rounds i : ℕ) (m : M)
      → pt.owner m ≡ owner_at i
      → (m' : M) × (mutex_loop pt self rounds i m ≡ some m') × (pt.owner m' ≡ owner_at (rounds + i))
  unfolding mutex_loop
  mutex_loop-owner zero i m h = (m, refl, h ∙ ap owner_at (omega arith))
  mutex_loop-owner (suc rounds) i m h =
      let (m1, e1, h1) = turn-owner i m h in
      let (m2, e2, h2) = mutex_loop-owner rounds (i + 1) m1 h1 in
      (m2, rw (e1, mutex_loop) e2, h2 ∙ ap owner_at (omega arith))

  -- evaluatePthreadMutex on a new mutex that excludes and that nobody owns: its loop ends. After an
  -- even number of rounds nobody owns the mutex, and it is unlocked once more; after an odd number
  -- the calling thread owns it, and it is not unlocked: main then destroys a mutex that is locked.
  -- The two words that main has swapped are 1 after an odd number of rounds and 0 after an even
  -- one.
  pub evaluate_pthread_mutex_lem :
      (n : ℕ)
      → (m : M) × (mutex_loop pt self n 0 pt.init ≡ some m)
        × (n % 2 ≡ 0 → (pt.owner m ≡ none) × (main pt self n ≡ some (0, 0, (pt.unlock self m).1)))
        × (n % 2 ≡ 1 → (pt.owner m ≡ some self) × (main pt self n ≡ some (1, 1, m)))
  unfolding main evaluate_pthread_mutex
  evaluate_pthread_mutex_lem n =
      let (m, e, h) = mutex_loop-owner n 0 pt.init law.init_free in
      let words : swap_loop n 0 0 ≡ n % 2 = swap_loop-parity n 0 ∙ ap (λ k. k % 2) (omega arith) in
      let at_n : owner_at (n + 0) ≡ owner_at n = ap owner_at (omega arith) in
      (
        m,
        e,
        λ even.
            let test : is_odd n ≡ false = ground arith in
            (h ∙ at_n ∙ rw test refl, rw (e, main) (rw (test, words, even) refl)),
        λ odd.
            let test : is_odd n ≡ true = ground arith in
            (h ∙ at_n ∙ rw test refl, rw (e, main) (rw (test, words, odd) refl)),
      )
