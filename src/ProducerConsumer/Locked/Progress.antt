-- ===== src/ProducerConsumer/Locked/Progress.antt =====
-- The lock holds nobody up for ever: whoever is in a method of the queue, somebody can go on.
use libnebula.Prelude.{ℕ, ◌≡◌, ◌≢◌, refl, ap, ◌∙◌, inl, inr, true, Option-cases, List, [], ◌∷◌}
use libnebula.Mutex.{Pthread, Excludes}
use libnebula.ProducerConsumer.Locked.{
  Method, Pc, idle, locking, pushing, testing, fronting, popping, counting, asking, unlocking,
  Queue, Outcome, blocked, undefined, goes, body, acquired, front, pop_front, move, inside, System,
  Reach,
}
use libnebula.ProducerConsumer.Locked.Moves.{Keeps}
use libnebula.ProducerConsumer.Locked.Safe.{Inv, thread-Keeps, Reach-Inv}

-- A step that goes on.
abbrev pub Goes : {M : Type 0} → Outcome M → Type 0
Goes {M} o = (q' : Queue M) × (p' : Pc) × (o ≡ goes q' p')

module _ {M : Type 0} (pt : Pthread M) (law : Excludes pt) where
  -- A step of a thread that is inside a method goes on.
  inside-blocked : (i : ℕ) (p : Pc) (q : Queue M) → inside p ≡ true → move pt i p q ≢ blocked
  unfolding move
  inside-blocked i idle q h = cc
  inside-blocked i (locking c) q h = cc
  inside-blocked i (pushing t) q h = cc
  inside-blocked i testing q h = cc
  inside-blocked i fronting q h = front-blocked q.items
    where
      front-blocked : (l : List ℕ) → front q l ≢ blocked
      front-blocked [] = cc
      front-blocked (t ∷ l) = cc
  inside-blocked i (popping t) q h = pop_front-blocked q.items
    where
      pop_front-blocked : (l : List ℕ) → pop_front q t l ≢ blocked
      pop_front-blocked [] = cc
      pop_front-blocked (u ∷ l) = cc
  inside-blocked i counting q h = cc
  inside-blocked i asking q h = cc
  inside-blocked i (unlocking r) q h = cc

  Keeps-Goes : (i : ℕ) (q : Queue M) (o : Outcome M) → Keeps pt i q o → o ≢ blocked → Goes o
  Keeps-Goes i q blocked k ne = absurd (ne refl)
  Keeps-Goes i q undefined k ne = absurd k
  Keeps-Goes i q (goes q' p') k ne = (q', p', refl)

  inside-Goes :
      (q : Queue M) (pc : ℕ → Pc) (j : ℕ)
      → Inv pt q pc
      → inside (pc j) ≡ true
      → Goes (move pt j (pc j) q)
  inside-Goes q pc j inv within =
      Keeps-Goes j q (move pt j (pc j) q) (thread-Keeps pt law q pc j inv)
        (inside-blocked j (pc j) q within)

  -- Whoever waits for the lock gets it, or its owner can go on.
  waiting-Goes :
      (q : Queue M) (pc : ℕ → Pc) (i : ℕ) (c : Method)
      → Inv pt q pc
      → pc i ≡ locking c
      → (j : ℕ) × Goes (move pt j (pc j) q)
  unfolding move
  waiting-Goes q pc i c inv at = elim (Option-cases (pt.owner q.lock)) [
    | inl free ↦
        let (m, e) = law.lock_free i q.lock free in
        (i, (record q { lock = m }, body c, ap (λ p. move pt i p q) at ∙ ap (acquired q c) e))
    | inr (j, owner) ↦ (j, inside-Goes q pc j inv (inv.held j owner))
  ]

  busy-Goes :
      (q : Queue M) (pc : ℕ → Pc) (i : ℕ) (p : Pc)
      → Inv pt q pc
      → pc i ≡ p
      → p ≢ idle
      → (j : ℕ) × Goes (move pt j (pc j) q)
  busy-Goes q pc i idle inv at busy = absurd (busy refl)
  busy-Goes q pc i (locking c) inv at busy = waiting-Goes q pc i c inv at
  busy-Goes q pc i (pushing t) inv at busy = (i, inside-Goes q pc i inv (ap inside at))
  busy-Goes q pc i testing inv at busy = (i, inside-Goes q pc i inv (ap inside at))
  busy-Goes q pc i fronting inv at busy = (i, inside-Goes q pc i inv (ap inside at))
  busy-Goes q pc i (popping t) inv at busy = (i, inside-Goes q pc i inv (ap inside at))
  busy-Goes q pc i counting inv at busy = (i, inside-Goes q pc i inv (ap inside at))
  busy-Goes q pc i asking inv at busy = (i, inside-Goes q pc i inv (ap inside at))
  busy-Goes q pc i (unlocking r) inv at busy = (i, inside-Goes q pc i inv (ap inside at))

  -- No deadlock over a mutex that excludes: in every state that any number of threads can reach, while
  -- a thread is in a method of the queue, some thread can take its next step.
  pub no_deadlock :
      {s : System M} (r : Reach pt s) (i : ℕ)
      → s.pc i ≢ idle
      → (j : ℕ) × Goes (move pt j (s.pc j) s.queue)
  no_deadlock {s} r i busy = busy-Goes s.queue s.pc i (s.pc i) (Reach-Inv pt law r) refl busy
