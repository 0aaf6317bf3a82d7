-- ===== src/ProducerConsumer/Locked/Linear.antt =====
-- The interleaved steps of the methods against the calls as wholes: each method takes effect in one of
-- its steps, and all other steps change nothing that a caller can see.
use libnebula.Prelude.{ℕ, ◌≡◌, refl, ap, ◌∙◌, map, Option, none, some, List, [], ◌∷◌, ◌++◌}
use mathlib.Core.Path.{subst}
use libnebula.Mutex.{Pthread, Excludes}
use libnebula.ProducerConsumer.{push_tasklet, pop_tasklet}
use libnebula.ProducerConsumer.Fifo
use libnebula.ProducerConsumer.Fifo.{State, Reach-fifo}
use libnebula.ProducerConsumer.Locked.{
  Method, Pc, idle, locking, pushing, testing, fronting, popping, counting, asking, unlocking,
  Queue, Outcome, blocked, undefined, goes, acquired, front, pop_front, move, System, note_push,
  note_pop, call, run, Reach, here, next,
}
use libnebula.ProducerConsumer.Locked.Moves.{IsFresh}
use libnebula.ProducerConsumer.Locked.Safe.{Reach-Inv}

-- What a caller can see of a system.
abbrev pub view : {M : Type 0} → System M → State
view s = record { items = s.queue.items; pushed = s.pushed; popped = s.popped }

module _ {M : Type 0} (pt : Pthread M) (i : ℕ) (q : Queue M) (pushed : List ℕ)
    (popped : List (ℕ × ℕ)) where
  -- The state of the queue with whole calls, after a step of thread `i` from `p`.
  abbrev Sees : Pc → Outcome M → Type 0
  Sees p blocked = Unit
  Sees p undefined = Unit
  Sees p (goes q' p') =
      Fifo.Reach Fifo.start
        (record { items = q'.items; pushed = note_push p pushed; popped = note_pop i p popped })

  abbrev Before : Type 0
  Before = Fifo.Reach Fifo.start (record { items = q.items; pushed = pushed; popped = popped })

  acquired-Sees : (c : Method) (o : Option M) → Before → Sees (locking c) (acquired q c o)
  acquired-Sees c none r = tt
  acquired-Sees c (some m) r = r

  front-Sees : (l : List ℕ) → Before → Sees fronting (front q l)
  front-Sees [] r = tt
  front-Sees (t ∷ l) r = r

  pop_front-Sees :
      (t : ℕ) (l : List ℕ)
      → q.items ≡ l
      → IsFresh (popping t) l
      → Before
      → Sees (popping t) (pop_front q t l)
  unfolding pop_tasklet
  pop_front-Sees t [] e fresh r = tt
  pop_front-Sees t (u ∷ l) e fresh r =
      let same : u ≡ t = cc fresh.1 in
      Fifo.next r (Fifo.pop _ i t l (ap pop_tasklet e ∙ ap (λ x. (some x, l)) same))

  move-Sees : (p : Pc) → IsFresh p q.items → Before → Sees p (move pt i p q)
  unfolding move push_tasklet
  move-Sees idle fresh r = tt
  move-Sees (locking c) fresh r = acquired-Sees c (pt.lock i q.lock) r
  move-Sees (pushing t) fresh r = Fifo.next r (Fifo.push _ t)
  move-Sees testing fresh r = r
  move-Sees fronting fresh r = front-Sees q.items r
  move-Sees (popping t) fresh r = pop_front-Sees t q.items refl fresh r
  move-Sees counting fresh r = r
  move-Sees asking fresh r = r
  move-Sees (unlocking a) fresh r = r

-- Over a mutex that excludes: every state that any number of threads can reach by the steps of
-- their calls, in any interleaving, looks to the callers like one that is reached by whole calls of
-- pushTasklet and popTasklet, one after the other: push takes effect in push_back, a pop that
-- returns a tasklet in pop_front, and all other steps, those of size, of isEmpty and of a pop that
-- returns NULL among them, change nothing.
pub Reach-linear :
    {M : Type 0} (pt : Pthread M) (law : Excludes pt) {s : System M}
    → Reach pt s
    → Fifo.Reach Fifo.start (view s)
Reach-linear pt law here = Fifo.here
Reach-linear pt law (next r (call i c p e same)) = Reach-linear pt law r
Reach-linear pt law (next {s} r (run i q p e)) =
    subst (Sees pt i s.queue s.pushed s.popped (s.pc i)) e (
      move-Sees pt i s.queue s.pushed s.popped (s.pc i) ((Reach-Inv pt law r).fresh i)
        (Reach-linear pt law r))

-- No tasklet is lost, handed out twice or overtaken by the steps of the threads: the tasklets that were
-- pushed are those that were handed out, in order, and those in the list.
Reach-conserves :
    {M : Type 0} (pt : Pthread M) (law : Excludes pt) {s : System M}
    → Reach pt s
    → s.pushed ≡ map (λ p. p.1) s.popped ++ s.queue.items
Reach-conserves pt law r = Reach-fifo (Reach-linear pt law r)
