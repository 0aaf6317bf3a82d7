-- ===== src/ProducerConsumer/Locked.antt =====
-- The methods of `Queue` step by step, include/nebula/producer_consumer.h, in any number of
-- threads: each call of pthread and each access to the list is a step of its own, and any thread
-- may step next.
pub mod Moves
pub mod Safe
pub mod Progress
pub mod Linear
mod Tests
use libnebula.Prelude.{ℕ, ◌≡◌, Bool, true, false, Option, none, some, List, [], ◌∷◌, ◌++◌, length}
use mathlib.Core.Logic.{ite}
use native.Mathlib.Decide.{ℕ_discrete}
use libnebula.Mutex.{Pthread}

-- The methods that are called while the queue lives.
pub data Method : Type 0 where
  push_tasklet : ℕ → Method
  pop_tasklet size is_empty : Method

-- What a method returns: nothing, a tasklet or NULL, a size, or whether there is no item.
pub data Reply : Type 0 where
  returned : Reply
  tasklet : Option ℕ → Reply
  number : ℕ → Reply
  truth : Bool → Reply

-- What a thread does next, with its local variables: nothing of the queue; `pthread_mutex_lock`;
-- `items_.push_back(t)`; `if (items_.size())`; `t = items_.front()`; `items_.pop_front()`;
-- `sz = items_.size()`; `result = items_.empty()`; `pthread_mutex_unlock` and `return`.
pub data Pc : Type 0 where
  idle : Pc
  locking : Method → Pc
  pushing : ℕ → Pc
  testing fronting : Pc
  popping : ℕ → Pc
  counting asking : Pc
  unlocking : Reply → Pc

-- The members of the queue.
pub record Queue (M : Type 0) : Type 0 where
  pub lock : M
  pub items : List ℕ

-- How a step ends: the thread has to wait, the behaviour is undefined, or the thread goes on.
pub data Outcome (M : Type 0) : Type 0 where
  blocked undefined : Outcome M
  goes : Queue M → Pc → Outcome M

-- The first access of each method under the lock.
abbrev pub body : Method → Pc
body (push_tasklet t) = pushing t
body pop_tasklet = testing
body size = counting
body is_empty = asking

abbrev pub acquired : {M : Type 0} → Queue M → Method → Option M → Outcome M
acquired q c none = blocked
acquired q c (some m) = goes (record q { lock = m }) (body c)

abbrev pub test_items : List ℕ → Pc
test_items [] = unlocking (tasklet none)
test_items (t ∷ items) = fronting

-- `front` and `pop_front` of an empty list are undefined.
abbrev pub front : {M : Type 0} → Queue M → List ℕ → Outcome M
front q [] = undefined
front q (t ∷ items) = goes q (popping t)

abbrev pub pop_front : {M : Type 0} → Queue M → ℕ → List ℕ → Outcome M
pop_front q t [] = undefined
pop_front q t (u ∷ items) = goes (record q { items = items }) (unlocking (tasklet (some t)))

abbrev pub has_none : List ℕ → Bool
has_none [] = true
has_none (t ∷ items) = false

module _ {M : Type 0} (pt : Pthread M) where
  -- One step of thread `i`.
  pub move : ℕ → Pc → Queue M → Outcome M
  move i idle q = blocked
  move i (locking c) q = acquired q c (pt.lock i q.lock)
  move i (pushing t) q = goes (record q { items = q.items ++ t ∷ [] }) (unlocking returned)
  move i testing q = goes q (test_items q.items)
  move i fronting q = front q q.items
  move i (popping t) q = pop_front q t q.items
  move i counting q = goes q (unlocking (number (length q.items)))
  move i asking q = goes q (unlocking (truth (has_none q.items)))
  move i (unlocking r) q = goes (record q { lock = (pt.unlock i q.lock).1 }) idle

-- Where a thread is between the return of `pthread_mutex_lock` and the call of `pthread_mutex_unlock`.
abbrev pub inside : Pc → Bool
inside idle = false
inside (locking c) = false
inside _ = true

-- All threads, and what the list has taken in and given out, in this order; with whom.
pub record System (M : Type 0) : Type 0 where
  pub queue : Queue M
  pub pc : ℕ → Pc
  pub pushed : List ℕ
  pub popped : List (ℕ × ℕ)

abbrev pub update : (ℕ → Pc) → ℕ → Pc → ℕ → Pc
update pc i p j = ite (ℕ_discrete i j) p (pc j)

abbrev pub note_push : Pc → List ℕ → List ℕ
note_push (pushing t) l = l ++ t ∷ []
note_push _ l = l

abbrev pub note_pop : ℕ → Pc → List (ℕ × ℕ) → List (ℕ × ℕ)
note_pop i (popping t) l = l ++ (i, t) ∷ []
note_pop i _ l = l

module _ {M : Type 0} (pt : Pthread M) where
  -- A new queue that no thread uses.
  abbrev pub start : System M
  start = record {
    queue = record { lock = pt.init; items = [] };
    pc = λ i. idle;
    pushed = [];
    popped = [];
  }

  -- A thread calls a method, or takes its next step in one.
  pub data Step (s : System M) : System M → Type 0 where
    call :
        (i : ℕ) (c : Method) (p : Pc)
        → s.pc i ≡ idle
        → p ≡ locking c
        → Step s (record s { pc = update s.pc i p })
    run :
        (i : ℕ) (q : Queue M) (p : Pc)
        → move pt i (s.pc i) s.queue ≡ goes q p
        → Step s (record {
          queue = q;
          pc = update s.pc i p;
          pushed = note_push (s.pc i) s.pushed;
          popped = note_pop i (s.pc i) s.popped;
        })

  pub data Reach : System M → Type 0 where
    here : Reach start
    next : {s t : System M} → Reach s → Step s t → Reach t
