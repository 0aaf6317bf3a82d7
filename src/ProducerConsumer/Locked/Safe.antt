-- ===== src/ProducerConsumer/Locked/Safe.antt =====
-- The lock does its work: in every state that threads can reach, one thread at most is between lock and
-- unlock, and no access is undefined.
use libnebula.Prelude.{
  ℕ, ◌≡◌, ◌≢◌, refl, sym, ap, ◌∙◌, inl, inr, true, false, Bool-cases, some, List, [],
}
use mathlib.Core.Path.{subst}
use mathlib.Core.Logic.{if_pos, if_neg}
use native.Mathlib.Decide.{ℕ_discrete}
use libnebula.Mutex.{Pthread, Excludes}
use libnebula.ProducerConsumer.Locked.{
  Method, Reply, Pc, idle, locking, pushing, testing, fronting, popping, counting, asking,
  unlocking, Queue, Outcome, blocked, undefined, goes, move, inside, System, update, Step, call,
  run, Reach, here, next,
}
use libnebula.ProducerConsumer.Locked.Moves.{Answers, inj-some, IsFresh, Kept, Keeps, move-Keeps}

outside-IsFresh : (p : Pc) (items : List ℕ) → inside p ≡ false → IsFresh p items
outside-IsFresh idle items e = tt
outside-IsFresh (locking c) items e = tt
outside-IsFresh (pushing t) items e = tt
outside-IsFresh testing items e = tt
outside-IsFresh fronting items e = cc
outside-IsFresh (popping t) items e = cc
outside-IsFresh counting items e = tt
outside-IsFresh asking items e = tt
outside-IsFresh (unlocking r) items e = cc

-- What holds of the thread that moved and of each of the others.
update-each :
    (P : ℕ → Pc → Type 0) (pc : ℕ → Pc) (i : ℕ) (p : Pc)
    → P i p
    → ((j : ℕ) → i ≢ j → P j (pc j))
    → (j : ℕ) → P j (update pc i p j)
update-each P pc i p h rest j = elim (ℕ_discrete i j) [
  | yes e ↦ subst (λ x. P j x) (sym (if_pos (ℕ_discrete i j) e p (pc j))) (subst (λ k. P k p) e h)
  | no ne ↦ subst (λ x. P j x) (sym (if_neg (ℕ_discrete i j) ne p (pc j))) (rest j ne)
]

module _ {M : Type 0} (pt : Pthread M) where
  -- The owner of the lock is inside, nobody else is, and what threads know of the list is so.
  pub record Inv (q : Queue M) (pc : ℕ → Pc) : Type 0 where
    sole : (j : ℕ) → inside (pc j) ≡ true → pt.owner q.lock ≡ some j
    pub held : (j : ℕ) → pt.owner q.lock ≡ some j → inside (pc j) ≡ true
    pub fresh : (j : ℕ) → IsFresh (pc j) q.items

module _ {M : Type 0} (pt : Pthread M) (law : Excludes pt) where
  -- Thread `i` goes on to `q'` and `p'`.
  module _ (q q' : Queue M) (pc : ℕ → Pc) (i : ℕ) (p' : Pc) where
    other-fresh : (j : ℕ) → Inv pt q pc → Kept pt i q q' p' → i ≢ j → IsFresh (pc j) q'.items
    other-fresh j inv kept ne = elim (Bool-cases (inside (pc j))) [
      | inl within ↦
          subst (λ l. IsFresh (pc j) l) (sym (kept.others j ne (inv.sole j within)).1) (inv.fresh j)
      | inr out ↦ outside-IsFresh (pc j) q'.items out
    ]

    others_held :
        Kept pt i q q' p'
        → Inv pt q pc
        → (j : ℕ) → i ≢ j
        → pt.owner q'.lock ≡ some j
        → inside (pc j) ≡ true
    others_held kept inv j ne theirs = elim (kept.held j theirs) [
      | inl same ↦ absurd (ne same.0)
      | inr before ↦ inv.held j before.1
    ]

    own_held : Kept pt i q q' p' → pt.owner q'.lock ≡ some i → inside p' ≡ true
    own_held kept theirs = elim (kept.held i theirs) [
      | inl same ↦ same.1
      | inr other ↦ absurd (other.0 refl)
    ]

    Kept-Inv : Inv pt q pc → Kept pt i q q' p' → Inv pt q' (update pc i p')
    Kept-Inv inv kept = record {
      sole =
          update-each (λ j p. inside p ≡ true → pt.owner q'.lock ≡ some j) pc i p' kept.mine
            (λ j ne within. (kept.others j ne (inv.sole j within)).0);
      held =
          update-each (λ j p. pt.owner q'.lock ≡ some j → inside p ≡ true) pc i p' (own_held kept)
            (others_held kept inv);
      fresh =
          update-each (λ j p. IsFresh p q'.items) pc i p' kept.fresh
            (λ j ne. other-fresh j inv kept ne);
    }

  -- A thread that calls a method changes nothing of the queue.
  call-Kept :
      (q : Queue M) (pc : ℕ → Pc) (i : ℕ) (c : Method)
      → Inv pt q pc
      → pc i ≡ idle
      → Kept pt i q q (locking c)
  call-Kept q pc i c inv e = record {
    mine = λ h. cc;
    fresh = tt;
    others = λ j ne theirs. (theirs, refl);
    held = λ j theirs. inr (
      λ same.
          let within = inv.held j theirs in
          let out : inside (pc j) ≡ false = subst (λ k. inside (pc k) ≡ false) same (ap inside e) in
          cc,
      theirs,
    );
  }

  start-Inv : Inv pt (record { lock = pt.init; items = [] }) (λ i. idle)
  start-Inv = record {
    sole = λ j e. cc;
    held = λ j e. let free = law.init_free in cc;
    fresh = λ j. tt;
  }

  -- A step that a thread of the system takes.
  pub thread-Keeps :
      (q : Queue M) (pc : ℕ → Pc) (i : ℕ) → Inv pt q pc → Keeps pt i q (move pt i (pc i) q)
  thread-Keeps q pc i inv = move-Keeps pt law i q (pc i) (inv.sole i) (inv.fresh i)

  Step-Inv : {s t : System M} → Step pt s t → Inv pt s.queue s.pc → Inv pt t.queue t.pc
  Step-Inv {s} (call i c p e same) inv =
      subst (λ x. Inv pt s.queue (update s.pc i x)) (sym same)
        (Kept-Inv s.queue s.queue s.pc i (locking c) inv (call-Kept s.queue s.pc i c inv e))
  Step-Inv {s} (run i q p e) inv =
      Kept-Inv s.queue q s.pc i p inv
        (subst (λ o. Keeps pt i s.queue o) e (thread-Keeps s.queue s.pc i inv))

  pub Reach-Inv : {s : System M} → Reach pt s → Inv pt s.queue s.pc
  Reach-Inv here = start-Inv
  Reach-Inv (next r st) = Step-Inv st (Reach-Inv r)

  Keeps-ne : (i : ℕ) (q : Queue M) (o : Outcome M) → Keeps pt i q o → o ≢ undefined
  Keeps-ne i q blocked k e = cc
  Keeps-ne i q undefined k e = k
  Keeps-ne i q (goes q' p') k e = cc

  -- Over a mutex that excludes: in every state that any number of threads can reach by calls of
  -- pushTasklet, popTasklet, size and isEmpty, step by step and in any interleaving: two threads
  -- are never between lock and unlock together, so the list is never accessed by two at once; front
  -- and pop_front are never called on an empty list; and what size and isEmpty are about to return
  -- is so as long as they hold the lock.
  pub Reach-IsRaceFree :
      {s : System M} (r : Reach pt s) (i j : ℕ)
      → (inside (s.pc i) ≡ true → inside (s.pc j) ≡ true → i ≡ j)
        × (move pt i (s.pc i) s.queue ≢ undefined)
        × ((a : Reply) → s.pc i ≡ unlocking a → Answers a s.queue.items)
  Reach-IsRaceFree {s} r i j =
      let inv = Reach-Inv r in
      (
        λ one two. inj-some (sym (inv.sole i one) ∙ inv.sole j two),
        Keeps-ne i s.queue (move pt i (s.pc i) s.queue) (thread-Keeps s.queue s.pc i inv),
        λ a at. subst (λ p. IsFresh p s.queue.items) at (inv.fresh i),
      )
