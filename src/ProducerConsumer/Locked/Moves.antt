-- ===== src/ProducerConsumer/Locked/Moves.antt =====
-- What one step of one thread keeps, for itself and for the others.
use libnebula.Prelude.{
  ℕ, ◌≡◌, ◌≢◌, refl, sym, ap, ◌∙◌, ◌⊎◌, inl, true, Option, none, some, List, [], ◌∷◌, ◌++◌, length,
}
use libnebula.Mutex.{Pthread, Excludes}
use libnebula.ProducerConsumer.Locked.{
  Method, push_tasklet, pop_tasklet, size, is_empty, Reply, returned, tasklet, number, truth, Pc,
  idle, locking, pushing, testing, fronting, popping, counting, asking, unlocking, Queue, Outcome,
  blocked, undefined, goes, body, acquired, test_items, front, pop_front, has_none, move, inside,
}

-- What an answer says about the list while the lock is still held.
abbrev pub Answers : Reply → List ℕ → Type 0
Answers (tasklet none) items = items ≡ []
Answers (tasklet (some t)) items = Unit
Answers (number n) items = n ≡ length items
Answers (truth b) items = b ≡ has_none items
Answers returned items = Unit

-- What the place of a thread in a method says about the list.
abbrev pub IsFresh : Pc → List ℕ → Type 0
IsFresh fronting items = (t : ℕ) × (rest : List ℕ) × (items ≡ t ∷ rest)
IsFresh (popping t) items = (rest : List ℕ) × (items ≡ t ∷ rest)
IsFresh (unlocking r) items = Answers r items
IsFresh _ items = Unit

pub inj-some : {i j : ℕ} → some i ≡ some j → i ≡ j
inj-some e = cc

module _ {M : Type 0} (pt : Pthread M) (i : ℕ) (q : Queue M) where
  -- The thread knows the list and holds the lock while it is inside; another holder sees no change;
  -- and a holder is inside.
  pub record Kept (q' : Queue M) (p' : Pc) : Type 0 where
    pub mine : inside p' ≡ true → pt.owner q'.lock ≡ some i
    pub fresh : IsFresh p' q'.items
    pub others :
        (j : ℕ)
        → i ≢ j
        → pt.owner q.lock ≡ some j
        → (pt.owner q'.lock ≡ some j) × (q'.items ≡ q.items)
    pub held :
        (j : ℕ)
        → pt.owner q'.lock ≡ some j
        → ((i ≡ j) × (inside p' ≡ true)) ⊎ ((i ≢ j) × (pt.owner q.lock ≡ some j))

  -- Nothing that is undefined happens.
  abbrev pub Keeps : Outcome M → Type 0
  Keeps blocked = Unit
  Keeps undefined = ⊥
  Keeps (goes q' p') = Kept q' p'

  -- A step of the holder that does not unlock.
  stay :
      (q' : Queue M) (p' : Pc)
      → q'.lock ≡ q.lock
      → inside p' ≡ true
      → pt.owner q.lock ≡ some i
      → IsFresh p' q'.items
      → Kept q' p'
  stay q' p' same within mine fresh = record {
    mine = λ e. ap pt.owner same ∙ mine;
    fresh = fresh;
    others = λ j ne theirs. absurd (ne (inj-some (sym mine ∙ theirs)));
    held = λ j theirs. inl (inj-some (sym mine ∙ sym (ap pt.owner same) ∙ theirs), within);
  }

module _ {M : Type 0} (pt : Pthread M) (law : Excludes pt) (i : ℕ) (q : Queue M) where
  body-IsFresh : (c : Method) (items : List ℕ) → (inside (body c) ≡ true) × IsFresh (body c) items
  body-IsFresh (push_tasklet t) items = (refl, tt)
  body-IsFresh pop_tasklet items = (refl, tt)
  body-IsFresh size items = (refl, tt)
  body-IsFresh is_empty items = (refl, tt)

  acquired-Keeps :
      (c : Method) (o : Option M) → pt.lock i q.lock ≡ o → Keeps pt i q (acquired q c o)
  acquired-Keeps c none e = tt
  acquired-Keeps c (some m) e =
      let (free, mine) = law.lock_takes i q.lock m e in
      record {
        mine = λ h. mine;
        fresh = (body-IsFresh c q.items).1;
        others = λ j ne theirs. cc;
        held = λ j theirs. inl (inj-some (sym mine ∙ theirs), (body-IsFresh c q.items).0);
      }

  test_items-Keeps :
      (items : List ℕ)
      → q.items ≡ items
      → pt.owner q.lock ≡ some i
      → Keeps pt i q (goes q (test_items items))
  test_items-Keeps [] e mine = stay pt i q q (unlocking (tasklet none)) refl refl mine e
  test_items-Keeps (t ∷ items) e mine = stay pt i q q fronting refl refl mine (t, items, e)

  front-Keeps :
      (items : List ℕ)
      → q.items ≡ items
      → pt.owner q.lock ≡ some i
      → IsFresh fronting items
      → Keeps pt i q (front q items)
  front-Keeps [] e mine fresh = cc fresh.2
  front-Keeps (t ∷ items) e mine fresh = stay pt i q q (popping t) refl refl mine (items, e)

  pop_front-Keeps :
      (t : ℕ) (items : List ℕ)
      → pt.owner q.lock ≡ some i
      → IsFresh (popping t) items
      → Keeps pt i q (pop_front q t items)
  pop_front-Keeps t [] mine fresh = cc fresh.1
  pop_front-Keeps t (u ∷ items) mine fresh =
      stay pt i q (record q { items = items }) (unlocking (tasklet (some t))) refl refl mine tt

  unlock-Kept :
      pt.owner q.lock ≡ some i → Kept pt i q (record q { lock = (pt.unlock i q.lock).1 }) idle
  unlock-Kept mine =
      let free = law.unlock_frees i q.lock mine in
      record {
        mine = λ e. cc;
        fresh = tt;
        others = λ j ne theirs. absurd (ne (inj-some (sym mine ∙ theirs)));
        held = λ j theirs. cc;
      }

  -- One step of a thread that holds the lock while it is inside a method.
  pub move-Keeps :
      (p : Pc)
      → (inside p ≡ true → pt.owner q.lock ≡ some i)
      → IsFresh p q.items
      → Keeps pt i q (move pt i p q)
  unfolding move
  move-Keeps idle mine fresh = tt
  move-Keeps (locking c) mine fresh = acquired-Keeps c (pt.lock i q.lock) refl
  move-Keeps (pushing t) mine fresh =
      stay pt i q (record q { items = q.items ++ t ∷ [] }) (unlocking returned) refl refl
        (mine refl) tt
  move-Keeps testing mine fresh = test_items-Keeps q.items refl (mine refl)
  move-Keeps fronting mine fresh = front-Keeps q.items refl (mine refl) fresh
  move-Keeps (popping t) mine fresh = pop_front-Keeps t q.items (mine refl) fresh
  move-Keeps counting mine fresh =
      stay pt i q q (unlocking (number (length q.items))) refl refl (mine refl) refl
  move-Keeps asking mine fresh =
      stay pt i q q (unlocking (truth (has_none q.items))) refl refl (mine refl) refl
  move-Keeps (unlocking r) mine fresh = unlock-Kept (mine refl)
