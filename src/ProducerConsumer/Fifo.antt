-- ===== src/ProducerConsumer/Fifo.antt =====
-- Any number of producers and consumers on one queue, in any interleaving of their calls.
use libnebula.Prelude.{
  ℕ, ◌≡◌, refl, sym, ap, ◌∙◌, none, some, List, [], ◌∷◌, ◌++◌, append_assoc, map,
}
use libnebula.ProducerConsumer.{push_tasklet, pop_tasklet}

-- The queue, with what was pushed and what each consumer got, in the order of the calls.
pub record State : Type 0 where
  pub items : List ℕ
  pub pushed : List ℕ
  pub popped : List (ℕ × ℕ)

-- One call of `pushTasklet` or `popTasklet`, which holds the lock; `consumer` is the calling thread.
pub data Step : State → State → Type 0 where
  push :
      (s : State) (t : ℕ)
      → Step s (record s { items = push_tasklet t s.items; pushed = s.pushed ++ t ∷ [] })
  pop :
      (s : State) (consumer t : ℕ) (rest : List ℕ)
      → pop_tasklet s.items ≡ (some t, rest)
      → Step s (record s { items = rest; popped = s.popped ++ (consumer, t) ∷ [] })
  miss :
      (s : State) (consumer : ℕ) (rest : List ℕ)
      → pop_tasklet s.items ≡ (none, rest)
      → Step s (record s { items = rest })

pub data Reach (s : State) : State → Type 0 where
  here : Reach s s
  next : {t u : State} → Reach s t → Step t u → Reach s u

abbrev pub start : State
start = record { items = []; pushed = []; popped = [] }

-- What was handed out, then what is left.
abbrev pub handed : State → List ℕ
handed s = map (λ p. p.1) s.popped ++ s.items

map-snoc :
    (l : List (ℕ × ℕ)) (c t : ℕ) (rest : List ℕ)
    → map (λ p. p.1) (l ++ (c, t) ∷ []) ++ rest ≡ map (λ p. p.1) l ++ t ∷ rest
map-snoc [] c t rest = refl
map-snoc ((d, u) ∷ l) c t rest = ap (λ r. u ∷ r) (map-snoc l c t rest)

pop_tasklet-some :
    (l : List ℕ) (t : ℕ) (rest : List ℕ) → pop_tasklet l ≡ (some t, rest) → l ≡ t ∷ rest
unfolding pop_tasklet
pop_tasklet-some [] t rest e = cc
pop_tasklet-some (x ∷ l) t rest e = cc

pop_tasklet-none : (l : List ℕ) (rest : List ℕ) → pop_tasklet l ≡ (none, rest) → l ≡ rest
unfolding pop_tasklet
pop_tasklet-none [] rest e = cc
pop_tasklet-none (x ∷ l) rest e = cc

Step-fifo : {s t : State} → Step s t → s.pushed ≡ handed s → t.pushed ≡ handed t
unfolding push_tasklet
Step-fifo (push s t) h =
    ap (λ l. l ++ t ∷ []) h ∙ append_assoc (map (λ p. p.1) s.popped) s.items (t ∷ [])
Step-fifo (pop s c t rest e) h =
    h
    ∙ ap (λ l. map (λ p. p.1) s.popped ++ l) (pop_tasklet-some s.items t rest e)
    ∙ sym (map-snoc s.popped c t rest)
Step-fifo (miss s c rest e) h =
    h ∙ ap (λ l. map (λ p. p.1) s.popped ++ l) (pop_tasklet-none s.items rest e)

-- Whatever the interleaving of the calls, the tasklets pushed are, in their order, those handed out
-- to all the consumers together, in the order of the calls, followed by those still queued: none is
-- lost, none handed out twice, none overtaken.
pub Reach-fifo : {s : State} → Reach start s → s.pushed ≡ map (λ p. p.1) s.popped ++ s.items
Reach-fifo here = refl
Reach-fifo (next r st) = Step-fifo st (Reach-fifo r)
