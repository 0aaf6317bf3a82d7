-- ===== src/Tokens/Table.antt =====
-- What the table holds after `splitString`.
use libnebula.Prelude.{
  ℕ, zero, suc, ◌+◌, ◌%◌, ◌^◌, ◌≤◌, ◌<◌, ◌≡◌, refl, ap, ◌∙◌, ◌≢◌, ◌⊎◌, inl, inr, Bool, true, false,
  none, some, List, [], ◌∷◌, ◌++◌, arith, ◌==◌, if◌then◌else◌, length, length-append,
  length-replicate, length-set, set, replicate, take, map, append_assoc, append-nil,
}
use native.Mathlib.Decide.{ℕ_discrete}
use libnebula.Tokens.{
  Tokens, new_tokens, clear_tokens, Saved, saved, refused, crashed, store, grow, save_token_addr,
  split_loop, split_string,
}

-- The table holds the tokens `vs`, in order, and no others.
abbrev pub Holds : List ℕ → Tokens → Type 0
Holds vs t =
    (t.num_of_tokens ≡ length vs)
    × (t.num_of_tokens ≤ t.max_tokens)
    × (((t.tokens ≡ none) × (t.max_tokens ≡ 0))
        ⊎ ((all : List ℕ) × (t.tokens ≡ some all)
            × (t.max_tokens ≤ length all)
            × (take (length vs) all ≡ vs)))

take-set : (l : List ℕ) (n p : ℕ) → n < length l → take (n + 1) (set l n p) ≡ take n l ++ p ∷ []
take-set [] n p h = absurd (omega arith)
take-set (x ∷ l) zero p h = refl
take-set (x ∷ l) (suc n) p h =
    let same : suc n + 1 ≡ suc (n + 1) = omega arith in
    rw same (ap (λ r. x ∷ r) (take-set l n p (omega arith)))

take-front : (n : ℕ) (l r : List ℕ) → n ≤ length l → take n (l ++ r) ≡ take n l
take-front zero l r h = refl
take-front (suc n) [] r h = absurd (omega arith)
take-front (suc n) (x ∷ l) r h = ap (λ s. x ∷ s) (take-front n l r (omega arith))

-- A save that goes well.
abbrev Extends : List ℕ → ℕ → Tokens → Saved → Type 0
Extends vs ptr t r =
    (t' : Tokens) × (r ≡ saved t') × Holds (vs ++ ptr ∷ []) t' × (t'.hint_size ≡ t.hint_size)

store-Holds :
    (vs all : List ℕ) (ptr : ℕ) (t : Tokens)
    → t.num_of_tokens ≡ length vs
    → t.num_of_tokens < t.max_tokens
    → t.max_tokens ≤ length all
    → t.tokens ≡ some all
    → take (length vs) all ≡ vs
    → Extends vs ptr t (store ptr t)
store-Holds vs all ptr t num inside room e held =
    let more : length (vs ++ ptr ∷ []) ≡ length vs + 1 = length-append vs (ptr ∷ []) in
    let size : length (set all (length vs) ptr) ≡ length all = length-set all (length vs) ptr in
    (
      record t { tokens = some (set all t.num_of_tokens ptr); num_of_tokens = t.num_of_tokens + 1 },
      rw (e, store) refl,
      (
        omega (arith, more),
        omega arith,
        inr (
          set all t.num_of_tokens ptr,
          refl,
          rw num (omega (arith, size)),
          rw (more, num)
              (take-set all (length vs) ptr (omega arith) ∙ ap (λ l. l ++ ptr ∷ []) held),
        ),
      ),
      refl,
    )

empty-take : (vs l : List ℕ) → length vs ≡ 0 → take (length vs) l ≡ vs
empty-take [] l h = refl
empty-take (v ∷ vs) l h = absurd (omega arith)

module _ (vs : List ℕ) (ptr : ℕ) (t : Tokens) (some_hint : t.hint_size ≢ 0) (holds : Holds vs t)
    (fits : length vs + t.hint_size < 2 ^ 32) where
  grown_size :
      t.num_of_tokens ≡ t.max_tokens
      → (if t.max_tokens == 0 then t.hint_size else (t.max_tokens + t.hint_size) % 2 ^ 32)
        ≡ t.max_tokens + t.hint_size
  grown_size full = ground (arith, holds.0)

  grow-Holds : t.num_of_tokens ≡ t.max_tokens → Extends vs ptr t (grow true ptr t)
  grow-Holds full = elim holds.2 [
    | inl (nothing, empty) ↦
        let l : List ℕ = replicate (t.max_tokens + t.hint_size) 0 in
        let t1 : Tokens = record t { tokens = some l; max_tokens = t.max_tokens + t.hint_size } in
        rw (nothing, grow, grown_size full)
          (store-Holds vs l ptr t1 holds.0 (omega arith)
            (omega (arith, length-replicate {A = ℕ} (t.max_tokens + t.hint_size) 0)) refl
            (empty-take vs l (omega (arith, holds.0))))
    | inr (all, e, room, held) ↦
        let l : List ℕ = all ++ replicate t.hint_size 0 in
        let t1 : Tokens = record t { tokens = some l; max_tokens = t.max_tokens + t.hint_size } in
        rw (e, grow, grown_size full)
          (store-Holds vs l ptr t1 holds.0 (omega arith)
            (omega (
              arith,
              length-replicate {A = ℕ} t.hint_size 0,
              length-append all (replicate t.hint_size 0),
            ))
            refl (take-front (length vs) all _ (omega (arith, holds.0)) ∙ held))
  ]

  save_token_addr-Holds : Extends vs ptr t (save_token_addr true ptr t)
  unfolding save_token_addr
  save_token_addr-Holds = elim (ℕ_discrete t.num_of_tokens t.max_tokens) [
    | yes full ↦
        let e : (t.num_of_tokens == t.max_tokens) ≡ true = ground arith in
        rw (e, save_token_addr) (grow-Holds full)
    | no not_full ↦
        let e : (t.num_of_tokens == t.max_tokens) ≡ false = ground arith in
        rw (e, save_token_addr)
          (elim holds.2 [
            | inl (nothing, empty) ↦ absurd (omega (arith, holds.1))
            | inr (all, here, room, held) ↦
                store-Holds vs all ptr t holds.0 (omega (arith, holds.1)) room here held
          ])
  ]

split_loop-Holds :
    (found vs : List ℕ) (t : Tokens)
    → t.hint_size ≢ 0
    → Holds vs t
    → length vs + length found + t.hint_size < 2 ^ 32
    → (t' : Tokens) × (split_loop (map (λ p. (true, p)) found) t ≡ saved t')
      × Holds (vs ++ found) t'
      × (t'.hint_size ≡ t.hint_size)
unfolding split_loop
split_loop-Holds [] vs t some_hint holds fits = (t, refl, rw append-nil holds, refl)
split_loop-Holds (ptr ∷ found) vs t some_hint holds fits =
    let (t1, e1, holds1, hint) = save_token_addr-Holds vs ptr t some_hint holds (omega arith) in
    let (t2, e2, holds2, hint2) =
      split_loop-Holds found (vs ++ ptr ∷ []) t1 (rw hint some_hint) holds1
        (omega (arith, length-append vs (ptr ∷ []), hint)) in
    (t2, rw (e1, split_loop) e2, rw append_assoc at holds2, hint2 ∙ hint)

pub split_string-kept :
    (found vs : List ℕ) (t : Tokens)
    → t.hint_size ≢ 0
    → Holds vs t
    → length found + t.hint_size < 2 ^ 32
    → (t' : Tokens) × (split_string (map (λ p. (true, p)) found) t ≡ saved t')
      × Holds found t'
      × (t'.hint_size ≡ t.hint_size)
unfolding split_string clear_tokens
split_string-kept found vs t some_hint holds fits =
    split_loop-Holds found [] (clear_tokens t) some_hint (refl, omega arith, cleared holds.2)
      (omega arith)
  where
    cleared :
        ((t.tokens ≡ none) × (t.max_tokens ≡ 0))
          ⊎ ((all : List ℕ) × (t.tokens ≡ some all)
              × (t.max_tokens ≤ length all)
              × (take (length vs) all ≡ vs))
        → ((t.tokens ≡ none) × (t.max_tokens ≡ 0))
          ⊎ ((all : List ℕ) × (t.tokens ≡ some all)
              × (t.max_tokens ≤ length all)
              × (take 0 all ≡ []))
    cleared (inl nothing) = inl nothing
    cleared (inr (all, e, room, held)) = inr (all, e, room, refl)

-- `splitString`, on a table that holds the tokens of an earlier line or is new, where every allocation
-- succeeds and the size of the table stays below 2^32, returns `true`, and the table then holds the
-- tokens that were found, in order, and none of those it held before.
pub split_string-Holds :
    (found vs : List ℕ) (t : Tokens)
    → t.hint_size ≢ 0
    → Holds vs t
    → length found + t.hint_size < 2 ^ 32
    → (t' : Tokens) × (split_string (map (λ p. (true, p)) found) t ≡ saved t') × Holds found t'
split_string-Holds found vs t some_hint holds fits =
    let (t', e, held, hint) = split_string-kept found vs t some_hint holds fits in (t', e, held)

-- On a new table, an allocation that fails makes `splitString` return `false` and leaves the size that
-- was not allocated: the next `splitString` that finds a token writes through NULL.
split_string-refused :
    (hint p q : ℕ) (got : Bool) (found rest : List (Bool × ℕ))
    → (t : Tokens) × (split_string ((false, p) ∷ rest) (new_tokens hint) ≡ refused t)
      × (split_string ((got, q) ∷ found) t ≡ crashed)
unfolding split_string split_loop save_token_addr clear_tokens new_tokens
split_string-refused zero p q got found rest = (_, refl, refl)
split_string-refused (suc h) p q got found rest =
    (record (new_tokens (suc h)) { max_tokens = suc h }, ground arith, ground arith)
