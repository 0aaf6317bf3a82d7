-- ===== src/Text/Chars/Affix.antt =====
-- `startsWith` and `endsWith` decide what their names say.
use libnebula.Prelude.{
  ℕ, zero, suc, ◌-◌, ◌≤◌, ◌<◌, ◌≡◌, refl, sym, ap, ap₂, ◌∙◌, ◌≢◌, ◌⊎◌, inl, inr, Bool, true, false,
  Option, some, [], ◌∷◌, ◌++◌, arith, ltb, ◌==◌, length, length-append, length-drop,
  take-append-drop, append-nil, take, drop, get_or, lt→ltb, Bool-cases, ==_iff,
}
use native.Mathlib.Decide.{dec_lt}
use libnebula.Text.{Bytes}
use libnebula.Text.Copy.{IsText, strlen-text, IsText-drop}
use libnebula.Text.Chars.{compare_at, strncmp_eq, starts_with, ends_with}

-- A test on bytes, and the splits of the text that it decides.
abbrev Decides : Option Bool → (Bytes → Type 0) → Type 0
Decides r P =
    ((r ≡ some true) × (rest : Bytes) × P rest) ⊎ ((r ≡ some false) × ((rest : Bytes) → ¬ P rest))

strncmp_eq-next :
    (c d : ℕ) (a b : Bytes) (n : ℕ)
    → (c == d) ≡ true
    → c ≢ 0
    → strncmp_eq (c ∷ a) (d ∷ b) (suc n) ≡ strncmp_eq a b n
unfolding strncmp_eq
strncmp_eq-next c d a b n same nonzero =
    let kept : (c == 0) ≡ false = ground arith in rw (same, kept, strncmp_eq) refl

strncmp_eq-text :
    (text junk prefix other : Bytes)
    → IsText text
    → IsText prefix
    → length prefix ≤ length text
    → Decides
        (strncmp_eq (text ++ 0 ∷ junk) (prefix ++ 0 ∷ other) (length prefix))
        (λ rest. text ≡ prefix ++ rest)
unfolding strncmp_eq
strncmp_eq-text text junk [] other t p h = inl (refl, text, refl)
strncmp_eq-text [] junk (d ∷ prefix) other t p h = absurd (omega arith)
strncmp_eq-text (c ∷ text) junk (d ∷ prefix) other (c_nonzero, t) (d_nonzero, p) h =
    elim (Bool-cases (c == d)) [
      | inr differs ↦
          inr (rw (differs, strncmp_eq) refl, λ rest e. ground (arith, ap (λ l. get_or l 0 0) e))
      | inl same ↦
          let e : c ≡ d = (==_iff c d).0 same in
          rw
            (strncmp_eq-next c d (text ++ 0 ∷ junk) (prefix ++ 0 ∷ other) (length prefix) same
              c_nonzero)
            (elim (strncmp_eq-text text junk prefix other t p (omega arith)) [
              | inl (found, rest, q) ↦ inl (found, rest, cc)
              | inr (lost, never) ↦ inr (lost, λ rest q. never rest (cc (ap (λ l. drop 1 l) q)))
            ])
    ]

drop-text :
    (k : ℕ) (text junk : Bytes)
    → k ≤ length text
    → drop k (text ++ 0 ∷ junk) ≡ drop k text ++ 0 ∷ junk
drop-text zero text junk h = refl
drop-text (suc k) [] junk h = absurd (omega arith)
drop-text (suc k) (c ∷ text) junk h = drop-text k text junk (omega arith)

empty_of : (l : Bytes) → length l ≡ 0 → l ≡ []
empty_of [] e = refl
empty_of (c ∷ l) e = absurd (omega arith)

drop-append : (xs ys : Bytes) → drop (length xs) (xs ++ ys) ≡ ys
drop-append [] ys = refl
drop-append (x ∷ xs) ys = drop-append xs ys

module _ (text junk part other : Bytes) (t : IsText text) (p : IsText part) where
  compare_at-short :
      (at : ℕ → ℕ → ℕ)
      → length text < length part
      → compare_at at (text ++ 0 ∷ junk) (part ++ 0 ∷ other) ≡ some false
  compare_at-short at short =
      let e = lt→ltb (length text) (length part) short in
      rw (strlen-text text junk t, compare_at) (rw (strlen-text part other p) (rw e refl))

  compare_at-fits :
      (at : ℕ → ℕ → ℕ)
      → length part ≤ length text
      → compare_at at (text ++ 0 ∷ junk) (part ++ 0 ∷ other)
        ≡ strncmp_eq
            (drop (at (length text) (length part)) (text ++ 0 ∷ junk))
            (part ++ 0 ∷ other)
            (length part)
  compare_at-fits at fits =
      let e : ltb (length text) (length part) ≡ false = ground arith in
      rw (strlen-text text junk t, compare_at) (rw (strlen-text part other p) (rw e refl))

  -- `startsWith` returns whether the first is the second followed by some text.
  starts_with-Decides :
      Decides (starts_with (text ++ 0 ∷ junk) (part ++ 0 ∷ other)) (λ rest. text ≡ part ++ rest)
  unfolding starts_with
  starts_with-Decides = elim (dec_lt (length text) (length part)) [
    | yes short ↦ inr (
      compare_at-short (λ la lb. 0) short,
      λ rest q. omega (arith, ap length q, length-append part rest),
    )
    | no fits ↦
        rw (compare_at-fits (λ la lb. 0) (omega arith))
          (strncmp_eq-text text junk part other t p (omega arith))
  ]

  -- `endsWith` of two strings returns whether the first is some text followed by the second.
  pub ends_with-Decides :
      Decides (ends_with (text ++ 0 ∷ junk) (part ++ 0 ∷ other)) (λ rest. text ≡ rest ++ part)
  unfolding ends_with
  ends_with-Decides = elim (dec_lt (length text) (length part)) [
    | yes short ↦ inr (
      compare_at-short (λ la lb. la - lb) short,
      λ rest q. omega (arith, ap length q, length-append rest part),
    )
    | no fits ↦
        let k = length text - length part in
        let size : length (drop k text) ≡ length part = omega (arith, length-drop k text) in
        rw (compare_at-fits (λ la lb. la - lb) (omega arith), drop-text k text junk (omega arith))
          (elim (strncmp_eq-text (drop k text) junk part other (IsText-drop k text t) p
            (omega arith)) [
              | inl (found, rest, q) ↦ inl (
                found,
                take k text,
                sym (take-append-drop k text)
                    ∙ ap (λ l. take k text ++ l)
                        (q
                          ∙ ap (λ l. part ++ l)
                              (empty_of rest
                                (omega (arith, ap length q, size, length-append part rest)))
                          ∙ append-nil part),
              )
              | inr (lost, never) ↦ inr (
                lost,
                λ rest q. never [] (
                    let same : k ≡ length rest =
                      omega (arith, ap length q, length-append rest part) in
                    ap₂ drop same q ∙ drop-append rest part ∙ sym (append-nil part)),
              )
            ])
  ]

  -- Of two strings, `startsWith` returns whether the first is the second followed by some text, and
  -- `endsWith` whether the first is some text followed by the second.
  affixes-Decide :
      Decides (starts_with (text ++ 0 ∷ junk) (part ++ 0 ∷ other)) (λ rest. text ≡ part ++ rest)
      × Decides (ends_with (text ++ 0 ∷ junk) (part ++ 0 ∷ other)) (λ rest. text ≡ rest ++ part)
  affixes-Decide = (starts_with-Decides, ends_with-Decides)
