-- ===== src/Prelude/Weigh.antt =====
-- Sums of a weight over a stretch of an array. That two stretches have the same sum for every
-- weight says that they hold the same entries, as often, in whatever order.
use libnebula.Prelude.Lists.{length, get_or, set}
use libnebula.Prelude.ListLaws.{get_or-set_self, get_or-set_ne}
use Prim.Native.Nat.{ℕ, zero, suc, ◌+◌, ◌≤◌, ◌<◌}
use mathlib.Core.Path.{◌≡◌, refl}
use mathlib.Core.Logic.{◌⊎◌}
use mathlib.Core.List.{List, [], ◌∷◌}
use native.Mathlib.Omega.{arith}
use native.Mathlib.Decide.{ℕ_discrete, dec_lt}

module _ {ℓ} {A : Type ℓ} (f : A → ℕ) (d : A) where
  -- Over the `n` entries from index `lo` on.
  abbrev pub weigh : List A → ℕ → ℕ → ℕ
  weigh l lo zero = 0
  weigh l lo (suc n) = f (get_or l lo d) + weigh l (lo + 1) n

  pub weigh-last :
      (l : List A) (lo n : ℕ) → weigh l lo (suc n) ≡ weigh l lo n + f (get_or l (lo + n) d)
  weigh-last l lo zero = let same : lo + 0 ≡ lo = omega arith in rw same (omega arith)
  weigh-last l lo (suc n) =
      let same : lo + suc n ≡ lo + 1 + n = omega arith in
      rw same (omega (arith, weigh-last l (lo + 1) n))

  pub weigh-set_out :
      (l : List A) (i : ℕ) (v : A) (lo n : ℕ)
      → (i < lo) ⊎ (lo + n ≤ i)
      → weigh (set l i v) lo n ≡ weigh l lo n
  weigh-set_out l i v lo zero h = refl
  weigh-set_out l i v lo (suc n) h =
      rw (get_or-set_ne l i lo v d (omega arith), weigh-set_out l i v (lo + 1) n (omega arith)) refl

  pub weigh-set_in :
      (l : List A) (i : ℕ) (v : A) (lo n : ℕ)
      → i < length l
      → lo ≤ i
      → i < lo + n
      → weigh (set l i v) lo n + f (get_or l i d) ≡ weigh l lo n + f v
  weigh-set_in l i v lo zero inside p q = absurd (omega arith)
  weigh-set_in l i v lo (suc n) inside p q = elim (ℕ_discrete i lo) [
    | yes e ↦
        rw (← e, get_or-set_self l i v d inside, weigh-set_out l i v (i + 1) n (omega arith))
          (omega arith)
    | no ne ↦
        rw (get_or-set_ne l i lo v d ne)
          (omega (arith, weigh-set_in l i v (lo + 1) n inside (omega arith) (omega arith)))
  ]

  -- Over the whole list.
  abbrev pub tally : List A → ℕ
  tally [] = 0
  tally (x ∷ xs) = f x + tally xs

  pub tally-set :
      (l : List A) (i : ℕ) (v : A)
      → i < length l
      → tally (set l i v) + f (get_or l i d) ≡ tally l + f v
  tally-set [] i v h = absurd (omega arith)
  tally-set (x ∷ xs) zero v h = omega arith
  tally-set (x ∷ xs) (suc i) v h = omega (arith, tally-set xs i v)

  pub tally-bound : (l : List A) → ((x : A) → f x ≤ 1) → tally l ≤ length l
  tally-bound [] h = omega arith
  tally-bound (x ∷ xs) h = omega (arith, h x, tally-bound xs h)

  -- The entry at `i` is dropped by moving the last one of the stretch into its place.
  pub weigh-move_last :
      (l : List A) (lo i n : ℕ)
      → lo ≤ i
      → i ≤ lo + n
      → lo + n < length l
      → weigh (set l i (get_or l (lo + n) d)) lo n + f (get_or l i d) ≡ weigh l lo (suc n)
  weigh-move_last l lo i n p q inside = elim (dec_lt i (lo + n)) [
    | yes before ↦ ground (arith, weigh-last l lo n, weigh-set_in l i (get_or l (lo + n) d) lo n)
    | no at_end ↦
        let same : i ≡ lo + n = omega arith in
        ground (arith, weigh-last l lo n, weigh-set_out l i (get_or l (lo + n) d) lo n)
  ]
