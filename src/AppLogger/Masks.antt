-- ===== src/AppLogger/Masks.antt =====
-- Which levels the masks hold.
use libnebula.Prelude.{
  ℕ, zero, suc, ◌≤◌, ◌<◌, ◌≡◌, refl, Bool, true, false, ◌&&◌, arith, ltb, ltb→lt, leb, ◌==◌, ==_iff,
  if◌then◌else◌, bit_and,
}
use libnebula.Prelude.Int.{pos, negsuc}
use libnebula.AppLogger.{debug, log_mask, log_upto}

all_below : ℕ → (ℕ → Bool) → Bool
all_below zero p = true
all_below (suc n) p = p n && all_below n p

all_below-at : (n : ℕ) (p : ℕ → Bool) (x : ℕ) → all_below n p ≡ true → x < n → p x ≡ true
unfolding all_below
all_below-at zero p x h lt = absurd (omega arith)
all_below-at (suc n) p x h lt = ground (arith, all_below-at n p x)

-- The bit of level `m` in the mask up to level `l`.
abbrev agrees : ℕ → ℕ → Bool
agrees l m =
    bit_and (log_upto (pos l)) (log_mask (pos m)) == (if leb m l then log_mask (pos m) else 0)

masks_table : all_below 8 (λ l. all_below 8 (λ m. agrees l m)) ≡ true
unfolding all_below log_mask log_upto
masks_table = refl

bits_table : all_below 8 (λ m. ltb 0 (log_mask (pos m))) ≡ true
unfolding all_below log_mask
bits_table = refl

beyond : (k : ℕ) → debug < k → (log_upto (pos k) ≡ 0) × (log_mask (pos k) ≡ 0)
unfolding log_upto log_mask
beyond k h =
    let above : leb k debug ≡ false = ground arith in
    (rw (above, log_upto) refl, rw (above, log_mask) refl)

-- For two levels from EMERG to DEBUG, `logUpto` of the first has the bit that `logMask` gives the
-- second exactly if the second is not above the first in number; and every other number gives no
-- bit at all.
masks_lem :
    (l m other : ℕ)
    → l ≤ debug
    → m ≤ debug
    → debug < other
    → (bit_and (log_upto (pos l)) (log_mask (pos m)) ≡ (if leb m l then log_mask (pos m) else 0))
      × (0 < log_mask (pos m))
      × (log_upto (pos other) ≡ 0)
      × (log_mask (pos other) ≡ 0)
      × (log_upto (negsuc other) ≡ 0)
      × (log_mask (negsuc other) ≡ 0)
unfolding log_upto log_mask
masks_lem l m other p q r = (
  (==_iff _ _).0 (
      all_below-at 8 (agrees l) m
        (all_below-at 8 (λ k. all_below 8 (agrees k)) l masks_table (omega arith)) (omega arith)),
  ltb→lt _ _ (all_below-at 8 (λ k. ltb 0 (log_mask (pos k))) m bits_table (omega arith)),
  (beyond other r).0,
  (beyond other r).1,
  refl,
  refl,
)
