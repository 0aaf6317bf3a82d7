-- ===== src/Histogram/Zone.antt =====
-- The zone of a value by a walk along the table, and that the search of `add` finds it.
use libnebula.Prelude.{
  ℕ, zero, suc, ◌+◌, ◌-◌, ◌≤◌, ◌<◌, ◌≡◌, refl, ap, Bool, true, ◌&&◌, List, [], ◌∷◌, arith, ltb,
  length, get_or, if◌then◌else◌, ◌∙◌,
}
use libnebula.Histogram.{
  total_threshold_values, threshold_values, Found, at, out_of_bounds, out_of_fuel, bucket_of,
}
use libnebula.Histogram.Search.{IsZone, Lands, bucket_of-Lands}

-- The bounds are walked from below; the last zone has no upper end.
unfoldable zone_in : List ℕ → ℕ → ℕ
zone_in [] v = 0
zone_in (a ∷ []) v = 0
zone_in (a ∷ b ∷ []) v = 0
zone_in (a ∷ b ∷ c ∷ rest) v = if ltb v b then 0 else suc (zone_in (b ∷ c ∷ rest) v)

unfoldable pub zone_of : ℕ → ℕ
unfolding zone_in
zone_of = zone_in threshold_values

pub ascending : List ℕ → Bool
ascending [] = true
ascending (a ∷ []) = true
ascending (a ∷ b ∷ rest) = ltb a b && ascending (b ∷ rest)

-- The thresholds are strictly ascending, so the zones are disjoint.
threshold_values-ascending : ascending threshold_values ≡ true
unfolding ascending threshold_values
threshold_values-ascending = refl

head-le :
    (a : ℕ) (rest : List ℕ) (k : ℕ)
    → ascending (a ∷ rest) ≡ true
    → k < suc (length rest)
    → a ≤ get_or (a ∷ rest) k 0
unfolding ascending
head-le a rest zero h p = omega arith
head-le a [] (suc k) h p = absurd (omega arith)
head-le a (b ∷ rest) (suc k) h p = ground (arith, head-le b rest k)

IsZone-zone_in :
    (table : List ℕ) (n v k : ℕ)
    → ascending table ≡ true
    → length table ≡ n + 1
    → IsZone table n v k
    → k ≡ zone_in table v
unfolding zone_in ascending
IsZone-zone_in [] n v k up e z = absurd (omega arith)
IsZone-zone_in (a ∷ []) n v k up e z = omega arith
IsZone-zone_in (a ∷ b ∷ []) n v k up e z = omega arith
IsZone-zone_in (a ∷ b ∷ c ∷ rest) n v zero up e z = ground arith
IsZone-zone_in (a ∷ b ∷ c ∷ rest) n v (suc k) up e z =
    ground (arith, head-le b (c ∷ rest) k, IsZone-zone_in (b ∷ c ∷ rest) (n - 1) v k)

-- The search of `add` returns the zone that a walk along the whole table gives.
pub bucket_of-zone_of : (v : ℕ) → bucket_of v ≡ at (zone_of v)
unfolding zone_of
bucket_of-zone_of v = go (bucket_of v) refl (bucket_of-Lands v)
  where
    go :
        (r : Found)
        → bucket_of v ≡ r
        → Lands threshold_values (total_threshold_values - 1) v r
        → bucket_of v ≡ at (zone_in threshold_values v)
    go (at k) e z =
        e
        ∙ ap at (
            IsZone-zone_in threshold_values (total_threshold_values - 1) v k
              threshold_values-ascending long z)
      where
        long : length threshold_values ≡ total_threshold_values - 1 + 1
        long = unfold threshold_values in refl
    go out_of_bounds e z = absurd z
    go out_of_fuel e z = absurd z

zone_in-lt : (table : List ℕ) (v : ℕ) → 2 ≤ length table → zone_in table v < length table - 1
unfolding zone_in
zone_in-lt [] v h = absurd (omega arith)
zone_in-lt (a ∷ []) v h = absurd (omega arith)
zone_in-lt (a ∷ b ∷ []) v h = omega arith
zone_in-lt (a ∷ b ∷ c ∷ rest) v h = ground (arith, zone_in-lt (b ∷ c ∷ rest) v)

pub zone_of-lt : (v : ℕ) → zone_of v < total_threshold_values - 1
unfolding zone_of threshold_values
zone_of-lt v = zone_in-lt threshold_values v (omega arith)
