-- ===== src/Histogram/Search.antt =====
-- The binary search of `Histogram::add`: it stays inside the table, ends, and finds the zone.
use libnebula.Prelude.{
  ℕ, zero, suc, ◌+◌, ◌-◌, ◌/◌, ◌≤◌, ◌<◌, ◌≡◌, refl, ◌⊎◌, inl, List, arith, length, get_or,
  get_elem?-eq-get_or,
}
use libnebula.Histogram.{
  total_threshold_values, threshold_values, Found, at, out_of_bounds, out_of_fuel, search,
  bucket_of,
}

abbrev bound : List ℕ → ℕ → ℕ
bound table i = get_or table i 0

-- The zone of `v` among `n` zones: the last one is closed above.
abbrev pub IsZone : List ℕ → ℕ → ℕ → ℕ → Type 0
IsZone table n v k =
    (k < n)
    × (get_or table k 0 ≤ v)
    × ((v < get_or table (k + 1) 0) ⊎ ((k + 1 ≡ n) × (get_or table n 0 ≤ v)))

abbrev pub Lands : List ℕ → ℕ → ℕ → Found → Type 0
Lands table n v (at k) = IsZone table n v k
Lands table n v out_of_bounds = ⊥
Lands table n v out_of_fuel = ⊥

module _ (table : List ℕ) (n v : ℕ) (long : length table ≡ n + 1) where
  record Inv (left end mid : ℕ) : Type 0 where
    ordered : left ≤ end
    inside : end ≤ n
    from_left : bound table left ≤ v
    to_end : (end ≡ n) ⊎ (v < bound table end)
    closing : left ≡ end → (mid + 1 ≡ left) × (bound table mid ≤ v)

  search-Lands :
      (fuel left end mid : ℕ)
      → end - left < fuel
      → Inv left end mid
      → Lands table n v (search table v fuel left end mid)
  unfolding search
  search-Lands zero left end mid enough inv = absurd (omega arith)
  search-Lands (suc fuel) left end mid enough inv =
      let m = (left + (end - 1)) / 2 in
      ground (
        arith,
        get_elem?-eq-get_or table m 0,
        get_elem?-eq-get_or table (m + 1) 0,
        search-Lands fuel left m m,
        search-Lands fuel (m + 1) end m,
      )

-- Every value lands in its zone: the search of `add` reads inside `threshold_values_`, ends within
-- its rounds, and the index has `threshold_values_[k] <= v`, with `v` below the next threshold
-- unless the zone is the last one, which takes `2^64 - 1` too.
pub bucket_of-Lands : (v : ℕ) → Lands threshold_values (total_threshold_values - 1) v (bucket_of v)
unfolding bucket_of threshold_values
bucket_of-Lands v =
    search-Lands threshold_values (total_threshold_values - 1) v refl total_threshold_values 0
      (total_threshold_values - 1) 0 (omega arith)
      (record {
        ordered = omega arith;
        inside = omega arith;
        from_left = omega arith;
        to_end = inl refl;
        closing = λ e. absurd (omega arith);
      })
