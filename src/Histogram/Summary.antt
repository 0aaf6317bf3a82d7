-- ===== src/Histogram/Summary.antt =====
-- What a histogram holds of the values added to it.
use libnebula.Prelude.{
  ℕ, ◌+◌, ◌-◌, ◌/◌, ◌%◌, ◌≤◌, ◌<◌, ◌≡◌, refl, ◌∙◌, some, List, [], ◌∷◌, ◌++◌, arith, ltb, ◌==◌,
  length, get_or, sum, if◌then◌else◌, append_assoc, append-nil, length-append, sum-append,
  length-set, get_or-set_self, get_or-set_ne, get_or-replicate,
}
use libnebula.Histogram.{
  u64_mod, u64_max, total_threshold_values, Histogram, empty, average, bump, note, add, add_all,
}
use libnebula.Histogram.Zone.{zone_of, zone_of-lt, bucket_of-zone_of}

-- The least value, as far as `2^64 - 1`, which stands for "none".
unfoldable pub min_of : List ℕ → ℕ
min_of [] = u64_max
min_of (v ∷ vs) = if ltb v (min_of vs) then v else min_of vs

unfoldable pub max_of : List ℕ → ℕ
max_of [] = 0
max_of (v ∷ vs) = if ltb (max_of vs) v then v else max_of vs

-- How many of the values lie in zone `k`.
unfoldable pub occurrences : ℕ → List ℕ → ℕ
occurrences k [] = 0
occurrences k (v ∷ vs) = (if zone_of v == k then 1 else 0) + occurrences k vs

-- The histogram holds exactly the values `vs`, its counters cut to 64 bits.
pub record Summarises (h : Histogram) (vs : List ℕ) : Type 0 where
  pub least : h.min ≡ min_of vs
  pub greatest : h.max ≡ max_of vs
  pub total : h.total ≡ sum vs % u64_mod
  pub counted : h.count ≡ length vs % u64_mod
  pub size : length h.buckets ≡ total_threshold_values - 1
  pub cells : (k : ℕ) → get_or h.buckets k 0 ≡ occurrences k vs % u64_mod

pub min_of-append :
    (us vs : List ℕ)
    → min_of (us ++ vs) ≡ (if ltb (min_of vs) (min_of us) then min_of vs else min_of us)
unfolding min_of
min_of-append [] vs = ground (arith, bounded vs)
  where
    bounded : (vs : List ℕ) → min_of vs ≤ u64_max
    bounded [] = omega arith
    bounded (v ∷ vs) = ground (arith, bounded vs)
min_of-append (u ∷ us) vs = ground (arith, min_of-append us vs)

pub max_of-append :
    (us vs : List ℕ)
    → max_of (us ++ vs) ≡ (if ltb (max_of us) (max_of vs) then max_of vs else max_of us)
unfolding max_of
max_of-append [] vs = ground arith
max_of-append (u ∷ us) vs = ground (arith, max_of-append us vs)

pub occurrences-append :
    (k : ℕ) (us vs : List ℕ) → occurrences k (us ++ vs) ≡ occurrences k us + occurrences k vs
unfolding occurrences
occurrences-append k [] vs = omega arith
occurrences-append k (u ∷ us) vs = omega (arith, occurrences-append k us vs)

-- No zone lies past the last bucket.
occurrences_outside : (k : ℕ) (vs : List ℕ) → total_threshold_values - 1 ≤ k → occurrences k vs ≡ 0
unfolding occurrences
occurrences_outside k [] h = refl
occurrences_outside k (v ∷ vs) h = ground (arith, zone_of-lt v, occurrences_outside k vs)

pub empty-Summarises : Summarises empty []
unfolding empty min_of max_of occurrences
empty-Summarises = record {
  least = refl;
  greatest = refl;
  total = refl;
  counted = refl;
  size = refl;
  cells = λ k. get_or-replicate (total_threshold_values - 1) k 0 ∙ omega arith;
}

cells-bump :
    (buckets : List ℕ) (us : List ℕ) (v k : ℕ)
    → length buckets ≡ total_threshold_values - 1
    → ((j : ℕ) → get_or buckets j 0 ≡ occurrences j us % u64_mod)
    → get_or (bump buckets (zone_of v)) k 0 ≡ occurrences k (us ++ v ∷ []) % u64_mod
unfolding occurrences
cells-bump buckets us v k long cells = ground (
  arith,
  zone_of-lt v,
  cells k,
  occurrences-append k us (v ∷ []),
  get_or-set_self buckets (zone_of v) ((get_or buckets (zone_of v) 0 + 1) % u64_mod) 0,
  get_or-set_ne buckets (zone_of v) k ((get_or buckets (zone_of v) 0 + 1) % u64_mod) 0,
)

abbrev pub added : Histogram → ℕ → Histogram
added h v = record (note h v) { buckets = bump h.buckets (zone_of v) }

add_lem : (h : Histogram) (v : ℕ) → add h v ≡ some (added h v, zone_of v)
unfolding add
add_lem h v = rw (bucket_of-zone_of v, add)

pub added-Summarises :
    (h : Histogram) (us : List ℕ) (v : ℕ) → Summarises h us → Summarises (added h v) (us ++ v ∷ [])
unfolding note min_of max_of
added-Summarises h us v s = record {
  least = ground (arith, s.least, min_of-append us (v ∷ []), small us);
  greatest = ground (arith, s.greatest, max_of-append us (v ∷ []));
  total = omega (arith, s.total, sum-append us (v ∷ []));
  counted = omega (arith, s.counted, length-append {0} us (v ∷ []));
  size = length-set h.buckets _ _ ∙ s.size;
  cells = λ k. cells-bump h.buckets us v k s.size s.cells;
}
  where
    small : (vs : List ℕ) → min_of vs ≤ u64_max
    small [] = omega arith
    small (v ∷ vs) = ground (arith, small vs)

-- Adding one value to a histogram of `us` always succeeds, returns the index of the value's zone,
-- and gives a histogram of `us` and that value: minimum, maximum, sum, count and every bucket.
add-Summarises :
    (h : Histogram) (us : List ℕ) (v : ℕ)
    → Summarises h us
    → (h' : Histogram) × (add h v ≡ some (h', zone_of v)) × Summarises h' (us ++ v ∷ [])
add-Summarises h us v s = (added h v, add_lem h v, added-Summarises h us v s)

pub add_all-cons :
    (h : Histogram) (v : ℕ) (vs : List ℕ) → add_all h (v ∷ vs) ≡ add_all (added h v) vs
unfolding add_all
add_all-cons h v vs = rw (add_lem h v, add_all)

-- Adding a list of values to a histogram of `us` succeeds, and gives one of `us` and the list.
pub add_all-Summarises :
    (h : Histogram) (us vs : List ℕ)
    → Summarises h us
    → (h' : Histogram) × (add_all h vs ≡ some h') × Summarises h' (us ++ vs)
unfolding add_all
add_all-Summarises h us [] s = (h, refl, rw (append-nil) s)
add_all-Summarises h us (v ∷ vs) s =
    let (h', e, s') =
      add_all-Summarises (added h v) (us ++ v ∷ []) vs (added-Summarises h us v s) in
    (h', add_all-cons h v vs ∙ e, rw append_assoc at s')

-- For a histogram of a non-empty list of fewer than `2^64` values whose sum fits 64 bits,
-- `average` is the sum divided by the number of values, rounded down.
average-Summarises :
    (h : Histogram) (vs : List ℕ)
    → Summarises h vs
    → 0 < length vs
    → length vs < u64_mod
    → sum vs < u64_mod
    → average h ≡ sum vs / length vs
unfolding average
average-Summarises h vs s some_value few fits =
    let count : h.count ≡ length vs = omega (arith, s.counted) in
    let total : h.total ≡ sum vs = omega (arith, s.total) in ground arith
