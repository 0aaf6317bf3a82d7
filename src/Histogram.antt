-- ===== src/Histogram.antt =====
-- Histogram, src/histogram.cc and include/nebula/histogram.h: counters, the table of zone bounds,
-- the binary search of `add`, and what `toString` walks over. A `uint64_t` is a number, and each
-- sum is cut to 64 bits.
pub mod Search
pub mod Zone
pub mod Summary
pub mod Merge
pub mod Clear
pub mod Show
mod Tests
use libnebula.Prelude.{
  ℕ, zero, suc, ◌+◌, ◌-◌, ◌/◌, ◌%◌, ◌^◌, ◌&&◌, Option, none, some, List, [], ◌∷◌, ltb, leb, ◌==◌,
  if◌then◌else◌, get_elem?, get_or, set, replicate, true, false, ◌*◌,
}

abbrev pub u64_mod : ℕ
u64_mod = 2 ^ 64

abbrev pub u64_max : ℕ
u64_max = 2 ^ 64 - 1

-- `total_threshold_values_`
abbrev pub total_threshold_values : ℕ
total_threshold_values = 6 + 16 * 10 + 1

-- `threshold_values_`
unfoldable pub threshold_values : List ℕ
threshold_values =
    0 ∷ 1 ∷ 2 ∷ 3 ∷ 4 ∷ 5 ∷ 6 ∷ 7 ∷ 8 ∷ 9 ∷ 10 ∷ 12 ∷ 14 ∷ 16 ∷ 18 ∷ 20 ∷ 25 ∷ 30 ∷ 35 ∷ 40 ∷ 45
    ∷ 50 ∷ 60 ∷ 70 ∷ 80 ∷ 90 ∷ 100 ∷ 120 ∷ 140 ∷ 160 ∷ 180 ∷ 200 ∷ 250 ∷ 300 ∷ 350 ∷ 400 ∷ 450 ∷ 500
    ∷ 600 ∷ 700 ∷ 800 ∷ 900 ∷ 1000 ∷ 1200 ∷ 1400 ∷ 1600 ∷ 1800 ∷ 2000 ∷ 2500 ∷ 3000 ∷ 3500 ∷ 4000
    ∷ 4500 ∷ 5000 ∷ 6000 ∷ 7000 ∷ 8000 ∷ 9000 ∷ 10000 ∷ 12000 ∷ 14000 ∷ 16000 ∷ 18000 ∷ 20000
    ∷ 25000 ∷ 30000 ∷ 35000 ∷ 40000 ∷ 45000 ∷ 50000 ∷ 60000 ∷ 70000 ∷ 80000 ∷ 90000 ∷ 100000
    ∷ 120000 ∷ 140000 ∷ 160000 ∷ 180000 ∷ 200000 ∷ 250000 ∷ 300000 ∷ 350000 ∷ 400000 ∷ 450000
    ∷ 500000 ∷ 600000 ∷ 700000 ∷ 800000 ∷ 900000 ∷ 1000000 ∷ 1200000 ∷ 1400000 ∷ 1600000 ∷ 1800000
    ∷ 2000000 ∷ 2500000 ∷ 3000000 ∷ 3500000 ∷ 4000000 ∷ 4500000 ∷ 5000000 ∷ 6000000 ∷ 7000000
    ∷ 8000000 ∷ 9000000 ∷ 10000000 ∷ 12000000 ∷ 14000000 ∷ 16000000 ∷ 18000000 ∷ 20000000 ∷ 25000000
    ∷ 30000000 ∷ 35000000 ∷ 40000000 ∷ 45000000 ∷ 50000000 ∷ 60000000 ∷ 70000000 ∷ 80000000
    ∷ 90000000 ∷ 100000000 ∷ 120000000 ∷ 140000000 ∷ 160000000 ∷ 180000000 ∷ 200000000 ∷ 250000000
    ∷ 300000000 ∷ 350000000 ∷ 400000000 ∷ 450000000 ∷ 500000000 ∷ 600000000 ∷ 700000000 ∷ 800000000
    ∷ 900000000 ∷ 1000000000 ∷ 1200000000 ∷ 1400000000 ∷ 1600000000 ∷ 1800000000 ∷ 2000000000
    ∷ 2500000000 ∷ 3000000000 ∷ 3500000000 ∷ 4000000000 ∷ 4500000000 ∷ 5000000000 ∷ 6000000000
    ∷ 7000000000 ∷ 8000000000 ∷ 9000000000 ∷ 10000000000 ∷ 12000000000 ∷ 14000000000 ∷ 16000000000
    ∷ 18000000000 ∷ 20000000000 ∷ 25000000000 ∷ 30000000000 ∷ 35000000000 ∷ 40000000000
    ∷ 45000000000 ∷ 50000000000 ∷ u64_max ∷ []

pub record Histogram : Type 0 where
  pub min : ℕ
  pub max : ℕ
  pub total : ℕ
  pub count : ℕ
  pub buckets : List ℕ

-- The constructor.
unfoldable pub empty : Histogram
empty = record {
  min = u64_max;
  max = 0;
  total = 0;
  count = 0;
  buckets = replicate (total_threshold_values - 1) 0;
}

unfoldable pub clear : Histogram → Histogram
clear h = record {
  min = 0;
  max = 0;
  total = 0;
  count = 0;
  buckets = replicate (total_threshold_values - 1) 0;
}

unfoldable pub average : Histogram → ℕ
average h = if h.count == 0 then 0 else h.total / h.count

-- The loop of `merge` over the buckets.
abbrev pub add_buckets : List ℕ → List ℕ → List ℕ
add_buckets [] ys = []
add_buckets (x ∷ xs) [] = x ∷ xs
add_buckets (x ∷ xs) (y ∷ ys) = ((x + y) % u64_mod) ∷ add_buckets xs ys

unfoldable pub merge : Histogram → Histogram → Histogram
merge h other = record {
  min = if ltb other.min h.min then other.min else h.min;
  max = if ltb h.max other.max then other.max else h.max;
  total = (h.total + other.total) % u64_mod;
  count = (h.count + other.count) % u64_mod;
  buckets = add_buckets h.buckets other.buckets;
}

-- What the search of `add` ends with: `mid`, a read past the table, or no fuel left.
pub data Found : Type 0 where
  at : ℕ → Found
  out_of_bounds : Found
  out_of_fuel : Found

pub data Probe : Type 0 where
  fault hit below above : Probe

-- The tests in the loop's body on the two bounds that it reads.
abbrev probe : ℕ → Option ℕ → Option ℕ → Probe
probe v none upper = fault
probe v (some lower) none = fault
probe v (some lower) (some upper) =
    if leb lower v && ltb v upper then hit else if ltb v lower then below else above

-- The loop of `add`. The variable `end` stands for `right + 1`, since `right` may become -1.
module _ (table : List ℕ) (v : ℕ) where
  unfoldable pub search : ℕ → ℕ → ℕ → ℕ → Found
  search zero left end mid = out_of_fuel
  search (suc fuel) left end mid = elim (ltb left end) [
    | false ↦ at mid
    | true ↦
        let m = (left + (end - 1)) / 2 in
        elim (probe v (get_elem? table m) (get_elem? table (m + 1))) [
          | fault ↦ out_of_bounds
          | hit ↦ at m
          | below ↦ search fuel left m m
          | above ↦ search fuel (m + 1) end m
        ]
  ]

-- `left = 0`, `right = total_threshold_values_ - 2`, `mid = 0`; a round narrows the range.
unfoldable pub bucket_of : ℕ → Found
unfolding search
bucket_of v = search threshold_values v total_threshold_values 0 (total_threshold_values - 1) 0

-- `buckets_[mid] += 1`
abbrev pub bump : List ℕ → ℕ → List ℕ
bump buckets mid = set buckets mid ((get_or buckets mid 0 + 1) % u64_mod)

-- The updates before the search.
unfoldable pub note : Histogram → ℕ → Histogram
note h v = record h {
  min = if ltb v h.min then v else h.min;
  max = if ltb h.max v then v else h.max;
  total = (h.total + v) % u64_mod;
  count = (h.count + 1) % u64_mod;
}

-- The new histogram, and the index that `add` returns; `none` if the search fails.
unfoldable pub add : Histogram → ℕ → Option (Histogram × ℕ)
unfolding note
add h v = elim (bucket_of v) [
  | at mid ↦ some (record (note h v) { buckets = bump h.buckets mid }, mid)
  | out_of_bounds ↦ none
  | out_of_fuel ↦ none
]

-- Calls of `add` in a row, on the values of a list.
unfoldable pub add_all : Histogram → List ℕ → Option Histogram
add_all h [] = some h
add_all h (v ∷ vs) = elim (add h v) [ none ↦ none | some (h', mid) ↦ add_all h' vs ]
