-- ===== src/Histogram/Show.antt =====
-- `toString` of src/histogram.cc: a line for every zone that is not empty. The texts that its
-- formats give are parameters, as is the number of marks, which is computed with doubles.
pub mod Lines
mod Tests
use libnebula.Prelude.{
  ℕ, ◌+◌, ◌-◌, ◌%◌, true, false, Option, some, none, List, [], ◌∷◌, ◌++◌, ◌==◌, get_or, take,
  replicate, if◌then◌else◌,
}
use libnebula.Text.{Bytes}
use libnebula.Histogram.{u64_mod, total_threshold_values, threshold_values, Histogram, average}

-- The texts of the formats: without data; the first line, from count, minimum, maximum and average; and
-- the start of a zone's line, from its bounds, the upper one `none` in the last zone, from its
-- number, the count, and the sum so far. And the number of marks, from `total_marks`, the number and
-- the count.
pub record Formats : Type 0 where
  pub no_data : Bytes
  pub head : ℕ → ℕ → ℕ → ℕ → Bytes
  pub row : ℕ → Option ℕ → ℕ → ℕ → ℕ → Bytes
  pub marks : ℕ → ℕ → ℕ → ℕ

-- `num_of_hash_signs`
abbrev pub num_of_hash_signs : ℕ
num_of_hash_signs = 200

-- `buffer` of `snprintf`, of 200 bytes.
abbrev pub in_buffer : Bytes → Bytes
in_buffer text = take (200 - 1) text

abbrev pub threshold : ℕ → ℕ
threshold b = get_or threshold_values b 0

module _ (f : Formats) (total_marks count : ℕ) where
  -- The line of zone `b`.
  unfoldable pub line : ℕ → ℕ → ℕ → Bytes
  line b bucket sum =
      let upper = if b == total_threshold_values - 2 then none else some (threshold (b + 1)) in
      let signs = if total_marks == 0 then num_of_hash_signs else total_marks in
      in_buffer (f.row (threshold b) upper bucket count sum)
      ++ (replicate (f.marks signs bucket count) b'#' ++ 10 ∷ [])

  -- The loop over the buckets from `b` on.
  unfoldable pub rows : List ℕ → ℕ → ℕ → Bytes
  rows [] b sum = []
  rows (bucket ∷ buckets) b sum = elim (bucket == 0) [
    | true ↦ rows buckets (b + 1) sum
    | false ↦
        line b bucket ((sum + bucket) % u64_mod) ++ rows buckets (b + 1) ((sum + bucket) % u64_mod)
  ]

unfoldable pub to_string : Formats → ℕ → Histogram → Bytes
unfolding rows
to_string f total_marks h =
    if h.count == 0
    then in_buffer f.no_data
    else in_buffer (f.head h.count h.min h.max (average h))
      ++ rows f total_marks h.count h.buckets 0 0
