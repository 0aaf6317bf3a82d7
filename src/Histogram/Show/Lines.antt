-- ===== src/Histogram/Show/Lines.antt =====
-- What `toString` prints of the values that a histogram holds.
use libnebula.Prelude.{
  ℕ, zero, suc, ◌+◌, ◌-◌, ◌/◌, ◌%◌, ◌≤◌, ◌<◌, ◌≡◌, refl, sym, ap, ap₂, ◌∙◌, true, false, Bool-cases,
  inl, inr, Option, some, none, List, [], ◌∷◌, ◌++◌, arith, ltb, ◌==◌, length, get_or, take,
  replicate, sum, if◌then◌else◌,
}
use libnebula.Text.{Bytes}
use libnebula.Histogram.{u64_mod, total_threshold_values, threshold_values, Histogram, average}
use libnebula.Histogram.Zone.{zone_of, zone_of-lt}
use libnebula.Histogram.Summary.{min_of, max_of, occurrences, Summarises}
use libnebula.Histogram.Show.{
  Formats, num_of_hash_signs, in_buffer, threshold, line, rows, to_string,
}

-- How many of the values lie below zone `b`.
unfoldable pub below : ℕ → List ℕ → ℕ
below b [] = 0
below b (v ∷ vs) = (if ltb (zone_of v) b then 1 else 0) + below b vs

below-zero : (vs : List ℕ) → below 0 vs ≡ 0
unfolding below
below-zero [] = refl
below-zero (v ∷ vs) = ground (arith, below-zero vs)

below-next : (b : ℕ) (vs : List ℕ) → below (b + 1) vs ≡ below b vs + occurrences b vs
unfolding below occurrences
below-next b [] = refl
below-next b (v ∷ vs) = ground (arith, below-next b vs)

below-le : (b : ℕ) (vs : List ℕ) → below b vs ≤ length vs
unfolding below
below-le b [] = omega arith
below-le b (v ∷ vs) = ground (arith, below-le b vs)

below-all : (vs : List ℕ) → below (total_threshold_values - 1) vs ≡ length vs
unfolding below
below-all [] = refl
below-all (v ∷ vs) = ground (arith, zone_of-lt v, below-all vs)

occurrences-le : (b : ℕ) (vs : List ℕ) → occurrences b vs ≤ length vs
unfolding occurrences
occurrences-le b [] = omega arith
occurrences-le b (v ∷ vs) = ground (arith, occurrences-le b vs)

-- The upper end of a zone that ends at `upper`, before `rest`: the last zone has none.
abbrev pub upper_end : ℕ → List ℕ → Option ℕ
upper_end upper [] = none
upper_end upper (next ∷ rest) = some upper

-- The lines of zone `b` and those above it for the values `vs`, by a walk along the bounds from the
-- lower one of zone `b` on: none for a zone without a value.
unfoldable pub zone_lines : Formats → ℕ → List ℕ → List ℕ → ℕ → Bytes
zone_lines f signs vs [] b = []
zone_lines f signs vs (lower ∷ []) b = []
zone_lines f signs vs (lower ∷ upper ∷ rest) b =
    let n = occurrences b vs in
    (if n == 0
      then []
      else take 199 (f.row lower (upper_end upper rest) n (length vs) (below b vs + n))
        ++ (replicate (f.marks signs n (length vs)) b'#' ++ 10 ∷ []))
    ++ zone_lines f signs vs (upper ∷ rest) (b + 1)

-- The number of marks of a whole histogram: 200 unless another is asked for.
abbrev pub marks_of : ℕ → ℕ
marks_of zero = 200
marks_of (suc n) = suc n

-- The text of a line, by the bounds that stand in the table.
line-bounds :
    (f : Formats) (total_marks count b k sum lower upper : ℕ) (rest : List ℕ)
    → threshold b ≡ lower
    → threshold (b + 1) ≡ upper
    → b + 1 + length rest ≡ total_threshold_values - 1
    → line f total_marks count b k sum
      ≡ take 199 (f.row lower (upper_end upper rest) k count sum)
        ++ (replicate (f.marks (marks_of total_marks) k count) b'#' ++ 10 ∷ [])
unfolding line
line-bounds f total_marks count b k sum lower upper rest e e' size =
    ap₂
      (λ o m.
        take 199 (f.row (threshold b) o k count sum)
        ++ (replicate (f.marks m k count) b'#' ++ 10 ∷ []))
      (ends rest size ∙ ap (λ u. upper_end u rest) e') (signs total_marks)
    ∙ ap
        (λ l.
          take 199 (f.row l (upper_end upper rest) k count sum)
          ++ (replicate (f.marks (marks_of total_marks) k count) b'#' ++ 10 ∷ []))
        e
  where
    ends :
        (rest : List ℕ)
        → b + 1 + length rest ≡ total_threshold_values - 1
        → (if b == total_threshold_values - 2 then none else some (threshold (b + 1)))
          ≡ upper_end (threshold (b + 1)) rest
    ends [] size = ground arith
    ends (x ∷ rest) size = ground arith

    signs : (m : ℕ) → (if m == 0 then num_of_hash_signs else m) ≡ marks_of m
    signs zero = refl
    signs (suc m) = ground arith

module _ (f : Formats) (total_marks : ℕ) (vs : List ℕ) (few : length vs < u64_mod) where
  rows-zone_lines :
      (buckets bounds : List ℕ) (b : ℕ)
      → length bounds ≡ suc (length buckets)
      → b + length buckets ≡ total_threshold_values - 1
      → ((j : ℕ) → get_or threshold_values (b + j) 0 ≡ get_or bounds j 0)
      → ((j : ℕ) → j < length buckets → get_or buckets j 0 ≡ occurrences (b + j) vs)
      → rows f total_marks (length vs) buckets b (below b vs)
        ≡ zone_lines f (marks_of total_marks) vs bounds b
  unfolding rows zone_lines
  rows-zone_lines [] [] b size ends at cells = refl
  rows-zone_lines [] (lower ∷ []) b size ends at cells = refl
  rows-zone_lines [] (lower ∷ upper ∷ rest) b size ends at cells = absurd (omega (arith, size))
  rows-zone_lines (k ∷ buckets) [] b size ends at cells = absurd (omega (arith, size))
  rows-zone_lines (k ∷ buckets) (lower ∷ []) b size ends at cells = absurd (omega (arith, size))
  rows-zone_lines (k ∷ buckets) (lower ∷ upper ∷ rest) b size ends at cells =
      let n = occurrences b vs in
      let here : k ≡ n = cells 0 (omega arith) ∙ ap (λ i. occurrences i vs) (omega arith) in
      let later : (j : ℕ) → j < length buckets → get_or buckets j 0 ≡ occurrences (b + 1 + j) vs =
        λ j h. cells (suc j) (omega arith) ∙ ap (λ i. occurrences i vs) (omega arith) in
      let lower_at : threshold b ≡ lower =
        ap (λ i. get_or threshold_values i 0) (omega arith) ∙ at 0 in
      let upper_at : threshold (b + 1) ≡ upper = at 1 in
      let bounds_at : (j : ℕ) → get_or threshold_values (b + 1 + j) 0 ≡ get_or (upper ∷ rest) j 0 =
        λ j. ap (λ i. get_or threshold_values i 0) (omega arith) ∙ at (suc j) in
      let walked =
        rows-zone_lines buckets (upper ∷ rest) (b + 1) (omega (arith, size)) (omega (arith, ends))
          bounds_at later in
      let next : below b vs + n ≡ below (b + 1) vs = omega (arith, below-next b vs) in
      let sum : (below b vs + n) % u64_mod ≡ below b vs + n =
        omega (arith, below-next b vs, below-le (b + 1) vs) in
      elim (Bool-cases (n == 0)) [
        | inl nothing ↦
            let zero_k : (k == 0) ≡ true = ap (λ x. x == 0) here ∙ nothing in
            let same : below b vs ≡ below (b + 1) vs = ground (arith, next) in
            rw (zero_k, rows)
              (rw nothing (ap (rows f total_marks (length vs) buckets (b + 1)) same ∙ walked))
        | inr something ↦
            let some_k : (k == 0) ≡ false = ap (λ x. x == 0) here ∙ something in
            let sum_k : (below b vs + k) % u64_mod ≡ below b vs + n =
              ap (λ x. (below b vs + x) % u64_mod) here ∙ sum in
            rw (some_k, rows)
              (rw something (
                ap₂ ◌++◌
                  (ap₂ (line f total_marks (length vs) b) here sum_k
                    ∙ line-bounds f total_marks (length vs) b n (below b vs + n) lower upper rest
                        lower_at upper_at (omega (arith, size, ends)))
                  (ap (rows f total_marks (length vs) buckets (b + 1)) (sum_k ∙ next) ∙ walked)))
      ]

bounds_size : length threshold_values ≡ total_threshold_values
unfolding threshold_values
bounds_size = refl

-- The average of a histogram that holds some values.
average-Summarises :
    (h : Histogram) (vs : List ℕ)
    → Summarises h vs
    → 0 < length vs
    → length vs < u64_mod
    → average h ≡ sum vs % u64_mod / length vs
unfolding average
average-Summarises h vs sums some_value few =
    let counted : h.count ≡ length vs = sums.counted ∙ omega arith in
    let nonzero : (h.count == 0) ≡ false = ground arith in rw nonzero (ap₂ ◌/◌ sums.total counted)

-- toString of a histogram that holds some values, fewer than 2^64 and at least one: a first line
-- with their number, their minimum, their maximum and their sum, modulo 2^64, divided by their
-- number; and then, in ascending order, a line for each zone that has a value, with the two
-- thresholds between which the zone lies, no upper one for the last zone, the number of values in it,
-- the number of all values, and the number of those in this zone and the zones below it, each cut to
-- 199 bytes, and behind it the marks for the number asked for, 200 for 0, and a newline; so the last
-- sum is the number of all values.
pub to_string_lem :
    (f : Formats) (total_marks : ℕ) (h : Histogram) (vs : List ℕ)
    → Summarises h vs
    → 0 < length vs
    → length vs < u64_mod
    → (to_string f total_marks h
        ≡ take 199 (f.head (length vs) (min_of vs) (max_of vs) (sum vs % u64_mod / length vs))
          ++ zone_lines f (marks_of total_marks) vs threshold_values 0)
      × (below (total_threshold_values - 1) vs ≡ length vs)
unfolding to_string
to_string_lem f total_marks h vs sums some_value few =
    let counted : h.count ≡ length vs = sums.counted ∙ omega arith in
    let nonzero : (h.count == 0) ≡ false = ground arith in
    let cells : (j : ℕ) → j < length h.buckets → get_or h.buckets j 0 ≡ occurrences (0 + j) vs =
      λ j inside. sums.cells j ∙ small j ∙ ap (λ i. occurrences i vs) (omega arith) in
    let walked =
      rows-zone_lines f total_marks vs few h.buckets threshold_values 0
        (omega (arith, bounds_size, sums.size)) (omega (arith, sums.size))
        (λ j. ap (λ i. get_or threshold_values i 0) (omega arith)) cells in
    (
      rw nonzero (
          ap₂ ◌++◌ (ap in_buffer (head_is counted)) (
            ap₂ (λ c s. rows f total_marks c h.buckets 0 s) counted (sym (below-zero vs))
            ∙ walked)),
      below-all vs,
    )
  where
    small : (j : ℕ) → occurrences j vs % u64_mod ≡ occurrences j vs
    small j = omega (arith, occurrences-le j vs)

    head_is :
        h.count ≡ length vs
        → f.head h.count h.min h.max (average h)
          ≡ f.head (length vs) (min_of vs) (max_of vs) (sum vs % u64_mod / length vs)
    head_is counted =
        ap₂ (λ c a. f.head c h.min h.max a) counted (average-Summarises h vs sums some_value few)
        ∙ ap₂ (λ a b. f.head (length vs) a b (sum vs % u64_mod / length vs)) sums.least
            sums.greatest
