-- ===== src/Histogram/Show/Tests.antt =====
-- The text of a histogram with one value.
use libnebula.Prelude.{ℕ, Option, none, some, ◌-◌, ◌≡◌, refl, [], ◌∷◌, ◌++◌, arith}
use libnebula.Histogram.{total_threshold_values, threshold_values, Histogram, empty}
use libnebula.Histogram.Zone.{zone_of}
use libnebula.Histogram.Summary.{
  min_of, max_of, occurrences, added, empty-Summarises, added-Summarises,
}
use libnebula.Histogram.Show.{Formats, to_string}
use libnebula.Histogram.Show.Lines.{zone_lines, below, to_string_lem}

abbrev end_text : Option ℕ → ℕ
end_text none = b'-'
end_text (some n) = n

-- Numbers stand for their texts, and there is a mark for each value.
abbrev formats : Formats
formats = record {
  no_data = b'-' ∷ [];
  head = λ count least greatest mean. count ∷ least ∷ greatest ∷ mean ∷ [];
  row = λ lower upper n count sum. lower ∷ end_text upper ∷ n ∷ count ∷ sum ∷ [];
  marks = λ total n count. n;
}

abbrev one : Histogram
one = added empty 57

to_string_lem_example :
    (to_string formats 0 one ≡ (1 ∷ 57 ∷ 57 ∷ 57 ∷ []) ++ 50 ∷ 60 ∷ 1 ∷ 1 ∷ 1 ∷ b'#' ∷ 10 ∷ [])
    × (below (total_threshold_values - 1) (57 ∷ []) ≡ 1)
unfolding zone_lines occurrences zone_of threshold_values below min_of max_of
to_string_lem_example =
    to_string_lem formats 0 one (57 ∷ []) (added-Summarises empty [] 57 empty-Summarises)
      (omega arith) (omega arith)

no_data_test : to_string formats 0 empty ≡ b'-' ∷ []
unfolding to_string empty
no_data_test = refl
