-- ===== src/Histogram/Tests.antt =====
-- Runs of the histogram on concrete values.
use libnebula.Prelude.{ℕ, ◌≡◌, refl, some, [], ◌∷◌, ◌++◌}
use libnebula.Histogram.{threshold_values, Histogram, empty, merge, at, bucket_of, add_all}
use libnebula.Histogram.Zone.{zone_of, bucket_of-zone_of}
use libnebula.Histogram.Merge.{merge-add_all}
use libnebula.Histogram.Summary.{
  Summarises, added, empty-Summarises, add_all-cons, add_all-Summarises, added-Summarises,
}

-- 57 lies in the zone from 50 to 60.
bucket_of_test : bucket_of 57 ≡ at 21
unfolding bucket_of threshold_values
bucket_of_test = refl

bucket_of-zone_of_example : bucket_of 57 ≡ at (zone_of 57)
bucket_of-zone_of_example = bucket_of-zone_of 57

add_all-Summarises_example :
    (h' : Histogram) × (add_all empty (57 ∷ 3 ∷ []) ≡ some h') × Summarises h' ([] ++ 57 ∷ 3 ∷ [])
add_all-Summarises_example = add_all-Summarises empty [] (57 ∷ 3 ∷ []) empty-Summarises

abbrev only : ℕ → Histogram
only v = added empty v

only-Summarises : (v : ℕ) → Summarises (only v) (v ∷ [])
only-Summarises v = added-Summarises empty [] v empty-Summarises

merge-add_all_example : add_all empty ((57 ∷ []) ++ 3 ∷ []) ≡ some (merge (only 57) (only 3))
unfolding add_all
merge-add_all_example =
    merge-add_all (57 ∷ []) (3 ∷ []) (only 57) (only 3) (add_all-cons empty 57 [])
      (add_all-cons empty 3 [])
