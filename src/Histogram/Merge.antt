-- ===== src/Histogram/Merge.antt =====
-- What `merge` of src/histogram.cc makes of two histograms.
use libnebula.Prelude.{
  ℕ, zero, suc, ◌+◌, ◌%◌, ◌<◌, ◌≡◌, refl, sym, ap, ap₂, ◌∙◌, some, List, [], ◌∷◌, ◌++◌, arith,
  length, get_or, length-append, sum-append,
}
use libnebula.Histogram.{u64_mod, Histogram, empty, add_buckets, merge, add_all}
use libnebula.Histogram.Summary.{
  Summarises, min_of-append, max_of-append, occurrences-append, empty-Summarises,
  add_all-Summarises,
}

add_buckets-cells :
    (xs ys : List ℕ)
    → length xs ≡ length ys
    → (k : ℕ) → get_or (add_buckets xs ys) k 0 % u64_mod ≡ (get_or xs k 0 + get_or ys k 0) % u64_mod
add_buckets-cells [] [] e k = refl
add_buckets-cells [] (y ∷ ys) e k = absurd (omega arith)
add_buckets-cells (x ∷ xs) [] e k = absurd (omega arith)
add_buckets-cells (x ∷ xs) (y ∷ ys) e zero = omega arith
add_buckets-cells (x ∷ xs) (y ∷ ys) e (suc k) = add_buckets-cells xs ys (omega arith) k

add_buckets-small :
    (xs ys : List ℕ) (k : ℕ) → length xs ≡ length ys → get_or (add_buckets xs ys) k 0 < u64_mod
add_buckets-small [] ys k e = omega arith
add_buckets-small (x ∷ xs) [] k e = absurd (omega arith)
add_buckets-small (x ∷ xs) (y ∷ ys) zero e = omega arith
add_buckets-small (x ∷ xs) (y ∷ ys) (suc k) e = add_buckets-small xs ys k (omega arith)

length-add_buckets : (xs ys : List ℕ) → length (add_buckets xs ys) ≡ length xs
length-add_buckets [] ys = refl
length-add_buckets (x ∷ xs) [] = refl
length-add_buckets (x ∷ xs) (y ∷ ys) = ap suc (length-add_buckets xs ys)

-- Merging a histogram of `vs` into one of `us` gives a histogram of all the values.
merge-Summarises :
    (h other : Histogram) (us vs : List ℕ)
    → Summarises h us
    → Summarises other vs
    → Summarises (merge h other) (us ++ vs)
unfolding merge
merge-Summarises h other us vs s t = record {
  least = ground (arith, s.least, t.least, min_of-append us vs);
  greatest = ground (arith, s.greatest, t.greatest, max_of-append us vs);
  total = omega (arith, s.total, t.total, sum-append us vs);
  counted = omega (arith, s.counted, t.counted, length-append {0} us vs);
  size = length-add_buckets h.buckets other.buckets ∙ s.size;
  cells = λ k.
      let same : length h.buckets ≡ length other.buckets = s.size ∙ sym t.size in
      omega (
        arith,
        s.cells k,
        t.cells k,
        occurrences-append k us vs,
        add_buckets-cells h.buckets other.buckets same k,
        add_buckets-small h.buckets other.buckets k same,
      );
}

list_ext :
    (xs ys : List ℕ) → length xs ≡ length ys → ((k : ℕ) → get_or xs k 0 ≡ get_or ys k 0) → xs ≡ ys
list_ext [] [] e h = refl
list_ext [] (y ∷ ys) e h = absurd (omega arith)
list_ext (x ∷ xs) [] e h = absurd (omega arith)
list_ext (x ∷ xs) (y ∷ ys) e h = ap₂ ◌∷◌ (h 0) (list_ext xs ys (omega arith) (λ k. h (suc k)))

-- The values determine the histogram.
Summarises-unique : (h g : Histogram) (vs : List ℕ) → Summarises h vs → Summarises g vs → h ≡ g
Summarises-unique h g vs s t = λ i. record {
  min = (s.least ∙ sym t.least) i;
  max = (s.greatest ∙ sym t.greatest) i;
  total = (s.total ∙ sym t.total) i;
  count = (s.counted ∙ sym t.counted) i;
  buckets = list_ext h.buckets g.buckets (s.size ∙ sym t.size) (λ k. s.cells k ∙ sym (t.cells k)) i;
}

-- Two fresh histograms that were filled separately and then merged are, field by field, the fresh
-- histogram into which all the values were added, first those of the one and then those of the other.
pub merge-add_all :
    (us vs : List ℕ) (h g : Histogram)
    → add_all empty us ≡ some h
    → add_all empty vs ≡ some g
    → add_all empty (us ++ vs) ≡ some (merge h g)
merge-add_all us vs h g p q =
    let (h', p', s) = add_all-Summarises empty [] us empty-Summarises in
    let (g', q', t) = add_all-Summarises empty [] vs empty-Summarises in
    let (both, r, w) = add_all-Summarises empty [] (us ++ vs) empty-Summarises in
    let eh : h' ≡ h = cc in
    let eg : g' ≡ g = cc in
    r
    ∙ ap some (
        Summarises-unique both (merge h g) (us ++ vs) w
          (merge-Summarises h g us vs (rw eh at s) (rw eg at t)))
