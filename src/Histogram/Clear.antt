-- ===== src/Histogram/Clear.antt =====
-- `Histogram::clear` against the constructor.
use libnebula.Prelude.{ℕ, ◌≡◌, refl, ◌∙◌, List, [], ◌∷◌, arith, ap, sym}
use mathlib.Core.Option
use libnebula.Histogram.{Histogram, empty, clear, note, add_all}
use libnebula.Histogram.Summary.{added, add_all-cons}

-- The histogram with its minimum set to 0.
abbrev min_zero : Histogram → Histogram
min_zero h = record h { min = 0 }

added-min_zero : (h : Histogram) (v : ℕ) → added (min_zero h) v ≡ min_zero (added h v)
unfolding note
added-min_zero h v = ground arith

add_all-min_zero :
    (h : Histogram) (vs : List ℕ) → add_all (min_zero h) vs ≡ Option.map min_zero (add_all h vs)
unfolding add_all
add_all-min_zero h [] = refl
add_all-min_zero h (v ∷ vs) =
    add_all-cons (min_zero h) v vs
    ∙ ap (λ g. add_all g vs) (added-min_zero h v)
    ∙ add_all-min_zero (added h v) vs
    ∙ ap (Option.map min_zero) (sym (add_all-cons h v vs))

-- A histogram that was cleared does not start afresh: after the same calls of `add` it equals a
-- new histogram in every field but the minimum, which stays 0 whatever the values are.
clear-add_all :
    (h : Histogram) (vs : List ℕ) → add_all (clear h) vs ≡ Option.map min_zero (add_all empty vs)
unfolding clear empty
clear-add_all h vs = add_all-min_zero empty vs
