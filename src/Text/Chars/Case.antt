-- ===== src/Text/Chars/Case.antt =====
-- What the case functions do to a string.
use libnebula.Prelude.{
  ℕ, ◌≡◌, refl, ap, sym, Option, none, some, [], ◌∷◌, ◌++◌, arith, map, length, ◌∙◌,
}
use libnebula.Text.{Bytes, strlen}
use libnebula.Text.Copy.{IsText, strlen-text}
use libnebula.Text.Chars.{toupper, tolower, case_loop, to_upper_case, to_lower_case}

case_loop-map :
    (f : ℕ → ℕ) (text junk : Bytes)
    → case_loop f (length text) (text ++ 0 ∷ junk) ≡ map f text ++ 0 ∷ junk
unfolding case_loop
case_loop-map f [] junk = refl
case_loop-map f (c ∷ text) junk = ap (λ l. f c ∷ l) (case_loop-map f text junk)

tolower-toupper : (text : Bytes) → map tolower (map toupper text) ≡ map tolower text
tolower-toupper [] = refl
tolower-toupper (c ∷ text) =
    let e : tolower (toupper c) ≡ tolower c = ground arith in rw (e, tolower-toupper text) refl

IsText-toupper : (text : Bytes) → IsText text → IsText (map toupper text)
IsText-toupper [] t = t
IsText-toupper (c ∷ text) (nonzero, t) = (ground arith, IsText-toupper text t)

change-text :
    (f : ℕ → ℕ) (text junk : Bytes)
    → IsText text
    → elim (strlen (text ++ 0 ∷ junk)) as (λ x. Option Bytes) [
      | none ↦ none
      | some len ↦ some (case_loop f len (text ++ 0 ∷ junk))
    ]
      ≡ some (map f text ++ 0 ∷ junk)
change-text f text junk t = rw (strlen-text text junk t) (ap some (case_loop-map f text junk))

-- `toUpperCase` and `toLowerCase` of a string change each of its characters and no byte after them, and
-- lower case after upper case is lower case.
case_lem :
    (text junk : Bytes)
    → IsText text
    → (to_upper_case (text ++ 0 ∷ junk) ≡ some (map toupper text ++ 0 ∷ junk))
      × (to_lower_case (text ++ 0 ∷ junk) ≡ some (map tolower text ++ 0 ∷ junk))
      × (to_lower_case (map toupper text ++ 0 ∷ junk) ≡ to_lower_case (text ++ 0 ∷ junk))
unfolding to_upper_case to_lower_case
case_lem text junk t = (
  change-text toupper text junk t,
  change-text tolower text junk t,
  change-text tolower (map toupper text) junk (IsText-toupper text t)
      ∙ ap (λ l. some (l ++ 0 ∷ junk)) (tolower-toupper text)
      ∙ sym (change-text tolower text junk t),
)
