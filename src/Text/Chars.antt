-- ===== src/Text/Chars.antt =====
-- `startsWith`, `endsWith`, `toUpperCase` and `toLowerCase` of src/string.cc, and what they use of
-- <string.h> and <ctype.h> in the C locale.
pub mod Affix
pub mod Case
use libnebula.Prelude.{
  ℕ, zero, suc, ◌+◌, ◌-◌, Bool, true, false, ◌&&◌, Option, none, some, List, [], ◌∷◌, ltb, leb,
  ◌==◌, if◌then◌else◌, drop,
}
use libnebula.Text.{Bytes, strlen}

-- `strncmp(a, b, n) == 0`
unfoldable pub strncmp_eq : Bytes → Bytes → ℕ → Option Bool
strncmp_eq a b zero = some true
strncmp_eq [] b (suc n) = none
strncmp_eq (c ∷ a) [] (suc n) = none
strncmp_eq (c ∷ a) (d ∷ b) (suc n) = elim (c == d) [
  | false ↦ some false
  | true ↦ elim (c == 0) [ true ↦ some true | false ↦ strncmp_eq a b n ]
]

-- The comparison of both functions, at the offset that `at` gives for the two lengths.
abbrev pub compare_at : (ℕ → ℕ → ℕ) → Bytes → Bytes → Option Bool
compare_at at src other = elim (strlen src) [
  | none ↦ none
  | some la ↦ elim (strlen other) [
    | none ↦ none
    | some lb ↦ if ltb la lb then some false else strncmp_eq (drop (at la lb) src) other lb
  ]
]

unfoldable pub starts_with : Bytes → Bytes → Option Bool
unfolding strncmp_eq
starts_with src prefix = compare_at (λ la lb. 0) src prefix

unfoldable pub ends_with : Bytes → Bytes → Option Bool
unfolding strncmp_eq
ends_with src suffix = compare_at (λ la lb. la - lb) src suffix

-- `toupper` and `tolower`
abbrev pub toupper : ℕ → ℕ
toupper c = if leb b'a' c && leb c b'z' then c - 32 else c

abbrev pub tolower : ℕ → ℕ
tolower c = if leb b'A' c && leb c b'Z' then c + 32 else c

-- The loop of both functions over the first `len` bytes.
unfoldable pub case_loop : (ℕ → ℕ) → ℕ → Bytes → Bytes
case_loop f zero input = input
case_loop f (suc len) [] = []
case_loop f (suc len) (c ∷ input) = f c ∷ case_loop f len input

unfoldable pub to_upper_case : Bytes → Option Bytes
unfolding case_loop
to_upper_case input = elim (strlen input) [
  | none ↦ none
  | some len ↦ some (case_loop toupper len input)
]

unfoldable pub to_lower_case : Bytes → Option Bytes
unfolding case_loop
to_lower_case input = elim (strlen input) [
  | none ↦ none
  | some len ↦ some (case_loop tolower len input)
]
