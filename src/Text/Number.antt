-- ===== src/Text/Number.antt =====
-- `strToI64` and `strToU64` of src/string.cc, and what they use of <stdlib.h>: `strtol` and
-- `strtoul` to base 10, which skip blanks, take a sign and read digits.
pub mod Value
use libnebula.Prelude.{
  ℕ, zero, suc, ◌+◌, ◌-◌, ◌*◌, ◌%◌, ◌^◌, Bool, true, false, ◌&&◌, ◌||◌, Option, none, some, List,
  [], ◌∷◌, ltb, leb, ◌==◌, if◌then◌else◌,
}
use libnebula.Prelude.Int.{ℤ, pos, negsuc}
use libnebula.Text.{Bytes}

-- `isspace`
abbrev pub is_space : ℕ → Bool
is_space c = c == 32 || (leb 9 c && leb c 13)

abbrev pub is_digit : ℕ → Bool
is_digit c = leb b'0' c && leb c b'9'

-- The digits from `s` on, after the number `acc`; and where they end.
unfoldable pub read_digits : ℕ → Bytes → ℕ × Bytes
read_digits acc [] = (acc, [])
read_digits acc (c ∷ s) = elim (is_digit c) [
  | true ↦ read_digits (acc * 10 + (c - b'0')) s
  | false ↦ (acc, c ∷ s)
]

-- Whether there is a minus sign, and the bytes after blanks and sign.
unfoldable pub read_sign : Bytes → Bool × Bytes
read_sign [] = (false, [])
read_sign (c ∷ s) = elim (is_space c) [
  | true ↦ read_sign s
  | false ↦ elim (c == b'-') [
    | true ↦ (true, s)
    | false ↦ elim (c == b'+') [ true ↦ (false, s) | false ↦ (false, c ∷ s) ]
  ]
]

-- Sign, magnitude and end pointer; without a digit the end pointer is the start of the string.
unfoldable pub read_number : Bytes → Bool × ℕ × Bytes
unfolding read_sign read_digits
read_number s =
    let (minus, t) = read_sign s in
    elim t [
      | [] ↦ (false, 0, s)
      | c ∷ r ↦ elim (is_digit c) [
        | true ↦ let (n, rest) = read_digits 0 (c ∷ r) in (minus, n, rest)
        | false ↦ (false, 0, s)
      ]
    ]

abbrev pub ulong_max : ℕ
ulong_max = 2 ^ 64 - 1

-- `strtoul`: ULONG_MAX for a magnitude out of range, and a negated value wraps.
abbrev strtoul : Bytes → ℕ × Bytes
strtoul s =
    let (minus, n, rest) = read_number s in
    (if ltb ulong_max n then ulong_max else if minus then (2 ^ 64 - n) % 2 ^ 64 else n, rest)

abbrev pub signed : Bool → ℕ → ℤ
signed true (suc n) = negsuc n
signed true zero = pos 0
signed false n = pos n

-- `strtol`: LONG_MIN or LONG_MAX for a value out of range.
abbrev strtol : Bytes → ℤ × Bytes
strtol s =
    let (minus, n, rest) = read_number s in
    (
      if minus
          then (if ltb (2 ^ 63) n then negsuc (2 ^ 63 - 1) else signed true n)
          else (if ltb (2 ^ 63 - 1) n then pos (2 ^ 63 - 1) else pos n),
      rest,
    )

-- The factor of the switch on `*ptr`.
unfoldable pub factor : Bytes → ℕ
factor [] = 1
factor (c ∷ s) =
    if c == b'K'
    then 2 ^ 10
    else if c == b'k'
    then 1000
    else if c == b'M'
    then 2 ^ 20
    else if c == b'm'
    then 1000000
    else if c == b'G'
    then 2 ^ 30
    else if c == b'g'
    then 1000000000
    else 1

unfoldable pub str_to_u64 : Bytes → Bool → ℕ
unfolding read_number factor
str_to_u64 s parse_suffix =
    let (val, ptr) = strtoul s in
    if val == ulong_max then val else if parse_suffix then val * factor ptr % 2 ^ 64 else val

-- A product on `long`: out of range it is undefined behaviour, `none`.
abbrev pub times : ℤ → ℕ → Option ℤ
times (pos n) f = if ltb (n * f) (2 ^ 63) then some (pos (n * f)) else none
times (negsuc n) f = if leb ((n + 1) * f) (2 ^ 63) then some (negsuc ((n + 1) * f - 1)) else none

abbrev pub is_limit : ℤ → Bool
is_limit (pos n) = n == 2 ^ 63 - 1
is_limit (negsuc n) = n == 2 ^ 63 - 1

unfoldable pub str_to_i64 : Bytes → Bool → Option ℤ
unfolding read_number factor
str_to_i64 s parse_suffix =
    let (val, ptr) = strtol s in
    if is_limit val then some val else if parse_suffix then times val (factor ptr) else some val
