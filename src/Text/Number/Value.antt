-- ===== src/Text/Number/Value.antt =====
-- What the parsers make of a decimal number with a suffix.
use libnebula.Prelude.{
  ℕ, zero, suc, ◌+◌, ◌-◌, ◌*◌, ◌%◌, ◌^◌, ◌≤◌, ◌<◌, ◌≡◌, refl, sym, ap, ◌∙◌, inl, inr, Bool-cases,
  Bool, true, false, some, List, [], ◌∷◌, ◌++◌, arith, map, ltb, ◌==◌, if◌then◌else◌, All,
}
use libnebula.Prelude.Int.{ℤ, pos, negsuc, i64}
use libnebula.Text.{Bytes}
use libnebula.Text.Number.{
  is_space, is_digit, read_digits, read_sign, read_number, ulong_max, factor, str_to_u64,
  str_to_i64, times, signed, is_limit,
}

-- The number that decimal digits stand for, after `acc`.
unfoldable pub decimal : ℕ → List ℕ → ℕ
decimal acc [] = acc
decimal acc (d ∷ ds) = decimal (acc * 10 + d) ds

-- Its characters.
abbrev pub digits : List ℕ → Bytes
digits = map (λ d. b'0' + d)

abbrev pub IsDecimal : List ℕ → Type 0
IsDecimal ds = All (λ d. d < 10) ds

pub read_digits-digits :
    (ds : List ℕ) (acc c : ℕ) (s : Bytes)
    → IsDecimal ds
    → is_digit c ≡ false
    → read_digits acc (digits ds ++ c ∷ s) ≡ (decimal acc ds, c ∷ s)
unfolding read_digits decimal
read_digits-digits [] acc c s h e = rw (e, read_digits) refl
read_digits-digits (d ∷ ds) acc c s (small, h) e =
    let yes_digit : is_digit (b'0' + d) ≡ true = ground arith in
    let value : b'0' + d - b'0' ≡ d = omega arith in
    rw (yes_digit, value, read_digits) (read_digits-digits ds (acc * 10 + d) c s h e)

pub read_sign-digit :
    (d : ℕ) (s : Bytes) → d < 10 → read_sign ((b'0' + d) ∷ s) ≡ (false, (b'0' + d) ∷ s)
unfolding read_sign
read_sign-digit d s small =
    let space : is_space (b'0' + d) ≡ false = ground arith in
    let minus : (b'0' + d == b'-') ≡ false = ground arith in
    let plus : (b'0' + d == b'+') ≡ false = ground arith in
    rw (space, read_sign) (rw (minus, plus) refl)

-- What precedes the digits, and whether it negates them.
abbrev pub sign : Bool → Bytes
sign true = b'-' ∷ []
sign false = []

read_sign-sign :
    (minus : Bool) (d : ℕ) (s : Bytes)
    → d < 10
    → read_sign (sign minus ++ (b'0' + d) ∷ s) ≡ (minus, (b'0' + d) ∷ s)
unfolding read_sign
read_sign-sign true d s small = refl
read_sign-sign false d s small = read_sign-digit d s small

read_number-digits :
    (minus : Bool) (d : ℕ) (ds : List ℕ) (c : ℕ) (s : Bytes)
    → IsDecimal (d ∷ ds)
    → is_digit c ≡ false
    → read_number (sign minus ++ (digits (d ∷ ds) ++ c ∷ s)) ≡ (minus, decimal 0 (d ∷ ds), c ∷ s)
unfolding read_number
read_number-digits minus d ds c s (small, h) e =
    let yes_digit : is_digit (b'0' + d) ≡ true = ground arith in
    rw (read_sign-sign minus d (digits ds ++ c ∷ s) small, read_number)
      (rw yes_digit (
        rw (read_digits-digits (d ∷ ds) 0 c s (small, h) e) (
          ap (λ (r : Bool × Bytes). (r.0, decimal 0 (d ∷ ds), c ∷ s))
            (read_sign-sign minus d (digits ds ++ c ∷ s) small))))

-- `strToU64` of the digits of a number below 2^64 - 1, with what follows them, returns the number,
-- or its product with the factor of the suffix cut to 64 bits.
str_to_u64_lem :
    (d : ℕ) (ds : List ℕ) (c : ℕ) (s : Bytes) (parse_suffix : Bool)
    → IsDecimal (d ∷ ds)
    → is_digit c ≡ false
    → decimal 0 (d ∷ ds) < ulong_max
    → str_to_u64 (digits (d ∷ ds) ++ c ∷ s) parse_suffix
      ≡ (if parse_suffix then decimal 0 (d ∷ ds) * factor (c ∷ s) % 2 ^ 64 else decimal 0 (d ∷ ds))
unfolding str_to_u64
str_to_u64_lem d ds c s parse_suffix h e small =
    let n = decimal 0 (d ∷ ds) in
    let fits : ltb ulong_max n ≡ false = ground arith in
    let below : (n == ulong_max) ≡ false = ground arith in
    rw (read_number-digits false d ds c s h e, str_to_u64) (rw (fits, below) refl)

-- The suffixes with their factors: a small letter for a power of 1000, a capital for one of 1024.
abbrev suffixes : List (ℕ × ℕ)
suffixes =
    (b'k', 1000)
    ∷ (b'm', 1000 * 1000)
    ∷ (b'g', 1000 * 1000 * 1000)
    ∷ (b'K', 1024)
    ∷ (b'M', 1024 * 1024)
    ∷ (b'G', 1024 * 1024 * 1024)
    ∷ []

abbrev find_factor : List (ℕ × ℕ) → ℕ → ℕ
find_factor [] c = 1
find_factor ((letter, f) ∷ rest) c = if c == letter then f else find_factor rest c

-- The factor of a character, 1 for one that is no suffix.
abbrev pub multiplier : ℕ → ℕ
multiplier = find_factor suffixes

-- The number with its sign, and the number from which on it is LONG_MIN or LONG_MAX, or beyond.
abbrev pub value : Bool → ℕ → ℤ
value false n = pos n
value true zero = pos 0
value true (suc n) = negsuc n

abbrev pub limit : Bool → ℕ
limit true = 2 ^ 63
limit false = 2 ^ 63 - 1

factor-multiplier : (c : ℕ) (s : Bytes) → (factor (c ∷ s) ≡ multiplier c) × (0 < multiplier c)
unfolding factor
factor-multiplier c s = (ground arith, ground arith)

signed-value : (minus : Bool) (n : ℕ) → signed minus n ≡ value minus n
signed-value true zero = refl
signed-value true (suc n) = refl
signed-value false n = refl

times_negative : (n f m : ℕ) → (n + 1) * f ≡ suc m → times (negsuc n) f ≡ i64 (value true (suc m))
times_negative n f m e = rw e (ground arith)

times-i64 : (minus : Bool) (n f : ℕ) → 0 < f → times (value minus n) f ≡ i64 (value minus (n * f))
times-i64 false n f h = refl
times-i64 true zero f h = let nothing : 0 * f ≡ 0 = omega arith in rw nothing refl
times-i64 true (suc n) f h =
    let e : (n + 1) * f ≡ suc ((n + 1) * f - 1) = grind arith in
    times_negative n f ((n + 1) * f - 1) e
    ∙ ap (λ m. i64 (value true m)) (sym e ∙ ap (λ k. k * f) (omega arith))

value-is_limit : (minus : Bool) (n : ℕ) → n < limit minus → is_limit (value minus n) ≡ false
value-is_limit true zero h = refl
value-is_limit true (suc n) h = ground arith
value-is_limit false n h = ground arith

-- The test of `strtol` on a number that is too large.
clamped_true :
    (n : ℕ)
    → 2 ^ 63 ≤ n
    → (if ltb (2 ^ 63) n then negsuc (2 ^ 63 - 1) else signed true n) ≡ negsuc (2 ^ 63 - 1)
clamped_true zero h = absurd (omega arith)
clamped_true (suc n) h = ground arith

clamped_false :
    (n : ℕ)
    → 2 ^ 63 - 1 ≤ n
    → (if ltb (2 ^ 63 - 1) n then pos (2 ^ 63 - 1) else pos n) ≡ pos (2 ^ 63 - 1)
clamped_false n h = ground arith

module _ (d : ℕ) (ds : List ℕ) (c : ℕ) (s : Bytes) (parse_suffix : Bool) (h : IsDecimal (d ∷ ds))
    (e : is_digit c ≡ false) where
  inside :
      (minus : Bool)
      → decimal 0 (d ∷ ds) < limit minus
      → str_to_i64 (sign minus ++ (digits (d ∷ ds) ++ c ∷ s)) parse_suffix ≡ (
          if parse_suffix
          then times (value minus (decimal 0 (d ∷ ds))) (factor (c ∷ s))
          else some (value minus (decimal 0 (d ∷ ds))))
  unfolding str_to_i64
  inside true small =
      let n = decimal 0 (d ∷ ds) in
      let fits : ltb (2 ^ 63) n ≡ false = ground arith in
      rw (read_number-digits true d ds c s h e, str_to_i64)
        (rw (fits, signed-value true n, value-is_limit true n small) refl)
  inside false small =
      let n = decimal 0 (d ∷ ds) in
      let fits : ltb (2 ^ 63 - 1) n ≡ false = ground arith in
      rw (read_number-digits false d ds c s h e, str_to_i64)
        (rw (fits, value-is_limit false n small) refl)

  outside :
      (minus : Bool)
      → limit minus ≤ decimal 0 (d ∷ ds)
      → str_to_i64 (sign minus ++ (digits (d ∷ ds) ++ c ∷ s)) parse_suffix
        ≡ some (value minus (limit minus))
  unfolding str_to_i64
  outside true large =
      rw (read_number-digits true d ds c s h e, str_to_i64)
        (rw (clamped_true (decimal 0 (d ∷ ds)) large) refl)
  outside false large =
      rw (read_number-digits false d ds c s h e, str_to_i64)
        (rw (clamped_false (decimal 0 (d ∷ ds)) large) refl)

  -- `strToI64` of decimal digits, with or without a minus sign, and with what follows them: below
  -- 2^63 - 1, or 2^63 with a minus sign, it returns the number, or, if suffixes are to be read, its
  -- product with 1000, 1000^2 or 1000^3 for 'k', 'm' or 'g', with 1024, 1024^2 or 1024^3 for 'K',
  -- 'M' or 'G', and with 1 for another character, undefined if it does not fit into 64 bits; from
  -- there on it returns LONG_MAX or LONG_MIN, whatever the suffix.
  pub str_to_i64_lem :
      (minus : Bool)
      → str_to_i64 (sign minus ++ (digits (d ∷ ds) ++ c ∷ s)) parse_suffix ≡ (
          if ltb (decimal 0 (d ∷ ds)) (limit minus)
          then (if parse_suffix
              then i64 (value minus (decimal 0 (d ∷ ds) * multiplier c))
              else some (value minus (decimal 0 (d ∷ ds))))
          else some (value minus (limit minus)))
  str_to_i64_lem minus = elim (Bool-cases (ltb (decimal 0 (d ∷ ds)) (limit minus))) [
    | inl less ↦
        let n = decimal 0 (d ∷ ds) in
        let (same, positive) = factor-multiplier c s in
        rw less (
          inside minus (ground arith)
          ∙ ap (λ t. if parse_suffix then t else some (value minus n))
              (ap (times (value minus n)) same ∙ times-i64 minus n (multiplier c) positive))
    | inr more ↦ rw more (outside minus (ground arith))
  ]
