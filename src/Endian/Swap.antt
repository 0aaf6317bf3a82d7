-- ===== src/Endian/Swap.antt =====
-- The swaps reverse the bytes of a number, and undo themselves.
use libnebula.Prelude.{
  ℕ, zero, suc, ◌+◌, ◌*◌, ◌/◌, ◌%◌, ◌^◌, ◌<◌, ◌≡◌, refl, ap, ◌∙◌, Bool, true, false, arith,
  if◌then◌else◌, bit_and, bit_or, bit_or_shifted, bit_and_ones, List, [], ◌∷◌,
}
use libnebula.Endian.{
  swap16, swap_loop, swap32, swap64, is_little_endian, is_big_endian, to_be16, from_be16, to_le16,
  from_le16, to_be32, from_be32, to_le32, from_le32, to_be64, from_be64, to_le64, from_le64,
}

-- The number read from big-endian digits, after those read already.
pub read : ℕ → List ℕ → ℕ
read out [] = out
read out (b ∷ bs) = read (out * 256 + b) bs

-- The `n` low bytes of a number, the lowest first.
pub bytes : ℕ → ℕ → List ℕ
bytes zero x = []
bytes (suc n) x = (x % 256) ∷ bytes n (x / 256)

swap_loop-step :
    (w out x : ℕ)
    → out * 2 ^ 8 % 2 ^ w ≡ out * 2 ^ 8
    → bit_or (out * 2 ^ 8 % 2 ^ w) (bit_and x 255) ≡ out * 256 + x % 256
swap_loop-step w out x whole =
    let low : bit_and x 255 ≡ x % 256 = bit_and_ones 8 x in
    rw (low, whole) (bit_or_shifted 8 out (x % 256) (omega arith))

shift32 :
    (out x : ℕ) → out < 2 ^ 24 → bit_or (out * 2 ^ 8 % 2 ^ 32) (bit_and x 255) ≡ out * 256 + x % 256
shift32 out x fits = swap_loop-step 32 out x (omega arith)

shift64 :
    (out x : ℕ) → out < 2 ^ 56 → bit_or (out * 2 ^ 8 % 2 ^ 64) (bit_and x 255) ≡ out * 256 + x % 256
shift64 out x fits = swap_loop-step 64 out x (omega arith)

next32 :
    (rounds out x : ℕ)
    → out < 2 ^ 24
    → swap_loop 32 (suc rounds) out x ≡ swap_loop 32 rounds (out * 256 + x % 256) (x / 256)
unfolding swap_loop
next32 rounds out x fits = rw (shift32 out x fits) refl

next64 :
    (rounds out x : ℕ)
    → out < 2 ^ 56
    → swap_loop 64 (suc rounds) out x ≡ swap_loop 64 rounds (out * 256 + x % 256) (x / 256)
unfolding swap_loop
next64 rounds out x fits = rw (shift64 out x fits) refl

swap32-read : (x : ℕ) → swap32 x ≡ read 0 (bytes 4 x)
unfolding swap32 swap_loop read bytes
swap32-read x =
    next32 3 0 x (omega arith)
    ∙ next32 2 _ (x / 256) (omega arith)
    ∙ next32 1 _ (x / 256 / 256) (omega arith)
    ∙ next32 0 _ (x / 256 / 256 / 256) (omega arith)

swap64-read : (x : ℕ) → swap64 x ≡ read 0 (bytes 8 x)
unfolding swap64 swap_loop read bytes
swap64-read x =
    next64 7 0 x (omega arith)
    ∙ next64 6 _ (x / 256) (omega arith)
    ∙ next64 5 _ (x / 256 / 256) (omega arith)
    ∙ next64 4 _ (x / 256 / 256 / 256) (omega arith)
    ∙ next64 3 _ (x / 256 / 256 / 256 / 256) (omega arith)
    ∙ next64 2 _ (x / 256 / 256 / 256 / 256 / 256) (omega arith)
    ∙ next64 1 _ (x / 256 / 256 / 256 / 256 / 256 / 256) (omega arith)
    ∙ next64 0 _ (x / 256 / 256 / 256 / 256 / 256 / 256 / 256) (omega arith)

swap16-read : (x : ℕ) → x < 2 ^ 16 → swap16 x ≡ read 0 (bytes 2 x)
unfolding swap16 read bytes
swap16-read x fits =
    let low : bit_and x 255 ≡ x % 256 = bit_and_ones 8 x in
    let whole : x % 256 * 2 ^ 8 % 2 ^ 16 ≡ x % 256 * 2 ^ 8 = omega arith in
    rw (low, whole) (bit_or_shifted 8 (x % 256) (x / 2 ^ 8) (omega arith) ∙ omega arith)

read-small : (x : ℕ) → read 0 (bytes 2 x) < 2 ^ 16
unfolding read bytes
read-small x = omega arith

twice16 : (x : ℕ) → x < 2 ^ 16 → read 0 (bytes 2 (read 0 (bytes 2 x))) ≡ x
unfolding read bytes
twice16 x fits = omega arith

twice32 : (x : ℕ) → x < 2 ^ 32 → read 0 (bytes 4 (read 0 (bytes 4 x))) ≡ x
unfolding read bytes
twice32 x fits = omega arith

twice64 : (x : ℕ) → x < 2 ^ 64 → read 0 (bytes 8 (read 0 (bytes 8 x))) ≡ x
unfolding read bytes
twice64 x fits = omega arith

-- `swap16`, `swap32` and `swap64` of a number that fits give the number whose bytes are those of it
-- in the opposite order, and give the number back when they are applied twice.
pub swap_lem :
    (x y z : ℕ)
    → x < 2 ^ 16
    → y < 2 ^ 32
    → z < 2 ^ 64
    → ((swap16 x ≡ read 0 (bytes 2 x)) × (swap16 (swap16 x) ≡ x))
      × ((swap32 y ≡ read 0 (bytes 4 y)) × (swap32 (swap32 y) ≡ y))
      × ((swap64 z ≡ read 0 (bytes 8 z)) × (swap64 (swap64 z) ≡ z))
swap_lem x y z p q r = (
  (swap16-read x p, ap swap16 (swap16-read x p) ∙ swap16-read _ (read-small x) ∙ twice16 x p),
  (swap32-read y, ap swap32 (swap32-read y) ∙ swap32-read _ ∙ twice32 y q),
  (swap64-read z, ap swap64 (swap64-read z) ∙ swap64-read _ ∙ twice64 z r),
)

-- A conversion there and back, to either order, on a host of either order, gives the number back.
pub from_to_lem :
    (layout : ℕ → ℕ × ℕ) (x y z : ℕ)
    → x < 2 ^ 16
    → y < 2 ^ 32
    → z < 2 ^ 64
    → ((from_be16 layout (to_be16 layout x) ≡ x) × (from_le16 layout (to_le16 layout x) ≡ x))
      × ((from_be32 layout (to_be32 layout y) ≡ y) × (from_le32 layout (to_le32 layout y) ≡ y))
      × ((from_be64 layout (to_be64 layout z) ≡ z) × (from_le64 layout (to_le64 layout z) ≡ z))
unfolding from_be16 to_be16 from_le16 to_le16 from_be32 to_be32 from_le32 to_le32 from_be64 to_be64
    from_le64 to_le64
from_to_lem layout x y z p q r =
    let ((a, a2), (b, b2), (c, c2)) = swap_lem x y z p q r in
    (
      (twice (is_big_endian layout) swap16 x a2, twice (is_little_endian layout) swap16 x a2),
      (twice (is_big_endian layout) swap32 y b2, twice (is_little_endian layout) swap32 y b2),
      (twice (is_big_endian layout) swap64 z c2, twice (is_little_endian layout) swap64 z c2),
    )
  where
    twice :
        (same : Bool) (swap : ℕ → ℕ) (v : ℕ)
        → swap (swap v) ≡ v
        → (if same then (if same then v else swap v) else swap (if same then v else swap v)) ≡ v
    twice true swap v e = refl
    twice false swap v e = e
