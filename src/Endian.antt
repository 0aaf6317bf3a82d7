-- ===== src/Endian.antt =====
-- nebula::Endian, include/nebula/endian.h: byte swaps of 16, 32 and 64 bits, and the conversions
-- between the order of the host and a given one. How the host lays a `uint16_t` out in memory is a
-- parameter.
pub mod Swap
mod Tests
use libnebula.Prelude.{
  ℕ, zero, suc, ◌+◌, ◌-◌, ◌*◌, ◌/◌, ◌%◌, ◌^◌, Bool, true, false, ltb, if◌then◌else◌, bit_and,
  bit_or,
}

unfoldable pub swap16 : ℕ → ℕ
swap16 x = bit_or (bit_and x 255 * 2 ^ 8 % 2 ^ 16) (x / 2 ^ 8)

-- The loop of `swap32` and `swap64`, on `w` bits.
unfoldable pub swap_loop : ℕ → ℕ → ℕ → ℕ → ℕ
swap_loop w zero out x = out
swap_loop w (suc rounds) out x =
    swap_loop w rounds (bit_or (out * 2 ^ 8 % 2 ^ w) (bit_and x 255)) (x / 2 ^ 8)

unfoldable pub swap32 : ℕ → ℕ
unfolding swap_loop
swap32 x = swap_loop 32 4 0 x

unfoldable pub swap64 : ℕ → ℕ
unfolding swap_loop
swap64 x = swap_loop 64 8 0 x

-- The two bytes of a `uint16_t` in memory, the one at the lower address first.
module _ (layout : ℕ → ℕ × ℕ) where
  unfoldable pub is_little_endian : Bool
  is_little_endian = ltb (layout 4660).1 (layout 4660).0

  unfoldable pub is_big_endian : Bool
  is_big_endian = ltb (layout 4660).0 (layout 4660).1

  unfoldable pub to_be16 : ℕ → ℕ
  to_be16 x = if is_big_endian then x else swap16 x

  unfoldable pub to_le16 : ℕ → ℕ
  to_le16 x = if is_little_endian then x else swap16 x

  unfoldable pub from_be16 : ℕ → ℕ
  from_be16 x = if is_big_endian then x else swap16 x

  unfoldable pub from_le16 : ℕ → ℕ
  from_le16 x = if is_little_endian then x else swap16 x

  unfoldable pub to_be32 : ℕ → ℕ
  to_be32 x = if is_big_endian then x else swap32 x

  unfoldable pub to_le32 : ℕ → ℕ
  to_le32 x = if is_little_endian then x else swap32 x

  unfoldable pub from_be32 : ℕ → ℕ
  from_be32 x = if is_big_endian then x else swap32 x

  unfoldable pub from_le32 : ℕ → ℕ
  from_le32 x = if is_little_endian then x else swap32 x

  unfoldable pub to_be64 : ℕ → ℕ
  to_be64 x = if is_big_endian then x else swap64 x

  unfoldable pub to_le64 : ℕ → ℕ
  to_le64 x = if is_little_endian then x else swap64 x

  unfoldable pub from_be64 : ℕ → ℕ
  from_be64 x = if is_big_endian then x else swap64 x

  unfoldable pub from_le64 : ℕ → ℕ
  from_le64 x = if is_little_endian then x else swap64 x
