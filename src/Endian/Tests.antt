-- ===== src/Endian/Tests.antt =====
-- Runs of the byte swaps.
use libnebula.Prelude.{ℕ, ◌/◌, ◌%◌, ◌≡◌, refl, true, false, arith}
use libnebula.Endian.{
  swap16, swap32, swap64, is_little_endian, is_big_endian, to_be16, to_le16, from_be16, from_le16,
  to_be32, to_le32, from_be32, from_le32, to_be64, to_le64, from_be64, from_le64,
}
use libnebula.Endian.Swap.{read, bytes, swap_lem, from_to_lem}

swap_lem_example :
    ((swap16 4660 ≡ read 0 (bytes 2 4660)) × (swap16 (swap16 4660) ≡ 4660))
    × ((swap32 305419896 ≡ read 0 (bytes 4 305419896)) × (swap32 (swap32 305419896) ≡ 305419896))
    × ((swap64 77 ≡ read 0 (bytes 8 77)) × (swap64 (swap64 77) ≡ 77))
swap_lem_example = swap_lem 4660 305419896 77 (omega arith) (omega arith) (omega arith)

swap16_test : swap16 4660 ≡ 13330
unfolding swap16
swap16_test = refl

-- A host that stores the low byte first.
abbrev low_first : ℕ → ℕ × ℕ
low_first x = (x % 256, x / 256)

is_little_endian_test : (is_little_endian low_first ≡ true) × (is_big_endian low_first ≡ false)
unfolding is_little_endian is_big_endian
is_little_endian_test = (refl, refl)

from_to_lem_example :
    ((from_be16 low_first (to_be16 low_first 4660) ≡ 4660)
      × (from_le16 low_first (to_le16 low_first 4660) ≡ 4660))
    × ((from_be32 low_first (to_be32 low_first 305419896) ≡ 305419896)
        × (from_le32 low_first (to_le32 low_first 305419896) ≡ 305419896))
    × ((from_be64 low_first (to_be64 low_first 77) ≡ 77)
        × (from_le64 low_first (to_le64 low_first 77) ≡ 77))
from_to_lem_example =
    from_to_lem low_first 4660 305419896 77 (omega arith) (omega arith) (omega arith)
