-- ===== src/Random.antt =====
-- nebula::Prng, include/nebula/random.h: 32 and 64 bits joined from those of `random_r`, which is a
-- parameter and gives 31 bits.
pub mod Join
use libnebula.Prelude.{ℕ, ◌*◌, ◌/◌, ◌%◌, ◌^◌, bit_or, ltb, if◌then◌else◌, ◌-◌}
use libnebula.Prelude.Int.{ℤ, pos, negsuc, to_int}

module _ {W : Type 0} (random_r : W → ℕ × W) where
  -- `(r << 19) | (r2 >> 12)` on `uint32_t`.
  unfoldable pub random_u32 : W → ℕ × W
  random_u32 w =
      let (r, w1) = random_r w in
      let (r2, w2) = random_r w1 in (bit_or (r * 2 ^ 19 % 2 ^ 32) (r2 / 2 ^ 12), w2)

  unfoldable pub random_i32 : W → ℤ × W
  unfolding random_u32
  random_i32 w = let (r, w') = random_u32 w in (to_int r, w')

  unfoldable pub random_u64 : W → ℕ × W
  unfolding random_u32
  random_u64 w =
      let (a, w1) = random_u32 w in
      let (b, w2) = random_u32 w1 in (bit_or (a * 2 ^ 32 % 2 ^ 64) b, w2)
