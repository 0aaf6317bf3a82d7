-- ===== src/Random/Join.antt =====
-- Which bits of `random_r` the numbers hold.
use libnebula.Prelude.{
  ℕ, ◌+◌, ◌*◌, ◌/◌, ◌%◌, ◌^◌, ◌<◌, ◌≡◌, refl, ap, ◌∙◌, bit_or, arith, bit_or_shifted,
}
use libnebula.Prelude.Int.{to_int}
use libnebula.Random.{random_u32, random_i32, random_u64}

module _ {W : Type 0} (random_r : W → ℕ × W) (small : (w : W) → (random_r w).0 < 2 ^ 31) where
  -- The 13 low bits of the first number stand above the 19 high bits of the second, and make a
  -- number of 32 bits.
  random_u32_lem :
      (w : W)
      → ((random_u32 random_r w).0
          ≡ (random_r w).0 % 2 ^ 13 * 2 ^ 19 + (random_r (random_r w).1).0 / 2 ^ 12)
        × ((random_u32 random_r w).0 < 2 ^ 32)
        × ((random_i32 random_r w).0 ≡ to_int (random_u32 random_r w).0)
  unfolding random_u32 random_i32
  random_u32_lem w =
      let r = (random_r w).0 in
      let r2 = (random_r (random_r w).1).0 in
      let low : r * 2 ^ 19 % 2 ^ 32 ≡ r % 2 ^ 13 * 2 ^ 19 = omega arith in
      let below : r2 / 2 ^ 12 < 2 ^ 19 = omega (arith, small (random_r w).1) in
      let join : bit_or (r * 2 ^ 19 % 2 ^ 32) (r2 / 2 ^ 12) ≡ r % 2 ^ 13 * 2 ^ 19 + r2 / 2 ^ 12 =
        ap (λ k. bit_or k (r2 / 2 ^ 12)) low ∙ bit_or_shifted 19 (r % 2 ^ 13) (r2 / 2 ^ 12) below in
      (join, omega (arith, join, below), refl)

  -- The two numbers of 32 bits stand one above the other.
  random_u64_lem :
      (w : W)
      → (random_u64 random_r w).0
        ≡ (random_u32 random_r w).0 * 2 ^ 32 + (random_u32 random_r (random_u32 random_r w).1).0
  unfolding random_u64
  random_u64_lem w =
      let a = (random_u32 random_r w).0 in
      let b = (random_u32 random_r (random_u32 random_r w).1).0 in
      let high : a * 2 ^ 32 % 2 ^ 64 ≡ a * 2 ^ 32 = omega (arith, (random_u32_lem w).1) in
      ap (λ k. bit_or k b) high ∙ bit_or_shifted 32 a b (random_u32_lem (random_u32 random_r w).1).1
