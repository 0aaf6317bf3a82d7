-- ===== src/Prelude/Bits.antt =====
-- `&` and `|` on numbers of every width, by their lowest binary digit.
use Prim.Native.Nat.{
  ℕ, zero, suc, ◌+◌, ◌-◌, ◌*◌, ◌/◌, ◌%◌, ◌^◌, ◌≤◌, ◌<◌, min, max, bit_and, bit_or, bitwise, digits,
  bit_and-bitwise, bit_or-bitwise,
}
use mathlib.Core.Path.{◌≡◌, refl, ap}
use native.Mathlib.Nat.{pow-suc, one-le-pow}
use native.Mathlib.Omega.{arith}

-- The fuel of the digit recursion does not matter once it reaches the first operand.
module _ (z : ℕ → ℕ) (f : ℕ → ℕ → ℕ) where
  fuel_irrelevant : (m n a b : ℕ) → a ≤ m → a ≤ n → digits z f m a b ≡ digits z f n a b
  fuel_irrelevant zero zero a b p q = refl
  fuel_irrelevant zero (suc n) zero b p q = refl
  fuel_irrelevant zero (suc n) (suc a) b p q = absurd (omega arith)
  fuel_irrelevant (suc m) zero zero b p q = refl
  fuel_irrelevant (suc m) zero (suc a) b p q = absurd (omega arith)
  fuel_irrelevant (suc m) (suc n) zero b p q = refl
  fuel_irrelevant (suc m) (suc n) (suc a) b p q =
      rw (fuel_irrelevant m n (suc a / 2) (b / 2) (omega arith) (omega arith))

  low_digit :
      (a b : ℕ)
      → bitwise z f (suc a) b ≡ bitwise z f (suc a / 2) (b / 2) * 2 + f (suc a % 2) (b % 2)
  low_digit a b =
      omega (arith, fuel_irrelevant a (suc a / 2) (suc a / 2) (b / 2) (omega arith) (omega arith))

bit_or-half : (a b : ℕ) → bit_or a b ≡ bit_or (a / 2) (b / 2) * 2 + max (a % 2) (b % 2)
bit_or-half zero b = simp bit_or-bitwise (omega arith)
bit_or-half (suc a) b = simp bit_or-bitwise (low_digit (λ y. y) max a b)

bit_and-half : (a b : ℕ) → bit_and a b ≡ bit_and (a / 2) (b / 2) * 2 + min (a % 2) (b % 2)
bit_and-half zero b = simp bit_and-bitwise (omega arith)
bit_and-half (suc a) b = simp bit_and-bitwise (low_digit (λ y. 0) min a b)

-- Induction on binary digits: from the half to the number.
binary_induction {ℓ} :
    (P : ℕ → Type ℓ) → P 0 → ((n : ℕ) → P (suc n / 2) → P (suc n)) → (n : ℕ) → P n
binary_induction P base step n = go n n (omega arith)
  where
    go : (fuel m : ℕ) → m ≤ fuel → P m
    go zero zero h = base
    go zero (suc m) h = absurd (omega arith)
    go (suc fuel) zero h = base
    go (suc fuel) (suc m) h = step m (go fuel (suc m / 2) (omega arith))

-- Laws of the masks.
pub bit_and-zero : (a : ℕ) → bit_and a 0 ≡ 0
bit_and-zero =
    binary_induction (λ a. bit_and a 0 ≡ 0) refl λ n ih. omega (arith, bit_and-half (suc n) 0)

bit_or-zero : (a : ℕ) → bit_or a 0 ≡ a
bit_or-zero =
    binary_induction (λ a. bit_or a 0 ≡ a) refl λ n ih. omega (arith, bit_or-half (suc n) 0)

pub zero-bit_and : (b : ℕ) → bit_and 0 b ≡ 0
zero-bit_and b = bit_and-bitwise 0 b

pub zero-bit_or : (b : ℕ) → bit_or 0 b ≡ b
zero-bit_or b = bit_or-bitwise 0 b

bit_and_comm : (a b : ℕ) → bit_and a b ≡ bit_and b a
bit_and_comm =
    binary_induction (λ a. (b : ℕ) → bit_and a b ≡ bit_and b a)
      (λ b. omega (arith, bit_and-zero b, zero-bit_and b))
      λ n ih b. omega (arith, bit_and-half (suc n) b, bit_and-half b (suc n), ih (b / 2))

bit_and_assoc : (a b c : ℕ) → bit_and (bit_and a b) c ≡ bit_and a (bit_and b c)
bit_and_assoc =
    binary_induction (λ a. (b c : ℕ) → bit_and (bit_and a b) c ≡ bit_and a (bit_and b c))
      (λ b c. rw (zero-bit_and b, zero-bit_and c, zero-bit_and (bit_and b c)))
      λ n ih b c. step n b c (ih (b / 2) (c / 2))
  where
    halves :
        (a b : ℕ)
        → (bit_and a b / 2 ≡ bit_and (a / 2) (b / 2)) × (bit_and a b % 2 ≡ min (a % 2) (b % 2))
    halves a b = omega (arith, bit_and-half a b)

    step :
        (n b c : ℕ)
        → bit_and (bit_and (suc n / 2) (b / 2)) (c / 2)
          ≡ bit_and (suc n / 2) (bit_and (b / 2) (c / 2))
        → bit_and (bit_and (suc n) b) c ≡ bit_and (suc n) (bit_and b c)
    step n b c e =
        rw
          (
            bit_and-half (bit_and (suc n) b) c,
            bit_and-half (suc n) (bit_and b c),
            (halves (suc n) b).0,
            (halves (suc n) b).1,
            (halves b c).0,
            (halves b c).1,
            e,
          )
          (omega arith)

bit_and_self : (a : ℕ) → bit_and a a ≡ a
bit_and_self =
    binary_induction (λ a. bit_and a a ≡ a) refl λ n ih. omega (arith, bit_and-half (suc n) (suc n))

bit_and-le : (a b : ℕ) → bit_and a b ≤ a
bit_and-le =
    binary_induction (λ a. (b : ℕ) → bit_and a b ≤ a) (λ b. omega (arith, zero-bit_and b))
      λ n ih b. omega (arith, bit_and-half (suc n) b, ih (b / 2))

pub bit_or-eq-zero : (a b : ℕ) → bit_or a b ≡ 0 → (a ≡ 0) × (b ≡ 0)
bit_or-eq-zero =
    binary_induction (λ a. (b : ℕ) → bit_or a b ≡ 0 → (a ≡ 0) × (b ≡ 0))
      (λ b h. omega (arith, zero-bit_or b))
      λ n ih b h.
        let halves : bit_or (suc n / 2) (b / 2) ≡ 0 = omega (arith, bit_or-half (suc n) b) in
        omega (arith, bit_or-half (suc n) b, ih (b / 2) halves)

pub bit_and-bit_or : (a b : ℕ) → bit_and (bit_or a b) b ≡ b
bit_and-bit_or =
    binary_induction (λ a. (b : ℕ) → bit_and (bit_or a b) b ≡ b)
      (λ b. rw (zero-bit_or b) (bit_and_self b))
      λ n ih b.
        let halves : (bit_or (suc n) b / 2 ≡ bit_or (suc n / 2) (b / 2))
            × (bit_or (suc n) b % 2 ≡ max (suc n % 2) (b % 2)) =
          omega (arith, bit_or-half (suc n) b) in
        rw (bit_and-half (bit_or (suc n) b) b, halves.0, halves.1, ih (b / 2)) (omega arith)

-- Bits that are set leave the others as they are.
pub bit_or-outside : (a b c : ℕ) → bit_and b c ≡ 0 → bit_and (bit_or a b) c ≡ bit_and a c
bit_or-outside =
    binary_induction (λ a. (b c : ℕ) → bit_and b c ≡ 0 → bit_and (bit_or a b) c ≡ bit_and a c)
      (λ b c apart. rw (zero-bit_or b, zero-bit_and c) apart)
      λ n ih b c apart.
        let halves : (bit_or (suc n) b / 2 ≡ bit_or (suc n / 2) (b / 2))
            × (bit_or (suc n) b % 2 ≡ max (suc n % 2) (b % 2)) =
          omega (arith, bit_or-half (suc n) b) in
        let upper : bit_and (b / 2) (c / 2) ≡ 0 = omega (arith, bit_and-half b c) in
        rw
          (
            bit_and-half (bit_or (suc n) b) c,
            halves.0,
            halves.1,
            ih (b / 2) (c / 2) upper,
            bit_and-half (suc n) c,
          )
          (omega (arith, bit_and-half b c))

-- `(q << k) | r` is a sum when `r` has `k` bits.
pub bit_or_shifted : (k q r : ℕ) → r < 2 ^ k → bit_or (q * 2 ^ k) r ≡ q * 2 ^ k + r
bit_or_shifted zero q r h =
    let none_left : r ≡ 0 = omega arith in rw none_left (omega (arith, bit_or-zero (q * 2 ^ 0)))
bit_or_shifted (suc k) q r h =
    let twice : q * 2 ^ suc k ≡ q * 2 ^ k * 2 =
      omega (arith, ap (λ (t : ℕ). q * t) (pow-suc 2 k)) in
    ground (arith, twice, pow-suc 2 k, bit_or-half (q * 2 ^ suc k) r, bit_or_shifted k q (r / 2))

-- A mask of `k` ones takes the remainder by `2 ^ k`.
pub bit_and_ones : (k a : ℕ) → bit_and a (2 ^ k - 1) ≡ a % 2 ^ k
bit_and_ones zero a = omega (arith, bit_and-zero a)
bit_and_ones (suc k) a = ground (
  arith,
  pow-suc 2 k,
  one-le-pow k 2,
  bit_and-half a (2 ^ suc k - 1),
  bit_and_ones k (a / 2),
  halve (2 ^ k) a,
)
  where
    halve : (p a : ℕ) → a % (2 * p) ≡ a / 2 % p * 2 + a % 2
    halve p a = grind arith
