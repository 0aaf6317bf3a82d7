-- ===== src/Prelude/Int.antt =====
-- Signed integers over the native numbers; `negsuc n` is -(n + 1).
use libnebula.Prelude.{
  ℕ, zero, suc, ◌+◌, ◌-◌, ◌*◌, ◌/◌, ◌%◌, ◌^◌, ◌≤◌, ◌<◌, ◌≡◌, refl, ◌⊎◌, inl, inr, Option, some,
  none, Bool, false, ◌==◌, arith, ltb, leb, if◌then◌else◌,
}

pub data ℤ : Type 0 where
  pos : ℕ → ℤ
  negsuc : ℕ → ℤ

-- The value of a cast of `n` to `int`, 32 bits in two's complement.
abbrev pub to_int : ℕ → ℤ
to_int n = let w = n % 2 ^ 32 in if ltb w (2 ^ 31) then pos w else negsuc (2 ^ 32 - 1 - w)

-- `if ((rc = ...)) break;` around a call in a loop: the loop goes on only if the call returns 0.
abbrev pub go_on : {W : Type 0} → ℤ × W → (W → Option (ℤ × W)) → Option (ℤ × W)
go_on (pos zero, w) next = next w
go_on (pos (suc n), w) next = some (pos (suc n), w)
go_on (negsuc n, w) next = some (negsuc n, w)

abbrev is_zero : ℤ → Bool
is_zero a = elim a [ pos n ↦ n == 0 | negsuc n ↦ false ]

-- The result of a call, or, if that is 0, what follows it.
abbrev pub unless_zero : {W : Type 0} → ℤ × W → (W → ℤ × W) → ℤ × W
unless_zero (rc, w) rest = if is_zero rc then rest w else (rc, w)

pub go_on_lem :
    {W : Type 0} (r : ℤ × W) (next : W → Option (ℤ × W)) (rest : W → ℤ × W)
    → ((w : W) → next w ≡ some (rest w))
    → go_on r next ≡ some (unless_zero r rest)
go_on_lem (pos zero, w) next rest h = h w
go_on_lem (pos (suc n), w) next rest h = ground arith
go_on_lem (negsuc n, w) next rest h = refl

abbrev pub pos_part : ℤ → ℕ
pos_part (pos n) = n
pos_part (negsuc n) = 0

abbrev pub neg_part : ℤ → ℕ
neg_part (pos n) = 0
neg_part (negsuc n) = suc n

abbrev sub_ℕ : ℕ → ℕ → ℤ
sub_ℕ a b = if leb b a then pos (a - b) else negsuc (b - a - 1)

infixl 65 ◌+ℤ◌ ◌-ℤ◌
infixl 70 ◌*ℤ◌
unfoldable pub ◌+ℤ◌ : ℤ → ℤ → ℤ
a +ℤ b = sub_ℕ (pos_part a + pos_part b) (neg_part a + neg_part b)

unfoldable pub ◌-ℤ◌ : ℤ → ℤ → ℤ
a -ℤ b = sub_ℕ (pos_part a + neg_part b) (neg_part a + pos_part b)

-- The factors of the code are constants without a sign.
unfoldable pub ◌*ℤ◌ : ℤ → ℕ → ℤ
a *ℤ k = sub_ℕ (pos_part a * k) (neg_part a * k)

-- `/` on signed integers rounds towards 0.
abbrev pub quot_ℤ : ℤ → ℕ → ℤ
quot_ℤ a k = sub_ℕ (pos_part a / k) (neg_part a / k)

-- A result on `int64_t`: out of range it is undefined behaviour, `none`.
abbrev pub i64 : ℤ → Option ℤ
i64 (pos n) = if ltb n (2 ^ 63) then some (pos n) else none
i64 (negsuc n) = if ltb n (2 ^ 63) then some (negsuc n) else none

-- What `omega` needs to know of the operations.
pub +ℤ_parts :
    (a b : ℤ)
    → pos_part (a +ℤ b) + neg_part a + neg_part b ≡ neg_part (a +ℤ b) + pos_part a + pos_part b
unfolding ◌+ℤ◌
+ℤ_parts a b = ground arith

pub -ℤ_parts :
    (a b : ℤ)
    → pos_part (a -ℤ b) + neg_part a + pos_part b ≡ neg_part (a -ℤ b) + pos_part a + neg_part b
unfolding ◌-ℤ◌
-ℤ_parts a b = ground arith

pub *ℤ_parts :
    (a : ℤ) (k : ℕ) → pos_part (a *ℤ k) + neg_part a * k ≡ neg_part (a *ℤ k) + pos_part a * k
unfolding ◌*ℤ◌
*ℤ_parts a k = ground arith

pub eq_of_parts : (a b : ℤ) → pos_part a + neg_part b ≡ pos_part b + neg_part a → a ≡ b
eq_of_parts a b h = ground arith

-- One part is 0.
pub part_zero : (a : ℤ) → (pos_part a ≡ 0) ⊎ (neg_part a ≡ 0)
part_zero (pos n) = inr refl
part_zero (negsuc n) = inl refl

pub i64-eq_some :
    (a : ℤ) {b : ℤ} → i64 a ≡ some b → (b ≡ a) × (pos_part a < 2 ^ 63) × (neg_part a ≤ 2 ^ 63)
i64-eq_some (pos n) h = ground arith
i64-eq_some (negsuc n) h = ground arith

pub i64-inside : (a : ℤ) → pos_part a < 2 ^ 63 → neg_part a ≤ 2 ^ 63 → i64 a ≡ some a
i64-inside (pos n) p q = ground arith
i64-inside (negsuc n) p q = ground arith
