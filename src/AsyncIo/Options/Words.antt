-- ===== src/AsyncIo/Options/Words.antt =====
-- The words that the setters of a descriptor leave, and what the queries make of them.
use libnebula.Prelude.{
  ℕ, ◌^◌, ◌≡◌, refl, sym, ap, ◌∙◌, ◌==◌, Bool-cases, inl, inr, Bool, true, false, Option, none,
  some, arith, bit_and, bit_or, bit_and-bit_or, bit_or-outside, if◌then◌else◌,
}
use libnebula.AsyncIo.{Sockets, has_flag}
use libnebula.AsyncIo.Options.{
  Setting, nonblock, cloexec, socket_option, is_on, Tables, Leaves, Stores, Takes, as_number, IsOn,
  answer,
}

-- A word in which a flag was set: the other bits are as they were.
abbrev pub Turned : ℕ → Option ℕ → ℕ → Type 0
Turned flag old v =
    (has_flag v flag ≡ true)
    × ((o k : ℕ)
        → old ≡ some o
        → bit_and flag (2 ^ k) ≡ 0
        → has_flag v (2 ^ k) ≡ has_flag o (2 ^ k))

pub some-eq : {a b : ℕ} → some a ≡ some b → a ≡ b
some-eq e = cc

pub turned :
    (flag s : ℕ) (old old' : Option ℕ) (v : ℕ)
    → is_on flag ≡ true
    → old ≡ some s
    → old' ≡ some s
    → Takes flag (bit_or s flag) old v
    → Turned flag old' v
turned flag s old old' v on e e' (taken, others) = (
  taken ∙ ap is_on (bit_and-bit_or s flag) ∙ on,
  λ o k is_o apart.
      let same : has_flag (bit_or s flag) (2 ^ k) ≡ has_flag s (2 ^ k) =
        ap is_on (bit_or-outside s flag (2 ^ k) apart) in
      others s k e same ∙ ap (λ z. has_flag z (2 ^ k)) (some-eq (sym e' ∙ is_o)),
)

-- What a setter leaves of the word that is kept.
abbrev pub IsOnWord : {W : Type 0} → Sockets W → Setting → Option ℕ → ℕ → Type 0
IsOnWord sys nonblock old v = Turned sys.o_nonblock old v
IsOnWord sys cloexec old v = Turned sys.fd_cloexec old v
IsOnWord sys (socket_option o) old v = is_on v ≡ true

-- The answer of a query to the word that is kept.
abbrev pub flag_shown : ℕ → Option ℕ → Option ℕ
flag_shown flag none = none
flag_shown flag (some s) = some (if has_flag s flag then 1 else 0)

abbrev pub shown : {W : Type 0} → Sockets W → Setting → Option ℕ → Option ℕ
shown sys nonblock v = flag_shown sys.o_nonblock v
shown sys cloexec v = flag_shown sys.fd_cloexec v
shown sys (socket_option o) v = v

pub IsOnWord-IsOn :
    {W : Type 0} (sys : Sockets W) (x : Setting) (old : Option ℕ) (v : ℕ)
    → IsOnWord sys x old v
    → IsOn x (shown sys x (some v))
IsOnWord-IsOn sys nonblock old v (on, rest) = ap (λ (b : Bool). some (if b then 1 else 0)) on
IsOnWord-IsOn sys cloexec old v (on, rest) = ap (λ (b : Bool). some (if b then 1 else 0)) on
IsOnWord-IsOn sys (socket_option o) old v on = (v, refl, λ e. (ground arith))

pub by_bit : (s flag : ℕ) → flag_shown flag (some s) ≡ answer (some flag) (some s)
by_bit s flag = elim (Bool-cases (bit_and s flag == 0)) [ inl e ↦ rw e refl | inr e ↦ rw e refl ]

pub tested :
    {W : Type 0} (flag : ℕ) (r : Option ℕ × W)
    → as_number
        (elim r.0 as (λ z. Option Bool × W) [
          | none ↦ (none, r.1)
          | some s ↦ (some (has_flag s flag), r.1)
        ]).0
      ≡ flag_shown flag r.0
tested flag (none, w) = refl
tested flag (some s, w) = refl

module _ {W : Type 0} (t : Tables W) (m : ℕ) (x : Setting) (P : ℕ → Type 0) where
  pub Stores-after :
      (w w1 : W) (r : Bool × W) → Leaves t w w1 → Stores t m x P w1 r → Stores t m x P w r
  Stores-after w w1 (true, w2) same (v, e, p, places, rest) =
      (v, e, p, λ n. places n ∙ same.0 n, λ n y other. rest n y other ∙ same.1 n y)
  Stores-after w w1 (false, w2) same rest =
      (λ n. rest.0 n ∙ same.0 n, λ n y. rest.1 n y ∙ same.1 n y)

  -- A setter that reads the old word first.
  pub Stores-read :
      (w : W) (r : Option ℕ × W) (set : ℕ → W → Bool × W)
      → Leaves t w r.1
      → ((s : ℕ) → r.0 ≡ some s → Stores t m x P r.1 (set s r.1))
      → Stores t m x P w (elim r.0 [ none ↦ (false, r.1) | some s ↦ set s r.1 ])
  Stores-read w (none, w1) set same stores = same
  Stores-read w (some s, w1) set same stores = Stores-after w w1 (set s w1) same (stores s refl)

  pub Stores-weaken :
      (Q : ℕ → Type 0) (w : W) (r : Bool × W)
      → ((v : ℕ) → P v → Q v)
      → Stores t m x P w r
      → Stores t m x Q w r
  Stores-weaken Q w (true, w1) f (v, e, p, places, rest) = (v, e, f v p, places, rest)
  Stores-weaken Q w (false, w1) f same = same
