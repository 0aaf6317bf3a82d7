-- ===== src/Misc.antt =====
-- nebula::Misc, include/nebula/misc.h: reading all that a descriptor has to give, and the address of a
-- host, over the calls as parameters.
mod Tests
use libnebula.Prelude.{
  ℕ, zero, suc, ◌+◌, ◌-◌, ◌%◌, ◌^◌, ◌≤◌, ◌<◌, ◌≡◌, refl, ◌∙◌, ap, Bool, true, false, Option, none,
  some, arith,
}
use libnebula.Prelude.Int.{ℤ, pos, negsuc}
use libnebula.Text.{Bytes}

-- `sizeof(buf)`
abbrev pub buf_size : ℕ
buf_size = 1024

module _ {W : Type 0} where
  -- The loop of `readAllBytes`, for as many rounds as the fuel; `read` gives what `read` returns.
  unfoldable pub read_loop : (W → ℤ × W) → ℕ → ℕ → W → Option (ℕ × W)
  read_loop read zero total w = none
  read_loop read (suc fuel) total w =
      let (nr, w') = read w in
      elim nr [
        | negsuc n ↦ some (total, w')
        | pos n ↦ elim n [
          | zero ↦ some (total, w')
          | suc k ↦ read_loop read fuel ((total + suc k) % 2 ^ 64) w'
        ]
      ]

  unfoldable pub read_all_bytes : (W → ℤ × W) → ℕ → W → Option (ℕ × W)
  unfolding read_loop
  read_all_bytes read fuel w = read_loop read fuel 0 w

  -- 0 or -1, and the text that `inet_ntop` leaves. `gethostbyname` gives the first address of the host.
  unfoldable name_to_ip :
      (Bytes → W → Option ℕ × W) → (ℕ → ℕ → Option Bytes) → Bytes → ℕ → W → Option Bytes × W
  name_to_ip gethostbyname inet_ntop name buflen w =
      let (ent, w') = gethostbyname name w in
      elim ent [ none ↦ (none, w') | some addr ↦ (inet_ntop addr buflen, w') ]

-- What `read` gives of a descriptor that holds `size` bytes and does not block: at least a byte
-- if there is any, no more than the buffer takes; and 0 or an error where there is none.
abbrev Gives : {W : Type 0} → (W → ℕ) → W → ℤ × W → Type 0
Gives size w (pos n, w') = (n ≤ buf_size) × (size w' + n ≡ size w) × (n ≡ 0 → size w ≡ 0)
Gives size w (negsuc n, w') = (size w ≡ 0) × (size w' ≡ 0)

module _ {W : Type 0} (read : W → ℤ × W) (size : W → ℕ)
    (gives : (w : W) → Gives size w (read w)) where
  -- The loop ends with all that is there.
  abbrev Totals : ℕ → ℕ → W → Option (ℕ × W) → Type 0
  Totals fuel total w r = (w' : W) × (r ≡ some (total + size w, w')) × (size w' ≡ 0)

  read_round :
      (fuel total : ℕ) (w : W) (r : ℤ × W)
      → Gives size w r
      → total + size w < 2 ^ 64
      → size w < suc fuel
      → ((t : ℕ) (v : W)
          → size v < fuel
          → t + size v < 2 ^ 64
          → Totals fuel t v (read_loop read fuel t v))
      → Totals fuel total w (elim r.0 [
        | negsuc n ↦ some (total, r.1)
        | pos n ↦ elim n [
          | zero ↦ some (total, r.1)
          | suc k ↦ read_loop read fuel ((total + suc k) % 2 ^ 64) r.1
        ]
      ])
  read_round fuel total w (negsuc n, v) h fits enough rest =
      (v, ap (λ t. some (t, v)) (omega arith), h.1)
  read_round fuel total w (pos zero, v) h fits enough rest =
      let dry : size w ≡ 0 = h.2 refl in (v, ap (λ t. some (t, v)) (omega arith), omega arith)
  read_round fuel total w (pos (suc k), v) h fits enough rest =
      let (v', e, done) = rest ((total + suc k) % 2 ^ 64) v (omega arith) (omega arith) in
      (v', e ∙ ap (λ t. some (t, v')) (omega arith), done)

  read_loop-total :
      (fuel total : ℕ) (w : W)
      → size w < fuel
      → total + size w < 2 ^ 64
      → Totals fuel total w (read_loop read fuel total w)
  unfolding read_loop
  read_loop-total zero total w enough fits = absurd (omega arith)
  read_loop-total (suc fuel) total w enough fits =
      read_round fuel total w (read w) (gives w) fits enough
        (λ t v enough' fits'. read_loop-total fuel t v enough' fits')

  -- readAllBytes of a descriptor that holds fewer than 2^64 bytes, which nobody adds to, and does not
  -- block: it ends after at most a round for each byte and one more, returns the number of bytes, and
  -- leaves the descriptor empty.
  read_all_bytes_lem :
      (fuel : ℕ) (w : W)
      → size w < fuel
      → size w < 2 ^ 64
      → (w' : W) × (read_all_bytes read fuel w ≡ some (size w, w')) × (size w' ≡ 0)
  unfolding read_all_bytes
  read_all_bytes_lem fuel w enough fits =
      let (w', e, done) = read_loop-total fuel 0 w enough (omega arith) in
      (w', e ∙ ap (λ t. some (t, w')) (omega arith), done)
