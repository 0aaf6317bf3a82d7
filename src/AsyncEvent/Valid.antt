-- ===== src/AsyncEvent/Valid.antt =====
-- The well-formedness of an AsyncEvent's tables of descriptors, and how `unlist` changes the list
-- of ready ones.
use libnebula.Prelude.{
  ℕ, zero, suc, ◌+◌, ◌-◌, ◌≤◌, ◌≡◌, refl, ap, ◌⊎◌, inl, inr, List, arith, ◌==◌, if◌then◌else◌,
  length, length-set, get_or, set, weigh, weigh-last, weigh-set_in, weigh-set_out, tally,
  tally-bound,
}
use native.Mathlib.Decide.{dec_lt}
use libnebula.AsyncEvent.{FdInfo, no_info, AsyncEvent, info_at, unlist, forget_ready}

-- Weights that count the entries of a kind.
abbrev pub is_monitored : FdInfo → ℕ
is_monitored info = if info.monitored == 0 then 0 else 1

abbrev pub is_pending : FdInfo → ℕ
is_pending info = if info.already_fired == 0 then 0 else 1

abbrev pub is_fd : ℕ → ℕ → ℕ
is_fd fd x = if x == fd then 1 else 0

-- How often `fd` stands among the ready descriptors.
abbrev times_ready : AsyncEvent → ℕ → ℕ
times_ready s fd = weigh (is_fd fd) 0 s.ready 0 s.num_ready

-- The counters count what they are named for, and a descriptor is on the list of ready ones, once,
-- exactly when events of it are pending.
pub record IsValid (s : AsyncEvent) : Type 0 where
  pub table : length s.fds ≡ s.fd_table_size
  pub ready_size : length s.ready ≡ s.fd_table_size
  pub counted : s.num_monitored ≡ tally is_monitored no_info s.fds
  pub pending : s.num_ready ≡ tally is_pending no_info s.fds
  pub listed : (fd : ℕ) → times_ready s fd ≡ is_pending (info_at s fd)

-- Either the descriptor was found and one entry less is in use, or it does not stand in the rest.
abbrev Unlisted : (ℕ → ℕ) → List ℕ → ℕ → ℕ → ℕ → ℕ → List ℕ × ℕ → Type 0
Unlisted g ready num fd left i (ready', num') =
    ((num' + 1 ≡ num)
      × (length ready' ≡ length ready)
      × (weigh g 0 ready' 0 num' + g fd ≡ weigh g 0 ready 0 num))
    ⊎ ((ready' ≡ ready) × (num' ≡ num) × (weigh (is_fd fd) 0 ready i left ≡ 0))

module _ (g : ℕ → ℕ) (ready : List ℕ) (num fd : ℕ) (fits : num ≤ length ready) where
  weigh-replaced :
      (i last : ℕ)
      → i ≤ last
      → suc last ≡ num
      → get_or ready i 0 ≡ fd
      → weigh g 0 (set ready i (get_or ready last 0)) 0 last + g fd ≡ weigh g 0 ready 0 num
  weigh-replaced i last p q e = rw (← q) (elim (dec_lt i last) [
    | yes inside ↦ ground (
      arith,
      ap g e,
      weigh-last g 0 ready 0 last,
      weigh-set_in g 0 ready i (get_or ready last 0) 0 last,
    )
    | no at_end ↦
        let same : i ≡ last = omega arith in
        ground (
          arith,
          ap g e,
          weigh-last g 0 ready 0 last,
          weigh-set_out g 0 ready i (get_or ready last 0) 0 last,
        )
  ])

  unlist-Unlisted :
      (left i : ℕ) → i + left ≡ num → Unlisted g ready num fd left i (unlist ready num fd left i)
  unfolding unlist
  unlist-Unlisted zero i e = inr (refl, refl, refl)
  unlist-Unlisted (suc left) i e = ground (
    arith,
    length-set ready i (get_or ready (num - 1) 0),
    weigh-replaced i (num - 1),
    unlist-Unlisted left (i + 1),
  )

is_fd_self : (fd : ℕ) → is_fd fd fd ≡ 1
is_fd_self fd = ground arith

module _ (s : AsyncEvent) (fd : ℕ) (fits : s.num_ready ≤ length s.ready) where
  -- Taking a listed descriptor off leaves the others listed as they were.
  pub forget_ready-listed :
      times_ready s fd ≡ 1
      → (g : ℕ → ℕ)
      → let s' = forget_ready s fd in
        (s'.num_ready + 1 ≡ s.num_ready)
        × (length s'.ready ≡ length s.ready)
        × (weigh g 0 s'.ready 0 s'.num_ready + g fd ≡ weigh g 0 s.ready 0 s.num_ready)
  forget_ready-listed once g =
      (elim (unlist-Unlisted g s.ready s.num_ready fd fits s.num_ready 0 (omega arith)) [
        | inl found ↦ found
        | inr (same, kept, absent) ↦ absurd (omega (arith, once, absent))
      ])

  pub forget_ready-unlisted :
      times_ready s fd ≡ 0
      → ((forget_ready s fd).ready ≡ s.ready) × ((forget_ready s fd).num_ready ≡ s.num_ready)
  forget_ready-unlisted never =
      (elim (unlist-Unlisted (is_fd fd) s.ready s.num_ready fd fits s.num_ready 0 (omega arith)) [
        | inl (less, size, sum) ↦ absurd (omega (arith, is_fd_self fd))
        | inr (same, kept, absent) ↦ (same, kept)
      ])

-- The list of ready descriptors fits its array.
pub num_ready-le : {s : AsyncEvent} → IsValid s → s.num_ready ≤ length s.ready
num_ready-le {s} v =
    omega
      (arith, v.pending, v.table, v.ready_size, tally-bound is_pending no_info s.fds (λ x. one x))
  where
    one : (x : FdInfo) → is_pending x ≤ 1
    one x = ground arith
