-- ===== src/AsyncEvent/Fds/Keep.antt =====
-- The operations on descriptors keep the tables well-formed.
use libnebula.Prelude.{
  ℕ, ◌+◌, ◌-◌, ◌<◌, ◌≡◌, refl, ap, ◌≢◌, ◌⊎◌, inl, inr, Bool, arith, ltb, ltb→lt, ◌==◌,
  if◌then◌else◌, ◌∙◌, length, length-set, get_or, get_or-set_self, get_or-set_ne, set, tally-set,
  Bool-cases, bit_and, bit_or, bit_or-eq-zero, some, none,
}
use libnebula.Prelude.Int.{ℤ, pos, negsuc}
use libnebula.AsyncEvent.{
  ok, error, FdInfo, no_info, AsyncEvent, System, complement, info_at, in_table,
}
use native.Mathlib.Decide.{ℕ_discrete}
use libnebula.AsyncEvent.Valid.{
  IsValid, is_monitored, is_pending, is_fd, num_ready-le, forget_ready-listed,
  forget_ready-unlisted,
}
use libnebula.AsyncEvent.Fds.{add_at, del_at, remove_at, release}

module _ (s : AsyncEvent) (n : ℕ) (v : IsValid s) (inside : n < length s.fds) where
  pub info_at-set :
      (info : FdInfo) (fd : ℕ)
      → get_or (set s.fds n info) fd no_info ≡ (if fd == n then info else info_at s fd)
  info_at-set info fd = elim (ℕ_discrete fd n) [
    | yes e ↦ ground (arith, get_or-set_self s.fds n info no_info)
    | no ne ↦ ground (arith, get_or-set_ne s.fds n fd info no_info)
  ]

  -- An entry is replaced by one with as many pending events.
  replace-IsValid :
      (info : FdInfo) (m : ℕ)
      → is_pending info ≡ is_pending (info_at s n)
      → m + is_monitored (info_at s n) ≡ s.num_monitored + is_monitored info
      → IsValid (record s { fds = set s.fds n info; num_monitored = m })
  replace-IsValid info m same counts = record {
    table = length-set s.fds n info ∙ v.table;
    ready_size = v.ready_size;
    counted = omega (arith, v.counted, counts, tally-set is_monitored no_info s.fds n info inside);
    pending = omega (arith, v.pending, same, tally-set is_pending no_info s.fds n info inside);
    listed = λ fd. ground (arith, v.listed fd, info_at-set info fd);
  }

  abbrev erased : AsyncEvent
  erased = record s { fds = set s.fds n no_info; num_monitored = s.num_monitored - 1 }

  release_pending :
      is_monitored (info_at s n) ≡ 1 → is_pending (info_at s n) ≡ 1 → IsValid (release s n)
  release_pending held waits =
      let gone = forget_ready-listed erased n (num_ready-le v) (v.listed n ∙ waits) in
      record {
        table = length-set s.fds n no_info ∙ v.table;
        ready_size = (gone (λ x. 0)).1 ∙ v.ready_size;
        counted =
            omega (arith, v.counted, held, tally-set is_monitored no_info s.fds n no_info inside);
        pending = omega (
          arith,
          v.pending,
          waits,
          (gone (λ x. 0)).0,
          tally-set is_pending no_info s.fds n no_info inside,
        );
        listed =
            λ fd. ground (arith, v.listed fd, waits, (gone (is_fd fd)).2, info_at-set no_info fd);
      }

  release_idle :
      is_monitored (info_at s n) ≡ 1 → is_pending (info_at s n) ≡ 0 → IsValid (release s n)
  release_idle held idle =
      let kept = forget_ready-unlisted erased n (num_ready-le v) (v.listed n ∙ idle) in
      record {
        table = length-set s.fds n no_info ∙ v.table;
        ready_size = ap length kept.0 ∙ v.ready_size;
        counted =
            omega (arith, v.counted, held, tally-set is_monitored no_info s.fds n no_info inside);
        pending =
            omega
              (arith, v.pending, idle, kept.1, tally-set is_pending no_info s.fds n no_info inside);
        listed = λ fd. rw (kept.0, kept.1) (ground (arith, v.listed fd, info_at-set no_info fd));
      }

  release-IsValid : is_monitored (info_at s n) ≡ 1 → IsValid (release s n)
  release-IsValid held = elim (ℕ_discrete (info_at s n).already_fired 0) [
    | yes idle ↦ release_idle held (ground arith)
    | no waits ↦ release_pending held (ground arith)
  ]

module _ {W : Type 0} (sys : System W) (s : AsyncEvent) (w : W) where
  -- The two ways out of `addFdEvent` at a descriptor of the table.
  abbrev registered : ℕ → ℕ → ℕ → ℕ → ℕ → ℕ → AsyncEvent
  registered n mask proc arg proc_exp arg_exp = record s {
    fds = set s.fds n (record (info_at s n) {
      monitored = bit_or (info_at s n).monitored mask;
      proc = proc;
      arg = arg;
      proc_exp = proc_exp;
      arg_exp = arg_exp;
    });
    num_monitored = if (info_at s n).monitored == 0 then s.num_monitored + 1 else s.num_monitored;
  }

  add_at_ways :
      (n mask proc arg proc_exp arg_exp : ℕ)
      → let (status, s', w') = add_at sys n mask proc arg proc_exp arg_exp s w in
        ((status ≡ error) × (s' ≡ s))
        ⊎ ((status ≡ ok) × (s' ≡ registered n mask proc arg proc_exp arg_exp))
  unfolding add_at
  add_at_ways n mask proc arg proc_exp arg_exp = ground arith

  -- The three ways out of `delFdEvent` at a descriptor of the table.
  del_at_ways :
      (n mask : ℕ)
      → let (status, s', w') = del_at sys n mask s w in
        let left = bit_and (info_at s n).monitored (complement mask) in
        ((status ≡ error) × (s' ≡ s))
        ⊎ ((status ≡ ok)
            × (left ≢ 0)
            × (s' ≡ record s { fds = set s.fds n (record (info_at s n) { monitored = left }) }))
        ⊎ ((status ≡ ok) × (left ≡ 0) × (s' ≡ release s n))
  unfolding del_at
  del_at_ways n mask = ground arith

  -- The ways out of `removeFd` at a descriptor of the table.
  remove_at_ways :
      (n : ℕ) (close_it : Bool)
      → let (status, s', w') = remove_at sys n close_it s w in
        (s' ≡ s) ⊎ ((status ≡ ok) × ((info_at s n).monitored ≢ 0) × (s' ≡ release s n))
  unfolding remove_at
  remove_at_ways n close_it = ground arith

-- The guard on the descriptor.
pub in_table-cases :
    (s : AsyncEvent) (fd : ℤ)
    → (in_table s fd ≡ none) ⊎ ((n : ℕ) × (in_table s fd ≡ some n) × (n < s.fd_table_size))
in_table-cases s (pos n) = elim (Bool-cases (ltb n s.fd_table_size)) [
  | inl inside ↦ inr (n, rw inside, ltb→lt n s.fd_table_size inside)
  | inr outside ↦ inl (rw outside)
]
in_table-cases s (negsuc n) = inl refl

-- A valid table after each way out, at a descriptor of the table.
module _ {W : Type 0} (sys : System W) (s : AsyncEvent) (w : W) (v : IsValid s) where
  pub add_at-IsValid :
      (n mask proc arg proc_exp arg_exp : ℕ)
      → n < s.fd_table_size
      → mask ≢ 0
      → IsValid (add_at sys n mask proc arg proc_exp arg_exp s w).1
  add_at-IsValid n mask proc arg proc_exp arg_exp inside some_event =
      elim (add_at_ways sys s w n mask proc arg proc_exp arg_exp) [
        | inl (status, same) ↦ rw same v
        | inr (status, new) ↦
            rw new (replace-IsValid s n v (omega (arith, v.table)) _ _ refl counts)
      ]
    where
      now_monitored : bit_or (info_at s n).monitored mask ≢ 0
      now_monitored e = some_event (bit_or-eq-zero (info_at s n).monitored mask e).1

      counts :
          (if (info_at s n).monitored == 0 then s.num_monitored + 1 else s.num_monitored)
            + is_monitored (info_at s n)
          ≡ s.num_monitored + (if bit_or (info_at s n).monitored mask == 0 then 0 else 1)
      counts = ground (arith, now_monitored)

  pub del_at-IsValid :
      (n mask : ℕ)
      → n < s.fd_table_size
      → (info_at s n).monitored ≢ 0
      → IsValid (del_at sys n mask s w).1
  del_at-IsValid n mask inside held = elim (del_at_ways sys s w n mask) [
    | inl (status, same) ↦ rw same v
    | inr (inl (status, more, new)) ↦
        rw new (replace-IsValid s n v (omega (arith, v.table)) _ _ refl (ground arith))
    | inr (inr (status, nothing, new)) ↦
        rw new (release-IsValid s n v (omega (arith, v.table)) (ground arith))
  ]

  pub remove_at-IsValid :
      (n : ℕ) (close_it : Bool) → n < s.fd_table_size → IsValid (remove_at sys n close_it s w).1
  remove_at-IsValid n close_it inside = elim (remove_at_ways sys s w n close_it) [
    | inl same ↦ rw same v
    | inr (status, held, new) ↦
        rw new (release-IsValid s n v (omega (arith, v.table)) (ground arith))
  ]
