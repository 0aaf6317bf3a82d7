-- ===== src/AsyncEvent/Dispatch/Pending.antt =====
-- The list of ready descriptors across the passes of the event loop.
use libnebula.Prelude.{
  ℕ, zero, suc, ◌+◌, ◌≤◌, ◌<◌, ◌≡◌, refl, ap, ap₂, ◌∙◌, ◌≢◌, List, [], ◌∷◌, arith, get_or, set,
  set-get_or, weigh, bit_and, bit_and-zero, zero-bit_or,
}
use native.Mathlib.Decide.{ℕ_discrete}
use libnebula.AsyncEvent.{FdInfo, no_info, AsyncEvent, System, info_at, unlist}
use libnebula.AsyncEvent.Valid.{IsValid, is_fd}
use libnebula.AsyncEvent.Fds.{release}
use libnebula.AsyncEvent.Timers.{finished, out_of_range}
use libnebula.AsyncEvent.Dispatch.{set_fired, guess_of, ready_loop, process_ready_fds}

module _ {W : Type 0} (sys : System W) (fuel idx processed : ℕ) (s : AsyncEvent) (w : W) where
  abbrev current : ℕ
  current = get_or s.ready idx 0

  abbrev called : ℕ × AsyncEvent × W
  called =
      let info = info_at s current in sys.call_fd info.proc current info.already_fired info.arg s w

  ready_loop_stop :
      s.num_ready ≤ idx → ready_loop sys (suc fuel) idx processed s w ≡ finished (processed, s, w)
  unfolding ready_loop
  ready_loop_stop h = ground arith

  ready_loop_stays :
      idx < s.num_ready
      → guess_of called.0 (info_at called.1 current) ≢ 0
      → ready_loop sys (suc fuel) idx processed s w
        ≡ ready_loop sys fuel
            (idx + 1)
            (processed + 1)
            (set_fired called.1 current (guess_of called.0 (info_at called.1 current)))
            called.2
  unfolding ready_loop
  ready_loop_stays h more = ground arith

  -- The entry that was just handled is still read at `idx`, but no entry is in use.
  ready_loop_clash :
      idx < s.num_ready
      → guess_of called.0 (info_at called.1 current) ≡ 0
      → get_or called.1.ready idx 0 ≡ current
      → called.1.num_ready ≡ 0
      → ready_loop sys (suc fuel) idx processed s w ≡ out_of_range
  unfolding ready_loop
  ready_loop_clash h done same empty = ground arith

get_or-set_default : (l : List FdInfo) (i : ℕ) → get_or (set l i no_info) i no_info ≡ no_info
get_or-set_default [] i = refl
get_or-set_default (x ∷ l) zero = refl
get_or-set_default (x ∷ l) (suc i) = get_or-set_default l i

set-same : (l : List ℕ) (i : ℕ) → set l i (get_or l i 0) ≡ l
set-same l i = set-get_or l i 0

released_only :
    (s : AsyncEvent) (fd : ℕ)
    → s.num_ready ≡ 1
    → get_or s.ready 0 0 ≡ fd
    → ((release s fd).num_ready ≡ 0) × ((release s fd).ready ≡ s.ready)
unfolding unlist
released_only s fd one first = rw one (ground (arith, set-same s.ready 0))

-- A single ready descriptor, whose callback takes it off the object by `removeFd`: the pass of
-- `processReadyFds` then takes the last entry off an empty list, and reads at index -1.
process_ready_fds-self_removal :
    {W : Type 0} (sys : System W) (fuel : ℕ) (s : AsyncEvent) (w : W)
    → s.num_ready ≡ 1
    → (let fd = get_or s.ready 0 0 in
        let info = info_at s fd in
        (sys.call_fd info.proc fd info.already_fired info.arg s w).1 ≡ release s fd)
    → process_ready_fds sys (suc fuel) s w ≡ out_of_range
unfolding process_ready_fds
process_ready_fds-self_removal sys fuel s w one removed =
    let fd = get_or s.ready 0 0 in
    let (empty, same) = released_only s fd one refl in
    ready_loop_clash sys fuel 0 0 s w (omega arith)
      (rw (removed, get_or-set_default s.fds fd) (bit_and-zero _)) (rw (removed, same) refl)
      (rw removed empty)

weigh-at :
    (l : List ℕ) (lo j n : ℕ) → lo ≤ j → j < lo + n → 1 ≤ weigh (is_fd (get_or l j 0)) 0 l lo n
weigh-at l lo j zero p q = absurd (omega arith)
weigh-at l lo j (suc n) p q = elim (ℕ_discrete j lo) [
  | yes e ↦ rw e (ground arith)
  | no ne ↦ omega (arith, weigh-at l (lo + 1) j n (omega arith) (omega arith))
]

-- What a listed descriptor has pending.
listed_pending :
    {s : AsyncEvent} (j : ℕ)
    → IsValid s
    → j < s.num_ready
    → (info_at s (get_or s.ready j 0)).already_fired ≢ 0
listed_pending {s} j v inside none_pending =
    let once = weigh-at s.ready 0 j s.num_ready (omega arith) (omega arith) in
    ground (arith, v.listed (get_or s.ready j 0), once)

-- The callbacks of descriptors leave the object as it is, and answer NONE.
pub record IsDrained {W : Type 0} (sys : System W) : Type 0 where
  pub answers_none :
      (proc fd mask arg : ℕ) (s : AsyncEvent) (w : W) → (sys.call_fd proc fd mask arg s w).0 ≡ 0
  pub leaves :
      (proc fd mask arg : ℕ) (s : AsyncEvent) (w : W) → (sys.call_fd proc fd mask arg s w).1 ≡ s

-- What the calls for `n` ready descriptors from the place `idx` of the list on leave outside: for
-- each, its function with the descriptor, the events that are pending, and its argument.
abbrev pub call_ready : {W : Type 0} → System W → AsyncEvent → ℕ → ℕ → W → W
call_ready sys s zero idx w = w
call_ready sys s (suc n) idx w =
    let fd = get_or s.ready idx 0 in
    let info = get_or s.fds fd no_info in
    call_ready sys s n (idx + 1) (sys.call_fd info.proc fd info.already_fired info.arg s w).2

set_fired_self : (s : AsyncEvent) (fd : ℕ) → set_fired s fd (info_at s fd).already_fired ≡ s
set_fired_self s fd = ap (λ l. record s { fds = l }) (set-get_or s.fds fd no_info)

module _ {W : Type 0} (sys : System W) (drained : IsDrained sys) (s : AsyncEvent) (v : IsValid s)
    (within : (fd : ℕ)
      → bit_and (info_at s fd).already_fired (info_at s fd).monitored
        ≡ (info_at s fd).already_fired) where
  ready_loop-still :
      (fuel n idx processed : ℕ) (w : W)
      → n < fuel
      → idx + n ≡ s.num_ready
      → ready_loop sys fuel idx processed s w
        ≡ finished (processed + n, s, call_ready sys s n idx w)
  ready_loop-still zero n idx processed w enough e = absurd (omega arith)
  ready_loop-still (suc fuel) zero idx processed w enough e =
      ready_loop_stop sys fuel idx processed s w (omega arith)
      ∙ ap (λ (k : ℕ). finished (k, s, w)) (omega arith)
  ready_loop-still (suc fuel) (suc n) idx processed w enough e =
      let fd = get_or s.ready idx 0 in
      let info = info_at s fd in
      let call = sys.call_fd info.proc fd info.already_fired info.arg s w in
      let same : call.1 ≡ s = drained.leaves info.proc fd info.already_fired info.arg s w in
      let guess : guess_of call.0 (info_at call.1 fd) ≡ info.already_fired =
        rw (same, drained.answers_none info.proc fd info.already_fired info.arg s w, zero-bit_or)
          (within fd) in
      let rest =
        ready_loop-still fuel n (idx + 1) (processed + 1) call.2 (omega arith) (omega arith) in
      ready_loop_stays sys fuel idx processed s w (omega arith)
        (rw guess (listed_pending idx v (omega arith)))
      ∙ ap (λ t. ready_loop sys fuel (idx + 1) (processed + 1) t call.2)
          (ap₂ (λ t g. set_fired t fd g) same guess ∙ set_fired_self s fd)
      ∙ rest
      ∙ ap (λ (k : ℕ). finished (k, s, call_ready sys s n (idx + 1) call.2)) (omega arith)

  -- A pending descriptor stays pending even if its callback answers NONE: where every callback
  -- leaves the object alone and answers NONE, and only monitored events are pending, a pass of
  -- `processReadyFds` ends, calls for each entry of the list of ready descriptors, in order and
  -- once, its function with the descriptor, the events pending on it and its argument, and nothing
  -- else, returns the number of entries, and leaves the object as it is.
  pub process_ready_fds-still :
      (fuel : ℕ) (w : W)
      → s.num_ready < fuel
      → process_ready_fds sys fuel s w ≡ finished (s.num_ready, s, call_ready sys s s.num_ready 0 w)
  unfolding process_ready_fds
  process_ready_fds-still fuel w enough =
      ready_loop-still fuel s.num_ready 0 0 w enough (omega arith)
      ∙ ap (λ (k : ℕ). finished (k, s, call_ready sys s s.num_ready 0 w)) (omega arith)
