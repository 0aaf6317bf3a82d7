-- ===== src/AsyncEvent/Fds/Kernel.antt =====
-- The table of descriptors against the interest list that the kernel keeps for the epoll object.
use libnebula.Prelude.{
  ℕ, ◌<◌, ◌≡◌, ◌≢◌, inl, inr, Bool, true, false, Option, none, some, arith, ◌==◌, if◌then◌else◌,
  Bool-cases, bit_and, bit_or, bit_or-eq-zero, zero-bit_and, length,
}
use native.Mathlib.Decide.{ℕ_discrete}
use libnebula.Prelude.Int.{ℤ}
use libnebula.AsyncEvent.{
  complement, no_info, AsyncEvent, CtlOp, Interest, System, info_at, interest_of,
}
use libnebula.AsyncEvent.Valid.{IsValid}
use libnebula.AsyncEvent.Fds.{add_at, add_fd_event, del_at, del_fd_event, remove_at, remove_fd}
use libnebula.AsyncEvent.Fds.Keep.{
  in_table-cases, info_at-set, add_at-IsValid, del_at-IsValid, remove_at-IsValid,
}

-- What a successful call leaves for its descriptor.
abbrev pub entry : CtlOp → Interest → Option Interest
entry CtlOp.insert e = some e
entry CtlOp.modify e = some e
entry CtlOp.delete e = none

-- The documented behaviour of `epoll_ctl` and `close`: `interest w fd` is what the epoll object
-- watches for `fd`. A descriptor that is not registered cannot be deleted (ENOENT).
pub record IsEpoll {W : Type 0} (sys : System W) (interest : W → ℕ → Option Interest) : Type 0 where
  pub applied :
      (w : W) (op : CtlOp) (n : ℕ) (e : Interest)
      → (sys.epoll_ctl w op n e).0 ≡ true
      → (fd : ℕ)
      → interest (sys.epoll_ctl w op n e).1 fd ≡ (if fd == n then entry op e else interest w fd)
  pub refused :
      (w : W) (op : CtlOp) (n : ℕ) (e : Interest)
      → (sys.epoll_ctl w op n e).0 ≡ false
      → (fd : ℕ) → interest (sys.epoll_ctl w op n e).1 fd ≡ interest w fd
  pub deletes_known :
      (w : W) (n : ℕ) (e : Interest)
      → (sys.epoll_ctl w CtlOp.delete n e).0 ≡ true
      → interest w n ≢ none
  pub closed :
      (w : W) (n fd : ℕ) → interest (sys.close w n) fd ≡ (if fd == n then none else interest w fd)

-- The kernel watches exactly the monitored descriptors, each for the events of its mask.
abbrev pub Agrees : {W : Type 0} → (W → ℕ → Option Interest) → AsyncEvent → W → Type 0
Agrees interest s w =
    (fd : ℕ)
    → interest w fd ≡ (
        if (info_at s fd).monitored == 0 then none else some (interest_of (info_at s fd).monitored))

module _ {W : Type 0} (sys : System W) (interest : W → ℕ → Option Interest)
    (epoll : IsEpoll sys interest) (s : AsyncEvent) (w : W) (v : IsValid s)
    (agrees : Agrees interest s w) (n : ℕ) (inside : n < s.fd_table_size) where
  room : n < length s.fds
  room = omega (arith, v.table)

  add_at-Agrees :
      (mask proc arg proc_exp arg_exp : ℕ)
      → mask ≢ 0
      → let (status, s', w') = add_at sys n mask proc arg proc_exp arg_exp s w in
        Agrees interest s' w'
  unfolding add_at
  add_at-Agrees mask proc arg proc_exp arg_exp some_event fd =
      let op = if (info_at s n).monitored == 0 then CtlOp.insert else CtlOp.modify in
      let e = interest_of (bit_or (info_at s n).monitored mask) in
      ground (
        arith,
        agrees fd,
        bit_or-eq-zero (info_at s n).monitored mask,
        info_at-set s n v room
            (record (info_at s n) {
              monitored = bit_or (info_at s n).monitored mask;
              proc = proc;
              arg = arg;
              proc_exp = proc_exp;
              arg_exp = arg_exp;
            })
            fd,
        λ (t : (sys.epoll_ctl w op n e).0 ≡ true). epoll.applied w op n e t fd,
        λ (t : (sys.epoll_ctl w op n e).0 ≡ false). epoll.refused w op n e t fd,
      )

  del_at-Agrees : (mask : ℕ) → let (status, s', w') = del_at sys n mask s w in Agrees interest s' w'
  unfolding del_at
  del_at-Agrees mask fd =
      let e = interest_of (bit_and (info_at s n).monitored (complement mask)) in
      let left = bit_and (info_at s n).monitored (complement mask) in
      ground (
        arith,
        agrees fd,
        info_at-set s n v room (record (info_at s n) { monitored = left }) fd,
        info_at-set s n v room no_info fd,
        λ (t : (sys.epoll_ctl w CtlOp.modify n e).0 ≡ true). epoll.applied w CtlOp.modify n e t fd,
        λ (t : (sys.epoll_ctl w CtlOp.modify n e).0 ≡ false). epoll.refused w CtlOp.modify n e t fd,
        λ (t : (sys.epoll_ctl w CtlOp.delete n e).0 ≡ true). epoll.applied w CtlOp.delete n e t fd,
        λ (t : (sys.epoll_ctl w CtlOp.delete n e).0 ≡ false). epoll.refused w CtlOp.delete n e t fd,
      )

  -- With nothing monitored the deletion is refused, and nothing changes.
  del_at_unmonitored : (mask : ℕ) → (info_at s n).monitored ≡ 0 → (del_at sys n mask s w).1 ≡ s
  unfolding del_at
  del_at_unmonitored mask none_held =
      let e = interest_of (bit_and (info_at s n).monitored (complement mask)) in
      ground (arith, agrees n, zero-bit_and (complement mask), epoll.deletes_known w n e)

  del_at-Keeps :
      (mask : ℕ)
      → let (status, s', w') = del_at sys n mask s w in IsValid s' × Agrees interest s' w'
  del_at-Keeps mask = elim (ℕ_discrete (info_at s n).monitored 0) [
    | yes none_held ↦ (rw (del_at_unmonitored mask none_held) v, del_at-Agrees mask)
    | no held ↦ (del_at-IsValid sys s w v n mask inside held, del_at-Agrees mask)
  ]

  remove_at-Agrees :
      (close_it : Bool)
      → let (status, s', w') = remove_at sys n close_it s w in Agrees interest s' w'
  unfolding remove_at
  remove_at-Agrees close_it fd =
      let e : Interest = record { epollin = false; epollout = false } in
      ground (
        arith,
        agrees fd,
        agrees n,
        info_at-set s n v room no_info fd,
        epoll.closed w n fd,
        epoll.closed (sys.epoll_ctl w CtlOp.delete n e).1 n fd,
        λ (t : (sys.epoll_ctl w CtlOp.delete n e).0 ≡ true). epoll.applied w CtlOp.delete n e t fd,
        λ (t : (sys.epoll_ctl w CtlOp.delete n e).0 ≡ false). epoll.refused w CtlOp.delete n e t fd,
      )

module _ {W : Type 0} (sys : System W) (interest : W → ℕ → Option Interest)
    (epoll : IsEpoll sys interest) (s : AsyncEvent) (w : W) (v : IsValid s)
    (agrees : Agrees interest s w) where
  -- `addFdEvent`, given a mask other than NONE, keeps the tables well-formed and in agreement with
  -- the kernel, on every path: success, refusal by the kernel, a descriptor outside the table.
  pub add_fd_event_keeps :
      (fd : ℤ) (mask proc arg proc_exp arg_exp : ℕ)
      → mask ≢ 0
      → let (status, s', w') = add_fd_event sys fd mask proc arg proc_exp arg_exp s w in
        IsValid s' × Agrees interest s' w'
  unfolding add_fd_event
  add_fd_event_keeps fd mask proc arg proc_exp arg_exp some_event = elim (in_table-cases s fd) [
    | inl outside ↦ rw (outside, add_fd_event) (v, agrees)
    | inr (n, at_n, inside) ↦
        rw (at_n, add_fd_event)
          (
            add_at-IsValid sys s w v n mask proc arg proc_exp arg_exp inside some_event,
            add_at-Agrees sys interest epoll s w v agrees n inside mask proc arg proc_exp arg_exp
                some_event,
          )
  ]

  -- `delFdEvent` keeps the tables well-formed and in agreement with the kernel, on every path.
  pub del_fd_event_keeps :
      (fd : ℤ) (mask : ℕ)
      → let (status, s', w') = del_fd_event sys fd mask s w in IsValid s' × Agrees interest s' w'
  unfolding del_fd_event
  del_fd_event_keeps fd mask = elim (in_table-cases s fd) [
    | inl outside ↦ rw (outside, del_fd_event) (v, agrees)
    | inr (n, at_n, inside) ↦
        rw (at_n, del_fd_event)
          (elim (Bool-cases (mask == 0)) [
            | inl nothing ↦ rw nothing (v, agrees)
            | inr some_event ↦
                rw some_event (del_at-Keeps sys interest epoll s w v agrees n inside mask)
          ])
  ]

  -- `removeFd` keeps the tables well-formed and in agreement with the kernel, on every path.
  pub remove_fd_keeps :
      (fd : ℤ) (close_it : Bool)
      → let (status, s', w') = remove_fd sys fd close_it s w in IsValid s' × Agrees interest s' w'
  unfolding remove_fd
  remove_fd_keeps fd close_it = elim (in_table-cases s fd) [
    | inl outside ↦ rw (outside, remove_fd) (v, agrees)
    | inr (n, at_n, inside) ↦
        rw (at_n, remove_fd)
          (
            remove_at-IsValid sys s w v n close_it inside,
            remove_at-Agrees sys interest epoll s w v agrees n inside close_it,
          )
  ]
