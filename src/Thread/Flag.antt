-- ===== src/Thread/Flag.antt =====
-- Setting the stop flag ends, and the flag stays set.
use libnebula.Prelude.{ℕ, zero, suc, ◌≤◌, ◌≡◌, refl, some, arith}
use libnebula.Thread.{try_set_stop_flag, set_stop_flag, get_stop_flag}

-- `setStopFlag` ends in at most two rounds with the flag set, from a flag that is 0 or 1;
-- `trySetStopFlag` sets it as well, and returns 0 exactly to the caller that changed it.
pub set_stop_flag_lem :
    (fuel flag : ℕ)
    → flag ≤ 1
    → (set_stop_flag (suc (suc fuel)) flag ≡ some 1)
      × ((try_set_stop_flag flag).1 ≡ 1)
      × ((try_set_stop_flag flag).0 ≡ flag)
      × (get_stop_flag (try_set_stop_flag flag).1 ≡ 1)
unfolding set_stop_flag try_set_stop_flag get_stop_flag
set_stop_flag_lem fuel zero h = (refl, refl, refl, refl)
set_stop_flag_lem fuel (suc zero) h = (refl, refl, refl, refl)
set_stop_flag_lem fuel (suc (suc n)) h = absurd (omega arith)
