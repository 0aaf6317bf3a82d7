-- ===== src/Misc/Tests.antt =====
-- A descriptor with 3000 bytes.
use libnebula.Prelude.{ℕ, ◌-◌, ◌≡◌, refl, min, some}
use libnebula.Prelude.Int.{ℤ, pos}
use libnebula.Misc.{read_all_bytes, read_loop}

abbrev read : ℕ → ℤ × ℕ
read n = (pos (min n 1024), n - min n 1024)

read_all_bytes_test : read_all_bytes read 4 3000 ≡ some (3000, 0)
unfolding read_all_bytes read_loop
read_all_bytes_test = refl
