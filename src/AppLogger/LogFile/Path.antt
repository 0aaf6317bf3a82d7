-- ===== src/AppLogger/LogFile/Path.antt =====
-- The names of the files that `setConfig` and `switchFile` open.
use libnebula.Prelude.{
  ℕ, zero, suc, ◌+◌, ◌≤◌, ◌<◌, ◌≡◌, refl, sym, ap, ap₂, ◌∙◌, Bool, true, false, Option, none, some,
  ◌∷◌, ◌++◌, arith, ◌==◌, length, take, drop,
}
use libnebula.Prelude.Int.{ℤ, pos, negsuc}
use libnebula.Text.{Bytes, put, strlcat}
use libnebula.Text.Copy.{IsText, put-at}
use libnebula.Text.Append.{strlcat_lem}
use libnebula.Text.Slash.{IsSlashed, start_dir_lem}
use libnebula.AppLogger.LogFile.{
  path_max, FileHandle, Files, to_fd, open_file, set_dir, fsync_to_disk, close_fd, switch_file,
}

-- The path in memory of a directory and as much of a name as there is room for before `tail` ends,
-- with a NUL behind it.
abbrev pub path : Bytes → Bytes → Bytes → Bytes
path dir tail base =
    dir ++ (take (length tail) base ++ 0 ∷ drop (length (take (length tail) base) + 1) (0 ∷ tail))

module _ {W : Type 0} (sys : Files W) where
  -- The descriptor of a file that was opened, and -1 for one that was not.
  abbrev descriptor : Option ℕ → ℤ
  descriptor none = negsuc 0
  descriptor (some fd) = pos fd

  -- What `mkstemp` makes of a template.
  abbrev pub opened : FileHandle → Bytes → W → FileHandle × W
  opened h template w =
      let (fd, log_file', w') = sys.mkstemp w template in
      (record h { log_file = log_file'; fd = descriptor fd }, w')

  to_fd-descriptor : (r : Option ℕ) → to_fd r ≡ descriptor r
  to_fd-descriptor none = refl
  to_fd-descriptor (some fd) = refl

  open_file_lem :
      (h : FileHandle) (dir tail base junk : Bytes) (w w' : W)
      → h.log_file ≡ dir ++ 0 ∷ tail
      → length dir + suc (length tail) ≡ path_max
      → IsText dir
      → IsText base
      → sys.format_time w h.format ≡ (base ++ 0 ∷ junk, w')
      → open_file sys h w ≡ some (opened h (path dir tail base) w')
  unfolding open_file
  open_file_lem h dir tail base junk w w' e size d b f =
      let named : strlcat h.log_file (sys.format_time w h.format).0 path_max
          ≡ some (path dir tail base, length dir + length base) =
        ap₂ (λ l m. strlcat l m path_max) e (ap (λ r. r.0) f)
        ∙ ap (strlcat (dir ++ 0 ∷ tail) (base ++ 0 ∷ junk)) (sym size)
        ∙ strlcat_lem base junk dir tail (length tail) b d (omega arith) in
      rw (named, open_file)
        (rw (ap (λ r. r.1) f) (
          let r = sys.mkstemp w' (path dir tail base) in
          ap {B = Option (FileHandle × W)}
            (λ (d : ℤ). some (record h { log_file = r.1; fd = d }, r.2)) (to_fd-descriptor r.0)))

  -- What becomes of the old file, by its descriptor: `fsync` where the count of writes has come to
  -- its limit, for none but a descriptor above 0, and then `close`.
  abbrev pub left : ℤ → Bool → W → W
  left (negsuc n) due w = w
  left (pos zero) due w = sys.close w 0
  left (pos (suc n)) true w = sys.close (sys.fsync w (suc n)) (suc n)
  left (pos (suc n)) false w = sys.close w (suc n)

  -- The count of writes behind it: it starts again after an `fsync`.
  abbrev pub count_left : ℤ → Bool → ℕ → ℕ
  count_left (negsuc n) due count = count
  count_left (pos zero) due count = count
  count_left (pos (suc n)) true count = 0
  count_left (pos (suc n)) false count = count

  fsync_to_disk-left :
      (h : FileHandle) (fd : ℤ) (due : Bool) (w : W)
      → h.fd ≡ fd
      → (h.num_write == h.max_write) ≡ due
      → (h.path_len == 0) ≡ false
      → (fsync_to_disk sys h w).0 ≡ record h { num_write = count_left fd due h.num_write }
        × (close_fd sys (fsync_to_disk sys h w).0.fd (fsync_to_disk sys h w).1 ≡ left fd due w)
  unfolding fsync_to_disk
  fsync_to_disk-left h (negsuc n) due w e d some_dir = (ground arith, ground arith)
  fsync_to_disk-left h (pos zero) due w e d some_dir = (ground arith, ground arith)
  fsync_to_disk-left h (pos (suc n)) true w e d some_dir = (ground arith, ground arith)
  fsync_to_disk-left h (pos (suc n)) false w e d some_dir = (ground arith, ground arith)

  -- `switchFile` of a handle with a directory: it calls `fsync` on the descriptor if that is above 0
  -- and the number of writes is the limit, which sets the number to 0; then `close`, if there is a
  -- descriptor; then it opens a file of that directory, whose name is the current time in the format
  -- of the handle, cut where the path would be too long.
  pub switch_file_lem :
      (h : FileHandle) (dir tail base junk : Bytes) (x : ℕ) (w w' : W)
      → h.log_file ≡ dir ++ x ∷ tail
      → h.path_len ≡ length dir
      → 0 < length dir
      → length dir + suc (length tail) ≡ path_max
      → IsText dir
      → IsText base
      → sys.format_time (left h.fd (h.num_write == h.max_write) w) h.format ≡ (base ++ 0 ∷ junk, w')
      → switch_file sys h w
        ≡ some (
            opened
              (record h { num_write = count_left h.fd (h.num_write == h.max_write) h.num_write })
              (path dir tail base)
              w')
  unfolding switch_file
  switch_file_lem h dir tail base junk x w w' e len some_dir size d b f =
      let h1 = (fsync_to_disk sys h w).0 in
      let w1 = (fsync_to_disk sys h w).1 in
      let some_len : (h.path_len == 0) ≡ false = ground arith in
      let (same, world) =
        fsync_to_disk-left h h.fd (h.num_write == h.max_write) w refl refl some_len in
      let cut : put h1.log_file h1.path_len 0 ≡ some (dir ++ 0 ∷ tail) =
        ap (λ g. put g.log_file g.path_len 0) same
        ∙ ap₂ (λ l n. put l n 0) e len
        ∙ put-at dir x tail 0 in
      let named : sys.format_time (close_fd sys h1.fd w1) h1.format ≡ (base ++ 0 ∷ junk, w') =
        ap₂ sys.format_time world (ap (λ g. g.format) same) ∙ f in
      rw (some_len, switch_file)
        (rw cut (
          open_file_lem (record h1 { log_file = dir ++ 0 ∷ tail; fd = negsuc 0 }) dir tail base junk
            (close_fd sys h1.fd w1) w' refl size d b named
          ∙ ap (λ g. some (opened g (path dir tail base) w')) same))

  -- `setConfig` keeps a directory that ends in a slash as it is, and puts one behind any other; the
  -- length that it notes is that of the directory with the slash.
  set_dir_lem :
      (h : FileHandle) (dir junk : Bytes)
      → length h.log_file ≡ path_max
      → IsText dir
      → length dir + 2 ≤ path_max
      → (dir' tail : Bytes) × (set_dir sys h (dir ++ 0 ∷ junk)
          ≡ some (record h { log_file = dir' ++ 0 ∷ tail; path_len = length dir' }))
        × IsSlashed dir dir'
        × (length dir' + suc (length tail) ≡ path_max)
  unfolding set_dir
  set_dir_lem h dir junk room d fits =
      let (dir', tail, e, slashed, size) = start_dir_lem h.log_file dir junk 4095 room d fits in
      (dir', tail, rw (e, set_dir) refl, slashed, size)
