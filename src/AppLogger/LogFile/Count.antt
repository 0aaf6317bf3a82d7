-- ===== src/AppLogger/LogFile/Count.antt =====
-- When the messages that are written are forced to the disk.
use libnebula.Prelude.{
  ℕ, ◌+◌, ◌%◌, ◌^◌, ◌≤◌, ◌<◌, ◌≡◌, refl, ap, ◌∙◌, Option, none, some, List, [], ◌∷◌, arith, ◌==◌,
  length, Each, Each-map, Each-at, Each-bind, Each-cond, ◌≢◌,
}
use libnebula.Prelude.Int.{ℤ, pos}
use libnebula.Text.{Bytes}
use libnebula.AppLogger.LogFile.{
  FileHandle, Files, file_handle, open_file, set_dir, set_format, cleared, with_dir, set_config,
  fsync_to_disk, write_message, after_write,
}

abbrev SameCounts : FileHandle → FileHandle → Type 0
SameCounts h' h = (h'.max_write ≡ h.max_write) × (h'.num_write ≡ h.num_write)

-- The state that a call leaves.
abbrev pub kept : {W : Type 0} → ℤ × FileHandle × W → FileHandle × W
kept (nw, h, w) = (h, w)

module _ {W : Type 0} (sys : Files W) where
  -- One message after the other, and the bare calls of `write`.
  abbrev pub write_messages : FileHandle → List Bytes → W → FileHandle × W
  write_messages h [] w = (h, w)
  write_messages h (m ∷ ms) w =
      let (nw, h', w') = write_message sys h m w in write_messages h' ms w'

  abbrev pub write_plain : ℕ → List Bytes → W → W
  write_plain fd [] w = w
  write_plain fd (m ∷ ms) w = write_plain fd ms (sys.write w fd m).1

  fsync_to_disk_skip :
      (h : FileHandle) (w : W) → h.num_write ≢ h.max_write → fsync_to_disk sys h w ≡ (h, w)
  unfolding fsync_to_disk
  fsync_to_disk_skip h w ne = ground arith

  open_file-SameCounts : (h : FileHandle) (w : W) → Each (open_file sys h w) (λ r. SameCounts r.0 h)
  unfolding open_file
  open_file-SameCounts h w = ground arith

  set_dir-SameCounts :
      (h : FileHandle) (dir : Bytes) → Each (set_dir sys h dir) (λ r. SameCounts r h)
  unfolding set_dir
  set_dir-SameCounts h dir = ground arith

  cleared-SameCounts : (h : FileHandle) → Each (cleared sys h) (λ r. SameCounts r h)
  unfolding cleared
  cleared-SameCounts h = ground arith

  with_dir-SameCounts :
      (h : FileHandle) (dir : Option Bytes) → Each (with_dir sys h dir) (λ r. SameCounts r h)
  with_dir-SameCounts h none = (refl, refl)
  with_dir-SameCounts h (some dir) = set_dir-SameCounts h dir

  set_format-SameCounts :
      (h : FileHandle) (prefix : Option Bytes)
      → Each (set_format sys h prefix) (λ r. SameCounts r h)
  unfolding set_format
  set_format-SameCounts h none = tt
  set_format-SameCounts h (some prefix) = ground arith

  set_config-SameCounts :
      (h : FileHandle) (dir prefix : Option Bytes) (frequency : ℕ) (w : W)
      → Each (set_config sys h dir prefix frequency w) (λ r. SameCounts r.0 h)
  unfolding set_config
  set_config-SameCounts h dir prefix frequency w =
      Each-bind (cleared sys h) _ _ (cleared-SameCounts h) (λ h1 e1.
        Each-bind (with_dir sys h1 dir) _ _ (with_dir-SameCounts h1 dir) (λ h2 e2.
          Each-cond _ (h2.path_len == 0) _ _ (e2.0 ∙ e1.0, e2.1 ∙ e1.1)
            (Each-bind (set_format sys h2 prefix) _ _ (set_format-SameCounts h2 prefix) (λ h3 e3.
              Each-map (open_file sys h3 w)
                (λ r e. (e.0 ∙ e3.0 ∙ e2.0 ∙ e1.0, e.1 ∙ e3.1 ∙ e2.1 ∙ e1.1))
                (open_file-SameCounts h3 w)))))

  after_write_lem :
      (h : FileHandle) (r : Option ℕ × W)
      → h.max_write ≡ 0
      → h.num_write + 1 < 2 ^ 32
      → (n : ℕ) × (kept (after_write sys h r) ≡ (record h { num_write = n }, r.1))
        × (n ≤ h.num_write + 1)
  after_write_lem h (none, w) never small = (h.num_write, refl, omega arith)
  after_write_lem h (some nw, w) never small = (
    (h.num_write + 1) % 2 ^ 32,
    fsync_to_disk_skip (record h { num_write = (h.num_write + 1) % 2 ^ 32 }) w
        (λ e. omega (arith, e)),
    omega arith,
  )

  write_message_lem :
      (h : FileHandle) (m : Bytes) (w : W) (fd : ℕ)
      → h.fd ≡ pos fd
      → kept (write_message sys h m w) ≡ kept (after_write sys h (sys.write w fd m))
  unfolding write_message
  write_message_lem h m w fd e =
      let same : write_message sys h m w ≡ after_write sys h (sys.write w fd m) =
        simp (e, write_message) refl in
      ap kept same

  write_messages_lem :
      (h : FileHandle) (ms : List Bytes) (w : W) (fd : ℕ)
      → h.fd ≡ pos fd
      → h.max_write ≡ 0
      → h.num_write + length ms < 2 ^ 32
      → (n : ℕ) × (write_messages h ms w ≡ (record h { num_write = n }, write_plain fd ms w))
  write_messages_lem h [] w fd e never small = (h.num_write, refl)
  write_messages_lem h (m ∷ ms) w fd e never small =
      let (n, q, bound) = after_write_lem h (sys.write w fd m) never (omega arith) in
      let step = write_message_lem h m w fd e ∙ q in
      let (k, rest) =
        write_messages_lem (record h { num_write = n }) ms (sys.write w fd m).1 fd e never
          (omega arith) in
      (k, ap (λ r. write_messages r.0 ms r.1) step ∙ rest)

  -- A log file that `setConfig` opened on a new handle, with whatever frequency, makes no call but
  -- `write` while fewer than 2 ^ 32 messages are written.
  pub set_config-NeverSyncs :
      (log_file format : Bytes) (dir prefix : Option Bytes) (frequency : ℕ) (w w' : W)
      (h : FileHandle) (fd : ℕ) (ms : List Bytes)
      → set_config sys (file_handle log_file format) dir prefix frequency w ≡ some (h, w')
      → h.fd ≡ pos fd
      → length ms < 2 ^ 32
      → (n : ℕ) × (write_messages h ms w' ≡ (record h { num_write = n }, write_plain fd ms w'))
  unfolding file_handle
  set_config-NeverSyncs log_file format dir prefix frequency w w' h fd ms e opened small =
      let (never, none_yet) =
        Each-at _ _ _ (set_config-SameCounts (file_handle log_file format) dir prefix frequency w)
          e in
      write_messages_lem h ms w' fd opened never (omega (arith, none_yet))
