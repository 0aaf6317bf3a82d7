-- ===== src/AppLogger/LogFile.antt =====
-- internal::FileHandle, include/nebula/app_logger.h and src/app_logger.cc: the file that the
-- messages go to, over the system calls as a parameter. `none` stands for an access out of bounds.
pub mod Count
pub mod Path
use libnebula.Prelude.{
  ℕ, zero, suc, ◌+◌, ◌%◌, ◌^◌, Bool, true, false, ◌&&◌, not, Option, none, some, List, [], ◌∷◌, ltb,
  ◌==◌, if◌then◌else◌, get_elem?,
}
use libnebula.Prelude.Int.{ℤ, pos, negsuc}
use libnebula.Text.{Bytes, put, strlcpy, strlcat}
use libnebula.Text.Slash.{start_dir}

-- `PATH_MAX`, and `NAME_MAX + 1`.
abbrev pub path_max : ℕ
path_max = 4096

abbrev name_size : ℕ
name_size = 256

-- "_%Y.%m.%d.%H.%M.%S_XXXXXX"
abbrev pattern : Bytes
pattern =
    95 ∷ 37 ∷ 89 ∷ 46 ∷ 37 ∷ 109 ∷ 46 ∷ 37 ∷ 100 ∷ 46 ∷ 37 ∷ 72 ∷ 46 ∷ 37 ∷ 77 ∷ 46 ∷ 37 ∷ 83 ∷ 95
    ∷ 88 ∷ 88 ∷ 88 ∷ 88 ∷ 88 ∷ 88 ∷ 0 ∷ []

-- The fields, without `prefix_`, which nothing uses; -1 is no descriptor.
pub record FileHandle : Type 0 where
  pub log_file : Bytes
  pub format : Bytes
  pub fd : ℤ
  pub num_write : ℕ
  pub max_write : ℕ
  pub path_len : ℕ

-- The constructor, on the memory of the two arrays.
unfoldable pub file_handle : Bytes → Bytes → FileHandle
file_handle log_file format = record {
  log_file = log_file;
  format = format;
  fd = negsuc 0;
  num_write = 0;
  max_write = 0;
  path_len = 0;
}

-- `mkstemp` also rewrites the template. `format_time` is `Time::formatEpochTime` into an array of
-- `name_size` bytes, which calls `strftime` on the current time.
pub record Files (W : Type 0) : Type 0 where
  pub format_time : W → Bytes → Bytes × W
  pub mkstemp : W → Bytes → Option ℕ × Bytes × W
  pub open_tty : W → Option ℕ × W
  pub write : W → ℕ → Bytes → Option ℕ × W
  pub fsync : W → ℕ → W
  pub close : W → ℕ → W

abbrev pub to_fd : Option ℕ → ℤ
to_fd none = negsuc 0
to_fd (some fd) = pos fd

module _ {W : Type 0} (sys : Files W) where
  -- A new file: the base name, and the template with it.
  unfoldable pub open_file : FileHandle → W → Option (FileHandle × W)
  open_file h w =
      let (basename, w1) = sys.format_time w h.format in
      elim (strlcat h.log_file basename path_max) [
        | none ↦ none
        | some (template, n) ↦
            let (opened, log_file', w2) = sys.mkstemp w1 template in
            some (record h { log_file = log_file'; fd = to_fd opened }, w2)
      ]

  -- The directory, with a slash behind it.
  unfoldable pub set_dir : FileHandle → Bytes → Option FileHandle
  set_dir h log_dir = elim (start_dir h.log_file log_dir path_max) [
    | none ↦ none
    | some (log_file', n) ↦ some (record h { log_file = log_file'; path_len = n })
  ]

  -- The format of a base name; `none` if the prefix is NULL.
  unfoldable pub set_format : FileHandle → Option Bytes → Option FileHandle
  set_format h none = none
  set_format h (some name_prefix) = elim (strlcpy h.format name_prefix name_size) [
    | none ↦ none
    | some (copied, n) ↦ elim (strlcat copied pattern name_size) [
      | none ↦ none
      | some (format', m) ↦ some (record h { format = format' })
    ]
  ]

  unfoldable pub cleared : FileHandle → Option FileHandle
  cleared h = elim (put h.log_file 0 0) [
    | none ↦ none
    | some log_file' ↦ elim (put h.format 0 0) [
      | none ↦ none
      | some format' ↦ some (record h { log_file = log_file'; format = format' })
    ]
  ]

  abbrev pub with_dir : FileHandle → Option Bytes → Option FileHandle
  with_dir h none = some h
  with_dir h (some log_dir) = set_dir h log_dir

  abbrev pub close_fd : ℤ → W → W
  close_fd (pos fd) w = sys.close w fd
  close_fd (negsuc n) w = w

  -- The directory and the prefix are `none` where they are NULL; `frequency` is not used.
  unfoldable pub set_config :
      FileHandle → Option Bytes → Option Bytes → ℕ → W → Option (FileHandle × W)
  unfolding open_file set_dir set_format cleared
  set_config h log_dir name_prefix frequency w = elim (cleared h) [
    | none ↦ none
    | some h1 ↦ elim (with_dir h1 log_dir) [
      | none ↦ none
      | some h2 ↦ elim (h2.path_len == 0) [
        | true ↦ let (opened, w') = sys.open_tty w in some (record h2 { fd = to_fd opened }, w')
        | false ↦ elim (set_format h2 name_prefix) [ none ↦ none | some h3 ↦ open_file h3 w ]
      ]
    ]
  ]

  -- The descriptor, if it is above 0.
  abbrev pub is_open : ℤ → Option ℕ
  is_open (pos zero) = none
  is_open (pos (suc n)) = some (suc n)
  is_open (negsuc n) = none

  unfoldable pub fsync_to_disk : FileHandle → W → FileHandle × W
  fsync_to_disk h w = elim (is_open h.fd) [
    | none ↦ (h, w)
    | some fd ↦
        if not (h.path_len == 0) && (h.num_write == h.max_write)
        then (record h { num_write = 0 }, sys.fsync w fd)
        else (h, w)
  ]

  -- What follows the call of `write`.
  abbrev pub after_write : FileHandle → Option ℕ × W → ℤ × FileHandle × W
  after_write h (none, w) = (negsuc 0, h, w)
  after_write h (some nw, w) =
      let (h', w') = fsync_to_disk (record h { num_write = (h.num_write + 1) % 2 ^ 32 }) w in
      (pos nw, h', w')

  -- What `write` returns, -1 if there is no file.
  unfoldable pub write_message : FileHandle → Bytes → W → ℤ × FileHandle × W
  unfolding fsync_to_disk
  write_message h message w = elim h.fd [
    | negsuc n ↦ (negsuc 0, h, w)
    | pos fd ↦ after_write h (sys.write w fd message)
  ]

  -- It returns false whatever happens; the result here is only the state. `close` of -1 does nothing.
  unfoldable pub switch_file : FileHandle → W → Option (FileHandle × W)
  unfolding fsync_to_disk open_file
  switch_file h w = elim (h.path_len == 0) [
    | true ↦ some (h, w)
    | false ↦
        let (h1, w1) = fsync_to_disk h w in
        elim (put h1.log_file h1.path_len 0) [
          | none ↦ none
          | some log_file' ↦
              open_file (record h1 { log_file = log_file'; fd = negsuc 0 }) (close_fd h1.fd w1)
        ]
  ]

  unfoldable pub destroy : FileHandle → W → W
  destroy h w = elim (is_open h.fd) [
    | none ↦ w
    | some fd ↦
        let w' = if not (h.path_len == 0) && not (h.num_write == 0) then sys.fsync w fd else w in
        sys.close w' fd
  ]
