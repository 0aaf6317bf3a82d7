-- ===== src/FileSystem.antt =====
-- nebula::FileSystem, include/nebula/file_system.h and src/file_system.cc: the status of a file and
-- the walk over a directory, over the system calls as a parameter. `mkdir` and `rmdir` are only
-- declared there.
pub mod Walk
mod Tests
use libnebula.Prelude.{
  ℕ, zero, suc, Bool, true, false, ◌&&◌, ◌||◌, Option, none, some, List, [], ◌∷◌, ◌==◌,
  if◌then◌else◌,
}
use libnebula.Prelude.Int.{ℤ, pos, negsuc, go_on}
use libnebula.Text.{Bytes, put, strlcpy, strlcat}
use libnebula.Text.Slash.{start_dir}

abbrev pub path_max : ℕ
path_max = 4096

-- The times of a `struct stat`.
pub record Status : Type 0 where
  pub accessed : ℕ
  pub changed : ℕ
  pub modified : ℕ

-- `opendir` gives the names that `readdir_r` will, until it ends or fails; the callback is given
-- the memory of the path.
pub record Disk (W : Type 0) : Type 0 where
  pub stat : W → Bytes → Option Status × W
  pub lstat : W → Bytes → Option Status × W
  pub opendir : W → Bytes → Option (List Bytes) × W
  pub closedir : W → W
  pub call : Bytes → Status → W → ℤ × W

-- `!strcmp(name, "..") || !strcmp(name, ".")`
abbrev pub is_dots : Bytes → Bool
is_dots [] = false
is_dots (a ∷ []) = false
is_dots (a ∷ b ∷ []) = a == 46 && b == 0
is_dots (a ∷ b ∷ c ∷ l) = a == 46 && (b == 0 || (b == 46 && c == 0))

module _ {W : Type 0} (sys : Disk W) where
  -- `none` stands for -1. A successful `stat` is followed by `lstat` into the same buffer.
  unfoldable pub get_file_status : Bytes → Bool → W → Option Status × W
  get_file_status path false w = sys.lstat w path
  get_file_status path true w =
      let (followed, w') = sys.stat w path in
      elim followed [ none ↦ (none, w') | some s ↦ sys.lstat w' path ]

  unfoldable pub atime : Bytes → Bool → W → Option ℕ × W
  unfolding get_file_status
  atime path follow_link w =
      let (status, w') = get_file_status path follow_link w in
      (elim status [ none ↦ none | some s ↦ some s.accessed ], w')

  unfoldable pub ctime : Bytes → Bool → W → Option ℕ × W
  unfolding get_file_status
  ctime path follow_link w =
      let (status, w') = get_file_status path follow_link w in
      (elim status [ none ↦ none | some s ↦ some s.changed ], w')

  unfoldable pub mtime : Bytes → Bool → W → Option ℕ × W
  unfolding get_file_status
  mtime path follow_link w =
      let (status, w') = get_file_status path follow_link w in
      (elim status [ none ↦ none | some s ↦ some s.modified ], w')

  -- The status of an entry and the callback: `rc` and the world.
  abbrev pub visit : Bytes → Option Status × W → ℤ × W
  visit path (none, w) = (negsuc 0, w)
  visit path (some s, w) = sys.call path s w

  -- The loop over the entries, with the memory of the path. `none` is an access out of bounds.
  unfoldable pub walk : List Bytes → Bytes → ℕ → W → Option (ℤ × W)
  walk [] entry_path used w = some (pos 0, w)
  walk (name ∷ names) entry_path used w = elim (is_dots name) [
    | true ↦ walk names entry_path used w
    | false ↦ elim (put entry_path used 0) [
      | none ↦ none
      | some cut ↦ elim (strlcat cut name path_max) [
        | none ↦ none
        | some (path, n) ↦ go_on (visit path (sys.lstat w path)) (λ w'. walk names path used w')
      ]
    ]
  ]

  abbrev pub closed : Option (ℤ × W) → Option (ℤ × W)
  closed none = none
  closed (some (rc, w)) = some (rc, sys.closedir w)

  abbrev pub after_opendir : Bytes → Bytes → Option (List Bytes) × W → Option (ℤ × W)
  after_opendir memory dir_path (none, w) = some (negsuc 0, w)
  after_opendir memory dir_path (some names, w) = elim (start_dir memory dir_path path_max) [
    | none ↦ none
    | some (entry_path, used) ↦ closed (walk names entry_path used w)
  ]

  -- `memory` is what the array of the path holds before it is written.
  unfoldable pub file_tree_traversal : Bytes → Bytes → W → Option (ℤ × W)
  unfolding walk
  file_tree_traversal memory dir_path w = after_opendir memory dir_path (sys.opendir w dir_path)
