-- ===== src/FileSystem/Tests.antt =====
-- Runs on a small disk.
use libnebula.Prelude.{
  ℕ, ◌+◌, ◌≡◌, refl, false, true, some, List, [], ◌∷◌, ◌++◌, arith, map, replicate,
  length-replicate,
}
use libnebula.Prelude.Int.{pos}
use libnebula.Text.{Bytes, copy_loop, strlcpy, find_end, cat_loop, strlcat}
use libnebula.Text.Chars.{strncmp_eq, ends_with}
use libnebula.Text.Slash.{IsSlashed, start_dir}
use libnebula.FileSystem.{
  Status, Disk, get_file_status, atime, ctime, mtime, walk, file_tree_traversal,
}
use libnebula.FileSystem.Walk.{entries, visit_all, file_tree_traversal-Visits}

abbrev link : Status
link = record { accessed = 1; changed = 2; modified = 3 }

abbrev target : Status
target = record { accessed = 4; changed = 5; modified = 6 }

-- The directory has ".", "a" and "b"; every file is a link. The world counts the calls, and 100 for
-- `closedir`.
abbrev names : List Bytes
names = (46 ∷ []) ∷ (97 ∷ []) ∷ (98 ∷ []) ∷ []

abbrev disk : Disk ℕ
disk = record {
  stat = λ w path. (some target, w);
  lstat = λ w path. (some link, w);
  opendir = λ w path. (some (map (λ name. name ++ 0 ∷ []) names), w);
  closedir = λ w. w + 100;
  call = λ path s w. (pos 0, w + 1);
}

file_tree_traversal-Visits_example :
    (dir' : Bytes) × IsSlashed (47 ∷ []) dir'
    × (let (rc, w2) =
          visit_all
            (λ text w. (some link, w))
            (λ text s w. (pos 0, w + 1))
            (entries dir' names)
            0 in
        file_tree_traversal disk (replicate 4096 9) ((47 ∷ []) ++ 0 ∷ []) 0 ≡ some (rc, w2 + 100))
file_tree_traversal-Visits_example =
    file_tree_traversal-Visits disk (λ text w. (some link, w)) (λ text s w. (pos 0, w + 1))
      (λ text junk w. refl) (λ text junk s w. refl) (replicate 4096 9) (47 ∷ []) [] names 0 0
      (length-replicate {A = ℕ} 4096 9) (omega arith, tt) (omega arith) refl
      (
        ((omega arith, tt), omega arith),
        (((omega arith, tt), omega arith), (((omega arith, tt), omega arith), tt)),
      )

-- A short array holds the paths of these names.
file_tree_traversal_test :
    file_tree_traversal disk (replicate 8 9) (47 ∷ 100 ∷ 0 ∷ []) 0 ≡ some (pos 0, 102)
unfolding file_tree_traversal walk start_dir strlcpy copy_loop strlcat find_end cat_loop ends_with
    strncmp_eq
file_tree_traversal_test = refl

-- The time is that of the link, whether links are to be followed or not.
mtime_test : mtime disk (97 ∷ 0 ∷ []) true 0 ≡ (some 3, 0)
unfolding mtime get_file_status
mtime_test = refl

atime_test : atime disk (97 ∷ 0 ∷ []) false 0 ≡ (some 1, 0)
unfolding atime get_file_status
atime_test = refl

ctime_test : ctime disk (97 ∷ 0 ∷ []) true 0 ≡ (some 2, 0)
unfolding ctime get_file_status
ctime_test = refl
