-- ===== src/Text/Slash.antt =====
-- The start of a path in memory: a directory, with a slash behind it. `FileHandle::setConfig` and
-- `FileSystem::fileTreeTraversal` both put it together so.
use libnebula.Prelude.{
  ℕ, suc, ◌+◌, ◌≤◌, ◌≡◌, refl, sym, ap, ap₂, ◌∙◌, ◌≢◌, ◌⊎◌, inl, inr, true, false, Option, none,
  some, [], ◌∷◌, ◌++◌, arith, length, take, drop, length-append, length-drop, append_assoc,
}
use libnebula.Text.{Bytes, strlcpy, strlcat}
use libnebula.Text.Copy.{IsText, strlcpy_lem, take_all}
use libnebula.Text.Append.{strlcat_lem}
use libnebula.Text.Chars.{ends_with}
use libnebula.Text.Chars.Affix.{ends_with-Decides}

-- "/"
abbrev pub slash : Bytes
slash = 47 ∷ 0 ∷ []

-- The memory and the length of the path, as `strlcpy` or `strlcat` return it.
unfoldable pub start_dir : Bytes → Bytes → ℕ → Option (Bytes × ℕ)
start_dir memory dir siz = elim (strlcpy memory dir siz) [
  | none ↦ none
  | some (copied, n) ↦ elim (ends_with copied slash) [
    | none ↦ none
    | some ended ↦ elim ended [ true ↦ some (copied, n) | false ↦ strlcat copied slash siz ]
  ]
]

add_slash :
    (dir rest : Bytes) (siz : ℕ)
    → IsText dir
    → length dir + suc (length rest) ≡ siz
    → length dir + 2 ≤ siz
    → (tail : Bytes) × (strlcat (dir ++ 0 ∷ rest) slash siz
        ≡ some ((dir ++ 47 ∷ []) ++ 0 ∷ tail, length (dir ++ 47 ∷ [])))
      × (length (dir ++ 47 ∷ []) + suc (length tail) ≡ siz)
add_slash dir [] siz d size fits = absurd (omega arith)
add_slash dir (y ∷ rest) siz d size fits = (
  rest,
  ap (strlcat (dir ++ 0 ∷ y ∷ rest) slash) (sym size)
      ∙ strlcat_lem (47 ∷ []) [] dir (y ∷ rest) (length (y ∷ rest)) (λ e. omega (arith, e), tt) d
          (omega arith)
      ∙ ap (λ l. some (dir ++ (l ++ 0 ∷ drop (length l + 1) (0 ∷ y ∷ rest)), length dir + 1))
          (take_all (47 ∷ []) (length (y ∷ rest)) (omega arith))
      ∙ ap₂ (λ l n. some (l, n)) (sym (append_assoc dir (47 ∷ []) (0 ∷ rest)))
          (sym (length-append dir (47 ∷ []))),
  omega (arith, length-append dir (47 ∷ [])),
)

-- What stands before the NUL: the directory, if it ends in a slash, or else the directory and a slash.
abbrev pub IsSlashed : Bytes → Bytes → Type 0
IsSlashed dir dir' =
    ((dir' ≡ dir) × ((rest : Bytes) × (dir ≡ rest ++ 47 ∷ [])))
    ⊎ ((dir' ≡ dir ++ 47 ∷ []) × ((rest : Bytes) → dir ≢ rest ++ 47 ∷ []))

pub start_dir_lem :
    (memory dir junk : Bytes) (n : ℕ)
    → length memory ≡ suc n
    → IsText dir
    → length dir + 2 ≤ suc n
    → (dir' tail : Bytes) × (start_dir memory (dir ++ 0 ∷ junk) (suc n)
        ≡ some (dir' ++ 0 ∷ tail, length dir'))
      × IsSlashed dir dir'
      × (length dir' + suc (length tail) ≡ suc n)
unfolding start_dir
start_dir_lem memory dir junk n room d fits =
    let k = length (take n dir) + 1 in
    let rest = drop k memory in
    let whole = take_all dir n (omega arith) in
    let copied : strlcpy memory (dir ++ 0 ∷ junk) (suc n) ≡ some (dir ++ 0 ∷ rest, length dir) =
      strlcpy_lem dir junk memory n d (omega arith)
      ∙ ap (λ l. some (l ++ 0 ∷ rest, length dir)) whole in
    let size : length dir + suc (length rest) ≡ suc n =
      omega (arith, length-drop k memory, ap length whole) in
    elim (ends_with-Decides dir rest (47 ∷ []) [] d (λ e. omega (arith, e), tt)) [
      | inl (ended, front, q) ↦
          (dir, rest, rw (copied, start_dir) (rw ended refl), inl (refl, (front, q)), size)
      | inr (bare, never) ↦
          let (tail, added, size') = add_slash dir rest (suc n) d size fits in
          (dir ++ 47 ∷ [], tail, rw (copied, start_dir) (rw bare added), inr (refl, never), size')
    ]
