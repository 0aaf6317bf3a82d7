-- ===== src/FileSystem/Walk.antt =====
-- Which entries `fileTreeTraversal` visits.
use libnebula.Prelude.{
  ℕ, suc, ◌+◌, ◌≤◌, ◌<◌, ◌≡◌, refl, sym, ap, ◌∙◌, Bool, true, false, ◌&&◌, Option, none, some, List,
  [], ◌∷◌, ◌++◌, arith, map, ◌==◌, length, drop, length-append, length-drop, append_assoc, All, inl,
  inr,
}
use libnebula.Prelude.Int.{ℤ, pos, negsuc, go_on, unless_zero, go_on_lem}
use libnebula.Text.{Bytes, put, strlcat}
use libnebula.Text.Copy.{IsText, put-at, take_all}
use libnebula.Text.Append.{strlcat_lem}
use libnebula.Text.Slash.{IsSlashed, start_dir_lem}
use libnebula.FileSystem.{
  path_max, Status, Disk, is_dots, visit, walk, closed, after_opendir, file_tree_traversal,
}

-- The texts "." and "..".
abbrev is_dots_text : Bytes → Bool
is_dots_text [] = false
is_dots_text (a ∷ []) = a == 46
is_dots_text (a ∷ b ∷ []) = a == 46 && b == 46
is_dots_text (a ∷ b ∷ c ∷ l) = false

is_dots-text : (text : Bytes) → IsText text → is_dots (text ++ 0 ∷ []) ≡ is_dots_text text
is_dots-text [] t = refl
is_dots-text (a ∷ []) t = ground arith
is_dots-text (a ∷ b ∷ []) (p, (q, t)) = ground arith
is_dots-text (a ∷ b ∷ c ∷ []) (p, (q, (r, t))) = ground arith
is_dots-text (a ∷ b ∷ c ∷ d ∷ l) (p, (q, (r, t))) = ground arith

-- The texts of the entries that are visited, behind the directory.
abbrev pub entries : Bytes → List Bytes → List Bytes
entries dir [] = []
entries dir (name ∷ names) =
    let rest = entries dir names in
    elim (is_dots_text name) [ true ↦ rest | false ↦ (dir ++ name) ∷ rest ]

-- The status of a path and the action on it, one after the other, to the first that is not 0.
abbrev act_on : {W : Type 0} → (Bytes → Status → W → ℤ × W) → Bytes → Option Status × W → ℤ × W
act_on act path (none, w) = (negsuc 0, w)
act_on act path (some s, w) = act path s w

abbrev pub visit_all :
    {W : Type 0}
    → (Bytes → W → Option Status × W)
    → (Bytes → Status → W → ℤ × W)
    → List Bytes
    → W
    → ℤ × W
visit_all look act [] w = (pos 0, w)
visit_all look act (path ∷ paths) w =
    unless_zero (act_on act path (look path w)) (λ w'. visit_all look act paths w')

IsText-slash : (dir : Bytes) → IsText dir → IsText (dir ++ 47 ∷ [])
IsText-slash [] d = (λ e. omega (arith, e), tt)
IsText-slash (c ∷ dir) (p, d) = (p, IsText-slash dir d)

-- A directory with its slash is a text, and at most one character longer.
slashed-IsText :
    (dir dir' : Bytes)
    → IsText dir
    → IsSlashed dir dir'
    → IsText dir' × (length dir' ≤ length dir + 1)
slashed-IsText dir dir' d (inl (same, rest)) = (rw same d, omega (arith, ap length same))
slashed-IsText dir dir' d (inr (longer, rest)) =
    (rw longer (IsText-slash dir d), omega (arith, ap length longer, length-append dir (47 ∷ [])))

All-map : {A : Type 0} {P Q : A → Type 0} (l : List A) → ((a : A) → P a → Q a) → All P l → All Q l
All-map [] f h = tt
All-map (x ∷ l) f (h, hs) = (f x h, All-map l f hs)

module _ {W : Type 0} (sys : Disk W) (look : Bytes → W → Option Status × W)
    (act : Bytes → Status → W → ℤ × W)
    (looks : (text junk : Bytes) (w : W) → sys.lstat w (text ++ 0 ∷ junk) ≡ look text w)
    (acts : (text junk : Bytes) (s : Status) (w : W)
      → sys.call (text ++ 0 ∷ junk) s w ≡ act text s w) where
  visit-text :
      (text junk : Bytes) (r : Option Status × W)
      → visit sys (text ++ 0 ∷ junk) r ≡ act_on act text r
  visit-text text junk (none, w) = refl
  visit-text text junk (some s, w) = acts text junk s w

  step :
      (b : Bool) (x y : Option (ℤ × W)) (c : Bytes) (cs : List Bytes) (w : W)
      → x ≡ some (visit_all look act cs w)
      → y ≡ some (visit_all look act (c ∷ cs) w)
      → elim b as (λ z. Option (ℤ × W)) [ true ↦ x | false ↦ y ]
        ≡ some (visit_all look act (elim b as (λ z. List Bytes) [ true ↦ cs | false ↦ c ∷ cs ]) w)
  step true x y c cs w p q = p
  step false x y c cs w p q = q

  -- The memory of the path of an entry.
  entry-path :
      (dir tail name : Bytes) (x : ℕ)
      → IsText dir
      → IsText name
      → length name ≤ length tail
      → length dir + suc (length tail) ≡ path_max
      → (junk : Bytes) × (cut : Bytes) × (put (dir ++ x ∷ tail) (length dir) 0 ≡ some cut)
        × (strlcat cut (name ++ 0 ∷ []) path_max
            ≡ some ((dir ++ name) ++ 0 ∷ junk, length dir + length name))
        × (length name + suc (length junk) ≡ suc (length tail))
  entry-path dir tail name x d t fits size = (
    drop (length name + 1) (0 ∷ tail),
    dir ++ 0 ∷ tail,
    put-at dir x tail 0,
    ap (strlcat (dir ++ 0 ∷ tail) (name ++ 0 ∷ [])) (sym size)
        ∙ strlcat_lem name [] dir tail (length tail) t d (omega arith)
        ∙ ap
            (λ l. some (dir ++ (l ++ 0 ∷ drop (length l + 1) (0 ∷ tail)), length dir + length name))
            (take_all name (length tail) fits)
        ∙ ap (λ l. some (l, length dir + length name)) (sym (append_assoc dir name _)),
    omega (arith, length-drop (length name + 1) (0 ∷ tail)),
  )

  walk-Visits :
      (names : List Bytes) (dir rest : Bytes) (w : W)
      → IsText dir
      → length dir + length rest ≡ path_max
      → All (λ name. IsText name × (length dir + length name < path_max)) names
      → walk sys (map (λ name. name ++ 0 ∷ []) names) (dir ++ rest) (length dir) w
        ≡ some (visit_all look act (entries dir names) w)
  unfolding walk
  walk-Visits [] dir rest w d size fits = refl
  walk-Visits (name ∷ names) dir [] w d size ((t, fit), fits) = absurd (omega (arith, size))
  walk-Visits (name ∷ names) dir (x ∷ tail) w d size ((t, fit), fits) =
      let (junk, cut, e1, e2, room) =
        entry-path dir tail name x d t (omega (arith, size)) (omega (arith, size)) in
      let seen : visit sys ((dir ++ name) ++ 0 ∷ junk) (sys.lstat w ((dir ++ name) ++ 0 ∷ junk))
          ≡ act_on act (dir ++ name) (look (dir ++ name) w) =
        visit-text (dir ++ name) junk _
        ∙ ap (act_on act (dir ++ name)) (looks (dir ++ name) junk w) in
      let later = λ (v : W).
        ap (λ l. walk sys (map (λ name. name ++ 0 ∷ []) names) l (length dir) v)
          (append_assoc dir name (0 ∷ junk))
        ∙ walk-Visits names dir (name ++ 0 ∷ junk) v d
            (omega (arith, size, room, length-append name (0 ∷ junk))) fits in
      rw (is_dots-text name t, walk)
        (step (is_dots_text name) _ _ _ _ w (walk-Visits names dir (x ∷ tail) w d size fits) (
          rw e1 (
            rw e2 (
              ap
                (λ r. go_on r (λ v.
                  walk sys (map (λ name. name ++ 0 ∷ []) names) ((dir ++ name) ++ 0 ∷ junk)
                    (length dir) v))
                seen
              ∙ go_on_lem (act_on act (dir ++ name) (look (dir ++ name) w)) _
                  (λ v. visit_all look act (entries dir names) v) later))))

  -- `fileTreeTraversal` of a directory that opens, where every path of an entry fits into PATH_MAX
  -- bytes, for a callback and an `lstat` that go by the text of a path alone: for each entry but
  -- "." and "..", in order, it takes the status of the path, that is the directory, a slash if it
  -- does not end in one, and the name, and calls the callback on it, up to the first status that
  -- fails or call that does not return 0; it returns -1 or what that call returned, or 0, after a
  -- `closedir` that follows the visits.
  pub file_tree_traversal-Visits :
      (memory dir junk : Bytes) (names : List Bytes) (w w' : W)
      → length memory ≡ path_max
      → IsText dir
      → length dir + 2 ≤ path_max
      → sys.opendir w (dir ++ 0 ∷ junk) ≡ (some (map (λ name. name ++ 0 ∷ []) names), w')
      → All (λ name. IsText name × (length dir + 1 + length name < path_max)) names
      → (dir' : Bytes) × IsSlashed dir dir'
        × (let (rc, w2) = visit_all look act (entries dir' names) w' in
            file_tree_traversal sys memory (dir ++ 0 ∷ junk) w ≡ some (rc, sys.closedir w2))
  unfolding file_tree_traversal
  file_tree_traversal-Visits memory dir junk names w w' room d short opened fits =
      let (dir', tail, e, slashed, size) = start_dir_lem memory dir junk 4095 room d short in
      let (d', longer) = slashed-IsText dir dir' d slashed in
      let fits' = All-map names (λ name h. (h.0, omega (arith, longer, h.1))) fits in
      (
        dir',
        slashed,
        ap (after_opendir sys memory (dir ++ 0 ∷ junk)) opened
            ∙ rw (e, after_opendir)
                (ap (closed sys) (walk-Visits names dir' (0 ∷ tail) w' d' size fits')),
      )
