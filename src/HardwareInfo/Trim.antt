-- ===== src/HardwareInfo/Trim.antt =====
-- What `rightTrim` does to a line.
use libnebula.Prelude.{
  ℕ, suc, ◌+◌, ◌≡◌, refl, sym, ap, ap₂, ◌∙◌, true, false, none, some, [], ◌∷◌, ◌++◌, arith, length,
  get_elem?, set, length-append, replicate, append_assoc,
}
use libnebula.Text.{Bytes}
use libnebula.Text.Copy.{IsText, strlen-text}
use libnebula.HardwareInfo.{is_blank, trim_loop, right_trim}

-- Every character is blank.
abbrev AllBlank : Bytes → Type 0
AllBlank [] = Unit
AllBlank (c ∷ l) = (is_blank c ≡ true) × AllBlank l

get_elem?-at :
    (pre : Bytes) (c : ℕ) (post : Bytes) → get_elem? (pre ++ c ∷ post) (length pre) ≡ some c
get_elem?-at [] c post = refl
get_elem?-at (x ∷ pre) c post = get_elem?-at pre c post

set-at :
    (pre : Bytes) (c d : ℕ) (post : Bytes) → set (pre ++ c ∷ post) (length pre) d ≡ pre ++ d ∷ post
set-at [] c d post = refl
set-at (x ∷ pre) c d post = ap (λ l. x ∷ l) (set-at pre c d post)

trim_loop-blank :
    (pre : Bytes) (c : ℕ) (post : Bytes)
    → is_blank c ≡ true
    → trim_loop (pre ++ c ∷ post) (suc (length pre)) ≡ trim_loop (pre ++ 0 ∷ post) (length pre)
unfolding trim_loop
trim_loop-blank pre c post b =
    rw (get_elem?-at pre c post, trim_loop)
      (rw b (ap (λ l. trim_loop l (length pre)) (set-at pre c 0 post)))

trim_loop-stop :
    (pre : Bytes) (c : ℕ) (post : Bytes)
    → is_blank c ≡ false
    → trim_loop (pre ++ c ∷ post) (suc (length pre)) ≡ some (pre ++ c ∷ post)
unfolding trim_loop
trim_loop-stop pre c post b = rw (get_elem?-at pre c post, trim_loop) (rw b refl)

-- The zeros that are left of blanks.
abbrev zeros : Bytes → Bytes → Bytes
zeros blanks post = replicate (length blanks) 0 ++ post

trim_loop-blanks :
    (pre blanks post : Bytes)
    → AllBlank blanks
    → trim_loop (pre ++ (blanks ++ post)) (length pre + length blanks)
      ≡ trim_loop (pre ++ zeros blanks post) (length pre)
trim_loop-blanks pre [] post b = ap (trim_loop (pre ++ post)) (omega arith)
trim_loop-blanks pre (c ∷ blanks) post (b, bs) =
    let grown : length (pre ++ c ∷ []) ≡ length pre + 1 = length-append pre (c ∷ []) in
    ap₂ trim_loop (sym (append_assoc pre (c ∷ []) (blanks ++ post))) (
      let same : length pre + length (c ∷ blanks) ≡ length (pre ++ c ∷ []) + length blanks =
        omega (arith, grown) in
      same)
    ∙ trim_loop-blanks (pre ++ c ∷ []) blanks post bs
    ∙ ap₂ trim_loop (append_assoc pre (c ∷ []) (zeros blanks post))
        (let same : length (pre ++ c ∷ []) ≡ suc (length pre) = omega (arith, grown) in same)
    ∙ trim_loop-blank pre c (zeros blanks post) b

IsText-blank : (blanks : Bytes) → AllBlank blanks → IsText blanks
IsText-blank [] b = tt
IsText-blank (c ∷ blanks) (b, bs) = (λ e. ground (arith, e, b), IsText-blank blanks bs)

-- `rightTrim` of a line with a character that is not blank writes NUL over the blanks behind the
-- last such character and changes nothing else; of an empty line or one of blanks alone it reads
-- the byte before the line.
right_trim_lem :
    (front : Bytes) (c : ℕ) (blanks junk : Bytes)
    → IsText (front ++ c ∷ blanks)
    → is_blank c ≡ false
    → AllBlank blanks
    → (right_trim ((front ++ c ∷ blanks) ++ 0 ∷ junk) ≡ some (front ++ c ∷ zeros blanks (0 ∷ junk)))
      × (right_trim (blanks ++ 0 ∷ junk) ≡ none)
unfolding right_trim trim_loop
right_trim_lem front c blanks junk t solid b =
    let pre = front ++ c ∷ [] in
    let grown : length pre ≡ length front + 1 = length-append front (c ∷ []) in
    let all : length (front ++ c ∷ blanks) ≡ length pre + length blanks =
      omega (arith, grown, length-append front (c ∷ blanks)) in
    let shape : (front ++ c ∷ blanks) ++ 0 ∷ junk ≡ pre ++ (blanks ++ 0 ∷ junk) =
      append_assoc front (c ∷ blanks) (0 ∷ junk)
      ∙ sym (append_assoc front (c ∷ []) (blanks ++ 0 ∷ junk)) in
    (
      rw (strlen-text (front ++ c ∷ blanks) junk t, right_trim)
          (ap₂ trim_loop shape all
            ∙ trim_loop-blanks pre blanks (0 ∷ junk) b
            ∙ ap₂ trim_loop (append_assoc front (c ∷ []) (zeros blanks (0 ∷ junk)))
                (let same : length pre ≡ suc (length front) = omega (arith, grown) in same)
            ∙ trim_loop-stop front c (zeros blanks (0 ∷ junk)) solid),
      rw (strlen-text blanks junk (IsText-blank blanks b), right_trim)
          (ap (trim_loop (blanks ++ 0 ∷ junk))
              (let same : length blanks ≡ 0 + length blanks = omega arith in same)
            ∙ trim_loop-blanks [] blanks (0 ∷ junk) b),
    )
