-- ===== src/Text/Copy.antt =====
-- What `strlcpy` and `strlcat` do on memory that holds strings.
use libnebula.Prelude.{
  ℕ, zero, suc, ◌+◌, ◌-◌, ◌≤◌, ◌<◌, ◌≡◌, refl, sym, ap, ap₂, ◌∙◌, ◌≢◌, false, some, [], ◌∷◌, ◌++◌,
  arith, ◌==◌, length, length-append, length-take, take, drop, append_assoc,
}
use native.Mathlib.Decide.{dec_lt}
use libnebula.Text.{Bytes, put, skip, strlen, copy_loop, copy_rest, strlcpy}

-- The characters of a string: none of them is NUL.
abbrev pub IsText : Bytes → Type 0
IsText [] = Unit
IsText (c ∷ s) = (c ≢ 0) × IsText s

pub put-at :
    (pre : Bytes) (x : ℕ) (post : Bytes) (c : ℕ)
    → put (pre ++ x ∷ post) (length pre) c ≡ some (pre ++ c ∷ post)
put-at [] x post c = refl
put-at (y ∷ pre) x post c = rw (put-at pre x post c) refl

skip-text : (text junk : Bytes) → IsText text → skip (text ++ 0 ∷ junk) ≡ some junk
skip-text [] junk t = refl
skip-text (c ∷ text) junk (nonzero, t) = ground (arith, skip-text text junk t)

pub strlen-text : (text junk : Bytes) → IsText text → strlen (text ++ 0 ∷ junk) ≡ some (length text)
strlen-text [] junk t = refl
strlen-text (c ∷ text) junk (nonzero, t) = ground (arith, strlen-text text junk t)

copy_loop_stop :
    (n : ℕ) (s : Bytes) (d : ℕ) (dst dst' : Bytes)
    → put dst d 0 ≡ some dst'
    → copy_loop (suc (suc n)) (0 ∷ s) d dst ≡ some (dst', d + 1, s, suc n)
unfolding copy_loop
copy_loop_stop n s d dst dst' e = rw (e, copy_loop) refl

copy_loop_next :
    (n c : ℕ) (s : Bytes) (d : ℕ) (dst dst' : Bytes)
    → put dst d c ≡ some dst'
    → c ≢ 0
    → copy_loop (suc (suc n)) (c ∷ s) d dst ≡ copy_loop (suc n) s (d + 1) dst'
unfolding copy_loop
copy_loop_next n c s d dst dst' e nonzero = ground arith

module _ (pre : Bytes) (c : ℕ) where
  pub snoc-append : (post : Bytes) → (pre ++ c ∷ []) ++ post ≡ pre ++ c ∷ post
  snoc-append post = append_assoc pre (c ∷ []) post

  pub length-snoc : length (pre ++ c ∷ []) ≡ length pre + 1
  length-snoc = length-append pre (c ∷ [])

-- The string fits: it is copied with its NUL, and `n` does not reach 0.
copy_loop-fits :
    (n : ℕ) (text junk pre post : Bytes)
    → IsText text
    → length text < n
    → n ≤ length post
    → (d : ℕ) × (m : ℕ) × (copy_loop (suc n) (text ++ 0 ∷ junk) (length pre) (pre ++ post)
        ≡ some (pre ++ (text ++ 0 ∷ drop (length text + 1) post), d, junk, suc m))
copy_loop-fits zero text junk pre post t p q = absurd (omega arith)
copy_loop-fits (suc n) text junk pre [] t p q = absurd (omega arith)
copy_loop-fits (suc n) [] junk pre (x ∷ post) t p q =
    (length pre + 1, n, copy_loop_stop n junk (length pre) _ _ (put-at pre x post 0))
copy_loop-fits (suc n) (c ∷ text) junk pre (x ∷ post) (nonzero, t) p q =
    let (d, m, ih) =
      copy_loop-fits n text junk (pre ++ c ∷ []) post t (omega arith) (omega arith) in
    (
      d,
      m,
      copy_loop_next n c (text ++ 0 ∷ junk) (length pre) _ _ (put-at pre x post c) nonzero
          ∙ ap₂ (λ i l. copy_loop (suc n) (text ++ 0 ∷ junk) i l) (sym (length-snoc pre c))
              (sym (snoc-append pre c post))
          ∙ ih
          ∙ ap (λ l. some (l, d, junk, suc m))
              (snoc-append pre c _
                ∙ (let same : suc (length text + 1) ≡ suc (length text) + 1 = omega arith in
                    ap (λ k. pre ++ c ∷ (text ++ 0 ∷ drop k (x ∷ post))) same)),
    )

-- It does not: the first `n` characters are copied.
copy_loop-cut :
    (n : ℕ) (text junk pre post : Bytes)
    → IsText text
    → n ≤ length text
    → n < length post
    → copy_loop (suc n) (text ++ 0 ∷ junk) (length pre) (pre ++ post)
      ≡ some (pre ++ (take n text ++ drop n post), length pre + n, drop n text ++ 0 ∷ junk, 0)
unfolding copy_loop
copy_loop-cut zero text junk pre post t p q =
    ap (λ (k : ℕ). some (pre ++ post, k, text ++ 0 ∷ junk, 0)) (omega arith)
copy_loop-cut (suc n) [] junk pre post t p q = absurd (omega arith)
copy_loop-cut (suc n) (c ∷ text) junk pre [] t p q = absurd (omega arith)
copy_loop-cut (suc n) (c ∷ text) junk pre (x ∷ post) (nonzero, t) p q =
    copy_loop_next n c (text ++ 0 ∷ junk) (length pre) _ _ (put-at pre x post c) nonzero
    ∙ ap₂ (λ i l. copy_loop (suc n) (text ++ 0 ∷ junk) i l) (sym (length-snoc pre c))
        (sym (snoc-append pre c post))
    ∙ copy_loop-cut n text junk (pre ++ c ∷ []) post t (omega arith) (omega arith)
    ∙ ap₂ (λ l (k : ℕ). some (l, k, drop n text ++ 0 ∷ junk, 0)) (snoc-append pre c _)
        (omega (arith, length-snoc pre c))

pub take_all : (text : Bytes) (n : ℕ) → length text ≤ n → take n text ≡ text
take_all [] zero h = refl
take_all [] (suc n) h = refl
take_all (c ∷ text) zero h = absurd (omega arith)
take_all (c ∷ text) (suc n) h = ap (λ l. c ∷ l) (take_all text n (omega arith))

pub IsText-drop : (n : ℕ) (text : Bytes) → IsText text → IsText (drop n text)
IsText-drop zero text t = t
IsText-drop (suc n) [] t = t
IsText-drop (suc n) (c ∷ text) (nonzero, t) = IsText-drop n text t

put-cut :
    (n : ℕ) (text dst : Bytes)
    → n ≤ length text
    → n < length dst
    → put (take n text ++ drop n dst) n 0 ≡ some (take n text ++ 0 ∷ drop (n + 1) dst)
put-cut n text [] p q = absurd (omega arith)
put-cut zero text (x ∷ dst) p q = refl
put-cut (suc n) [] (x ∷ dst) p q = absurd (omega arith)
put-cut (suc n) (c ∷ text) (x ∷ dst) p q =
    let same : suc n + 1 ≡ suc (n + 1) = omega arith in
    rw (put-cut n text dst (omega arith) (omega arith), same) refl

strlcpy-rest :
    (dst src : Bytes) (siz : ℕ) (r : Bytes × ℕ × Bytes × ℕ)
    → copy_loop siz src 0 dst ≡ some r
    → strlcpy dst src siz ≡ copy_rest siz src r
unfolding strlcpy
strlcpy-rest dst src siz r e = rw (e, strlcpy) refl

consumed : (text junk : Bytes) → length (text ++ 0 ∷ junk) - length junk - 1 ≡ length text
consumed text junk = omega (arith, length-append text (0 ∷ junk))

copy_rest-cut :
    (n : ℕ) (text junk dst : Bytes)
    → n ≤ length text
    → n < length dst
    → IsText text
    → copy_rest
        (suc n)
        (text ++ 0 ∷ junk)
        (take n text ++ drop n dst, 0 + n, drop n text ++ 0 ∷ junk, 0)
      ≡ some (take n text ++ 0 ∷ drop (length (take n text) + 1) dst, length text)
copy_rest-cut n text junk dst p q t =
    let here : 0 + n ≡ n = omega arith in
    let size : length (take n text) ≡ n = ground (arith, length-take n text) in
    let some_room : (suc n == 0) ≡ false = ground arith in
    rw (here, some_room, put-cut n text dst p q, size, copy_rest)
      (rw (skip-text (drop n text) junk (IsText-drop n text t), consumed text junk) refl)

-- `strlcpy` on a string of memory and a buffer of at least `siz` bytes, `siz` not 0, leaves the
-- first `siz - 1` characters of the string in the buffer, or all if there are fewer, then a NUL,
-- and every byte after that as it was; and it returns the length of the string.
pub strlcpy_lem :
    (text junk dst : Bytes) (n : ℕ)
    → IsText text
    → n < length dst
    → strlcpy dst (text ++ 0 ∷ junk) (suc n)
      ≡ some (take n text ++ 0 ∷ drop (length (take n text) + 1) dst, length text)
strlcpy_lem text junk dst n t room = elim (dec_lt (length text) n) [
  | yes fits ↦
      let (d, m, e) = copy_loop-fits n text junk [] dst t fits (omega arith) in
      strlcpy-rest dst (text ++ 0 ∷ junk) (suc n) _ e
      ∙ ap₂ (λ l k. some (l ++ 0 ∷ drop (length l + 1) dst, k))
          (sym (take_all text n (omega arith))) (consumed text junk)
  | no cut ↦
      strlcpy-rest dst (text ++ 0 ∷ junk) (suc n) _
        (copy_loop-cut n text junk [] dst t (omega arith) room)
      ∙ copy_rest-cut n text junk dst (omega arith) room t
]
