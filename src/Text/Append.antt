-- ===== src/Text/Append.antt =====
-- What `strlcat` does on memory that holds strings.
use libnebula.Prelude.{
  ℕ, zero, suc, ◌+◌, ◌-◌, ◌≤◌, ◌<◌, ◌≡◌, refl, sym, ap, ap₂, ◌∙◌, ◌≢◌, true, false, some, [], ◌∷◌,
  ◌++◌, arith, ◌==◌, length, take, drop,
}
use libnebula.Text.{Bytes, put, find_end, cat_loop, strlcat}
use libnebula.Text.Copy.{IsText, put-at, strlen-text, snoc-append, length-snoc}

find_end-text :
    (siz : ℕ) (old rest : Bytes)
    → IsText old
    → length old < siz
    → find_end siz (old ++ 0 ∷ rest) ≡ some (length old)
unfolding find_end
find_end-text zero old rest t h = absurd (omega arith)
find_end-text (suc siz) [] rest t h = refl
find_end-text (suc siz) (c ∷ old) rest (nonzero, t) h =
    ground (arith, find_end-text siz old rest t (omega arith))

-- No NUL in the first `siz` bytes.
find_end_none :
    (siz : ℕ) (old : Bytes) → IsText old → siz ≤ length old → find_end siz old ≡ some siz
unfolding find_end
find_end_none zero old t h = refl
find_end_none (suc siz) [] t h = absurd (omega arith)
find_end_none (suc siz) (c ∷ old) (nonzero, t) h =
    ground (arith, find_end_none siz old t (omega arith))

cat_loop_skip :
    (c : ℕ) (s : Bytes) (d : ℕ) (dst dst' : Bytes) (k : ℕ)
    → c ≢ 0
    → cat_loop s 1 d dst ≡ some (dst', k)
    → cat_loop (c ∷ s) 1 d dst ≡ some (dst', k + 1)
unfolding cat_loop
cat_loop_skip c s d dst dst' k nonzero e =
    let kept : (c == 0) ≡ false = ground arith in rw (kept, e, cat_loop) refl

cat_loop_next :
    (c : ℕ) (s : Bytes) (n d : ℕ) (dst dst1 dst' : Bytes) (k : ℕ)
    → c ≢ 0
    → put dst d c ≡ some dst1
    → cat_loop s (suc n) (d + 1) dst1 ≡ some (dst', k)
    → cat_loop (c ∷ s) (suc (suc n)) d dst ≡ some (dst', k + 1)
unfolding cat_loop
cat_loop_next c s n d dst dst1 dst' k nonzero e rest =
    let kept : (c == 0) ≡ false = ground arith in
    let more : (suc (suc n) == 1) ≡ false = ground arith in
    let less : suc (suc n) - 1 ≡ suc n = omega arith in
    let rest' = ap (λ i. cat_loop s i (d + 1) dst1) less ∙ rest in
    rw (kept, more, e, rest', cat_loop) refl

-- With room for one byte left, what remains of the string is only counted.
cat_loop-full :
    (text junk pre : Bytes) (x : ℕ) (post : Bytes)
    → IsText text
    → cat_loop (text ++ 0 ∷ junk) 1 (length pre) (pre ++ x ∷ post)
      ≡ some (pre ++ 0 ∷ post, length text)
unfolding cat_loop
cat_loop-full [] junk pre x post t = rw (put-at pre x post 0, cat_loop) refl
cat_loop-full (c ∷ text) junk pre x post (nonzero, t) =
    cat_loop_skip c (text ++ 0 ∷ junk) (length pre) (pre ++ x ∷ post) _ _ nonzero
      (cat_loop-full text junk pre x post t)
    ∙ ap (λ k. some (pre ++ 0 ∷ post, k))
        (let same : length text + 1 ≡ suc (length text) = omega arith in same)

cat_loop-text :
    (n : ℕ) (text junk pre post : Bytes)
    → IsText text
    → n < length post
    → cat_loop (text ++ 0 ∷ junk) (suc n) (length pre) (pre ++ post)
      ≡ some (pre ++ (take n text ++ 0 ∷ drop (length (take n text) + 1) post), length text)
unfolding cat_loop
cat_loop-text n text junk pre [] t room = absurd (omega arith)
cat_loop-text zero text junk pre (x ∷ post) t room = cat_loop-full text junk pre x post t
cat_loop-text (suc n) [] junk pre (x ∷ post) t room = rw (put-at pre x post 0, cat_loop) refl
cat_loop-text (suc n) (c ∷ text) junk pre (x ∷ post) (nonzero, t) room =
    let l = take n text ++ 0 ∷ drop (length (take n text) + 1) post in
    cat_loop_next c (text ++ 0 ∷ junk) n (length pre) (pre ++ x ∷ post) _ (pre ++ c ∷ l)
      (length text) nonzero (put-at pre x post c)
      (ap₂ (λ i d. cat_loop (text ++ 0 ∷ junk) (suc n) i d) (sym (length-snoc pre c))
          (sym (snoc-append pre c post))
        ∙ cat_loop-text n text junk (pre ++ c ∷ []) post t (omega arith)
        ∙ ap (λ l'. some (l', length text)) (snoc-append pre c l))
    ∙ (let same : length text + 1 ≡ suc (length text) = omega arith in
        let size : suc (length (take n text)) + 1 ≡ suc (length (take n text) + 1) = omega arith in
        ap₂ (λ i k. some (pre ++ c ∷ (take n text ++ 0 ∷ drop i (x ∷ post)), k)) (sym size) same)

strlcat-text :
    (src dst dst' : Bytes) (siz dlen k m : ℕ)
    → find_end siz dst ≡ some dlen
    → siz - dlen ≡ suc m
    → cat_loop src (suc m) dlen dst ≡ some (dst', k)
    → strlcat dst src siz ≡ some (dst', dlen + k)
unfolding strlcat
strlcat-text src dst dst' siz dlen k m found left e =
    let room : (siz - dlen == 0) ≡ false = ground arith in
    let copied = ap (λ i. cat_loop src i dlen dst) left ∙ e in
    rw (found, room, copied, strlcat) refl

-- `strlcat` onto a string of fewer than `siz` characters, in a buffer of at least `siz` bytes,
-- appends as many characters of the source as leave room for a NUL within `siz` bytes, then the
-- NUL, and leaves every byte after that as it was; it returns the sum of the two lengths.
pub strlcat_lem :
    (text junk old rest : Bytes) (n : ℕ)
    → IsText text
    → IsText old
    → n ≤ length rest
    → strlcat (old ++ 0 ∷ rest) (text ++ 0 ∷ junk) (length old + suc n)
      ≡ some (
        old ++ (take n text ++ 0 ∷ drop (length (take n text) + 1) (0 ∷ rest)),
        length old + length text,
      )
strlcat_lem text junk old rest n t o room =
    strlcat-text (text ++ 0 ∷ junk) (old ++ 0 ∷ rest) _ (length old + suc n) (length old) _ n
      (find_end-text (length old + suc n) old rest o (omega arith)) (omega arith)
      (cat_loop-text n text junk old (0 ∷ rest) t (omega arith))

-- `strlcat` onto a buffer without a NUL in its first `siz` bytes changes nothing, and returns `siz` and
-- the length of the source together.
strlcat_full :
    (text junk dst : Bytes) (siz : ℕ)
    → IsText text
    → IsText dst
    → siz ≤ length dst
    → strlcat dst (text ++ 0 ∷ junk) siz ≡ some (dst, siz + length text)
unfolding strlcat
strlcat_full text junk dst siz t d room =
    let none_left : (siz - siz == 0) ≡ true = ground arith in
    rw (find_end_none siz dst d room, none_left, strlen-text text junk t, strlcat) refl
