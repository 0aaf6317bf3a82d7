-- ===== src/AppLogger/Message/Line.antt =====
-- What the bytes are that go out as one line of the log.
use libnebula.Prelude.{
  ℕ, zero, suc, ◌+◌, ◌-◌, ◌%◌, lt→ltb, ◌^◌, ◌≤◌, ◌<◌, ◌≡◌, refl, sym, ap, ap₂, ◌∙◌, Bool, true,
  false, ◌||◌, not, some, [], ◌∷◌, ◌++◌, arith, ltb, leb, Bool-cases, inl, inr, ◌==◌, if◌then◌else◌,
  length, take, length-append, length-take, append_assoc,
}
use native.Mathlib.Decide.{dec_lt}
use libnebula.Text.{Bytes, put}
use libnebula.Text.Copy.{take_all}
use libnebula.Text.Print.{print_at, print_at-text}
use libnebula.AppLogger.Message.{newline, room_after, is_cut, is_ended, end_line, finish, compose}

-- Whether a text ends in a newline.
abbrev pub is_ended_text : Bytes → Bool
is_ended_text [] = false
is_ended_text (c ∷ []) = c == newline
is_ended_text (c ∷ d ∷ l) = is_ended_text (d ∷ l)

-- The line that is sent for a text of header and body.
abbrev pub line : ℕ → ℕ → Bytes → Bytes
line size limit text =
    if leb size (length text)
    then take (limit - 1) text ++ newline ∷ []
    else if (length text == limit - 1) || not (is_ended_text text)
    then text ++ newline ∷ []
    else text

put-take :
    (l : Bytes) (i c : ℕ)
    → i < length l
    → (l' : Bytes) × (put l i c ≡ some l') × (take (i + 1) l' ≡ take i l ++ c ∷ [])
put-take [] i c h = absurd (omega arith)
put-take (x ∷ l) zero c h = (c ∷ l, refl, refl)
put-take (x ∷ l) (suc i) c h =
    let (l', e, q) = put-take l i c (omega arith) in
    (
      x ∷ l',
      rw e refl,
      let same : suc i + 1 ≡ suc (i + 1) = omega arith in rw same (ap (λ k. x ∷ k) q),
    )

end_line_lem :
    (buffer : Bytes) (len : ℕ)
    → len < length buffer
    → end_line buffer len ≡ some (take len buffer ++ newline ∷ [])
end_line_lem buffer len h =
    let (l', e, q) = put-take buffer len newline h in rw (e, end_line) (ap some q)

pub take-append :
    (text rest : Bytes) (n : ℕ) → n ≤ length text → take n (text ++ rest) ≡ take n text
take-append text rest zero h = refl
take-append [] rest (suc n) h = absurd (omega arith)
take-append (c ∷ text) rest (suc n) h = ap (λ l. c ∷ l) (take-append text rest n (omega arith))

take-whole : (text rest : Bytes) → take (length text) (text ++ rest) ≡ text
take-whole text rest =
    take-append text rest (length text) (omega arith) ∙ take_all text _ (omega arith)

is_ended-text :
    (c : ℕ) (text rest : Bytes)
    → is_ended ((c ∷ text) ++ rest) (length (c ∷ text)) ≡ some (is_ended_text (c ∷ text))
is_ended-text c [] rest = refl
is_ended-text c (d ∷ text) rest = is_ended-text d text rest

module _ (buffer whole ended_line : Bytes) (limit len : ℕ) where
  finish_other :
      (ended : Bool)
      → end_line buffer len ≡ some ended_line
      → is_ended buffer len ≡ some ended
      → take len buffer ≡ whole
      → (len == limit - 1) ≡ false
      → finish buffer limit len
        ≡ some (if (len == limit - 1) || not ended then ended_line else whole)
  unfolding finish
  finish_other true e1 e2 e3 other = rw (other, finish) (rw e2 (ap some e3))
  finish_other false e1 e2 e3 other = rw (other, finish) (rw e2 e1)

  finish_pick :
      (ended : Bool)
      → end_line buffer len ≡ some ended_line
      → is_ended buffer len ≡ some ended
      → take len buffer ≡ whole
      → finish buffer limit len
        ≡ some (if (len == limit - 1) || not ended then ended_line else whole)
  unfolding finish
  finish_pick ended e1 e2 e3 = elim (Bool-cases (len == limit - 1)) [
    | inl at ↦ rw (at, finish) e1
    | inr other ↦ finish_other ended e1 e2 e3 other
  ]

-- A whole text in the buffer.
finish-whole :
    (text : Bytes) (x : ℕ) (rest : Bytes) (limit : ℕ)
    → 0 < length text
    → finish (text ++ x ∷ rest) limit (length text)
      ≡ some (
          if (length text == limit - 1) || not (is_ended_text text)
          then text ++ newline ∷ []
          else text)
finish-whole [] x rest limit h = absurd (omega arith)
finish-whole (c ∷ text) x rest limit h =
    let all = take-whole (c ∷ text) (x ∷ rest) in
    finish_pick ((c ∷ text) ++ x ∷ rest) (c ∷ text) ((c ∷ text) ++ newline ∷ []) limit
      (length (c ∷ text)) (is_ended_text (c ∷ text))
      (end_line_lem ((c ∷ text) ++ x ∷ rest) (length (c ∷ text))
          (omega (arith, length-append (c ∷ text) (x ∷ rest)))
        ∙ ap (λ l. some (l ++ newline ∷ [])) all)
      (is_ended-text c text (x ∷ rest)) all

-- A text that is cut at the limit.
finish-cut :
    (buffer : Bytes) (limit : ℕ)
    → limit - 1 < length buffer
    → finish buffer limit (limit - 1) ≡ some (take (limit - 1) buffer ++ newline ∷ [])
unfolding finish
finish-cut buffer limit h =
    let same : ((limit - 1) == (limit - 1)) ≡ true = ground arith in
    rw (same, finish) (end_line_lem buffer (limit - 1) h)

take-inside :
    (header body : Bytes) (n k : ℕ)
    → k ≤ length header + n
    → take k (header ++ take n body) ≡ take k (header ++ body)
take-inside [] [] n zero h = refl
take-inside [] body n zero h = refl
take-inside [] body zero (suc k) h = absurd (omega arith)
take-inside [] [] (suc n) (suc k) h = refl
take-inside [] (c ∷ body) (suc n) (suc k) h =
    ap (λ l. c ∷ l) (take-inside [] body n k (omega arith))
take-inside (c ∷ header) body n zero h = refl
take-inside (c ∷ header) body n (suc k) h =
    ap (λ l. c ∷ l) (take-inside header body n k (omega arith))

is_cut-small :
    (body : Bytes) (room : ℕ) → room < 2 ^ 31 → is_cut (some body) room ≡ leb room (length body)
is_cut-small body room h =
    let same : room % 2 ^ 32 ≡ room = omega arith in
    let low : ltb room (2 ^ 31) ≡ true = lt→ltb _ _ h in rw (same, is_cut) (rw low refl)

module _ (buffer : Bytes) (size limit : ℕ) (header body : Bytes) where
  compose_steps :
      (buffer1 buffer2 : Bytes) (room : ℕ) (cut : Bool)
      → print_at buffer 0 size header ≡ some buffer1
      → room_after size (length header) ≡ room
      → print_at buffer1 (length header) room body ≡ some buffer2
      → is_cut (some body) room ≡ cut
      → compose buffer size limit header (some body)
        ≡ finish buffer2 limit (if cut then limit - 1 else length header + length body)
  unfolding compose
  compose_steps buffer1 buffer2 room cut e1 e2 e3 e4 =
      rw (e1, compose)
        (rw (ap (λ r. print_at buffer1 (length header) r body) e2 ∙ e3)
          (rw (ap (is_cut (some body)) e2 ∙ e4) refl))

  -- The buffer after both texts are printed.
  compose_printed :
      0 < length header
      → length header < size
      → size ≤ length buffer
      → size < 2 ^ 31
      → (rest : Bytes) × (compose buffer size limit header (some body)
          ≡ finish (header ++ (take (size - length header - 1) body ++ 0 ∷ rest)) limit (
              if leb (size - length header) (length body)
              then limit - 1
              else length header + length body))
        × (length header + length (take (size - length header - 1) body) + 1 + length rest
            ≡ length buffer)
  compose_printed some_text h room small =
      let (r1, e1, n1) = print_at-text buffer header 0 size (omega arith) (omega arith) in
      let left = size - length header in
      let fits : length header ≤ size - 1 = omega arith in
      let whole = take_all header (size - 1) fits in
      let buffer1 = header ++ 0 ∷ r1 in
      let n1' : length header + 1 + length r1 ≡ length buffer =
        omega (arith, n1, ap length whole) in
      let (r2, e2, n2) =
        print_at-text buffer1 body (length header) left (omega arith)
          (omega (arith, n1', length-append header (0 ∷ r1))) in
      (
        r2,
        compose_steps buffer1 _ left (leb left (length body))
            (e1 ∙ ap (λ l. some (l ++ 0 ∷ r1)) whole)
            (let le : leb (length header) size ≡ true = ground arith in rw le refl)
            (e2
              ∙ ap (λ l. some (l ++ (take (left - 1) body ++ 0 ∷ r2))) (take-whole header (0 ∷ r1)))
            (is_cut-small body left (omega arith)),
        omega (arith, n1', n2, length-append header (0 ∷ r1)),
      )

  -- In a buffer of `size` bytes, a header and a body go out as they are if the header is shorter
  -- than the buffer, both fit before its last byte, and the body ends in a newline; a newline is
  -- added if not; and a text that does not fit is cut.
  pub compose_lem :
      0 < length header
      → length header < size
      → size ≤ length buffer
      → size < 2 ^ 31
      → 0 < limit
      → limit ≤ size
      → compose buffer size limit header (some body) ≡ some (line size limit (header ++ body))
  compose_lem some_text h room small p q =
      let left = size - length header in
      let (r, e, n) = compose_printed some_text h room small in
      let total = length-append header body in
      e ∙ elim (dec_lt (length body) left) [
        | yes fits ↦
            let whole : leb left (length body) ≡ false = ground arith in
            let whole' : leb size (length (header ++ body)) ≡ false = ground (arith, total) in
            rw (whole, whole', take_all body (left - 1) (omega arith))
              (ap₂ (λ l k. finish l limit k) (sym (append_assoc header body (0 ∷ r))) (sym total)
                ∙ finish-whole (header ++ body) 0 r limit (omega (arith, total)))
        | no long ↦
            let cut : leb left (length body) ≡ true = ground arith in
            let cut' : leb size (length (header ++ body)) ≡ true = ground (arith, total) in
            let room' = length-take (left - 1) body in
            let all = length-append header (take (left - 1) body) in
            rw (cut, cut')
              (finish-cut (header ++ (take (left - 1) body ++ 0 ∷ r)) limit (
                  omega (
                    arith,
                    room',
                    length-append header (take (left - 1) body ++ 0 ∷ r),
                    length-append (take (left - 1) body) (0 ∷ r),
                  ))
                ∙ ap (λ l. some (l ++ newline ∷ []))
                    (ap (take (limit - 1))
                        (sym (append_assoc header (take (left - 1) body) (0 ∷ r)))
                      ∙ take-append (header ++ take (left - 1) body) (0 ∷ r) (limit - 1)
                          (omega (arith, all, room'))
                      ∙ take-inside header body (left - 1) (limit - 1) (omega arith)))
      ]
