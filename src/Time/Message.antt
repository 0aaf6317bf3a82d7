-- ===== src/Time/Message.antt =====
-- What the buffer of a watch holds after `message`.
use libnebula.Prelude.{
  ℕ, ◌-◌, ◌≤◌, ◌<◌, ◌≡◌, refl, sym, ◌∙◌, ap, true, false, Option, some, none, ◌∷◌, ◌++◌, arith, leb,
  ltb, if◌then◌else◌, length, length-append, take, max, Bool-cases, inl, inr, ◌^◌,
}
use libnebula.Prelude.Int.{ℤ, pos}
use mathlib.Core.Path.{subst}
use libnebula.Text.{Bytes}
use libnebula.Text.Copy.{take_all}
use libnebula.Text.Print.{print_at, print_at-text}
use libnebula.Time.{
  StopWatch, time_cost_us, Said, in_buffer, malloc_failed, Printing, is_zero, print_message,
  print_cost, with_buffer, message, default_buf_size,
}

-- The buffer and the size that the watch keeps of it agree.
abbrev HasBuffer : StopWatch → Type 0
HasBuffer sw =
    (b : Bytes) → sw.message_buf ≡ some b → (length b ≡ sw.buf_size) × (128 ≤ sw.buf_size)

-- The size of the buffer before the text is printed.
abbrev size_of : Option Bytes → ℕ → ℕ
size_of none size = default_buf_size
size_of (some b) size = size

abbrev size_before : StopWatch → ℕ
size_before sw = size_of sw.message_buf sw.buf_size

-- What is printed for `line`: without its last character if it does not fit at first.
abbrev pub shown : Bytes → ℕ → Bytes
shown line size = if ltb (length line) size then line else take (length line - 1) line

-- The allocator gives memory of the size that it is asked for.
pub record Allocates (env : Printing) : Type 0 where
  pub malloc_size : (n : ℕ) → (b : Bytes) × (env.malloc n ≡ some b) × (length b ≡ n)
  pub realloc_size :
      (old : Bytes) (n : ℕ) → (b : Bytes) × (env.realloc old n ≡ some b) × (length b ≡ n)

-- A watch whose buffer begins with `text` and a NUL.
abbrev pub Shows : Bytes → ℕ → Option (Said × StopWatch) → Type 0
Shows text size none = ⊥
Shows text size (some (said, sw)) =
    (said ≡ in_buffer)
    × ((b : Bytes) × (rest : Bytes) × (sw.message_buf ≡ some b)
        × (b ≡ text ++ 0 ∷ rest)
        × (length b ≡ sw.buf_size)
        × (sw.buf_size ≡ size))

-- The two ways of `print_message`.
module _ (env : Printing) (line buf b1 : Bytes) (sw : StopWatch) where
  print_message-fits :
      print_at buf 0 sw.buf_size line ≡ some b1
      → leb sw.buf_size (length line) ≡ false
      → print_message env line buf sw ≡ some (in_buffer, record sw { message_buf = some b1 })
  unfolding print_message
  print_message-fits e fits = rw (e, print_message) (rw (fits, print_message) refl)

  print_message-grows :
      (temp b2 : Bytes)
      → print_at buf 0 sw.buf_size line ≡ some b1
      → leb sw.buf_size (length line) ≡ true
      → env.realloc b1 (length line) ≡ some temp
      → print_at temp 0 (length line) line ≡ some b2
      → print_message env line buf sw
        ≡ some (in_buffer, record sw { message_buf = some b2; buf_size = length line })
  unfolding print_message
  print_message-grows temp b2 e cut e2 e3 =
      rw (e, print_message)
        (rw (cut, print_message) (rw (e2, print_message) (rw (e3, print_message) refl)))

print_message-Shows :
    (env : Printing) (line buf : Bytes) (sw : StopWatch)
    → Allocates env
    → 128 ≤ sw.buf_size
    → length buf ≡ sw.buf_size
    → Shows (shown line sw.buf_size) (max sw.buf_size (length line)) (print_message env line buf sw)
print_message-Shows env line buf sw alloc room same =
    let size = sw.buf_size in
    let (rest, e, n) = print_at-text buf line 0 size (omega arith) (omega arith) in
    elim (Bool-cases (leb size (length line))) [
      | inl cut ↦
          let b1 = take (size - 1) line ++ 0 ∷ rest in
          let (temp, e2, n2) = alloc.realloc_size b1 (length line) in
          let (rest', e3, n3) =
            print_at-text temp line 0 (length line) (ground arith) (ground arith) in
          let b2 = take (length line - 1) line ++ 0 ∷ rest' in
          let short : ltb (length line) size ≡ false = ground arith in
          rw (print_message-grows env line buf b1 sw temp b2 e cut e2 e3, short)
            (
              refl,
              (
                b2,
                rest',
                refl,
                refl,
                omega (arith, n3, n2, length-append (take (length line - 1) line) (0 ∷ rest')),
                ground arith,
              ),
            )
      | inr fits ↦
          let long : ltb (length line) size ≡ true = ground arith in
          let whole : take (size - 1) line ≡ line = take_all line (size - 1) (ground arith) in
          let b1 = take (size - 1) line ++ 0 ∷ rest in
          rw (print_message-fits env line buf b1 sw e fits, long)
            (
              refl,
              (
                b1,
                rest,
                refl,
                ap (λ l. l ++ 0 ∷ rest) whole,
                omega (arith, n, same, length-append (take (size - 1) line) (0 ∷ rest)),
                ground arith,
              ),
            )
    ]

-- What `message` does with a buffer.
abbrev print_timed : Printing → Bytes → ℤ → Bytes → StopWatch → Option (Said × StopWatch)
print_timed env name iterations buf sw = print_cost env name iterations (time_cost_us sw) buf sw

module _ (env : Printing) (name : Bytes) (iterations cost : ℤ) (sw : StopWatch) where
  message-with_buffer :
      is_zero iterations ≡ false
      → message env (some name) iterations sw
        ≡ with_buffer env sw.message_buf sw (print_timed env name iterations)
  unfolding message
  message-with_buffer nonzero = rw nonzero refl

  print_timed-Shows :
      (sw' : StopWatch) (buf : Bytes)
      → Allocates env
      → 128 ≤ sw'.buf_size
      → length buf ≡ sw'.buf_size
      → time_cost_us sw' ≡ some cost
      → Shows
          (shown (env.text name cost iterations) sw'.buf_size)
          (max sw'.buf_size (length (env.text name cost iterations)))
          (print_timed env name iterations buf sw')
  unfolding print_cost
  print_timed-Shows sw' buf alloc room same timed =
      rw (ap (λ c. print_cost env name iterations c buf sw') timed)
        (print_message-Shows env (env.text name cost iterations) buf sw' alloc room same)

  with_buffer-Shows :
      (o : Option Bytes)
      → ((b : Bytes) → o ≡ some b → (length b ≡ sw.buf_size) × (128 ≤ sw.buf_size))
      → Allocates env
      → time_cost_us sw ≡ some cost
      → Shows
          (shown (env.text name cost iterations) (size_of o sw.buf_size))
          (max (size_of o sw.buf_size) (length (env.text name cost iterations)))
          (with_buffer env o sw (print_timed env name iterations))
  unfolding with_buffer time_cost_us
  with_buffer-Shows (some b) has alloc timed =
      print_timed-Shows sw b alloc (has b refl).1 (has b refl).0 timed
  with_buffer-Shows none has alloc timed =
      let (b, new, n) = alloc.malloc_size default_buf_size in
      let sw' : StopWatch = record sw { message_buf = some b; buf_size = default_buf_size } in
      rw (new, with_buffer) (print_timed-Shows sw' b alloc (omega arith) n timed)

-- message of a name, for a number of iterations that is not 0, on a watch whose time is defined and
-- whose buffer is as long as its size says, for a text of fewer than 2^31 bytes, where memory can
-- be had: it returns the buffer, and the buffer begins with the text and a NUL if the text is
-- shorter than the size of the buffer, which is 128 bytes at first; else the buffer is made as long
-- as the text, which leaves no room for the NUL, and the text stands there without its last
-- character. The size that is kept is that of the memory, and never falls.
pub message_lem :
    (env : Printing) (name : Bytes) (iterations cost : ℤ) (sw : StopWatch)
    → Allocates env
    → HasBuffer sw
    → is_zero iterations ≡ false
    → time_cost_us sw ≡ some cost
    → length (env.text name cost iterations) < 2 ^ 31
    → Shows
        (shown (env.text name cost iterations) (size_before sw))
        (max (size_before sw) (length (env.text name cost iterations)))
        (message env (some name) iterations sw)
message_lem env name iterations cost sw alloc has nonzero timed small =
    subst
      (Shows (shown (env.text name cost iterations) (size_before sw))
        (max (size_before sw) (length (env.text name cost iterations))))
      (sym (message-with_buffer env name iterations cost sw nonzero))
      (with_buffer-Shows env name iterations cost sw sw.message_buf has alloc timed)

-- Where memory cannot be had for the first buffer, message says so and the watch is as before.
message-refused :
    (env : Printing) (name : Bytes) (iterations : ℤ) (sw : StopWatch)
    → is_zero iterations ≡ false
    → sw.message_buf ≡ none
    → env.malloc default_buf_size ≡ none
    → message env (some name) iterations sw ≡ some (malloc_failed, sw)
unfolding with_buffer
message-refused env name iterations sw nonzero has refused =
    message-with_buffer env name iterations (pos 0) sw nonzero
    ∙ ap (λ o. with_buffer env o sw (print_timed env name iterations)) has
    ∙ rw (refused, with_buffer) refl
