-- ===== src/Text/Print.antt =====
-- Text that `snprintf` puts into a buffer, for the modules that print: it cuts what does not fit, and
-- ends with a NUL.
use libnebula.Prelude.{
  ℕ, ◌+◌, ◌-◌, ◌≤◌, ◌<◌, ◌≡◌, ap, true, false, Option, none, some, [], ◌∷◌, ◌++◌, leb, ◌==◌,
  if◌then◌else◌, length, take, drop, arith, length-append, length-take, length-drop, append_assoc,
}
use libnebula.Text.{Bytes}

-- Bytes written into memory from the index `d` on.
abbrev pub write_at : Bytes → ℕ → Bytes → Option Bytes
write_at dst d text =
    if leb (d + length text) (length dst)
    then some (take d dst ++ (text ++ drop (d + length text) dst))
    else none

-- `snprintf` at the index `d` with `size` bytes of room, where the arguments print as `text`.
abbrev pub print_at : Bytes → ℕ → ℕ → Bytes → Option Bytes
print_at dst d size text =
    if size == 0 then some dst else write_at dst d (take (size - 1) text ++ 0 ∷ [])

pub print_at-text :
    (buffer text : Bytes) (d size : ℕ)
    → 0 < size
    → d + size ≤ length buffer
    → (rest : Bytes) × (print_at buffer d size text
        ≡ some (take d buffer ++ (take (size - 1) text ++ 0 ∷ rest)))
      × (d + length (take (size - 1) text) + 1 + length rest ≡ length buffer)
print_at-text buffer text d size h room =
    let t = take (size - 1) text ++ 0 ∷ [] in
    let cut = length-take (size - 1) text in
    let used : length t ≡ length (take (size - 1) text) + 1 =
      length-append (take (size - 1) text) (0 ∷ []) in
    let some_room : (size == 0) ≡ false = ground arith in
    let inside : leb (d + length t) (length buffer) ≡ true = ground (arith, used, cut) in
    (
      drop (d + length t) buffer,
      rw some_room (
          rw inside
            (ap (λ l. some (take d buffer ++ l)) (append_assoc (take (size - 1) text) (0 ∷ []) _))),
      omega (arith, used, cut, length-drop (d + length t) buffer),
    )
