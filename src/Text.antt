-- ===== src/Text.antt =====
-- nebula::String, include/nebula/string.h: src/strlcpy.cc, src/strlcat.cc and src/string.cc. Memory
-- is a list of bytes, and a pointer is an index into it. A read or a write outside the list makes
-- the call `none`.
pub mod Copy
pub mod Append
pub mod Chars
pub mod Number
pub mod Print
pub mod Slash
mod Tests
use libnebula.Prelude.{
  ℕ, zero, suc, ◌+◌, ◌-◌, ◌*◌, ◌%◌, ◌^◌, Bool, true, false, not, ◌&&◌, Option, none, some, List, [],
  ◌∷◌, ltb, leb, ◌==◌, if◌then◌else◌, length, get_elem?, set, take, drop,
}

abbrev pub Bytes : Type 0
Bytes = List ℕ

-- `*d = c`
abbrev pub put : Bytes → ℕ → ℕ → Option Bytes
put [] d c = none
put (x ∷ l) zero c = some (c ∷ l)
put (x ∷ l) (suc d) c = elim (put l d c) [ none ↦ none | some l' ↦ some (x ∷ l') ]

-- `while (*s++);`, from the bytes at `s`; the result is the bytes at `s` afterwards.
abbrev pub skip : Bytes → Option Bytes
skip [] = none
skip (c ∷ s) = if c == 0 then some s else skip s

-- `strlen`
abbrev pub strlen : Bytes → Option ℕ
strlen [] = none
strlen (c ∷ s) = if c == 0 then some 0 else elim (strlen s) [ none ↦ none | some n ↦ some (n + 1) ]

-- The first loop of `strlcpy`, from its test on: `dst`, `d`, the bytes at `s`, and `n` at its end.
unfoldable pub copy_loop : ℕ → Bytes → ℕ → Bytes → Option (Bytes × ℕ × Bytes × ℕ)
copy_loop zero s d dst = some (dst, d, s, zero)
copy_loop (suc zero) s d dst = some (dst, d, s, zero)
copy_loop (suc (suc n)) [] d dst = none
copy_loop (suc (suc n)) (c ∷ s) d dst = elim (put dst d c) [
  | none ↦ none
  | some dst' ↦ elim (c == 0) [
    | true ↦ some (dst', d + 1, s, suc n)
    | false ↦ copy_loop (suc n) s (d + 1) dst'
  ]
]

-- The part of `strlcpy` after that loop, and `s - src - 1`.
abbrev pub copy_rest : ℕ → Bytes → Bytes × ℕ × Bytes × ℕ → Option (Bytes × ℕ)
copy_rest siz src (dst, d, s, suc n) = some (dst, length src - length s - 1)
copy_rest siz src (dst, d, s, zero) = elim (if siz == 0 then some dst else put dst d 0) [
  | none ↦ none
  | some dst' ↦ elim (skip s) [ none ↦ none | some s' ↦ some (dst', length src - length s' - 1) ]
]

-- The new contents of `dst`, and what `strlcpy` returns.
unfoldable pub strlcpy : Bytes → Bytes → ℕ → Option (Bytes × ℕ)
unfolding copy_loop
strlcpy dst src siz = elim (copy_loop siz src 0 dst) [ none ↦ none | some r ↦ copy_rest siz src r ]

-- The first loop of `strlcat`: the end of `dst`, at most `n` bytes on.
unfoldable pub find_end : ℕ → Bytes → Option ℕ
find_end zero dst = some 0
find_end (suc n) [] = none
find_end (suc n) (c ∷ dst) =
    if c == 0 then some 0 else elim (find_end n dst) [ none ↦ none | some d ↦ some (d + 1) ]

-- Its second loop, with the number of bytes of `src` that were read, and then `*d = '\0'`.
unfoldable pub cat_loop : Bytes → ℕ → ℕ → Bytes → Option (Bytes × ℕ)
cat_loop [] n d dst = none
cat_loop (c ∷ s) n d dst = elim (c == 0) [
  | true ↦ elim (put dst d 0) [ none ↦ none | some dst' ↦ some (dst', 0) ]
  | false ↦ elim (n == 1) [
    | true ↦ elim (cat_loop s n d dst) [ none ↦ none | some (dst', k) ↦ some (dst', k + 1) ]
    | false ↦ elim (put dst d c) [
      | none ↦ none
      | some dst1 ↦ elim (cat_loop s (n - 1) (d + 1) dst1) [
        | none ↦ none
        | some (dst', k) ↦ some (dst', k + 1)
      ]
    ]
  ]
]

unfoldable pub strlcat : Bytes → Bytes → ℕ → Option (Bytes × ℕ)
unfolding find_end cat_loop
strlcat dst src siz = elim (find_end siz dst) [
  | none ↦ none
  | some dlen ↦ elim (siz - dlen == 0) [
    | true ↦ elim (strlen src) [ none ↦ none | some n ↦ some (dst, dlen + n) ]
    | false ↦ elim (cat_loop src (siz - dlen) dlen dst) [
      | none ↦ none
      | some (dst', k) ↦ some (dst', dlen + k)
    ]
  ]
]
