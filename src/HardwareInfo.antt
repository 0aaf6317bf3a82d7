-- ===== src/HardwareInfo.antt =====
-- nebula::HardwareInfo, include/nebula/hardwareinfo.h and src/hardwareinfo.cc: what the lines of
-- /proc/cpuinfo and /proc/meminfo say. A line is memory with a NUL; `none` is an access out of bounds.
pub mod Trim
pub mod Once
pub mod Memory
mod Tests
use libnebula.Prelude.{
  ℕ, zero, suc, ◌+◌, ◌*◌, ◌%◌, ◌^◌, Bool, true, false, ◌&&◌, ◌||◌, Option, none, some, List, [],
  ◌∷◌, leb, ◌==◌, if◌then◌else◌, get_elem?, set, drop,
}
use libnebula.Text.{Bytes, strlen, strlcpy}
use libnebula.Text.Number.{str_to_u64}

-- The cases of the switch: '\t', '\n', '\v', '\f', '\r' and ' '.
abbrev pub is_blank : ℕ → Bool
is_blank c = c == 32 || (leb 9 c && leb c 13)

-- The loop of `rightTrim`; `n` is the index plus 1. The index is unsigned, so the test that it is
-- at least 0 always holds, and after 0 the byte before the line is read.
unfoldable pub trim_loop : Bytes → ℕ → Option Bytes
trim_loop line zero = none
trim_loop line (suc i) = elim (get_elem? line i) [
  | none ↦ none
  | some c ↦ if is_blank c then trim_loop (set line i 0) i else some line
]

unfoldable pub right_trim : Bytes → Option Bytes
unfolding trim_loop
right_trim line = elim (strlen line) [ none ↦ none | some len ↦ trim_loop line len ]

-- The static fields.
pub record Info : Type 0 where
  pub cpu_model_name : Bytes
  pub num_of_processors : ℕ
  pub cpu_cache_size : ℕ
  pub memory_total : ℕ
  pub swap_total : ℕ

-- `strstr(line, text) == line`
abbrev pub begins : Bytes → Bytes → Bool
begins line [] = true
begins [] (c ∷ text) = false
begins (d ∷ line) (c ∷ text) = d == c && begins line text

-- `strchr(line, a) || strchr(line, b)`
abbrev pub has_any : Bytes → ℕ → ℕ → Bool
has_any [] a b = false
has_any (c ∷ line) a b = if c == 0 then false else c == a || c == b || has_any line a b

-- `strstr(line, ": ")`
abbrev find_value : Bytes → Option Bytes
find_value [] = none
find_value (c ∷ line) =
    let rest = find_value line in
    if c == 0 then none else if begins (c ∷ line) (58 ∷ 32 ∷ []) then some (c ∷ line) else rest

-- "model name", "cache size", "MemTotal:" and "SwapTotal:"
abbrev pub model_name : Bytes
model_name = 109 ∷ 111 ∷ 100 ∷ 101 ∷ 108 ∷ 32 ∷ 110 ∷ 97 ∷ 109 ∷ 101 ∷ []

abbrev pub cache_size : Bytes
cache_size = 99 ∷ 97 ∷ 99 ∷ 104 ∷ 101 ∷ 32 ∷ 115 ∷ 105 ∷ 122 ∷ 101 ∷ []

abbrev pub mem_total : Bytes
mem_total = 77 ∷ 101 ∷ 109 ∷ 84 ∷ 111 ∷ 116 ∷ 97 ∷ 108 ∷ 58 ∷ []

abbrev pub swap_total_text : Bytes
swap_total_text = 83 ∷ 119 ∷ 97 ∷ 112 ∷ 84 ∷ 111 ∷ 116 ∷ 97 ∷ 108 ∷ 58 ∷ []

-- The new size of the cache, from the line at ": ".
abbrev cache_value : Bytes → ℕ
cache_value pos =
    let n = str_to_u64 (drop 2 pos) false in
    if has_any pos 107 75
    then n * 2 ^ 10 % 2 ^ 64
    else if has_any pos 109 77
    then n * 2 ^ 20 % 2 ^ 64
    else n

-- A line of /proc/cpuinfo.
unfoldable pub parse_cpu_line : Bytes → Info → Option Info
parse_cpu_line line info =
    if begins line model_name
    then (let counted : Info = record info {
      num_of_processors = (info.num_of_processors + 1) % 2 ^ 64;
    } in
        elim (right_trim line) [
          | none ↦ none
          | some line' ↦ elim (find_value line') [
            | none ↦ some counted
            | some pos ↦ elim (strlcpy info.cpu_model_name (drop 2 pos) 1024) [
              | none ↦ none
              | some (name, n) ↦ some (record counted { cpu_model_name = name })
            ]
          ]
        ])
    else if begins line cache_size
    then elim (right_trim line) [
      | none ↦ none
      | some line' ↦ elim (find_value line') [
        | none ↦ some info
        | some pos ↦ some (record info { cpu_cache_size = cache_value pos })
      ]
    ]
    else some info

-- The number behind the first `n` bytes of a line of /proc/meminfo, with its unit; "k" is looked
-- for twice.
abbrev memory_value : ℕ → Bytes → ℕ
memory_value n line =
    let value = str_to_u64 (drop n line) false in
    if has_any line 107 107
    then value * 2 ^ 10 % 2 ^ 64
    else if has_any line 109 77
    then value * 2 ^ 20 % 2 ^ 64
    else value

unfoldable pub parse_mem_line : Bytes → Info → Info
parse_mem_line line info =
    let info1 : Info =
      if begins line mem_total then record info { memory_total = memory_value 9 line } else info in
    if begins line swap_total_text
    then record info1 { swap_total = memory_value 10 line }
    else info1

-- The loops over the lines of the two files.
unfoldable pub parse_cpuinfo : List Bytes → Info → Option Info
unfolding parse_cpu_line
parse_cpuinfo [] info = some info
parse_cpuinfo (line ∷ lines) info = elim (parse_cpu_line line info) [
  | none ↦ none
  | some info' ↦ parse_cpuinfo lines info'
]

unfoldable pub parse_mem_info : List Bytes → Info → Info
unfolding parse_mem_line
parse_mem_info [] info = info
parse_mem_info (line ∷ lines) info = parse_mem_info lines (parse_mem_line line info)
