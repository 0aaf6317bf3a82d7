-- ===== src/Tokens.antt =====
-- nebula::Tokens, include/nebula/text_file_parser.h: the table of the tokens of a line. A pointer is
-- a number; whether an allocation succeeds is an argument.
pub mod Table
pub mod Lines
mod Tests
use libnebula.Prelude.{
  ℕ, zero, suc, ◌+◌, ◌%◌, ◌^◌, Bool, true, false, Option, none, some, List, [], ◌∷◌, ◌++◌, ltb,
  ◌==◌, if◌then◌else◌, get_or, set, replicate,
}

-- The fields, with what lies at `tokens_`, NULL being `none`; the input string is not read again.
pub record Tokens : Type 0 where
  pub tokens : Option (List ℕ)
  pub num_of_tokens : ℕ
  pub max_tokens : ℕ
  pub hint_size : ℕ

abbrev default_hint_size : ℕ
default_hint_size = 32

-- The constructor.
unfoldable pub new_tokens : ℕ → Tokens
new_tokens hint = record {
  tokens = none;
  num_of_tokens = 0;
  max_tokens = 0;
  hint_size = if hint == 0 then default_hint_size else hint;
}

unfoldable pub clear_tokens : Tokens → Tokens
clear_tokens t = record t { num_of_tokens = 0 }

-- How `saveTokenAddr` ends: with `true`, with `false`, or at a write through NULL.
pub data Saved : Type 0 where
  saved refused : Tokens → Saved
  crashed : Saved

-- `*(tokens_ + num_of_tokens_++) = ptr`
abbrev pub store : ℕ → Tokens → Saved
store ptr t = elim t.tokens [
  | none ↦ crashed
  | some all ↦ saved (record t {
    tokens = some (set all t.num_of_tokens ptr);
    num_of_tokens = t.num_of_tokens + 1;
  })
]

-- The growth of a full table. The bytes that `malloc` and `realloc` add are 0 here.
abbrev pub grow : Bool → ℕ → Tokens → Saved
grow got ptr t =
    let size = if t.max_tokens == 0 then t.hint_size else (t.max_tokens + t.hint_size) % 2 ^ 32 in
    elim t.tokens [
      | none ↦ elim got [
        | true ↦ store ptr (record t { tokens = some (replicate size 0); max_tokens = size })
        | false ↦ refused (record t { max_tokens = size })
      ]
      | some all ↦ elim got [
        | true ↦
            store ptr
              (record t { tokens = some (all ++ replicate t.hint_size 0); max_tokens = size })
        | false ↦ refused t
      ]
    ]

unfoldable pub save_token_addr : Bool → ℕ → Tokens → Saved
save_token_addr got ptr t = if t.num_of_tokens == t.max_tokens then grow got ptr t else store ptr t

-- The loop of `splitString`, over the tokens that `strtok_r` finds, each with whether an allocation
-- for it would succeed.
unfoldable pub split_loop : List (Bool × ℕ) → Tokens → Saved
split_loop [] t = saved t
split_loop ((got, ptr) ∷ found) t = elim (save_token_addr got ptr t) [
  | saved t' ↦ split_loop found t'
  | refused t' ↦ refused t'
  | crashed ↦ crashed
]

unfoldable pub split_string : List (Bool × ℕ) → Tokens → Saved
split_string found t = split_loop found (clear_tokens t)

-- `token`; NULL is `none`.
unfoldable pub token : ℕ → Tokens → Option ℕ
token idx t = elim t.tokens [
  | none ↦ none
  | some all ↦ if ltb idx t.num_of_tokens then some (get_or all idx 0) else none
]
