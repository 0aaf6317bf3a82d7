-- ===== src/Tokens/Lines.antt =====
-- TextFileParser, include/nebula/text_file_parser.h: the lines of a file, one by one, over
-- `getline` and `strtok_r` as parameters.
pub mod Calls
use libnebula.Prelude.{
  ℕ, zero, suc, ◌+◌, ◌%◌, ◌^◌, Bool, true, false, ◌&&◌, ◌||◌, Option, none, some, List, [], ◌∷◌,
  ◌==◌, if◌then◌else◌, length, get_or, take,
}
use libnebula.Prelude.Int.{ℤ, pos, negsuc, go_on}
use libnebula.Text.{Bytes}
use libnebula.Tokens.{Tokens, new_tokens, Saved, saved, refused, crashed, split_string}

-- The fields: whether there are a buffer and an open file.
pub record TextFileParser : Type 0 where
  pub has_buffer : Bool
  pub is_open : Bool

-- `fopen` gives the lines that `getline` will, each with its terminator.
pub record Reader (W : Type 0) : Type 0 where
  pub malloc : W → Bool × W
  pub fopen : W → Option (List Bytes) × W
  pub fclose : W → W
  pub free : W → W
  pub find_tokens : Bytes → List (Bool × ℕ)
  pub call : ℕ → Tokens → W → ℤ × W

-- The line once its last byte, at the index `n`, is gone: a carriage return before that goes too.
abbrev pub cut_end : Bytes → ℕ → Bytes
cut_end line zero = []
cut_end line (suc m) = if get_or line m 0 == 13 then take m line else take (suc m) line

-- A line without its end, "\r", "\n" or "\r\n"; `none` for one of no bytes, where the byte before
-- it is read.
unfoldable pub trim : Bytes → Option Bytes
trim line = elim (length line) [
  | zero ↦ none
  | suc n ↦
      let c = get_or line n 0 in if c == 13 || c == 10 then some (cut_end line n) else some line
]

-- What `splitString` leaves in the table; its result is not looked at.
abbrev pub table_of : Saved → Option Tokens
table_of (saved t) = some t
table_of (refused t) = some t
table_of crashed = none

module _ {W : Type 0} (sys : Reader W) where
  unfoldable pub clear : TextFileParser → W → TextFileParser × W
  clear p w =
      let w1 = if p.has_buffer then sys.free w else w in
      let w2 = if p.is_open then sys.fclose w1 else w1 in
      (record { has_buffer = false; is_open = false }, w2)

  -- The loop; `line_num` is the number of the line before. `none` is an access out of bounds.
  unfoldable pub line_loop : Bool → List Bytes → ℕ → Tokens → W → Option (ℤ × W)
  line_loop skip_empty [] line_num t w = some (pos 0, w)
  line_loop skip_empty (line ∷ lines) line_num t w = elim (trim line) [
    | none ↦ none
    | some text ↦ elim (table_of (split_string (sys.find_tokens text) t)) [
      | none ↦ none
      | some t' ↦
          let num = (line_num + 1) % 2 ^ 64 in
          elim (t'.num_of_tokens == 0 && skip_empty) [
            | true ↦ line_loop skip_empty lines num t' w
            | false ↦ go_on (sys.call num t' w) (λ w'. line_loop skip_empty lines num t' w')
          ]
    ]
  ]

  -- `fclose` and `return rc`.
  abbrev pub close_file : Option (ℤ × W) → Option (ℤ × TextFileParser × W)
  close_file none = none
  close_file (some (rc, w)) = some (rc, record { has_buffer = true; is_open = false }, sys.fclose w)

  abbrev pub after_open : Bool → ℕ → Option (List Bytes) × W → Option (ℤ × TextFileParser × W)
  after_open skip_empty hint_size (none, w) =
      some (negsuc 0, record { has_buffer = true; is_open = false }, w)
  after_open skip_empty hint_size (some lines, w) =
      close_file (line_loop skip_empty lines 0 (new_tokens hint_size) w)

  abbrev pub after_malloc : Bool → ℕ → Bool × W → Option (ℤ × TextFileParser × W)
  after_malloc skip_empty hint_size (false, w) =
      some (negsuc 0, record { has_buffer = false; is_open = false }, w)
  after_malloc skip_empty hint_size (true, w) = after_open skip_empty hint_size (sys.fopen w)

  -- What the call returns, and the object that it leaves; nothing if the loop leaves the memory.
  unfoldable pub parse_line_by_line :
      Bool → ℕ → TextFileParser → W → Option (ℤ × TextFileParser × W)
  unfolding trim line_loop
  parse_line_by_line skip_empty hint_size p w =
      let w1 = if p.is_open then sys.fclose w else w in
      after_malloc skip_empty hint_size (if p.has_buffer then (true, w1) else sys.malloc w1)
