-- ===== src/Tokens/Tests.antt =====
-- Runs of the token table.
use libnebula.Prelude.{
  ℕ, ◌+◌, Bool, List, ◌==◌, if◌then◌else◌, ◌≡◌, refl, inr, true, false, none, some, [], ◌∷◌, arith,
  map,
}
use libnebula.Prelude.Int.{pos}
use libnebula.Text.{Bytes}
use libnebula.Tokens.{
  Tokens, new_tokens, clear_tokens, saved, save_token_addr, split_loop, split_string, token,
}
use libnebula.Tokens.Lines.{TextFileParser, Reader, trim, clear, line_loop, parse_line_by_line}
use libnebula.Tokens.Lines.Calls.{ended, parse_line_by_line-Calls}
use libnebula.Tokens.Table.{Holds, split_string-Holds}

-- A table of two entries, in use for one token.
abbrev one_used : Tokens
one_used = record { tokens = some (40 ∷ 0 ∷ []); num_of_tokens = 1; max_tokens = 2; hint_size = 2 }

split_string-Holds_example :
    (t' : Tokens) × (split_string (map (λ p. (true, p)) (50 ∷ 60 ∷ 70 ∷ [])) one_used ≡ saved t')
    × Holds (50 ∷ 60 ∷ 70 ∷ []) t'
split_string-Holds_example =
    split_string-Holds (50 ∷ 60 ∷ 70 ∷ []) (40 ∷ []) one_used (omega arith)
      (refl, omega arith, inr (40 ∷ 0 ∷ [], refl, omega arith, refl)) (omega arith)

token_test : (token 0 one_used ≡ some 40) × (token 1 one_used ≡ none)
unfolding token
token_test = (refl, refl)

-- A file of three lines, of which the second is empty; a token is the byte of a letter.
abbrev letters : Bytes → List ℕ
letters [] = []
letters (c ∷ text) = if c == 32 then letters text else c ∷ letters text

abbrev texts : List (Bytes × Bool)
texts = (97 ∷ 32 ∷ 98 ∷ [], true) ∷ ([], false) ∷ (99 ∷ [], false) ∷ []

-- The world is the sum of the numbers of the lines that the callback got, and of 100 for `fclose`.
abbrev reader : Reader ℕ
reader = record {
  malloc = λ w. (true, w);
  fopen = λ w. (some (map ended texts), w);
  fclose = λ w. w + 100;
  free = λ w. w;
  find_tokens = λ text. map (λ p. (true, p)) (letters text);
  call = λ n t w. (pos 0, w + n);
}

abbrev new_parser : TextFileParser
new_parser = record { has_buffer = false; is_open = false }

parse_line_by_line-Calls_example :
    parse_line_by_line reader true 0 new_parser 0
    ≡ some (pos 0, record { has_buffer = true; is_open = false }, 104)
unfolding new_tokens
parse_line_by_line-Calls_example =
    parse_line_by_line-Calls reader letters (λ n vs w. (pos 0, w + n)) (λ text. refl)
      (λ n vs t w h. refl) true texts 0 new_parser 0 0 0 refl refl
      (
        ((omega arith, omega arith), omega arith),
        ((tt, omega arith), (((omega arith, omega arith), omega arith), tt)),
      )

parse_line_by_line_test :
    parse_line_by_line reader true 0 new_parser 0
    ≡ some (pos 0, record { has_buffer = true; is_open = false }, 104)
unfolding parse_line_by_line line_loop trim split_string split_loop save_token_addr clear_tokens
    new_tokens
parse_line_by_line_test = refl

clear_test : clear reader (record { has_buffer = true; is_open = true }) 0 ≡ (new_parser, 100)
unfolding clear
clear_test = refl
