-- ===== src/Tokens/Lines/Calls.antt =====
-- Which calls the parser of lines makes.
use libnebula.Prelude.{
  ℕ, suc, ◌+◌, ◌%◌, ◌^◌, ◌<◌, ◌≡◌, refl, sym, ap, ◌∙◌, Bool, true, false, ◌&&◌, ◌||◌, Option, some,
  List, [], ◌∷◌, ◌++◌, arith, map, ◌==◌, if◌then◌else◌, length, get_or, take, length-append, All,
  ◌≢◌, inl,
}
use libnebula.Prelude.Int.{ℤ, pos, go_on, unless_zero, go_on_lem}
use libnebula.Text.{Bytes}
use libnebula.Tokens.{Tokens, new_tokens, split_string}
use libnebula.Tokens.Table.{Holds, split_string-kept}
use libnebula.Tokens.Lines.{
  TextFileParser, Reader, cut_end, trim, table_of, close_file, after_open, after_malloc, line_loop,
  parse_line_by_line,
}

-- A line that does not end in a line terminator.
abbrev IsBare : Bytes → Type 0
IsBare [] = Unit
IsBare (c ∷ []) = (c ≢ 13) × (c ≢ 10)
IsBare (c ∷ d ∷ l) = IsBare (d ∷ l)

-- The line as the file has it, with "\r\n" or "\n" behind it.
abbrev pub ended : Bytes × Bool → Bytes
ended (text, true) = text ++ 13 ∷ 10 ∷ []
ended (text, false) = text ++ 10 ∷ []

get_or-length : (xs : Bytes) (y : ℕ) (ys : Bytes) → get_or (xs ++ y ∷ ys) (length xs) 0 ≡ y
get_or-length [] y ys = refl
get_or-length (x ∷ xs) y ys = get_or-length xs y ys

get_or-next :
    (xs : Bytes) (y z : ℕ) (ys : Bytes) → get_or (xs ++ y ∷ z ∷ ys) (suc (length xs)) 0 ≡ z
get_or-next [] y z ys = refl
get_or-next (x ∷ xs) y z ys = get_or-next xs y z ys

take-length : (xs ys : Bytes) → take (length xs) (xs ++ ys) ≡ xs
take-length [] ys = refl
take-length (x ∷ xs) ys = ap (λ l. x ∷ l) (take-length xs ys)

get_or-last : (c : ℕ) (l ys : Bytes) → IsBare (c ∷ l) → get_or ((c ∷ l) ++ ys) (length l) 0 ≢ 13
get_or-last c [] ys b = b.0
get_or-last c (d ∷ l) ys b = get_or-last d l ys b

trim-cut :
    (line : Bytes) (n : ℕ)
    → length line ≡ suc n
    → get_or line n 0 ≡ 10
    → trim line ≡ some (cut_end line n)
unfolding trim
trim-cut line n size e =
    let ends : ((get_or line n 0 == 13) || (get_or line n 0 == 10)) ≡ true = ground arith in
    rw (size, trim) (rw ends refl)

cut_end-text : (text : Bytes) → IsBare text → cut_end (text ++ 10 ∷ []) (length text) ≡ text
cut_end-text [] b = refl
cut_end-text (c ∷ l) b =
    let kept : (get_or ((c ∷ l) ++ 10 ∷ []) (length l) 0 == 13) ≡ false =
      ground (arith, get_or-last c l (10 ∷ []) b) in
    rw kept (take-length (c ∷ l) (10 ∷ []))

trim-ended : (text : Bytes) (both : Bool) → IsBare text → trim (ended (text, both)) ≡ some text
trim-ended text false b =
    trim-cut (text ++ 10 ∷ []) (length text) (omega (arith, length-append text (10 ∷ [])))
      (get_or-length text 10 [])
    ∙ ap some (cut_end-text text b)
trim-ended text true b =
    let line = text ++ 13 ∷ 10 ∷ [] in
    let cut : cut_end line (suc (length text)) ≡ text =
      let cr : (get_or line (length text) 0 == 13) ≡ true =
        ground (arith, get_or-length text 13 (10 ∷ [])) in
      rw cr (take-length text (13 ∷ 10 ∷ [])) in
    trim-cut line (suc (length text)) (omega (arith, length-append text (13 ∷ 10 ∷ [])))
      (get_or-next text 13 10 [])
    ∙ ap some cut

-- The lines that have tokens, or all, with their numbers.
abbrev pub numbered : (Bytes → List ℕ) → Bool → List (Bytes × Bool) → ℕ → List (ℕ × List ℕ)
numbered tokens skip_empty [] n = []
numbered tokens skip_empty ((text, both) ∷ texts) n =
    let rest = numbered tokens skip_empty texts ((n + 1) % 2 ^ 64) in
    elim (length (tokens text) == 0 && skip_empty) [
      | true ↦ rest
      | false ↦ ((n + 1) % 2 ^ 64, tokens text) ∷ rest
    ]

-- Calls on such lines, to the first that does not return 0.
abbrev pub call_all : {W : Type 0} → (ℕ → List ℕ → W → ℤ × W) → List (ℕ × List ℕ) → W → ℤ × W
call_all read [] w = (pos 0, w)
call_all read ((n, vs) ∷ rest) w = unless_zero (read n vs w) (λ w'. call_all read rest w')

module _ {W : Type 0} (sys : Reader W) (tokens : Bytes → List ℕ) (read : ℕ → List ℕ → W → ℤ × W)
    (finds : (text : Bytes) → sys.find_tokens text ≡ map (λ p. (true, p)) (tokens text))
    (reads : (n : ℕ) (vs : List ℕ) (t : Tokens) (w : W)
      → Holds vs t
      → sys.call n t w ≡ read n vs w) where
  step :
      (b : Bool) (x y : Option (ℤ × W)) (c : ℕ × List ℕ) (cs : List (ℕ × List ℕ)) (w : W)
      → x ≡ some (call_all read cs w)
      → y ≡ some (call_all read (c ∷ cs) w)
      → elim b as (λ z. Option (ℤ × W)) [ true ↦ x | false ↦ y ]
        ≡ some (call_all read (elim b as (λ z. List (ℕ × List ℕ)) [ true ↦ cs | false ↦ c ∷ cs ]) w)
  step true x y c cs w p q = p
  step false x y c cs w p q = q

  line_loop-Calls :
      (skip_empty : Bool) (texts : List (Bytes × Bool)) (n hint : ℕ) (vs : List ℕ) (t : Tokens)
      (w : W)
      → t.hint_size ≡ hint
      → hint ≢ 0
      → Holds vs t
      → All (λ x. IsBare x.0 × (length (tokens x.0) + hint < 2 ^ 32)) texts
      → line_loop sys skip_empty (map ended texts) n t w
        ≡ some (call_all read (numbered tokens skip_empty texts n) w)
  unfolding line_loop
  line_loop-Calls skip_empty [] n hint vs t w e some_hint holds fits = refl
  line_loop-Calls skip_empty ((text, both) ∷ texts) n hint vs t w e some_hint holds
        ((bare, fit), fits) =
      let (t', split, held, same) =
        split_string-kept (tokens text) vs t (λ z. some_hint (sym e ∙ z)) holds (omega arith) in
      let next = (n + 1) % 2 ^ 64 in
      let table = ap (λ f. table_of (split_string f t)) (finds text) ∙ ap table_of split in
      let rest = λ (v : W).
        line_loop-Calls skip_empty texts next hint (tokens text) t' v (same ∙ e) some_hint held
          fits in
      rw (trim-ended text both bare, line_loop)
        (rw table (
          rw held.0 (
            step ((length (tokens text) == 0) && skip_empty) _ _ _ _ w (rest w) (
              ap (λ r. go_on r (λ v. line_loop sys skip_empty (map ended texts) next t' v))
                (reads next (tokens text) t' w held)
              ∙ go_on_lem (read next (tokens text) w) _
                  (λ v. call_all read (numbered tokens skip_empty texts next) v) rest))))

  -- `parseLineByLine` of a file that opens, whose lines all end in "\n" or "\r\n", where memory can
  -- be had and no line has so many tokens that the size of the table reaches 2 ^ 32, for a callback
  -- that goes by the tokens of the table alone: it calls the callback once for each line that has
  -- tokens, or for every line if empty ones are not to be skipped, in order and with its number in
  -- the file, up to the first call that does not return 0; it returns what that call returned, or
  -- 0, after an `fclose` that follows the calls, and the object keeps its buffer and has no file.
  pub parse_line_by_line-Calls :
      (skip_empty : Bool) (texts : List (Bytes × Bool)) (hint : ℕ) (p : TextFileParser)
      (w w2 w3 : W)
      → (let w1 = if p.is_open then sys.fclose w else w in
          (if p.has_buffer then (true, w1) else sys.malloc w1) ≡ (true, w2))
      → sys.fopen w2 ≡ (some (map ended texts), w3)
      → All (λ x. IsBare x.0 × (length (tokens x.0) + (new_tokens hint).hint_size < 2 ^ 32)) texts
      → (let (rc, w4) = call_all read (numbered tokens skip_empty texts 0) w3 in
          parse_line_by_line sys skip_empty hint p w
          ≡ some (rc, record { has_buffer = true; is_open = false }, sys.fclose w4))
  unfolding parse_line_by_line new_tokens
  parse_line_by_line-Calls skip_empty texts hint p w w2 w3 got opened fits =
      let start : Holds [] (new_tokens hint) = (refl, omega arith, inl (refl, refl)) in
      let some_hint : (new_tokens hint).hint_size ≢ 0 = λ e. (ground (arith, e)) in
      let read_all =
        line_loop-Calls skip_empty texts 0 (new_tokens hint).hint_size [] (new_tokens hint) w3 refl
          some_hint start fits in
      ap (after_malloc sys skip_empty hint) got
      ∙ ap (after_open sys skip_empty hint) opened
      ∙ ap (close_file sys) read_all
