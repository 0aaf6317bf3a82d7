-- ===== src/HardwareInfo/Memory.antt =====
-- What is parsed of /proc/meminfo.
use libnebula.Prelude.{
  ℕ, zero, suc, ◌+◌, ◌*◌, ◌%◌, ◌^◌, ◌<◌, ◌≡◌, ◌≢◌, refl, sym, ap, ◌∙◌, Bool, true, false, List, [],
  ◌∷◌, ◌++◌, arith, ltb, ◌==◌, All, replicate, append_assoc, append-nil,
}
use libnebula.Text.{Bytes}
use libnebula.Text.Number.{is_digit, read_sign, read_number, ulong_max, str_to_u64}
use libnebula.Text.Number.Value.{decimal, digits, IsDecimal, read_digits-digits, read_sign-digit}
use libnebula.HardwareInfo.{
  Info, begins, has_any, mem_total, swap_total_text, parse_mem_line, parse_mem_info,
}

abbrev spaces : ℕ → Bytes
spaces k = replicate k 32

-- A line of the file: a name, blanks, the digits of a number, and " kB\n".
abbrev pub kb_line : Bytes → ℕ → List ℕ → Bytes
kb_line name k ds = name ++ (spaces k ++ (digits ds ++ 32 ∷ 107 ∷ 66 ∷ 10 ∷ 0 ∷ []))

read_sign-spaces : (k : ℕ) (s : Bytes) → read_sign (spaces k ++ s) ≡ read_sign s
unfolding read_sign
read_sign-spaces zero s = refl
read_sign-spaces (suc k) s = read_sign-spaces k s

read_number-spaces :
    (k d : ℕ) (ds : List ℕ) (c : ℕ) (s : Bytes)
    → IsDecimal (d ∷ ds)
    → is_digit c ≡ false
    → read_number (spaces k ++ (digits (d ∷ ds) ++ c ∷ s)) ≡ (false, decimal 0 (d ∷ ds), c ∷ s)
unfolding read_number
read_number-spaces k d ds c s (small, h) e =
    let yes_digit : is_digit (b'0' + d) ≡ true = ground arith in
    let start : read_sign (spaces k ++ (digits (d ∷ ds) ++ c ∷ s))
        ≡ (false, digits (d ∷ ds) ++ c ∷ s) =
      read_sign-spaces k (digits (d ∷ ds) ++ c ∷ s)
      ∙ read_sign-digit d (digits ds ++ c ∷ s) small in
    rw (start, read_number)
      (rw yes_digit (
        rw (read_digits-digits (d ∷ ds) 0 c s (small, h) e)
          (ap (λ (r : Bool × Bytes). (r.0, decimal 0 (d ∷ ds), c ∷ s)) start)))

str_to_u64-spaces :
    (k d : ℕ) (ds : List ℕ) (c : ℕ) (s : Bytes)
    → IsDecimal (d ∷ ds)
    → is_digit c ≡ false
    → decimal 0 (d ∷ ds) < ulong_max
    → str_to_u64 (spaces k ++ (digits (d ∷ ds) ++ c ∷ s)) false ≡ decimal 0 (d ∷ ds)
unfolding str_to_u64
str_to_u64-spaces k d ds c s h e small =
    let n = decimal 0 (d ∷ ds) in
    let fits : ltb ulong_max n ≡ false = ground arith in
    let below : (n == ulong_max) ≡ false = ground arith in
    rw (read_number-spaces k d ds c s h e, str_to_u64) (rw (fits, below) refl)

-- No byte is NUL.
abbrev Whole : Bytes → Type 0
Whole = All (λ c. c ≢ 0)

has_any-found :
    (text : Bytes) (a : ℕ) (s : Bytes) → Whole text → a ≢ 0 → has_any (text ++ a ∷ s) a a ≡ true
has_any-found [] a s h nonzero = ground arith
has_any-found (c ∷ text) a s (h, hs) nonzero = ground (arith, has_any-found text a s hs nonzero)

Whole-append : (s t : Bytes) → Whole s → Whole t → Whole (s ++ t)
Whole-append [] t hs ht = ht
Whole-append (c ∷ s) t (h, hs) ht = (h, Whole-append s t hs ht)

Whole-spaces : (k : ℕ) → Whole (spaces k)
Whole-spaces zero = tt
Whole-spaces (suc k) = (omega arith, Whole-spaces k)

Whole-digits : (ds : List ℕ) → Whole (digits ds)
Whole-digits [] = tt
Whole-digits (d ∷ ds) = (omega arith, Whole-digits ds)

-- The letter k of the unit is found.
kb_line-has_k :
    (name : Bytes) (k : ℕ) (ds : List ℕ) → Whole name → has_any (kb_line name k ds) 107 107 ≡ true
kb_line-has_k name k ds h =
    let text = name ++ (spaces k ++ (digits ds ++ 32 ∷ [])) in
    let rest : Bytes = 66 ∷ 10 ∷ 0 ∷ [] in
    let same : text ++ 107 ∷ rest ≡ kb_line name k ds =
      append_assoc name (spaces k ++ (digits ds ++ 32 ∷ [])) (107 ∷ rest)
      ∙ ap (λ l. name ++ l)
          (append_assoc (spaces k) (digits ds ++ 32 ∷ []) (107 ∷ rest)
            ∙ ap (λ l. spaces k ++ l) (append_assoc (digits ds) (32 ∷ []) (107 ∷ rest))) in
    let whole : Whole text = Whole-append name (spaces k ++ (digits ds ++ 32 ∷ [])) h (
      Whole-append (spaces k) (digits ds ++ 32 ∷ []) (Whole-spaces k)
        (Whole-append (digits ds) (32 ∷ []) (Whole-digits ds) (omega arith, tt))) in
    ap (λ l. has_any l 107 107) (sym same) ∙ has_any-found text 107 rest whole (omega arith)

kb_value :
    (k d : ℕ) (ds : List ℕ)
    → IsDecimal (d ∷ ds)
    → decimal 0 (d ∷ ds) * 2 ^ 10 < 2 ^ 64
    → str_to_u64 (spaces k ++ (digits (d ∷ ds) ++ 32 ∷ 107 ∷ 66 ∷ 10 ∷ 0 ∷ [])) false
        * 2 ^ 10
        % 2 ^ 64
      ≡ decimal 0 (d ∷ ds) * 2 ^ 10
kb_value k d ds h small =
    let n = decimal 0 (d ∷ ds) in
    ap (λ v. v * 2 ^ 10 % 2 ^ 64)
      (str_to_u64-spaces k d ds 32 (107 ∷ 66 ∷ 10 ∷ 0 ∷ []) h refl (omega arith))
    ∙ omega arith

-- The line of the memory, and that of the swap space.
parse_mem_line-total :
    (k d : ℕ) (ds : List ℕ) (info : Info)
    → IsDecimal (d ∷ ds)
    → decimal 0 (d ∷ ds) * 2 ^ 10 < 2 ^ 64
    → parse_mem_line (kb_line mem_total k (d ∷ ds)) info
      ≡ record info { memory_total = decimal 0 (d ∷ ds) * 2 ^ 10 }
unfolding parse_mem_line
parse_mem_line-total k d ds info h small =
    let unit = kb_line-has_k mem_total k (d ∷ ds) (omega arith) in
    rw unit (ap (λ v. record info { memory_total = v }) (kb_value k d ds h small))

parse_mem_line-swap :
    (k d : ℕ) (ds : List ℕ) (info : Info)
    → IsDecimal (d ∷ ds)
    → decimal 0 (d ∷ ds) * 2 ^ 10 < 2 ^ 64
    → parse_mem_line (kb_line swap_total_text k (d ∷ ds)) info
      ≡ record info { swap_total = decimal 0 (d ∷ ds) * 2 ^ 10 }
unfolding parse_mem_line
parse_mem_line-swap k d ds info h small =
    let unit = kb_line-has_k swap_total_text k (d ∷ ds) (omega arith) in
    rw unit (ap (λ v. record info { swap_total = v }) (kb_value k d ds h small))

-- A line of something else.
abbrev IsOther : Bytes → Type 0
IsOther line = (begins line mem_total ≡ false) × (begins line swap_total_text ≡ false)

parse_mem_line-other : (line : Bytes) (info : Info) → IsOther line → parse_mem_line line info ≡ info
unfolding parse_mem_line
parse_mem_line-other line info other = ground (arith, other.0, other.1)

parse_mem_info-others :
    (lines rest : List Bytes) (info : Info)
    → All IsOther lines
    → parse_mem_info (lines ++ rest) info ≡ parse_mem_info rest info
unfolding parse_mem_info
parse_mem_info-others [] rest info h = refl
parse_mem_info-others (line ∷ lines) rest info (other, h) =
    ap (parse_mem_info (lines ++ rest)) (parse_mem_line-other line info other)
    ∙ parse_mem_info-others lines rest info h

-- parseMemInfo of lines among which one is that of MemTotal and a later one that of SwapTotal, each
-- with blanks, a number of KB that gives a number of bytes below 2^64, and the unit kB: it sets the
-- two fields to the numbers of bytes, and changes no other field.
pub parse_mem_info_lem :
    (before between after : List Bytes) (k k' d d' : ℕ) (ds ds' : List ℕ) (info : Info)
    → All IsOther before
    → All IsOther between
    → All IsOther after
    → IsDecimal (d ∷ ds)
    → IsDecimal (d' ∷ ds')
    → decimal 0 (d ∷ ds) * 2 ^ 10 < 2 ^ 64
    → decimal 0 (d' ∷ ds') * 2 ^ 10 < 2 ^ 64
    → parse_mem_info
        (before
          ++ kb_line mem_total k (d ∷ ds)
            ∷ (between ++ kb_line swap_total_text k' (d' ∷ ds') ∷ after))
        info
      ≡ record info {
        memory_total = decimal 0 (d ∷ ds) * 2 ^ 10;
        swap_total = decimal 0 (d' ∷ ds') * 2 ^ 10;
      }
unfolding parse_mem_info
parse_mem_info_lem before between after k k' d d' ds ds' info others1 others2 others3 h h' small
      small' =
    let total = kb_line mem_total k (d ∷ ds) in
    let swap = kb_line swap_total_text k' (d' ∷ ds') in
    let info1 : Info = record info { memory_total = decimal 0 (d ∷ ds) * 2 ^ 10 } in
    let info2 : Info = record info1 { swap_total = decimal 0 (d' ∷ ds') * 2 ^ 10 } in
    parse_mem_info-others before (total ∷ (between ++ swap ∷ after)) info others1
    ∙ ap (parse_mem_info (between ++ swap ∷ after)) (parse_mem_line-total k d ds info h small)
    ∙ parse_mem_info-others between (swap ∷ after) info1 others2
    ∙ ap (parse_mem_info after) (parse_mem_line-swap k' d' ds' info1 h' small')
    ∙ ap (λ l. parse_mem_info l info2) (sym (append-nil after))
    ∙ parse_mem_info-others after [] info2 others3
