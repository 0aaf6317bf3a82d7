-- ===== src/Text/Tests.antt =====
-- Runs on concrete strings.
use libnebula.Prelude.{
  ℕ, ◌+◌, true, false, ◌≡◌, refl, ◌++◌, some, [], ◌∷◌, arith, take, drop, length,
}
use libnebula.Prelude.Int.{negsuc}
use libnebula.Text.{copy_loop, strlcpy, find_end, cat_loop, strlcat}
use libnebula.Text.Copy.{strlcpy_lem}
use libnebula.Text.Append.{strlcat_lem}
use libnebula.Text.Chars.{
  strncmp_eq, starts_with, ends_with, case_loop, to_upper_case, to_lower_case,
}
use libnebula.Text.Number.{read_digits, read_sign, read_number, factor, str_to_u64, str_to_i64}
use libnebula.Text.Number.Value.{decimal, digits, sign, str_to_i64_lem}

-- A string of three characters is cut to two, and the fourth byte of the buffer stays.
strlcpy_test :
    strlcpy (9 ∷ 9 ∷ 9 ∷ 9 ∷ []) (97 ∷ 98 ∷ 99 ∷ 0 ∷ []) 3 ≡ some (97 ∷ 98 ∷ 0 ∷ 9 ∷ [], 3)
unfolding strlcpy copy_loop
strlcpy_test = refl

strlcpy_lem_example :
    strlcpy (9 ∷ 9 ∷ 9 ∷ 9 ∷ []) ((97 ∷ 98 ∷ 99 ∷ []) ++ 0 ∷ []) 3
    ≡ some (
      take 2 (97 ∷ 98 ∷ 99 ∷ [])
          ++ 0 ∷ drop (length {A = ℕ} (take 2 (97 ∷ 98 ∷ 99 ∷ [])) + 1) (9 ∷ 9 ∷ 9 ∷ 9 ∷ []),
      length {A = ℕ} (97 ∷ 98 ∷ 99 ∷ []),
    )
strlcpy_lem_example =
    strlcpy_lem (97 ∷ 98 ∷ 99 ∷ []) [] (9 ∷ 9 ∷ 9 ∷ 9 ∷ []) 2
      (omega arith, (omega arith, (omega arith, tt))) (omega arith)

strlcat_test :
    strlcat (97 ∷ 0 ∷ 9 ∷ 9 ∷ 9 ∷ []) (98 ∷ 99 ∷ 100 ∷ 0 ∷ []) 4
    ≡ some (97 ∷ 98 ∷ 99 ∷ 0 ∷ 9 ∷ [], 4)
unfolding strlcat find_end cat_loop
strlcat_test = refl

strlcat_lem_example :
    strlcat
      ((97 ∷ []) ++ 0 ∷ 9 ∷ 9 ∷ 9 ∷ [])
      ((98 ∷ 99 ∷ 100 ∷ []) ++ 0 ∷ [])
      (length {A = ℕ} (97 ∷ []) + 3)
    ≡ some (
      (97 ∷ [])
          ++ (take 2 (98 ∷ 99 ∷ 100 ∷ [])
              ++ 0 ∷ drop (length {A = ℕ} (take 2 (98 ∷ 99 ∷ 100 ∷ [])) + 1) (0 ∷ 9 ∷ 9 ∷ 9 ∷ [])),
      length {A = ℕ} (97 ∷ []) + length {A = ℕ} (98 ∷ 99 ∷ 100 ∷ []),
    )
strlcat_lem_example =
    strlcat_lem (98 ∷ 99 ∷ 100 ∷ []) [] (97 ∷ []) (9 ∷ 9 ∷ 9 ∷ []) 2
      (omega arith, (omega arith, (omega arith, tt))) (omega arith, tt) (omega arith)

starts_with_test : starts_with (97 ∷ 98 ∷ 0 ∷ []) (97 ∷ 0 ∷ []) ≡ some true
unfolding starts_with strncmp_eq
starts_with_test = refl

ends_with_test : ends_with (97 ∷ 98 ∷ 0 ∷ []) (97 ∷ 0 ∷ []) ≡ some false
unfolding ends_with strncmp_eq
ends_with_test = refl

to_upper_case_test : to_upper_case (97 ∷ 49 ∷ 122 ∷ 0 ∷ 97 ∷ []) ≡ some (65 ∷ 49 ∷ 90 ∷ 0 ∷ 97 ∷ [])
unfolding to_upper_case case_loop
to_upper_case_test = refl

to_lower_case_test : to_lower_case (65 ∷ 49 ∷ 0 ∷ []) ≡ some (97 ∷ 49 ∷ 0 ∷ [])
unfolding to_lower_case case_loop
to_lower_case_test = refl

-- "12k"
str_to_u64_test : str_to_u64 (49 ∷ 50 ∷ 107 ∷ 0 ∷ []) true ≡ 12000
unfolding str_to_u64 read_number read_sign read_digits factor
str_to_u64_test = refl

str_to_i64_lem_example :
    str_to_i64 (sign true ++ (digits (1 ∷ 2 ∷ []) ++ 107 ∷ 0 ∷ [])) true ≡ some (negsuc 11999)
unfolding decimal
str_to_i64_lem_example =
    str_to_i64_lem 1 (2 ∷ []) 107 (0 ∷ []) true (omega arith, (omega arith, tt)) refl true
