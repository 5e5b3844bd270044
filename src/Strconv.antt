-- ===== src/Strconv.antt =====
-- What the code uses of Go's package strconv: ParseUint and ParseInt in base 10 and 64 bits, Atoi,
-- Itoa and ParseBool. `quote` is strconv.Quote, which stands in the texts of errors only.
use amaro.Prelude.{
  ℕ, suc, ◌+◌, ◌-◌, ◌*◌, ◌^◌, Bool, true, false, ◌||◌, List, [], ◌∷◌, ◌++◌, Str, codes, str_eq,
  ◌==◌, ltb, if◌then◌else◌,
}
use amaro.Prelude.Decimal.{itoa}
use amaro.Prelude.Int.{ℤ, pos, negsuc}
use amaro.Errors.{Error, plain}

-- A number that is out of range comes with the nearest one that is not.
pub data Parsed (A : Type 0) : Type 0 where
  parsed : A → Parsed A
  bad_syntax : Parsed A
  out_of_range : A → Parsed A

abbrev pub max_uint64 : ℕ
max_uint64 = 2 ^ 64 - 1

-- The loop of ParseUint, which stops at the first byte that is no digit or takes it out of range.
scan : Str → ℕ → Parsed ℕ
scan [] n = parsed n
scan (c ∷ s) n =
    let m = n * 10 + (c - b'0') in
    let rest = scan s m in
    if ltb c b'0' || ltb b'9' c
    then bad_syntax
    else if ltb max_uint64 m
    then out_of_range max_uint64
    else rest

unfoldable pub parse_uint : Str → Parsed ℕ
unfolding scan
parse_uint [] = bad_syntax
parse_uint (c ∷ s) = scan (c ∷ s) 0

-- ParseInt behind the sign; the largest magnitude of a negative number is one more.
abbrev with_sign : Bool → Parsed ℕ → Parsed ℤ
with_sign negative bad_syntax = bad_syntax
with_sign false (out_of_range _) = out_of_range (pos (2 ^ 63 - 1))
with_sign true (out_of_range _) = out_of_range (negsuc (2 ^ 63 - 1))
with_sign false (parsed n) =
    if ltb n (2 ^ 63) then parsed (pos n) else out_of_range (pos (2 ^ 63 - 1))
with_sign true (parsed n) =
    if n == 0
    then parsed (pos 0)
    else if ltb (2 ^ 63) n
    then out_of_range (negsuc (2 ^ 63 - 1))
    else parsed (negsuc (n - 1))

unfoldable pub parse_int : Str → Parsed ℤ
unfolding parse_uint
parse_int [] = bad_syntax
parse_int (c ∷ s) =
    if c == b'+'
    then with_sign false (parse_uint s)
    else if c == b'-'
    then with_sign true (parse_uint s)
    else with_sign false (parse_uint (c ∷ s))

-- `n, _ := strconv.Atoi(s)`: the value that comes with an error is 0, or the nearest number.
unfoldable pub atoi_value : Str → ℤ
unfolding parse_int
atoi_value s = elim (parse_int s) [ parsed z ↦ z | bad_syntax ↦ pos 0 | out_of_range z ↦ z ]

-- Itoa, and the verb %d
unfoldable pub format_int : ℤ → Str
unfolding itoa
format_int (pos n) = itoa n
format_int (negsuc n) = b'-' ∷ itoa (suc n)

one_of : Str → List Str → Bool
unfolding str_eq
one_of s [] = false
one_of s (t ∷ ts) = str_eq s t || one_of s ts

unfoldable pub parse_bool : Str → Parsed Bool
unfolding one_of
parse_bool s =
    if one_of s
      (codes "1" ∷ codes "t" ∷ codes "T" ∷ codes "true" ∷ codes "TRUE" ∷ codes "True" ∷ [])
    then parsed true
    else if one_of s
        (codes "0" ∷ codes "f" ∷ codes "F" ∷ codes "false" ∷ codes "FALSE" ∷ codes "False" ∷ [])
    then parsed false
    else bad_syntax

module _ (quote : Str → Str) where
  abbrev num_error : Str → Str → Str → Error
  num_error function input reason = plain (
      codes "strconv."
      ++ (function ++ (codes ": parsing " ++ (quote input ++ (codes ": " ++ reason)))))

  -- What a caller does that gives up on an error: go on with the number, or return the error.
  abbrev pub on_parsed {ℓ} :
      {A : Type 0} {B : Type ℓ} → Str → Str → Parsed A → (A → B) → (Error → B) → B
  on_parsed function input (parsed a) go give_up = go a
  on_parsed function input bad_syntax go give_up =
      give_up (num_error function input (codes "invalid syntax"))
  on_parsed function input (out_of_range _) go give_up =
      give_up (num_error function input (codes "value out of range"))
