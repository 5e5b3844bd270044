-- ===== src/Strings.antt =====
-- What the program uses of Go's package strings, over byte strings. `cut` is the pair of slices that
-- routers/trie.go takes round `strings.IndexByte`.
pub mod Parts
pub mod Join
use amaro.Prelude.{
  ℕ, Bool, true, false, ◌&&◌, ◌||◌, List, [], ◌∷◌, ◌++◌, Option, none, some, Str, ◌==◌, leb, ◌-◌,
  str_eq, is_empty, if◌then◌else◌,
}

-- The bytes before the first `b`, and those behind it (none if `b` does not occur).
unfoldable pub cut : ℕ → Str → Str × Str
cut b [] = ([], [])
cut b (c ∷ s) = let (part, rest) = cut b s in if c == b then ([], s) else (c ∷ part, rest)

abbrev push_head : ℕ → List Str → List Str
push_head c [] = (c ∷ []) ∷ []
push_head c (piece ∷ pieces) = (c ∷ piece) ∷ pieces

-- strings.Split at a separator of one byte
unfoldable pub split : ℕ → Str → List Str
split b [] = [] ∷ []
split b (c ∷ s) = let pieces = split b s in if c == b then [] ∷ pieces else push_head c pieces

unfoldable pub join : Str → List Str → Str
join sep [] = []
join sep (piece ∷ []) = piece
join sep (piece ∷ pieces) = piece ++ (sep ++ join sep pieces)

unfoldable pub trim_left : ℕ → Str → Str
trim_left b [] = []
trim_left b (c ∷ s) = if c == b then trim_left b s else c ∷ s

unfoldable pub trim_right : ℕ → Str → Str
trim_right b [] = []
trim_right b (c ∷ s) = let t = trim_right b s in if is_empty t && c == b then [] else c ∷ t

-- strings.Trim with a cutset of one byte
unfoldable pub trim : ℕ → Str → Str
unfolding trim_left trim_right
trim b s = trim_right b (trim_left b s)

-- The rest behind a prefix; strings.HasPrefix and strings.TrimPrefix read it.
unfoldable pub after_prefix : Str → Str → Option Str
after_prefix [] s = some s
after_prefix (a ∷ p) [] = none
after_prefix (a ∷ p) (c ∷ s) = if a == c then after_prefix p s else none

unfoldable pub has_prefix : Str → Str → Bool
unfolding after_prefix
has_prefix p s = elim (after_prefix p s) [ none ↦ false | some t ↦ true ]

unfoldable pub trim_prefix : Str → Str → Str
unfolding after_prefix
trim_prefix p s = elim (after_prefix p s) [ none ↦ s | some t ↦ t ]

-- strings.HasSuffix
unfoldable pub has_suffix : Str → Str → Bool
unfolding str_eq
has_suffix p [] = is_empty p
has_suffix p (c ∷ s) = let shorter = has_suffix p s in if str_eq p (c ∷ s) then true else shorter

-- `s[0] == b`, behind the test that `s` is not empty
unfoldable pub starts_with_byte : ℕ → Str → Bool
starts_with_byte b [] = false
starts_with_byte b (c ∷ s) = c == b

-- `s[len(s)-1] == b`, behind the test that `s` is not empty
unfoldable pub ends_with_byte : ℕ → Str → Bool
ends_with_byte b [] = false
ends_with_byte b (c ∷ []) = c == b
ends_with_byte b (c ∷ s) = ends_with_byte b s

-- `s[:len(s)-1]`
unfoldable pub drop_last : Str → Str
drop_last [] = []
drop_last (c ∷ []) = []
drop_last (c ∷ s) = c ∷ drop_last s

-- `s[1:]`
unfoldable pub drop_first : Str → Str
drop_first [] = []
drop_first (c ∷ s) = s

upper_byte : ℕ → ℕ
upper_byte c = if leb b'a' c && leb c b'z' then c - 32 else c

-- A byte in front of capitals: the long s and the dotless i, of two bytes each, have ASCII capitals.
upper_at : ℕ → Str → Str
unfolding upper_byte
upper_at c [] = upper_byte c ∷ []
upper_at c (d ∷ s) =
    if c == 197 && d == 191
    then b'S' ∷ s
    else if c == 196 && d == 177
    then b'I' ∷ s
    else upper_byte c ∷ d ∷ s

-- strings.ToUpper, as far as its result has ASCII letters: letters whose capitals are not ASCII stay as
-- they are, since a text with one of them is no name of a method in either case.
unfoldable pub to_upper : Str → Str
unfolding upper_at
to_upper [] = []
to_upper (c ∷ s) = upper_at c (to_upper s)

-- strings.Contains
unfoldable pub contains : Str → Str → Bool
unfolding has_prefix
contains part [] = is_empty part
contains part (c ∷ s) = has_prefix part (c ∷ s) || contains part s
