-- ===== src/Middlewares/Base64.antt =====
-- encoding/base64: StdEncoding.DecodeString. Line ends are skipped; the last group may be padded.
use amaro.Prelude.{
  ℕ, ◌+◌, ◌-◌, ◌*◌, ◌/◌, ◌%◌, ◌&&◌, ◌||◌, [], ◌∷◌, Option, none, some, Str, ◌==◌, leb, is_empty,
  if◌then◌else◌,
}

digit : ℕ → Option ℕ
digit c =
    if leb b'A' c && leb c b'Z'
    then some (c - b'A')
    else if leb b'a' c && leb c b'z'
    then some (c - b'a' + 26)
    else if leb b'0' c && leb c b'9'
    then some (c - b'0' + 52)
    else if c == b'+'
    then some 62
    else if c == b'/'
    then some 63
    else none

infixl 5 ◌>>=◌
abbrev ◌>>=◌ : {A B : Type 0} → Option A → (A → Option B) → Option B
none >>= k = none
some a >>= k = k a

without_line_ends : Str → Str
without_line_ends [] = []
without_line_ends (c ∷ s) =
    let rest = without_line_ends s in if c == 10 || c == 13 then rest else c ∷ rest

decode_groups : Str → Option Str
unfolding digit
decode_groups [] = some []
decode_groups (a ∷ b ∷ c ∷ d ∷ s) =
    let rest = decode_groups s in
    do
      x ← digit a
      y ← digit b
      let last = some ((x * 4 + y / 16) ∷ [])
      if is_empty s && (c == b'=' && d == b'=') then last else do
        z ← digit c
        let two = some ((x * 4 + y / 16) ∷ (y % 16 * 16 + z / 4) ∷ [])
        if is_empty s && d == b'=' then two else do
          w ← digit d
          t ← rest
          some ((x * 4 + y / 16) ∷ (y % 16 * 16 + z / 4) ∷ (z % 4 * 64 + w) ∷ t)
decode_groups _ = none

unfoldable pub decode : Str → Option Str
unfolding without_line_ends decode_groups
decode s = decode_groups (without_line_ends s)
