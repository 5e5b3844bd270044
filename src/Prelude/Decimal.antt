-- ===== src/Prelude/Decimal.antt =====
-- strconv.Itoa of a number that is not negative. A digit is written for each round, and a number has
-- fewer digits than its value plus one.
use Prim.Native.Nat.{ℕ, zero, suc, ◌+◌, ◌/◌, ◌%◌}
use mathlib.Core.List.{[], ◌∷◌}
use mathlib.Core.Logic.{◌≢◌}
use native.Mathlib.Omega.{arith}
use amaro.Prelude.Lists.{All}
use amaro.Prelude.Tests.{Str, ltb, if◌then◌else◌}

digits : ℕ → ℕ → Str → Str
digits zero n out = out
digits (suc fuel) n out =
    let more = digits fuel (n / 10) ((b'0' + n % 10) ∷ out) in
    if ltb n 10 then (b'0' + n) ∷ out else more

unfoldable pub itoa : ℕ → Str
unfolding digits
itoa n = digits (suc n) n []

digits-All_ne :
    (fuel n : ℕ) (out : Str) → All (λ c. c ≢ 10) out → All (λ c. c ≢ 10) (digits fuel n out)
unfolding digits
digits-All_ne zero n out h = h
digits-All_ne (suc fuel) n out h =
    let more = digits-All_ne fuel (n / 10) ((b'0' + n % 10) ∷ out) (omega arith, h) in
    let last : All (λ c. c ≢ 10) ((b'0' + n) ∷ out) = (omega arith, h) in ground (arith, more, last)

-- There is no newline in a number.
pub itoa-All_ne : (n : ℕ) → All (λ c. c ≢ 10) (itoa n)
unfolding itoa
itoa-All_ne n = digits-All_ne (suc n) n [] tt
