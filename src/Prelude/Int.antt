-- ===== src/Prelude/Int.antt =====
-- Signed integers over the native numbers, as far as the code needs them: the order, the numbers
-- that a signed machine integer holds, and Go's conversions between integer types.
use Prim.Native.Nat.{ℕ, suc, ◌+◌, ◌-◌, ◌%◌, ◌^◌, ◌<◌}
use mathlib.Core.Path.{◌≡◌, subst}
use mathlib.Core.Logic.{◌↔◌}
use mathlib.Core.Bool.{Bool}
use native.Mathlib.Omega.{arith}
use amaro.Prelude.Tests.{ltb, leb, if◌then◌else◌}

-- `negsuc n` is -(n + 1).
pub data ℤ : Type 0 where
  pos : ℕ → ℤ
  negsuc : ℕ → ℤ

abbrev pub pos_part : ℤ → ℕ
pos_part (pos n) = n
pos_part (negsuc n) = 0

abbrev pub neg_part : ℤ → ℕ
neg_part (pos n) = 0
neg_part (negsuc n) = suc n

abbrev pub leb_ℤ : ℤ → ℤ → Bool
leb_ℤ a b = leb (pos_part a + neg_part b) (pos_part b + neg_part a)

abbrev pub ltb_ℤ : ℤ → ℤ → Bool
ltb_ℤ a b = ltb (pos_part a + neg_part b) (pos_part b + neg_part a)

-- The sizes of Go's integer types; int and uint have 64 bits.
pub data Size : Type 0 where
  bits8 bits16 bits32 bits64 : Size

-- How many numbers a type of the size holds.
abbrev pub count : Size → ℕ
count bits8 = 2 ^ 8
count bits16 = 2 ^ 16
count bits32 = 2 ^ 32
count bits64 = 2 ^ 64

abbrev pub half : Size → ℕ
half bits8 = 2 ^ 7
half bits16 = 2 ^ 15
half bits32 = 2 ^ 31
half bits64 = 2 ^ 63

-- The signed integer of a bit pattern below `count w`.
abbrev pub signed : Size → ℕ → ℤ
signed w pattern' = if ltb pattern' (half w) then pos pattern' else negsuc (count w - pattern' - 1)

-- The bit pattern of an integer: a conversion to an unsigned type.
unfoldable pub wrap_uint : Size → ℤ → ℕ
wrap_uint w (pos n) = n % count w
wrap_uint w (negsuc n) = count w - 1 - n % count w

-- A conversion to a signed type.
unfoldable pub wrap_int : Size → ℤ → ℤ
unfolding wrap_uint
wrap_int w z = signed w (wrap_uint w z)

abbrev pub InRange : Size → ℤ → Type 0
InRange w (pos n) = n < half w
InRange w (negsuc n) = n < half w

pub wrap_int-InRange : (w : Size) (z : ℤ) → InRange w (wrap_int w z)
unfolding wrap_int
wrap_int-InRange bits8 z = ground arith
wrap_int-InRange bits16 z = ground arith
wrap_int-InRange bits32 z = ground arith
wrap_int-InRange bits64 z = ground arith

wrap_int_of_InRange : (w : Size) (z : ℤ) → InRange w z → wrap_int w z ≡ z
unfolding wrap_int
wrap_int_of_InRange bits8 z h = ground arith
wrap_int_of_InRange bits16 z h = ground arith
wrap_int_of_InRange bits32 z h = ground arith
wrap_int_of_InRange bits64 z h = ground arith

-- A conversion keeps the number exactly if the type holds it.
pub wrap_int_iff : (w : Size) (z : ℤ) → (wrap_int w z ≡ z) ↔ InRange w z
wrap_int_iff w z = (λ e. subst (InRange w) e (wrap_int-InRange w z), wrap_int_of_InRange w z)
