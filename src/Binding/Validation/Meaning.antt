-- ===== src/Binding/Validation/Meaning.antt =====
-- What the rules of the tag `validate` mean, apart from the code that checks them.
use amaro.Prelude.{ℕ, ◌≡◌, ◌≤◌, ◌-◌, ◌%◌, ◌^◌, refl, ◌↔◌, true, [], ◌∷◌, length, leb, arith}
use amaro.Prelude.Int.{ℤ, pos, negsuc, leb_ℤ, bits64, wrap_uint}
use amaro.Binding.{
  Numbers, Value, nil_pointer, pointer, slice, text, int, uint, float, bool, complex, container,
  interface, opaque, no_values, value_and,
}
use amaro.Binding.Validation.{values_length, is_zero, check_min, check_max}

-- The order of the integers.
abbrev pub LessEq : ℤ → ℤ → Type 0
LessEq (pos a) (pos b) = a ≤ b
LessEq (pos a) (negsuc b) = ⊥
LessEq (negsuc a) (pos b) = Unit
LessEq (negsuc a) (negsuc b) = b ≤ a

-- A bound as a uint64.
abbrev as_uint64 : ℤ → ℕ
as_uint64 (pos n) = n % 2 ^ 64
as_uint64 (negsuc n) = 2 ^ 64 - 1 - n % 2 ^ 64

leb_ℤ_iff : (a b : ℤ) → (leb_ℤ a b ≡ true) ↔ LessEq a b
leb_ℤ_iff (pos a) (pos b) = (λ h. ground (arith, h), λ h. ground (arith, h))
leb_ℤ_iff (pos a) (negsuc b) = (λ h. ground (arith, h), λ h. absurd h)
leb_ℤ_iff (negsuc a) (pos b) = (λ h. tt, λ h. ground arith)
leb_ℤ_iff (negsuc a) (negsuc b) = (λ h. ground (arith, h), λ h. ground (arith, h))

module _ {F C : Type 0} (numbers : Numbers F C) where
  -- The value is missing, for the rule `required`.
  abbrev pub IsZero : Value F C → Type 0
  IsZero (text s) = s ≡ []
  IsZero (slice t vs) = vs ≡ no_values
  IsZero (container n) = n ≡ 0
  IsZero (int w z) = z ≡ pos 0
  IsZero (uint w n) = n ≡ 0
  IsZero (float half x) = numbers.is_zero_float x ≡ true
  IsZero (nil_pointer t) = Unit
  IsZero (interface b) = b ≡ true
  IsZero _ = ⊥

  -- The length of a text, slice or container, or the number, is the bound or more; no other value is
  -- refused.
  abbrev pub IsAtLeast : ℤ → Value F C → Type 0
  IsAtLeast min (text s) = LessEq min (pos (length s))
  IsAtLeast min (slice t vs) = LessEq min (pos (values_length vs))
  IsAtLeast min (container n) = LessEq min (pos n)
  IsAtLeast min (int w z) = LessEq min z
  IsAtLeast min (uint w n) = as_uint64 min ≤ n
  IsAtLeast min (float half x) = numbers.less_eq (numbers.of_int min) x ≡ true
  IsAtLeast min _ = Unit

  -- The same is the bound or less.
  abbrev pub IsAtMost : ℤ → Value F C → Type 0
  IsAtMost max (text s) = LessEq (pos (length s)) max
  IsAtMost max (slice t vs) = LessEq (pos (values_length vs)) max
  IsAtMost max (container n) = LessEq (pos n) max
  IsAtMost max (int w z) = LessEq z max
  IsAtMost max (uint w n) = n ≤ as_uint64 max
  IsAtMost max (float half x) = numbers.less_eq x (numbers.of_int max) ≡ true
  IsAtMost max _ = Unit

  pub is_zero-IsZero_iff : (v : Value F C) → (is_zero numbers v ≡ true) ↔ IsZero v
  unfolding is_zero
  is_zero-IsZero_iff (text []) = (λ h. refl, λ h. refl)
  is_zero-IsZero_iff (text (c ∷ s)) = (λ h. cc h, λ h. cc h)
  is_zero-IsZero_iff (slice t no_values) = (λ h. refl, λ h. refl)
  is_zero-IsZero_iff (slice t (value_and v vs)) = (λ h. ground (arith, h), λ h. cc h)
  is_zero-IsZero_iff (container n) = (λ h. ground (arith, h), λ h. ground (arith, h))
  is_zero-IsZero_iff (int w (pos n)) = (λ h. ground (arith, h), λ h. ground (arith, h))
  is_zero-IsZero_iff (int w (negsuc n)) = (λ h. cc h, λ h. cc h)
  is_zero-IsZero_iff (uint w n) = (λ h. ground (arith, h), λ h. ground (arith, h))
  is_zero-IsZero_iff (float half x) = (λ h. h, λ h. h)
  is_zero-IsZero_iff (nil_pointer t) = (λ h. tt, λ h. refl)
  is_zero-IsZero_iff (pointer v) = (λ h. cc h, λ h. absurd h)
  is_zero-IsZero_iff (interface b) = (λ h. h, λ h. h)
  is_zero-IsZero_iff (bool b) = (λ h. cc h, λ h. absurd h)
  is_zero-IsZero_iff (complex half x) = (λ h. cc h, λ h. absurd h)
  is_zero-IsZero_iff opaque = (λ h. cc h, λ h. absurd h)

  uint_min : (min : ℤ) (n : ℕ) → (leb (wrap_uint bits64 min) n ≡ true) ↔ (as_uint64 min ≤ n)
  unfolding wrap_uint
  uint_min (pos m) n = (λ h. ground (arith, h), λ h. ground (arith, h))
  uint_min (negsuc m) n = (λ h. ground (arith, h), λ h. ground (arith, h))

  uint_max : (max : ℤ) (n : ℕ) → (leb n (wrap_uint bits64 max) ≡ true) ↔ (n ≤ as_uint64 max)
  unfolding wrap_uint
  uint_max (pos m) n = (λ h. ground (arith, h), λ h. ground (arith, h))
  uint_max (negsuc m) n = (λ h. ground (arith, h), λ h. ground (arith, h))

  pub check_min-IsAtLeast_iff :
      (v : Value F C) (min : ℤ) → (check_min numbers v min ≡ true) ↔ IsAtLeast min v
  unfolding check_min
  check_min-IsAtLeast_iff (text s) min = leb_ℤ_iff min (pos (length s))
  check_min-IsAtLeast_iff (slice t vs) min = leb_ℤ_iff min (pos (values_length vs))
  check_min-IsAtLeast_iff (container n) min = leb_ℤ_iff min (pos n)
  check_min-IsAtLeast_iff (int w z) min = leb_ℤ_iff min z
  check_min-IsAtLeast_iff (uint w n) min = uint_min min n
  check_min-IsAtLeast_iff (float half x) min = (λ h. h, λ h. h)
  check_min-IsAtLeast_iff (nil_pointer t) min = (λ h. tt, λ h. refl)
  check_min-IsAtLeast_iff (pointer v) min = (λ h. tt, λ h. refl)
  check_min-IsAtLeast_iff (interface b) min = (λ h. tt, λ h. refl)
  check_min-IsAtLeast_iff (bool b) min = (λ h. tt, λ h. refl)
  check_min-IsAtLeast_iff (complex half x) min = (λ h. tt, λ h. refl)
  check_min-IsAtLeast_iff opaque min = (λ h. tt, λ h. refl)

  pub check_max-IsAtMost_iff :
      (v : Value F C) (max : ℤ) → (check_max numbers v max ≡ true) ↔ IsAtMost max v
  unfolding check_max
  check_max-IsAtMost_iff (text s) max = leb_ℤ_iff (pos (length s)) max
  check_max-IsAtMost_iff (slice t vs) max = leb_ℤ_iff (pos (values_length vs)) max
  check_max-IsAtMost_iff (container n) max = leb_ℤ_iff (pos n) max
  check_max-IsAtMost_iff (int w z) max = leb_ℤ_iff z max
  check_max-IsAtMost_iff (uint w n) max = uint_max max n
  check_max-IsAtMost_iff (float half x) max = (λ h. h, λ h. h)
  check_max-IsAtMost_iff (nil_pointer t) max = (λ h. tt, λ h. refl)
  check_max-IsAtMost_iff (pointer v) max = (λ h. tt, λ h. refl)
  check_max-IsAtMost_iff (interface b) max = (λ h. tt, λ h. refl)
  check_max-IsAtMost_iff (bool b) max = (λ h. tt, λ h. refl)
  check_max-IsAtMost_iff (complex half x) max = (λ h. tt, λ h. refl)
  check_max-IsAtMost_iff opaque max = (λ h. tt, λ h. refl)
