-- ===== src/Binding/Overflow.antt =====
-- Numbers that do not fit into the field they are bound to.
use amaro.Prelude.{◌≡◌, ◌↔◌, List, ◌∷◌, Str, arith}
use amaro.Prelude.Int.{ℤ, Size, InRange, wrap_int, wrap_int-InRange, wrap_int_iff}
use amaro.Errors.{nil}
use amaro.Strconv.{parsed, parse_int}
use amaro.Binding.{Numbers, int, set_int, set_field}

module _ {F C : Type 0} (quote : Str → Str) (numbers : Numbers F C) where
  -- A signed field of any size whose input is a number of 64 bits is always set, without an error, to a
  -- number of its own range; this is the number of the input exactly if that is in the range.
  pub set_field-wraps :
      (w : Size) (old : ℤ) (input : Str) (inputs : List Str) (num : ℤ)
      → parse_int input ≡ parsed num
      → (stored : ℤ) × (set_field quote numbers (int w old) (input ∷ inputs) ≡ (nil, int w stored))
        × InRange w stored
        × ((stored ≡ num) ↔ InRange w num)
  unfolding set_field set_int
  set_field-wraps w old input inputs num h =
      (wrap_int w num, ground (arith, h), wrap_int-InRange w num, wrap_int_iff w num)
