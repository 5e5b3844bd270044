-- ===== src/Binding.antt =====
-- BindQuery, BindForm, BindJSON, bindData and setField of context.go, over a data type of what package
-- reflect shows of a value. A struct is the list of its fields. Parameters: floating-point and
-- complex numbers with their parsers, the decoding of JSON, and ParseForm.
pub mod Fields
pub mod Validation
pub mod Requests
pub mod Overflow
use amaro.Prelude.{
  ℕ, Bool, true, false, not, List, [], ◌∷◌, Option, none, some, Str, codes, is_empty, if◌then◌else◌,
}
use amaro.Prelude.Assoc.{Assoc, load}
use amaro.Prelude.Int.{ℤ, pos, Size, wrap_int, wrap_uint, count}
use amaro.Errors.{Error, nil, plain, is_nil}
use amaro.Strconv.{Parsed, on_parsed, parse_int, parse_uint, parse_bool}

-- A Go type, by its kind. An opaque type is a struct, a channel, a function or the like.
pub data GoType : Type 0 where
  pointer_type slice_type : GoType → GoType
  text_type bool_type opaque_type : GoType
  int_type uint_type : Size → GoType
  -- whether it has only half of the bits
  float_type complex_type : Bool → GoType
  -- arrays and maps, and interfaces
  container_type interface_type : GoType

-- ParseFloat and ParseComplex, and the conversion to float32 or complex64 that a field of that type
-- makes. `less_eq` is <= on floats and `of_int` the conversion from int.
pub record Numbers (F C : Type 0) : Type 0 where
  pub parse_float : Str → Parsed F
  pub parse_complex : Str → Parsed C
  pub narrow_float : F → F
  pub narrow_complex : C → C
  pub zero_float : F
  pub zero_complex : C
  pub is_zero_float : F → Bool
  pub less_eq : F → F → Bool
  pub of_int : ℤ → F

mutual
  pub data Value (F C : Type 0) : Type 0 where
    nil_pointer : GoType → Value F C
    pointer : Value F C → Value F C
    -- with the type of the elements; nil is empty
    slice : GoType → Values F C → Value F C
    text : Str → Value F C
    int : Size → ℤ → Value F C
    uint : Size → ℕ → Value F C
    float : Bool → F → Value F C
    bool : Bool → Value F C
    complex : Bool → C → Value F C
    -- an array or a map, of which only the length is read
    container : ℕ → Value F C
    -- an interface, of which only whether it is nil is read
    interface : Bool → Value F C
    opaque : Value F C

  pub data Values (F C : Type 0) : Type 0 where
    no_values : Values F C
    value_and : Value F C → Values F C → Values F C

module _ {F C : Type 0} (quote : Str → Str) (numbers : Numbers F C) where
  -- reflect.New and reflect.MakeSlice fill what they make with it.
  abbrev pub zero_value : GoType → Value F C
  zero_value (pointer_type t) = nil_pointer t
  zero_value (slice_type t) = slice t no_values
  zero_value text_type = text []
  zero_value bool_type = bool false
  zero_value opaque_type = opaque
  zero_value (int_type w) = int w (pos 0)
  zero_value (uint_type w) = uint w 0
  zero_value (float_type half) = float half numbers.zero_float
  zero_value (complex_type half) = complex half numbers.zero_complex
  zero_value container_type = container 0
  zero_value interface_type = interface true

  abbrev stored : Value F C → Error × Value F C
  stored v = (nil, v)

  abbrev kept : Value F C → Error → Error × Value F C
  kept v e = (e, v)

  -- SetInt and the others store what fits into the field.
  set_int : Size → Str → Value F C → Error × Value F C
  unfolding parse_int wrap_int
  set_int w input old =
      on_parsed quote (codes "ParseInt") input (parse_int input)
        (λ num. stored (int w (wrap_int w num))) (kept old)

  set_uint : Size → Str → Value F C → Error × Value F C
  unfolding parse_uint wrap_uint
  set_uint w input old =
      on_parsed quote (codes "ParseUint") input (parse_uint input)
        (λ num. stored (uint w (wrap_uint w (pos num)))) (kept old)

  set_float : Bool → Str → Value F C → Error × Value F C
  set_float half input old =
      on_parsed quote (codes "ParseFloat") input (numbers.parse_float input)
        (λ num. stored (float half (if half then numbers.narrow_float num else num))) (kept old)

  set_complex : Bool → Str → Value F C → Error × Value F C
  set_complex half input old =
      on_parsed quote (codes "ParseComplex") input (numbers.parse_complex input)
        (λ num. stored (complex half (if half then numbers.narrow_complex num else num))) (kept old)

  set_bool : Str → Value F C → Error × Value F C
  unfolding parse_bool
  set_bool input old =
      if is_empty input
      then stored (bool true)
      else on_parsed quote (codes "ParseBool") input (parse_bool input) (λ b. stored (bool b))
          (kept old)

  -- The elements of a new slice, one for each input, with the call of setField as `set_element`.
  elements_of : (List Str → Error × Value F C) → List Str → Error × Values F C
  elements_of set_element [] = (nil, no_values)
  elements_of set_element (input ∷ inputs) =
      let (e, v) = set_element (input ∷ []) in
      let (e', vs) = elements_of set_element inputs in
      if is_nil e then (e', value_and v vs) else (e, no_values)

  abbrev set_slice : GoType → Value F C → Error × Values F C → Error × Value F C
  set_slice t old (e, vs) = if is_nil e then (nil, slice t vs) else (e, old)

  -- setField on the zero value of a type, which is all that it calls itself on below a nil pointer
  -- and in a slice.
  set_new : GoType → List Str → Error × Value F C
  unfolding elements_of set_int set_uint set_float set_complex set_bool
  set_new t [] = stored (zero_value t)
  set_new (pointer_type t) (input ∷ inputs) =
      let (e, v) = set_new t (input ∷ inputs) in (e, pointer v)
  set_new (slice_type t) (input ∷ inputs) =
      set_slice t (slice t no_values) (elements_of (set_new t) (input ∷ inputs))
  set_new text_type (input ∷ _) = stored (text input)
  set_new (int_type w) (input ∷ _) = set_int w input (zero_value (int_type w))
  set_new (uint_type w) (input ∷ _) = set_uint w input (zero_value (uint_type w))
  set_new (float_type half) (input ∷ _) = set_float half input (zero_value (float_type half))
  set_new bool_type (input ∷ _) = set_bool input (zero_value bool_type)
  set_new (complex_type half) (input ∷ _) = set_complex half input (zero_value (complex_type half))
  set_new container_type (input ∷ _) = stored (zero_value container_type)
  set_new interface_type (input ∷ _) = stored (zero_value interface_type)
  set_new opaque_type (input ∷ _) = stored opaque

  unfoldable pub set_field : Value F C → List Str → Error × Value F C
  unfolding set_new
  set_field v [] = stored v
  set_field (nil_pointer t) (input ∷ inputs) =
      let (e, v) = set_new t (input ∷ inputs) in (e, pointer v)
  set_field (pointer v) (input ∷ inputs) =
      let (e, v') = set_field v (input ∷ inputs) in (e, pointer v')
  set_field (slice t vs) (input ∷ inputs) =
      set_slice t (slice t vs) (elements_of (set_new t) (input ∷ inputs))
  set_field (text s) (input ∷ _) = stored (text input)
  set_field (int w z) (input ∷ _) = set_int w input (int w z)
  set_field (uint w n) (input ∷ _) = set_uint w input (uint w n)
  set_field (float half x) (input ∷ _) = set_float half input (float half x)
  set_field (bool b) (input ∷ _) = set_bool input (bool b)
  set_field (complex half x) (input ∷ _) = set_complex half input (complex half x)
  set_field (container n) (input ∷ _) = stored (container n)
  set_field (interface b) (input ∷ _) = stored (interface b)
  set_field opaque (input ∷ _) = stored opaque
