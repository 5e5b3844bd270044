-- ===== src/Binding/Validation.antt =====
-- validateStruct, isZero, checkMin and checkMax of context.go.
pub mod Meaning
pub mod Rules
use amaro.Prelude.{
  ℕ, suc, Bool, true, false, not, List, [], ◌∷◌, ◌++◌, Option, none, some, Str, codes, str_eq, ◌==◌,
  leb, is_empty, length, if◌then◌else◌,
}
use amaro.Prelude.Int.{ℤ, pos, negsuc, leb_ℤ, Size, bits64, wrap_uint}
use amaro.Strings.{split, join, after_prefix}
use amaro.Errors.{Error, nil, plain}
use amaro.Strconv.{atoi_value, format_int}
use amaro.Binding.{
  Numbers, Value, nil_pointer, pointer, slice, text, int, uint, float, bool, complex, container,
  interface, opaque, Values, no_values, value_and,
}
use amaro.Binding.Fields.{Field, Target, not_pointer, nil_target, struct, other_target, tag_of}

abbrev values_length : {F C : Type 0} → Values F C → ℕ
values_length no_values = 0
values_length (value_and v vs) = suc (values_length vs)

abbrev field_message : Str → Str → Str
field_message name what = codes "field '" ++ (name ++ (codes "' " ++ what))

unless : Bool → Str → List Str
unless true message = []
unless false message = message ∷ []

-- The rules of a field: none if it has no tag.
abbrev pub rules_of : {F C : Type 0} → Field F C → List Str
unfolding tag_of split
rules_of f = let tag = tag_of (codes "validate") f in if is_empty tag then [] else split b',' tag

module _ {F C : Type 0} (numbers : Numbers F C) where
  unfoldable pub is_zero : Value F C → Bool
  is_zero (text s) = is_empty s
  is_zero (slice t vs) = values_length vs == 0
  is_zero (container n) = n == 0
  is_zero (int w (pos n)) = n == 0
  is_zero (int w (negsuc n)) = false
  is_zero (uint w n) = n == 0
  is_zero (float half x) = numbers.is_zero_float x
  is_zero (nil_pointer t) = true
  is_zero (pointer v) = false
  is_zero (interface b) = b
  is_zero (bool b) = false
  is_zero (complex half x) = false
  is_zero opaque = false

  -- A negative bound of an unsigned field is converted to uint64.
  unfoldable pub check_min : Value F C → ℤ → Bool
  unfolding wrap_uint
  check_min (text s) min = leb_ℤ min (pos (length s))
  check_min (slice t vs) min = leb_ℤ min (pos (values_length vs))
  check_min (container n) min = leb_ℤ min (pos n)
  check_min (int w z) min = leb_ℤ min z
  check_min (uint w n) min = leb (wrap_uint bits64 min) n
  check_min (float half x) min = numbers.less_eq (numbers.of_int min) x
  check_min (nil_pointer t) min = true
  check_min (pointer v) min = true
  check_min (interface b) min = true
  check_min (bool b) min = true
  check_min (complex half x) min = true
  check_min opaque min = true

  unfoldable pub check_max : Value F C → ℤ → Bool
  unfolding wrap_uint
  check_max (text s) max = leb_ℤ (pos (length s)) max
  check_max (slice t vs) max = leb_ℤ (pos (values_length vs)) max
  check_max (container n) max = leb_ℤ (pos n) max
  check_max (int w z) max = leb_ℤ z max
  check_max (uint w n) max = leb n (wrap_uint bits64 max)
  check_max (float half x) max = numbers.less_eq x (numbers.of_int max)
  check_max (nil_pointer t) max = true
  check_max (pointer v) max = true
  check_max (interface b) max = true
  check_max (bool b) max = true
  check_max (complex half x) max = true
  check_max opaque max = true

  -- One rule of a tag: the messages that it adds.
  check_rule : Field F C → Str → List Str
  unfolding is_zero check_min check_max unless after_prefix str_eq atoi_value format_int
  check_rule f rule =
      if str_eq rule (codes "required")
      then unless (not (is_zero f.value)) (field_message f.name (codes "is required"))
      else elim (after_prefix (codes "min=") rule) [
        | some rest ↦
            unless (check_min f.value (atoi_value rest))
              (field_message f.name (codes "must be at least " ++ format_int (atoi_value rest)))
        | none ↦ elim (after_prefix (codes "max=") rule) [
          | some rest ↦
              unless (check_max f.value (atoi_value rest))
                (field_message f.name (codes "must be at most " ++ format_int (atoi_value rest)))
          | none ↦ []
        ]
      ]

  check_rules : Field F C → List Str → List Str
  unfolding check_rule
  check_rules f [] = []
  check_rules f (rule ∷ rules) = check_rule f rule ++ check_rules f rules

  check_fields : List (Field F C) → List Str
  unfolding check_rules rules_of
  check_fields [] = []
  check_fields (f ∷ fields) = check_rules f (rules_of f) ++ check_fields fields

  unfoldable pub validate_struct : Target F C → Error
  unfolding check_fields join
  validate_struct (struct fields) =
      let messages = check_fields fields in
      if is_empty messages then nil else plain (join (codes "; ") messages)
  validate_struct t = nil
