-- ===== src/Tests/Binding.antt =====
-- Forms bound to a struct.
use amaro.Prelude.{ℕ, ◌≡◌, ◌↔◌, refl, true, [], ◌∷◌, Str, codes}
use amaro.Prelude.Int.{ℤ, pos, negsuc, Size, InRange}
use amaro.Errors.{nil}
use amaro.Http.{Request}
use amaro.Http.Method
use amaro.Strconv.{bad_syntax, parse_int}
use amaro.Binding.{Numbers, int, uint, set_field}
use amaro.Binding.Overflow.{set_field-wraps}
use amaro.Binding.Fields.{Field, struct}
use amaro.Binding.Requests.{bind_query}
use amaro.Tests.{asks}

-- No field is a floating-point or a complex number.
abbrev no_numbers : Numbers (Unit {0}) (Unit {0})
no_numbers = record {
  parse_float = λ s. bad_syntax;
  parse_complex = λ s. bad_syntax;
  narrow_float = λ x. x;
  narrow_complex = λ x. x;
  zero_float = tt;
  zero_complex = tt;
  is_zero_float = λ x. true;
  less_eq = λ x y. true;
  of_int = λ z. tt;
}

abbrev quoted : Str → Str
quoted s = s

set_field-wraps_example :
    (stored : ℤ) × (set_field quoted no_numbers (int Size.bits8 (pos 0)) (codes "200" ∷ [])
      ≡ (nil, int Size.bits8 stored))
    × InRange Size.bits8 stored
    × ((stored ≡ pos 200) ↔ InRange Size.bits8 (pos 200))
unfolding parse_int
set_field-wraps_example =
    set_field-wraps quoted no_numbers Size.bits8 (pos 0) (codes "200") [] (pos 200) refl

wraps_round :
    set_field quoted no_numbers (int Size.bits8 (pos 0)) (codes "200" ∷ [])
    ≡ (nil, int Size.bits8 (negsuc 55))
unfolding set_field
wraps_round = refl

abbrev age_field : ℕ → Field (Unit {0}) (Unit {0})
age_field n = record {
  name = codes "Age";
  tags = (codes "query", codes "age") ∷ (codes "validate", codes "required,min=18") ∷ [];
  can_set = true;
  value = uint Size.bits8 n;
}

abbrev aged : Str → Request
aged age = record (asks Method.get (codes "/")) { query = (codes "age", age ∷ []) ∷ [] }

of_age :
    bind_query quoted no_numbers (aged (codes "20")) (struct (age_field 0 ∷ []))
    ≡ (nil, struct (age_field 20 ∷ []))
unfolding bind_query
of_age = refl

too_young :
    (bind_query quoted no_numbers (aged (codes "17")) (struct (age_field 0 ∷ []))).1
    ≡ struct (age_field 17 ∷ [])
unfolding bind_query
too_young = refl
