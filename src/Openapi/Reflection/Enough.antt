-- ===== src/Openapi/Reflection/Enough.antt =====
-- The schema generator ends: a named struct is entered only while its name is not registered.
use amaro.Prelude.{
  ℕ, zero, suc, ◌+◌, ◌≤◌, ◌<◌, ◌≡◌, ◌∙◌, ap, subst, refl, inl, inr, Bool, true, false, ◌||◌,
  Bool-cases, List, [], ◌∷◌, Option, none, some, Option-cases, Str, str_eq, str_eq_sound,
  str_eq_iff, if◌then◌else◌, arith,
}
use amaro.Prelude.Assoc.{load, store, load-store, load-store_self}
use amaro.Openapi.{Properties, no_properties, set_property, Schema}
use amaro.Openapi.Reflection.{
  ReflectType, pointer, text, number, boolean, map_type, time, integer, slice, unnamed_struct,
  named_struct, other, Fields, end_fields, field_and, Declaration, Schemas, after, placeholder,
  array_of, object_of, refer_to, is_uint8, is_skipped, property_name, register, schema_type,
  struct_properties, generate_struct_schema, generate_schema,
}
use amaro.Openapi.Reflection.Described.{schema_of, struct_schema}
use amaro.Openapi.Reflection.Closed.{IsClosed, Keeps, Keeps-store}
use amaro.Openapi.Reflection.Extended.{Extended, Extended-Keeps, Yields, Makes, IsMade}
use amaro.Openapi.Reflection.Made.{
  schema_type-Makes, generate_struct_schema-Makes, generate_schema-Makes,
}

is_registered : Str → Schemas → Bool
is_registered name m = elim (load name m) [ none ↦ false | some _ ↦ true ]

-- How many of the names are not registered.
unfoldable pub missing : List Str → Schemas → ℕ
unfolding is_registered
missing [] m = 0
missing (name ∷ names) m = (if is_registered name m then 0 else 1) + missing names m

abbrev pub member : Str → List Str → Bool
member name [] = false
member name (k ∷ names) = str_eq k name || member name names

pub missing-Keeps :
    (names : List Str) (m m' : Schemas) → Keeps m m' → missing names m' ≤ missing names m
unfolding missing is_registered
missing-Keeps [] m m' k = omega arith
missing-Keeps (name ∷ names) m m' k = elim (Option-cases (load name m)) [
  | inl e ↦ ground (arith, e, missing-Keeps names m m' k)
  | inr (s, e) ↦ let (s', e') = k name s e in ground (arith, e, e', missing-Keeps names m m' k)
]

missing-store :
    (names : List Str) (name : Str) (s : Schema) (m : Schemas)
    → member name names ≡ true
    → load name m ≡ none
    → missing names (store name s m) < missing names m
unfolding missing is_registered
missing-store [] name s m h e = absurd cc
missing-store (k ∷ names) name s m h e = elim (Bool-cases (str_eq k name)) [
  | inl same ↦
      let e' : load k m ≡ none = rw (str_eq_sound k name same) e in
      let e'' : load k (store name s m) ≡ some s =
        rw (str_eq_sound k name same) (load-store_self name s m) in
      ground (arith, e', e'', missing-Keeps names m (store name s m) (Keeps-store name s m))
  | inr other' ↦ ground (
    arith,
    load-store name k s m,
    str_eq_iff k name,
    str_eq_iff name k,
    missing-store names name s m,
  )
]

-- The call has enough fuel.
abbrev pub Ends : {A : Type 0} → Option (A × Schemas) → Type 0
Ends {A} o = (r : A × Schemas) × (o ≡ some r)

Ends-after :
    {A B : Type 0} (P : A → Schemas → Type 0) (o : Option (A × Schemas))
    (f : A → Schemas → Option (B × Schemas))
    → Ends o
    → Yields P o
    → ((a : A) (m : Schemas) → P a m → Ends (f a m))
    → Ends (after o f)
unfolding after
Ends-after P none f (r, e) y k = absurd cc
Ends-after P (some (a, m)) f x y k = k a m y

Ends-map :
    {A B : Type 0} (o : Option (A × Schemas)) (g : A → Schemas → B × Schemas)
    → Ends o
    → Ends (after o (λ a m. some (g a m)))
unfolding after
Ends-map none g (r, e) = absurd cc
Ends-map (some (a, m)) g h = (g a m, refl)

module _ (declared : ℕ → Declaration) (names : List Str)
    (covers : (n : ℕ) → member (declared n).name names ≡ true) where
  register-Ends :
      (n : ℕ) (struct : Schemas → Option (Schema × Schemas)) (m : Schemas)
      → ((m' : Schemas) → missing names m' < missing names m → Ends (struct m'))
      → Ends (register declared (declared n).name struct m)
  unfolding register
  register-Ends n struct m h = elim (Option-cases (load (declared n).name m)) [
    | inr (s, e) ↦ rw (e, register) ((refer_to (declared n).name, m), refl)
    | inl e ↦
        let m' = store (declared n).name placeholder m in
        rw (e, register)
          (Ends-map (struct m') _
            (h m' (missing-store names (declared n).name placeholder m (covers n) e)))
  ]

  module _ (fuel : ℕ) (struct_call : Fields → Schemas → Option (Schema × Schemas))
      (call_lem : (n : ℕ) (m : Schemas)
        → Makes declared (struct_schema declared n) m (struct_call (declared n).fields m))
      (call_ends : (n : ℕ) (m : Schemas)
        → missing names m < fuel
        → Ends (struct_call (declared n).fields m)) where
    slice-Ends :
        (t : ReflectType) (m : Schemas)
        → Ends (schema_type declared struct_call false t m)
        → Ends (schema_type declared struct_call false (slice t) m)
    unfolding schema_type
    slice-Ends t m h = elim (Bool-cases (is_uint8 t)) [
      | inl e ↦ rw e (_, refl)
      | inr e ↦
          rw e (Ends-map (schema_type declared struct_call false t m) (λ s m'. (array_of s, m')) h)
    ]

    mutual
      unfolding schema_type after

      schema_type-Ends :
          (d : Bool) (t : ReflectType) (m : Schemas)
          → missing names m ≤ fuel
          → Ends (schema_type declared struct_call d t m)
      schema_type-Ends false (pointer t) m h = schema_type-Ends true t m h
      schema_type-Ends true (pointer t) m h = (_, refl)
      schema_type-Ends false text m h = (_, refl)
      schema_type-Ends true text m h = (_, refl)
      schema_type-Ends false (integer byte) m h = (_, refl)
      schema_type-Ends true (integer byte) m h = (_, refl)
      schema_type-Ends false number m h = (_, refl)
      schema_type-Ends true number m h = (_, refl)
      schema_type-Ends false boolean m h = (_, refl)
      schema_type-Ends true boolean m h = (_, refl)
      schema_type-Ends false (slice t) m h = slice-Ends t m (schema_type-Ends false t m h)
      schema_type-Ends true (slice t) m h = slice-Ends t m (schema_type-Ends false t m h)
      schema_type-Ends false map_type m h = (_, refl)
      schema_type-Ends true map_type m h = (_, refl)
      schema_type-Ends false time m h = (_, refl)
      schema_type-Ends true time m h = (_, refl)
      schema_type-Ends false (unnamed_struct fields) m h =
          Ends-map (struct_properties declared struct_call fields no_properties m)
            (λ ps m'. (object_of ps, m')) (struct_properties-Ends fields no_properties m h)
      schema_type-Ends true (unnamed_struct fields) m h =
          Ends-map (struct_properties declared struct_call fields no_properties m)
            (λ ps m'. (object_of ps, m')) (struct_properties-Ends fields no_properties m h)
      schema_type-Ends false (named_struct n) m h =
          register-Ends n (struct_call (declared n).fields) m
            (λ m' less. call_ends n m' (omega arith))
      schema_type-Ends true (named_struct n) m h =
          register-Ends n (struct_call (declared n).fields) m
            (λ m' less. call_ends n m' (omega arith))
      schema_type-Ends false other m h = (_, refl)
      schema_type-Ends true other m h = (_, refl)

      struct_properties-Ends :
          (fields : Fields) (ps : Properties) (m : Schemas)
          → missing names m ≤ fuel
          → Ends (struct_properties declared struct_call fields ps m)
      struct_properties-Ends end_fields ps m h = (_, refl)
      struct_properties-Ends (field_and field t fields) ps m h =
          elim (Bool-cases (is_skipped field)) [
            | inl e ↦ rw e (struct_properties-Ends fields ps m h)
            | inr e ↦ rw e (
                Ends-after (IsMade declared (schema_of declared false t) m) _ _
                  (schema_type-Ends false t m h)
                  (schema_type-Makes declared struct_call call_lem false t m)
                  (λ s m' (k, c, x).
                    struct_properties-Ends fields (set_property (property_name field) s ps) m' (
                      omega (arith, h, missing-Keeps names m m' (Extended-Keeps declared m m' x)))))
          ]

  generate_struct_schema-Ends :
      (fuel n : ℕ) (m : Schemas)
      → missing names m < fuel
      → Ends (generate_struct_schema declared fuel (declared n).fields m)
  unfolding generate_struct_schema
  generate_struct_schema-Ends zero n m h = absurd (omega arith)
  generate_struct_schema-Ends (suc fuel) n m h =
      Ends-map _ (λ ps m'. (object_of ps, m'))
        (struct_properties-Ends fuel (generate_struct_schema declared fuel)
          (generate_struct_schema-Makes declared fuel) (generate_struct_schema-Ends fuel)
          (declared n).fields no_properties m (omega arith))

  generate_schema-Ends :
      (fuel : ℕ) (t : ReflectType) (m : Schemas)
      → missing names m ≤ fuel
      → Ends (generate_schema declared fuel t m)
  unfolding generate_schema
  generate_schema-Ends fuel t m h =
      schema_type-Ends fuel (generate_struct_schema declared fuel)
        (generate_struct_schema-Makes declared fuel) (generate_struct_schema-Ends fuel) false t m h

-- Where `names` has the name of every declared struct type and the fuel is the number of those that
-- are not registered, or more, GenerateSchema returns the schema that the type alone determines.
-- Every entry of the registry is as before, or there was none and it is the schema of a declared
-- struct type of that name. All references in the result and in the new entries are registered.
pub generate_schema-made :
    (declared : ℕ → Declaration) (names : List Str) (fuel : ℕ) (t : ReflectType) (m : Schemas)
    → ((n : ℕ) → member (declared n).name names ≡ true)
    → missing names m ≤ fuel
    → (m' : Schemas) × (generate_schema declared fuel t m ≡ some (schema_of declared false t, m'))
      × IsClosed m' (schema_of declared false t)
      × Extended declared m m'
generate_schema-made declared names fuel t m covers h =
    let ((s, m'), e) = generate_schema-Ends declared names covers fuel t m h in
    let made : Makes declared (schema_of declared false t) m (some (s, m')) =
      subst (Makes declared (schema_of declared false t) m) e
        (generate_schema-Makes declared fuel t m) in
    let (k, c, x) = made in (m', e ∙ ap (λ s. some (s, m')) k, c, x)
