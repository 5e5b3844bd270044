-- ===== src/Openapi/Reflection/Met.antt =====
-- Types of which all that GenerateSchema registers is registered.
use amaro.Prelude.{ℕ, ◌≡◌, refl, ◌⊎◌, inl, inr, Bool, true, false, Bool-cases, Option, some}
use amaro.Prelude.Assoc.{load}
use amaro.Openapi.{Schema, Properties, no_properties, set_property}
use amaro.Openapi.Reflection.{
  ReflectType, pointer, text, number, boolean, map_type, time, integer, slice, unnamed_struct,
  named_struct, other, Fields, end_fields, field_and, Declaration, Schemas, after, is_uint8,
  is_skipped, property_name, register, schema_type, struct_properties,
}
use amaro.Openapi.Reflection.Described.{schema_of, properties_of}
use amaro.Openapi.Reflection.Closed.{Keeps}

module _ (declared : ℕ → Declaration) where
  -- The named structs that the schema of the type refers to, or of a property of it that another
  -- property replaces, are registered.
  unfoldable mutual
    pub IsMet : Schemas → Bool → ReflectType → Type 0
    IsMet m false (pointer t) = IsMet m true t
    IsMet m true (pointer t) = Unit
    IsMet m _ text = Unit
    IsMet m _ (integer byte) = Unit
    IsMet m _ number = Unit
    IsMet m _ boolean = Unit
    IsMet m _ (slice t) = IsMet m false t
    IsMet m _ map_type = Unit
    IsMet m _ time = Unit
    IsMet m _ (unnamed_struct fields) = FieldsAreMet m fields
    IsMet m _ (named_struct n) = (s : Schema) × (load (declared n).name m ≡ some s)
    IsMet m _ other = Unit

    pub FieldsAreMet : Schemas → Fields → Type 0
    FieldsAreMet m end_fields = Unit
    FieldsAreMet m (field_and field t fields) =
        ((is_skipped field ≡ true) ⊎ IsMet m false t) × FieldsAreMet m fields

  mutual
    unfolding IsMet

    pub IsMet-Keeps :
        (m m' : Schemas) (d : Bool) (t : ReflectType) → Keeps m m' → IsMet m d t → IsMet m' d t
    IsMet-Keeps m m' false (pointer t) k h = IsMet-Keeps m m' true t k h
    IsMet-Keeps m m' true (pointer t) k h = tt
    IsMet-Keeps m m' false (slice t) k h = IsMet-Keeps m m' false t k h
    IsMet-Keeps m m' true (slice t) k h = IsMet-Keeps m m' false t k h
    IsMet-Keeps m m' false (unnamed_struct fields) k h = FieldsAreMet-Keeps m m' fields k h
    IsMet-Keeps m m' true (unnamed_struct fields) k h = FieldsAreMet-Keeps m m' fields k h
    IsMet-Keeps m m' false (named_struct n) k (s, e) = k (declared n).name s e
    IsMet-Keeps m m' true (named_struct n) k (s, e) = k (declared n).name s e
    IsMet-Keeps m m' false text k h = tt
    IsMet-Keeps m m' true text k h = tt
    IsMet-Keeps m m' false (integer byte) k h = tt
    IsMet-Keeps m m' true (integer byte) k h = tt
    IsMet-Keeps m m' false number k h = tt
    IsMet-Keeps m m' true number k h = tt
    IsMet-Keeps m m' false boolean k h = tt
    IsMet-Keeps m m' true boolean k h = tt
    IsMet-Keeps m m' false map_type k h = tt
    IsMet-Keeps m m' true map_type k h = tt
    IsMet-Keeps m m' false time k h = tt
    IsMet-Keeps m m' true time k h = tt
    IsMet-Keeps m m' false other k h = tt
    IsMet-Keeps m m' true other k h = tt

    FieldsAreMet-Keeps :
        (m m' : Schemas) (fields : Fields)
        → Keeps m m'
        → FieldsAreMet m fields
        → FieldsAreMet m' fields
    FieldsAreMet-Keeps m m' end_fields k h = tt
    FieldsAreMet-Keeps m m' (field_and field t fields) k (inl e, hs) =
        (inl e, FieldsAreMet-Keeps m m' fields k hs)
    FieldsAreMet-Keeps m m' (field_and field t fields) k (inr h, hs) =
        (inr (IsMet-Keeps m m' false t k h), FieldsAreMet-Keeps m m' fields k hs)

  slice-met :
      (struct_call : Fields → Schemas → Option (Schema × Schemas)) (t : ReflectType) (m : Schemas)
      → schema_type declared struct_call false t m ≡ some (schema_of declared false t, m)
      → schema_type declared struct_call false (slice t) m
        ≡ some (schema_of declared false (slice t), m)
  unfolding schema_type schema_of after
  slice-met struct_call t m h = elim (Bool-cases (is_uint8 t)) [
    | inl e ↦ rw e refl
    | inr e ↦ rw (e, h) refl
  ]

  mutual
    unfolding IsMet schema_type schema_of after register

    -- Where all is registered, nothing is done but to describe the type.
    pub schema_type-met :
        (struct_call : Fields → Schemas → Option (Schema × Schemas)) (d : Bool) (t : ReflectType)
        (m : Schemas)
        → IsMet m d t
        → schema_type declared struct_call d t m ≡ some (schema_of declared d t, m)
    schema_type-met call false (pointer t) m h = schema_type-met call true t m h
    schema_type-met call true (pointer t) m h = refl
    schema_type-met call false (slice t) m h = slice-met call t m (schema_type-met call false t m h)
    schema_type-met call true (slice t) m h = slice-met call t m (schema_type-met call false t m h)
    schema_type-met call false (unnamed_struct fields) m h =
        rw (struct_properties-met call fields no_properties m h) refl
    schema_type-met call true (unnamed_struct fields) m h =
        rw (struct_properties-met call fields no_properties m h) refl
    schema_type-met call false (named_struct n) m (s, e) = rw (e, register) refl
    schema_type-met call true (named_struct n) m (s, e) = rw (e, register) refl
    schema_type-met call false text m h = refl
    schema_type-met call true text m h = refl
    schema_type-met call false (integer byte) m h = refl
    schema_type-met call true (integer byte) m h = refl
    schema_type-met call false number m h = refl
    schema_type-met call true number m h = refl
    schema_type-met call false boolean m h = refl
    schema_type-met call true boolean m h = refl
    schema_type-met call false map_type m h = refl
    schema_type-met call true map_type m h = refl
    schema_type-met call false time m h = refl
    schema_type-met call true time m h = refl
    schema_type-met call false other m h = refl
    schema_type-met call true other m h = refl

    struct_properties-met :
        (struct_call : Fields → Schemas → Option (Schema × Schemas)) (fields : Fields)
        (ps : Properties) (m : Schemas)
        → FieldsAreMet m fields
        → struct_properties declared struct_call fields ps m
          ≡ some (properties_of declared fields ps, m)
    struct_properties-met call end_fields ps m h = refl
    struct_properties-met call (field_and field t fields) ps m (inl e, hs) =
        rw e (struct_properties-met call fields ps m hs)
    struct_properties-met call (field_and field t fields) ps m (inr h, hs) =
        let ps' = set_property (property_name field) (schema_of declared false t) ps in
        elim (Bool-cases (is_skipped field)) [
          | inl e ↦ rw e (struct_properties-met call fields ps m hs)
          | inr e ↦
              rw (e, schema_type-met call false t m h) (struct_properties-met call fields ps' m hs)
        ]
