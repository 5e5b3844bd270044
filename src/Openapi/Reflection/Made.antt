-- ===== src/Openapi/Reflection/Made.antt =====
-- GenerateSchema makes the schema of the type, and adds to the registry the schemas of declared types
-- only, with every one that is referred to.
use amaro.Prelude.{ℕ, zero, suc, refl, inl, inr, ap, Bool, true, false, Bool-cases, Option, codes}
use amaro.Openapi.{Schema, Properties, no_properties, set_property}
use amaro.Openapi.Reflection.{
  ReflectType, pointer, text, number, boolean, map_type, time, integer, slice, unnamed_struct,
  named_struct, other, Fields, end_fields, field_and, Declaration, Schemas, array_of, object_of,
  is_uint8, is_skipped, property_name, schema_type, struct_properties, generate_struct_schema,
  generate_schema, no_attributes,
}
use amaro.Openapi.Reflection.Described.{schema_of, properties_of, struct_schema}
use amaro.Openapi.Reflection.Closed.{
  IsClosed, PropertiesAreClosed, PropertiesAreClosed-Keeps, PropertiesAreClosed-set_property,
}
use amaro.Openapi.Reflection.Extended.{
  Yields-after, Yields-map, Extended-Keeps, Extended-trans, IsMade, ArePut, Makes, Puts,
  simple-Makes, register-Makes,
}

module _ (declared : ℕ → Declaration) where
  module _ (struct_call : Fields → Schemas → Option (Schema × Schemas))
      (call_lem : (n : ℕ) (m : Schemas)
        → Makes declared (struct_schema declared n) m (struct_call (declared n).fields m)) where
    slice-Makes :
        (t : ReflectType) (m : Schemas)
        → Makes declared (schema_of declared false t) m (schema_type declared struct_call false t m)
        → Makes declared
            (schema_of declared false (slice t))
            m
            (schema_type declared struct_call false (slice t) m)
    unfolding IsClosed no_attributes schema_type schema_of
    slice-Makes t m h = elim (Bool-cases (is_uint8 t)) [
      | inl e ↦ rw e (simple-Makes declared (codes "string") (codes "binary") m)
      | inr e ↦ rw e (
          Yields-after (IsMade declared (schema_of declared false t) m)
            (IsMade declared (array_of (schema_of declared false t)) m) _ _ h
            (λ s m' (k, c, x). (ap array_of k, (inl refl, c, tt), x)))
    ]

    unnamed-Makes :
        (fields : Fields) (m : Schemas)
        → Puts declared
            (properties_of declared fields no_properties)
            m
            (struct_properties declared struct_call fields no_properties m)
        → Makes declared
            (object_of (properties_of declared fields no_properties))
            m
            (schema_type declared struct_call false (unnamed_struct fields) m)
    unfolding IsClosed no_attributes schema_type schema_of
    unnamed-Makes fields m h =
        Yields-after (ArePut declared (properties_of declared fields no_properties) m)
          (IsMade declared (object_of (properties_of declared fields no_properties)) m) _ _ h
          (λ ps m' (k, c, x). (ap object_of k, (inl refl, tt, c), x))

    mutual
      unfolding IsClosed no_attributes schema_type schema_of

      pub schema_type-Makes :
          (d : Bool) (t : ReflectType) (m : Schemas)
          → Makes declared (schema_of declared d t) m (schema_type declared struct_call d t m)
      schema_type-Makes false (pointer t) m = schema_type-Makes true t m
      schema_type-Makes true (pointer t) m = simple-Makes declared _ _ m
      schema_type-Makes false text m = simple-Makes declared _ _ m
      schema_type-Makes true text m = simple-Makes declared _ _ m
      schema_type-Makes false (integer byte) m = simple-Makes declared _ _ m
      schema_type-Makes true (integer byte) m = simple-Makes declared _ _ m
      schema_type-Makes false number m = simple-Makes declared _ _ m
      schema_type-Makes true number m = simple-Makes declared _ _ m
      schema_type-Makes false boolean m = simple-Makes declared _ _ m
      schema_type-Makes true boolean m = simple-Makes declared _ _ m
      schema_type-Makes false (slice t) m = slice-Makes t m (schema_type-Makes false t m)
      schema_type-Makes true (slice t) m = slice-Makes t m (schema_type-Makes false t m)
      schema_type-Makes false map_type m = simple-Makes declared _ _ m
      schema_type-Makes true map_type m = simple-Makes declared _ _ m
      schema_type-Makes false time m = simple-Makes declared _ _ m
      schema_type-Makes true time m = simple-Makes declared _ _ m
      schema_type-Makes false (unnamed_struct fields) m =
          unnamed-Makes fields m (struct_properties-Puts fields no_properties m tt)
      schema_type-Makes true (unnamed_struct fields) m =
          unnamed-Makes fields m (struct_properties-Puts fields no_properties m tt)
      schema_type-Makes false (named_struct n) m =
          register-Makes declared n (struct_call (declared n).fields) m (call_lem n)
      schema_type-Makes true (named_struct n) m =
          register-Makes declared n (struct_call (declared n).fields) m (call_lem n)
      schema_type-Makes false other m = simple-Makes declared _ _ m
      schema_type-Makes true other m = simple-Makes declared _ _ m

      pub struct_properties-Puts :
          (fields : Fields) (ps : Properties) (m : Schemas)
          → PropertiesAreClosed m ps
          → Puts declared
              (properties_of declared fields ps)
              m
              (struct_properties declared struct_call fields ps m)
      struct_properties-Puts end_fields ps m h = (refl, h, λ name. inl refl)
      struct_properties-Puts (field_and field t fields) ps m h =
          elim (Bool-cases (is_skipped field)) [
            | inl e ↦ rw e (struct_properties-Puts fields ps m h)
            | inr e ↦
                let s = schema_of declared false t in
                let ps' = set_property (property_name field) s ps in
                rw e (
                  Yields-after (IsMade declared s m)
                    (ArePut declared (properties_of declared fields ps') m) _ _
                    (schema_type-Makes false t m)
                    (λ s' m' (k, c, x). rw k (
                      Yields-map (ArePut declared (properties_of declared fields ps') m')
                        (ArePut declared (properties_of declared fields ps') m) _
                        (struct_properties-Puts fields ps' m' (
                          PropertiesAreClosed-set_property m' (property_name field) s ps c
                            (PropertiesAreClosed-Keeps m m' ps (Extended-Keeps declared m m' x) h)))
                        (λ ps'' m'' (k', c', x').
                          (k', c', Extended-trans declared m m' m'' x x')))))
          ]

  pub generate_struct_schema-Makes :
      (fuel n : ℕ) (m : Schemas)
      → Makes declared
          (struct_schema declared n)
          m
          (generate_struct_schema declared fuel (declared n).fields m)
  unfolding generate_struct_schema IsClosed no_attributes
  generate_struct_schema-Makes zero n m = tt
  generate_struct_schema-Makes (suc fuel) n m =
      let ps = properties_of declared (declared n).fields no_properties in
      Yields-after (ArePut declared ps m) (IsMade declared (object_of ps) m) _ _
        (struct_properties-Puts (generate_struct_schema declared fuel)
          (generate_struct_schema-Makes fuel) (declared n).fields no_properties m tt)
        (λ ps' m' (k, c, x). (ap object_of k, (inl refl, tt, c), x))

  pub generate_schema-Makes :
      (fuel : ℕ) (t : ReflectType) (m : Schemas)
      → Makes declared (schema_of declared false t) m (generate_schema declared fuel t m)
  unfolding generate_schema
  generate_schema-Makes fuel t m =
      schema_type-Makes (generate_struct_schema declared fuel) (generate_struct_schema-Makes fuel)
        false t m
