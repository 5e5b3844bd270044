-- ===== src/Openapi/Reflection/Repeated.antt =====
-- GenerateSchema once more for the same type.
use amaro.Prelude.{
  ℕ, ◌≡◌, ◌≤◌, refl, subst, inl, inr, Bool, true, false, Bool-cases, List, Option, none, some,
  Option-cases, Str, if◌then◌else◌,
}
use amaro.Prelude.Assoc.{load, store, load-store_self}
use amaro.Openapi.{Schema, Properties, no_properties, set_property}
use amaro.Openapi.Reflection.{
  ReflectType, pointer, text, number, boolean, map_type, time, integer, slice, unnamed_struct,
  named_struct, other, Fields, end_fields, field_and, Declaration, Schemas, placeholder, is_uint8,
  is_skipped, property_name, register, schema_type, struct_properties, generate_struct_schema,
  generate_schema,
}
use amaro.Openapi.Reflection.Described.{schema_of, properties_of, struct_schema}
use amaro.Openapi.Reflection.Closed.{
  IsClosed, PropertiesAreClosed, PropertiesAreClosed-Keeps, PropertiesAreClosed-set_property,
}
use amaro.Openapi.Reflection.Extended.{
  Yields, Yields-after, Yields-map, Extended-Keeps, IsMade, ArePut, Makes,
}
use amaro.Openapi.Reflection.Made.{
  schema_type-Makes, struct_properties-Puts, generate_struct_schema-Makes,
}
use amaro.Openapi.Reflection.Enough.{member, missing, generate_schema-made}
use amaro.Openapi.Reflection.Met.{IsMet, FieldsAreMet, IsMet-Keeps, schema_type-met}

Yields-both :
    {A : Type 0} (P Q : A → Schemas → Type 0) (o : Option (A × Schemas))
    → Yields P o
    → Yields Q o
    → Yields (λ a m. P a m × Q a m) o
Yields-both P Q none h k = tt
Yields-both P Q (some (a, m)) h k = (h, k)

Yields-if :
    {A : Type 0} (P : A → Schemas → Type 0) (b : Bool) (x y : Option (A × Schemas))
    → (b ≡ true → Yields P x)
    → (b ≡ false → Yields P y)
    → Yields P (if b then x else y)
Yields-if P true x y h k = h refl
Yields-if P false x y h k = k refl

module _ (declared : ℕ → Declaration) where
  -- A byte refers to nothing.
  is_uint8-IsMet : (t : ReflectType) (m : Schemas) → is_uint8 t ≡ true → IsMet declared m false t
  unfolding is_uint8 IsMet
  is_uint8-IsMet (integer byte) m e = tt
  is_uint8-IsMet (pointer t) m e = absurd cc
  is_uint8-IsMet text m e = absurd cc
  is_uint8-IsMet number m e = absurd cc
  is_uint8-IsMet boolean m e = absurd cc
  is_uint8-IsMet map_type m e = absurd cc
  is_uint8-IsMet time m e = absurd cc
  is_uint8-IsMet (slice t) m e = absurd cc
  is_uint8-IsMet (unnamed_struct fields) m e = absurd cc
  is_uint8-IsMet (named_struct n) m e = absurd cc
  is_uint8-IsMet other m e = absurd cc

  module _ (struct_call : Fields → Schemas → Option (Schema × Schemas))
      (call_lem : (n : ℕ) (m : Schemas)
        → Makes declared (struct_schema declared n) m (struct_call (declared n).fields m)) where
    abbrev Meets : Bool → ReflectType → Option (Schema × Schemas) → Type 0
    Meets d t = Yields (λ s m'. IsMet declared m' d t)

    register-Meets :
        (n : ℕ) (m : Schemas)
        → Meets false
            (named_struct n)
            (register declared (declared n).name (struct_call (declared n).fields) m)
    unfolding register IsMet
    register-Meets n m = elim (Option-cases (load (declared n).name m)) [
      | inr (s, e) ↦ rw (e, register) (s, e)
      | inl e ↦
          let m' = store (declared n).name placeholder m in
          rw (e, register)
            (Yields-after (IsMade declared (struct_schema declared n) m')
              (λ s m''. IsMet declared m'' false (named_struct n))
              (struct_call (declared n).fields m') _ (call_lem n m')
              (λ s m'' made. (s, load-store_self (declared n).name s m'')))
    ]

    slice-Meets :
        (t : ReflectType) (m : Schemas)
        → Meets false t (schema_type declared struct_call false t m)
        → Meets false (slice t) (schema_type declared struct_call false (slice t) m)
    unfolding schema_type IsMet
    slice-Meets t m h = elim (Bool-cases (is_uint8 t)) [
      | inl e ↦ rw e (is_uint8-IsMet t m e)
      | inr e ↦ rw e (
          Yields-after (λ s m'. IsMet declared m' false t) (λ s m'. IsMet declared m' false t) _ _ h
            (λ s m' k. k))
    ]

    mutual
      unfolding schema_type IsMet IsClosed

      schema_type-Meets :
          (d : Bool) (t : ReflectType) (m : Schemas)
          → Meets d t (schema_type declared struct_call d t m)
      schema_type-Meets false (pointer t) m = schema_type-Meets true t m
      schema_type-Meets true (pointer t) m = tt
      schema_type-Meets false (slice t) m = slice-Meets t m (schema_type-Meets false t m)
      schema_type-Meets true (slice t) m = slice-Meets t m (schema_type-Meets false t m)
      schema_type-Meets false (unnamed_struct fields) m =
          Yields-after (λ ps m'. FieldsAreMet declared m' fields)
            (λ s m'. FieldsAreMet declared m' fields) _ _
            (struct_properties-Meets fields no_properties m tt) (λ ps m' k. k)
      schema_type-Meets true (unnamed_struct fields) m =
          Yields-after (λ ps m'. FieldsAreMet declared m' fields)
            (λ s m'. FieldsAreMet declared m' fields) _ _
            (struct_properties-Meets fields no_properties m tt) (λ ps m' k. k)
      schema_type-Meets false (named_struct n) m = register-Meets n m
      schema_type-Meets true (named_struct n) m = register-Meets n m
      schema_type-Meets false text m = tt
      schema_type-Meets true text m = tt
      schema_type-Meets false (integer byte) m = tt
      schema_type-Meets true (integer byte) m = tt
      schema_type-Meets false number m = tt
      schema_type-Meets true number m = tt
      schema_type-Meets false boolean m = tt
      schema_type-Meets true boolean m = tt
      schema_type-Meets false map_type m = tt
      schema_type-Meets true map_type m = tt
      schema_type-Meets false time m = tt
      schema_type-Meets true time m = tt
      schema_type-Meets false other m = tt
      schema_type-Meets true other m = tt

      struct_properties-Meets :
          (fields : Fields) (ps : Properties) (m : Schemas)
          → PropertiesAreClosed m ps
          → Yields
              (λ ps' m'. FieldsAreMet declared m' fields)
              (struct_properties declared struct_call fields ps m)
      struct_properties-Meets end_fields ps m h = tt
      struct_properties-Meets (field_and field t fields) ps m h =
          let s = schema_of declared false t in
          let ps' = set_property (property_name field) s ps in
          Yields-if (λ ps' m'. FieldsAreMet declared m' (field_and field t fields))
            (is_skipped field) _ _
            (λ e.
              Yields-map (λ ps' m'. FieldsAreMet declared m' fields)
                (λ ps' m'. FieldsAreMet declared m' (field_and field t fields)) _
                (struct_properties-Meets fields ps m h) (λ ps' m' k. (inl e, k)))
            (λ e.
              Yields-after (λ s' m'. IsMade declared s m s' m' × IsMet declared m' false t)
                (λ ps' m'. FieldsAreMet declared m' (field_and field t fields)) _ _
                (Yields-both (IsMade declared s m) (λ s' m'. IsMet declared m' false t) _
                  (schema_type-Makes declared struct_call call_lem false t m)
                  (schema_type-Meets false t m))
                (λ s' m' (made, met).
                  let closed : PropertiesAreClosed m' ps' =
                    PropertiesAreClosed-set_property m' (property_name field) s ps made.1
                      (PropertiesAreClosed-Keeps m m' ps (Extended-Keeps declared m m' made.2) h) in
                  rw made.0 (
                    Yields-map
                      (λ ps'' m''.
                        ArePut declared (properties_of declared fields ps') m' ps'' m''
                        × FieldsAreMet declared m'' fields)
                      (λ ps'' m''. FieldsAreMet declared m'' (field_and field t fields)) _
                      (Yields-both (ArePut declared (properties_of declared fields ps') m')
                        (λ ps'' m''. FieldsAreMet declared m'' fields) _
                        (struct_properties-Puts declared struct_call call_lem fields ps' m' closed)
                        (struct_properties-Meets fields ps' m' closed))
                      (λ ps'' m'' (put, k). (
                        inr (
                            IsMet-Keeps declared m' m'' false t
                              (Extended-Keeps declared m' m'' put.2) met),
                        k,
                      )))))

-- GenerateSchema, called once more for the same type, returns the same schema, and the registry stays
-- what the first call has made it, whatever the fuel of the second call. As for one call, `names` has
-- the name of every declared struct type, and the fuel of the first call is the number of those that
-- are not registered, or more.
pub generate_schema-repeated :
    (declared : ℕ → Declaration) (names : List Str) (fuel fuel' : ℕ) (t : ReflectType) (m : Schemas)
    → ((n : ℕ) → member (declared n).name names ≡ true)
    → missing names m ≤ fuel
    → (s : Schema) × (m' : Schemas) × (generate_schema declared fuel t m ≡ some (s, m'))
      × (generate_schema declared fuel' t m' ≡ some (s, m'))
unfolding generate_schema
generate_schema-repeated declared names fuel fuel' t m covers h =
    let (m', e, _, _) = generate_schema-made declared names fuel t m covers h in
    let met : Meets declared (generate_struct_schema declared fuel)
        (generate_struct_schema-Makes declared fuel) false t
        (some (schema_of declared false t, m')) =
      subst (Yields (λ s m'. IsMet declared m' false t)) e (
        schema_type-Meets declared (generate_struct_schema declared fuel)
          (generate_struct_schema-Makes declared fuel) false t m) in
    (
      schema_of declared false t,
      m',
      e,
      schema_type-met declared (generate_struct_schema declared fuel') false t m' met,
    )
