-- ===== src/Openapi/Reflection/Described.antt =====
-- The schema of a type by the type alone, without a registry: what GenerateSchema should make.
use amaro.Prelude.{ℕ, Bool, true, false, [], codes, if◌then◌else◌}
use amaro.Openapi.{Schema, Properties, no_properties, set_property}
use amaro.Openapi.Reflection.{
  ReflectType, pointer, text, number, boolean, map_type, time, integer, slice, unnamed_struct,
  named_struct, other, Fields, end_fields, field_and, Declaration, simple, array_of, object_of,
  refer_to, is_uint8, is_skipped, property_name,
}

module _ (declared : ℕ → Declaration) where
  -- A named struct's is a reference to its name.
  unfoldable mutual
    pub schema_of : Bool → ReflectType → Schema
    schema_of false (pointer t) = schema_of true t
    schema_of true (pointer t) = simple (codes "string") []
    schema_of _ text = simple (codes "string") []
    schema_of _ (integer byte) = simple (codes "integer") []
    schema_of _ number = simple (codes "number") []
    schema_of _ boolean = simple (codes "boolean") []
    schema_of _ (slice t) =
        let elements = array_of (schema_of false t) in
        if is_uint8 t then simple (codes "string") (codes "binary") else elements
    schema_of _ map_type = simple (codes "object") []
    schema_of _ time = simple (codes "string") (codes "date-time")
    schema_of _ (unnamed_struct fields) = object_of (properties_of fields no_properties)
    schema_of _ (named_struct n) = refer_to (declared n).name
    schema_of _ other = simple (codes "string") []

    pub properties_of : Fields → Properties → Properties
    properties_of end_fields ps = ps
    properties_of (field_and field t fields) ps =
        let with_field =
          properties_of fields (set_property (property_name field) (schema_of false t) ps) in
        let without = properties_of fields ps in if is_skipped field then without else with_field

  abbrev pub struct_schema : ℕ → Schema
  struct_schema n = object_of (properties_of (declared n).fields no_properties)
