-- ===== src/Openapi/Reflection.antt =====
-- GenerateSchema and what it calls, of addons/openapi/generator.go, over a data type of what package
-- reflect shows of a type. Named struct types, which may hold each other, are numbered; `declared`
-- says the name and the fields of each. Any other named type stands by what it is declared as.
pub mod Described
pub mod Closed
pub mod Extended
pub mod Made
pub mod Enough
pub mod Met
pub mod Repeated
use amaro.Prelude.{
  ℕ, zero, suc, Bool, true, false, not, ◌&&◌, ◌||◌, List, [], ◌∷◌, ◌++◌, Option, none, some, Str,
  codes, str_eq, is_empty, if◌then◌else◌,
}
use amaro.Prelude.Assoc.{Assoc, load, store}
use amaro.Strings.{split}
use amaro.Openapi.{
  Attributes, Schema, schema, Items, no_items, items, Properties, no_properties, set_property,
  Generator,
}

pub record StructField : Type 0 where
  pub name : Str
  pub exported : Bool
  -- Tag.Get("json")
  pub json_tag : Str

mutual
  pub data ReflectType : Type 0 where
    pointer : ReflectType → ReflectType
    text number boolean map_type time : ReflectType
    -- whether it is uint8
    integer : Bool → ReflectType
    -- a slice or an array
    slice : ReflectType → ReflectType
    unnamed_struct : Fields → ReflectType
    named_struct : ℕ → ReflectType
    -- a function, channel, interface or complex number
    other : ReflectType

  pub data Fields : Type 0 where
    end_fields : Fields
    field_and : StructField → ReflectType → Fields → Fields

-- The declaration of a struct type.
pub record Declaration : Type 0 where
  pub name : Str
  pub fields : Fields

abbrev pub Schemas : Type 0
Schemas = Assoc Schema

-- A generator's registry as it goes through a call. `none` is out of fuel.
abbrev Generating : Type 0 → Type 0
Generating A = Schemas → Option (A × Schemas)

abbrev yields : {A : Type 0} → A → Generating A
yields a m = some (a, m)

-- Go on with what a call yields.
unfoldable pub after :
    {A B : Type 0} → Option (A × Schemas) → (A → Generating B) → Option (B × Schemas)
after none f = none
after (some (a, m)) f = f a m

-- `&Schema{}`
unfoldable pub no_attributes : Attributes
no_attributes = record {
  kind = [];
  format = [];
  reference = [];
  description = [];
  required = [];
  enum = [];
  example = none;
}

abbrev pub placeholder : Schema
placeholder = schema no_attributes no_items no_properties

-- `&Schema{Type: kind, Format: format}`
abbrev pub simple : Str → Str → Schema
simple kind format =
    schema (record no_attributes { kind = kind; format = format }) no_items no_properties

abbrev pub array_of : Schema → Schema
array_of s = schema (record no_attributes { kind = codes "array" }) (items s) no_properties

abbrev pub object_of : Properties → Schema
object_of = schema (record no_attributes { kind = codes "object" }) no_items

abbrev pub schemas_path : Str
schemas_path = codes "#/components/schemas/"

abbrev pub refer_to : Str → Schema
refer_to name =
    schema (record no_attributes { reference = schemas_path ++ name }) no_items no_properties

unfoldable pub is_uint8 : ReflectType → Bool
is_uint8 (integer byte) = byte
is_uint8 _ = false

first_part : List Str → Str
first_part [] = []
first_part (part ∷ _) = part

-- Whether the loop over the fields passes over the field, and the property's name if it does not.
unfoldable pub is_skipped : StructField → Bool
unfolding str_eq
is_skipped field = not field.exported || str_eq field.json_tag (codes "-")

unfoldable pub property_name : StructField → Str
unfolding split first_part
property_name field =
    if is_empty field.json_tag then field.name else first_part (split b',' field.json_tag)

module _ (declared : ℕ → Declaration) where
  -- Register in Components if not exists; `struct_schema` is generateStructSchema of the type.
  unfoldable pub register : Str → Generating Schema → Generating Schema
  unfolding load store after
  register name struct_schema m = elim (load name m) [
    | some _ ↦ yields (refer_to name) m
    | none ↦
        after (struct_schema (store name placeholder m))
          (λ made m'. yields (refer_to name) (store name made m'))
  ]

  -- generateSchemaType, with whether a pointer has been dereferenced, and generateStructSchema's loop
  -- with the properties so far. `struct_call` is generateStructSchema of a named type's fields.
  unfoldable mutual
    unfolding register after is_uint8 is_skipped property_name set_property

    pub schema_type : (Fields → Generating Schema) → Bool → ReflectType → Generating Schema
    schema_type struct_call false (pointer t) m = schema_type struct_call true t m
    schema_type struct_call true (pointer t) m = yields (simple (codes "string") []) m
    schema_type struct_call _ text m = yields (simple (codes "string") []) m
    schema_type struct_call _ (integer byte) m = yields (simple (codes "integer") []) m
    schema_type struct_call _ number m = yields (simple (codes "number") []) m
    schema_type struct_call _ boolean m = yields (simple (codes "boolean") []) m
    schema_type struct_call _ (slice t) m =
        let elements = after (schema_type struct_call false t m) (λ s. yields (array_of s)) in
        if is_uint8 t then yields (simple (codes "string") (codes "binary")) m else elements
    schema_type struct_call _ map_type m = yields (simple (codes "object") []) m
    schema_type struct_call _ time m = yields (simple (codes "string") (codes "date-time")) m
    schema_type struct_call _ (unnamed_struct fields) m =
        after (struct_properties struct_call fields no_properties m) (λ ps. yields (object_of ps))
    schema_type struct_call _ (named_struct n) m =
        register (declared n).name (struct_call (declared n).fields) m
    schema_type struct_call _ other m = yields (simple (codes "string") []) m

    pub struct_properties :
        (Fields → Generating Schema) → Fields → Properties → Generating Properties
    struct_properties struct_call end_fields ps m = yields ps m
    struct_properties struct_call (field_and field t fields) ps m =
        let with_field =
          after (schema_type struct_call false t m)
            (λ s. struct_properties struct_call fields (set_property (property_name field) s ps)) in
        let without = struct_properties struct_call fields ps m in
        if is_skipped field then without else with_field

  -- generateStructSchema. Fuel is for the calls that enter a named struct.
  unfoldable pub generate_struct_schema : ℕ → Fields → Generating Schema
  unfolding after schema_type
  generate_struct_schema zero fields m = none
  generate_struct_schema (suc fuel) fields m =
      after (struct_properties (generate_struct_schema fuel) fields no_properties m)
        (λ ps. yields (object_of ps))

  -- GenerateSchema of a value of the type, on the registry of schemas.
  unfoldable pub generate_schema : ℕ → ReflectType → Generating Schema
  unfolding schema_type generate_struct_schema
  generate_schema fuel t m = schema_type (generate_struct_schema fuel) false t m
