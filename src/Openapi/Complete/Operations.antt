-- ===== src/Openapi/Complete/Operations.antt =====
-- The operation that should document a handler of WrapHandler, by the two types alone.
use amaro.Prelude.{
  ℕ, ◌≡◌, refl, ap, Option, true, false, [], ◌∷◌, none, some, Str, codes, if◌then◌else◌,
}
use amaro.Openapi.{Schema, RequestBody, Operation}
use amaro.Openapi.Reflection.{
  Declaration, ReflectType, pointer, text, number, boolean, map_type, time, integer, slice,
  unnamed_struct, named_struct, other, Fields, end_fields, field_and, Schemas,
}
use amaro.Openapi.Reflection.Described.{schema_of}
use amaro.Openapi.Reflection.Closed.{IsClosed}
use amaro.Openapi.Typed.{operation, has_fields, has_body_schema, request_body_of}
use amaro.Openapi.Complete.{BodyIsClosed}

-- The body in the document: structs with fields have one, time.Time is a struct with fields.
abbrev json_body : Schema → RequestBody
json_body s = record {
  description = codes "Request Body";
  content = (codes "application/json", record { schema = some s }) ∷ [];
  required = true;
}

abbrev body_for : RequestBody → Fields → Option RequestBody
body_for body end_fields = none
body_for body (field_and _ _ _) = some body

abbrev pub documented_body : (ℕ → Declaration) → ReflectType → Option RequestBody
documented_body declared time = some (json_body (schema_of declared false time))
documented_body declared (unnamed_struct fields) =
    body_for (json_body (schema_of declared false (unnamed_struct fields))) fields
documented_body declared (named_struct n) =
    body_for (json_body (schema_of declared false (named_struct n))) (declared n).fields
documented_body declared _ = none

-- The operation that documents a wrapped handler: the path as its summary, the request's body, and
-- the response 200 with the schema of the response's type.
abbrev pub typed_operation : (ℕ → Declaration) → Str → ReflectType → ReflectType → Operation
typed_operation declared path req_type res_type = record {
  tags = [];
  summary = path;
  description = [];
  operation_id = [];
  parameters = [];
  request_body = documented_body declared req_type;
  responses =
      (
        codes "200",
        record {
          description = codes "OK";
          content =
              (
                codes "application/json",
                record { schema = some (schema_of declared false res_type) },
              )
              ∷ [];
        },
      )
      ∷ [];
  security = [];
}

body_for-IsClosed :
    (m : Schemas) (s : Schema) (fields : Fields)
    → IsClosed m s
    → BodyIsClosed m (body_for (json_body s) fields)
body_for-IsClosed m s end_fields h = tt
body_for-IsClosed m s (field_and _ _ _) h = (h, tt)

module _ (declared : ℕ → Declaration) where
  body_for-fields :
      (body : RequestBody) (fields : Fields)
      → (if has_fields fields then some body else none) ≡ body_for body fields
  unfolding has_fields
  body_for-fields body end_fields = refl
  body_for-fields body (field_and _ _ _) = refl

  request_body_of-documented_body :
      (t : ReflectType)
      → request_body_of declared t (schema_of declared false t) ≡ documented_body declared t
  unfolding request_body_of has_body_schema
  request_body_of-documented_body (pointer _) = refl
  request_body_of-documented_body text = refl
  request_body_of-documented_body number = refl
  request_body_of-documented_body boolean = refl
  request_body_of-documented_body map_type = refl
  request_body_of-documented_body time = refl
  request_body_of-documented_body (integer _) = refl
  request_body_of-documented_body (slice _) = refl
  request_body_of-documented_body (unnamed_struct fields) = body_for-fields _ fields
  request_body_of-documented_body (named_struct n) = body_for-fields _ (declared n).fields
  request_body_of-documented_body other = refl

  pub documented_body-IsClosed :
      (t : ReflectType) (m : Schemas)
      → IsClosed m (schema_of declared false t)
      → BodyIsClosed m (documented_body declared t)
  documented_body-IsClosed (pointer _) m h = tt
  documented_body-IsClosed text m h = tt
  documented_body-IsClosed number m h = tt
  documented_body-IsClosed boolean m h = tt
  documented_body-IsClosed map_type m h = tt
  documented_body-IsClosed time m h = (h, tt)
  documented_body-IsClosed (integer _) m h = tt
  documented_body-IsClosed (slice _) m h = tt
  documented_body-IsClosed (unnamed_struct fields) m h = body_for-IsClosed m _ fields h
  documented_body-IsClosed (named_struct n) m h = body_for-IsClosed m _ (declared n).fields h
  documented_body-IsClosed other m h = tt

  pub operation-typed :
      (path : Str) (req_type res_type : ReflectType)
      → operation path
          (request_body_of declared req_type (schema_of declared false req_type))
          (codes "OK")
          (codes "application/json")
          (schema_of declared false res_type)
        ≡ typed_operation declared path req_type res_type
  operation-typed path req_type res_type =
      ap
        (λ body.
          operation path body (codes "OK") (codes "application/json")
            (schema_of declared false res_type))
        (request_body_of-documented_body req_type)
