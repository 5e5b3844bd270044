-- ===== src/Tests/Documents.antt =====
-- OpenAPI documents: a person has friends, who are persons.
use amaro.Prelude.{
  ℕ, ◌≡◌, refl, true, false, ◌&&◌, [], ◌∷◌, Option, none, some, map, List, Str, codes, str_eq,
  arith, if◌then◌else◌,
}
use amaro.Prelude.Assoc.{load, store}
use amaro.Errors.{Error, nil}
use amaro.Http.Method
use amaro.Strings.{to_upper, split}
use amaro.Openapi.{Info, Operation, Generator, Schema}
use amaro.Openapi.Routes.{new_generator, add_route}
use amaro.Openapi.Routes.Documented.{operation_of, add_route-documented}
use amaro.Openapi.Reflection.{
  StructField, text, pointer, slice, named_struct, end_fields, field_and, Declaration,
  generate_schema, refer_to, Schemas,
}
use amaro.Openapi.Reflection.Described.{schema_of}
use amaro.Openapi.Reflection.Closed.{IsClosed}
use amaro.Openapi.Reflection.Extended.{Extended}
use amaro.Openapi.Reflection.Enough.{missing, generate_schema-made}
use amaro.Openapi.Reflection.Repeated.{generate_schema-repeated}
use amaro.Openapi.Typed.{wrapped, wrap_handler, wrap_stream}
use amaro.Openapi.Comments.{DocType, apply_comments}
use amaro.Openapi.Complete.{IsComplete}
use amaro.Openapi.Complete.Operations.{typed_operation}
use amaro.Openapi.Complete.Wrapping.{wrap_handler-documented}
use amaro.Openapi.Complete.Built.{
  new, streamed, commented, new_generator-IsComplete, IsBuilt-IsComplete,
}
use amaro.Tests.{hello}

abbrev exported_field : Str → Str → StructField
exported_field name tag = record { name = name; exported = true; json_tag = tag }

abbrev person : Str
person = codes "Person"

abbrev people : ℕ → Declaration
people n = record {
  name = person;
  fields = field_and (exported_field (codes "Name") (codes "name,omitempty")) text (
      field_and (exported_field (codes "Friends") []) (slice (pointer (named_struct 0)))
        end_fields);
}

abbrev all_names : List Str
all_names = person ∷ []

abbrev service : Info
service = record { title = codes "People"; description = []; version = codes "1" }

abbrev people_document : Generator
unfolding new_generator
people_document = new_generator service

-- The type of the parameter `name,omitempty` is found under `name`.
person_reference : schema_of people false (pointer (named_struct 0)) ≡ refer_to person
unfolding schema_of
person_reference = refl

generate_schema-made_example :
    (m' : _) × (generate_schema people 1 (slice (named_struct 0)) []
      ≡ some (schema_of people false (slice (named_struct 0)), m'))
    × IsClosed m' (schema_of people false (slice (named_struct 0)))
    × Extended people [] m'
unfolding missing str_eq load
generate_schema-made_example =
    generate_schema-made people all_names 1 (slice (named_struct 0)) [] (λ n. refl) (omega arith)

generate_schema-repeated_example :
    (s : Schema) × (m' : Schemas) × (generate_schema people 1 (slice (named_struct 0)) []
      ≡ some (s, m'))
    × (generate_schema people 0 (slice (named_struct 0)) m' ≡ some (s, m'))
unfolding missing str_eq load
generate_schema-repeated_example =
    generate_schema-repeated people all_names 1 0 (slice (named_struct 0)) [] (λ n. refl)
      (omega arith)

abbrev people_path : Str
people_path = codes "/people"

abbrev list_people : Operation
list_people = typed_operation people people_path (named_struct 0) (slice (named_struct 0))

add_route-documented_example :
    operation_of Method.get_verb people_path
      (add_route (codes "get") people_path list_people people_document).spec
    ≡ (if str_eq (to_upper (codes "get")) Method.get && str_eq people_path people_path
        then some list_people
        else operation_of Method.get_verb people_path people_document.spec)
add_route-documented_example =
    add_route-documented Method.get_verb people_path (codes "get") people_path list_people
      people_document

wrap_handler-documented_example :
    (g' : Generator) × (wrap_handler people 1
        (some (named_struct 0))
        (some (slice (named_struct 0)))
        (codes "post")
        people_path
        hello
        people_document
      ≡ wrapped hello g')
    × IsComplete g'.spec
    × Extended people [] g'.spec.components.schemas
    × ((verb : Method.Verb) (p : Str)
        → operation_of verb p g'.spec ≡ (
            if str_eq (to_upper (codes "post")) (Method.name verb) && str_eq people_path p
            then some list_people
            else operation_of verb p people_document.spec))
unfolding missing str_eq load people_document
wrap_handler-documented_example =
    wrap_handler-documented people all_names 1 (named_struct 0) (slice (named_struct 0))
      (codes "post") people_path hello people_document (λ n. refl) (omega arith)
      (new_generator-IsComplete service)

abbrev no_docs : Str → Error × List (List DocType)
no_docs root = (nil, [])

abbrev live_people : Generator
live_people = (wrap_stream (codes "GET") (codes "/live") hello people_document).1

IsBuilt-IsComplete_example :
    IsComplete (apply_comments (λ s. s) no_docs (codes ".") live_people).1.spec
unfolding people_document new_generator str_eq
IsBuilt-IsComplete_example =
    IsBuilt-IsComplete ℕ people (λ s. s) no_docs
      (apply_comments (λ s. s) no_docs (codes ".") live_people).1
      (commented (codes ".") live_people
        (streamed (codes "GET") (codes "/live") hello people_document (new service)))

abbrev registered_names : Option (Schema × Schemas) → List Str
registered_names none = []
registered_names (some (s, m)) = map (λ (entry : Str × Schema). entry.0) m

-- A person's schema is registered once, although it refers to itself.
one_person : registered_names (generate_schema people 1 (slice (named_struct 0)) []) ≡ person ∷ []
unfolding generate_schema str_eq split load store
one_person = refl
