-- ===== src/Openapi/Typed.antt =====
-- addons/openapi/typed.go (Bind, Handle, WrapHandler) and stream.go (WrapStream). Parameters: the JSON
-- decoder and encoder, and whether a request has a body.
use amaro.Prelude.{ℕ, Bool, true, false, [], ◌∷◌, Option, none, some, Str, codes, if◌then◌else◌}
use amaro.Errors.{Error, nil, is_nil}
use amaro.Http.{Request}
use amaro.Context.{Handler, Act, ◌>>=◌, pure, the_request, write_string, json}
use amaro.Openapi.{Schema, RequestBody, Operation, Generator}
use amaro.Openapi.Routes.{add_route}
use amaro.Openapi.Reflection.{
  ReflectType, time, unnamed_struct, named_struct, Fields, end_fields, field_and, Declaration,
  simple, generate_schema,
}

module _ {Req Res : Type 0} (has_body : Request → Bool) (zero_req : Req)
    (decode : Request → Error × Req) (encode : Option Res → Error × Str) where
  -- Bind: the error, and the value if there is none. Close is not modelled.
  unfoldable pub bind : {S : Type 0} → Act S (Error × Option Req)
  unfolding the_request
  bind = do
    r ← the_request
    let (err, req) = decode r
    if has_body r
        then if is_nil err then pure (nil, some req) else pure (err, none)
        else pure (nil, some zero_req)

  module _ {S : Type 0} (handler : Req → Act S (Error × Option Res)) where
    abbrev respond : Error × Option Res → Act S Error
    respond (err, res) = if is_nil err then json 200 (encode res) else pure err

    abbrev handle_bound : Error × Option Req → Act S Error
    unfolding json write_string
    handle_bound (_, none) = write_string 400 (codes "Invalid Request")
    handle_bound (_, some req) = handler req >>= respond

    -- The handler that WrapHandler returns.
    unfoldable pub typed_handler : Handler S
    unfolding bind handle_bound
    typed_handler = bind >>= handle_bound

-- An operation without what the literals leave out.
abbrev pub operation : Str → Option RequestBody → Str → Str → Schema → Operation
operation summary body description media s = record {
  tags = [];
  summary = summary;
  description = [];
  operation_id = [];
  parameters = [];
  request_body = body;
  responses =
      (
        codes "200",
        record { description = description; content = (media, record { schema = some s }) ∷ [] },
      )
      ∷ [];
  security = [];
}

unfoldable pub wrap_stream :
    {S : Type 0} → Str → Str → Handler S → Generator → Handler S × Generator
unfolding add_route
wrap_stream method path handler g = (
  handler,
  add_route method path
      (operation path none (codes "Stream Response") (codes "text/event-stream")
        (simple (codes "string") []))
      g,
)

-- What a registration comes to: a handler and the generator afterwards, the panic of a nil type, or
-- no fuel left.
pub data Wrapped (S : Type 0) : Type 0 where
  wrapped : Handler S → Generator → Wrapped S
  nil_type : Wrapped S
  out_of_fuel : Wrapped S

unfoldable pub has_fields : Fields → Bool
has_fields end_fields = false
has_fields (field_and _ _ _) = true

module _ (declared : ℕ → Declaration) where
  -- A struct with fields has a body in the document.
  unfoldable pub has_body_schema : ReflectType → Bool
  unfolding has_fields
  has_body_schema time = true
  has_body_schema (unnamed_struct fields) = has_fields fields
  has_body_schema (named_struct n) = has_fields (declared n).fields
  has_body_schema _ = false

  unfoldable pub request_body_of : ReflectType → Schema → Option RequestBody
  unfolding has_body_schema
  request_body_of t s =
      if has_body_schema t
      then some (record {
        description = codes "Request Body";
        content = (codes "application/json", record { schema = some s }) ∷ [];
        required = true;
      })
      else none

module _ (declared : ℕ → Declaration) (fuel : ℕ) where
  -- GenerateSchema of a value whose type is not nil, and what is done with the schema.
  unfoldable pub on_schema :
      {S : Type 0} → ReflectType → Generator → (Schema → Generator → Wrapped S) → Wrapped S
  unfolding generate_schema
  on_schema t g f = elim (generate_schema declared fuel t g.spec.components.schemas) [
    | none ↦ out_of_fuel
    | some (s, m) ↦ f s (record g {
      spec = record g.spec { components = record g.spec.components { schemas = m } };
    })
  ]

  -- AddRoute of the operation with the two schemas, and the handler that WrapHandler returns.
  abbrev pub register_operation :
      {S : Type 0} → Str → Str → Handler S → ReflectType → Schema → Schema → Generator → Wrapped S
  unfolding request_body_of add_route
  register_operation method path handler req_type req_schema res_schema g = wrapped handler (
      add_route method path
        (operation path (request_body_of declared req_type req_schema) (codes "OK")
          (codes "application/json") res_schema)
        g)

  -- WrapHandler for the types of Req and Res, which are `none` where they are interfaces. The
  -- operation is added to the generator as both calls leave it.
  unfoldable pub wrap_handler :
      {S : Type 0}
      → Option ReflectType
      → Option ReflectType
      → Str
      → Str
      → Handler S
      → Generator
      → Wrapped S
  unfolding on_schema register_operation
  wrap_handler none res_type method path handler g = nil_type
  wrap_handler (some req_type) none method path handler g = on_schema req_type g (λ s g'. nil_type)
  wrap_handler (some req_type) (some res_type) method path handler g =
      on_schema req_type g (λ req_schema g'.
        on_schema res_type g' (register_operation method path handler req_type req_schema))
