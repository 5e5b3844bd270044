-- ===== src/Openapi/Complete/Built.antt =====
-- The documents that the package's functions build.
use amaro.Prelude.{ℕ, ◌≡◌, refl, inl, List, some, Str}
use amaro.Prelude.Assoc.{load}
use amaro.Errors.{Error}
use amaro.Context.{Handler}
use amaro.Openapi.{Schema, Generator, Info}
use amaro.Openapi.Routes.{new_generator}
use amaro.Openapi.Routes.Documented.{operation_of}
use amaro.Openapi.Reflection.{Declaration, ReflectType, Schemas, generate_schema, no_attributes}
use amaro.Openapi.Reflection.Closed.{IsClosed}
use amaro.Openapi.Typed.{wrapped, wrap_handler, wrap_stream}
use amaro.Openapi.Comments.{DocType, apply_comments}
use amaro.Openapi.Comments.Described.{apply_comments-IsComplete}
use amaro.Openapi.Complete.{IsComplete, with_schemas, add_route-IsComplete}
use amaro.Openapi.Complete.Wrapping.{
  Extended-IsComplete, generate_schema-yields, wrap_handler-IsComplete,
}

pub new_generator-IsComplete : (info : Info) → IsComplete (new_generator info).spec
unfolding new_generator operation_of load
new_generator-IsComplete info = (λ key s e. absurd cc, λ verb p op e. absurd cc)

module _ (S : Type 0) (declared : ℕ → Declaration) (trim_space : Str → Str)
    (parse_dir : Str → Error × List (List DocType)) where
  -- The generators that the package's functions make, one call after another.
  pub data IsBuilt : Generator → Type 0 where
    new : (info : Info) → IsBuilt (new_generator info)
    generated :
        (fuel : ℕ) (t : ReflectType) (g : Generator) (s : Schema) (m : Schemas)
        → IsBuilt g
        → generate_schema declared fuel t g.spec.components.schemas ≡ some (s, m)
        → IsBuilt (with_schemas m g)
    handled :
        (fuel : ℕ) (req_type res_type : ReflectType) (method path : Str)
        (handler handler' : Handler S) (g g' : Generator)
        → IsBuilt g
        → wrap_handler declared fuel (some req_type) (some res_type) method path handler g
          ≡ wrapped handler' g'
        → IsBuilt g'
    streamed :
        (method path : Str) (handler : Handler S) (g : Generator)
        → IsBuilt g
        → IsBuilt (wrap_stream method path handler g).1
    commented :
        (root : Str) (g : Generator)
        → IsBuilt g
        → IsBuilt (apply_comments trim_space parse_dir root g).1

  -- In the document of a generator that was made by NewGenerator and changed by calls of
  -- GenerateSchema, WrapHandler, WrapStream and ApplyComments, in any order and number and for any
  -- types, every reference leads to a schema of the document.
  pub IsBuilt-IsComplete : (g : Generator) → IsBuilt g → IsComplete g.spec
  unfolding wrap_stream IsClosed no_attributes
  IsBuilt-IsComplete g (new info) = new_generator-IsComplete info
  IsBuilt-IsComplete g (generated fuel t g' s m b e) =
      Extended-IsComplete declared m g'
        (generate_schema-yields declared fuel t g'.spec.components.schemas s m e).2
        (IsBuilt-IsComplete g' b)
  IsBuilt-IsComplete g (handled fuel req_type res_type method path handler handler' g' made b e) =
      wrap_handler-IsComplete declared fuel req_type res_type method path handler handler' g' made e
        (IsBuilt-IsComplete g' b)
  IsBuilt-IsComplete g (streamed method path handler g' b) =
      add_route-IsComplete method path _ g' (tt, tt, (((inl refl, tt, tt), tt), tt))
        (IsBuilt-IsComplete g' b)
  IsBuilt-IsComplete g (commented root g' b) =
      apply_comments-IsComplete trim_space parse_dir root g' (IsBuilt-IsComplete g' b)
