-- ===== src/Openapi/Complete/Wrapping.antt =====
-- WrapHandler on complete documents.
use amaro.Prelude.{
  ℕ, ◌≤◌, ◌≡◌, ◌∙◌, sym, refl, subst, ap, inl, inr, Option-cases, true, false, ◌&&◌, List, some,
  Str, str_eq, if◌then◌else◌, arith,
}
use amaro.Http.Method.{Verb, name}
use amaro.Strings.{to_upper}
use amaro.Context.{Handler}
use amaro.Openapi.{Schema, Generator}
use amaro.Openapi.Routes.{add_route}
use amaro.Openapi.Routes.Documented.{operation_of, add_route-documented}
use amaro.Openapi.Reflection.{Declaration, ReflectType, Schemas, generate_schema}
use amaro.Openapi.Reflection.Described.{schema_of, struct_schema}
use amaro.Openapi.Reflection.Closed.{IsClosed, IsClosed-Keeps}
use amaro.Openapi.Reflection.Extended.{Makes, Extended, Extended-trans, Extended-Keeps}
use amaro.Openapi.Reflection.Made.{generate_schema-Makes}
use amaro.Openapi.Reflection.Enough.{member, missing, missing-Keeps, generate_schema-made}
use amaro.Openapi.Typed.{Wrapped, wrapped, out_of_fuel, on_schema, register_operation, wrap_handler}
use amaro.Openapi.Complete.{
  RegistryIsClosed, IsComplete, with_schemas, with_schemas-IsComplete, add_route-IsComplete,
}
use amaro.Openapi.Complete.Operations.{typed_operation, documented_body-IsClosed, operation-typed}

Extended-RegistryIsClosed :
    (declared : ℕ → Declaration) (m m' : Schemas)
    → Extended declared m m'
    → RegistryIsClosed m
    → RegistryIsClosed m'
Extended-RegistryIsClosed declared m m' x h key s e = elim (x key) [
  | inl same ↦ IsClosed-Keeps m m' s (Extended-Keeps declared m m' x) (h key s (sym same ∙ e))
  | inr (_, (n, _, e', c)) ↦
      let same : struct_schema declared n ≡ s = cc in subst (IsClosed m') same c
]

pub Extended-IsComplete :
    (declared : ℕ → Declaration) (m' : Schemas) (g : Generator)
    → Extended declared g.spec.components.schemas m'
    → IsComplete g.spec
    → IsComplete (with_schemas m' g).spec
Extended-IsComplete declared m' g x h =
    with_schemas-IsComplete m' g (Extended-Keeps declared g.spec.components.schemas m' x)
      (Extended-RegistryIsClosed declared g.spec.components.schemas m' x h.0) h

pub on_schema-made :
    {S : Type 0} (declared : ℕ → Declaration) (fuel : ℕ) (t : ReflectType) (g : Generator)
    (f : Schema → Generator → Wrapped S) (s : Schema) (m : Schemas)
    → generate_schema declared fuel t g.spec.components.schemas ≡ some (s, m)
    → on_schema declared fuel t g f ≡ f s (with_schemas m g)
unfolding on_schema
on_schema-made declared fuel t g f s m e = rw (e, on_schema) refl

-- Where `names` has the name of every declared struct type, the fuel is the number of those that are
-- not registered, or more, and the document is complete: for types that are not interfaces, WrapHandler
-- returns the handler and leaves a document that is complete, with a registry that is extended by
-- schemas of declared types. It differs only at the method and the path, where it has the operation
-- with the path as its summary, a required JSON body with the request type's schema exactly if this
-- type is a struct with fields, and the response 200 with the schema of the response's type.
pub wrap_handler-documented :
    {S : Type 0} (declared : ℕ → Declaration) (names : List Str) (fuel : ℕ)
    (req_type res_type : ReflectType) (method path : Str) (handler : Handler S) (g : Generator)
    → ((n : ℕ) → member (declared n).name names ≡ true)
    → missing names g.spec.components.schemas ≤ fuel
    → IsComplete g.spec
    → (g' : Generator) × (wrap_handler declared fuel
          (some req_type)
          (some res_type)
          method
          path
          handler
          g
        ≡ wrapped handler g')
      × IsComplete g'.spec
      × Extended declared g.spec.components.schemas g'.spec.components.schemas
      × ((verb : Verb) (p : Str)
          → operation_of verb p g'.spec ≡ (
              if str_eq (to_upper method) (name verb) && str_eq path p
              then some (typed_operation declared path req_type res_type)
              else operation_of verb p g.spec))
unfolding wrap_handler operation_of add_route
wrap_handler-documented declared names fuel req_type res_type method path handler g covers h hg =
    let m = g.spec.components.schemas in
    let (m1, e1, c1, x1) = generate_schema-made declared names fuel req_type m covers h in
    let h1 : missing names m1 ≤ fuel =
      omega (arith, h, missing-Keeps names m m1 (Extended-Keeps declared m m1 x1)) in
    let (m2, e2, c2, x2) = generate_schema-made declared names fuel res_type m1 covers h1 in
    let x : Extended declared m m2 = Extended-trans declared m m1 m2 x1 x2 in
    let op = typed_operation declared path req_type res_type in
    let g2 : Generator = with_schemas m2 g in
    (
      add_route method path op g2,
      on_schema-made declared fuel req_type g
            (λ s g'.
              on_schema declared fuel res_type g'
                (register_operation declared fuel method path handler req_type s))
            _ m1 e1
          ∙ on_schema-made declared fuel res_type (with_schemas m1 g)
              (register_operation declared fuel method path handler req_type
                (schema_of declared false req_type))
              _ m2 e2
          ∙ ap (λ o. wrapped handler (add_route method path o g2))
              (operation-typed declared path req_type res_type),
      add_route-IsComplete method path op g2
          (
            tt,
            documented_body-IsClosed declared req_type m2
                (IsClosed-Keeps m1 m2 _ (Extended-Keeps declared m1 m2 x2) c1),
            ((c2, tt), tt),
          )
          (Extended-IsComplete declared m2 g x hg),
      x,
      λ verb p. add_route-documented verb p method path op g2,
    )

-- Whatever the fuel is: a registration that does not run out of it leaves a complete document complete.
module _ (declared : ℕ → Declaration) (fuel : ℕ) where
  pub generate_schema-yields :
      (t : ReflectType) (m : Schemas) (s : Schema) (m' : Schemas)
      → generate_schema declared fuel t m ≡ some (s, m')
      → Makes declared (schema_of declared false t) m (some (s, m'))
  generate_schema-yields t m s m' e =
      subst (Makes declared (schema_of declared false t) m) e
        (generate_schema-Makes declared fuel t m)

module _ {S : Type 0} (declared : ℕ → Declaration) (fuel : ℕ) where
  -- The call was given enough fuel, and what follows had a complete document and a closed schema.
  on_schema-returns :
      (t : ReflectType) (g g' : Generator) (handler' : Handler S)
      (f : Schema → Generator → Wrapped S)
      → on_schema declared fuel t g f ≡ wrapped handler' g'
      → IsComplete g.spec
      → (s : Schema) × (m : Schemas) × (f s (with_schemas m g) ≡ wrapped handler' g')
        × (s ≡ schema_of declared false t)
        × IsClosed m (schema_of declared false t)
        × Extended declared g.spec.components.schemas m
        × IsComplete (with_schemas m g).spec
  unfolding on_schema
  on_schema-returns t g g' handler' f h complete =
      elim (Option-cases (generate_schema declared fuel t g.spec.components.schemas)) [
        | inl e ↦
            let empty : on_schema declared fuel t g f ≡ out_of_fuel = rw (e, on_schema) refl in
            absurd cc
        | inr ((s, m), e) ↦
            let made = generate_schema-yields declared fuel t g.spec.components.schemas s m e in
            (
              s,
              m,
              sym (on_schema-made declared fuel t g f s m e) ∙ h,
              made.0,
              made.1,
              made.2,
              Extended-IsComplete declared m g made.2 complete,
            )
      ]

  pub wrap_handler-IsComplete :
      (req_type res_type : ReflectType) (method path : Str) (handler handler' : Handler S)
      (g g' : Generator)
      → wrap_handler declared fuel (some req_type) (some res_type) method path handler g
        ≡ wrapped handler' g'
      → IsComplete g.spec
      → IsComplete g'.spec
  unfolding wrap_handler
  wrap_handler-IsComplete req_type res_type method path handler handler' g g' h complete =
      let (s1, m1, h1, q1, c1, _, k1) =
        on_schema-returns req_type g g' handler'
          (λ s g'.
            on_schema declared fuel res_type g'
              (register_operation declared fuel method path handler req_type s))
          h complete in
      let g1 : Generator = with_schemas m1 g in
      let (s2, m2, h2, q2, c2, x2, k2) =
        on_schema-returns res_type g1 g' handler'
          (register_operation declared fuel method path handler req_type s1) h1 k1 in
      let g2 : Generator = with_schemas m2 g1 in
      let op = typed_operation declared path req_type res_type in
      let registered : wrapped handler (add_route method path op g2) ≡ wrapped handler' g' =
        ap (λ o. wrapped handler (add_route method path o g2))
          (sym (operation-typed declared path req_type res_type))
        ∙ ap
            (λ s.
              register_operation declared fuel method path handler req_type s
                (schema_of declared false res_type) g2)
            (sym q1)
        ∙ ap (λ s. register_operation declared fuel method path handler req_type s1 s g2) (sym q2)
        ∙ h2 in
      let same : add_route method path op g2 ≡ g' = cc in
      subst (λ (g : Generator). IsComplete g.spec) same
        (add_route-IsComplete method path op g2
          (
            tt,
            documented_body-IsClosed declared req_type m2
                (IsClosed-Keeps m1 m2 _ (Extended-Keeps declared m1 m2 x2) c1),
            ((c2, tt), tt),
          )
          k2)
