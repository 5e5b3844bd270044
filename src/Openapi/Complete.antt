-- ===== src/Openapi/Complete.antt =====
-- Documents in which every reference leads to a schema of the document, and the generators that the
-- package's functions build.
pub mod Operations
pub mod Wrapping
pub mod Built
use amaro.Prelude.{
  ◌≡◌, refl, subst, ◌&&◌, inl, inr, true, false, Bool-cases, List, [], ◌∷◌, Option, none, some, Str,
  codes, str_eq, if◌then◌else◌, arith, All,
}
use amaro.Prelude.Assoc.{Assoc, load, store}
use amaro.Http.Method.{Verb, name}
use amaro.Strings.{to_upper}
use amaro.Openapi.{
  Schema, MediaType, Parameter, RequestBody, Response, Operation, OpenApi, Generator,
}
use amaro.Openapi.Routes.{add_route}
use amaro.Openapi.Routes.Documented.{operation_of, add_route-documented}
use amaro.Openapi.Reflection.{Schemas}
use amaro.Openapi.Reflection.Closed.{IsClosed, Keeps, IsClosed-Keeps}

abbrev pub MayBeClosed : Schemas → Option Schema → Type 0
MayBeClosed m none = Unit
MayBeClosed m (some s) = IsClosed m s

abbrev pub ContentIsClosed : Schemas → Assoc MediaType → Type 0
ContentIsClosed m = All (λ (entry : Str × MediaType). MayBeClosed m entry.1.schema)

abbrev pub BodyIsClosed : Schemas → Option RequestBody → Type 0
BodyIsClosed m none = Unit
BodyIsClosed m (some body) = ContentIsClosed m body.content

-- The schemas of the parameters, of the request's body and of the responses are closed.
abbrev pub OperationIsClosed : Schemas → Operation → Type 0
OperationIsClosed m op =
    All (λ (p : Parameter). MayBeClosed m p.schema) op.parameters
    × BodyIsClosed m op.request_body
    × All (λ (entry : Str × Response). ContentIsClosed m entry.1.content) op.responses

abbrev pub RegistryIsClosed : Schemas → Type 0
RegistryIsClosed m = (key : Str) (s : Schema) → load key m ≡ some s → IsClosed m s

-- Every reference in a registered schema or an operation leads to a registered schema.
abbrev pub IsComplete : OpenApi → Type 0
IsComplete spec =
    RegistryIsClosed spec.components.schemas
    × ((verb : Verb) (path : Str) (op : Operation)
        → operation_of verb path spec ≡ some op
        → OperationIsClosed spec.components.schemas op)

All-implies {ℓ} :
    {A : Type ℓ} (P Q : A → Type 0) (xs : List A) → ((x : A) → P x → Q x) → All P xs → All Q xs
All-implies P Q [] k h = tt
All-implies P Q (x ∷ xs) k (h, hs) = (k x h, All-implies P Q xs k hs)

MayBeClosed-Keeps :
    (m m' : Schemas) (o : Option Schema) → Keeps m m' → MayBeClosed m o → MayBeClosed m' o
MayBeClosed-Keeps m m' none k h = tt
MayBeClosed-Keeps m m' (some s) k h = IsClosed-Keeps m m' s k h

ContentIsClosed-Keeps :
    (m m' : Schemas) (content : Assoc MediaType)
    → Keeps m m'
    → ContentIsClosed m content
    → ContentIsClosed m' content
ContentIsClosed-Keeps m m' content k h =
    All-implies _ _ content (λ entry. MayBeClosed-Keeps m m' entry.1.schema k) h

BodyIsClosed-Keeps :
    (m m' : Schemas) (o : Option RequestBody) → Keeps m m' → BodyIsClosed m o → BodyIsClosed m' o
BodyIsClosed-Keeps m m' none k h = tt
BodyIsClosed-Keeps m m' (some body) k h = ContentIsClosed-Keeps m m' body.content k h

pub OperationIsClosed-Keeps :
    (m m' : Schemas) (op : Operation)
    → Keeps m m'
    → OperationIsClosed m op
    → OperationIsClosed m' op
OperationIsClosed-Keeps m m' op k (hp, hb, hr) = (
  All-implies _ _ op.parameters (λ p. MayBeClosed-Keeps m m' p.schema k) hp,
  BodyIsClosed-Keeps m m' op.request_body k hb,
  All-implies _ _ op.responses (λ entry. ContentIsClosed-Keeps m m' entry.1.content k) hr,
)

pub add_route-IsComplete :
    (method path : Str) (op : Operation) (g : Generator)
    → OperationIsClosed g.spec.components.schemas op
    → IsComplete g.spec
    → IsComplete (add_route method path op g).spec
unfolding add_route
add_route-IsComplete method path op g c (hm, ho) = (
  hm,
  λ verb p op' e. elim (Bool-cases (str_eq (to_upper method) (name verb) && str_eq path p)) [
    | inl t ↦
        let same : op ≡ op' = ground (arith, add_route-documented verb p method path op g) in
        subst (OperationIsClosed g.spec.components.schemas) same c
    | inr t ↦ ho verb p op' (ground (arith, add_route-documented verb p method path op g))
  ],
)

-- The generator with another registry.
abbrev pub with_schemas : Schemas → Generator → Generator
with_schemas m g = record g {
  spec = record g.spec { components = record g.spec.components { schemas = m } };
}

pub with_schemas-IsComplete :
    (m' : Schemas) (g : Generator)
    → Keeps g.spec.components.schemas m'
    → RegistryIsClosed m'
    → IsComplete g.spec
    → IsComplete (with_schemas m' g).spec
unfolding operation_of
with_schemas-IsComplete m' g k h (_, ho) =
    (h, λ verb p op e. OperationIsClosed-Keeps g.spec.components.schemas m' op k (ho verb p op e))
