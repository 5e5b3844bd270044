-- ===== src/Openapi/Reflection/Closed.antt =====
-- Schemas whose references all lead to a schema of the registry.
use amaro.Prelude.{◌≡◌, refl, ◌⊎◌, inl, inr, Bool-cases, [], ◌++◌, some, Str, str_eq}
use amaro.Prelude.Assoc.{load, store, load-store}
use amaro.Openapi.{
  Schema, schema, Items, no_items, items, Properties, no_properties, property, set_property,
}
use amaro.Openapi.Reflection.{Schemas, schemas_path}

-- A reference that is empty or leads to a registered schema.
abbrev pub Leads : Schemas → Str → Type 0
Leads m r =
    (r ≡ []) ⊎ ((name : Str) × (s : Schema) × (r ≡ schemas_path ++ name) × (load name m ≡ some s))

-- Every reference in the schema leads to a registered schema.
unfoldable mutual
  pub IsClosed : Schemas → Schema → Type 0
  IsClosed m (schema a is ps) = Leads m a.reference × ItemsAreClosed m is × PropertiesAreClosed m ps

  pub ItemsAreClosed : Schemas → Items → Type 0
  ItemsAreClosed m no_items = Unit
  ItemsAreClosed m (items s) = IsClosed m s

  pub PropertiesAreClosed : Schemas → Properties → Type 0
  PropertiesAreClosed m no_properties = Unit
  PropertiesAreClosed m (property name s ps) = IsClosed m s × PropertiesAreClosed m ps

-- What is registered stays registered.
abbrev pub Keeps : Schemas → Schemas → Type 0
Keeps m m' =
    (name : Str) (s : Schema) → load name m ≡ some s → (s' : Schema) × (load name m' ≡ some s')

pub Keeps-store : (key : Str) (v : Schema) (m : Schemas) → Keeps m (store key v m)
Keeps-store key v m name s h = elim (Bool-cases (str_eq key name)) [
  | inl e ↦ (v, rw (load-store key name v m, e) refl)
  | inr e ↦ (s, rw (load-store key name v m, e) h)
]

Leads-Keeps : (m m' : Schemas) (r : Str) → Keeps m m' → Leads m r → Leads m' r
Leads-Keeps m m' r k (inl e) = inl e
Leads-Keeps m m' r k (inr (name, s, e, h)) = let (s', h') = k name s h in inr (name, s', e, h')

mutual
  unfolding IsClosed

  pub IsClosed-Keeps : (m m' : Schemas) (s : Schema) → Keeps m m' → IsClosed m s → IsClosed m' s
  IsClosed-Keeps m m' (schema a is ps) k (r, hi, hp) = (
    Leads-Keeps m m' a.reference k r,
    ItemsAreClosed-Keeps m m' is k hi,
    PropertiesAreClosed-Keeps m m' ps k hp,
  )

  ItemsAreClosed-Keeps :
      (m m' : Schemas) (is : Items) → Keeps m m' → ItemsAreClosed m is → ItemsAreClosed m' is
  ItemsAreClosed-Keeps m m' no_items k h = tt
  ItemsAreClosed-Keeps m m' (items s) k h = IsClosed-Keeps m m' s k h

  pub PropertiesAreClosed-Keeps :
      (m m' : Schemas) (ps : Properties)
      → Keeps m m'
      → PropertiesAreClosed m ps
      → PropertiesAreClosed m' ps
  PropertiesAreClosed-Keeps m m' no_properties k h = tt
  PropertiesAreClosed-Keeps m m' (property name s ps) k (h, hs) =
      (IsClosed-Keeps m m' s k h, PropertiesAreClosed-Keeps m m' ps k hs)

pub PropertiesAreClosed-set_property :
    (m : Schemas) (name : Str) (s : Schema) (ps : Properties)
    → IsClosed m s
    → PropertiesAreClosed m ps
    → PropertiesAreClosed m (set_property name s ps)
unfolding IsClosed set_property
PropertiesAreClosed-set_property m name s no_properties h hs = (h, tt)
PropertiesAreClosed-set_property m name s (property other' t ps) h (ht, hs) =
    elim (Bool-cases (str_eq other' name)) [
      | inl e ↦ rw e (h, hs)
      | inr e ↦ rw e (ht, PropertiesAreClosed-set_property m name s ps h hs)
    ]
