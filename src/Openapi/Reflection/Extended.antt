-- ===== src/Openapi/Reflection/Extended.antt =====
-- Registries that grow by the schemas of declared types, and `register` as one step of that.
use amaro.Prelude.{
  ℕ, ◌≡◌, refl, sym, ◌∙◌, ◌⊎◌, inl, inr, Bool-cases, Option, none, some, Option-cases, Str, str_eq,
  str_eq_sound,
}
use amaro.Prelude.Assoc.{load, store, load-store, load-store_self}
use amaro.Openapi.{Schema, Properties}
use amaro.Openapi.Reflection.{
  Declaration, Schemas, after, placeholder, simple, refer_to, register, no_attributes,
}
use amaro.Openapi.Reflection.Described.{struct_schema}
use amaro.Openapi.Reflection.Closed.{
  IsClosed, PropertiesAreClosed, Keeps, Keeps-store, IsClosed-Keeps,
}

-- The predicate holds of what is yielded, if anything is.
abbrev pub Yields : {A : Type 0} → (A → Schemas → Type 0) → Option (A × Schemas) → Type 0
Yields P none = Unit
Yields P (some (a, m)) = P a m

pub Yields-after :
    {A B : Type 0} (P : A → Schemas → Type 0) (Q : B → Schemas → Type 0) (o : Option (A × Schemas))
    (f : A → Schemas → Option (B × Schemas))
    → Yields P o
    → ((a : A) (m : Schemas) → P a m → Yields Q (f a m))
    → Yields Q (after o f)
unfolding after
Yields-after P Q none f h k = tt
Yields-after P Q (some (a, m)) f h k = k a m h

pub Yields-map :
    {A : Type 0} (P Q : A → Schemas → Type 0) (o : Option (A × Schemas))
    → Yields P o
    → ((a : A) (m : Schemas) → P a m → Q a m)
    → Yields Q o
Yields-map P Q none h k = tt
Yields-map P Q (some (a, m)) h k = k a m h

module _ (declared : ℕ → Declaration) where
  -- The entry of the name is a declared type's schema, which is closed.
  abbrev pub IsDeclared : Schemas → Str → Type 0
  IsDeclared m name =
      (n : ℕ) × ((declared n).name ≡ name)
      × (load name m ≡ some (struct_schema declared n))
      × IsClosed m (struct_schema declared n)

  -- An entry is as before, or there was none and it is now a declared type's.
  abbrev pub Extended : Schemas → Schemas → Type 0
  Extended m m' =
      (name : Str) → (load name m' ≡ load name m) ⊎ ((load name m ≡ none) × IsDeclared m' name)

  pub Extended-Keeps : (m m' : Schemas) → Extended m m' → Keeps m m'
  Extended-Keeps m m' x name s h = elim (x name) [
    | inl e ↦ (s, e ∙ h)
    | inr (no_entry, _) ↦ absurd cc
  ]

  pub Extended-trans : (m m' m'' : Schemas) → Extended m m' → Extended m' m'' → Extended m m''
  Extended-trans m m' m'' x y name = elim (y name) [
    | inr (no_entry, d) ↦ elim (x name) [
      | inl e ↦ inr (sym e ∙ no_entry, d)
      | inr (_, (n, _, h, _)) ↦ absurd cc
    ]
    | inl e ↦ elim (x name) [
      | inl e' ↦ inl (e ∙ e')
      | inr (no_entry, (n, k, h, c)) ↦ inr (
        no_entry,
        (n, k, e ∙ h, IsClosed-Keeps m' m'' (struct_schema declared n) (Extended-Keeps m' m'' y) c),
      )
    ]
  ]

  abbrev pub IsMade : Schema → Schemas → Schema → Schemas → Type 0
  IsMade s m s' m' = (s' ≡ s) × IsClosed m' s × Extended m m'

  abbrev pub ArePut : Properties → Schemas → Properties → Schemas → Type 0
  ArePut ps m ps' m' = (ps' ≡ ps) × PropertiesAreClosed m' ps × Extended m m'

  -- What is yielded is the schema, closed in the registry that is left, which extends the old one.
  abbrev pub Makes : Schema → Schemas → Option (Schema × Schemas) → Type 0
  Makes s m = Yields (IsMade s m)

  abbrev pub Puts : Properties → Schemas → Option (Properties × Schemas) → Type 0
  Puts ps m = Yields (ArePut ps m)

  pub simple-Makes :
      (kind format : Str) (m : Schemas)
      → Makes (simple kind format) m (some (simple kind format, m))
  unfolding IsClosed no_attributes
  simple-Makes kind format m = (refl, (inl refl, tt, tt), λ name. inl refl)

  -- The placeholder's entry is replaced by the schema that was made, and the others are extended.
  Extended-register :
      (n : ℕ) (m m' : Schemas)
      → load (declared n).name m ≡ none
      → Extended (store (declared n).name placeholder m) m'
      → IsClosed m' (struct_schema declared n)
      → Extended m (store (declared n).name (struct_schema declared n) m')
  Extended-register n m m' no_entry x c name = elim (Bool-cases (str_eq (declared n).name name)) [
    | inl e ↦
        let same : (declared n).name ≡ name = str_eq_sound (declared n).name name e in
        inr (
          rw same at no_entry,
          (n, same, rw (load-store, e) refl, IsClosed-Keeps m' _ _ (Keeps-store _ _ m') c),
        )
    | inr e ↦ elim (x name) [
      | inl e' ↦ inl (rw (load-store, e) (rw (load-store, e) at e'))
      | inr (none', (k, i, h, c')) ↦ inr (
        rw (load-store, e) at none',
        (k, i, rw (load-store, e) h, IsClosed-Keeps m' _ _ (Keeps-store _ _ m') c'),
      )
    ]
  ]

  pub register-Makes :
      (n : ℕ) (struct : Schemas → Option (Schema × Schemas)) (m : Schemas)
      → ((m' : Schemas) → Makes (struct_schema declared n) m' (struct m'))
      → Makes (refer_to (declared n).name) m (register declared (declared n).name struct m)
  unfolding IsClosed no_attributes register
  register-Makes n struct m h = elim (Option-cases (load (declared n).name m)) [
    | inr (s, e) ↦
        rw (e, register) (refl, (inr ((declared n).name, s, refl, e), tt, tt), λ name. inl refl)
    | inl e ↦
        rw (e, register)
          (Yields-after (IsMade (struct_schema declared n) (store (declared n).name placeholder m))
            (IsMade (refer_to (declared n).name) m) (struct (store (declared n).name placeholder m))
            _ (h (store (declared n).name placeholder m))
            (λ s' m' made. registered n m s' m' e made))
  ]
    where
      registered :
          (n : ℕ) (m : Schemas) (s' : Schema) (m' : Schemas)
          → load (declared n).name m ≡ none
          → IsMade (struct_schema declared n) (store (declared n).name placeholder m) s' m'
          → IsMade
              (refer_to (declared n).name)
              m
              (refer_to (declared n).name)
              (store (declared n).name s' m')
      registered n m s' m' e (k, c, x) = rw k (
        refl,
        (inr ((declared n).name, struct_schema declared n, refl, load-store_self _ _ m'), tt, tt),
        Extended-register n m m' e x c,
      )
