-- ===== src/Middlewares/Cors/Origin.antt =====
-- Which origin CORS answers with.
use amaro.Prelude.{
  ◌≡◌, refl, ◌⊎◌, inl, inr, Bool, true, false, List, [], ◌∷◌, none, Str, str_eq, str_eq_iff,
  Option-cases, is_empty, not, ◌||◌, if◌then◌else◌, arith,
}
use amaro.Middlewares.Cors.{CorsConfig, star, origin_in, allow_origin}

origin_in-credentials :
    (origin : Str) (os : List Str)
    → (origin_in true origin os ≡ []) ⊎ (origin_in true origin os ≡ origin)
unfolding origin_in
origin_in-credentials origin [] = inl refl
origin_in-credentials origin (o ∷ os) =
    ground (arith, origin_in-credentials origin os, str_eq_iff o star, str_eq_iff o origin)

-- With credentials allowed, whatever origins are configured: the origin in the answer is the one of
-- the request or none, and so "*" only if the request gives that.
pub allow_origin-credentials :
    (cfg : CorsConfig) (origin : Str)
    → cfg.allow_credentials ≡ true
    → (allow_origin cfg origin ≡ []) ⊎ (allow_origin cfg origin ≡ origin)
unfolding allow_origin
allow_origin-credentials cfg origin h = elim (Option-cases cfg.allow_origin_func) [
  | inl e ↦ rw (e, h, allow_origin) (origin_in-credentials origin cfg.allow_origins)
  | inr (f, e) ↦ rw (e, allow_origin) (by_func (f origin))
]
  where
    by_func : (b : Bool) → ((if b then origin else []) ≡ []) ⊎ ((if b then origin else []) ≡ origin)
    by_func true = inr refl
    by_func false = inl refl

-- The text is one of the list.
abbrev pub listed : Str → List Str → Bool
listed s [] = false
listed s (o ∷ os) = str_eq o s || listed s os

origin_in-empty_iff :
    (credentials : Bool) (origin : Str) (os : List Str)
    → is_empty origin ≡ false
    → is_empty (origin_in credentials origin os) ≡ not (listed star os || listed origin os)
unfolding origin_in
origin_in-empty_iff credentials origin [] h = refl
origin_in-empty_iff credentials origin (o ∷ os) h =
    ground
      (arith, origin_in-empty_iff credentials origin os h, str_eq_iff o star, str_eq_iff o origin)

-- Without a custom function, and for a request that names an origin: the origin is allowed exactly if
-- "*" or the origin itself is configured.
pub allow_origin-allowed_iff :
    (cfg : CorsConfig) (origin : Str)
    → cfg.allow_origin_func ≡ none
    → is_empty origin ≡ false
    → is_empty (allow_origin cfg origin)
      ≡ not (listed star cfg.allow_origins || listed origin cfg.allow_origins)
unfolding allow_origin
allow_origin-allowed_iff cfg origin e h =
    rw (e, allow_origin) (origin_in-empty_iff cfg.allow_credentials origin cfg.allow_origins h)

origin_in-one :
    (credentials : Bool) (origin : Str) (os : List Str)
    → (listed star os || listed origin os) ≡ true
    → (origin_in credentials origin os ≡ origin)
      ⊎ ((origin_in credentials origin os ≡ star) × (credentials ≡ false))
unfolding origin_in
origin_in-one credentials origin [] h = cc
origin_in-one credentials origin (o ∷ os) h =
    ground (arith, origin_in-one credentials origin os, str_eq_iff o star, str_eq_iff o origin, h)

-- The origin that is answered with: the request's, or "*" where no credentials are allowed.
pub allow_origin-one :
    (cfg : CorsConfig) (origin : Str)
    → cfg.allow_origin_func ≡ none
    → (listed star cfg.allow_origins || listed origin cfg.allow_origins) ≡ true
    → (allow_origin cfg origin ≡ origin)
      ⊎ ((allow_origin cfg origin ≡ star) × (cfg.allow_credentials ≡ false))
unfolding allow_origin
allow_origin-one cfg origin e h =
    rw (e, allow_origin) (origin_in-one cfg.allow_credentials origin cfg.allow_origins h)
