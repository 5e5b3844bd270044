-- ===== src/Middlewares/Cors.antt =====
-- middlewares/cors.go. AllowOriginFunc is taken for a function without effects, and MaxAge, which the
-- code only takes over when it is positive, for a natural number.
pub mod Origin
pub mod Requests
use amaro.Prelude.{
  ℕ, ◌≡◌, Bool, true, false, ◌&&◌, ◌||◌, List, [], ◌∷◌, ◌++◌, Option, none, some, Str, codes,
  str_eq, ltb, is_empty, if◌then◌else◌,
}
use amaro.Prelude.Decimal.{itoa}
use amaro.Strings.{join}
use amaro.Errors.{Error}
use amaro.Http.{Header, Request, header_get, header_set, header_add, on_header}
use amaro.Http.Method
use amaro.Context.{
  Context, Act, Handler, Middleware, ◌>>=◌, ◌>>◌, pure, when, the_request, on_writer, set_header,
  write_string,
}

pub record CorsConfig : Type 0 where
  pub allow_origins : List Str
  -- nil is `none`
  pub allow_origin_func : Option (Str → Bool)
  pub allow_methods : List Str
  pub allow_headers : List Str
  pub allow_credentials : Bool
  pub expose_headers : List Str
  pub max_age : ℕ

abbrev allowed_methods_default : List Str
allowed_methods_default =
    codes "GET" ∷ codes "HEAD" ∷ codes "PUT" ∷ codes "PATCH" ∷ codes "POST" ∷ codes "DELETE" ∷ []

abbrev pub default_cors_config : CorsConfig
default_cors_config = record {
  allow_origins = codes "*" ∷ [];
  allow_origin_func = none;
  allow_methods = allowed_methods_default;
  allow_headers =
      codes "Origin" ∷ codes "Content-Length" ∷ codes "Content-Type" ∷ codes "Authorization" ∷ [];
  allow_credentials = false;
  expose_headers = [];
  max_age = 86400;
}

abbrev filled {ℓ} : {A : Type ℓ} → List A → List A → List A
filled [] default = default
filled given default = given

abbrev given_func : Option (Str → Bool) → Option (Str → Bool) → Option (Str → Bool)
given_func none default = default
given_func (some f) default = some f

-- The first configuration given, with the defaults where it says nothing.
unfoldable pub merge : List CorsConfig → CorsConfig
merge [] = default_cors_config
merge (c ∷ _) = record {
  allow_origins = filled c.allow_origins default_cors_config.allow_origins;
  allow_origin_func = given_func c.allow_origin_func default_cors_config.allow_origin_func;
  allow_methods = filled c.allow_methods default_cors_config.allow_methods;
  allow_headers = filled c.allow_headers default_cors_config.allow_headers;
  allow_credentials = c.allow_credentials || default_cors_config.allow_credentials;
  expose_headers = filled c.expose_headers default_cors_config.expose_headers;
  max_age = if ltb 0 c.max_age then c.max_age else default_cors_config.max_age;
}

abbrev pub star : Str
star = b'*' ∷ []

-- The loop over AllowOrigins; "" means not allowed.
origin_in : Bool → Str → List Str → Str
unfolding str_eq
origin_in credentials origin [] = []
origin_in credentials origin (o ∷ rest) =
    if str_eq o star && credentials
    then origin
    else if str_eq o star || str_eq o origin
    then o
    else origin_in credentials origin rest

unfoldable pub allow_origin : CorsConfig → Str → Str
unfolding origin_in
allow_origin cfg origin = elim cfg.allow_origin_func [
  | some f ↦ if f origin then origin else []
  | none ↦ origin_in cfg.allow_credentials origin cfg.allow_origins
]

module _ {S : Type 0} where
  -- The headers of a response to an allowed origin.
  allowed_headers : CorsConfig → Str → Act S (Unit {0})
  unfolding when set_header join
  allowed_headers cfg origin = do
    set_header (codes "Access-Control-Allow-Origin") origin
    when cfg.allow_credentials
        (set_header (codes "Access-Control-Allow-Credentials") (codes "true"))
    elim cfg.expose_headers [
      | [] ↦ pure tt
      | _ ↦ set_header (codes "Access-Control-Expose-Headers") (join (codes ",") cfg.expose_headers)
    ]

  -- The answer to a preflight request of an allowed origin.
  preflight_answer : CorsConfig → Act S Error
  unfolding set_header join itoa write_string
  preflight_answer cfg = do
    set_header (codes "Access-Control-Allow-Methods") (join (codes ",") cfg.allow_methods)
    set_header (codes "Access-Control-Allow-Headers") (join (codes ",") cfg.allow_headers)
    set_header (codes "Access-Control-Max-Age") (itoa cfg.max_age)
    write_string 204 []

  cors_decision : CorsConfig → Bool → Str → Middleware S
  unfolding allowed_headers preflight_answer write_string
  cors_decision cfg preflight origin next =
      if is_empty origin
      then if preflight then write_string 204 [] else next
      else do allowed_headers cfg origin; if preflight then preflight_answer cfg else next

  unfoldable pub cors : List CorsConfig → Middleware S
  unfolding merge allow_origin cors_decision the_request on_writer on_header header_add header_get
      str_eq
  cors config next = do
    r ← the_request
    let origin = header_get (codes "Origin") r.header
    on_writer (on_header (header_add (codes "Vary") (codes "Origin")))
    let cfg = merge config
    cors_decision cfg (str_eq r.method Method.options) (allow_origin cfg origin) next
