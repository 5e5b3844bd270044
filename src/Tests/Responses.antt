-- ===== src/Tests/Responses.antt =====
-- Headers of responses: CORS, transport security and request ids.
use amaro.Prelude.{ℕ, ◌≡◌, ◌⊎◌, refl, suc, true, false, [], ◌∷◌, some, Str, codes, str_eq}
use amaro.Http.{Request, Writer, new_writer, header_get}
use amaro.Http.Method
use amaro.Middlewares.Cors.{CorsConfig, default_cors_config, star, merge, cors}
use amaro.Middlewares.Cors.Requests.{
  varied, is_allowed, allowed_origin, cors-preflight, cors-origins,
}
use amaro.Middlewares.Secure.{SecureConfig, default_secure_config}
use amaro.Tests.{hello, greeting, asks, context_of}
use amaro.Prelude.Assoc.{Assoc}
use amaro.Prelude.{ltb, leb, ◌-◌, ◌*◌, ◌/◌, ◌+◌}
use amaro.Context.{Handler, returned}
use amaro.Errors.{nil}
use amaro.Middlewares.Limiter.{Floats, Client}

abbrev partner : Str
partner = codes "https://partner.example"

abbrev stranger : Str
stranger = codes "https://stranger.example"

abbrev trusting : CorsConfig
trusting = record default_cors_config { allow_credentials = true }

abbrev strict : CorsConfig
strict = record default_cors_config { allow_origins = partner ∷ [] }

abbrev from_origin : Str → Str → Request
from_origin origin method = record (asks method (codes "/")) {
  header = (codes "Origin", origin ∷ []) ∷ [];
}

cors-preflight_example :
    cors (strict ∷ []) hello (context_of (from_origin partner Method.options)) 5
    ≡ cors (strict ∷ []) greeting (context_of (from_origin partner Method.options)) 5
cors-preflight_example =
    cors-preflight (strict ∷ []) hello greeting (context_of (from_origin partner Method.options)) 5
      (from_origin partner Method.options) new_writer refl refl refl

cors-origins_example :
    (w' : Writer) × (cors (strict ∷ []) hello (context_of (from_origin stranger Method.get)) 5
      ≡ hello (record (context_of (from_origin stranger Method.get)) { writer = some w' }) 5)
    × (((is_allowed strict stranger ≡ false) × (w' ≡ varied new_writer))
        ⊎ ((is_allowed strict stranger ≡ true)
            × ((allowed_origin w' ≡ stranger)
                ⊎ ((allowed_origin w' ≡ star) × (strict.allow_credentials ≡ false)))))
unfolding merge header_get str_eq
cors-origins_example =
    cors-origins (strict ∷ []) hello (context_of (from_origin stranger Method.get)) 5
      (from_origin stranger Method.get) new_writer refl refl refl refl refl

abbrev without_subdomains : SecureConfig
without_subdomains = record default_secure_config { hsts_exclude_subdomains = true }

abbrev over_tls : Request
over_tls = record (asks Method.get (codes "/")) { tls = true }

-- As many bytes as asked for, each the count.
abbrev counted : ℕ → ℕ → Str × ℕ
counted n s = (s ∷ s ∷ [], suc s)

-- Whole numbers for the floating-point ones, and a clock that a second passes on at each reading.
abbrev whole : Floats ℕ
whole = record {
  of_int = λ n. n;
  seconds = λ n. n / 1000000000;
  add = λ a b. a + b;
  sub = λ a b. a - b;
  mul = λ a b. a * b;
  at_most = leb;
  less = ltb;
}

abbrev tick : ℕ → ℕ × ℕ
tick g = (g, g + 1000000000)

abbrev counting : Handler (Assoc (Client ℕ) × ℕ)
counting c s = returned nil c s

abbrev crowd : Assoc (Client ℕ)
crowd =
    (
      codes "10.0.0.2",
      record {
        limiter = record { rate = 1; burst = 3; tokens = 0; last_check = 0 };
        last_seen = 0;
      },
    )
    ∷ []
