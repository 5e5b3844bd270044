-- ===== src/Middlewares/Secure.antt =====
-- middlewares/secure.go
pub mod Transport
use amaro.Prelude.{
  ℕ, Bool, true, false, not, ◌||◌, List, [], ◌∷◌, ◌++◌, some, Str, codes, str_eq, is_empty,
  if◌then◌else◌,
}
use amaro.Errors.{Error}
use amaro.Http.{Request, header_get}
use amaro.Context.{Handler, Middleware, Act, ◌>>=◌, ◌>>◌, when, the_request, set_header}

pub record SecureConfig : Type 0 where
  pub xss_protection : Str
  pub content_type_options : Str
  pub frame_options : Str
  pub hsts_max_age : ℕ
  pub hsts_exclude_subdomains : Bool

abbrev pub default_secure_config : SecureConfig
default_secure_config = record {
  xss_protection = codes "1; mode=block";
  content_type_options = codes "nosniff";
  frame_options = codes "SAMEORIGIN";
  hsts_max_age = 31536000;
  hsts_exclude_subdomains = false;
}

-- The first configuration given, or else the default.
abbrev pub chosen : List SecureConfig → SecureConfig
chosen [] = default_secure_config
chosen (cfg ∷ _) = cfg

-- The request came over TLS, to this server or to a proxy in front of it.
unfoldable pub is_secure : Request → Bool
unfolding header_get str_eq
is_secure r = r.tls || str_eq (header_get (codes "X-Forwarded-Proto") r.header) (codes "https")

unfoldable pub transport_value : SecureConfig → Str
transport_value cfg =
    if cfg.hsts_exclude_subdomains
    then codes "max-age=31536000" ++ codes "; includeSubDomains"
    else codes "max-age=31536000"

module _ {S : Type 0} where
  -- Sets a header on the way to the handler, if asked.
  unfoldable pub with_header : Bool → Str → Str → Middleware S
  unfolding when set_header
  with_header asked key value next = when asked (set_header key value) >> next

  -- A header that the configuration may leave empty.
  abbrev pub with_text : Str → Str → Middleware S
  with_text key value = with_header (not (is_empty value)) key value

  unfoldable pub with_transport : SecureConfig → Middleware S
  unfolding with_header the_request is_secure transport_value
  with_transport cfg next = do
    r ← the_request
    with_header (is_secure r) (codes "Strict-Transport-Security") (transport_value cfg) next

  unfoldable pub secure : List SecureConfig → Middleware S
  unfolding with_header with_transport
  secure config next =
      let cfg = chosen config in
      with_text (codes "X-XSS-Protection") cfg.xss_protection (
        with_text (codes "X-Content-Type-Options") cfg.content_type_options
          (with_text (codes "X-Frame-Options") cfg.frame_options (with_transport cfg next)))
