-- ===== src/Middlewares/Jwt.antt =====
-- middlewares/jwt.go: the configuration, where the token is looked for, and which key verifies it;
-- `Tokens` has what follows. Parameters: the types of tokens and RSA keys. A nil secret, key or
-- handler is `none`; a Skipper, an ErrorHandler and a SigningMethod are always given.
pub mod Tokens
use amaro.Prelude.{
  ℕ, Bool, true, false, List, [], ◌∷◌, ◌++◌, Option, none, some, Str, codes, str_eq, is_empty, ◌==◌,
  ◌⊎◌, inl, inr, if◌then◌else◌,
}
use amaro.Strings.{split, after_prefix}
use amaro.Errors.{Error, nil, plain}
use amaro.Context.{Context, Act, pure, get_header, query_param, get_cookie, json}

-- The values of the package golang-jwt that the code compares with, and any other.
pub data SigningMethod : Type 0 where
  hs256 hs384 hs512 rs256 rs384 rs512 : SigningMethod
  other_method : ℕ → SigningMethod

abbrev pub method_eq : SigningMethod → SigningMethod → Bool
method_eq hs256 hs256 = true
method_eq hs384 hs384 = true
method_eq hs512 hs512 = true
method_eq rs256 rs256 = true
method_eq rs384 rs384 = true
method_eq rs512 rs512 = true
method_eq (other_method m) (other_method n) = m == n
method_eq _ _ = false

pub record JksConfig : Type 0 where
  pub keystore_data : Str
  pub password : Str
  pub alias : Str

pub record JwtConfig (S T K : Type 0) : Type 0 where
  pub secret : Option Str
  pub public_key : Option K
  pub jks_config : Option JksConfig
  pub token_lookup : Str
  pub auth_scheme : Str
  pub context_key : Str
  pub error_handler : Error → Act S Error
  pub success_handler : Option (T → Act S Error)
  pub skipper : Act S Bool
  pub signing_method : SigningMethod

pub data JwtOption (S T K : Type 0) : Type 0 where
  with_secret : Str → JwtOption S T K
  with_secret_bytes : Option Str → JwtOption S T K
  with_rsa_public_key : Option K → JwtOption S T K
  with_rsa_public_key_from_pem : Str → JwtOption S T K
  with_jks : Str → Str → Str → JwtOption S T K
  with_token_lookup with_auth_scheme with_context_key : Str → JwtOption S T K
  with_error_handler : (Error → Act S Error) → JwtOption S T K
  with_success_handler : Option (T → Act S Error) → JwtOption S T K
  with_skipper : Act S Bool → JwtOption S T K
  with_signing_method : SigningMethod → JwtOption S T K

module _ {S T K : Type 0} where
  -- `pem_key` is the RSA key of a text in PEM, if it has one.
  abbrev apply_jwt_option :
      (pem_key : Str → Option K) → JwtOption S T K → JwtConfig S T K → JwtConfig S T K
  apply_jwt_option pem_key (with_secret secret) cfg = record cfg {
    secret = some secret;
    signing_method = hs256;
  }
  apply_jwt_option pem_key (with_secret_bytes secret) cfg = record cfg {
    secret = secret;
    signing_method = hs256;
  }
  apply_jwt_option pem_key (with_rsa_public_key key) cfg = record cfg {
    public_key = key;
    signing_method = rs256;
  }
  apply_jwt_option pem_key (with_rsa_public_key_from_pem pem) cfg = elim (pem_key pem) [
    | none ↦ cfg
    | some key ↦ record cfg { public_key = some key; signing_method = rs256 }
  ]
  apply_jwt_option pem_key (with_jks keystore_data password alias) cfg = record cfg {
    jks_config =
        some (record { keystore_data = keystore_data; password = password; alias = alias });
    signing_method = rs256;
  }
  apply_jwt_option pem_key (with_token_lookup lookup) cfg = record cfg { token_lookup = lookup }
  apply_jwt_option pem_key (with_auth_scheme scheme) cfg = record cfg { auth_scheme = scheme }
  apply_jwt_option pem_key (with_context_key key) cfg = record cfg { context_key = key }
  apply_jwt_option pem_key (with_error_handler handler) cfg = record cfg { error_handler = handler }
  apply_jwt_option pem_key (with_success_handler handler) cfg = record cfg {
    success_handler = handler;
  }
  apply_jwt_option pem_key (with_skipper skipper) cfg = record cfg { skipper = skipper }
  apply_jwt_option pem_key (with_signing_method method) cfg = record cfg { signing_method = method }

  apply_jwt_options :
      (pem_key : Str → Option K) → List (JwtOption S T K) → JwtConfig S T K → JwtConfig S T K
  apply_jwt_options pem_key [] cfg = cfg
  apply_jwt_options pem_key (option ∷ options) cfg =
      apply_jwt_options pem_key options (apply_jwt_option pem_key option cfg)

  -- `refusal` is the JSON of an object with the two entries error, "unauthorized", and message.
  unfoldable pub default_jwt_config : (refusal : Error → Error × Str) → JwtConfig S T K
  unfolding json
  default_jwt_config refusal = record {
    secret = none;
    public_key = none;
    jks_config = none;
    token_lookup = codes "header:Authorization";
    auth_scheme = codes "Bearer";
    context_key = codes "user";
    error_handler = λ err. json 401 (refusal err);
    success_handler = none;
    skipper = pure false;
    signing_method = hs256;
  }

token_in_header : Str → Str → Context → Str × Error
unfolding get_header after_prefix
token_in_header scheme key c =
    let auth = get_header key c in
    if is_empty auth
    then ([], plain (codes "missing authorization header"))
    else if is_empty scheme
    then (auth, nil)
    else elim (after_prefix (scheme ++ codes " ") auth) [
      | none ↦ ([], plain (codes "invalid authorization scheme, expected " ++ scheme))
      | some token ↦ (token, nil)
    ]

token_in_query : Str → Context → Str × Error
unfolding query_param
token_in_query key c =
    let token = query_param key c in
    if is_empty token then ([], plain (codes "missing token in query parameters")) else (token, nil)

token_in_cookie : Str → Context → Str × Error
unfolding get_cookie
token_in_cookie key c = elim (get_cookie key c) [
  | none ↦ ([], plain (codes "missing token in cookie"))
  | some value ↦ (value, nil)
]

look_up : List Str → Str → Context → Str × Error
unfolding token_in_header token_in_query token_in_cookie str_eq
look_up (method ∷ key ∷ []) scheme c =
    if str_eq method (codes "header")
    then token_in_header scheme key c
    else if str_eq method (codes "query")
    then token_in_query key c
    else if str_eq method (codes "cookie")
    then token_in_cookie key c
    else ([], plain (codes "unsupported token lookup method"))
look_up _ scheme c = ([], plain (codes "invalid token lookup format"))

unfoldable pub extract_token : {S T K : Type 0} → JwtConfig S T K → Context → Str × Error
unfolding look_up split
extract_token cfg c = look_up (split b':' cfg.token_lookup) cfg.auth_scheme c
