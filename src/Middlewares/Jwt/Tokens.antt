-- ===== src/Middlewares/Jwt/Tokens.antt =====
-- The verification of tokens in middlewares/jwt.go, the middleware itself, and CreateToken. The
-- package golang-jwt is the parameter `lib`; the time, in seconds, is read off the memory, and
-- stands still while one token is checked.
pub mod Authentic
use amaro.Prelude.{
  ℕ, Bool, true, false, not, List, [], ◌∷◌, ◌++◌, Option, none, some, Str, codes, ◌⊎◌, inl, inr,
  if◌then◌else◌,
}
use amaro.Prelude.Int.{ℤ, pos, ltb_ℤ}
use amaro.Errors.{Error, nil, plain, is_nil}
use amaro.Context.{Context, Act, Handler, Middleware, ◌>>=◌, ◌>>◌, pure, set_header}
use amaro.Middlewares.Jwt.{
  SigningMethod, hs256, hs384, hs512, rs256, rs384, rs512, other_method, method_eq, JksConfig,
  JwtConfig, JwtOption, apply_jwt_options, default_jwt_config, extract_token,
}

-- What a key function returns: a secret or an RSA key.
pub data Key (K : Type 0) : Type 0 where
  secret_key : Str → Key K
  rsa_key : K → Key K

-- Tokens T, their claims M, and the numbers among these, F.
pub record JwtLibrary (S T K M F : Type 0) : Type 0 where
  -- jwt.Parse
  pub parse : Str → (T → Key K ⊎ Error) → S → T ⊎ Error
  -- Token.Method, Token.Header["alg"] as %v prints it, and Token.Valid
  pub method_of : T → SigningMethod
  pub alg_of : T → Str
  pub is_valid : T → Bool
  -- Token.Claims, if they are a MapClaims; and what a claim is, if it is a float64
  pub claims_of : T → Option M
  pub number_claim : Str → M → Option F
  pub to_int64 : F → ℤ
  -- the claims, a method and an error as %v prints them
  pub show_claims : M → Str
  pub show_method : SigningMethod → Str
  pub show_error : Error → Str
  -- SignedString of a new token
  pub sign : SigningMethod → M → Str → Str × Error

module _ {S T K M F : Type 0} (lib : JwtLibrary S T K M F) (now : S → ℕ) where
  abbrev pub extract_public_key_from_jks : JksConfig → K ⊎ Error
  extract_public_key_from_jks cfg = inr (
      plain (
        codes
          "JKS support requires additional implementation - consider using github.com/pavel-v-chernykh/keystore-go"))

  hmac_key : Option Str → Key K ⊎ Error
  hmac_key none = inr (plain (codes "HMAC secret not configured"))
  hmac_key (some secret) = inl (secret_key secret)

  jks_key : Option JksConfig → Key K ⊎ Error
  jks_key none = inr (plain (codes "RSA public key not configured"))
  jks_key (some cfg) = elim (extract_public_key_from_jks cfg) [
    | inl key ↦ inl (rsa_key key)
    | inr e ↦ inr (plain (codes "failed to extract public key from JKS: " ++ lib.show_error e))
  ]

  public_key_of : Option K → Option JksConfig → Key K ⊎ Error
  unfolding jks_key
  public_key_of (some key) jks = inl (rsa_key key)
  public_key_of none jks = jks_key jks

  -- The switch over the configured method.
  unfoldable pub configured_key : JwtConfig S T K → Key K ⊎ Error
  unfolding hmac_key public_key_of
  configured_key cfg = elim cfg.signing_method [
    | hs256 ↦ hmac_key cfg.secret
    | hs384 ↦ hmac_key cfg.secret
    | hs512 ↦ hmac_key cfg.secret
    | rs256 ↦ public_key_of cfg.public_key cfg.jks_config
    | rs384 ↦ public_key_of cfg.public_key cfg.jks_config
    | rs512 ↦ public_key_of cfg.public_key cfg.jks_config
    | other_method n ↦
        inr (plain (codes "unsupported signing method: " ++ lib.show_method (other_method n)))
  ]

  key_func : JwtConfig S T K → T → Key K ⊎ Error
  unfolding configured_key
  key_func cfg t =
      if not (method_eq (lib.method_of t) cfg.signing_method)
      then inr (plain (codes "unexpected signing method: " ++ lib.alg_of t))
      else configured_key cfg

  -- A claim that is there, and refuses the token.
  refused_by : Str → (ℤ → Bool) → Option M → Bool
  refused_by name refuses none = false
  refused_by name refuses (some claims) = elim (lib.number_claim name claims) [
    | none ↦ false
    | some x ↦ refuses (lib.to_int64 x)
  ]

  check_times : T → S → T ⊎ Error
  unfolding refused_by
  check_times t s =
      let claims = lib.claims_of t in
      if refused_by (codes "exp") (λ exp. ltb_ℤ exp (pos (now s))) claims
      then inr (plain (codes "token has expired"))
      else if refused_by (codes "nbf") (λ nbf. ltb_ℤ (pos (now s)) nbf) claims
      then inr (plain (codes "token not valid yet"))
      else if refused_by (codes "iat") (λ iat. ltb_ℤ (pos (now s)) iat) claims
      then inr (plain (codes "token issued in the future"))
      else inl t

  unfoldable pub parse_token : Str → JwtConfig S T K → S → T ⊎ Error
  unfolding key_func check_times
  parse_token token cfg s = elim (lib.parse token (key_func cfg) s) [
    | inr e ↦ inr (plain (codes "failed to parse token: " ++ lib.show_error e))
    | inl t ↦ if not (lib.is_valid t) then inr (plain (codes "invalid token")) else check_times t s
  ]

  tell_claims : Option M → Act S (Unit {0})
  unfolding set_header
  tell_claims none = pure tt
  tell_claims (some claims) = set_header (codes "X-JWT-Claims") (lib.show_claims claims)

  call_success : Option (T → Act S Error) → T → Act S Error
  call_success none t = pure nil
  call_success (some handler) t = handler t

  -- What follows parseToken.
  unfoldable pub on_token : JwtConfig S T K → T ⊎ Error → Middleware S
  unfolding tell_claims call_success
  on_token cfg (inr err) next = cfg.error_handler err
  on_token cfg (inl t) next = do
    tell_claims (lib.claims_of t)
    err ← call_success cfg.success_handler t
    if is_nil err then next else cfg.error_handler err

  unfoldable pub jwt_with_config : JwtConfig S T K → Middleware S
  unfolding extract_token parse_token on_token
  jwt_with_config cfg next = do
    skipped ← cfg.skipper
    if skipped then next else (λ c s.
        let (token, err) = extract_token cfg c in
        if is_nil err
        then on_token cfg (parse_token token cfg s) next c s
        else cfg.error_handler err c s)

  unfoldable pub jwt :
      (pem_key : Str → Option K) (refusal : Error → Error × Str)
      → List (JwtOption S T K)
      → Middleware S
  unfolding jwt_with_config apply_jwt_options default_jwt_config
  jwt pem_key refusal options =
      jwt_with_config (apply_jwt_options pem_key options (default_jwt_config refusal))

  sign_with : Option Str → SigningMethod → M → Str × Error
  sign_with none method claims = ([], plain (codes "HMAC secret not configured"))
  sign_with (some secret) method claims = lib.sign method claims secret

  unfoldable pub create_token : M → JwtConfig S T K → Str × Error
  unfolding sign_with
  create_token claims cfg = elim cfg.signing_method [
    | hs256 ↦ sign_with cfg.secret hs256 claims
    | hs384 ↦ sign_with cfg.secret hs384 claims
    | hs512 ↦ sign_with cfg.secret hs512 claims
    | rs256 ↦ ([], plain (codes "RSA token creation requires private key"))
    | rs384 ↦ ([], plain (codes "RSA token creation requires private key"))
    | rs512 ↦ ([], plain (codes "RSA token creation requires private key"))
    | other_method n ↦
        ([], plain (codes "unsupported signing method: " ++ lib.show_method (other_method n)))
  ]
