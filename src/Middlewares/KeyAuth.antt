-- ===== src/Middlewares/KeyAuth.antt =====
-- middlewares/key_auth.go. The text of an error that is not a plain one is the parameter `show`.
pub mod Admission
use amaro.Prelude.{
  Bool, true, false, not, List, [], ◌∷◌, ◌++◌, Option, none, some, Str, codes, str_eq, is_empty,
  if◌then◌else◌,
}
use amaro.Strings.{split, after_prefix}
use amaro.Errors.{Any, string, Error, nil, plain, is_nil, new_http_error}
use amaro.Context.{
  Context, Outcome, returned, panicked, Act, Handler, Middleware, ◌>>=◌, pure, get_header,
  query_param, get_cookie,
}
use amaro.Middlewares.Gate.{
  Checked, fail_with, or_never, Decision, refuse, decided, unless_skipped, error_verdict,
}

-- A nil Validator, ErrorHandler or Skipper is `none`.
pub record KeyAuthConfig (S : Type 0) : Type 0 where
  pub key_lookup : Str
  pub auth_scheme : Str
  pub validator : Option (Str → Checked S Bool)
  pub error_handler : Option (Error → Act S Error)
  pub skipper : Option (Act S Bool)

header_key : Str → Str → Context → Str × Error
unfolding get_header after_prefix
header_key scheme name c =
    let key = get_header name c in
    if is_empty key
    then ([], plain (codes "missing key in header"))
    else if is_empty scheme
    then (key, nil)
    else elim (after_prefix (scheme ++ codes " ") key) [
      | none ↦ ([], plain (codes "invalid key scheme"))
      | some rest ↦ (rest, nil)
    ]

query_key : Str → Context → Str × Error
unfolding query_param
query_key name c =
    let key = query_param name c in
    if is_empty key then ([], plain (codes "missing key in query")) else (key, nil)

cookie_key : Str → Context → Str × Error
unfolding get_cookie
cookie_key name c = elim (get_cookie name c) [
  | none ↦ ([], plain (codes "missing key in cookie"))
  | some value ↦ (value, nil)
]

abbrev invalid_lookup : Context → Str × Error
invalid_lookup c = ([], plain (codes "invalid key lookup configuration"))

-- The extractor that the pieces of KeyLookup ask for.
extractor_of : List Str → Str → Context → Str × Error
unfolding header_key query_key cookie_key str_eq
extractor_of (kind ∷ name ∷ []) scheme =
    if str_eq kind (codes "header")
    then header_key scheme name
    else if str_eq kind (codes "query")
    then query_key name
    else if str_eq kind (codes "cookie")
    then cookie_key name
    else invalid_lookup
extractor_of _ scheme = invalid_lookup

unfoldable pub key_of : Str → Str → Context → Str × Error
unfolding extractor_of split
key_of lookup scheme = extractor_of (split b':' lookup) scheme

module _ {S : Type 0} (show : Error → Str) where
  unfoldable pub default_key_error_handler : Error → Act S Error
  unfolding new_http_error
  default_key_error_handler err = fail_with 401 (show err)

  unfoldable pub default_key_auth_config : KeyAuthConfig S
  unfolding default_key_error_handler
  default_key_auth_config = record {
    key_lookup = codes "header:X-API-Key";
    auth_scheme = [];
    validator = none;
    error_handler = some default_key_error_handler;
    skipper = some (pure false);
  }

  abbrev pub key_error_handler : KeyAuthConfig S → Error → Act S Error
  key_error_handler config = elim config.error_handler [
    | none ↦ default_key_error_handler
    | some h ↦ h
  ]

  with_key : (Error → Act S Error) → (Str → Checked S Bool) → Handler S → Str × Error → Act S Error
  unfolding error_verdict
  with_key on_error validator next (key, err) =
      if not (is_nil err)
      then on_error err
      else do answer ← validator key; error_verdict (codes "invalid key") on_error next answer

  key_check : KeyAuthConfig S → (Str → Checked S Bool) → Handler S → Handler S
  key_check config validator next c s =
      with_key (key_error_handler config) validator next
        (key_of config.key_lookup config.auth_scheme c) c s

  -- `none` is the panic that a validator is required.
  unfoldable pub key_auth_with_config : KeyAuthConfig S → Option (Middleware S)
  unfolding key_check with_key error_verdict key_of default_key_error_handler
  key_auth_with_config config = elim config.validator [
    | none ↦ none
    | some validator ↦ some (λ next. do
      skipped ← or_never config.skipper
      if skipped then next else key_check config validator next)
  ]

  unfoldable pub key_auth : (Str → Checked S Bool) → Option (Middleware S)
  unfolding key_auth_with_config default_key_auth_config
  key_auth validator =
      key_auth_with_config (record default_key_auth_config { validator = some validator })

module _ {S : Type 0} where
  abbrev key_checked : (Str → Checked S Bool) → Str × Error → Context → S → Decision S
  key_checked validator (key, nil) c s = decided (codes "invalid key") (validator key c s)
  key_checked validator (_, err) c s = refuse err c s

  -- Requests are let in that are skipped, and those with a key that the validator accepts; for the
  -- others, the error is that of the missing key, the validator's, or "invalid key".
  abbrev pub key_decision : KeyAuthConfig S → (Str → Checked S Bool) → Context → S → Decision S
  key_decision config validator c s =
      unless_skipped (or_never config.skipper c s)
        (λ c' s'. key_checked validator (key_of config.key_lookup config.auth_scheme c') c' s')
