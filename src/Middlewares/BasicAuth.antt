-- ===== src/Middlewares/BasicAuth.antt =====
-- middlewares/basic_auth.go.
pub mod Admission
use amaro.Prelude.{
  Bool, true, false, not, List, [], ◌∷◌, ◌++◌, Option, none, some, Str, codes, ◌==◌, is_empty,
  if◌then◌else◌, ◌⊎◌, inl, inr,
}
use amaro.Strings.{after_prefix}
use amaro.Errors.{string, Error, nil, http, is_nil, new_http_error}
use amaro.Http.{on_header, header_set}
use amaro.Context.{
  Context, Outcome, returned, panicked, Act, Handler, Middleware, ◌>>=◌, ◌>>◌, pure, get_header,
  set_header, nil_dereference,
}
use amaro.Middlewares.Gate.{
  Checked, fail_with, or_never, Decision, let_in, refuse, crash, unless_skipped,
}
use amaro.Middlewares.Base64.{decode}

-- A nil Validator or Skipper is `none`.
pub record BasicAuthConfig (S : Type 0) : Type 0 where
  pub validator : Option (Str → Str → Checked S Bool)
  pub realm : Str
  pub skipper : Option (Act S Bool)

-- strings.SplitN at a colon, 2 pieces: what stands before and behind the first, if there is one.
unfoldable pub split_colon : Str → Option (Str × Str)
split_colon [] = none
split_colon (c ∷ s) =
    let later = split_colon s in
    if c == b':' then some ([], s) else elim later [ none ↦ none | some (u, p) ↦ some (c ∷ u, p) ]

-- The credentials of a request: what its Authorization header holds behind "Basic ", decoded; or what
-- is wrong with the header.
abbrev pub credentials : Context → Str ⊎ (Str × Str)
credentials c = elim (after_prefix (codes "Basic ") (get_header (codes "Authorization") c)) [
  | none ↦ inl (codes "Invalid authorization header")
  | some encoded ↦ elim (decode encoded) [
    | none ↦ inl (codes "Invalid base64")
    | some decoded ↦ elim (split_colon decoded) [
      | none ↦ inl (codes "Invalid credentials format")
      | some given ↦ inr given
    ]
  ]
]

module _ {S : Type 0} where
  abbrev pub default_basic_auth_config : BasicAuthConfig S
  default_basic_auth_config = record {
    validator = none;
    realm = codes "Restricted";
    skipper = some (pure false);
  }

  -- The refusals that ask for credentials.
  challenge : Str → Act S Error
  unfolding set_header new_http_error
  challenge realm = do
    set_header (codes "WWW-Authenticate") (codes "Basic realm=\"" ++ (realm ++ codes "\""))
    fail_with 401 (codes "Unauthorized")

  -- What follows the call of the validator.
  verdict : Str → Handler S → Bool × Error → Act S Error
  unfolding challenge
  verdict realm next (valid, err) =
      if not (is_nil err) then pure err else if not valid then challenge realm else next

  check : (Str → Str → Checked S Bool) → Str → Handler S → Handler S
  check validator realm next c s =
      let auth = get_header (codes "Authorization") c in
      if is_empty auth then challenge realm c s else elim (after_prefix (codes "Basic ") auth) [
        | none ↦ fail_with 401 (codes "Invalid authorization header") c s
        | some encoded ↦ elim (decode encoded) [
          | none ↦ fail_with 401 (codes "Invalid base64") c s
          | some decoded ↦ elim (split_colon decoded) [
            | none ↦ fail_with 401 (codes "Invalid credentials format") c s
            | some (user, password) ↦
                (do answer ← validator user password; verdict realm next answer) c s
          ]
        ]
      ]

  -- `none` is the panic that a validator is required.
  unfoldable pub basic_auth_with_config : BasicAuthConfig S → Option (Middleware S)
  unfolding check verdict challenge get_header set_header after_prefix decode split_colon
      new_http_error
  basic_auth_with_config config =
      let realm = if is_empty config.realm then codes "Restricted" else config.realm in
      elim config.validator [
        | none ↦ none
        | some validator ↦ some (λ next. do
          skipped ← or_never config.skipper
          if skipped then next else check validator realm next)
      ]

  unfoldable pub basic_auth : (Str → Str → Checked S Bool) → Option (Middleware S)
  unfolding basic_auth_with_config
  basic_auth validator =
      basic_auth_with_config (record default_basic_auth_config { validator = some validator })

  -- The error 401, with the header that asks for credentials; the context must have a response.
  abbrev pub challenged : Str → Context → S → Decision S
  challenged realm c s = elim c.writer [
    | none ↦ crash nil_dereference c s
    | some w ↦
        refuse (http 401 (string (codes "Unauthorized")) nil)
          (record c {
            writer = some (
                on_header
                  (header_set (codes "WWW-Authenticate")
                    (codes "Basic realm=\"" ++ (realm ++ codes "\"")))
                  w);
          })
          s
  ]

  -- A validator's two results.
  abbrev pub basic_decided : Str → Outcome S (Bool × Error) → Decision S
  basic_decided realm (returned (true, nil) c s) = let_in c s
  basic_decided realm (returned (false, nil) c s) = challenged realm c s
  basic_decided realm (returned (_, err) c s) = refuse err c s
  basic_decided realm (panicked v c s) = crash v c s

  -- Requests are let in with credentials that the validator accepts.
  abbrev pub basic_checked : (Str → Str → Checked S Bool) → Str → Context → S → Decision S
  basic_checked validator realm c s =
      if is_empty (get_header (codes "Authorization") c)
      then challenged realm c s
      else elim (credentials c) [
        | inl message ↦ refuse (http 401 (string message) nil) c s
        | inr (user, password) ↦ basic_decided realm (validator user password c s)
      ]

  abbrev pub basic_decision :
      BasicAuthConfig S → (Str → Str → Checked S Bool) → Context → S → Decision S
  basic_decision config validator c s =
      unless_skipped (or_never config.skipper c s) (
        basic_checked validator
          (if is_empty config.realm then codes "Restricted" else config.realm))
