-- ===== src/Middlewares/BasicAuth/Admission.antt =====
-- Whom BasicAuth lets through.
use amaro.Prelude.{
  ◌≡◌, refl, subst, ◌⊎◌, inl, inr, Bool, true, false, Option, none, some, Str, codes, is_empty,
  Bool-cases, Option-cases, if◌then◌else◌, arith,
}
use amaro.Strings.{after_prefix}
use amaro.Errors.{Error, nil, plain, http, string, new_http_error}
use amaro.Http.{Writer}
use amaro.Context.{
  Context, Outcome, returned, panicked, Handler, Middleware, ◌>>=◌, pure, get_header, set_header,
  on_writer,
}
use amaro.Middlewares.Gate.{Checked, refuse, or_never, Admits}
use amaro.Middlewares.Gate.Admission.{skipped-Admits}
use amaro.Middlewares.Base64.{decode}
use amaro.Middlewares.BasicAuth.{
  BasicAuthConfig, split_colon, challenge, verdict, check, basic_auth_with_config, credentials,
  challenged, basic_decided, basic_checked, basic_decision,
}

module _ {S : Type 0} (realm : Str) (next : Handler S) where
  challenge-Admits :
      (c : Context) (s : S) → Admits pure (challenged realm c s) next (challenge realm c s)
  unfolding challenge set_header on_writer new_http_error
  challenge-Admits c s = by_writer c.writer
    where
      by_writer :
          (w : Option Writer)
          → Admits pure
              (challenged realm (record c { writer = w }) s)
              next
              (challenge realm (record c { writer = w }) s)
      by_writer none = refl
      by_writer (some w) = ((λ e. cc e), refl)

  verdict-Admits :
      (o : Outcome S (Bool × Error))
      → Admits pure (basic_decided realm o) next (elim o [
        | returned a c' s' ↦ verdict realm next a c' s'
        | panicked v c' s' ↦ panicked v c' s'
      ])
  unfolding verdict
  verdict-Admits (panicked v c s) = refl
  verdict-Admits (returned (true, nil) c s) = refl
  verdict-Admits (returned (false, nil) c s) = challenge-Admits c s
  verdict-Admits (returned (true, plain m) c s) = ((λ e. cc e), refl)
  verdict-Admits (returned (false, plain m) c s) = ((λ e. cc e), refl)
  verdict-Admits (returned (true, http k m i) c s) = ((λ e. cc e), refl)
  verdict-Admits (returned (false, http k m i) c s) = ((λ e. cc e), refl)

  module _ (validator : Str → Str → Checked S Bool) (c : Context) (s : S) where
    abbrev auth : Str
    auth = get_header (codes "Authorization") c

    split-Admits :
        (o : Option (Str × Str))
        → Admits pure
            (elim (elim o as (λ x. Str ⊎ Str × Str) [
              | none ↦ inl (codes "Invalid credentials format")
              | some given ↦ inr given
            ]) [
              | inl message ↦ refuse (http 401 (string message) nil) c s
              | inr (user, password) ↦ basic_decided realm (validator user password c s)
            ])
            next
            (elim o [
              | none ↦ returned (http 401 (string (codes "Invalid credentials format")) nil) c s
              | some (user, password) ↦
                  (do answer ← validator user password; verdict realm next answer) c s
            ])
    split-Admits none = ((λ e. cc e), refl)
    split-Admits (some (user, password)) = verdict-Admits (validator user password c s)

    check-Admits :
        Admits pure (basic_checked validator realm c s) next (check validator realm next c s)
    unfolding check new_http_error
    check-Admits = elim (Bool-cases (is_empty auth)) [
      | inl b ↦ rw (b, check, basic_checked) (challenge-Admits c s)
      | inr b ↦ elim (Option-cases (after_prefix (codes "Basic ") auth)) [
        | inl e ↦ rw (b, e, check, basic_checked, credentials) ((λ q. cc q), refl)
        | inr (encoded, e) ↦ elim (Option-cases (decode encoded)) [
          | inl d ↦ rw (b, e, d, check, basic_checked, credentials) ((λ q. cc q), refl)
          | inr (text, d) ↦
              rw (b, e, d, check, basic_checked, credentials) (split-Admits (split_colon text))
        ]
      ]
    ]

module _ {S : Type 0} where
  -- Where a validator is configured, the outcome is the handler's, on the context and memory that the
  -- skipper or the validator leaves, if the skipper lets the request by, or if what its Authorization
  -- header holds behind "Basic " decodes to a user and a password that the validator accepts without
  -- an error. A panic of the skipper or the validator is the outcome. In all other cases the handler
  -- has not run, and the outcome is the validator's error, or a 401 that says what is wrong with the
  -- header; where the header is missing or the validator says no, the response asks for credentials
  -- of the realm, for which there must be a response.
  pub basic_auth-Admits :
      (config : BasicAuthConfig S) (validator : Str → Str → Checked S Bool) (m : Middleware S)
      (next : Handler S) (c : Context) (s : S)
      → config.validator ≡ some validator
      → basic_auth_with_config config ≡ some m
      → Admits pure (basic_decision config validator c s) next (m next c s)
  unfolding basic_auth_with_config
  basic_auth-Admits config validator m next c s given made =
      subst
        (λ (k : Middleware S). Admits pure (basic_decision config validator c s) next (k next c s))
        same
        (skipped-Admits pure next (check validator realm next) (basic_checked validator realm)
          (check-Admits realm next validator) (or_never config.skipper c s))
    where
      realm : Str
      realm = if is_empty config.realm then codes "Restricted" else config.realm

      same :
          (λ next. do
            skipped ← or_never config.skipper
            if skipped then next else check validator realm next)
          ≡ m
      same = ground (arith, given, made)
