-- ===== src/Middlewares/KeyAuth/Admission.antt =====
-- Whom KeyAuth lets through.
use amaro.Prelude.{◌≡◌, refl, subst, Bool, some, Str, codes, if◌then◌else◌, arith}
use amaro.Errors.{Error, nil, plain, http}
use amaro.Context.{Context, Handler, Middleware, Act, ◌>>=◌}
use amaro.Middlewares.Gate.{Checked, or_never, Admits}
use amaro.Middlewares.Gate.Admission.{error_verdict-Admits, skipped-Admits}
use amaro.Middlewares.KeyAuth.{
  KeyAuthConfig, key_of, key_error_handler, with_key, key_check, key_auth_with_config, key_checked,
  key_decision,
}

module _ {S : Type 0} where
  module _ (show : Error → Str) (on_error : Error → Act S Error) (next : Handler S) where
    with_key-Admits :
        (validator : Str → Checked S Bool) (found : Str × Error) (c : Context) (s : S)
        → Admits on_error
            (key_checked validator found c s)
            next
            (with_key show on_error validator next found c s)
    unfolding with_key
    with_key-Admits validator (key, nil) c s =
        error_verdict-Admits (codes "invalid key") on_error next (validator key c s)
    with_key-Admits validator (key, plain m) c s = ((λ e. cc e), refl)
    with_key-Admits validator (key, http k m i) c s = ((λ e. cc e), refl)

  -- Where a validator is configured, the outcome is the handler's, on the context and memory that the
  -- skipper or the validator leaves, if the skipper lets the request by, or if the key that KeyLookup
  -- names is there and the validator accepts it without an error. A panic of the skipper or the
  -- validator is the outcome. In all other cases the outcome is the error handler's, called with the
  -- error of the missing key, the validator's error or "invalid key", on the context and memory as the
  -- skipper or the validator left them: the handler has not run.
  pub key_auth-Admits :
      (show : Error → Str) (config : KeyAuthConfig S) (validator : Str → Checked S Bool)
      (m : Middleware S) (next : Handler S) (c : Context) (s : S)
      → config.validator ≡ some validator
      → key_auth_with_config show config ≡ some m
      → Admits (key_error_handler show config) (key_decision config validator c s) next (m next c s)
  unfolding key_auth_with_config
  key_auth-Admits show config validator m next c s given made =
      let on_error = key_error_handler show config in
      subst
        (λ (k : Middleware S).
          Admits (key_error_handler show config) (key_decision config validator c s) next
            (k next c s))
        same
        (skipped-Admits on_error next (key_check show config validator next)
          (λ c s. key_checked validator (key_of config.key_lookup config.auth_scheme c) c s)
          (λ c s.
            with_key-Admits show on_error next validator
              (key_of config.key_lookup config.auth_scheme c) c s)
          (or_never config.skipper c s))
    where
      same :
          (λ next. do
            skipped ← or_never config.skipper
            if skipped then next else key_check show config validator next)
          ≡ m
      same = ground (arith, given, made)
