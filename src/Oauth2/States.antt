-- ===== src/Oauth2/States.antt =====
-- Which callbacks reach the provider.
use amaro.Prelude.{refl, Bool, true, false, Str, codes, if◌then◌else◌}
use amaro.Errors.{Error, nil, plain}
use amaro.Context.{Context, Outcome, returned, panicked, Act, ◌>>=◌, pure, query_param}
use amaro.Middlewares.Gate.{Admits, decided}
use amaro.Oauth2.{
  Config, Exchanged, query, call_error_handler, finish, check_state, callback_handler,
}

module _ {S Token : Type 0} (config : Config S Token) where
  -- The state of the request is shown to the validator, if there is one.
  abbrev pub state_check : Act S (Bool × Error)
  unfolding query_param
  state_check c s =
      (do valid ← check_state config (query_param (codes "state") c); pure (valid, nil)) c s

module _ {S Token : Type 0} (config : Config S Token) (exchange : Str → Act S (Exchanged Token))
    (encode : Token → Error × Str) where
  by_check :
      (code : Str) (o : Outcome S Bool)
      → Admits
          (call_error_handler config)
          (decided (codes "invalid state") (elim o [
            | returned valid c s ↦ returned (valid, nil) c s
            | panicked v c s ↦ panicked v c s
          ]))
          (exchange code >>= finish config encode)
          (elim o [
            | returned valid c s ↦
                (if valid
                    then exchange code >>= finish config encode
                    else call_error_handler config (plain (codes "invalid state")))
                  c s
            | panicked v c s ↦ panicked v c s
          ])
  by_check code (returned true c s) = refl
  by_check code (returned false c s) = ((λ e. cc), refl)
  by_check code (panicked v c s) = refl

  -- If the validator accepts the state of the request, or none is given, the outcome of a callback is
  -- that of exchanging the code and handing the token on, from the context and memory the validator
  -- leaves. If it does not, the outcome is the error handler's, called with "invalid state" on the
  -- context and memory as the validator left them, so that no code is exchanged; a panic of the
  -- validator is the outcome.
  pub callback_handler-Admits :
      (c : Context) (s : S)
      → Admits
          (call_error_handler config)
          (decided (codes "invalid state") (state_check config c s))
          (exchange (query_param (codes "code") c) >>= finish config encode)
          (callback_handler config exchange encode c s)
  unfolding callback_handler query
  callback_handler-Admits c s =
      by_check (query_param (codes "code") c)
        (check_state config (query_param (codes "state") c) c s)
