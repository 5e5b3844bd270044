-- ===== src/Middlewares/SessionAuth/Admission.antt =====
-- Whom SessionAuth lets through.
use amaro.Prelude.{ℕ, ◌≡◌, refl, subst, Bool, Option, none, some, codes, if◌then◌else◌, arith}
use amaro.Errors.{Error, plain}
use amaro.Context.{Context, Handler, Middleware, Act, ◌>>=◌}
use amaro.Sessions.{Session}
use amaro.Sessions.Requests.{SessionMemory, current_session}
use amaro.Middlewares.Gate.{Checked, or_never, refuse, decided, Admits, error_verdict}
use amaro.Middlewares.Gate.Admission.{error_verdict-Admits, skipped-Admits}
use amaro.Middlewares.SessionAuth.{
  SessionAuthConfig, session_error_handler, session_check, session_auth_with_config,
  session_checked, session_decision,
}

module _ {T C G W : Type 0} where
  found-Admits :
      (on_error : Error → Act (SessionMemory T C G W) Error)
      (validator : T → Checked (SessionMemory T C G W) Bool)
      (next : Handler (SessionMemory T C G W)) (found : Option (ℕ × Session T)) (c : Context)
      (s : SessionMemory T C G W)
      → Admits on_error
          (elim found [
            | none ↦ refuse (plain (codes "session not found")) c s
            | some (p, session) ↦ decided (codes "invalid session") (validator session.data_of c s)
          ])
          next
          (elim found [
            | none ↦ on_error (plain (codes "session not found")) c s
            | some (p, session) ↦
                (do
                  answer ← validator session.data_of
                  error_verdict (codes "invalid session") on_error next answer)
                  c s
          ])
  found-Admits on_error validator next none c s = ((λ e. cc e), refl)
  found-Admits on_error validator next (some (p, session)) c s =
      error_verdict-Admits (codes "invalid session") on_error next (validator session.data_of c s)

  -- Where a validator is configured, the outcome is the handler's, on the context and memory that the
  -- skipper or the validator leaves, if the skipper lets the request by, or if the context holds a
  -- session whose data the validator accepts without an error. A panic of the skipper or the validator
  -- is the outcome. In all other cases the outcome is the error handler's, called with "session not
  -- found", the validator's error or "invalid session", on the context and memory as the skipper or
  -- the validator left them: the handler has not run.
  pub session_auth-Admits :
      (config : SessionAuthConfig T (SessionMemory T C G W))
      (validator : T → Checked (SessionMemory T C G W) Bool)
      (m : Middleware (SessionMemory T C G W)) (next : Handler (SessionMemory T C G W))
      (c : Context) (s : SessionMemory T C G W)
      → config.validator ≡ some validator
      → session_auth_with_config config ≡ some m
      → Admits
          (session_error_handler config)
          (session_decision config validator c s)
          next
          (m next c s)
  unfolding session_auth_with_config session_check
  session_auth-Admits config validator m next c s given made =
      let on_error = session_error_handler config in
      subst
        (λ (k : Middleware (SessionMemory T C G W)).
          Admits (session_error_handler config) (session_decision config validator c s) next
            (k next c s))
        same
        (skipped-Admits on_error next (session_check on_error validator next)
          (session_checked validator)
          (λ c s. found-Admits on_error validator next (current_session c s) c s)
          (or_never config.skipper c s))
    where
      same :
          (λ next. do
            skipped ← or_never config.skipper
            if skipped then next else session_check (session_error_handler config) validator next)
          ≡ m
      same = ground (arith, given, made)
