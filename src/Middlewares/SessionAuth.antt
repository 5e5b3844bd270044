-- ===== src/Middlewares/SessionAuth.antt =====
-- middlewares/session_auth.go, on the sessions that addons/sessions/middleware.go has loaded.
pub mod Admission
use amaro.Prelude.{Bool, true, false, [], ◌∷◌, Option, none, some, Str, codes, if◌then◌else◌}
use amaro.Errors.{Error, plain, string, new_http_error}
use amaro.Context.{Context, Outcome, returned, panicked, Act, Handler, Middleware, ◌>>=◌, pure}
use amaro.Sessions.{Session}
use amaro.Sessions.Requests.{SessionMemory, current_session}
use amaro.Middlewares.Gate.{
  Checked, fail_with, never_skip, or_never, Decision, refuse, decided, unless_skipped,
  error_verdict,
}

-- A nil Validator, ErrorHandler or Skipper is `none`.
pub record SessionAuthConfig (T S : Type 0) : Type 0 where
  pub validator : Option (T → Checked S Bool)
  pub error_handler : Option (Error → Act S Error)
  pub skipper : Option (Act S Bool)

module _ {S : Type 0} where
  unfoldable pub unauthorized : Error → Act S Error
  unfolding new_http_error
  unauthorized err = fail_with 401 (codes "Unauthorized")

module _ {T S : Type 0} where
  unfoldable pub default_session_auth_config : SessionAuthConfig T S
  unfolding unauthorized
  default_session_auth_config = record {
    validator = none;
    error_handler = some unauthorized;
    skipper = some never_skip;
  }

  abbrev pub session_error_handler : SessionAuthConfig T S → Error → Act S Error
  session_error_handler config = elim config.error_handler [ none ↦ unauthorized | some h ↦ h ]

module _ {T C G W : Type 0} where
  -- What the validator's answer, or a missing session, leads to.
  session_check :
      (Error → Act (SessionMemory T C G W) Error)
      → (T → Checked (SessionMemory T C G W) Bool)
      → Handler (SessionMemory T C G W)
      → Handler (SessionMemory T C G W)
  unfolding current_session error_verdict
  session_check on_error validator next c s = elim (current_session c s) [
    | none ↦ on_error (plain (codes "session not found")) c s
    | some (p, session) ↦
        (do
          answer ← validator session.data_of
          error_verdict (codes "invalid session") on_error next answer)
          c s
  ]

  -- `none` is the panic that a validator is required.
  unfoldable pub session_auth_with_config :
      SessionAuthConfig T (SessionMemory T C G W) → Option (Middleware (SessionMemory T C G W))
  unfolding session_check unauthorized
  session_auth_with_config config = elim config.validator [
    | none ↦ none
    | some validator ↦ some (λ next. do
      skipped ← or_never config.skipper
      if skipped then next else session_check (session_error_handler config) validator next)
  ]

  unfoldable pub session_auth :
      (T → Checked (SessionMemory T C G W) Bool) → Option (Middleware (SessionMemory T C G W))
  unfolding session_auth_with_config default_session_auth_config
  session_auth validator =
      session_auth_with_config (record default_session_auth_config { validator = some validator })

  abbrev session_checked :
      (T → Checked (SessionMemory T C G W) Bool)
      → Context
      → SessionMemory T C G W
      → Decision (SessionMemory T C G W)
  session_checked validator c s = elim (current_session c s) [
    | none ↦ refuse (plain (codes "session not found")) c s
    | some (p, session) ↦ decided (codes "invalid session") (validator session.data_of c s)
  ]

  -- Requests are let in that are skipped, and those with a session whose data the validator accepts;
  -- for the others, the error is "session not found", the validator's, or "invalid session".
  abbrev pub session_decision :
      SessionAuthConfig T (SessionMemory T C G W)
      → (T → Checked (SessionMemory T C G W) Bool)
      → Context
      → SessionMemory T C G W
      → Decision (SessionMemory T C G W)
  session_decision config validator c s =
      unless_skipped (or_never config.skipper c s) (session_checked validator)
