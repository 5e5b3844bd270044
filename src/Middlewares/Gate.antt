-- ===== src/Middlewares/Gate.antt =====
-- What the authentication middlewares have in common: a validation that may let a request through.
pub mod Admission
use amaro.Prelude.{
  ℕ, ◌≡◌, ◌≢◌, Bool, true, false, not, [], ◌∷◌, Option, none, some, Str, if◌then◌else◌,
}
use amaro.Errors.{Any, string, Error, nil, plain, is_nil, new_http_error}
use amaro.Context.{Context, Outcome, returned, panicked, Act, Handler, pure}

-- A Go call with two results, the second an error.
abbrev pub Checked : Type 0 → Type 0 → Type 0
Checked S A = Act S (A × Error)

-- What a validation comes to: the request is let in, refused for an error, or the call panics, each
-- with the context and the memory as they are then.
pub data Decision (S : Type 0) : Type 0 where
  let_in : Context → S → Decision S
  refuse : Error → Context → S → Decision S
  crash : Any → Context → S → Decision S

module _ {S : Type 0} where
  -- `return amaro.NewHTTPError(code, message)`
  abbrev pub fail_with : (code : ℕ) → Str → Act S Error
  fail_with code message = pure (new_http_error code (string message ∷ []))

  -- A skipper that was not given skips nothing.
  abbrev pub never_skip : Act S Bool
  never_skip = pure false

  abbrev pub or_never : Option (Act S Bool) → Act S Bool
  or_never none = never_skip
  or_never (some skip) = skip

  -- A validator's two results; a refusal without an error gets the message.
  abbrev pub decided : Str → Outcome S (Bool × Error) → Decision S
  decided message (returned (true, nil) c s) = let_in c s
  decided message (returned (false, nil) c s) = refuse (plain message) c s
  decided message (returned (_, err) c s) = refuse err c s
  decided message (panicked v c s) = crash v c s

  -- A skipper in front of a decision.
  abbrev pub unless_skipped : Outcome S Bool → (Context → S → Decision S) → Decision S
  unless_skipped (returned true c s) decide = let_in c s
  unless_skipped (returned false c s) decide = decide c s
  unless_skipped (panicked v c s) decide = crash v c s

  -- `o` is the handler's outcome where the request is let in, the error handler's where it is refused,
  -- and the panic where the validation panics.
  abbrev pub Admits : (Error → Act S Error) → Decision S → Handler S → Outcome S Error → Type 0
  Admits on_error (let_in c s) next o = o ≡ next c s
  Admits on_error (refuse err c s) next o = (err ≢ nil) × (o ≡ on_error err c s)
  Admits on_error (crash v c s) next o = o ≡ panicked v c s

  -- What key_auth.go and session_auth.go do with a validator's two results: an error and a refusal,
  -- which gets the message, are for the error handler.
  unfoldable pub error_verdict :
      Str → (Error → Act S Error) → Handler S → Bool × Error → Act S Error
  error_verdict message on_error next (valid, err) =
      if not (is_nil err)
      then on_error err
      else if not valid
      then on_error (plain message)
      else next
