-- ===== src/Oauth2.antt =====
-- addons/oauth2/oauth2.go: LoginHandler and CallbackHandler. Parameters: AuthCodeURL and Exchange of
-- package golang.org/x/oauth2, which reads and changes what it shares with the provider as part of the
-- memory `S`, and the encoder of JSON.
pub mod States
use amaro.Prelude.{Bool, true, false, List, [], Option, none, some, Str, codes, if◌then◌else◌}
use amaro.Errors.{Any, Error, nil, plain, is_nil}
use amaro.Context.{
  Act, Handler, returned, ◌>>=◌, pure, panic, nil_dereference, query_param, redirect, json,
}

-- The handlers that a user gives, each of which may be nil, over the type of tokens.
pub record Config (S Token : Type 0) : Type 0 where
  pub success_handler : Option (Token → Handler S)
  pub error_handler : Option (Error → Handler S)
  pub state_generator : Option (Act S Str)
  pub state_validator : Option (Str → Act S Bool)

-- What Exchange returns: a token, or an error that is not nil.
pub data Exchanged (Token : Type 0) : Type 0 where
  exchanged : Token → Exchanged Token
  refused : Error → Exchanged Token

abbrev query : {S : Type 0} → Str → Act S Str
unfolding query_param
query name c s = returned (query_param name c) c s

module _ {S Token : Type 0} (config : Config S Token) where
  unfoldable pub login_handler : (Str → Str) → Handler S
  unfolding redirect
  login_handler auth_code_url = do
    state ← elim config.state_generator [ none ↦ pure [] | some generate ↦ generate ]
    redirect 307 (auth_code_url state)

  -- A call of ErrorHandler, which panics where it is nil.
  abbrev pub call_error_handler : Error → Handler S
  call_error_handler err = elim config.error_handler [
    | none ↦ panic nil_dereference
    | some handle ↦ handle err
  ]

  -- What follows the exchange.
  abbrev pub finish : (Token → Error × Str) → Exchanged Token → Handler S
  unfolding json
  finish encode (exchanged token) = elim config.success_handler [
    | none ↦ json 200 (encode token)
    | some handle ↦ handle token
  ]
  finish encode (refused err) = elim config.error_handler [
    | none ↦ pure err
    | some handle ↦ handle err
  ]

  abbrev pub check_state : Str → Act S Bool
  check_state state = elim config.state_validator [
    | none ↦ pure true
    | some validate ↦ validate state
  ]

  unfoldable pub callback_handler :
      (exchange : Str → Act S (Exchanged Token)) → (Token → Error × Str) → Handler S
  unfolding query finish json
  callback_handler exchange encode = do
    code ← query (codes "code")
    state ← query (codes "state")
    valid ← check_state state
    if valid
        then exchange code >>= finish encode
        else call_error_handler (plain (codes "invalid state"))
