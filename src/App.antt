-- ===== src/App.antt =====
-- amaro.go: the App, over any router that has the interface Router. The compiled handler reads the
-- app's router and error handler when it runs, so what `setup` stores is the chain of middlewares
-- that waits for `dispatch`. An App has a router from the start here (New with WithRouter); Run
-- is in App/Server.
pub mod Serving
pub mod NotFound
pub mod Reached
pub mod Server
use amaro.Prelude.{
  ℕ, Bool, true, false, List, [], ◌∷◌, ◌++◌, Option, none, some, Str, codes, if◌then◌else◌,
}
use amaro.Errors.{
  Any, string, other, Error, nil, plain, http, is_nil, not_found, internal_server_error,
}
use amaro.Http.{Writer, Request, http_error}
use amaro.Http.Status.{status_text}
use amaro.Http.Method
use amaro.Context.{
  Context, Outcome, returned, panicked, Act, Handler, Middleware, ◌>>=◌, ◌>>◌, pure, panic,
  nil_dereference, the_request, on_writer, reset, new_context,
}
use amaro.Recovery.{recovery}
use amaro.Routing.{Route, FindResult, found, failed, Router, compile, add_each, wildcard_path}

abbrev pub ErrorHandler : Type 0 → Type 0
ErrorHandler S = Error → ℕ → Act S (Unit {0})

pub record App (S R : Type 0) : Type 0 where
  pub router : R
  pub middlewares : List (Middleware S)
  pub pool : List Context
  -- nil until `setup`
  pub handler : Option (Handler S → Handler S)
  pub error_handler : ErrorHandler S

-- The error handler of New: an HTTPError brings its own status, and its message if that is a string.
unfoldable pub default_error_handler : {S : Type 0} → Error → ℕ → Act S (Unit {0})
unfolding on_writer http_error status_text
default_error_handler (http code (string message) _) _ = on_writer (http_error message code)
default_error_handler (http code (other _) _) _ = on_writer (http_error (status_text code) code)
default_error_handler (plain message) code = on_writer (http_error message code)
default_error_handler nil code = panic nil_dereference

pub data AppOption (S R : Type 0) : Type 0 where
  with_error_handler : ErrorHandler S → AppOption S R
  with_router : R → AppOption S R

module _ {S R : Type 0} where
  abbrev apply_app_option : AppOption S R → App S R → App S R
  apply_app_option (with_error_handler h) a = record a { error_handler = h }
  apply_app_option (with_router r) a = record a { router = r }

  apply_app_options : List (AppOption S R) → App S R → App S R
  apply_app_options [] a = a
  apply_app_options (option ∷ rest) a = apply_app_options rest (apply_app_option option a)

  -- New: Recovery() is the first middleware.
  unfoldable pub new_app : (render : Any → Str) → R → List (AppOption S R) → App S R
  unfolding apply_app_options recovery default_error_handler
  new_app render router options = apply_app_options options (record {
    router = router;
    middlewares = recovery render [] ∷ [];
    pool = [];
    handler = none;
    error_handler = default_error_handler;
  })

  unfoldable pub use_global : Middleware S → App S R → App S R
  use_global m a = record a { middlewares = a.middlewares ++ (m ∷ []) }

  -- once.Do: only the first call compiles.
  unfoldable pub setup : App S R → App S R
  unfolding compile
  setup a = elim a.handler [
    | some _ ↦ a
    | none ↦ record a { handler = some (λ dispatch. compile dispatch a.middlewares) }
  ]

-- WrapHTTPHandler: `serve` is the ServeHTTP of the wrapped handler.
abbrev pub wrap_http_handler : {S : Type 0} → Act S (Unit {0}) → Handler S
wrap_http_handler serve = do serve; pure nil

abbrev or_same : Context → Option Context → Context
or_same c none = c
or_same c (some c') = c'

module _ {S R : Type 0} (ops : Router S R) where
  abbrev with_state : App S R → Error × R → Error × App S R
  with_state a (e, r) = (e, record a { router = r })

  unfoldable pub app_add : Str → Str → Handler S → List (Middleware S) → App S R → Error × App S R
  app_add method path h ms a = with_state a (ops.add method path h ms a.router)

  -- GET, POST and the others.
  unfoldable pub app_verb :
      Method.Verb → Str → Handler S → List (Middleware S) → App S R → Error × App S R
  app_verb verb path h ms a = with_state a (ops.add (Method.name verb) path h ms a.router)

  unfoldable pub app_any : Str → Handler S → List (Middleware S) → App S R → Error × App S R
  unfolding add_each
  app_any path h ms a = with_state a (add_each ops Method.standard path h ms a.router)

  -- Mount: the path itself, and if that went well all that is below it.
  unfoldable pub app_mount : Str → Act S (Unit {0}) → App S R → Error × App S R
  unfolding app_any wildcard_path
  app_mount path serve a =
      let h = wrap_http_handler serve in
      let (e, a') = app_any path h [] a in
      if is_nil e then app_any (wildcard_path path) h [] a' else (e, a')

  unfoldable pub app_find : Str → Str → App S R → FindResult S
  app_find method path a = (ops.find method path none a.router).0

  -- Calling a route's handler.
  abbrev call_route : Route S → Handler S
  call_route route c s = elim route.handler [ none ↦ panicked nil_dereference c s | some h ↦ h c s ]

  abbrev answer : App S R → FindResult S → Handler S
  answer a (found route) = call_route route
  answer a (failed e) = do a.error_handler e not_found; pure nil

  unfoldable pub dispatch : App S R → Handler S
  unfolding the_request
  dispatch a = do
    r ← the_request
    λ c s.
        let (result, ctx) = ops.find r.method r.path (some c) a.router in
        answer a result (or_same c ctx) s

  -- The context comes from the pool, or is new, and goes back whether the handler returned or not.
  abbrev take_context : List Context → Context × List Context
  take_context [] = (new_context none none [], [])
  take_context (c ∷ pool) = (c, pool)

  abbrev final_context : {A : Type 0} → Outcome S A → Context
  final_context (returned a c s) = c
  final_context (panicked v c s) = c

  abbrev run : App S R → Handler S
  run a = elim a.handler [ none ↦ panic nil_dereference | some chain ↦ chain (dispatch a) ]

  abbrev pub handle_error : App S R → Error → Act S (Unit {0})
  handle_error a e = if is_nil e then pure tt else a.error_handler e internal_server_error

  unfoldable pub serve_http : Writer → Request → App S R → S → Outcome S (Unit {0}) × App S R
  unfolding setup dispatch reset new_context
  serve_http w r a s =
      let a' = setup a in
      let (c, pool) = take_context a'.pool in
      let outcome = (do e ← run a'; handle_error a' e) (reset w r c) s in
      (outcome, record a' { pool = final_context outcome ∷ pool })
