-- ===== src/App/Serving.antt =====
-- What ServeHTTP does with requests, whatever the router: contexts from the pool, middlewares added
-- too late, and panics.
use amaro.Prelude.{
  ◌≡◌, refl, sym, ap, ◌∙◌, List, [], ◌∷◌, ◌++◌, Option, none, some, Str, codes, arith,
}
use amaro.Errors.{Any, nil}
use amaro.Http.{Writer, Request, write_header, write}
use amaro.Context.{Context, Outcome, returned, panicked, Handler, Middleware, ◌>>=◌}
use amaro.Recovery.{recovery}
use amaro.Routing.{Router, compile}
use amaro.Routing.Compiled.{compile-cons, compile-order}
use amaro.App.{ErrorHandler, App, use_global, dispatch, handle_error, serve_http}

-- The context that a handler starts from: no parameter and no key of an earlier request.
abbrev pub fresh : Writer → Request → Context
fresh w r = record { request = some r; writer = some w; params = []; keys = none }

module _ {S R : Type 0} (ops : Router S R) where
  -- The chain of middlewares that serves the next request.
  abbrev pub chain_of : App S R → Handler S → Handler S
  chain_of a next = elim a.handler [ none ↦ compile next a.middlewares | some chain ↦ chain next ]

  module _ (w : Writer) (r : Request) (s : S) where
    outcome_by_handler :
        (router : R) (ms : List (Middleware S)) (pool : List Context)
        (h : Option (Handler S → Handler S)) (eh : ErrorHandler S)
        → let a : App S R = record {
          router = router;
          middlewares = ms;
          pool = pool;
          handler = h;
          error_handler = eh;
        } in
          (serve_http ops w r a s).0
          ≡ (do e ← chain_of a (dispatch ops a); handle_error ops a e) (fresh w r) s
    unfolding serve_http
    outcome_by_handler router ms pool none eh = refl
    outcome_by_handler router ms pool (some chain) eh = refl

    -- The outcome, without the pool and without the moment at which the chain is compiled.
    pub serve_http-outcome :
        (a : App S R)
        → (serve_http ops w r a s).0
          ≡ (do e ← chain_of a (dispatch ops a); handle_error ops a e) (fresh w r) s
    serve_http-outcome a =
        outcome_by_handler a.router a.middlewares a.pool a.handler a.error_handler

    -- Whatever contexts earlier requests have left in the pool, ServeHTTP has the same outcome.
    pub serve_http-pool :
        (a : App S R) (pool : List Context)
        → (serve_http ops w r (record a { pool = pool }) s).0 ≡ (serve_http ops w r a s).0
    unfolding dispatch
    serve_http-pool a pool =
        serve_http-outcome (record a { pool = pool }) ∙ sym (serve_http-outcome a)

    abbrev pub answered : App S R → Handler S → Outcome S (Unit {0})
    answered a h = (do e ← h; handle_error ops a e) (fresh w r) s

    compile-last :
        (m : Middleware S) (h : Handler S) (ms : List (Middleware S))
        → compile h (ms ++ (m ∷ [])) ≡ compile (m h) ms
    unfolding compile
    compile-last m h ms = (compile-order h ms (m ∷ [])).1

    use_global-by_handler :
        (m : Middleware S) (a : App S R) (h : Option (Handler S → Handler S))
        → answered a (chain_of (use_global m (record a { handler = h })) (dispatch ops a))
          ≡ elim h [
            | none ↦ answered a (compile (m (dispatch ops a)) a.middlewares)
            | some chain ↦ answered a (chain (dispatch ops a))
          ]
    unfolding use_global
    use_global-by_handler m a none = ap (answered a) (compile-last m (dispatch ops a) a.middlewares)
    use_global-by_handler m a (some chain) = refl

    -- A middleware that Use adds before the first request is run by it inside the middlewares added
    -- earlier; one that it adds once the handler is compiled has no effect on any request.
    pub serve_http-use_global :
        (m : Middleware S) (a : App S R)
        → (serve_http ops w r (use_global m a) s).0 ≡ elim a.handler [
          | none ↦ answered a (compile (m (dispatch ops a)) a.middlewares)
          | some _ ↦ (serve_http ops w r a s).0
        ]
    unfolding dispatch use_global
    serve_http-use_global m a =
        serve_http-outcome (use_global m a)
        ∙ use_global-by_handler m a a.handler
        ∙ ground (arith, serve_http-outcome a)

    compiled-recovery :
        (render : Any → Str) (h : Handler S) (ms : List (Middleware S))
        → compile h (recovery render [] ∷ ms) ≡ recovery render [] (compile h ms)
    compiled-recovery render h ms = compile-cons h (recovery render []) ms

    recovery-panicked :
        (render : Any → Str) (h : Handler S) (c c' : Context) (v : Any) (s' : S) (w' : Writer)
        → h c s ≡ panicked v c' s'
        → c'.writer ≡ some w'
        → recovery render [] h c s
          ≡ returned nil
              (record c' {
                writer = some (write (codes "Internal Server Error") (write_header 500 w'));
              })
              s'
    unfolding recovery
    recovery-panicked render h c c' v s' w' e k = rw (e, recovery) (rw k)

    chain-recovery :
        (render : Any → Str) (a : App S R) (h : Handler S) (ms : List (Middleware S))
        → a.handler ≡ none
        → a.middlewares ≡ recovery render [] ∷ ms
        → chain_of a h ≡ recovery render [] (compile h ms)
    chain-recovery render a h ms e first = ground (arith, compiled-recovery render h ms)

    answered-returned :
        (a : App S R) (h : Handler S) (c' : Context) (s' : S)
        → h (fresh w r) s ≡ returned nil c' s'
        → answered a h ≡ returned tt c' s'
    answered-returned a h c' s' e = ground (arith, e)

    -- An app that has not compiled its handler yet, and whose first middleware is Recovery, as New makes
    -- it: when a handler or another middleware panics, having left a writer in the context, ServeHTTP
    -- returns, with the text of a 500 response written to that writer, and the error handler is not
    -- called.
    pub serve_http-panicked :
        (render : Any → Str) (a : App S R) (ms : List (Middleware S)) (c' : Context) (v : Any)
        (s' : S) (w' : Writer)
        → a.handler ≡ none
        → a.middlewares ≡ recovery render [] ∷ ms
        → compile (dispatch ops a) ms (fresh w r) s ≡ panicked v c' s'
        → c'.writer ≡ some w'
        → (serve_http ops w r a s).0
          ≡ returned tt
              (record c' {
                writer = some (write (codes "Internal Server Error") (write_header 500 w'));
              })
              s'
    serve_http-panicked render a ms c' v s' w' e first panics k =
        serve_http-outcome a
        ∙ ap (answered a) (chain-recovery render a (dispatch ops a) ms e first)
        ∙ answered-returned a (recovery render [] (compile (dispatch ops a) ms)) _ _
            (recovery-panicked render (compile (dispatch ops a) ms) (fresh w r) c' v s' w' panics k)
