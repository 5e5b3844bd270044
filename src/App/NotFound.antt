-- ===== src/App/NotFound.antt =====
-- A request that no route matches, on an App with the trie router and the default error handler.
use amaro.Prelude.{ℕ, ◌≡◌, refl, ◌∙◌, ◌⊎◌, inl, inr, Option, none, some, Str, codes, arith}
use amaro.Errors.{Error, nil, new_http_error}
use amaro.Http.{Writer, Request, http_error}
use amaro.Context.{Context, Outcome, returned, ◌>>◌, pure, on_writer}
use amaro.Context.Steps.{the_request-bind}
use amaro.Routing.{FindResult, failed}
use amaro.Trie.{TrieRouter}
use amaro.Trie.Search.{find, trie_router, route_error, method_error}
use amaro.Trie.Search.Failure.{Kept, IsMiss, find-Allowed}
use amaro.App.{App, default_error_handler, dispatch, answer, or_same}

http_error-sent :
    (message : Str) (code : ℕ) (w : Writer)
    → w.sent ≡ none
    → (http_error message code w).sent
      ≡ some (record { status = code; header = (http_error message code w).header })
unfolding http_error
http_error-sent message code w e = ground (arith, e)

module _ {S : Type 0} where
  -- The answer to a miss, with the text of the error.
  record Is404 (w : Writer) (s : S) (o : Outcome S Error) : Type 0 where
    pub context : Context
    pub text : Str
    pub outcome : o ≡ returned nil context s
    pub writer : context.writer ≡ some (http_error text 404 w)

  written-Is404 :
      (e : Error) (text : Str) (c : Context) (w : Writer) (s : S)
      → (default_error_handler {S = S} e 404 ≡ on_writer (http_error text 404))
      → c.writer ≡ some w
      → Is404 w s ((do default_error_handler {S = S} e 404; pure nil) c s)
  unfolding on_writer
  written-Is404 e text c w s h k = record {
    context = record c { writer = some (http_error text 404 w) };
    text = text;
    outcome = rw h (rw k);
    writer = refl;
  }

  handled-Is404 :
      (e : Error) (c : Context) (w : Writer) (s : S)
      → (e ≡ route_error) ⊎ (e ≡ method_error)
      → c.writer ≡ some w
      → Is404 w s ((do default_error_handler {S = S} e 404; pure nil) c s)
  unfolding default_error_handler new_http_error
  handled-Is404 e c w s (inl h) k =
      rw h (written-Is404 route_error (codes "route not found") c w s refl k)
  handled-Is404 e c w s (inr h) k =
      rw h (written-Is404 method_error (codes "method not found") c w s refl k)

  miss-Is404 :
      (a : App S (TrieRouter S)) (c : Context) (w : Writer) (s : S) (e : Error)
      (x : FindResult S × Option Context)
      → a.error_handler ≡ default_error_handler
      → c.writer ≡ some w
      → x.0 ≡ failed e
      → IsMiss x.0 × Kept c x.1
      → Is404 w s (answer trie_router a x.0 (or_same c x.1) s)
  miss-Is404 a c w s e (result, none) default k h (miss, kept) = elim kept [ ]
  miss-Is404 a c w s e (result, some c') default k h (miss, kept) =
      rw (h, default) (handled-Is404 e c' w s (rw h at miss) (kept.writer ∙ k))

  -- With the default error handler and the trie router, a request for which Find returns an error
  -- (no route for the method, or none that matches) is answered 404, by a handler that returns no
  -- error, if nothing was sent before.
  pub dispatch_not_found :
      (a : App S (TrieRouter S)) (c : Context) (q : Request) (w : Writer) (s : S) (e : Error)
      → a.error_handler ≡ default_error_handler
      → c.request ≡ some q
      → c.writer ≡ some w
      → w.sent ≡ none
      → (find q.method q.path (some c) a.router).0 ≡ failed e
      → (c' : Context) × (w' : Writer) × (dispatch trie_router a c s ≡ returned nil c' s)
        × (c'.writer ≡ some w')
        × (w'.sent ≡ some (record { status = 404; header = w'.header }))
  unfolding dispatch
  dispatch_not_found a c q w s e default asked k unsent h =
      let done =
        miss-Is404 a c w s e (find q.method q.path (some c) a.router) default k h
          (find-Allowed c q.method q.path a.router) in
      (
        done.context,
        http_error done.text 404 w,
        the_request-bind c s _ asked ∙ done.outcome,
        done.writer,
        http_error-sent done.text 404 w unsent,
      )
