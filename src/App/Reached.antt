-- ===== src/App/Reached.antt =====
-- Which handler a request to a registered path reaches.
use amaro.Prelude.{
  ◌≡◌, refl, ◌∙◌, List, [], ◌∷◌, ◌++◌, some, Str, All, is_empty, arith, if◌then◌else◌,
}
use amaro.Strings.Parts.{parts}
use amaro.Errors.{nil}
use amaro.Http.{Request}
use amaro.Context.{Context, Handler, Middleware}
use amaro.Context.Steps.{the_request-bind}
use amaro.Routing.{static, classify, compile}
use amaro.Trie.{TrieRouter, route_of}
use amaro.Trie.Search.{trie_router}
use amaro.Trie.Lookups.{find-add_static}
use amaro.App.{App, app_add, dispatch}

module _ {S : Type 0} where
  compile-route_of :
      (method path : Str) (h : Handler S) (ms : List (Middleware S)) (r : TrieRouter S)
      → (route_of method path h ms r).handler ≡ some (compile h (r.global_middlewares ++ ms))
  unfolding route_of compile
  compile-route_of method path h ms r = by_list (r.global_middlewares ++ ms)
    where
      by_list :
          (combined : List (Middleware S))
          → some (if is_empty combined then h else compile h combined) ≡ some (compile h combined)
      by_list [] = refl
      by_list (m ∷ rest) = refl

  -- A route that an App with the trie router was given for a path whose pieces are all static, by an
  -- Add that returned no error, is reached: a request of its method, for a path with the same non-empty
  -- pieces, runs its handler inside its middlewares and these inside the router's, on the context as
  -- it is, whatever else is registered.
  pub dispatch_added :
      (a : App S (TrieRouter S)) (path : Str) (h : Handler S) (ms : List (Middleware S))
      (c : Context) (q : Request) (s : S)
      → c.request ≡ some q
      → All (λ v. classify a.router.config v ≡ static v) (parts b'/' path)
      → parts b'/' q.path ≡ parts b'/' path
      → (app_add trie_router q.method path h ms a).0 ≡ nil
      → dispatch trie_router (app_add trie_router q.method path h ms a).1 c s
        ≡ compile h (a.router.global_middlewares ++ ms) c s
  unfolding dispatch app_add
  dispatch_added a path h ms c q s asked fixed same fine =
      the_request-bind c s _ asked
      ∙ rw (find-add_static q.method path q.path h ms a.router (some c) fixed same fine)
          (ground (arith, compile-route_of q.method path h ms a.router))
