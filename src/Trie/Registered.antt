-- ===== src/Trie/Registered.antt =====
-- The router as a table from methods and patterns to routes: what Add does to it, and that whatever
-- Find returns was registered for the request's method under a path that matches the request's.
use amaro.Prelude.{
  ◌≡◌, refl, inl, inr, ap, ◌&&◌, List, [], ◌∷◌, Option, none, some, Str, str_eq, str_eq_iff,
  if◌then◌else◌, arith, Option-cases, length, suc,
}
use amaro.Prelude.Assoc.{load, load-store}
use amaro.Errors.{is_nil}
use amaro.Context.{Context, Param, Handler, Middleware}
use amaro.Routing.{Route, RouterConfig, Segment, FindResult, found}
use amaro.Trie.{
  TrieRouter, insert, normalize_path, pieces, or_new, new_trie_router, use_middleware,
  TrieRouterOption, root-new_trie_router, route_of, add,
}
use amaro.Trie.Table.{
  route_at, segments, pattern_eq, pattern_eq_sound, insert-refines_update, route_at-empty_node,
}
use amaro.Trie.Search.{search_path, find, or_failed}
use amaro.Trie.Matching.{Matches, noted, IsMatch, find_loop-IsMatch}

-- The pattern that a path is registered under.
abbrev pub pattern : RouterConfig → Str → List Segment
pattern cfg path = segments cfg (pieces (normalize_path path))

normalize_path_idem : (path : Str) → normalize_path (normalize_path path) ≡ normalize_path path
unfolding normalize_path
normalize_path_idem [] = refl
normalize_path_idem (c ∷ s) = ground arith

module _ {S : Type 0} where
  -- The route that the router holds for a method and a pattern.
  unfoldable pub table : Str → List Segment → TrieRouter S → Option (Route S)
  unfolding load route_at
  table method p r = route_at p (or_new (load method r.root))

  -- Add writes the compiled route under its method and pattern, and leaves every other entry of
  -- the table as it was; if it returns an error it leaves them all.
  pub add-refines_table :
      (method path : Str) (h : Handler S) (ms : List (Middleware S)) (r : TrieRouter S)
      (method' : Str) (p : List Segment)
      → table method' p (add method path h ms r).1 ≡ (
          if is_nil (add method path h ms r).0
            && (str_eq method method' && pattern_eq (pattern r.config path) p)
          then some (route_of method path h ms r)
          else table method' p r)
  unfolding table add
  add-refines_table method path h ms r method' p = ground (
    arith,
    insert-refines_update r.config (route_of method path h ms r) (pieces (normalize_path path))
        (or_new (load method r.root)) p,
    load-store method method'
        (insert r.config (route_of method path h ms r) (pieces (normalize_path path))
          (or_new (load method r.root))).1
        r.root,
    str_eq_iff method method',
  )

  -- The routers that the package's exported functions build.
  pub data Built : TrieRouter S → Type 0 where
    created : (options : List TrieRouterOption) → Built (new_trie_router options)
    used : {r : TrieRouter S} (m : Middleware S) → Built r → Built (use_middleware m r)
    added :
        {r : TrieRouter S} (method path : Str) (h : Handler S) (ms : List (Middleware S))
        → Built r
        → Built (add method path h ms r).1

  -- Every route is filed under its own method and path.
  pub record IsConsistent (r : TrieRouter S) : Type 0 where
    pub filed :
        (method : Str) (p : List Segment) (route : Route S)
        → table method p r ≡ some route
        → (route.method ≡ method) × (pattern r.config route.path ≡ p)

  config-add :
      (method path : Str) (h : Handler S) (ms : List (Middleware S)) (r : TrieRouter S)
      → (add method path h ms r).1.config ≡ r.config
  unfolding add
  config-add method path h ms r = refl

  path-route_of :
      (method path : Str) (h : Handler S) (ms : List (Middleware S)) (r : TrieRouter S)
      → ((route_of method path h ms r).method ≡ method)
        × ((route_of method path h ms r).path ≡ normalize_path path)
  unfolding route_of
  path-route_of method path h ms r = (refl, refl)

  add-IsConsistent :
      (method path : Str) (h : Handler S) (ms : List (Middleware S)) {r : TrieRouter S}
      → IsConsistent r
      → IsConsistent (add method path h ms r).1
  add-IsConsistent method path h ms {r} c = record {
    filed = λ method' p route e. ground (
      arith,
      add-refines_table method path h ms r method' p,
      c.filed method' p route,
      config-add method path h ms r,
      path-route_of method path h ms r,
      normalize_path_idem path,
      str_eq_iff method method',
      pattern_eq_sound (pattern r.config path) p,
    );
  }

  created-IsConsistent : (options : List TrieRouterOption) → IsConsistent (new_trie_router options)
  unfolding table
  created-IsConsistent options = record {
    filed = λ method p route e.
        ground (arith, root-new_trie_router {S = S} options, route_at-empty_node {S = S} p);
  }

  used-IsConsistent :
      (m : Middleware S) {r : TrieRouter S} → IsConsistent r → IsConsistent (use_middleware m r)
  unfolding use_middleware table
  used-IsConsistent m c = record { filed = c.filed }

  Built-IsConsistent : {r : TrieRouter S} → Built r → IsConsistent r
  Built-IsConsistent (created options) = created-IsConsistent options
  Built-IsConsistent (used m b) = used-IsConsistent m (Built-IsConsistent b)
  Built-IsConsistent (added method path h ms b) =
      add-IsConsistent method path h ms (Built-IsConsistent b)

  -- What a route returned by Find has to do with the request.
  pub record IsAnswer (method path : Str) (ctx : Option Context) (r : TrieRouter S)
      (route : Route S) (ctx' : Option Context) : Type 0 where
    pub same_method : route.method ≡ method
    pub bindings : List Param
    pub matched : Matches (pattern r.config route.path) (search_path path) bindings
    pub context : ctx' ≡ noted bindings ctx
    pub listed : table method (pattern r.config route.path) r ≡ some route

  found_in_loop :
      (ctx ctx' : Option Context) (route : Route S) (o : Option (FindResult S × Option Context))
      → or_failed ctx o ≡ (found route, ctx')
      → o ≡ some (found route, ctx')
  found_in_loop ctx ctx' route none h = absurd (ground arith)
  found_in_loop ctx ctx' route (some x) h = ap some h

  pub find-IsMatch :
      (method path : Str) (ctx ctx' : Option Context) (r : TrieRouter S) (route : Route S)
      → find method path ctx r ≡ (found route, ctx')
      → IsMatch (search_path path) (or_new (load method r.root)) ctx route ctx'
  unfolding find
  find-IsMatch method path ctx ctx' r route h = elim (Option-cases (load method r.root)) [
    | inl e ↦ absurd (ground arith)
    | inr (n, e) ↦ rw e (
        find_loop-IsMatch (suc (length (search_path path))) (search_path path) n ctx ctx' route
          (found_in_loop ctx ctx' route _ (rw (e, find) at h)))
  ]

  -- On a router that New, Use and Add built: the route that Find returns was registered for the
  -- request's method, the pattern of the path it was registered under matches the request's path,
  -- less one slash at either end, and the context has got the parameters of that match and no more.
  pub find-IsAnswer :
      (method path : Str) (ctx ctx' : Option Context) (r : TrieRouter S) (route : Route S)
      → Built r
      → find method path ctx r ≡ (found route, ctx')
      → IsAnswer method path ctx r route ctx'
  unfolding table
  find-IsAnswer method path ctx ctx' r route b h =
      let m = find-IsMatch method path ctx ctx' r route h in
      let (same_method, same_pattern) =
        (Built-IsConsistent b).filed method m.pattern_of route m.stored in
      record {
        same_method = same_method;
        bindings = m.bindings;
        matched = rw same_pattern m.matched;
        context = m.context;
        listed = rw same_pattern m.stored;
      }
