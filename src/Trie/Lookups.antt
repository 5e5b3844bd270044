-- ===== src/Trie/Lookups.antt =====
-- What Find returns, in terms of the table of routes and of the pattern that it prefers.
use amaro.Prelude.{
  suc, ◌≡◌, refl, ◌↔◌, inl, inr, ap, ◌∙◌, List, [], ◌∷◌, map, Option, some, Str, str_eq_self,
  is_empty, if◌then◌else◌, All, arith, Option-cases, length,
}
use amaro.Prelude.Assoc.{load}
use amaro.Strings.{split, trim, starts_with_byte, ends_with_byte, drop_first, drop_last}
use amaro.Strings.Parts.{nonempty, parts, parts-sep, parts-trim, parts-drop_first, parts-drop_last}
use amaro.Errors.{nil}
use amaro.Trie.Matching.{Matches, noted, slash, end, literal, argument, remainder, nothing_left}
use amaro.Context.{Context, Param, Handler, Middleware}
use amaro.Routing.{Route, RouterConfig, Segment, static, param, wildcard, classify, found}
use amaro.Trie.{Node, node, TrieRouter, normalize_path, pieces, or_new, get_child, route_of, add}
use amaro.Trie.Table.{route_at, segments, pattern_eq_self, route_at-empty_node, NodePtr-cases}
use amaro.Trie.Choice.{Prefers}
use amaro.Trie.Search.{search_path, find, or_failed}
use amaro.Trie.Complete.{find_loop-found}
use amaro.Trie.Registered.{pattern, table, find-IsMatch, add-refines_table}

parts-search_path : (path : Str) → parts b'/' (search_path path) ≡ parts b'/' path
unfolding search_path
parts-search_path path =
    parts-shortened (if starts_with_byte b'/' path then drop_first path else path) ∙ front
  where
    parts-shortened :
        (p : Str) → parts b'/' (if ends_with_byte b'/' p then drop_last p else p) ≡ parts b'/' p
    parts-shortened p = ground (arith, parts-drop_last b'/' p)

    front :
        parts b'/' (if starts_with_byte b'/' path then drop_first path else path) ≡ parts b'/' path
    front = ground (arith, parts-drop_first b'/' path)

-- Add reads the same pieces off a path as Find does.
nonempty-pieces : (path : Str) → nonempty (pieces path) ≡ parts b'/' path
unfolding pieces parts
nonempty-pieces path = one_empty (trim b'/' path) ∙ parts-trim b'/' path
  where
    one_empty :
        (s : Str) → nonempty (if is_empty s then [] else split b'/' s) ≡ nonempty (split b'/' s)
    one_empty [] = refl
    one_empty (c ∷ s) = refl

parts-normalize_path : (path : Str) → parts b'/' (normalize_path path) ≡ parts b'/' path
unfolding normalize_path
parts-normalize_path [] = parts-sep b'/' []
parts-normalize_path (c ∷ s) = ground (arith, parts-sep b'/' (c ∷ s))

pattern-eq-map :
    (cfg : RouterConfig) (path : Str) → pattern cfg path ≡ map (classify cfg) (parts b'/' path)
unfolding segments
pattern-eq-map cfg path =
    ap (map (classify cfg)) (nonempty-pieces (normalize_path path) ∙ parts-normalize_path path)

map-classify :
    (cfg : RouterConfig) (vs : List Str)
    → All (λ v. classify cfg v ≡ static v) vs
    → map (classify cfg) vs ≡ map static vs
map-classify cfg [] h = refl
map-classify cfg (v ∷ vs) (e, h) = cc (e, map-classify cfg vs h)

-- A static pattern binds nothing.
StaticOnly : List Segment → Type 0
StaticOnly [] = Unit
StaticOnly (static s ∷ p) = StaticOnly p
StaticOnly (_ ∷ p) = ⊥

StaticOnly-map : (vs : List Str) → StaticOnly (map static vs)
unfolding StaticOnly
StaticOnly-map [] = tt
StaticOnly-map (v ∷ vs) = StaticOnly-map vs

Matches-static_bindings :
    {p : List Segment} {path : Str} {ps : List Param} → Matches p path ps → StaticOnly p → ps ≡ []
unfolding StaticOnly
Matches-static_bindings (slash e m) h = Matches-static_bindings m h
Matches-static_bindings end h = refl
Matches-static_bindings (literal piece m) h = Matches-static_bindings m h
Matches-static_bindings (argument piece m) h = elim h [ ]
Matches-static_bindings (remainder piece) h = elim h [ ]
Matches-static_bindings nothing_left h = elim h [ ]

module _ {S : Type 0} where
  find-of_preferred :
      (method path : Str) (ctx : Option Context) (r : TrieRouter S) (route : Route S)
      (p : List Segment)
      → table method p r ≡ some route
      → Prefers p (parts b'/' path) (or_new (load method r.root))
      → (ctx' : Option Context) × (find method path ctx r ≡ (found route, ctx'))
  unfolding table find
  find-of_preferred method path ctx r route p stored h = elim (Option-cases (load method r.root)) [
    | inl e ↦ absurd (ground (arith, route_at-empty_node {S = S} p))
    | inr (n, e) ↦
        let (ctx', done) =
          find_loop-found (suc (length (search_path path))) (search_path path) n ctx p route
            (omega arith) (rw e at stored) (rw parts-search_path (rw e at h)) in
        (ctx', rw (e, find) (ap (or_failed ctx) done))
  ]

  -- On any router: Find returns a route exactly if the router's table holds it, for the method, under
  -- the pattern that the walk over the non-empty pieces of the path prefers.
  pub find-found_iff :
      (method path : Str) (ctx : Option Context) (r : TrieRouter S) (route : Route S)
      → ((ctx' : Option Context) × (find method path ctx r ≡ (found route, ctx'))) ↔ (
          (p : List Segment) × (table method p r ≡ some route)
          × Prefers p (parts b'/' path) (or_new (load method r.root)))
  unfolding table
  find-found_iff method path ctx r route = (
    λ (ctx', h).
        let m = find-IsMatch method path ctx ctx' r route h in
        (m.pattern_of, m.stored, rw parts-search_path at m.preferred),
    λ (p, stored, h). find-of_preferred method path ctx r route p stored h,
  )

  -- Static names that a trie has a route under are preferred to all else.
  Prefers-static :
      (names : List Str) (n : Node S) (r : Route S)
      → route_at (map static names) n ≡ some r
      → Prefers (map static names) names n
  unfolding route_at
  Prefers-static [] n r h = tt
  Prefers-static (s ∷ names) (node cs p px w wx own) r h = elim (NodePtr-cases (get_child s cs)) [
    | inl e ↦ absurd (ground arith)
    | inr (m, e) ↦ (refl, rw e (Prefers-static names m r (rw e at h)))
  ]

  -- Where a static path has a route, no other pattern is preferred.
  Prefers-StaticOnly :
      (names : List Str) (q : List Segment) (n : Node S) (r : Route S)
      → route_at (map static names) n ≡ some r
      → Prefers q names n
      → StaticOnly q
  unfolding route_at StaticOnly
  Prefers-StaticOnly [] [] n r h k = tt
  Prefers-StaticOnly [] (wildcard x ∷ []) (node cs p px w wx own) r h k = absurd (ground arith)
  Prefers-StaticOnly (v ∷ vs) (static s ∷ q) (node cs p px w wx own) r h k =
      elim (NodePtr-cases (get_child v cs)) [
        | inl e ↦ absurd (ground arith)
        | inr (m, e) ↦ Prefers-StaticOnly vs q m r (rw e at h) (rw (k.0, e) at k.1)
      ]
  Prefers-StaticOnly (v ∷ vs) (param x ∷ q) (node cs p px w wx own) r h k = absurd (ground arith)
  Prefers-StaticOnly (v ∷ vs) (wildcard x ∷ []) (node cs p px w wx own) r h k =
      absurd (ground arith)
  Prefers-StaticOnly [] (static s ∷ q) n r h k = elim k [ ]
  Prefers-StaticOnly [] (param s ∷ q) n r h k = elim k [ ]
  Prefers-StaticOnly [] (wildcard s ∷ t ∷ q) n r h k = elim k [ ]
  Prefers-StaticOnly (v ∷ vs) [] n r h k = elim k [ ]
  Prefers-StaticOnly (v ∷ vs) (wildcard s ∷ t ∷ q) n r h k = elim k [ ]

  Prefers-static_table :
      (method : Str) (names : List Str) (r : TrieRouter S) {route : Route S}
      → table method (map static names) r ≡ some route
      → Prefers (map static names) names (or_new (load method r.root))
  unfolding table
  Prefers-static_table method names r {route} h =
      Prefers-static names (or_new (load method r.root)) route h

  table-StaticOnly :
      (method : Str) (names : List Str) (r : TrieRouter S) (q : List Segment) {route : Route S}
      → table method (map static names) r ≡ some route
      → Prefers q names (or_new (load method r.root))
      → StaticOnly q
  unfolding table
  table-StaticOnly method names r q {route} h k =
      Prefers-StaticOnly names q (or_new (load method r.root)) route h k

  -- Add of a path whose pieces are all static, if it succeeds, is found again: by every path with the
  -- same non-empty pieces, with the handler that it was given inside the router's middlewares and its
  -- own, whatever else is registered, and with no parameter set.
  pub find-add_static :
      (method path path' : Str) (h : Handler S) (ms : List (Middleware S)) (r : TrieRouter S)
      (ctx : Option Context)
      → All (λ v. classify r.config v ≡ static v) (parts b'/' path)
      → parts b'/' path' ≡ parts b'/' path
      → (add method path h ms r).0 ≡ nil
      → find method path' ctx (add method path h ms r).1
        ≡ (found (route_of method path h ms r), ctx)
  find-add_static method path path' h ms r ctx fixed same fine =
      let names = parts b'/' path in
      let p : pattern r.config path ≡ map static names =
        pattern-eq-map r.config path ∙ map-classify r.config names fixed in
      let stored : table method (map static names) (add method path h ms r).1
          ≡ some (route_of method path h ms r) =
        ground (
          arith,
          add-refines_table method path h ms r method (map static names),
          pattern_eq_self (map static names),
          str_eq_self method,
        ) in
      let (ctx', done) =
        find-of_preferred method path' ctx (add method path h ms r).1 _ (map static names) stored
          (rw same (Prefers-static_table method names _ stored)) in
      let m = find-IsMatch method path' ctx ctx' (add method path h ms r).1 _ done in
      let only : StaticOnly m.pattern_of =
        table-StaticOnly method names (add method path h ms r).1 m.pattern_of stored
          (rw (parts-search_path, same) at m.preferred) in
      let unbound : m.bindings ≡ [] = Matches-static_bindings m.matched only in
      rw done (
        ap (λ k. (found (route_of method path h ms r), k))
          (m.context ∙ ap (λ ps. noted ps ctx) unbound))
