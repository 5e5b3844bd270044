-- ===== src/Trie/Everywhere.antt =====
-- Registration for all methods at once, on the trie.
use amaro.Prelude.{
  ◌≡◌, refl, Bool, false, ◌&&◌, ◌||◌, List, [], ◌∷◌, some, Str, str_eq, str_eq_iff, if◌then◌else◌,
  arith,
}
use amaro.Errors.{nil}
use amaro.Context.{Handler, Middleware}
use amaro.Routing.{Segment, add_each}
use amaro.Trie.{TrieRouter, route_of, add}
use amaro.Trie.Table.{pattern_eq}
use amaro.Trie.Search.{trie_router}
use amaro.Trie.Registered.{pattern, table, add-refines_table}

abbrev pub elem : Str → List Str → Bool
elem k [] = false
elem k (j ∷ js) = str_eq j k || elem k js

module _ {S : Type 0} where
  -- The route of Add reads nothing of a router but its middlewares.
  route_of-add :
      (m path m' path' : Str) (h h' : Handler S) (ms ms' : List (Middleware S)) (r : TrieRouter S)
      → route_of m path h ms (add m' path' h' ms' r).1 ≡ route_of m path h ms r
  unfolding route_of add
  route_of-add m path m' path' h h' ms ms' r = refl

  pub pattern-add :
      (m path path' : Str) (h : Handler S) (ms : List (Middleware S)) (r : TrieRouter S)
      → pattern (add m path h ms r).1.config path' ≡ pattern r.config path'
  unfolding add
  pattern-add m path path' h ms r = refl

  -- The loop of Any, over any list of methods: if it returns no error, the table holds the route
  -- under each of the methods and the path's pattern, and all else is as before.
  pub add_each-refines_table :
      (methods : List Str) (path : Str) (h : Handler S) (ms : List (Middleware S))
      (r : TrieRouter S) (method : Str) (p : List Segment)
      → (add_each trie_router methods path h ms r).0 ≡ nil
      → table method p (add_each trie_router methods path h ms r).1 ≡ (
          if elem method methods && pattern_eq (pattern r.config path) p
          then some (route_of method path h ms r)
          else table method p r)
  unfolding add_each
  add_each-refines_table [] path h ms r method p e = refl
  add_each-refines_table (m ∷ methods) path h ms r method p e = ground (
    arith,
    add_each-refines_table methods path h ms (add m path h ms r).1 method p,
    add-refines_table m path h ms r method p,
    str_eq_iff m method,
    route_of-add method path m path h h ms ms r,
    pattern-add m path path h ms r,
  )
