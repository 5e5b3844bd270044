-- ===== src/Trie/Listing.antt =====
-- Routes of routers/trie.go, and walkNode. The keys of a map are sorted before it is walked; here the
-- listings are sorted by the keys that they belong to, which come out in the same order.
pub mod Complete
use amaro.Prelude.{
  ℕ, ◌==◌, ltb, ◌&&◌, ◌||◌, Bool, true, false, List, [], ◌∷◌, ◌++◌, Option, none, some, Str,
  if◌then◌else◌,
}
use amaro.Prelude.Assoc.{Assoc}
use amaro.Routing.{Route}
use amaro.Trie.{Node, node, NodePtr, absent, ptr, Children, none_left, child, TrieRouter}

-- The order of strings, by bytes.
abbrev pub comes_before : Str → Str → Bool
comes_before [] [] = false
comes_before [] (b ∷ t) = true
comes_before (a ∷ s) [] = false
comes_before (a ∷ s) (b ∷ t) = ltb a b || (a == b && comes_before s t)

module _ {V : Type 0} where
  insert_entry : Str → V → Assoc V → Assoc V
  insert_entry key v [] = (key, v) ∷ []
  insert_entry key v ((k, w) ∷ entries) =
      let rest = insert_entry key v entries in
      if comes_before k key then (k, w) ∷ rest else (key, v) ∷ ((k, w) ∷ entries)

  -- sort.Strings on the keys of a map
  unfoldable pub sort_entries : Assoc V → Assoc V
  unfolding insert_entry
  sort_entries [] = []
  sort_entries ((key, v) ∷ entries) = insert_entry key v (sort_entries entries)

module _ {S : Type 0} where
  abbrev pub flatten : Assoc (List (Route S)) → List (Route S)
  flatten [] = []
  flatten ((key, routes) ∷ entries) = routes ++ flatten entries

  abbrev pub own_routes : Route S → List (Route S)
  own_routes r = elim r.handler [ none ↦ [] | some _ ↦ r ∷ [] ]

  mutual
    unfolding sort_entries

    walk_node : Node S → List (Route S)
    walk_node (node cs p px w wx r) =
        own_routes r
        ++ (flatten (sort_entries (walk_children cs)) ++ (walk_pointer p ++ walk_pointer w))

    walk_pointer : NodePtr S → List (Route S)
    walk_pointer absent = []
    walk_pointer (ptr n) = walk_node n

    walk_children : Children S → Assoc (List (Route S))
    walk_children none_left = []
    walk_children (child key n cs) = (key, walk_node n) ∷ walk_children cs

  walk_roots : Assoc (Node S) → Assoc (List (Route S))
  unfolding walk_node
  walk_roots [] = []
  walk_roots ((method, n) ∷ roots) = (method, walk_node n) ∷ walk_roots roots

  unfoldable pub routes : TrieRouter S → List (Route S)
  unfolding walk_roots sort_entries
  routes r = flatten (sort_entries (walk_roots r.root))
