-- ===== src/Trie/Listing/Complete.antt =====
-- The listing leaves no route out.
use mathlib.Core.List.{Memᴰ}
use mathlib.Core.List.Memᴰ.{head, append_left, append_right, append_cases}
use amaro.Prelude.{
  ◌≡◌, subst, inl, inr, List, [], ◌∷◌, some, Str, str_eq, Bool-cases, Option-cases, arith,
}
use amaro.Prelude.Assoc.{Assoc, load}
use amaro.Routing.{Route, Segment, static, param, wildcard}
use amaro.Trie.{Node, node, absent, ptr, Children, none_left, child, get_child, TrieRouter}
use amaro.Trie.Table.{NodePtr-cases, registered, route_at, route_at-empty_node}
use amaro.Trie.Registered.{table}
use amaro.Trie.Listing.{
  insert_entry, sort_entries, flatten, own_routes, walk_node, walk_pointer, walk_children,
  walk_roots, routes, comes_before,
}

module _ {S : Type 0} where
  -- The route is in the listing of some key.
  abbrev In : Route S → Assoc (List (Route S)) → Type 0
  In r entries = Memᴰ r (flatten entries)

  insert_entry-new :
      (key : Str) (rs : List (Route S)) (entries : Assoc (List (Route S))) (r : Route S)
      → Memᴰ r rs
      → In r (insert_entry key rs entries)
  unfolding insert_entry
  insert_entry-new key rs [] r h = append_left [] h
  insert_entry-new key rs ((k, ws) ∷ entries) r h = elim (Bool-cases (comes_before k key)) [
    | inl e ↦ rw e (append_right ws (insert_entry-new key rs entries r h))
    | inr e ↦ rw e (append_left _ h)
  ]

  insert_entry-old :
      (key : Str) (rs : List (Route S)) (entries : Assoc (List (Route S))) (r : Route S)
      → In r entries
      → In r (insert_entry key rs entries)
  unfolding insert_entry
  insert_entry-old key rs [] r h = append_right rs h
  insert_entry-old key rs ((k, ws) ∷ entries) r h = elim (Bool-cases (comes_before k key)) [
    | inl e ↦ rw e (elim (append_cases ws h) [
      | inl m ↦ append_left _ m
      | inr m ↦ append_right ws (insert_entry-old key rs entries r m)
    ])
    | inr e ↦ rw e (append_right rs h)
  ]

  sort_entries-In :
      (entries : Assoc (List (Route S))) (r : Route S) → In r entries → In r (sort_entries entries)
  unfolding sort_entries
  sort_entries-In [] r h = h
  sort_entries-In ((key, rs) ∷ entries) r h = elim (append_cases rs h) [
    | inl m ↦ insert_entry-new key rs (sort_entries entries) r m
    | inr m ↦ insert_entry-old key rs (sort_entries entries) r (sort_entries-In entries r m)
  ]

  registered-own : (own r : Route S) → registered own ≡ some r → Memᴰ r (own_routes own)
  registered-own own r h = elim (Option-cases own.handler) [
    | inl e ↦ absurd (ground arith)
    | inr (f, e) ↦ rw e (head (ground arith))
  ]

  walk_children-In :
      (s : Str) (cs : Children S) (m : Node S) (r : Route S)
      → get_child s cs ≡ ptr m
      → Memᴰ r (walk_node m)
      → In r (walk_children cs)
  unfolding get_child walk_node
  walk_children-In s none_left m r e h = absurd (ground arith)
  walk_children-In s (child j n cs) m r e h = elim (Bool-cases (str_eq j s)) [
    | inl same ↦
        let eq : m ≡ n = ground arith in
        append_left _ (subst (λ (k : Node S). Memᴰ r (walk_node k)) eq h)
    | inr other ↦ append_right (walk_node n) (walk_children-In s cs m r (ground arith) h)
  ]

  walk_node-complete :
      (p : List Segment) (n : Node S) (r : Route S) → route_at p n ≡ some r → Memᴰ r (walk_node n)
  unfolding route_at walk_node
  walk_node-complete [] (node cs q px w wx own) r h = append_left _ (registered-own own r h)
  walk_node-complete (static s ∷ p) (node cs q px w wx own) r h =
      elim (NodePtr-cases (get_child s cs)) [
        | inl e ↦ absurd (ground arith)
        | inr (m, e) ↦ append_right (own_routes own) (
            append_left _ (
              sort_entries-In (walk_children cs) r
                (walk_children-In s cs m r e (walk_node-complete p m r (rw e at h)))))
      ]
  walk_node-complete (param x ∷ p) (node cs absent px w wx own) r h = absurd (ground arith)
  walk_node-complete (param x ∷ p) (node cs (ptr m) px w wx own) r h =
      append_right (own_routes own) (
        append_right (flatten (sort_entries (walk_children cs)))
          (append_left _ (walk_node-complete p m r (ground arith))))
  walk_node-complete (wildcard x ∷ p) (node cs q px absent wx own) r h = absurd (ground arith)
  walk_node-complete (wildcard x ∷ p) (node cs q px (ptr m) wx own) r h =
      append_right (own_routes own) (
        append_right (flatten (sort_entries (walk_children cs)))
          (append_right (walk_pointer q) (walk_node-complete p m r (ground arith))))

  walk_roots-In :
      (method : Str) (roots : Assoc (Node S)) (n : Node S) (r : Route S)
      → load method roots ≡ some n
      → Memᴰ r (walk_node n)
      → In r (walk_roots roots)
  unfolding load walk_roots
  walk_roots-In method [] n r e h = absurd (ground arith)
  walk_roots-In method ((j, m) ∷ roots) n r e h = elim (Bool-cases (str_eq j method)) [
    | inl same ↦
        let eq : n ≡ m = ground arith in
        append_left _ (subst (λ (k : Node S). Memᴰ r (walk_node k)) eq h)
    | inr other ↦ append_right (walk_node m) (walk_roots-In method roots n r (ground arith) h)
  ]

  -- Every route in the router's table, under any method and pattern, is in the listing of Routes.
  pub routes-complete :
      (method : Str) (p : List Segment) (r : TrieRouter S) (route : Route S)
      → table method p r ≡ some route
      → Memᴰ route (routes r)
  unfolding table routes
  routes-complete method p r route h = elim (Option-cases (load method r.root)) [
    | inl e ↦ absurd (ground (arith, route_at-empty_node {S = S} p))
    | inr (n, e) ↦
        sort_entries-In (walk_roots r.root) route
          (walk_roots-In method r.root n route e (walk_node-complete p n route (rw e at h)))
  ]
