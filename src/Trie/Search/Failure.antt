-- ===== src/Trie/Search/Failure.antt =====
-- What Find does where it finds nothing, and to the context.
use amaro.Prelude.{
  ℕ, zero, suc, ◌≡◌, refl, ◌⊎◌, inl, inr, [], ◌∷◌, Option, none, some, Str, is_empty, length,
  Bool-cases, Option-cases,
}
use amaro.Prelude.Assoc.{load}
use amaro.Strings.{cut}
use amaro.Context.{Context, add_param}
use amaro.Routing.{Route, FindResult, found, failed}
use amaro.Trie.{Node, node, NodePtr, absent, ptr, get_child, TrieRouter}
use amaro.Trie.Table.{NodePtr-cases}
use amaro.Trie.Search.{
  own_route, route_error, method_error, route_not_found, go_on, return, note_param, route_or,
  at_end, next_round, after_round, find_loop, search_path, or_failed, find,
}

-- A context with the writer, request and keys of `c`, whatever its parameters.
pub record SameButParams (c c' : Context) : Type 0 where
  pub request : c'.request ≡ c.request
  pub writer : c'.writer ≡ c.writer
  pub keys : c'.keys ≡ c.keys

abbrev pub Kept : Context → Option Context → Type 0
Kept c none = ⊥
Kept c (some c') = SameButParams c c'

note_param-Kept :
    (c : Context) (k v : Str) (ctx : Option Context) → Kept c ctx → Kept c (note_param k v ctx)
unfolding add_param
note_param-Kept c k v none h = elim h [ ]
note_param-Kept c k v (some c') h = record { request = h.request; writer = h.writer; keys = h.keys }

module _ {S : Type 0} where
  abbrev pub IsMiss : FindResult S → Type 0
  IsMiss (found route) = Unit
  IsMiss (failed e) = (e ≡ route_error) ⊎ (e ≡ method_error)

  module _ (c : Context) where
    abbrev Allowed : FindResult S × Option Context → Type 0
    Allowed (result, ctx) = IsMiss result × Kept c ctx

    route_or-IsMiss : (r : Route S) → IsMiss (route_or r route_not_found)
    route_or-IsMiss r = elim (Option-cases r.handler) [
      | inl e ↦ rw e (inl refl)
      | inr (h, e) ↦ rw e tt
    ]

    at_end-Allowed : (n : Node S) (ctx : Option Context) → Kept c ctx → Allowed (at_end n ctx)
    unfolding at_end
    at_end-Allowed (node cs p px absent wx r) ctx h = elim (Option-cases r.handler) [
      | inl e ↦ rw (e, at_end) (inl refl, h)
      | inr (hd, e) ↦ rw (e, at_end) (tt, h)
    ]
    at_end-Allowed (node cs p px (ptr m) wx r) ctx h = elim (Option-cases r.handler) [
      | inl e ↦ rw (e, at_end) (route_or-IsMiss (own_route m), note_param-Kept c wx [] ctx h)
      | inr (hd, e) ↦ rw (e, at_end) (tt, h)
    ]

    abbrev AllowedIf : Option (FindResult S × Option Context) → Type 0
    AllowedIf none = Unit
    AllowedIf (some x) = Allowed x

    next_round-Allowed :
        (rest : Node S → Option Context → Option (FindResult S × Option Context)) (part path : Str)
        (n : Node S) (ctx : Option Context)
        → ((m : Node S) (k : Option Context) → Kept c k → AllowedIf (rest m k))
        → Kept c ctx
        → AllowedIf (after_round rest (next_round part path n ctx))
    unfolding next_round
    next_round-Allowed rest part path (node cs p px w wx r) ctx ih h =
        elim (NodePtr-cases (get_child part cs)) [
          | inr (m, e) ↦ rw (e, next_round) (ih m ctx h)
          | inl e ↦ rw (e, next_round) (beside p w)
        ]
      where
        beside :
            (p w : NodePtr S)
            → AllowedIf (
                after_round rest (elim p [
                  | ptr m ↦ go_on m (note_param px part ctx)
                  | absent ↦ elim w [
                    | ptr m ↦
                        return (route_or (own_route m) route_not_found) (note_param wx path ctx)
                    | absent ↦ return route_not_found ctx
                  ]
                ]))
        beside (ptr m) w = ih m (note_param px part ctx) (note_param-Kept c px part ctx h)
        beside absent absent = (inl refl, h)
        beside absent (ptr m) = (route_or-IsMiss (own_route m), note_param-Kept c wx path ctx h)

    find_loop-Allowed :
        (fuel : ℕ) (path : Str) (n : Node S) (ctx : Option Context)
        → Kept c ctx
        → AllowedIf (find_loop fuel path n ctx)
    unfolding find_loop
    find_loop-Allowed zero path n ctx h = tt
    find_loop-Allowed (suc fuel) [] n ctx h = at_end-Allowed n ctx h
    find_loop-Allowed (suc fuel) (b ∷ s) n ctx h =
        let (part, rest) = cut b'/' (b ∷ s) in
        elim (Bool-cases (is_empty part)) [
          | inl e ↦ rw e (find_loop-Allowed fuel rest n ctx h)
          | inr e ↦ rw e (
              next_round-Allowed (find_loop fuel rest) part (b ∷ s) n ctx
                (find_loop-Allowed fuel rest) h)
        ]

    or_failed-Allowed :
        (o : Option (FindResult S × Option Context)) → AllowedIf o → Allowed (or_failed (some c) o)
    or_failed-Allowed none h = (inl refl, record { request = refl; writer = refl; keys = refl })
    or_failed-Allowed (some x) h = h

    -- Find changes nothing of the caller's context but its parameters, and its only errors are that
    -- no route was registered for the method, and the 404 that the route was not found.
    pub find-Allowed :
        (method path : Str) (r : TrieRouter S)
        → IsMiss (find method path (some c) r).0 × Kept c (find method path (some c) r).1
    unfolding find
    find-Allowed method path r = elim (Option-cases (load method r.root)) [
      | inl e ↦ rw (e, find) (inr refl, record { request = refl; writer = refl; keys = refl })
      | inr (n, e) ↦
          rw (e, find)
            (or_failed-Allowed _ (
              find_loop-Allowed (suc (length (search_path path))) (search_path path) n (some c)
                (record { request = refl; writer = refl; keys = refl })))
    ]
