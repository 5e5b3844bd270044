-- ===== src/Trie/Search.antt =====
-- Find of routers/trie.go. Its loop takes fuel: a round shortens the path that is left, so one
-- round more than the path has bytes is enough (`find_loop_total`), and `find` gives that many.
pub mod Total
pub mod Failure
use amaro.Prelude.{
  ℕ, zero, suc, Bool, true, false, ◌&&◌, not, List, [], ◌∷◌, Option, none, some, Str, codes,
  is_empty, if◌then◌else◌, length,
}
use amaro.Prelude.Assoc.{load}
use amaro.Strings.{cut, starts_with_byte, ends_with_byte, drop_first, drop_last}
use amaro.Errors.{Error, plain, string, new_http_error, not_found}
use amaro.Http.Method
use amaro.Context.{Context, Handler, Middleware, add_param}
use amaro.Routing.{Route, Router, FindResult, found, failed}
use amaro.Trie.{Node, node, NodePtr, absent, ptr, get_child, TrieRouter, add}

-- The two errors of Find.
abbrev pub route_error : Error
unfolding new_http_error
route_error = new_http_error not_found (string (codes "route not found") ∷ [])

abbrev pub method_error : Error
method_error = plain (codes "method not found")

abbrev pub route_not_found : {S : Type 0} → FindResult S
route_not_found = failed route_error

abbrev pub method_not_found : {S : Type 0} → FindResult S
method_not_found = failed method_error

-- A round of the loop goes on from a node, or returns. The caller's context, if it gave one, is
-- passed along.
pub data Round (S : Type 0) : Type 0 where
  go_on : Node S → Option Context → Round S
  return : FindResult S → Option Context → Round S

abbrev pub note_param : Str → Str → Option Context → Option Context
note_param key value none = none
note_param key value (some c) = some (add_param key value c)

module _ {S : Type 0} where
  -- `n.Handler != nil`, and the route that is returned then
  abbrev pub route_or : Route S → FindResult S → FindResult S
  route_or r otherwise = elim r.handler [ none ↦ otherwise | some _ ↦ found r ]

  abbrev pub own_route : Node S → Route S
  own_route (node cs p px w wx r) = r

  -- The path is used up.
  unfoldable pub at_end : Node S → Option Context → FindResult S × Option Context
  unfolding add_param new_http_error
  at_end (node cs p px w wx r) ctx = elim r.handler [
    | some _ ↦ (found r, ctx)
    | none ↦ elim w [
      | absent ↦ (route_not_found, ctx)
      | ptr m ↦ (route_or (own_route m) route_not_found, note_param wx [] ctx)
    ]
  ]

  -- A round over a part that is not empty: static, then param, then wildcard.
  unfoldable pub next_round : Str → Str → Node S → Option Context → Round S
  unfolding get_child add_param new_http_error
  next_round part current_path (node cs p px w wx r) ctx = elim (get_child part cs) [
    | ptr child ↦ go_on child ctx
    | absent ↦ elim p [
      | ptr m ↦ go_on m (note_param px part ctx)
      | absent ↦ elim w [
        | ptr m ↦ return (route_or (own_route m) route_not_found) (note_param wx current_path ctx)
        | absent ↦ return route_not_found ctx
      ]
    ]
  ]

  -- What follows a round, with the later rounds as `rest`.
  abbrev pub after_round :
      (Node S → Option Context → Option (FindResult S × Option Context))
      → Round S
      → Option (FindResult S × Option Context)
  after_round rest (go_on n ctx) = rest n ctx
  after_round rest (return result ctx) = some (result, ctx)

  -- `none` means that the fuel ran out.
  unfoldable pub find_loop :
      ℕ → Str → Node S → Option Context → Option (FindResult S × Option Context)
  unfolding at_end next_round cut
  find_loop zero path n ctx = none
  find_loop (suc fuel) [] n ctx = some (at_end n ctx)
  find_loop (suc fuel) (c ∷ s) n ctx =
      let (part, rest) = cut b'/' (c ∷ s) in
      let skipped = find_loop fuel rest n ctx in
      let walked = after_round (find_loop fuel rest) (next_round part (c ∷ s) n ctx) in
      if is_empty part then skipped else walked

-- One slash is taken off at the front, and one at the end.
unfoldable pub search_path : Str → Str
unfolding starts_with_byte ends_with_byte drop_first drop_last
search_path path =
    let p = if starts_with_byte b'/' path then drop_first path else path in
    if ends_with_byte b'/' p then drop_last p else p

module _ {S : Type 0} where
  abbrev pub or_failed :
      Option Context → Option (FindResult S × Option Context) → FindResult S × Option Context
  or_failed ctx none = (route_not_found, ctx)
  or_failed ctx (some result) = result

  unfoldable pub find : Str → Str → Option Context → TrieRouter S → FindResult S × Option Context
  unfolding load find_loop search_path
  find method path ctx r = elim (load method r.root) [
    | none ↦ (method_not_found, ctx)
    | some n ↦ let p = search_path path in or_failed ctx (find_loop (suc (length p)) p n ctx)
  ]

  -- GET, POST and the others.
  unfoldable pub verb :
      Method.Verb → Str → Handler S → List (Middleware S) → TrieRouter S → Error × TrieRouter S
  unfolding add
  verb v path h ms r = add (Method.name v) path h ms r

  -- The trie as an App's router.
  abbrev pub trie_router : Router S (TrieRouter S)
  trie_router = record { add = add; find = find }
