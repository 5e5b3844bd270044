-- ===== src/Tests/Router.antt =====
-- The trie router on the routes for users and files.
use amaro.Prelude.{
  ℕ, ◌≡◌, refl, ◌↔◌, false, ◌&&◌, List, [], ◌∷◌, Option, none, some, Str, codes, str_eq, arith,
  if◌then◌else◌,
}
use amaro.Prelude.Assoc.{load}
use amaro.Strings.Parts.{parts}
use amaro.Errors.{is_nil}
use amaro.Http.Method
use amaro.Context.{Context}
use amaro.Routing.{Route, Segment, static, wildcard, FindResult, found, failed, classify}
use amaro.Trie.{add, new_trie_router, or_new, route_of}
use amaro.Trie.Table.{pattern_eq}
use amaro.Trie.Choice.{Prefers}
use amaro.Trie.Search.{find, find_loop, route_error}
use amaro.Trie.Search.Total.{find_loop_total}
use amaro.Trie.Search.Failure.{IsMiss, Kept, find-Allowed}
use amaro.Trie.Registered.{
  pattern, table, created, added, IsAnswer, add-refines_table, find-IsAnswer,
}
use amaro.Trie.Lookups.{find-found_iff, find-add_static}
use amaro.Tests.{
  hello, greeting, idle, users_path, files_path, empty_router, with_users, with_files,
}
use mathlib.Core.List.{Memᴰ}
use amaro.Context.{Handler}
use amaro.Routing.{param}
use amaro.Trie.Listing.{routes}
use amaro.Trie.Listing.Complete.{routes-complete}

abbrev user_7 : Str
user_7 = codes "/users/7"

abbrev user_route : Route ℕ
unfolding route_of new_trie_router
user_route = route_of Method.get users_path hello [] empty_router

abbrev noted_7 : Option Context
noted_7 = some (record idle { params = record { key = codes "id"; value = codes "7" } ∷ [] })

found_7 : find Method.get user_7 (some idle) with_users ≡ (found user_route, noted_7)
unfolding find add new_trie_router str_eq
found_7 = refl

missed : (find Method.get (codes "/nobody") (some idle) with_files).0 ≡ failed route_error
unfolding find add new_trie_router str_eq
missed = refl

clash : is_nil (add Method.get (codes "/users/:name") hello [] with_users).0 ≡ false
unfolding add new_trie_router str_eq
clash = refl

find-IsAnswer_example : IsAnswer Method.get user_7 (some idle) with_users user_route noted_7
unfolding find add new_trie_router str_eq
find-IsAnswer_example =
    find-IsAnswer Method.get user_7 (some idle) noted_7 with_users user_route
      (added Method.get users_path hello [] (created [])) refl

find-found_iff_example :
    ((ctx' : Option Context) × (find Method.get user_7 (some idle) with_users
        ≡ (found user_route, ctx')))
    ↔ ((p : List Segment) × (table Method.get p with_users ≡ some user_route)
        × Prefers p (parts b'/' user_7) (or_new (load Method.get with_users.root)))
find-found_iff_example = find-found_iff Method.get user_7 (some idle) with_users user_route

add-refines_table_example :
    table Method.get
      (static (codes "files") ∷ wildcard (codes "filepath") ∷ [])
      (add Method.get files_path greeting [] with_users).1
    ≡ (if is_nil (add Method.get files_path greeting [] with_users).0
          && (str_eq Method.get Method.get
              && pattern_eq
                  (pattern with_users.config files_path)
                  (static (codes "files") ∷ wildcard (codes "filepath") ∷ []))
        then some (route_of Method.get files_path greeting [] with_users)
        else table Method.get
            (static (codes "files") ∷ wildcard (codes "filepath") ∷ [])
            with_users)
add-refines_table_example =
    add-refines_table Method.get files_path greeting [] with_users Method.get
      (static (codes "files") ∷ wildcard (codes "filepath") ∷ [])

abbrev about : Str
about = codes "/about/us"

find-add_static_example :
    find Method.get (codes "/about//us/") (some idle) (add Method.get about hello [] with_files).1
    ≡ (found (route_of Method.get about hello [] with_files), some idle)
unfolding classify add new_trie_router parts str_eq
find-add_static_example =
    find-add_static Method.get about (codes "/about//us/") hello [] with_files (some idle)
      (refl, (refl, tt)) refl refl

find_loop_total_example :
    (result : FindResult ℕ × Option Context) × (find_loop 9
        (codes "users/7")
        (or_new (load Method.get with_users.root))
        none
      ≡ some result)
find_loop_total_example =
    find_loop_total 9 (codes "users/7") (or_new (load Method.get with_users.root)) none
      (omega arith)

find-Allowed_example :
    IsMiss (find Method.post user_7 (some idle) with_users).0
    × Kept idle (find Method.post user_7 (some idle) with_users).1
find-Allowed_example = find-Allowed idle Method.post user_7 with_users

abbrev serve_files : Str → Handler ℕ
serve_files path_prefix = greeting

routes-complete_example : Memᴰ user_route (routes with_users)
unfolding table add new_trie_router str_eq
routes-complete_example =
    routes-complete Method.get (static (codes "users") ∷ param (codes "id") ∷ []) with_users
      user_route refl
