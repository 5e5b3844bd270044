-- ===== src/Tests/Serving.antt =====
-- Apps and groups over the trie router.
use amaro.Prelude.{ℕ, ◌≡◌, refl, [], ◌∷◌, ◌++◌, none, some, Str, codes, str_eq}
use amaro.Errors.{Any, string, nil}
use amaro.Http.{Request, Writer, new_writer, write, write_header}
use amaro.Http.Method
use amaro.Context.{Context, returned, Act, pure}
use amaro.Routing.{add_each, compile}
use amaro.Trie.{TrieRouter, new_trie_router, add}
use amaro.Trie.Search.{find, trie_router, route_error}
use amaro.App.{App, new_app, dispatch, serve_http}
use amaro.App.Serving.{fresh, serve_http-pool, serve_http-panicked}
use amaro.App.NotFound.{dispatch_not_found}
use amaro.Group.{new_group, subgroup, group_add, group_any, group_find}
use amaro.Group.Registration.{subgroup-refines_router}
use amaro.Tests.{hello, crash, twice, asks, context_of, with_files}
use amaro.Strings.Parts.{parts}
use amaro.Routing.{classify}
use amaro.App.{app_add}
use amaro.App.Reached.{dispatch_added}

abbrev shown : Any → Str
shown v = codes "panic"

abbrev pub site : App ℕ (TrieRouter ℕ)
unfolding add new_trie_router new_app
site = new_app shown with_files []

abbrev pub asks_file : Request
asks_file = asks Method.get (codes "/files/a/b.txt")

abbrev crashing : TrieRouter ℕ
unfolding add new_trie_router
crashing = (add Method.get (codes "/crash") crash [] with_files).1

abbrev crash_site : App ℕ (TrieRouter ℕ)
unfolding add new_trie_router new_app
crash_site = new_app shown crashing []

abbrev asks_crash : Request
asks_crash = asks Method.get (codes "/crash")

abbrev asks_nobody : Context
asks_nobody = context_of (asks Method.get (codes "/nobody"))

serve_http-panicked_example :
    (serve_http trie_router new_writer asks_crash crash_site 5).0
    ≡ returned tt
        (record (fresh new_writer asks_crash) {
          writer = some (write (codes "Internal Server Error") (write_header 500 new_writer));
        })
        5
unfolding dispatch compile find add new_trie_router new_app str_eq
serve_http-panicked_example =
    serve_http-panicked trie_router new_writer asks_crash 5 shown crash_site []
      (fresh new_writer asks_crash) (string (codes "boom")) 5 new_writer refl refl refl refl

dispatch_not_found_example :
    (c' : Context) × (w' : Writer) × (dispatch trie_router site asks_nobody 5 ≡ returned nil c' 5)
    × (c'.writer ≡ some w')
    × (w'.sent ≡ some (record { status = 404; header = w'.header }))
unfolding find add new_trie_router new_app str_eq
dispatch_not_found_example =
    dispatch_not_found site asks_nobody (asks Method.get (codes "/nobody")) new_writer 5 route_error
      refl refl refl refl refl

serve_http-pool_example :
    (serve_http trie_router new_writer asks_file (record site { pool = asks_nobody ∷ [] }) 5).0
    ≡ (serve_http trie_router new_writer asks_file site 5).0
serve_http-pool_example = serve_http-pool trie_router new_writer asks_file 5 site (asks_nobody ∷ [])

subgroup-refines_router_example :
    let g = subgroup (codes "/v1") (new_group (codes "/api")) in
    (group_add trie_router Method.get (codes "/ping") hello [] g with_files
      ≡ add Method.get (codes "/api/v1/ping") hello [] with_files)
    × (group_any trie_router (codes "/ping") hello [] g with_files
        ≡ add_each trie_router Method.standard (codes "/api/v1/ping") hello [] with_files)
    × (group_find trie_router Method.get (codes "/ping") g with_files
        ≡ (find Method.get (codes "/api/v1/ping") none with_files).0)
subgroup-refines_router_example =
    subgroup-refines_router trie_router (codes "/api") (codes "/v1") Method.get (codes "/ping")
      hello [] with_files

abbrev serve_nothing : Act ℕ (Unit {0})
serve_nothing = pure tt

abbrev asks_about : Request
asks_about = asks Method.get (codes "/about//us/")

dispatch_added_example :
    dispatch trie_router
      (app_add trie_router Method.get (codes "/about/us") hello (twice ∷ []) site).1
      (context_of asks_about)
      5
    ≡ compile hello (site.router.global_middlewares ++ (twice ∷ [])) (context_of asks_about) 5
unfolding app_add add new_app new_trie_router classify parts str_eq site
dispatch_added_example =
    dispatch_added site (codes "/about/us") hello (twice ∷ []) (context_of asks_about) asks_about 5
      refl (refl, (refl, tt)) refl refl
