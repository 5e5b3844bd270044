-- ===== src/Trie/Static.antt =====
-- StaticFS of routers/trie.go. The handler that StaticHandler makes for a prefix is the parameter
-- `static_handler`.
use amaro.Prelude.{◌≡◌, ◌∙◌, false, ◌&&◌, ◌||◌, List, [], ◌++◌, Str, codes, str_eq, arith}
use amaro.Strings.{trim_right}
use amaro.Http.Method
use amaro.Context.{Handler}
use amaro.Routing.{Segment}
use amaro.Trie.{TrieRouter, add}
use amaro.Trie.Table.{pattern_eq}
use amaro.Trie.Registered.{pattern, table, add-refines_table}

unfoldable pub static_path : Str → Str
unfolding trim_right
static_path path_prefix = trim_right b'/' path_prefix

unfoldable pub static_wildcard_path : Str → Str
unfolding trim_right
static_wildcard_path path_prefix = trim_right b'/' path_prefix ++ codes "/*filepath"

module _ {S : Type 0} where
  add-elsewhere :
      (m path : Str) (h : Handler S) (r : TrieRouter S) (method : Str) (p : List Segment)
      → str_eq m method && pattern_eq (pattern r.config path) p ≡ false
      → table method p (add m path h [] r).1 ≡ table method p r
  add-elsewhere m path h r method p other = ground (arith, add-refines_table m path h [] r method p)

module _ {S : Type 0} (static_handler : Str → Handler S) where
  -- The errors of the four calls of Add are dropped.
  unfoldable pub static_fs : Str → TrieRouter S → TrieRouter S
  unfolding add
  static_fs path_prefix r0 =
      let h = static_handler path_prefix in
      let r1 = (add Method.get (static_path path_prefix) h [] r0).1 in
      let r2 = (add Method.head (static_path path_prefix) h [] r1).1 in
      let r3 = (add Method.get (static_wildcard_path path_prefix) h [] r2).1 in
      (add Method.head (static_wildcard_path path_prefix) h [] r3).1

  -- StaticFS registers nothing else: under other methods than GET and HEAD, and under other patterns than
  -- those of the prefix and of all that is below it, the table is what it was.
  pub static_fs-table :
      (path_prefix method : Str) (p : List Segment) (r : TrieRouter S)
      → (str_eq Method.get method || str_eq Method.head method)
          && (pattern_eq (pattern r.config (static_path path_prefix)) p
              || pattern_eq (pattern r.config (static_wildcard_path path_prefix)) p)
        ≡ false
      → table method p (static_fs path_prefix r) ≡ table method p r
  unfolding static_fs
  static_fs-table path_prefix method p r other =
      let h = static_handler path_prefix in
      let path = static_path path_prefix in
      let below = static_wildcard_path path_prefix in
      let r1 = (add Method.get path h [] r).1 in
      let r2 = (add Method.head path h [] r1).1 in
      let r3 = (add Method.get below h [] r2).1 in
      add-elsewhere Method.head below h r3 method p (ground arith)
      ∙ add-elsewhere Method.get below h r2 method p (ground arith)
      ∙ add-elsewhere Method.head path h r1 method p (ground arith)
      ∙ add-elsewhere Method.get path h r method p (ground arith)
