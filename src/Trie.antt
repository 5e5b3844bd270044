-- ===== src/Trie.antt =====
-- routers/trie.go: the trie of one method, and the operations of the router that build it. The
-- nodes of a trie are each linked from one place, so a pointer to a node is the node itself.
-- `Search` has Find and `Listing` has Routes; `Table` says what a trie stores under a pattern.
pub mod Table
pub mod Search
pub mod Matching
pub mod Registered
pub mod Choice
pub mod Complete
pub mod Lookups
pub mod Everywhere
pub mod Static
pub mod Listing
use amaro.Prelude.{
  ◌≡◌, refl, ℕ, Bool, true, false, List, [], ◌∷◌, ◌++◌, Option, none, some, Str, codes, str_eq,
  is_empty, if◌then◌else◌,
}
use amaro.Prelude.Assoc.{Assoc, load, store}
use amaro.Strings.{split, trim, starts_with_byte}
use amaro.Errors.{Error, nil, plain}
use amaro.Context.{Handler, Middleware}
use amaro.Routing.{
  Route, no_route, RouterConfig, default_router_config, Segment, static, param, wildcard, classify,
  compile,
}

-- The fields of `node` in order: children, paramNode, paramName, catchAllNode, catchAllName and
-- the embedded Route. A nil node is `absent`.
mutual
  pub data Node (S : Type 0) : Type 0 where
    node : Children S → NodePtr S → Str → NodePtr S → Str → Route S → Node S

  pub data NodePtr (S : Type 0) : Type 0 where
    absent : NodePtr S
    ptr : Node S → NodePtr S

  -- the map `children`
  pub data Children (S : Type 0) : Type 0 where
    none_left : Children S
    child : Str → Node S → Children S → Children S

abbrev pub empty_node : {S : Type 0} → Node S
empty_node = node none_left absent [] absent [] no_route

-- What Add does to one node and below: the error that it returns, and the node as it is then.
abbrev pub Update : Type 0 → Type 0
Update S = Node S → Error × Node S

abbrev pub conflict : Str → Str → Str → Error
conflict kind name name' =
    plain (kind ++ (codes " name conflict: " ++ (name ++ (codes " vs " ++ name'))))

module _ {S : Type 0} where
  abbrev pub or_empty : NodePtr S → Node S
  or_empty absent = empty_node
  or_empty (ptr n) = n

  -- n.children[part]
  unfoldable pub get_child : Str → Children S → NodePtr S
  get_child k none_left = absent
  get_child k (child j m cs) = if str_eq j k then ptr m else get_child k cs

  -- n.children[part] = m
  unfoldable pub set_child : Str → Node S → Children S → Children S
  set_child k m none_left = child k m none_left
  set_child k m (child j n cs) = if str_eq j k then child j m cs else child j n (set_child k m cs)

  -- The static branch of a round of Add, with the later rounds as `rest`.
  add_static : Str → Update S → Update S
  unfolding get_child set_child
  add_static part rest (node cs p px w wx r) =
      let (e, m) = rest (or_empty (get_child part cs)) in
      (e, node (set_child part m cs) p px w wx r)

  -- The param branch: a missing node is made under the name of the segment.
  add_param_node : Str → Update S → Update S
  add_param_node name rest (node cs absent px w wx r) =
      let (e, m) = rest empty_node in (e, node cs (ptr m) name w wx r)
  add_param_node name rest (node cs (ptr n) px w wx r) =
      let (e, m) = rest n in
      if str_eq px name
      then (e, node cs (ptr m) px w wx r)
      else (conflict (codes "param") px name, node cs (ptr n) px w wx r)

  -- The wildcard branch.
  add_wildcard_node : Str → Update S → Update S
  add_wildcard_node name rest (node cs p px absent wx r) =
      let (e, m) = rest empty_node in (e, node cs p px (ptr m) name r)
  add_wildcard_node name rest (node cs p px (ptr n) wx r) =
      let (e, m) = rest n in
      if str_eq wx name
      then (e, node cs p px (ptr m) wx r)
      else (conflict (codes "wildcard") wx name, node cs p px (ptr n) wx r)

  unfoldable pub add_segment : Segment → Update S → Update S
  unfolding add_static add_param_node add_wildcard_node
  add_segment (static part) rest n = add_static part rest n
  add_segment (param name) rest n = add_param_node name rest n
  add_segment (wildcard name) rest n = add_wildcard_node name rest n

  -- The four assignments at the end of Add.
  abbrev pub set_route : Route S → Update S
  set_route r (node cs p px w wx _) = (nil, node cs p px w wx r)

  -- The loop of Add over the pieces of the path, and what follows it.
  unfoldable pub insert : RouterConfig → Route S → List Str → Update S
  unfolding add_segment classify
  insert cfg r [] n = set_route r n
  insert cfg r (part ∷ parts) n =
      let skipped = insert cfg r parts n in
      let added = add_segment (classify cfg part) (insert cfg r parts) n in
      if is_empty part then skipped else added

pub record TrieRouter (S : Type 0) : Type 0 where
  pub root : Assoc (Node S)
  pub global_middlewares : List (Middleware S)
  pub config : RouterConfig

-- "/" in front of a path that lacks it.
unfoldable pub normalize_path : Str → Str
unfolding starts_with_byte
normalize_path path =
    if is_empty path then b'/' ∷ [] else if starts_with_byte b'/' path then path else b'/' ∷ path

-- Trim and Split; the empty path has no pieces.
unfoldable pub pieces : Str → List Str
unfolding trim split
pieces path =
    let search_path = trim b'/' path in if is_empty search_path then [] else split b'/' search_path

-- A TrieRouterOption; the package has WithConfig and no other.
pub data TrieRouterOption : Type 0 where
  with_config : RouterConfig → TrieRouterOption

module _ {S : Type 0} where
  abbrev apply_option : TrieRouterOption → TrieRouter S → TrieRouter S
  apply_option (with_config config) r = record r { config = config }

  configure : List TrieRouterOption → TrieRouter S → TrieRouter S
  configure [] r = r
  configure (option ∷ rest) r = configure rest (apply_option option r)

  unfoldable pub new_trie_router : List TrieRouterOption → TrieRouter S
  unfolding default_router_config configure
  new_trie_router options =
      configure options
        (record { root = []; global_middlewares = []; config = default_router_config })

  root-configure :
      (options : List TrieRouterOption) (r : TrieRouter S)
      → r.root ≡ []
      → (configure options r).root ≡ []
  unfolding configure
  root-configure [] r h = h
  root-configure (with_config config ∷ rest) r h =
      root-configure rest (record r { config = config }) h

  pub root-new_trie_router : (options : List TrieRouterOption) → (new_trie_router options).root ≡ []
  unfolding new_trie_router
  root-new_trie_router options = root-configure options _ refl

  unfoldable pub use_middleware : Middleware S → TrieRouter S → TrieRouter S
  use_middleware m r = record r { global_middlewares = r.global_middlewares ++ (m ∷ []) }

  abbrev pub or_new : Option (Node S) → Node S
  or_new none = empty_node
  or_new (some n) = n

  -- The route that Add stores: its handler is compiled with the router's middlewares outside its own.
  unfoldable pub route_of : Str → Str → Handler S → List (Middleware S) → TrieRouter S → Route S
  unfolding normalize_path compile
  route_of method path handler middlewares r =
      let combined = r.global_middlewares ++ middlewares in
      record {
        method = method;
        path = normalize_path path;
        handler = some (if is_empty combined then handler else compile handler combined);
        middlewares = combined;
      }

  unfoldable pub add :
      Str → Str → Handler S → List (Middleware S) → TrieRouter S → Error × TrieRouter S
  unfolding load store insert route_of pieces
  add method path handler middlewares r =
      let route = route_of method path handler middlewares r in
      let (e, n) =
        insert r.config route (pieces (normalize_path path)) (or_new (load method r.root)) in
      (e, record r { root = store method n r.root })
