-- ===== src/Group.antt =====
-- group.go: a Group over any router. Its `router` is the one it was made from, whose state the
-- operations take and return.
pub mod Registration
pub mod Verbs
use amaro.Prelude.{List, [], ◌∷◌, ◌++◌, none, Str, if◌then◌else◌}
use amaro.Errors.{Error, is_nil}
use amaro.Http.Method
use amaro.Context.{Act, Handler, Middleware}
use amaro.Routing.{FindResult, Router, add_each, wildcard_path}
use amaro.App.{wrap_http_handler}

pub record Group (S : Type 0) : Type 0 where
  pub prefix : Str
  pub middlewares : List (Middleware S)

module _ {S : Type 0} where
  unfoldable pub new_group : Str → Group S
  new_group prefix = record { prefix = prefix; middlewares = [] }

  unfoldable pub group_use : Middleware S → Group S → Group S
  group_use m g = record g { middlewares = g.middlewares ++ (m ∷ []) }

  -- (g *Group).Group
  unfoldable pub subgroup : Str → Group S → Group S
  unfolding new_group
  subgroup prefix g = new_group (g.prefix ++ prefix)

  unfoldable pub calculate_path : Str → Group S → Str
  calculate_path path g = g.prefix ++ path

module _ {S R : Type 0} (ops : Router S R) where
  unfoldable pub group_add : Str → Str → Handler S → List (Middleware S) → Group S → R → Error × R
  group_add method path h ms g = ops.add method (g.prefix ++ path) h ms

  -- GET, POST and the others.
  unfoldable pub group_verb :
      Method.Verb → Str → Handler S → List (Middleware S) → Group S → R → Error × R
  unfolding group_add
  group_verb verb path h ms g r = group_add (Method.name verb) path h ms g r

  -- The loop of Any goes through Add of the group.
  unfoldable pub group_any : Str → Handler S → List (Middleware S) → Group S → R → Error × R
  unfolding add_each group_add
  group_any path h ms g =
      add_each (record { add = λ m p k ns. group_add m p k ns g; find = ops.find }) Method.standard
        path h ms

  unfoldable pub group_mount : Str → Act S (Unit {0}) → Group S → R → Error × R
  unfolding group_any wildcard_path
  group_mount path serve g r =
      let h = wrap_http_handler serve in
      let (e, r') = group_any path h [] g r in
      if is_nil e then group_any (wildcard_path path) h [] g r' else (e, r')

  unfoldable pub group_find : Str → Str → Group S → R → FindResult S
  unfolding calculate_path
  group_find method path g r = (ops.find method (calculate_path path g) none r).0
