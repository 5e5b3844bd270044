-- ===== src/Group/Registration.antt =====
-- What a group registers.
use amaro.Prelude.{◌≡◌, refl, ap, ◌∙◌, none, List, [], ◌∷◌, ◌++◌, Str, append_assoc, if◌then◌else◌}
use amaro.Errors.{Error, is_nil}
use amaro.Http.Method
use amaro.Context.{Act, Handler, Middleware}
use amaro.Routing.{Router, add_each}
use amaro.Group.{
  Group, new_group, group_use, subgroup, group_add, group_any, group_mount, group_find,
}

module _ {S R : Type 0} (ops : Router S R) where
  -- The middlewares that a group was given by Use reach no route: Add, Any and Mount on the group do
  -- what they do without it, on every router.
  pub group_use-ignored :
      (m : Middleware S) (g : Group S) (method path : Str) (h : Handler S)
      (ms : List (Middleware S)) (serve : Act S (Unit {0})) (r : R)
      → (group_add ops method path h ms (group_use m g) r ≡ group_add ops method path h ms g r)
        × (group_any ops path h ms (group_use m g) r ≡ group_any ops path h ms g r)
        × (group_mount ops path serve (group_use m g) r ≡ group_mount ops path serve g r)
  unfolding group_use group_add group_any group_mount
  group_use-ignored m g method path h ms serve r = (refl, refl, refl)

  add_each-prefixed :
      (g : Group S) (path : Str) (h : Handler S) (ms : List (Middleware S)) (methods : List Str)
      (r : R)
      → add_each
          (record { add = λ m p k ns. group_add ops m p k ns g; find = ops.find })
          methods
          path
          h
          ms
          r
        ≡ add_each ops methods (g.prefix ++ path) h ms r
  unfolding add_each group_add
  add_each-prefixed g path h ms [] r = refl
  add_each-prefixed g path h ms (m ∷ methods) r =
      ap
        (λ (rest : Error × R).
          if is_nil (ops.add m (g.prefix ++ path) h ms r).0
          then rest
          else ops.add m (g.prefix ++ path) h ms r)
        (add_each-prefixed g path h ms methods (ops.add m (g.prefix ++ path) h ms r).1)

  -- A group inside a group registers and finds under the two prefixes joined, as the router itself
  -- does under the whole path, for each single method and for Any.
  pub subgroup-refines_router :
      (outer inner method path : Str) (h : Handler S) (ms : List (Middleware S)) (r : R)
      → let g = subgroup inner (new_group outer) in
        (group_add ops method path h ms g r ≡ ops.add method (outer ++ (inner ++ path)) h ms r)
        × (group_any ops path h ms g r
            ≡ add_each ops Method.standard (outer ++ (inner ++ path)) h ms r)
        × (group_find ops method path g r ≡ (ops.find method (outer ++ (inner ++ path)) none r).0)
  unfolding subgroup group_add group_find group_any
  subgroup-refines_router outer inner method path h ms r =
      let joined : (outer ++ inner) ++ path ≡ outer ++ (inner ++ path) =
        append_assoc outer inner path in
      (
        ap (λ p. ops.add method p h ms r) joined,
        add_each-prefixed (subgroup inner (new_group outer)) path h ms Method.standard r
            ∙ ap (λ p. add_each ops Method.standard p h ms r) joined,
        ap (λ p. (ops.find method p none r).0) joined,
      )
