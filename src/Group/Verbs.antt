-- ===== src/Group/Verbs.antt =====
-- The functions for single methods, and Any.
use amaro.Prelude.{◌≡◌, refl, ap, sym, List, [], ◌∷◌, Str, map, if◌then◌else◌, arith}
use amaro.Errors.{Error, nil, is_nil}
use amaro.Http.Method
use amaro.Context.{Handler, Middleware}
use amaro.Routing.{Router, add_each}
use amaro.App.{App, app_verb, app_any}
use amaro.Group.{Group, group_add, group_verb, group_any}

-- One registration after the other, up to the first that returns an error.
abbrev pub in_turn : {A V : Type 0} → (V → A → Error × A) → List V → A → Error × A
in_turn step [] a = (nil, a)
in_turn step (v ∷ vs) a = let (e, a') = step v a in if is_nil e then in_turn step vs a' else (e, a')

module _ {S R : Type 0} (ops : Router S R) (path : Str) (h : Handler S)
    (ms : List (Middleware S)) where
  in_turn-app :
      (vs : List Method.Verb) (a : App S R)
      → in_turn (λ v. app_verb ops v path h ms) vs a ≡ (
          let (e, r) = add_each ops (map Method.name vs) path h ms a.router in
          (e, record a { router = r }))
  unfolding app_verb add_each
  in_turn-app [] a = refl
  in_turn-app (v ∷ vs) a =
      ground (
        arith,
        in_turn-app vs (record a { router = (ops.add (Method.name v) path h ms a.router).1 }),
      )

  in_turn-group :
      (vs : List Method.Verb) (g : Group S) (r : R)
      → in_turn (λ v. group_verb ops v path h ms g) vs r
        ≡ add_each
            (record { add = λ m p k ns. group_add ops m p k ns g; find = ops.find })
            (map Method.name vs)
            path
            h
            ms
            r
  unfolding group_verb add_each
  in_turn-group [] g r = refl
  in_turn-group (v ∷ vs) g r =
      ap
        (λ (rest : Error × R).
          if is_nil (group_add ops (Method.name v) path h ms g r).0
          then rest
          else group_add ops (Method.name v) path h ms g r)
        (in_turn-group vs g (group_add ops (Method.name v) path h ms g r).1)

  -- Any, of an App and of a Group, is GET, POST, PUT, DELETE, PATCH, OPTIONS and HEAD in this order,
  -- up to the first that returns an error, on every router.
  pub any-eq-in_turn :
      (a : App S R) (g : Group S) (r : R)
      → (app_any ops path h ms a ≡ in_turn (λ v. app_verb ops v path h ms) Method.verbs a)
        × (group_any ops path h ms g r ≡ in_turn (λ v. group_verb ops v path h ms g) Method.verbs r)
  unfolding app_any group_any
  any-eq-in_turn a g r = (sym (in_turn-app Method.verbs a), sym (in_turn-group Method.verbs g r))
