-- ===== src/Middlewares/Roles.antt =====
-- middlewares/rbac.go.
pub mod Allowed
use amaro.Prelude.{
  Bool, true, false, not, ◌||◌, List, [], ◌∷◌, Option, none, some, Str, codes, str_eq,
  if◌then◌else◌,
}
use amaro.Errors.{string, Error, nil, http, is_nil, new_http_error}
use amaro.Context.{Context, Outcome, returned, panicked, Act, Handler, Middleware, ◌>>=◌, pure}
use amaro.Middlewares.Gate.{Checked, fail_with, Decision, let_in, refuse, crash}

-- The role is one of the list.
abbrev pub has_role : List Str → Str → Bool
has_role [] role = false
has_role (allowed ∷ roles) role = str_eq role allowed || has_role roles role

module _ {S : Type 0} where
  -- What follows the role extractor.
  abbrev with_role : Handler S → (Str → Handler S) → Str × Error → Act S Error
  with_role denied k (role, err) = if not (is_nil err) then denied else k role

  abbrev unauthorized : Act S Error
  unfolding new_http_error
  unauthorized = fail_with 401 (codes "Unauthorized")

  abbrev forbidden : Act S Error
  unfolding new_http_error
  forbidden = fail_with 403 (codes "Forbidden")

  unfoldable pub rbac : Str → Checked S Str → Middleware S
  unfolding new_http_error str_eq
  rbac required_role extractor next = do
    answer ← extractor
    with_role unauthorized (λ role. if not (str_eq role required_role) then forbidden else next)
        answer

  -- The loop over the allowed roles.
  allow : List Str → Str → Middleware S
  unfolding new_http_error str_eq
  allow [] role next = forbidden
  allow (allowed ∷ roles) role next = if str_eq role allowed then next else allow roles role next

  unfoldable pub acl : List Str → Checked S Str → Middleware S
  unfolding allow new_http_error
  acl allowed_roles extractor next = do
    answer ← extractor
    with_role unauthorized (λ role. allow allowed_roles role next) answer

  -- Those are let in for whom the extractor gives an allowed role and no error.
  abbrev pub acl_decision : List Str → Outcome S (Str × Error) → Decision S
  acl_decision roles (returned (role, nil) c s) =
      if has_role roles role
      then let_in c s
      else refuse (http 403 (string (codes "Forbidden")) nil) c s
  acl_decision roles (returned (role, _) c s) =
      refuse (http 401 (string (codes "Unauthorized")) nil) c s
  acl_decision roles (panicked v c s) = crash v c s
