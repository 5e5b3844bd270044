-- ===== src/Middlewares/Roles/Allowed.antt =====
-- Whom RBAC and ACL let through.
use mathlib.Core.Path.{fun_ext}
use amaro.Prelude.{
  ◌≡◌, refl, inl, inr, ap, Bool, true, false, not, List, [], ◌∷◌, Str, codes, str_eq, Bool-cases,
  if◌then◌else◌,
}
use amaro.Errors.{string, Error, nil, plain, http, new_http_error}
use amaro.Context.{Context, Outcome, returned, panicked, Handler, ◌>>=◌, pure}
use amaro.Middlewares.Gate.{Checked, let_in, refuse, Admits}
use amaro.Middlewares.Roles.{
  with_role, rbac, allow, acl, has_role, acl_decision, unauthorized, forbidden,
}

module _ {S : Type 0} where
  allow-Admits :
      (roles : List Str) (role : Str) (next : Handler S) (c : Context) (s : S)
      → Admits pure
          (if has_role roles role
            then let_in c s
            else refuse (http 403 (string (codes "Forbidden")) nil) c s)
          next
          (allow roles role next c s)
  unfolding allow new_http_error
  allow-Admits [] role next c s = ((λ e. cc e), refl)
  allow-Admits (allowed ∷ roles) role next c s = elim (Bool-cases (str_eq role allowed)) [
    | inl e ↦ rw e refl
    | inr e ↦ rw e (allow-Admits roles role next c s)
  ]

  -- ACL runs the handler if the extractor gives one of the allowed roles and no error, on the context
  -- and memory that the extractor leaves. With another role the outcome is the error 403, and with an
  -- error of the extractor the error 401, on the same context and memory, so that the handler has not
  -- run; a panic of the extractor is the outcome.
  pub acl-Admits :
      (roles : List Str) (extractor : Checked S Str) (next : Handler S) (c : Context) (s : S)
      → Admits pure (acl_decision roles (extractor c s)) next (acl roles extractor next c s)
  unfolding acl
  acl-Admits roles extractor next c s = by_answer (extractor c s)
    where
      by_answer :
          (o : Outcome S (Str × Error))
          → Admits pure (acl_decision roles o) next (elim o [
            | returned a c' s' ↦ with_role unauthorized (λ role. allow roles role next) a c' s'
            | panicked v c' s' ↦ panicked v c' s'
          ])
      by_answer (panicked v c' s') = refl
      by_answer (returned (role, nil) c' s') = allow-Admits roles role next c' s'
      by_answer (returned (role, plain m) c' s') = ((λ e. cc e), refl)
      by_answer (returned (role, http k m i) c' s') = ((λ e. cc e), refl)

  -- RBAC with one role is ACL with a list of that role alone, for every extractor and handler.
  pub rbac-eq-acl :
      (role : Str) (extractor : Checked S Str) (next : Handler S)
      → rbac role extractor next ≡ acl (role ∷ []) extractor next
  unfolding rbac acl allow
  rbac-eq-acl role extractor next =
      ap (λ k. extractor >>= with_role unauthorized k) (fun_ext λ r. one_role (str_eq r role))
    where
      one_role : (b : Bool) → (if not b then forbidden else next) ≡ (if b then next else forbidden)
      one_role true = refl
      one_role false = refl
