-- ===== src/Tests/Access.antt =====
-- Authentication and authorisation, with a password, a key and a role.
use amaro.Prelude.{ℕ, ◌≡◌, refl, ◌&&◌, Bool, [], ◌∷◌, none, some, Str, codes, str_eq}
use amaro.Errors.{Error, nil}
use amaro.Http.Method
use amaro.Context.{Context, returned, Middleware, pure, get_header}
use amaro.Middlewares.Gate.{Checked, Admits}
use amaro.Middlewares.BasicAuth.{BasicAuthConfig, basic_auth_with_config, basic_decision}
use amaro.Middlewares.BasicAuth.Admission.{basic_auth-Admits}
use amaro.Middlewares.KeyAuth.{
  KeyAuthConfig, key_auth_with_config, key_error_handler, key_decision, default_key_auth_config,
}
use amaro.Middlewares.KeyAuth.Admission.{key_auth-Admits}
use amaro.Middlewares.Roles.{acl, acl_decision}
use amaro.Middlewares.Roles.Allowed.{acl-Admits}
use amaro.Tests.{hello, asks, context_of}

abbrev passwords : Str → Str → Checked ℕ Bool
unfolding str_eq
passwords user password = pure (str_eq user (codes "ann") && str_eq password (codes "pw"), nil)

abbrev basic_config : BasicAuthConfig ℕ
basic_config = record { validator = some passwords; realm = []; skipper = none }

abbrev basic_gate : Middleware ℕ
unfolding basic_auth_with_config
basic_gate = elim (basic_auth_with_config basic_config) [ none ↦ λ next. next | some m ↦ m ]

-- "ann:pw" in base64
abbrev by_ann : Context
by_ann = context_of (record (asks Method.get (codes "/")) {
  header = (codes "Authorization", codes "Basic YW5uOnB3" ∷ []) ∷ [];
})

basic_auth-Admits_example :
    Admits pure (basic_decision basic_config passwords by_ann 5) hello (basic_gate hello by_ann 5)
unfolding basic_auth_with_config
basic_auth-Admits_example =
    basic_auth-Admits basic_config passwords basic_gate hello by_ann 5 refl refl

ann_enters : basic_gate hello by_ann 5 ≡ returned nil by_ann 6
unfolding basic_auth_with_config str_eq
ann_enters = refl

abbrev keys : Str → Checked ℕ Bool
unfolding str_eq
keys key = pure (str_eq key (codes "k1"), nil)

abbrev shown : Error → Str
shown e = codes "error"

abbrev key_config : KeyAuthConfig ℕ
unfolding default_key_auth_config
key_config = record (default_key_auth_config shown) { validator = some keys }

abbrev key_gate : Middleware ℕ
unfolding key_auth_with_config default_key_auth_config
key_gate = elim (key_auth_with_config shown key_config) [ none ↦ λ next. next | some m ↦ m ]

abbrev with_key_header : Context
with_key_header =
    context_of
      (record (asks Method.get (codes "/")) { header = (codes "X-Api-Key", codes "k1" ∷ []) ∷ [] })

key_auth-Admits_example :
    Admits
      (key_error_handler shown key_config)
      (key_decision key_config keys with_key_header 5)
      hello
      (key_gate hello with_key_header 5)
unfolding key_auth_with_config default_key_auth_config
key_auth-Admits_example =
    key_auth-Admits shown key_config keys key_gate hello with_key_header 5 refl refl

key_enters : key_gate hello with_key_header 5 ≡ returned nil with_key_header 6
unfolding key_auth_with_config default_key_auth_config
key_enters = refl

-- The role is what a header says.
abbrev role_of : Checked ℕ Str
unfolding get_header
role_of c s = returned (get_header (codes "X-Role") c, nil) c s

abbrev as_editor : Context
as_editor =
    context_of
      (record (asks Method.get (codes "/")) { header = (codes "X-Role", codes "editor" ∷ []) ∷ [] })

acl-Admits_example :
    Admits pure
      (acl_decision (codes "admin" ∷ codes "editor" ∷ []) (role_of as_editor 5))
      hello
      (acl (codes "admin" ∷ codes "editor" ∷ []) role_of hello as_editor 5)
acl-Admits_example = acl-Admits (codes "admin" ∷ codes "editor" ∷ []) role_of hello as_editor 5
