-- ===== src/Tests/Login.antt =====
-- Requests with a token or a session.
use amaro.Prelude.{
  zero, List, ℕ, suc, ◌+◌, ◌≡◌, ◌≢◌, refl, sym, ap, subst, ◌⊎◌, inl, inr, ltb, ◌++◌, Bool, true,
  false, [], ◌∷◌, none, some, Str, codes, str_eq, str_eq_sound, Bool-cases, if◌then◌else◌, arith,
}
use amaro.Prelude.Int.{ℤ, pos}
use amaro.Prelude.Assoc.{Assoc, store}
use amaro.Errors.{Any, Error, nil, plain}
use amaro.Http.{new_writer, on_header, header_set}
use amaro.Http.Method
use amaro.Cache.{Item, is_past, expiration_of, get}
use amaro.Cache.Interface.{memory_cache}
use amaro.Context.{
  Context, returned, panicked, nil_dereference, Act, Handler, Middleware, ◌>>=◌, pure,
}
use amaro.Oauth2.{Config, Exchanged, exchanged, call_error_handler, finish, callback_handler}
use amaro.Oauth2.States.{state_check, callback_handler-Admits}
use amaro.Sessions.Requests.{SessionMemory, cookie_id, save_at, start, current_session}
use amaro.Sessions.Requests.Remembered.{entered, entered_memory, start-remembers}
use amaro.Middlewares.Gate.{Checked, Admits, decided}
use amaro.Middlewares.SessionAuth.{
  SessionAuthConfig, session_auth_with_config, session_error_handler, session_decision,
  default_session_auth_config,
}
use amaro.Middlewares.SessionAuth.Admission.{session_auth-Admits}
use amaro.Middlewares.Jwt.{hs256, JwtConfig}
use amaro.Middlewares.Jwt.Tokens.{Key, secret_key, rsa_key, JwtLibrary, on_token, jwt_with_config}
use amaro.Middlewares.Jwt.Tokens.Authentic.{IsAuthentic, jwt-IsAuthentic}
use amaro.Tests.{hello, asks, context_of}
use amaro.Tests.Caching.{numbers, next_id, manager}

-- Tokens that are signed with the secret "k1" and expire at 200.
abbrev verified_with : Str → Key (Unit {0}) ⊎ Error → Str ⊎ Error
unfolding str_eq
verified_with t (inl (secret_key k)) =
    if str_eq k (codes "k1") then inl t else inr (plain (codes "signature is invalid"))
verified_with t (inl (rsa_key k)) = inr (plain (codes "key is of invalid type"))
verified_with t (inr e) = inr e

abbrev token_library : JwtLibrary ℕ Str (Unit {0}) ℕ ℤ
unfolding str_eq
token_library = record {
  parse = λ token f s. verified_with token (f token);
  method_of = λ t. hs256;
  alg_of = λ t. codes "HS256";
  is_valid = λ t. true;
  claims_of = λ t. some 200;
  number_claim = λ name exp. if str_eq name (codes "exp") then some (pos exp) else none;
  to_int64 = λ z. z;
  show_claims = λ exp. codes "map[exp:200]";
  show_method = λ m. [];
  show_error = λ e. [];
  sign = λ method claims secret. ([], nil);
}

abbrev Signed : Str → Key (Unit {0}) → Str → Type 0
Signed token key t = (key ≡ secret_key (codes "k1")) × (t ≡ token)

verified_with-Signed :
    (token t : Str) (k : Key (Unit {0}) ⊎ Error)
    → verified_with token k ≡ inl t
    → (key : Key (Unit {0})) × (k ≡ inl key) × Signed token key t
unfolding verified_with
verified_with-Signed token t (inl (secret_key k)) h = elim (Bool-cases (str_eq k (codes "k1"))) [
  | inl e ↦
      (secret_key k, refl, (ap secret_key (str_eq_sound k (codes "k1") e), ground (arith, e, h)))
  | inr e ↦ absurd (ground (arith, e, h))
]
verified_with-Signed token t (inl (rsa_key k)) h = cc
verified_with-Signed token t (inr e) h = cc

parse_verifies :
    (token : Str) (f : Str → Key (Unit {0}) ⊎ Error) (s : ℕ) (t : Str)
    → token_library.parse token f s ≡ inl t
    → (key : Key (Unit {0})) × (f t ≡ inl key) × Signed token key t
unfolding token_library verified_with
parse_verifies token f s t h =
    let (key, e, (k, same)) = verified_with-Signed token t (f token) h in
    (key, subst (λ x. f x ≡ inl key) (sym same) e, (k, same))

abbrev token_config : JwtConfig ℕ Str (Unit {0})
token_config = record {
  secret = some (codes "k1");
  public_key = none;
  jks_config = none;
  token_lookup = codes "header:Authorization";
  auth_scheme = codes "Bearer";
  context_key = codes "user";
  error_handler = λ err. pure err;
  success_handler = none;
  skipper = pure false;
  signing_method = hs256;
}

abbrev with_token : Context
with_token = context_of (record (asks Method.get (codes "/")) {
  header = (codes "Authorization", codes "Bearer t1" ∷ []) ∷ [];
})

jwt-IsAuthentic_example :
    ((err : Error) × (err ≢ nil)
      × (jwt_with_config token_library (λ s. s) token_config hello with_token 5
          ≡ token_config.error_handler err with_token 5))
    ⊎ ((t : Str) × IsAuthentic token_library (λ s. s) Signed token_config with_token 5 t
        × (jwt_with_config token_library (λ s. s) token_config hello with_token 5
            ≡ on_token token_library (λ s. s) token_config (inl t) hello with_token 5))
jwt-IsAuthentic_example =
    jwt-IsAuthentic token_library (λ s. s) Signed parse_verifies token_config hello with_token
      with_token 5 5 refl

-- The claims go out with the response.
tells_claims :
    jwt_with_config token_library (λ s. s) token_config hello with_token 5
    ≡ returned nil
        (record with_token {
          writer =
              some
                (on_header (header_set (codes "X-JWT-Claims") (codes "map[exp:200]")) new_writer);
        })
        6
unfolding jwt_with_config
tells_claims = refl

abbrev put_at : {A : Type 0} → ℕ → A → List A → List A
put_at p y [] = []
put_at zero y (x ∷ xs) = y ∷ xs
put_at (suc p) y (x ∷ xs) = x ∷ put_at p y xs

-- The memory's rest is the time. Each visit adds one to the session's number.
abbrev Memory : Type 0
Memory = SessionMemory ℕ (Assoc (Item Any)) ℕ ℕ

abbrev fresh : Memory
fresh = record { cache = []; source = 65; loaded = []; rest = 100 }

abbrev visit : Handler Memory
unfolding current_session
visit c s = elim (current_session c s) [
  | none ↦ returned nil c s
  | some (p, session) ↦
      returned nil c
        (record s { loaded = put_at p (record session { data_of = suc session.data_of }) s.loaded })
]

abbrev cookie_of : Str → Str → ℕ → Str
cookie_of name id expires = name ++ (b'=' ∷ id)

abbrev first_visit : Context
first_visit = context_of (asks Method.get (codes "/"))

abbrev second_visit : Context
second_visit =
    context_of (record (asks Method.get (codes "/")) { cookies = (codes "sid", 65 ∷ []) ∷ [] })

abbrev in_first : Context
in_first =
    entered numbers memory_cache next_id manager cookie_of (λ now. now) new_writer first_visit fresh

abbrev visited : Memory
visited =
    record (entered_memory numbers memory_cache next_id manager cookie_of (λ now. now) first_visit
      fresh) { loaded = record { id = 65 ∷ []; data_of = 1; is_new = true } ∷ [] }

abbrev saved : Memory
unfolding save_at
saved = save_at numbers memory_cache next_id manager cookie_of (λ now. now) 0 visited

start-remembers_example :
    (start numbers memory_cache next_id manager cookie_of (λ now. now) visit first_visit fresh
      ≡ returned nil in_first saved)
    × (current_session
          (entered numbers memory_cache next_id manager cookie_of
            (λ now. now)
            new_writer
            second_visit
            saved)
          (entered_memory numbers memory_cache next_id manager cookie_of
            (λ now. now)
            second_visit
            saved)
        ≡ some (1, record { id = 65 ∷ []; data_of = 1; is_new = false }))
unfolding saved visit start cookie_id save_at str_eq get is_past expiration_of
start-remembers_example =
    start-remembers numbers memory_cache next_id manager cookie_of (λ now. now) visit first_visit
      second_visit fresh saved refl refl refl refl refl refl new_writer

-- Whose session has counted a visit.
abbrev known : ℕ → Checked Memory Bool
known n c s = returned (ltb 0 n, nil) c s

abbrev session_config : SessionAuthConfig ℕ Memory
unfolding default_session_auth_config
session_config = record default_session_auth_config { validator = some known }

abbrev session_gate : Middleware Memory
unfolding session_auth_with_config
session_gate = elim (session_auth_with_config session_config) [ none ↦ λ next. next | some m ↦ m ]

session_auth-Admits_example :
    Admits
      (session_error_handler session_config)
      (session_decision session_config known in_first visited)
      visit
      (session_gate visit in_first visited)
unfolding session_auth_with_config default_session_auth_config
session_auth-Admits_example =
    session_auth-Admits session_config known session_gate visit in_first visited refl refl

admitted_again : session_gate visit in_first visited ≡ visit in_first visited
unfolding session_gate session_auth_with_config default_session_auth_config cookie_id str_eq get
    current_session visit store
admitted_again = refl

-- A login at a provider; the state of every login is "xyz".
abbrev states : Config ℕ ℕ
unfolding str_eq
states = record {
  success_handler = some (λ token c s. returned nil c (s + token));
  error_handler = none;
  state_generator = some (λ c s. returned (codes "xyz") c s);
  state_validator = some (λ state c s. returned (str_eq state (codes "xyz")) c (suc s));
}

abbrev callback_of : Str → Context
callback_of state = context_of (record (asks Method.get (codes "/callback")) {
  query = (codes "code", codes "c1" ∷ []) ∷ (codes "state", state ∷ []) ∷ [];
})

abbrev callback_exchange : Act ℕ (Exchanged ℕ)
callback_exchange c s = returned (exchanged 10) c s

abbrev tokens : ℕ → Error × Str
tokens token = (nil, codes "token")

callback_handler-Admits_example :
    Admits
      (call_error_handler states)
      (decided (codes "invalid state") (state_check states (callback_of (codes "xyz")) 5))
      (callback_exchange >>= finish states tokens)
      (callback_handler states (λ code. callback_exchange) tokens (callback_of (codes "xyz")) 5)
callback_handler-Admits_example =
    callback_handler-Admits states (λ code. callback_exchange) tokens (callback_of (codes "xyz")) 5

-- A token is worth 10, and a callback with another state panics, since no error handler is given.
state_accepted :
    callback_handler states (λ code. callback_exchange) tokens (callback_of (codes "xyz")) 5
    ≡ returned nil (callback_of (codes "xyz")) 16
unfolding callback_handler str_eq
state_accepted = refl

state_refused :
    callback_handler states (λ code. callback_exchange) tokens (callback_of (codes "abc")) 5
    ≡ panicked nil_dereference (callback_of (codes "abc")) 6
unfolding callback_handler str_eq
state_refused = refl
