-- ===== src/Context.antt =====
-- context.go (its state and accessors) and the types of amaro.go: handlers as actions that change
-- the context and the memory behind the program's closures, and that may panic.
pub mod Steps
pub mod Keys
pub mod Writing
pub mod Uploads
use amaro.Prelude.{
  ℕ, Bool, true, false, List, [], ◌∷◌, ◌++◌, Option, none, some, Str, codes, str_eq, is_empty,
  if◌then◌else◌,
}
use amaro.Prelude.Assoc.{Assoc, load, store}
use amaro.Errors.{Any, string, Error, nil, plain, is_nil}
use amaro.Http
use amaro.Http.{Request, Writer, header_get, header_set, header_add, write_header, write, on_header}

pub record Param : Type 0 where
  pub key : Str
  pub value : Str

-- A nil Request, Writer or Keys is `none`. The capacity of Params is not modelled.
pub record Context : Type 0 where
  pub request : Option Request
  pub writer : Option Writer
  pub params : List Param
  pub keys : Option (Assoc Any)

-- How a call ends: with a value, or in a panic. Both leave the context and the shared memory `S`
-- (what closures and handlers share between requests) as the call has changed them.
pub data Outcome (S A : Type 0) : Type 0 where
  returned : A → Context → S → Outcome S A
  panicked : Any → Context → S → Outcome S A

abbrev pub Act : Type 0 → Type 0 → Type 0
Act S A = Context → S → Outcome S A

abbrev pub Handler : Type 0 → Type 0
Handler S = Act S Error

abbrev pub Middleware : Type 0 → Type 0
Middleware S = Handler S → Handler S

-- The panic of a nil dereference.
abbrev pub nil_dereference : Any
nil_dereference = string (codes "runtime error: invalid memory address or nil pointer dereference")

module _ {S : Type 0} where
  infixl 5 ◌>>=◌ ◌>>◌
  abbrev pub ◌>>=◌ : {A B : Type 0} → Act S A → (A → Act S B) → Act S B
  ◌>>=◌ m f c s = elim (m c s) [
    | returned a c' s' ↦ f a c' s'
    | panicked v c' s' ↦ panicked v c' s'
  ]

  abbrev pub ◌>>◌ : {B : Type 0} → Act S (Unit {0}) → Act S B → Act S B
  m >> k = m >>= λ _. k

  abbrev pub pure : {A : Type 0} → A → Act S A
  pure a c s = returned a c s

  abbrev pub panic : {A : Type 0} → Any → Act S A
  panic v c s = panicked v c s

  unfoldable pub when : Bool → Act S (Unit {0}) → Act S (Unit {0})
  when true m = m
  when false m = pure tt

  unfoldable pub the_request : Act S Request
  the_request c s = elim c.request [ none ↦ panicked nil_dereference c s | some r ↦ returned r c s ]

  -- A call of one of the writer's methods.
  unfoldable pub on_writer : (Writer → Writer) → Act S (Unit {0})
  on_writer f c s = elim c.writer [
    | none ↦ panicked nil_dereference c s
    | some w ↦ returned tt (record c { writer = some (f w) }) s
  ]

  unfoldable pub set_header : Str → Str → Act S (Unit {0})
  unfolding on_writer on_header header_set
  set_header key value = on_writer (on_header (header_set key value))

  unfoldable pub status : ℕ → Act S (Unit {0})
  unfolding on_writer write_header
  status code = on_writer (write_header code)

  -- (c *Context).String; a writer in memory takes every byte, so Write returns no error.
  unfoldable pub write_string : ℕ → Str → Act S Error
  unfolding on_writer write_header write
  write_string code s = do on_writer (write_header code); on_writer (write s); pure nil

  -- (c *Context).JSON: what the encoder makes of the value, or its error.
  unfoldable pub json : ℕ → Error × Str → Act S Error
  unfolding set_header on_writer write_header write
  json code (err, encoded) = do
    set_header (codes "Content-Type") (codes "application/json")
    on_writer (write_header code)
    if is_nil err then on_writer (write encoded) >> pure nil else pure err

  unfoldable pub html : ℕ → Str → Act S Error
  unfolding set_header on_writer write_header write
  html code page = do
    set_header (codes "Content-Type") (codes "text/html")
    on_writer (write_header code)
    on_writer (write page)
    pure nil

  -- SetCookie, with the text of the cookie's header, which is empty if its name is not valid.
  unfoldable pub set_cookie : Str → Act S (Unit {0})
  unfolding on_writer on_header header_add
  set_cookie text =
      if is_empty text
      then pure tt
      else on_writer (on_header (header_add (codes "Set-Cookie") text))

  unfoldable pub redirect : ℕ → Str → Act S Error
  unfolding set_header on_writer write_header
  redirect code url = do set_header (codes "Location") url; on_writer (write_header code); pure nil

  -- Set and Get of the request's own values.
  unfoldable pub set_key : Str → Any → Act S (Unit {0})
  unfolding store
  set_key key value c s = elim c.keys [
    | none ↦ returned tt (record c { keys = some (store key value []) }) s
    | some m ↦ returned tt (record c { keys = some (store key value m) }) s
  ]

unfoldable pub get_key : Str → Context → Option Any
unfolding load
get_key key c = elim c.keys [ none ↦ none | some m ↦ load key m ]

-- Reset: whatever the context held is gone.
unfoldable pub reset : Writer → Request → Context → Context
reset w r c = record c { request = some r; writer = some w; params = []; keys = none }

apply_options : List (Context → Context) → Context → Context
apply_options [] c = c
apply_options (option ∷ rest) c = apply_options rest (option c)

unfoldable pub new_context : Option Writer → Option Request → List (Context → Context) → Context
unfolding apply_options
new_context w r options =
    apply_options options (record { request = r; writer = w; params = []; keys = none })

first_param : Str → List Param → Str
first_param name [] = []
first_param name (p ∷ ps) = if str_eq p.key name then p.value else first_param name ps

unfoldable pub path_param : Str → Context → Str
unfolding first_param str_eq
path_param name c = first_param name c.params

unfoldable pub add_param : Str → Str → Context → Context
add_param key value c = record c { params = c.params ++ (record { key = key; value = value } ∷ []) }

unfoldable pub query_param : Str → Context → Str
unfolding load
query_param name c = elim c.request [
  | none ↦ []
  | some r ↦ elim (load name r.query) [ some (v ∷ _) ↦ v | _ ↦ [] ]
]

unfoldable pub get_header : Str → Context → Str
unfolding header_get
get_header key c = elim c.request [ none ↦ [] | some r ↦ header_get key r.header ]

-- `none` is http.ErrNoCookie.
unfoldable pub get_cookie : Str → Context → Option Str
unfolding load
get_cookie name c = elim c.request [ none ↦ none | some r ↦ load name r.cookies ]
