-- ===== src/Errors.antt =====
-- Go's `error` and `interface{}` values as the framework uses them, and errors.go.
use amaro.Prelude.{ℕ, Bool, true, false, List, [], ◌∷◌, Str}
use amaro.Http.Status.{status_text}

-- An `interface{}`: a string, or a value of some other type, which the framework passes around
-- without looking at it (a number stands for its identity).
pub data Any : Type 0 where
  string : Str → Any
  other : ℕ → Any

-- An `error`: nil, one made by `errors.New` or `fmt.Errorf`, or a `*HTTPError` with its fields
-- Code, Message and Internal.
pub data Error : Type 0 where
  nil : Error
  plain : Str → Error
  http : (code : ℕ) → (message : Any) → (internal : Error) → Error

abbrev pub is_nil : Error → Bool
is_nil nil = true
is_nil _ = false

-- The variadic `message` is a list, of which the first is taken.
unfoldable pub new_http_error : ℕ → List Any → Error
unfolding status_text
new_http_error code [] = http code (string (status_text code)) nil
new_http_error code (message ∷ _) = http code message nil

-- (e *HTTPError).SetInternal; on another error there is no such method.
unfoldable pub set_internal : Error → Error → Error
set_internal (http code message _) err = http code message err
set_internal e err = e

-- (e *HTTPError).Unwrap, as errors.Unwrap calls it: nil where there is no such method.
unfoldable pub unwrap : Error → Error
unwrap (http _ _ internal) = internal
unwrap e = nil

abbrev pub not_found : ℕ
not_found = 404

abbrev pub internal_server_error : ℕ
internal_server_error = 500
