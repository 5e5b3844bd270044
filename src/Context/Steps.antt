-- ===== src/Context/Steps.antt =====
-- The first step of a handler, where the context has what it asks for.
use amaro.Prelude.{◌≡◌, ap, Bool, true, false, Str, str_eq, ◌&&◌, some, if◌then◌else◌, arith}
use amaro.Http.{Request, Writer, header_get, header_set, on_header, canonical_key}
use amaro.Http.Fields.{header_get-set}
use amaro.Context.{
  Context, Outcome, Act, returned, panicked, ◌>>=◌, the_request, on_writer, set_header, when,
}

-- The writer with a header set, if asked.
unfoldable pub put : Bool → Str → Str → Writer → Writer
unfolding on_header header_set
put asked key value w = if asked then on_header (header_set key value) w else w

pub header_get-put :
    (asked : Bool) (key j value : Str) (w : Writer)
    → header_get j (put asked key value w).header ≡ (
        if str_eq (canonical_key key) (canonical_key j) && asked
        then value
        else header_get j w.header)
unfolding put on_header
header_get-put asked key j value w = ground (arith, header_get-set key j value w.header)

module _ {S : Type 0} (c : Context) (s : S) where
  pub the_request-bind :
      {A : Type 0} (f : Request → Act S A) {q : Request}
      → c.request ≡ some q
      → (the_request >>= f) c s ≡ f q c s
  unfolding the_request
  the_request-bind f e = ground (arith, e)

  pub on_writer-bind :
      {A : Type 0} (g : Writer → Writer) (f : Unit {0} → Act S A) {w : Writer}
      → c.writer ≡ some w
      → (on_writer g >>= f) c s ≡ f tt (record c { writer = some (g w) }) s
  unfolding on_writer
  on_writer-bind g f e = ground (arith, e)

  pub put-run :
      (asked : Bool) (key value : Str) {w : Writer}
      → c.writer ≡ some w
      → when asked (set_header key value) c s
        ≡ returned tt (record c { writer = some (put asked key value w) }) s
  unfolding when set_header put on_writer
  put-run true key value e = ground (arith, e)
  put-run false key value e = ap (λ x. returned tt (record c { writer = x }) s) e

  pub when_writer-bind :
      {A : Type 0} (asked : Bool) (g : Writer → Writer) (f : Unit {0} → Act S A) {w : Writer}
      → c.writer ≡ some w
      → (when asked (on_writer g) >>= f) c s
        ≡ f tt (record c { writer = some (if asked then g w else w) }) s
  unfolding when
  when_writer-bind true g f e = on_writer-bind g f e
  when_writer-bind false g f e = ap (λ x. f tt (record c { writer = x }) s) e

-- What follows a call that returned.
pub run-bind :
    {S A B : Type 0} (m : Act S A) (f : A → Act S B) (c : Context) (s : S) {a : A} {c' : Context}
    {s' : S}
    → m c s ≡ returned a c' s'
    → (m >>= f) c s ≡ f a c' s'
run-bind {S} {A} {B} m f c s e =
    ap
      (λ o. elim o as (λ _. Outcome S B) [
        | returned a c' s' ↦ f a c' s'
        | panicked v c' s' ↦ panicked v c' s'
      ])
      e
