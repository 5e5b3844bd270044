-- ===== src/Middlewares/RequestId/Echo.antt =====
-- The id that a request gets.
use amaro.Prelude.{◌≡◌, refl, ◌∙◌, ℕ, some, Str, codes, str_eq}
use amaro.Errors.{string}
use amaro.Http.{Request, Writer, header_get, header_set, on_header, canonical_key}
use amaro.Http.Fields.{header_get-set}
use amaro.Context.{Context, Handler, ◌>>◌, set_header, set_key, get_key}
use amaro.Context.Steps.{the_request-bind, on_writer-bind}
use amaro.Context.Keys.{keyed, keyed-run, get_key-keyed}
use amaro.Middlewares.RequestId.{request_id_key, pick, picked, request_id}

abbrev pub field : Str
field = codes "X-Request-ID"

abbrev pub sent : Request → Str
sent r = header_get field r.header

module _ {S : Type 0} (random : ℕ → S → Str × S) where
  request_id-run :
      (next : Handler S) (c : Context) (s : S) (r : Request) (w : Writer)
      → c.request ≡ some r
      → c.writer ≡ some w
      → request_id random next c s
        ≡ next
            (keyed request_id_key (string (pick random (sent r) s).0) (record c {
              writer = some (on_header (header_set field (pick random (sent r) s).0) w);
            }))
            ((pick random (sent r) s).1)
  unfolding request_id set_header picked
  request_id-run next c s r w asked k =
      let (id, s') = pick random (sent r) s in
      let v = string id in
      the_request-bind c s _ asked
      ∙ on_writer-bind c s' (on_header (header_set field id))
          (λ _. set_key request_id_key v >> next) k
      ∙ keyed-run request_id_key v next
          (record c { writer = some (on_header (header_set field id) w) }) s'

  -- Every request reaches the handler, with one id in the response's header and under the context's
  -- key: the one that the client sent, if it is not empty, and then no randomness is used, or else
  -- 16 random bytes in hexadecimal.
  pub request_id-echoes :
      (next : Handler S) (c : Context) (s : S) (r : Request) (w : Writer)
      → c.request ≡ some r
      → c.writer ≡ some w
      → (c' : Context) × (w' : Writer) × (request_id random next c s
          ≡ next c' (pick random (sent r) s).1)
        × (get_key request_id_key c' ≡ some (string (pick random (sent r) s).0))
        × (c'.writer ≡ some w')
        × (header_get field w'.header ≡ (pick random (sent r) s).0)
  unfolding on_header canonical_key str_eq
  request_id-echoes next c s r w asked k = (
    _,
    _,
    request_id-run next c s r w asked k,
    get_key-keyed request_id_key (string (pick random (sent r) s).0)
        (record c { writer = some (on_header (header_set field (pick random (sent r) s).0) w) }),
    refl,
    header_get-set field field (pick random (sent r) s).0 w.header,
  )
