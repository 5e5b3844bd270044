-- ===== src/Middlewares/Secure/Transport.antt =====
-- The Strict-Transport-Security header.
use amaro.Prelude.{
  ◌≡◌, refl, ◌∙◌, Bool, not, List, [], ◌++◌, some, Str, codes, str_eq, is_empty, if◌then◌else◌,
  arith,
}
use amaro.Http.{Request, Writer, header_get, canonical_key}
use amaro.Context.{Context, Handler}
use amaro.Context.Steps.{the_request-bind, put, put-run, header_get-put}
use amaro.Middlewares.Secure.{
  SecureConfig, chosen, is_secure, transport_value, with_header, with_text, with_transport, secure,
}

abbrev pub transport_key : Str
transport_key = codes "Strict-Transport-Security"

abbrev put_text : Str → Str → Writer → Writer
put_text key value = put (not (is_empty value)) key value

-- The writer before the transport header.
abbrev framed : SecureConfig → Writer → Writer
framed cfg w = put_text (codes "X-Frame-Options") cfg.frame_options (
    put_text (codes "X-Content-Type-Options") cfg.content_type_options
      (put_text (codes "X-XSS-Protection") cfg.xss_protection w))

header_get-framed :
    (cfg : SecureConfig) (w : Writer)
    → header_get transport_key (framed cfg w).header ≡ header_get transport_key w.header
unfolding canonical_key str_eq
header_get-framed cfg w = simp header_get-put

module _ {S : Type 0} where
  with_header-run :
      (asked : Bool) (key value : Str) (next : Handler S) (c : Context) (s : S) {w : Writer}
      → c.writer ≡ some w
      → with_header asked key value next c s
        ≡ next (record c { writer = some (put asked key value w) }) s
  unfolding with_header
  with_header-run asked key value next c s k = ground (arith, put-run c s asked key value k)

  with_text-run :
      (key value : Str) (next : Handler S) (c : Context) (s : S) {w : Writer}
      → c.writer ≡ some w
      → with_text key value next c s ≡ next (record c { writer = some (put_text key value w) }) s
  with_text-run key value next c s k = with_header-run (not (is_empty value)) key value next c s k

  with_transport-run :
      (cfg : SecureConfig) (next : Handler S) (c : Context) (s : S) (r : Request) {w : Writer}
      → c.request ≡ some r
      → c.writer ≡ some w
      → with_transport cfg next c s
        ≡ next
            (record c { writer = some (put (is_secure r) transport_key (transport_value cfg) w) })
            s
  unfolding with_transport
  with_transport-run cfg next c s r asked k =
      the_request-bind c s _ asked
      ∙ with_header-run (is_secure r) transport_key (transport_value cfg) next c s k

  secure-continues :
      (config : List SecureConfig) (next : Handler S) (c : Context) (s : S) (r : Request)
      (w : Writer)
      → c.request ≡ some r
      → c.writer ≡ some w
      → secure config next c s
        ≡ next
            (record c {
              writer = some (
                  put
                    (is_secure r)
                    transport_key
                    (transport_value (chosen config))
                    (framed (chosen config) w));
            })
            s
  unfolding secure
  secure-continues config next c s r w asked k =
      let cfg = chosen config in
      let t = with_transport cfg next in
      let f = with_text (codes "X-Frame-Options") cfg.frame_options t in
      let o = with_text (codes "X-Content-Type-Options") cfg.content_type_options f in
      let w1 = put_text (codes "X-XSS-Protection") cfg.xss_protection w in
      let w2 = put_text (codes "X-Content-Type-Options") cfg.content_type_options w1 in
      with_text-run (codes "X-XSS-Protection") cfg.xss_protection o c s k
      ∙ with_text-run (codes "X-Content-Type-Options") cfg.content_type_options f
          (record c { writer = some w1 }) s refl
      ∙ with_text-run (codes "X-Frame-Options") cfg.frame_options t (record c { writer = some w2 })
          s refl
      ∙ with_transport-run cfg next (record c { writer = some (framed cfg w) }) s r asked refl

  -- Every request with a writer reaches the handler. If the request came over TLS, or its header
  -- X-Forwarded-Proto says https, the response's Strict-Transport-Security header is then a year, with
  -- the subdomains included exactly if the configuration says to exclude them, whatever maximal age it
  -- asks for; otherwise that header is what it was before.
  pub secure-transport :
      (config : List SecureConfig) (next : Handler S) (c : Context) (s : S) (r : Request)
      (w : Writer)
      → c.request ≡ some r
      → c.writer ≡ some w
      → (w' : Writer) × (secure config next c s ≡ next (record c { writer = some w' }) s)
        × (header_get transport_key w'.header ≡ (
            if is_secure r
            then codes "max-age=31536000"
              ++ (if (chosen config).hsts_exclude_subdomains
                  then codes "; includeSubDomains"
                  else [])
            else header_get transport_key w.header))
  unfolding transport_value canonical_key str_eq
  secure-transport config next c s r w asked k = (
    _,
    secure-continues config next c s r w asked k,
    ground (
      arith,
      header_get-put (is_secure r) transport_key transport_key (transport_value (chosen config))
          (framed (chosen config) w),
      header_get-framed (chosen config) w,
    ),
  )
