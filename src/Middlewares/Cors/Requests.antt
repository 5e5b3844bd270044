-- ===== src/Middlewares/Cors/Requests.antt =====
-- What CORS does with a request.
use amaro.Prelude.{
  ◌≡◌, refl, ap, ◌∙◌, ◌⊎◌, inl, inr, Bool, true, false, not, ◌||◌, List, [], ◌∷◌, none, some, Str,
  codes, str_eq, str_eq_iff, is_empty, Bool-cases, arith,
}
use amaro.Http.{Request, Writer, header_get, header_add, on_header, canonical_key}
use amaro.Strings.{join}
use amaro.Http.Method
use amaro.Context.{Context, Handler, returned, Act, pure, when, set_header, ◌>>◌}
use amaro.Context.Steps.{put, header_get-put, run-bind, put-run, the_request-bind, on_writer-bind}
use amaro.Middlewares.Cors.{
  CorsConfig, star, merge, allow_origin, allowed_headers, cors_decision, cors,
}
use amaro.Middlewares.Cors.Origin.{listed, allow_origin-allowed_iff, allow_origin-one}

-- The writer once the answer says that it varies with the origin.
abbrev pub varied : Writer → Writer
varied = on_header (header_add (codes "Vary") (codes "Origin"))

abbrev pub origin_of : Request → Str
origin_of r = header_get (codes "Origin") r.header

-- What the response says of the origins that may read it.
abbrev pub allowed_origin : Writer → Str
allowed_origin w = header_get (codes "Access-Control-Allow-Origin") w.header

-- "*" or the origin is configured.
abbrev pub is_allowed : CorsConfig → Str → Bool
is_allowed cfg origin = listed star cfg.allow_origins || listed origin cfg.allow_origins

-- The writer of the answer to an allowed origin.
abbrev answered : CorsConfig → Str → Writer → Writer
answered cfg origin w =
    put (not (is_empty cfg.expose_headers)) (codes "Access-Control-Expose-Headers")
      (join (codes ",") cfg.expose_headers)
      (put cfg.allow_credentials (codes "Access-Control-Allow-Credentials") (codes "true")
        (put true (codes "Access-Control-Allow-Origin") origin w))

answered-allowed_origin :
    (cfg : CorsConfig) (origin : Str) (w : Writer) → allowed_origin (answered cfg origin w) ≡ origin
unfolding canonical_key str_eq
answered-allowed_origin cfg origin w =
    header_get-put (not (is_empty cfg.expose_headers)) (codes "Access-Control-Expose-Headers")
      (codes "Access-Control-Allow-Origin") _ _
    ∙ header_get-put cfg.allow_credentials (codes "Access-Control-Allow-Credentials")
        (codes "Access-Control-Allow-Origin") _ _
    ∙ header_get-put true (codes "Access-Control-Allow-Origin")
        (codes "Access-Control-Allow-Origin") origin w

module _ {S : Type 0} where
  cors-decided :
      (config : List CorsConfig) (next : Handler S) (c : Context) (s : S) (r : Request) (w : Writer)
      → c.request ≡ some r
      → c.writer ≡ some w
      → cors config next c s
        ≡ cors_decision
            (merge config)
            (str_eq r.method Method.options)
            (allow_origin (merge config) (origin_of r))
            next
            (record c { writer = some (varied w) })
            s
  unfolding cors
  cors-decided config next c s r w asked k = the_request-bind c s _ asked ∙ on_writer-bind c s _ _ k

  cors_decision-preflight :
      (cfg : CorsConfig) (origin : Str) (next next' : Handler S)
      → cors_decision cfg true origin next ≡ cors_decision cfg true origin next'
  unfolding cors_decision
  cors_decision-preflight cfg [] next next' = refl
  cors_decision-preflight cfg (b ∷ origin) next next' = refl

  -- A preflight request never reaches the handler: the outcome is the same whatever the handler is.
  pub cors-preflight :
      (config : List CorsConfig) (next next' : Handler S) (c : Context) (s : S) (r : Request)
      (w : Writer)
      → c.request ≡ some r
      → c.writer ≡ some w
      → r.method ≡ Method.options
      → cors config next c s ≡ cors config next' c s
  cors-preflight config next next' c s r w asked k h =
      rw
        (
          cors-decided config next c s r w asked k,
          cors-decided config next' c s r w asked k,
          (str_eq_iff r.method Method.options).1 h,
          cors_decision-preflight (merge config) _ next next',
        )
        refl

  expose-run :
      (exposed all : List Str) (c : Context) (s : S) (w : Writer)
      → c.writer ≡ some w
      → (elim exposed as (λ _. Act S (Unit {0})) [
        | [] ↦ pure tt
        | _ ↦ set_header (codes "Access-Control-Expose-Headers") (join (codes ",") all)
      ])
          c s
        ≡ returned tt
            (record c {
              writer = some (
                  put
                    (not (is_empty exposed))
                    (codes "Access-Control-Expose-Headers")
                    (join (codes ",") all)
                    w);
            })
            s
  unfolding put when
  expose-run [] all c s w k = ap (λ x. returned tt (record c { writer = x }) s) k
  expose-run (_ ∷ _) all c s w k =
      put-run c s true (codes "Access-Control-Expose-Headers") (join (codes ",") all) k

  allowed_headers-run :
      (cfg : CorsConfig) (origin : Str) (c : Context) (s : S) (w : Writer)
      → c.writer ≡ some w
      → allowed_headers cfg origin c s
        ≡ returned tt (record c { writer = some (answered cfg origin w) }) s
  unfolding allowed_headers when
  allowed_headers-run cfg origin c s w k =
      let w1 = put true (codes "Access-Control-Allow-Origin") origin w in
      let w2 =
        put cfg.allow_credentials (codes "Access-Control-Allow-Credentials") (codes "true") w1 in
      let e1 : set_header (codes "Access-Control-Allow-Origin") origin c s
          ≡ returned tt (record c { writer = some w1 }) s =
        put-run c s true (codes "Access-Control-Allow-Origin") origin k in
      let e2 =
        put-run (record c { writer = some w1 }) s cfg.allow_credentials
          (codes "Access-Control-Allow-Credentials") (codes "true") refl in
      let expose : Act S (Unit {0}) = elim cfg.expose_headers [
        | [] ↦ pure tt
        | _ ↦
            set_header (codes "Access-Control-Expose-Headers") (join (codes ",") cfg.expose_headers)
      ] in
      let credentials : Act S (Unit {0}) =
        when cfg.allow_credentials
          (set_header (codes "Access-Control-Allow-Credentials") (codes "true")) in
      run-bind (set_header (codes "Access-Control-Allow-Origin") origin)
        (λ _. credentials >> expose) c s e1
      ∙ run-bind credentials (λ _. expose) (record c { writer = some w1 }) s e2
      ∙ (expose-run cfg.expose_headers cfg.expose_headers (record c { writer = some w2 }) s w2 refl)

  cors_decision-allowed :
      (cfg : CorsConfig) (origin : Str) (next : Handler S) (c : Context) (s : S) (w : Writer)
      → is_empty origin ≡ false
      → c.writer ≡ some w
      → cors_decision cfg false origin next c s
        ≡ next (record c { writer = some (answered cfg origin w) }) s
  unfolding cors_decision
  cors_decision-allowed cfg origin next c s w e k =
      rw (cors_decision, e)
        (run-bind (allowed_headers cfg origin) (λ _. next) c s
          (allowed_headers-run cfg origin c s w k))

  cors_decision-refused :
      (cfg : CorsConfig) (origin : Str) (next : Handler S)
      → is_empty origin ≡ true
      → cors_decision cfg false origin next ≡ next
  unfolding cors_decision
  cors_decision-refused cfg origin next e = rw (cors_decision, e) refl

  -- A request that is no preflight and names its origin, where no custom function is configured and the
  -- context has a response, goes on to the handler, which gets the same context and memory but for the
  -- response. If neither "*" nor the origin is in the list of origins, the middleware has only added to
  -- the response that it varies with the origin. If one of them is, the response allows the origin, or
  -- "*" where no credentials are allowed.
  pub cors-origins :
      (config : List CorsConfig) (next : Handler S) (c : Context) (s : S) (r : Request) (w : Writer)
      → c.request ≡ some r
      → c.writer ≡ some w
      → str_eq r.method Method.options ≡ false
      → is_empty (origin_of r) ≡ false
      → (merge config).allow_origin_func ≡ none
      → (w' : Writer) × (cors config next c s ≡ next (record c { writer = some w' }) s)
        × (((is_allowed (merge config) (origin_of r) ≡ false) × (w' ≡ varied w))
            ⊎ ((is_allowed (merge config) (origin_of r) ≡ true)
                × ((allowed_origin w' ≡ origin_of r)
                    ⊎ ((allowed_origin w' ≡ star) × ((merge config).allow_credentials ≡ false)))))
  cors-origins config next c s r w asked k h named plain =
      let cfg = merge config in
      let origin = origin_of r in
      let decided = cors-decided config next c s r w asked k in
      let c' = record c { writer = some (varied w) } in
      let empty = allow_origin-allowed_iff cfg origin plain named in
      elim (Bool-cases (is_allowed cfg origin)) [
        | inr e ↦ (
          varied w,
          decided
              ∙ rw
                  (
                    h,
                    cors_decision-refused cfg (allow_origin cfg origin) next
                        (ground (arith, empty, e)),
                  )
                  refl,
          inl (e, refl),
        )
        | inl e ↦ (
          answered cfg (allow_origin cfg origin) (varied w),
          decided
              ∙ rw h (
                  cors_decision-allowed cfg (allow_origin cfg origin) next c' s (varied w)
                    (ground (arith, empty, e)) refl),
          inr (
            e,
            named_origin cfg origin (answered cfg (allow_origin cfg origin) (varied w))
                (answered-allowed_origin cfg (allow_origin cfg origin) (varied w))
                (allow_origin-one cfg origin plain e),
          ),
        )
      ]
    where
      named_origin :
          (cfg : CorsConfig) (origin : Str) (w' : Writer)
          → allowed_origin w' ≡ allow_origin cfg origin
          → (allow_origin cfg origin ≡ origin)
            ⊎ ((allow_origin cfg origin ≡ star) × (cfg.allow_credentials ≡ false))
          → (allowed_origin w' ≡ origin)
            ⊎ ((allowed_origin w' ≡ star) × (cfg.allow_credentials ≡ false))
      named_origin cfg origin w' h (inl e) = inl (h ∙ e)
      named_origin cfg origin w' h (inr (e, f)) = inr (h ∙ e, f)
