-- ===== src/Middlewares/Compress/Decoded.antt =====
-- What a client decodes of a compressed response.
use amaro.Prelude.{
  ◌≡◌, refl, sym, ap, ◌∙◌, ◌⊎◌, inl, inr, Bool-cases, true, false, All, List, [], ◌∷◌, ◌++◌,
  append-nil, append_assoc, Option, none, some, Str, codes,
}
use amaro.Http.{Writer, on_header, header_del, write_header, write, flush}
use amaro.Http.Sending.{told, write-body, flush-body, write_header-body}
use amaro.Strings.{contains}
use amaro.Middlewares.Compress.{
  Gzip, Call, change_header, set_status, put_bytes, flush_all, call_directly, run_directly, hand_on,
  call_compressed, run_compressed, close_compressed, compress,
}
use amaro.Middlewares.Compress.Encoded.{
  encoding, KeepsEncoding, announced, announced-IsEncoded, run_compressed-IsEncoded,
}

-- What is handed to gzip between its start and its end: bytes, or `none` for a flush.
abbrev pub given : List Call → List (Option Str)
given [] = []
given (change_header f ∷ calls) = given calls
given (set_status code ∷ calls) = given calls
given (put_bytes bytes ∷ calls) = some bytes ∷ given calls
given (flush_all ∷ calls) = none ∷ given calls

-- The bytes that go in, and those that come out, Close included.
abbrev pub bytes_in : List (Option Str) → Str
bytes_in [] = []
bytes_in (none ∷ ops) = bytes_in ops
bytes_in (some bytes ∷ ops) = bytes ++ bytes_in ops

abbrev pub bytes_out : {Z : Type 0} → Gzip Z → List (Option Str) → Z → Str
bytes_out gzip [] z = gzip.close_bytes z
bytes_out gzip (none ∷ ops) z = let (out, z') = gzip.flush_bytes z in out ++ bytes_out gzip ops z'
bytes_out gzip (some bytes ∷ ops) z =
    let (out, z') = gzip.compress_bytes bytes z in out ++ bytes_out gzip ops z'

run_directly-body :
    (calls : List Call) (w : Writer)
    → (run_directly calls w).body ≡ w.body ++ bytes_in (given calls)
unfolding run_directly call_directly on_header
run_directly-body [] w = sym (append-nil w.body)
run_directly-body (change_header f ∷ calls) w = run_directly-body calls (on_header f w)
run_directly-body (set_status code ∷ calls) w =
    run_directly-body calls (write_header code w)
    ∙ ap (λ b. b ++ bytes_in (given calls)) (write_header-body code w)
run_directly-body (put_bytes bytes ∷ calls) w =
    run_directly-body calls (write bytes w)
    ∙ ap (λ b. b ++ bytes_in (given calls)) (write-body bytes w)
    ∙ append_assoc w.body bytes (bytes_in (given calls))
run_directly-body (flush_all ∷ calls) w =
    run_directly-body calls (flush w) ∙ ap (λ b. b ++ bytes_in (given calls)) (flush-body w)

hand_on-body : (bytes : Str) (w : Writer) → (hand_on bytes w).body ≡ w.body ++ bytes
unfolding hand_on
hand_on-body [] w = sym (append-nil w.body)
hand_on-body (c ∷ bytes) w = write-body (c ∷ bytes) w

module _ {Z : Type 0} (gzip : Gzip Z) where
  run_compressed-body :
      (calls : List Call) (z : Z) (w : Writer)
      → (close_compressed gzip (run_compressed gzip calls (z, w))).body
        ≡ w.body ++ bytes_out gzip (given calls) z
  unfolding run_compressed call_compressed close_compressed on_header
  run_compressed-body [] z w = hand_on-body (gzip.close_bytes z) w
  run_compressed-body (change_header f ∷ calls) z w = run_compressed-body calls z (on_header f w)
  run_compressed-body (set_status code ∷ calls) z w =
      let w' = on_header (header_del (codes "Content-Length")) w in
      run_compressed-body calls z (write_header code w')
      ∙ ap (λ b. b ++ bytes_out gzip (given calls) z) (write_header-body code w')
  run_compressed-body (put_bytes bytes ∷ calls) z w =
      let out = gzip.compress_bytes bytes z in
      run_compressed-body calls out.1 (hand_on out.0 w)
      ∙ ap (λ b. b ++ bytes_out gzip (given calls) out.1) (hand_on-body out.0 w)
      ∙ append_assoc w.body out.0 (bytes_out gzip (given calls) out.1)
  run_compressed-body (flush_all ∷ calls) z w =
      let out = gzip.flush_bytes z in
      run_compressed-body calls out.1 (flush (hand_on out.0 w))
      ∙ ap (λ b. b ++ bytes_out gzip (given calls) out.1)
          (flush-body (hand_on out.0 w) ∙ hand_on-body out.0 w)
      ∙ append_assoc w.body out.0 (bytes_out gzip (given calls) out.1)

  -- For a response of which nothing is sent or written yet, and a handler that does not touch the
  -- Content-Encoding: a client that accepts gzip is told that the response is encoded with gzip, and
  -- if `unzip` decodes what gzip makes of any sequence of bytes and flushes, it makes of the body what
  -- the handler would have written without the middleware. For other clients the whole response is
  -- the one without the middleware.
  pub compress-decoded :
      (unzip : Str → Option Str)
      → ((ops : List (Option Str))
          → unzip (bytes_out gzip ops gzip.new_state) ≡ some (bytes_in ops))
      → (accept_encoding : Str) (calls : List Call) (w : Writer) → w.body ≡ []
      → w.sent ≡ none
      → All KeepsEncoding calls
      → ((contains (codes "gzip") accept_encoding ≡ true)
          × (encoding (told (compress gzip accept_encoding calls w)) ≡ codes "gzip")
          × (unzip (compress gzip accept_encoding calls w).body ≡ some (run_directly calls w).body))
        ⊎ ((contains (codes "gzip") accept_encoding ≡ false)
            × (compress gzip accept_encoding calls w ≡ run_directly calls w))
  unfolding compress on_header
  compress-decoded unzip law accept_encoding calls w empty unsent keeps =
      let ops = given calls in
      let written : (run_directly calls w).body ≡ bytes_in ops =
        run_directly-body calls w ∙ ap (λ b. b ++ bytes_in ops) empty in
      elim (Bool-cases (contains (codes "gzip") accept_encoding)) [
        | inl e ↦
            let sent =
              run_compressed-body calls gzip.new_state (announced w)
              ∙ ap (λ b. b ++ bytes_out gzip ops gzip.new_state) empty in
            let encoded =
              run_compressed-IsEncoded gzip calls gzip.new_state (announced w) keeps
                (announced-IsEncoded w unsent) in
            inl (e, rw e encoded.1, rw e (ap unzip sent ∙ law ops ∙ ap some (sym written)))
        | inr e ↦ inr (e, rw e refl)
      ]
