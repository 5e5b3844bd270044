-- ===== src/Middlewares/Compress/Encoded.antt =====
-- What a client is told of the encoding of a compressed response.
use amaro.Prelude.{◌≡◌, ap, ◌∙◌, List, [], ◌∷◌, Option, none, some, All, Str, codes, str_eq}
use amaro.Prelude.Assoc.{load-delete}
use amaro.Http.{
  Header, Writer, Sent, header_get, header_set, header_del, canonical_key, on_header, write_header,
  write, flush,
}
use amaro.Http.Fields.{header_get-set}
use amaro.Http.Sending.{
  told, HasHeaders, write_header-HasHeaders, write-HasHeaders, flush-HasHeaders,
}
use amaro.Middlewares.Compress.{
  Gzip, Call, change_header, set_status, put_bytes, flush_all, hand_on, call_compressed,
  run_compressed, close_compressed,
}

abbrev pub encoding : Header → Str
encoding h = header_get (codes "Content-Encoding") h

-- The handler's call leaves the encoding as it is.
abbrev pub KeepsEncoding : Call → Type 0
KeepsEncoding (change_header f) = (h : Header) → encoding (f h) ≡ encoding h
KeepsEncoding _ = Unit

abbrev pub IsEncoded : Writer → Type 0
IsEncoded w = (encoding w.header ≡ codes "gzip") × (encoding (told w) ≡ codes "gzip")

-- The two headers that Compress sets.
abbrev pub announced : Writer → Writer
announced w =
    on_header (header_set (codes "Vary") (codes "Accept-Encoding"))
      (on_header (header_set (codes "Content-Encoding") (codes "gzip")) w)

encoding-vary :
    (h : Header)
    → encoding (
        header_set
          (codes "Vary")
          (codes "Accept-Encoding")
          (header_set (codes "Content-Encoding") (codes "gzip") h))
      ≡ codes "gzip"
unfolding canonical_key str_eq
encoding-vary h =
    header_get-set (codes "Vary") (codes "Content-Encoding") (codes "Accept-Encoding") _
    ∙ header_get-set (codes "Content-Encoding") (codes "Content-Encoding") (codes "gzip") h

encoding-length : (h : Header) → encoding (header_del (codes "Content-Length") h) ≡ encoding h
unfolding header_get header_del canonical_key str_eq
encoding-length h =
    ap (λ v. elim v [ some (v ∷ _) ↦ v | _ ↦ [] ])
      (load-delete (canonical_key (codes "Content-Length"))
        (canonical_key (codes "Content-Encoding")) h)

pub announced-IsEncoded : (w : Writer) → w.sent ≡ none → IsEncoded (announced w)
unfolding on_header
announced-IsEncoded w h = (encoding-vary w.header, rw h (encoding-vary w.header))

HasHeaders-IsEncoded : (v w : Writer) → HasHeaders v w → IsEncoded w → IsEncoded v
HasHeaders-IsEncoded v w (h, t) (e, e') = (rw h e, rw t e')

-- A change of the header map that leaves the encoding as it is.
on_header-IsEncoded :
    (f : Header → Header) (w : Writer)
    → encoding (f w.header) ≡ encoding w.header
    → IsEncoded w
    → IsEncoded (on_header f w)
unfolding on_header
on_header-IsEncoded f w same (e, e') = (same ∙ e, by_sent w.sent e')
  where
    by_sent :
        (sent : Option Sent)
        → encoding (told (record w { sent = sent })) ≡ codes "gzip"
        → encoding (told (record w { header = f w.header; sent = sent })) ≡ codes "gzip"
    by_sent none _ = same ∙ e
    by_sent (some x) k = k

hand_on-IsEncoded : (bytes : Str) (w : Writer) → IsEncoded w → IsEncoded (hand_on bytes w)
unfolding hand_on
hand_on-IsEncoded [] w h = h
hand_on-IsEncoded (b ∷ bytes) w h =
    HasHeaders-IsEncoded (write (b ∷ bytes) w) w (write-HasHeaders (b ∷ bytes) w) h

module _ {Z : Type 0} (gzip : Gzip Z) where
  call_compressed-IsEncoded :
      (call : Call) (z : Z) (w : Writer)
      → KeepsEncoding call
      → IsEncoded w
      → IsEncoded (call_compressed gzip call (z, w)).1
  unfolding call_compressed
  call_compressed-IsEncoded (change_header f) z w k h = on_header-IsEncoded f w (k w.header) h
  call_compressed-IsEncoded (set_status code) z w k h =
      let w' = on_header (header_del (codes "Content-Length")) w in
      HasHeaders-IsEncoded (write_header code w') w' (write_header-HasHeaders code w')
        (on_header-IsEncoded (header_del (codes "Content-Length")) w (encoding-length w.header) h)
  call_compressed-IsEncoded (put_bytes bytes) z w k h = hand_on-IsEncoded _ w h
  call_compressed-IsEncoded flush_all z w k h =
      let w' = hand_on (gzip.flush_bytes z).0 w in
      HasHeaders-IsEncoded (flush w') w' (flush-HasHeaders w') (hand_on-IsEncoded _ w h)

  pub run_compressed-IsEncoded :
      (calls : List Call) (z : Z) (w : Writer)
      → All KeepsEncoding calls
      → IsEncoded w
      → IsEncoded (close_compressed gzip (run_compressed gzip calls (z, w)))
  unfolding run_compressed close_compressed
  run_compressed-IsEncoded [] z w _ h = hand_on-IsEncoded (gzip.close_bytes z) w h
  run_compressed-IsEncoded (call ∷ calls) z w (k, ks) h =
      let next = call_compressed gzip call (z, w) in
      run_compressed-IsEncoded calls next.0 next.1 ks (call_compressed-IsEncoded call z w k h)
