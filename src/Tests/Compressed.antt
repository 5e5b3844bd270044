-- ===== src/Tests/Compressed.antt =====
-- A response that is compressed, by a codec that copies.
use amaro.Prelude.{
  ◌≡◌, refl, [], ◌∷◌, ap, Option, none, some, List, Str, codes, ◌++◌, ◌⊎◌, true, false, All, str_eq,
}
use amaro.Http.{new_writer, header_set, canonical_key}
use amaro.Http.Fields.{header_get-set}
use amaro.Http.Sending.{told}
use amaro.Strings.{contains}
use amaro.Middlewares.Compress.{
  Gzip, Call, change_header, set_status, put_bytes, flush_all, run_directly, compress,
}
use amaro.Middlewares.Compress.Encoded.{encoding, KeepsEncoding}
use amaro.Middlewares.Compress.Decoded.{bytes_in, bytes_out, compress-decoded}

abbrev copying : Gzip (Unit {0})
copying = record {
  new_state = tt;
  compress_bytes = λ bytes z. (bytes, z);
  flush_bytes = λ z. ([], z);
  close_bytes = λ z. [];
}

copies : (ops : List (Option Str)) → bytes_out copying ops tt ≡ bytes_in ops
copies [] = refl
copies (none ∷ ops) = copies ops
copies (some bytes ∷ ops) = ap (λ rest. bytes ++ rest) (copies ops)

abbrev page : List Call
page =
    change_header (header_set (codes "Content-Length") (codes "2"))
    ∷ set_status 200
    ∷ put_bytes (codes "o")
    ∷ flush_all
    ∷ put_bytes (codes "k")
    ∷ []

page-KeepsEncoding : All KeepsEncoding page
unfolding canonical_key str_eq
page-KeepsEncoding = (
  λ h. header_get-set (codes "Content-Length") (codes "Content-Encoding") (codes "2") h,
  (tt, (tt, (tt, (tt, tt)))),
)

compress-decoded_example :
    ((contains (codes "gzip") (codes "br, gzip") ≡ true)
      × (encoding (told (compress copying (codes "br, gzip") page new_writer)) ≡ codes "gzip")
      × (some (compress copying (codes "br, gzip") page new_writer).body
          ≡ some (run_directly page new_writer).body))
    ⊎ ((contains (codes "gzip") (codes "br, gzip") ≡ false)
        × (compress copying (codes "br, gzip") page new_writer ≡ run_directly page new_writer))
compress-decoded_example =
    compress-decoded copying some (λ ops. ap some (copies ops)) (codes "br, gzip") page new_writer
      refl refl page-KeepsEncoding

body_ok : (compress copying (codes "br, gzip") page new_writer).body ≡ codes "ok"
unfolding compress
body_ok = refl
